-- ===== src/Identity/Persistence/Promises.antt =====
-- The repository over the tables keeps what the service relies on.
use mathlib.Core.Path.{subst}
use taymex.Prelude.{
  ◌≡◌, refl, sym, ap, ◌∙◌, arith, Text, Option, some, Bool, true, false, List, [], ◌∷◌, find, any,
  text_eq, text_eq_iff, inl, inr,
}
use taymex.Foundation.Errors.{ok}
use taymex.Identity.Account.{Account}
use taymex.Identity.Session.{SessionRecord}
use taymex.Identity.Contracts.{
  PasswordCredential, IdentityChallengeKind, IdentitySecurityEvent, consumed,
}
use taymex.Identity.Authentication.{IdentityService}
use taymex.Identity.Authentication.Sessions.Revoked.{IsRevoking}
use taymex.Identity.Authentication.Passwords.Laws.{IsConsuming, IsUsedUp}
use taymex.Identity.Persistence.Tables.{IdentityTables, consumable, is_challenge, distinct}
use taymex.Identity.Persistence.Laws.{
  find-cases, none_open, found-IsConsumed, challenge_ids, IsConsumed,
}
use taymex.Identity.Persistence.{
  Database, postgres_identity_repository, find_account_by_id, find_session_by_token_hash,
  revoke_all_sessions_for_account, find_challenge_by_token_hash, consume_challenge_if_active,
  replace_password_credential, consumed_if,
}

found_inside {ℓ} : {A : Type ℓ} {o : Option A} {a : A} → ok o ≡ ok (some a) → o ≡ some a
found_inside h = cc

found_id :
    (id : Text) (rows : List Account) {account : Account}
    → find (λ (r : Account). text_eq r.id id) rows ≡ some account
    → account.id ≡ id
found_id id [] h = cc
found_id id (r ∷ rows) {account} h = elim (find-cases (λ (x : Account). text_eq x.id id) r rows h) [
  | inl (same, hit) ↦ sym (ap (λ (x : Account). x.id) same) ∙ (text_eq_iff r.id id).0 hit
  | inr (_, rest) ↦ found_id id rows rest
]

module _ {W : Type 0} (service : IdentityService (Database W)) where
  -- The service with the repository over the tables.
  abbrev pub over_tables : IdentityService (Database W)
  over_tables = record service { repository = postgres_identity_repository W }

  -- The repository over the tables revokes every session of an account that it is asked to, and
  -- finds an account by its own id, as the service needs, if the sink of events leaves the tables
  -- alone.
  pub postgres-IsRevoking :
      ((event : IdentitySecurityEvent) (s : Database W) → (service.emit event s).1.0 ≡ s.0)
      → IsRevoking over_tables
  unfolding find_account_by_id find_session_by_token_hash revoke_all_sessions_for_account
  postgres-IsRevoking quiet = record {
    revoked = λ account_id now s t n h. record {
      revoked = λ hash session e k.
          none_open account_id now (λ (r : SessionRecord). text_eq r.token_hash hash) s.0.sessions
            (found_inside (
              subst
                (λ (x : Database W).
                  ok (find (λ (r : SessionRecord). text_eq r.token_hash hash) x.0.sessions)
                  ≡ ok (some session))
                (sym (ap (λ r. r.1) h)) e))
            k;
    };
    found = λ id s account e. found_id id s.0.accounts (found_inside e);
    emitted = λ event s hash.
        ap
          (λ (x : IdentityTables).
            ok (find (λ (r : SessionRecord). text_eq r.token_hash hash) x.sessions))
          (quiet event s);
  }

  IsUsedUp-same :
      (s t : Database W) (kind : IdentityChallengeKind) (hash : Text)
      → t.0.challenges ≡ s.0.challenges
      → IsUsedUp over_tables s kind hash
      → IsUsedUp over_tables t kind hash
  unfolding find_challenge_by_token_hash
  IsUsedUp-same s t kind hash same used = record {
    challenge = used.challenge;
    found = ap (λ rows. ok (find (is_challenge kind hash) rows)) same ∙ used.found;
    consumed_at = used.consumed_at;
  }

  replace_password_credential-challenges :
      (credential : PasswordCredential) (t : Database W)
      → (replace_password_credential credential t).1.0.challenges ≡ t.0.challenges
  unfolding replace_password_credential
  replace_password_credential-challenges credential t = ground arith

  was_any : (b : Bool) → ok (consumed_if b) ≡ ok consumed → b ≡ true
  was_any true h = refl
  was_any false h = cc

  -- In a state where no two challenges have the same id, the repository over the tables keeps a
  -- consumed challenge consumed through the steps of a reset, as the service needs, if the sink of
  -- events leaves the tables alone.
  pub postgres-IsConsuming :
      ((event : IdentitySecurityEvent) (s : Database W) → (service.emit event s).1.0 ≡ s.0)
      → (s : Database W) → distinct challenge_ids s.0.challenges ≡ true
      → IsConsuming over_tables s
  unfolding find_challenge_by_token_hash consume_challenge_if_active IsConsumed
      revoke_all_sessions_for_account
  postgres-IsConsuming quiet s u = record {
    used = λ kind hash challenge version now t e h.
        let (d, f, k) =
          found-IsConsumed kind hash version now s.0.challenges {c = challenge} u (found_inside e) (
            was_any (any (consumable challenge.id version now) s.0.challenges) (ap (λ r. r.0) h)) in
        record {
          challenge = d;
          found =
              subst
                (λ (x : Database W).
                  ok (find (is_challenge kind hash) x.0.challenges) ≡ ok (some d))
                (ap (λ r. r.1) h) (ap ok f);
          consumed_at = k;
        };
    replaced = λ credential t kind hash.
        IsUsedUp-same t (replace_password_credential credential t).1 kind hash
          (replace_password_credential-challenges credential t);
    revoked = λ account_id now t kind hash.
        IsUsedUp-same t (revoke_all_sessions_for_account account_id now t).1 kind hash refl;
    emitted = λ event t kind hash.
        IsUsedUp-same t (service.emit event t).1 kind hash
          (ap (λ (x : IdentityTables). x.challenges) (quiet event t));
  }
