-- ===== src/Identity/Authentication/Sessions/Revoked.antt =====
-- An account whose sessions are all revoked: nobody authenticates as it.
use taymex.Prelude.{◌≡◌, ◌≢◌, sym, ap, ◌∙◌, ℕ, Text, Option, some, true, false}
use taymex.Foundation.Errors.{ok}
use taymex.Identity.Account.{Account}
use taymex.Identity.Session.{SessionRecord, is_some}
use taymex.Identity.Actor.{ActorContext}
use taymex.Identity.Contracts.{IdentitySecurityEvent}
use taymex.Identity.Authentication.{IdentityService}
use taymex.Identity.Authentication.Sessions.{authenticate_session}
use taymex.Identity.Authentication.Sessions.Laws.{authenticate_session-IsAdmitted}

module _ {S : Type 0} (service : IdentityService S) where
  -- Every session of the account that a secret finds is revoked.
  pub record IsLockedOut (s : S) (account_id : Text) : Type 0 where
    pub revoked :
        (hash : Text) (session : SessionRecord)
        → service.repository.find_session_by_token_hash hash s ≡ ok (some session)
        → session.account_id ≡ account_id
        → is_some session.revoked_at ≡ true

  -- What the repository and the sink of events promise: revoking the sessions of an account reaches
  -- each of them, an account is found by its own id, and an event changes no session.
  pub record IsRevoking : Type 0 where
    pub revoked :
        (account_id : Text) (now : ℕ) (s t : S) (n : ℕ)
        → service.repository.revoke_all_sessions_for_account account_id now s ≡ (ok n, t)
        → IsLockedOut t account_id
    pub found :
        (id : Text) (s : S) (account : Account)
        → service.repository.find_account_by_id id s ≡ ok (some account)
        → account.id ≡ id
    pub emitted :
        (event : IdentitySecurityEvent) (s : S) (hash : Text)
        → service.repository.find_session_by_token_hash hash (service.emit event s).1
          ≡ service.repository.find_session_by_token_hash hash s

  pub IsLockedOut-not_authenticated :
      IsRevoking
      → (account_id : Text) (s : S) → IsLockedOut s account_id
      → (secret : Text) (correlation_id : Option Text) (now : ℕ) (t : S) {actor : ActorContext}
      → authenticate_session service secret correlation_id now s ≡ (ok actor, t)
      → actor.account_id ≢ account_id
  IsLockedOut-not_authenticated laws account_id s locked secret correlation_id now t {actor} h =
      λ same.
        let (session, account, e, admitted, _) =
          authenticate_session-IsAdmitted service secret correlation_id now s t h in
        let owner = laws.found session.account_id s account admitted.entitled.found in
        let shut =
          locked.revoked (service.token_hash secret) session e
            (sym owner ∙ sym admitted.account_id ∙ same) in
        let open_one = admitted.active.not_revoked in
        let clash : true ≡ false = sym shut ∙ ap is_some open_one in cc

  pub emit-IsLockedOut :
      IsRevoking
      → (event : IdentitySecurityEvent) (account_id : Text) (s t : S) {a : Unit {0}}
      → service.emit event s ≡ (ok a, t)
      → IsLockedOut s account_id
      → IsLockedOut t account_id
  emit-IsLockedOut laws event account_id s t h locked = record {
    revoked = λ hash session e k.
        locked.revoked hash session (sym (laws.emitted event s hash) ∙ (rw (ap (λ r. r.1) h) e)) k;
  }
