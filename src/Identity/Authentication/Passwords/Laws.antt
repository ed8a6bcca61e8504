-- ===== src/Identity/Authentication/Passwords/Laws.antt =====
-- A change of the password, and a reset of it, shut out every session of the account; a reset's
-- token is used up.
use mathlib.Core.Path.{subst}
use taymex.Prelude.{◌≡◌, ◌≢◌, refl, ap, arith, ◌∙◌, ℕ, Text, Option, none, some, true}
use taymex.Foundation.Errors.{Result, ok, err}
use taymex.Effects.Runs.{>>=-ok, query-ok, lift-ok, atomic-ok}
use taymex.Identity.Session.{is_some}
use taymex.Identity.Actor.{ActorContext}
use taymex.Identity.Contracts.{
  PasswordCredential, IdentityChallenge, IdentityChallengeKind, IdentitySecurityEvent,
  ConsumeResult, consumed, unavailable,
}
use taymex.Identity.Password.{assert_password_policy}
use taymex.Identity.Authentication.{
  IdentityService, challenge_invalid_error, require_active_challenge, looked_up,
}
use taymex.Identity.Authentication.Sessions.{authenticate_session}
use taymex.Identity.Authentication.Sessions.Revoked.{
  IsLockedOut, IsRevoking, IsLockedOut-not_authenticated, emit-IsLockedOut,
}
use taymex.Identity.Authentication.Passwords.{
  change_password, store_changed, store_reset, verified_credential, is_consumed, next_credential,
}

module _ {S : Type 0} (service : IdentityService S) where
  store_changed-IsLockedOut :
      IsRevoking service
      → (actor : ActorContext) (credential : PasswordCredential) (hash : Text)
        (correlation_id : Option Text) (now : ℕ) (s t : S) {a : Unit {0}}
      → store_changed service actor credential hash correlation_id now s ≡ (ok a, t)
      → IsLockedOut service t actor.account_id
  store_changed-IsLockedOut laws actor credential hash correlation_id now s t h =
      let (_, s1, _, r1) =
        >>=-ok
          (service.repository.replace_password_credential (next_credential credential hash now)) _ s
          h in
      let (n, s2, e, r2) =
        >>=-ok (service.repository.revoke_all_sessions_for_account actor.account_id now) _ s1 r1 in
      let (_, s3, e3, r3) = >>=-ok (service.emit _) _ s2 r2 in
      emit-IsLockedOut service laws _ actor.account_id s3 t r3 (
        emit-IsLockedOut service laws _ actor.account_id s2 s3 e3
          (laws.revoked actor.account_id now s1 s2 n e))

  change_password-IsLockedOut :
      IsRevoking service
      → (actor : ActorContext) (current_password new_password : Text) (correlation_id : Option Text)
        (now : ℕ) (s t : S) {a : Unit {0}}
      → change_password service actor current_password new_password correlation_id now s ≡ (ok a, t)
      → IsLockedOut service t actor.account_id
  unfolding change_password
  change_password-IsLockedOut laws actor current_password new_password correlation_id now s t h =
      let (found, _, r1) =
        query-ok (service.repository.find_password_credential actor.account_id) _ s h in
      let (credential, _, r2) =
        query-ok (verified_credential service current_password found) _ s r1 in
      let (_, _, r3) =
        lift-ok (assert_password_policy new_password service.policy.password_policy) _ s r2 in
      let (hash, _, r4) = query-ok (service.password_hasher.hash new_password) _ s r3 in
      store_changed-IsLockedOut laws actor credential hash correlation_id now s t
        (atomic-ok (store_changed service actor credential hash correlation_id now) s r4)

  -- Once a password has been changed, no secret authenticates as the account that changed it: not
  -- that of a session that was there before, and at no later time. The repository's revocation has to
  -- reach every session of an account, and the sink of events none.
  pub change_password-lockout :
      IsRevoking service
      → (actor : ActorContext) (current_password new_password : Text) (correlation_id : Option Text)
        (now : ℕ) (s t : S)
      → change_password service actor current_password new_password correlation_id now s
        ≡ (ok tt, t)
      → (secret : Text) (id : Option Text) (later : ℕ) (u : S) (other : ActorContext)
      → authenticate_session service secret id later t ≡ (ok other, u)
      → other.account_id ≢ actor.account_id
  change_password-lockout laws actor current_password new_password correlation_id now s t h secret
        id later u other k =
      IsLockedOut-not_authenticated service laws actor.account_id t
        (change_password-IsLockedOut laws actor current_password new_password correlation_id now s t
          h)
        secret id later u k

  -- The challenge of a secret is used up.
  pub record IsUsedUp (s : S) (kind : IdentityChallengeKind) (hash : Text) : Type 0 where
    pub challenge : IdentityChallenge
    pub found : service.repository.find_challenge_by_token_hash kind hash s ≡ ok (some challenge)
    pub consumed_at : is_some challenge.consumed_at ≡ true

  -- What the repository promises of challenges in a state, and that the other steps of a reset leave
  -- them alone.
  pub record IsConsuming (s : S) : Type 0 where
    pub used :
        (kind : IdentityChallengeKind) (hash : Text) (challenge : IdentityChallenge)
        (version now : ℕ) (t : S)
        → service.repository.find_challenge_by_token_hash kind hash s ≡ ok (some challenge)
        → service.repository.consume_challenge_if_active challenge.id version now s
          ≡ (ok consumed, t)
        → IsUsedUp t kind hash
    pub replaced :
        (credential : PasswordCredential) (t : S) (kind : IdentityChallengeKind) (hash : Text)
        → IsUsedUp t kind hash
        → IsUsedUp (service.repository.replace_password_credential credential t).1 kind hash
    pub revoked :
        (account_id : Text) (now : ℕ) (t : S) (kind : IdentityChallengeKind) (hash : Text)
        → IsUsedUp t kind hash
        → IsUsedUp (service.repository.revoke_all_sessions_for_account account_id now t).1 kind hash
    pub emitted :
        (event : IdentitySecurityEvent) (t : S) (kind : IdentityChallengeKind) (hash : Text)
        → IsUsedUp t kind hash
        → IsUsedUp (service.emit event t).1 kind hash

  pub looked_up-found :
      (now : ℕ) (r : Result (Option IdentityChallenge)) {c : IdentityChallenge}
      → looked_up service now r ≡ ok c
      → r ≡ ok (some c)
  looked_up-found now (err e) h = cc
  looked_up-found now (ok none) h = cc
  looked_up-found now (ok (some d)) h = ground arith

  looked_up-used :
      (now : ℕ) (c : IdentityChallenge)
      → is_some c.consumed_at ≡ true
      → looked_up service now (ok (some c)) ≡ err challenge_invalid_error
  looked_up-used now c h = ground arith

  pub require_active_challenge-used :
      (kind : IdentityChallengeKind) (token : Text) (now : ℕ) (s : S)
      → IsUsedUp s kind (service.token_hash token)
      → require_active_challenge service kind token now s ≡ err challenge_invalid_error
  unfolding require_active_challenge
  require_active_challenge-used kind token now s used =
      ap (looked_up service now) used.found ∙ looked_up-used now used.challenge used.consumed_at

  pub store_reset-leaves :
      (challenge : IdentityChallenge) (credential : PasswordCredential) (hash : Text)
      (correlation_id : Option Text) (now : ℕ) (s t : S) {a : Unit {0}}
      → store_reset service challenge credential hash correlation_id now s ≡ (ok a, t)
      → (s1 : S) × (service.repository.consume_challenge_if_active challenge.id challenge.version
            now s
          ≡ (ok consumed, s1))
        × (IsRevoking service → IsLockedOut service t challenge.account_id)
        × ((kind : IdentityChallengeKind) (token : Text)
            → IsConsuming s
            → IsUsedUp s1 kind token
            → IsUsedUp t kind token)
  store_reset-leaves challenge credential hash correlation_id now s t h =
      let (result, s1, e1, r1) =
        >>=-ok (service.repository.consume_challenge_if_active challenge.id challenge.version now) _
          s h in
      let (_, yes_consumed, r2) = lift-ok (is_consumed result) _ s1 r1 in
      let (_, s2, e2, r3) =
        >>=-ok
          (service.repository.replace_password_credential (next_credential credential hash now)) _
          s1 r2 in
      let (n, s3, e3, r4) =
        >>=-ok (service.repository.revoke_all_sessions_for_account challenge.account_id now) _ s2
          r3 in
      let (_, s4, e4, r5) = >>=-ok (service.emit _) _ s3 r4 in
      (
        s1,
        e1 ∙ ap (λ x. (ok x, s1)) (was_consumed result yes_consumed),
        λ laws. emit-IsLockedOut service laws _ challenge.account_id s4 t r5 (
            emit-IsLockedOut service laws _ challenge.account_id s3 s4 e4
              (laws.revoked challenge.account_id now s2 s3 n e3)),
        λ kind token laws used.
            subst (λ x. IsUsedUp x kind token) (ap (λ r. r.1) r5)
              (laws.emitted _ s4 kind token (
                subst (λ x. IsUsedUp x kind token) (ap (λ r. r.1) e4)
                  (laws.emitted _ s3 kind token (
                    subst (λ x. IsUsedUp x kind token) (ap (λ r. r.1) e3)
                      (laws.revoked challenge.account_id now s2 kind token (
                        subst (λ x. IsUsedUp x kind token) (ap (λ r. r.1) e2)
                          (laws.replaced (next_credential credential hash now) s1 kind token
                            used))))))),
      )
    where
      was_consumed : (r : ConsumeResult) {a : Unit {0}} → is_consumed r ≡ ok a → r ≡ consumed
      was_consumed consumed k = refl
      was_consumed unavailable k = cc
