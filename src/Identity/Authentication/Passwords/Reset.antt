-- ===== src/Identity/Authentication/Passwords/Reset.antt =====
-- What a completed reset of a password leaves.
use taymex.Prelude.{◌≡◌, ◌≢◌, refl, sym, ap, ◌∙◌, ℕ, Text, Option, some}
use taymex.Foundation.Errors.{Result, ok, err}
use taymex.Effects.Runs.{query-ok, lift-ok, atomic-ok}
use taymex.Identity.Actor.{ActorContext}
use taymex.Identity.Contracts.{IdentityChallenge, IdentityChallengeKind}
use taymex.Identity.Password.{assert_password_policy}
use taymex.Identity.Authentication.{
  IdentityService, challenge_invalid_error, found_or, require_active_challenge,
}
use taymex.Identity.Authentication.Sessions.{authenticate_session}
use taymex.Identity.Authentication.Sessions.Revoked.{
  IsLockedOut, IsRevoking, IsLockedOut-not_authenticated,
}
use taymex.Identity.Authentication.Passwords.{complete_password_reset, store_reset}
use taymex.Identity.Authentication.Passwords.Laws.{
  IsUsedUp, IsConsuming, require_active_challenge-used, looked_up-found, store_reset-leaves,
}

module _ {S : Type 0} (service : IdentityService S) where
  -- A reset that was completed.
  record IsReset (s t : S) (token : Text) : Type 0 where
    challenge : IdentityChallenge
    found :
        service.repository.find_challenge_by_token_hash IdentityChallengeKind.password_reset
          (service.token_hash token)
          s
        ≡ ok (some challenge)
    locked : IsRevoking service → IsLockedOut service t challenge.account_id
    used :
        IsConsuming service s
        → IsUsedUp service t IdentityChallengeKind.password_reset (service.token_hash token)

  complete_password_reset-IsReset :
      (token new_password : Text) (correlation_id : Option Text) (now : ℕ) (s t : S) {a : Unit {0}}
      → complete_password_reset service token new_password correlation_id now s ≡ (ok a, t)
      → IsReset s t token
  unfolding complete_password_reset require_active_challenge
  complete_password_reset-IsReset token new_password correlation_id now s t h =
      let (_, _, r1) =
        lift-ok (assert_password_policy new_password service.policy.password_policy) _ s h in
      let (challenge, e2, r2) =
        query-ok (require_active_challenge service IdentityChallengeKind.password_reset token now) _
          s r1 in
      let (found, _, r3) =
        query-ok (service.repository.find_password_credential challenge.account_id) _ s r2 in
      let (credential, _, r4) = lift-ok (found_or challenge_invalid_error found) _ s r3 in
      let (hash, _, r5) = query-ok (service.password_hasher.hash new_password) _ s r4 in
      let (s1, e6, locked, used) =
        store_reset-leaves service challenge credential hash correlation_id now s t
          (atomic-ok (store_reset service challenge credential hash correlation_id now) s r5) in
      let e = looked_up-found service now _ e2 in
      record {
        challenge = challenge;
        found = e;
        locked = locked;
        used = λ laws. used IdentityChallengeKind.password_reset (service.token_hash token) laws (
            laws.used IdentityChallengeKind.password_reset (service.token_hash token) challenge
              challenge.version now s1 e e6);
      }

  -- A reset's token works once: after a completed reset, another with the same token is refused as
  -- invalid and leaves the state as it is, whatever the new password, if the policy takes it, and the
  -- time. The repository has to keep a challenge consumed, which the state of the first reset has to
  -- allow.
  pub complete_password_reset_once :
      (token first second : Text) (id other_id : Option Text) (now later : ℕ) (s t : S)
      → IsConsuming service s
      → complete_password_reset service token first id now s ≡ (ok tt, t)
      → assert_password_policy second service.policy.password_policy ≡ ok second
      → complete_password_reset service token second other_id later t
        ≡ (err challenge_invalid_error, t)
  unfolding complete_password_reset
  complete_password_reset_once token first second id other_id now later s t laws h accepted =
      let used = (complete_password_reset-IsReset token first id now s t h).used laws in
      rw
        (
          accepted,
          require_active_challenge-used service IdentityChallengeKind.password_reset token later t
              used,
        )
        refl

  -- Once a password has been reset, no secret authenticates as the account that the token was issued
  -- for. The repository's revocation has to reach every session of an account, and the sink of events
  -- none.
  pub complete_password_reset-lockout :
      IsRevoking service
      → (token new_password : Text) (correlation_id : Option Text) (now : ℕ) (s t : S)
        (challenge : IdentityChallenge)
      → service.repository.find_challenge_by_token_hash IdentityChallengeKind.password_reset
          (service.token_hash token)
          s
        ≡ ok (some challenge)
      → complete_password_reset service token new_password correlation_id now s ≡ (ok tt, t)
      → (secret : Text) (id : Option Text) (later : ℕ) (u : S) (actor : ActorContext)
      → authenticate_session service secret id later t ≡ (ok actor, u)
      → actor.account_id ≢ challenge.account_id
  complete_password_reset-lockout laws token new_password correlation_id now s t challenge e h
        secret id later u actor k =
      let reset = complete_password_reset-IsReset token new_password correlation_id now s t h in
      let same = same_challenge (sym reset.found ∙ e) in
      let locked = reset.locked laws in
      λ who.
        IsLockedOut-not_authenticated service laws reset.challenge.account_id t locked secret id
          later u k (who ∙ sym (ap (λ (c : IdentityChallenge). c.account_id) same))
    where
      same_challenge :
          {c d : IdentityChallenge}
          → ◌≡◌ {A = Result (Option IdentityChallenge)} (ok (some c)) (ok (some d))
          → c ≡ d
      same_challenge x = cc
