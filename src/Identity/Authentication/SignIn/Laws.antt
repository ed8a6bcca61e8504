-- ===== src/Identity/Authentication/SignIn/Laws.antt =====
-- Who is let in by a password.
use mathlib.Core.Path.{subst}
use taymex.Prelude.{
  ◌≡◌, refl, sym, ap, ◌∙◌, arith, ℕ, Text, Option, none, some, Bool, true, false, if◌then◌else◌,
}
use taymex.Foundation.Errors.{Error, Result, ok, err}
use taymex.Effects.Runs.{>>=-ok, query-ok, lift-ok, raised, pure-ok, atomic-ok}
use taymex.Identity.Account.{Account, normalize_email, assert_account_can_authenticate}
use taymex.Identity.Session.{SessionRecord, aal1, create_session, create_session-assurance}
use taymex.Identity.Actor.{ActorContext}
use taymex.Identity.Contracts.{
  PasswordCredential, IdentitySecurityReason, unknown_account, wrong_password, session_issued,
  sign_in_succeeded,
}
use taymex.Identity.Authentication.{IdentityService, actor_for}
use taymex.Identity.Authentication.Sessions.Laws.{actor_for-run}
use taymex.Identity.Authentication.SignIn.{
  SignInInput, SignedIn, sign_in, verified_sign_in, throttled_sign_in, decide, admit, refuse,
  failure_reason, unavailable_reason, credential_of, hash_of, issue_session, session_event,
}

module _ {S : Type 0} (service : IdentityService S) where
  -- A principal that may sign in with a password, in a state.
  pub record IsAllowed (s : S) (principal password : Text) (account : Account)
      (credential : PasswordCredential) : Type 0 where
    pub account_found :
        service.repository.find_account_by_normalized_email principal s ≡ ok (some account)
    pub credential_found :
        service.repository.find_password_credential account.id s ≡ ok (some credential)
    pub verified : service.password_hasher.verify password credential.password_hash s ≡ ok true
    pub entitled :
        assert_account_can_authenticate account service.policy.require_verified_email_for_sign_in
        ≡ ok tt

  reason-none : (r : Result (Unit {0})) → unavailable_reason r ≡ none → r ≡ ok tt
  reason-none (ok a) h = refl
  reason-none (err (Error.plain_error m)) h = ground arith
  reason-none (err (Error.application e)) h = cc
  reason-none (err Error.authorization_denied) h = cc
  reason-none (err (Error.provider_error code)) h = cc
  reason-none (err (Error.type_error m)) h = cc
  reason-none (err (Error.range_error m)) h = cc

  issue_session-run :
      (account : Account) (session : SessionRecord) (secret : Text) (input : SignInInput) (now : ℕ)
      (s : S) {signed : SignedIn} {t : S}
      → issue_session service account session secret input now s ≡ (ok signed, t)
      → (signed.actor.account_id ≡ account.id) × (signed.actor.assurance ≡ session.assurance)
  issue_session-run account session secret input now s h =
      let (_, s1, _, r1) = >>=-ok (service.repository.create_session session) _ s h in
      let (actor, s2, run, r2) =
        >>=-ok (actor_for service account session.id session.assurance now) _ s1 r1 in
      let (who, _, level, _) =
        actor_for-run service account session.id session.assurance now s1 run in
      let (_, s3, _, r3) =
        >>=-ok (service.emit (session_event session_issued account session input now)) _ s2 r2 in
      let (_, s4, _, r4) =
        >>=-ok (service.emit (session_event sign_in_succeeded account session input now)) _ s3 r3 in
      let (same, _) = pure-ok (record { session_secret = secret; actor = actor }) s4 r4 in
      (
        sym (ap (λ (x : SignedIn). x.actor.account_id) same) ∙ who,
        sym (ap (λ (x : SignedIn). x.actor.assurance) same) ∙ level,
      )

  admit-run :
      (principal : Text) (input : SignInInput) (now : ℕ) (account : Account) (s : S)
      {signed : SignedIn} {t : S}
      → admit service principal input now account s ≡ (ok signed, t)
      → (signed.actor.account_id ≡ account.id) × (signed.actor.assurance ≡ aal1)
  admit-run principal input now account s {signed} {t} h =
      let (_, s1, _, r1) = >>=-ok (service.record_success principal) _ s h in
      let (issued, s2, _, r2) = >>=-ok service.issue_token _ s1 r1 in
      let (id, s3, _, r3) = >>=-ok service.next_id _ s2 r2 in
      let (session, e, r4) = lift-ok (create_session _) _ s3 r3 in
      let (who, level) =
        issue_session-run account session issued.secret input now s3
          (atomic-ok (issue_session service account session issued.secret input now) s3 r4) in
      (who, level ∙ create_session-assurance _ e)

  -- A refusal does not return.
  refused {ℓ} :
      {P : Type ℓ} (principal : Text) (input : SignInInput) (now : ℕ) (account : Option Account)
      (reason : IdentitySecurityReason) (s : S) {signed : SignedIn} {t : S}
      → refuse service principal input now account reason s ≡ (ok signed, t)
      → P
  refused principal input now account reason s h =
      let (_, s1, _, r1) = >>=-ok (service.record_failure principal now) _ s h in
      raised (service.emit _) _ s1 r1

  reasoned-run :
      (principal : Text) (input : SignInInput) (now : ℕ) (account : Account)
      (reason : Option IdentitySecurityReason) (s : S) {signed : SignedIn} {t : S}
      → decide service principal input now (some account) reason s ≡ (ok signed, t)
      → (reason ≡ none) × (signed.actor.account_id ≡ account.id) × (signed.actor.assurance ≡ aal1)
  reasoned-run principal input now account none s h =
      let (who, level) = admit-run principal input now account s h in (refl, who, level)
  reasoned-run principal input now account (some reason) s h =
      refused principal input now (some account) reason s h

  decide-run :
      (principal : Text) (input : SignInInput) (now : ℕ) (account : Option Account)
      (credential : Option PasswordCredential) (valid : Bool) (s : S) {signed : SignedIn} {t : S}
      → decide service principal input now account
          (failure_reason service.policy.require_verified_email_for_sign_in account credential
            valid)
          s
        ≡ (ok signed, t)
      → (a : Account) × (c : PasswordCredential) × (account ≡ some a)
        × (credential ≡ some c)
        × (valid ≡ true)
        × (assert_account_can_authenticate a service.policy.require_verified_email_for_sign_in
            ≡ ok tt)
        × (signed.actor.account_id ≡ a.id)
        × (signed.actor.assurance ≡ aal1)
  unfolding failure_reason
  decide-run principal input now none credential valid s h =
      refused principal input now none unknown_account s h
  decide-run principal input now (some a) none valid s h =
      refused principal input now (some a) unknown_account s h
  decide-run principal input now (some a) (some c) false s h =
      refused principal input now (some a) wrong_password s h
  decide-run principal input now (some a) (some c) true s h =
      let can =
        assert_account_can_authenticate a service.policy.require_verified_email_for_sign_in in
      let (clear, who, level) = reasoned-run principal input now a (unavailable_reason can) s h in
      (a, c, refl, refl, refl, reason-none can clear, who, level)

  -- The account of a sign-in behind the throttle.
  pub record IsVerified (s : S) (principal : Text) (input : SignInInput) (actor : ActorContext)
      : Type 0 where
    pub account : Account
    pub credential : PasswordCredential
    pub allowed : IsAllowed s principal input.password account credential
    pub account_id : actor.account_id ≡ account.id
    pub assurance : actor.assurance ≡ aal1

  behind_throttle_run :
      (principal : Text) (input : SignInInput) (now : ℕ) (s : S) {signed : SignedIn} {t : S}
      → verified_sign_in service principal input now s ≡ (ok signed, t)
      → IsVerified s principal input signed.actor
  behind_throttle_run principal input now s h =
      let (account, e1, r1) =
        query-ok (service.repository.find_account_by_normalized_email principal) _ s h in
      let (credential, e2, r2) = query-ok (credential_of service account) _ s r1 in
      let (hash, s1, e3, r3) = >>=-ok (hash_of service credential) _ s r2 in
      let (valid, e4, r4) = query-ok (service.password_hasher.verify input.password hash) _ s1 r3 in
      let (a, c, is_a, is_c, is_true, can, who, level) =
        decide-run principal input now account credential valid s1 r4 in
      let (same_hash, stays) =
        pure-ok c.password_hash s (subst (λ x. hash_of service x s ≡ (ok hash, s1)) is_c e3) in
      record {
        account = a;
        credential = c;
        allowed = record {
          account_found = e1 ∙ ap ok is_a;
          credential_found =
              subst (λ x. credential_of service x s ≡ ok credential) is_a e2 ∙ ap ok is_c;
          verified = rw (same_hash, stays) (e4 ∙ ap ok is_true);
          entitled = can;
        };
        account_id = who;
        assurance = level;
      }

  -- Whoever is signed in gave an address and a password such that the throttle did not block the
  -- address, the address has an account and the account a credential that the password verifies
  -- against, and the account may authenticate; the actor is that account, at the first level of
  -- assurance.
  pub sign_in-IsVerified :
      (input : SignInInput) (now : ℕ) (s t : S) {signed : SignedIn}
      → sign_in service input now s ≡ (ok signed, t)
      → (principal : Text) × (checked : S) × (normalize_email service.fold input.email
          ≡ ok principal)
        × (service.is_blocked principal now s ≡ (ok false, checked))
        × IsVerified checked principal input signed.actor
  unfolding sign_in
  sign_in-IsVerified input now s t {signed} h =
      let (principal, e1, r1) = lift-ok (normalize_email service.fold input.email) _ s h in
      let (blocked, checked, e2, r2) = >>=-ok (service.is_blocked principal now) _ s r1 in
      let (free, verified) = go principal blocked checked r2 in
      (principal, checked, e1, e2 ∙ ap (λ b. (ok b, checked)) free, verified)
    where
      go :
          (principal : Text) (blocked : Bool) (checked : S)
          → (if blocked
                then throttled_sign_in service input now
                else verified_sign_in service principal input now)
              checked
            ≡ (ok signed, t)
          → (blocked ≡ false) × IsVerified checked principal input signed.actor
      go principal true checked r = raised (service.emit _) _ checked r
      go principal false checked r = (refl, behind_throttle_run principal input now checked r)
