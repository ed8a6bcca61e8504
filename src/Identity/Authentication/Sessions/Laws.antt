-- ===== src/Identity/Authentication/Sessions/Laws.antt =====
-- What a session must be to authenticate, and what revoking does to every session of an account.
use mathlib.Core.Path.{subst}
use taymex.Prelude.{◌≡◌, refl, sym, ap, ◌∙◌, ℕ, Text, Option, none, some}
use taymex.Foundation.Errors.{Error, Result, ok, err, at}
use taymex.Effects.Runs.{>>=-ok, query-ok, lift-ok, raised, pure-ok}
use taymex.Identity.Account.{Account, assert_account_can_authenticate}
use taymex.Identity.Session.{
  SessionRecord, Assurance, IsActive, assert_session_active, assert_session_active-IsActive,
}
use taymex.Identity.Actor.{ActorContext, create_actor_context}
use taymex.Identity.Authentication.{
  IdentityService, actor_for, found_or, rethrow, session_invalid_error,
}
use taymex.Identity.Authentication.Sessions.{
  authenticate_session, authenticated, entitled, refuse_inactive,
}

module _ {S : Type 0} (service : IdentityService S) where
  -- An account that may act through a session at a time, in a state.
  pub record IsEntitled (s : S) (session : SessionRecord) (account : Account) : Type 0 where
    pub found : service.repository.find_account_by_id session.account_id s ≡ ok (some account)
    pub allowed :
        assert_account_can_authenticate account service.policy.require_verified_email_for_sign_in
        ≡ ok tt

  found_or-ok :
      {A : Type 0} (e : Error) (found : Option A) {a : A} → found_or e found ≡ ok a → found ≡ some a
  found_or-ok e none h = cc
  found_or-ok e (some b) h = cc

  rethrow-ok : (e : Error) (r : Result (Unit {0})) {a : Unit {0}} → rethrow e r ≡ ok a → r ≡ ok tt
  rethrow-ok e (ok b) h = refl
  rethrow-ok e (err x) h = cc

  entitled-run :
      (session : SessionRecord) (s : S) {account : Account} {t : S}
      → entitled service session s ≡ (ok account, t)
      → IsEntitled s session account × (t ≡ s)
  entitled-run session s {account} {t} h =
      let (found, e1, r1) =
        query-ok (service.repository.find_account_by_id session.account_id) _ s h in
      let (owner, e2, r2) = lift-ok (found_or session_invalid_error found) _ s r1 in
      let can =
        assert_account_can_authenticate owner service.policy.require_verified_email_for_sign_in in
      let (c, e3, r3) = lift-ok (rethrow session_invalid_error can) _ s r2 in
      let (same, stays) = pure-ok owner s r3 in
      let who : found ≡ some account = found_or-ok session_invalid_error found e2 ∙ ap some same in
      (
        record {
          found = e1 ∙ ap ok who;
          allowed = rw (sym same) (rethrow-ok session_invalid_error can e3);
        },
        sym stays,
      )

  -- The account that an authenticated session acts for, in a state.
  pub record IsAdmitted (s : S) (now : ℕ) (session : SessionRecord) (account : Account)
      (actor : ActorContext) : Type 0 where
    pub active : IsActive session now
    pub entitled : IsEntitled s session account
    pub account_id : actor.account_id ≡ account.id
    pub session_id : actor.session_id ≡ session.id
    pub assurance : actor.assurance ≡ session.assurance

  refuse_inactive-run :
      (session : SessionRecord) (now : ℕ) (correlation_id : Option Text) (r : Result (Unit {0}))
      (s : S) {a : Unit {0}} {t : S}
      → refuse_inactive service session now correlation_id r s ≡ (ok a, t)
      → (r ≡ ok tt) × (t ≡ s)
  refuse_inactive-run session now correlation_id (ok b) s h = (refl, sym (pure-ok tt s h).1)
  refuse_inactive-run session now correlation_id (err e) s h = raised (service.emit _) _ s h

  pub actor_for-run :
      (account : Account) (id : Text) (level : Assurance) (now : ℕ) (s : S) {actor : ActorContext}
      {t : S}
      → actor_for service account id level now s ≡ (ok actor, t)
      → (actor.account_id ≡ account.id)
        × (actor.session_id ≡ id)
        × (actor.assurance ≡ level)
        × (t ≡ s)
  unfolding actor_for create_actor_context
  actor_for-run account id level now s h =
      let (access, e, r) = query-ok (service.resolve_access account.id) _ s h in
      let (same, stays) = pure-ok _ s r in
      (
        sym (ap (λ (a : ActorContext). a.account_id) same),
        sym (ap (λ (a : ActorContext). a.session_id) same),
        sym (ap (λ (a : ActorContext). a.assurance) same),
        sym stays,
      )

  -- Whoever authenticates by a session's secret does so by a stored session that is active at the
  -- time, as its account, which is there and may authenticate, at the session's level of assurance.
  pub authenticate_session-IsAdmitted :
      (secret : Text) (correlation_id : Option Text) (now : ℕ) (s t : S) {actor : ActorContext}
      → authenticate_session service secret correlation_id now s ≡ (ok actor, t)
      → (session : SessionRecord) × (account : Account)
        × (service.repository.find_session_by_token_hash (service.token_hash secret) s
            ≡ ok (some session))
        × IsAdmitted s now session account actor
        × (t ≡ s)
  unfolding authenticate_session
  authenticate_session-IsAdmitted secret correlation_id now s t {actor} h =
      let (found, e, r) =
        query-ok (service.repository.find_session_by_token_hash (service.token_hash secret)) _ s
          h in
      go found e r
    where
      go :
          (found : Option SessionRecord)
          → service.repository.find_session_by_token_hash (service.token_hash secret) s ≡ ok found
          → authenticated service found now correlation_id s ≡ (ok actor, t)
          → (session : SessionRecord) × (account : Account)
            × (service.repository.find_session_by_token_hash (service.token_hash secret) s
                ≡ ok (some session))
            × IsAdmitted s now session account actor
            × (t ≡ s)
      go none e r = raised (service.emit _) _ s r
      go (some session) e r =
          let check = assert_session_active session (at now) in
          let (c, s1, run1, r1) =
            >>=-ok (refuse_inactive service session now correlation_id check) _ s r in
          let (is_active, stays) = refuse_inactive-run session now correlation_id check s run1 in
          let (account, s2, run2, r2) = >>=-ok (entitled service session) _ s1 r1 in
          let (entitled, stays2) = entitled-run session s1 run2 in
          let (who, through, level, stays3) =
            actor_for-run account session.id session.assurance now s2 r2 in
          (
            session,
            account,
            e,
            record {
              active = assert_session_active-IsActive session now is_active;
              entitled = subst (λ x. IsEntitled x session account) stays entitled;
              account_id = who;
              session_id = through;
              assurance = level;
            },
            stays3 ∙ stays2 ∙ stays,
          )
