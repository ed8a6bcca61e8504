-- ===== src/Identity/Session.antt =====
-- packages/identity/src/session.ts
use taymex.Prelude.{
  ℕ, ◌+◌, ◌≤◌, ◌<◌, ◌≡◌, refl, Text, Option, none, some, Bool, true, false, not, ◌||◌, [], ◌∷◌,
  length, ltb, leb, trim, text_eq, Option-cases, inl, inr, if◌then◌else◌, arith,
}
use taymex.Foundation.Errors.{
  type_error, plain_error, Result, ok, err, ◌>>=◌, ◌>>◌, guard, Ensures, Ensures-bind, Ensures-ok,
  Ensures-err, Ensures-guard, Number, nat, other, safe_from, Date, at, invalid,
}
use taymex.Foundation.Validation.{require_uuid, is_uuid}
use taymex.Foundation.Validation.Laws.{require_uuid-canonical}

-- AUTH_ASSURANCE_LEVELS
pub data Assurance : Type 0 where
  aal1 aal2 : Assurance

pub record SessionRecord : Type 0 where
  pub id : Text
  pub account_id : Text
  pub token_hash : Text
  pub assurance : Assurance
  pub client_label : Option Text
  pub created_at : ℕ
  pub expires_at : ℕ
  pub rotated_at : Option ℕ
  pub revoked_at : Option ℕ
  pub version : ℕ

pub record SessionView : Type 0 where
  pub id : Text
  pub client_label : Option Text
  pub assurance : Assurance
  pub created_at : ℕ
  pub expires_at : ℕ
  pub revoked_at : Option ℕ
  pub current : Bool

-- cloneDate
unfoldable pub clone_date : Date → Result ℕ
clone_date (at time) = ok time
clone_date invalid = err (type_error "Invalid session date.")

abbrev blank : Text → Bool
blank [] = true
blank (c ∷ s) = false

abbrev label_of : Text → Result (Option Text)
label_of label =
    if blank label
    then ok none
    else if ltb 120 (length label)
    then err (type_error "clientLabel is too long.")
    else ok (some label)

unfoldable pub normalize_client_label : Option Text → Result (Option Text)
normalize_client_label none = ok none
normalize_client_label (some value) = label_of (trim value)

pub record CreateSessionInput : Type 0 where
  pub id : Text
  pub account_id : Text
  pub token_hash : Text
  pub assurance : Assurance
  pub client_label : Option Text
  pub now : Date
  pub ttl_ms : Number

-- The largest time of a valid `Date`, which `freezeSession` checks on the expiry.
abbrev pub max_time : ℕ
max_time = 8640000000000000

unfoldable pub create_session : CreateSessionInput → Result SessionRecord
create_session input = elim (safe_from 60000 input.ttl_ms) [
  | none ↦ err (type_error "Session TTL must be at least one minute.")
  | some ttl ↦ do
    now ← clone_date input.now
    id ← require_uuid input.id "sessionId"
    account_id ← require_uuid input.account_id "accountId"
    label ← normalize_client_label input.client_label
    guard (leb (now + ttl) max_time) (type_error "Invalid session date.")
    ok (record {
      id = id;
      account_id = account_id;
      token_hash = input.token_hash;
      assurance = input.assurance;
      client_label = label;
      created_at = now;
      expires_at = now + ttl;
      rotated_at = none;
      revoked_at = none;
      version = 1;
    })
]

abbrev pub is_some {ℓ} : {A : Type ℓ} → Option A → Bool
is_some none = false
is_some (some a) = true

unfoldable pub assert_session_active : SessionRecord → Date → Result (Unit {0})
assert_session_active session now = do
  time ← clone_date now
  guard (not (is_some session.revoked_at || leb session.expires_at time))
      (plain_error "SESSION_INACTIVE")

unfoldable pub rotate_session : SessionRecord → Text → Date → Result SessionRecord
rotate_session session token_hash now = do
  time ← clone_date now
  assert_session_active session (at time)
  ok (record session {
    token_hash = token_hash;
    rotated_at = some time;
    version = session.version + 1;
  })

unfoldable pub revoke_session : SessionRecord → Date → Result SessionRecord
revoke_session session now = if is_some session.revoked_at then ok session else do
  time ← clone_date now
  ok (record session { revoked_at = some time; version = session.version + 1 })

unfoldable pub to_session_view : SessionRecord → Option Text → SessionView
to_session_view session current_session_id = record {
  id = session.id;
  client_label = session.client_label;
  assurance = session.assurance;
  created_at = session.created_at;
  expires_at = session.expires_at;
  revoked_at = session.revoked_at;
  current = elim current_session_id [ none ↦ false | some id ↦ text_eq session.id id ];
}

-- A session can be used: it is not revoked, and has not expired.
pub record IsActive (session : SessionRecord) (time : ℕ) : Type 0 where
  pub not_revoked : session.revoked_at ≡ none
  pub not_expired : time < session.expires_at

pub assert_session_active-IsActive :
    (session : SessionRecord) (time : ℕ)
    → assert_session_active session (at time) ≡ ok tt
    → IsActive session time
unfolding assert_session_active clone_date
assert_session_active-IsActive session time h = ground arith

pub IsActive-assert_session_active :
    (session : SessionRecord) (time : ℕ)
    → IsActive session time
    → assert_session_active session (at time) ≡ ok tt
unfolding assert_session_active clone_date
IsActive-assert_session_active session time h = ground (arith, h.not_revoked)

-- The check of a session that is not revoked depends on its expiry alone.
abbrev activity : ℕ → ℕ → Result (Unit {0})
activity expires_at time =
    if ltb time expires_at then ok tt else err (plain_error "SESSION_INACTIVE")

-- What a new session is: its identifiers are canonical, it lives for a minute at least, and it is
-- active at exactly the times before its expiry.
pub record IsNew (session : SessionRecord) : Type 0 where
  pub id : is_uuid session.id ≡ true
  pub account_id : is_uuid session.account_id ≡ true
  pub minute : session.created_at + 60000 ≤ session.expires_at
  pub version : session.version ≡ 1
  pub active :
      (time : ℕ) → assert_session_active session (at time) ≡ activity session.expires_at time

assert_session_active-activity :
    (s : SessionRecord) (time : ℕ)
    → s.revoked_at ≡ none
    → assert_session_active s (at time) ≡ activity s.expires_at time
unfolding assert_session_active clone_date
assert_session_active-activity s time h = ground (arith, h)

safe_from-le : (low : ℕ) (n : Number) {m : ℕ} → safe_from low n ≡ some m → low ≤ m
unfolding safe_from
safe_from-le low (nat n) h = ground arith
safe_from-le low other h = cc

later_by : (now low ttl : ℕ) → low ≤ ttl → now + low ≤ now + ttl
later_by now low ttl h = omega arith

create_session-Ensures : (input : CreateSessionInput) → Ensures IsNew (create_session input)
unfolding create_session
create_session-Ensures input = elim (Option-cases (safe_from 60000 input.ttl_ms)) [
  | inl bad ↦ rw (bad, create_session) (Ensures-err _)
  | inr (ttl, e) ↦
      rw (e, create_session)
        (Ensures-bind (clone_date input.now) λ now _.
          Ensures-bind (require_uuid input.id "sessionId") λ id hid.
            Ensures-bind (require_uuid input.account_id "accountId") λ account haccount.
              Ensures-bind (normalize_client_label input.client_label) λ label _.
                Ensures-guard (leb (now + ttl) max_time) _ λ _. Ensures-ok (record {
                  id = (require_uuid-canonical input.id "sessionId" hid).0;
                  account_id = (require_uuid-canonical input.account_id "accountId" haccount).0;
                  minute = later_by now 60000 ttl (safe_from-le 60000 input.ttl_ms e);
                  version = refl;
                  active = λ time. assert_session_active-activity _ time refl;
                }))
]

-- Whatever `createSession` returns is a new session: canonical identifiers, a minute of life at
-- least, version 1, and active at exactly the times before its expiry.
pub create_session-IsNew :
    (input : CreateSessionInput) {session : SessionRecord}
    → create_session input ≡ ok session
    → IsNew session
create_session-IsNew input {session} h = (create_session-Ensures input).at session h

-- Once revoked, a session is refused at every time, cannot be rotated, and is not changed by
-- another revocation.
pub revoke_session_final :
    (session revoked : SessionRecord) (now : ℕ)
    → revoke_session session (at now) ≡ ok revoked
    → ((later : Date) → revoke_session revoked later ≡ ok revoked)
      × ((time : ℕ)
          → assert_session_active revoked (at time) ≡ err (plain_error "SESSION_INACTIVE"))
      × ((hash : Text) (time : ℕ)
          → rotate_session revoked hash (at time) ≡ err (plain_error "SESSION_INACTIVE"))
unfolding revoke_session rotate_session assert_session_active clone_date
revoke_session_final session revoked now h =
    let r : is_some revoked.revoked_at ≡ true = ground arith in
    (λ later. rw r, λ time. rw r, λ hash time. rw r)

create_session-Ensures_assurance :
    (input : CreateSessionInput)
    → Ensures (λ (s : SessionRecord). s.assurance ≡ input.assurance) (create_session input)
unfolding create_session
create_session-Ensures_assurance input = elim (Option-cases (safe_from 60000 input.ttl_ms)) [
  | inl bad ↦ rw (bad, create_session) (Ensures-err _)
  | inr (ttl, e) ↦
      rw (e, create_session)
        (Ensures-bind (clone_date input.now) λ now _.
          Ensures-bind (require_uuid input.id "sessionId") λ id _.
            Ensures-bind (require_uuid input.account_id "accountId") λ account _.
              Ensures-bind (normalize_client_label input.client_label)
                λ label _. Ensures-guard (leb (now + ttl) max_time) _ λ _. Ensures-ok refl)
]

pub create_session-assurance :
    (input : CreateSessionInput) {session : SessionRecord}
    → create_session input ≡ ok session
    → session.assurance ≡ input.assurance
create_session-assurance input {session} h = (create_session-Ensures_assurance input).at session h
