-- ===== src/Identity/Account/Lifecycle.antt =====
-- What the commands on an account keep, and which accounts can sign in.
use taymex.Prelude.{
  ℕ, ◌+◌, ◌≡◌, ◌⊎◌, ◌↔◌, inl, inr, refl, Text, codes, Option, none, some, true, false, text_eq,
  Bool-cases, if◌then◌else◌, arith,
}
use taymex.Foundation.Errors.{
  Result, ok, err, plain_error, Ensures, Ensures-bind, Ensures-ok, >>=-eq-ok, Number, safe_from,
  Date,
}
use taymex.Identity.Account.{
  Account, AccountStatus, active, account_status, assert_version, valid_date, change_account_status,
  mark_email_verified, assert_account_can_authenticate, same_status, is_some, with_status, verified,
}

assert_version-ok :
    (a : Account) (expected : Number)
    → assert_version a expected ≡ ok tt
    → safe_from 1 expected ≡ some a.version
unfolding assert_version
assert_version-ok a expected h = ground arith

-- What every accepted command keeps: the caller expected the current version; the account is the
-- same one, with the same address; a verified address stays verified at its time; and either
-- nothing changes or the version goes up by one.
pub record IsChange (a : Account) (expected : Number) (b : Account) : Type 0 where
  pub seen : safe_from 1 expected ≡ some a.version
  pub same_id : b.id ≡ a.id
  pub same_email : (b.email ≡ a.email) × (b.normalized_email ≡ a.normalized_email)
  pub same_creation : b.created_at ≡ a.created_at
  pub still_verified : (a.email_verified_at ≡ none) ⊎ (b.email_verified_at ≡ a.email_verified_at)
  pub step : (b ≡ a) ⊎ (b.version ≡ a.version + 1)

unchanged :
    (a : Account) (expected : Number)
    → safe_from 1 expected ≡ some a.version
    → IsChange a expected a
unchanged a expected seen = record {
  seen = seen;
  same_id = refl;
  same_email = (refl, refl);
  same_creation = refl;
  still_verified = inr refl;
  step = inl refl;
}

with_status-IsChange :
    (a : Account) (expected : Number) (s : AccountStatus) (now : Date)
    → safe_from 1 expected ≡ some a.version
    → Ensures (IsChange a expected) (with_status a s now)
with_status-IsChange a expected s now seen = elim (Bool-cases (same_status a.status s)) [
  | inl same ↦ rw same (Ensures-ok (unchanged a expected seen))
  | inr differ ↦ rw differ (
      Ensures-bind (valid_date now "now") λ t _. Ensures-ok (record {
        seen = seen;
        same_id = refl;
        same_email = (refl, refl);
        same_creation = refl;
        still_verified = inr refl;
        step = inr refl;
      }))
]

not_verified : (o : Option ℕ) → is_some o ≡ false → o ≡ none
not_verified none h = refl
not_verified (some t) h = cc

verified-IsChange :
    (a : Account) (expected : Number) (now : Date)
    → safe_from 1 expected ≡ some a.version
    → Ensures (IsChange a expected) (verified a now)
verified-IsChange a expected now seen = elim (Bool-cases (is_some a.email_verified_at)) [
  | inl done ↦ rw done (Ensures-ok (unchanged a expected seen))
  | inr open_ ↦ rw open_ (
      Ensures-bind (valid_date now "now") λ t _. Ensures-ok (record {
        seen = seen;
        same_id = refl;
        same_email = (refl, refl);
        same_creation = refl;
        still_verified = inl (not_verified a.email_verified_at open_);
        step = inr refl;
      }))
]

-- the two commands on an account
pub data Command : Type 0 where
  change_status : Number → Text → Date → Command
  verify_email : Number → Date → Command

abbrev pub expected : Command → Number
expected (change_status n s t) = n
expected (verify_email n t) = n

abbrev pub mutate : Account → Command → Result Account
mutate a (change_status n s t) = change_account_status a n s t
mutate a (verify_email n t) = mark_email_verified a n t

mutate-Ensures : (a : Account) (c : Command) → Ensures (IsChange a (expected c)) (mutate a c)
unfolding change_account_status mark_email_verified
mutate-Ensures a (change_status n s t) = Ensures-bind (assert_version a n) λ _ seen.
    Ensures-bind (account_status s)
      λ status _. with_status-IsChange a n status t (assert_version-ok a n seen)
mutate-Ensures a (verify_email n t) =
    Ensures-bind (assert_version a n) λ _ seen. verified-IsChange a n t (assert_version-ok a n seen)

-- Every accepted command on an account expected its version and keeps its identity, its address and
-- its creation; it takes no verification back, and changes nothing or raises the version by one.
pub mutate-IsChange :
    (a : Account) (c : Command) {b : Account} → mutate a c ≡ ok b → IsChange a (expected c) b
mutate-IsChange a c {b} h = (mutate-Ensures a c).at b h

same_status_iff : (s t : AccountStatus) → (same_status s t ≡ true) ↔ (s ≡ t)
same_status_iff s t = ground arith

account_status-name :
    (given : Text) {s : AccountStatus}
    → account_status given ≡ ok s
    → same_status s active ≡ text_eq given (codes "ACTIVE")
unfolding account_status
account_status-name given {s} h = elim (Bool-cases (text_eq given (codes "ACTIVE"))) [
  | inl hit ↦ ground (arith, hit)
  | inr miss ↦ ground (arith, miss)
]

with_status-status :
    (a : Account) (s : AccountStatus) (now : Date)
    → Ensures (λ b. b.status ≡ s) (with_status a s now)
with_status-status a s now = elim (Bool-cases (same_status a.status s)) [
  | inl same ↦ rw same (Ensures-ok ((same_status_iff a.status s).0 same))
  | inr differ ↦ rw differ (Ensures-bind (valid_date now "now") λ t _. Ensures-ok refl)
]

-- After an accepted change of status an account can sign in, where no verified address is asked
-- for, exactly if the status that was given is ACTIVE.
pub change_account_status-authenticate :
    (a b : Account) (expected_version : Number) (given : Text) (now : Date)
    → change_account_status a expected_version given now ≡ ok b
    → assert_account_can_authenticate b false
      ≡ (if text_eq given (codes "ACTIVE") then ok tt else err (plain_error "ACCOUNT_UNAVAILABLE"))
unfolding change_account_status assert_account_can_authenticate
change_account_status-authenticate a b expected_version given now h =
    let (_, _, k) = >>=-eq-ok (assert_version a expected_version) _ h in
    let (s, named_s, l) = >>=-eq-ok (account_status given) _ k in
    let status : b.status ≡ s = (with_status-status a s now).at b l in
    let name = account_status-name given named_s in
    elim (Bool-cases (text_eq given (codes "ACTIVE"))) [
      | inl hit ↦ ground (arith, status, name, hit)
      | inr miss ↦ ground (arith, status, name, miss)
    ]
