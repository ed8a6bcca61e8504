-- ===== src/Identity/Throttle.antt =====
-- packages/identity/src/throttle.ts: failed sign-ins per principal, in a window, with a lock.
-- The map is a function from principals; a missing entry is `none`. The source compares a failure
-- with `time - windowMs`, which may be negative: here the window is added to the failure instead.
pub mod Locking
use taymex.Prelude.{
  ℕ, ◌+◌, Text, Option, none, some, Bool, true, false, ◌&&◌, not, List, [], ◌∷◌, ◌++◌, length,
  filter, ltb, leb, ◌==◌, text_eq, if◌then◌else◌,
}
use taymex.Foundation.Errors.{type_error, Result, ok, err, Number, safe_from}

pub record Policy : Type 0 where
  pub max_failures : ℕ
  pub window_ms : ℕ
  pub lock_ms : ℕ

abbrev pub default_policy : Policy
default_policy = record { max_failures = 5; window_ms = 900000; lock_ms = 900000 }

abbrev policy_of : Option ℕ → Option ℕ → Option ℕ → Result Policy
policy_of (some m) (some w) (some l) = ok (record { max_failures = m; window_ms = w; lock_ms = l })
policy_of _ _ _ = err (type_error "Invalid authentication throttle policy.")

-- validatePolicy, with the checked numbers
unfoldable pub validate_policy : Number → Number → Number → Result Policy
validate_policy max_failures window_ms lock_ms =
    policy_of (safe_from 1 max_failures) (safe_from 1 window_ms) (safe_from 1 lock_ms)

pub record Entry : Type 0 where
  pub failures : List ℕ
  pub blocked_until : Option ℕ

abbrev pub Entries : Type 0
Entries = Text → Option Entry

-- this.entries.set(key, entry), this.entries.delete(key)
abbrev pub put : Entries → Text → Option Entry → Entries
put entries key entry other = if text_eq key other then entry else entries other

abbrev pub in_window : Policy → ℕ → ℕ → Bool
in_window policy time failure = ltb time (failure + policy.window_ms)

abbrev pub recent : Policy → ℕ → List ℕ → List ℕ
recent policy time = filter (in_window policy time)

abbrev pub is_blocking : Option ℕ → ℕ → Bool
is_blocking none time = false
is_blocking (some until) time = ltb time until

abbrev is_empty : List ℕ → Bool
is_empty [] = true
is_empty (x ∷ xs) = false

-- this.entries.get(key) ?? { failures: [], blockedUntil: null }
abbrev pub or_new : Option Entry → Entry
or_new none = record { failures = []; blocked_until = none }
or_new (some entry) = entry

module _ (policy : Policy) where
  -- the entry once the lock has run out and old failures are dropped; none when nothing is left
  unfoldable pub pruned : Entry → ℕ → Option Entry
  pruned entry time =
      let failures = recent policy time entry.failures in
      if is_empty failures
      then none
      else some (record { failures = failures; blocked_until = none })

  abbrev pub blocked_at : Entries → Text → ℕ → Option Entry → Bool × Entries
  blocked_at entries key time none = (false, entries)
  blocked_at entries key time (some entry) =
      if is_blocking entry.blocked_until time
      then (true, entries)
      else (false, put entries key (pruned entry time))

  unfoldable pub is_blocked : Entries → Text → ℕ → Bool × Entries
  is_blocked entries key time = blocked_at entries key time (entries key)

  unfoldable pub failed_entry : Entry → ℕ → Entry
  failed_entry entry time =
      let failures = recent policy time entry.failures ++ time ∷ [] in
      record {
        failures = failures;
        blocked_until =
            if leb policy.max_failures (length failures)
            then some (time + policy.lock_ms)
            else entry.blocked_until;
      }

  unfoldable pub record_failure : Entries → Text → ℕ → Entries
  record_failure entries key time =
      put entries key (some (failed_entry (or_new (entries key)) time))

unfoldable pub record_success : Entries → Text → Entries
record_success entries key = put entries key none
