-- ===== src/Platform/AuthenticationThrottle.antt =====
-- apps/api/src/platform/process-authentication-throttle.ts: the throttle of failed sign-ins with a
-- bound on its principals. Times are milliseconds since 1970; a window is added to a failure instead
-- of being subtracted from the time.
use taymex.Prelude.{
  ℕ, ◌+◌, Text, Option, none, some, Bool, true, false, List, [], ◌∷◌, ◌++◌, length, leb, ltb, Map,
  lookup, put, delete, if◌then◌else◌,
}
use taymex.Foundation.Errors.{range_error, Result, ok, err, Number, safe_from}
use taymex.Identity.Throttle.{Policy, Entry, recent, is_blocking}

abbrev pub Principals : Type 0
Principals = Map Entry

-- the constructor: the capacity, if it is one
unfoldable pub checked_max_principals : Number → Result ℕ
checked_max_principals max_principals = elim (safe_from 100 max_principals) [
  | none ↦ err (range_error "Invalid authentication throttle capacity.")
  | some n ↦
      if leb n 100000 then ok n else err (range_error "Invalid authentication throttle capacity.")
]

abbrev nothing_left : List ℕ → Option ℕ → Bool
nothing_left [] none = true
nothing_left _ _ = false

abbrev is_spent : Entry → Bool
is_spent entry = nothing_left entry.failures entry.blocked_until

module _ (policy : Policy) where
  unfoldable pub prune : Entry → ℕ → Entry
  prune entry now = record {
    failures = recent policy now entry.failures;
    blocked_until = if is_blocking entry.blocked_until now then entry.blocked_until else none;
  }

  abbrev looked_up : Principals → Text → ℕ → Option Entry → Bool × Principals
  looked_up entries key time none = (false, entries)
  looked_up entries key time (some entry) =
      let pruned = prune entry time in
      if is_blocking entry.blocked_until time
      then (true, entries)
      else (false, if is_spent pruned then delete entries key else put entries key pruned)

  unfoldable pub is_blocked : Principals → Text → ℕ → Bool × Principals
  is_blocked entries key time = looked_up entries key time (lookup entries key)

  -- every entry pruned, and those that are spent deleted
  unfoldable pub prune_all : Principals → ℕ → Principals
  prune_all [] now = []
  prune_all ((key, entry) ∷ entries) now =
      let rest = prune_all entries now in
      let pruned = prune entry now in if is_spent pruned then rest else (key, pruned) ∷ rest

  -- `if (oldest) this.entries.delete(oldest)`, where an empty key is no key
  abbrev drop_first : Principals → Principals
  drop_first [] = []
  drop_first (([], entry) ∷ entries) = ([], entry) ∷ entries
  drop_first ((c ∷ key, entry) ∷ entries) = entries

  unfoldable pub evict : ℕ → Principals → ℕ → Principals
  evict max_principals entries now =
      let kept = prune_all entries now in
      if ltb (length kept) max_principals then kept else drop_first kept

  -- the entry that fails, in a map with room for it
  abbrev entry_for : ℕ → Principals → ℕ → Option Entry → Entry × Principals
  entry_for max_principals entries time none = (
    record { failures = []; blocked_until = none },
    if leb max_principals (length entries) then evict max_principals entries time else entries,
  )
  entry_for max_principals entries time (some entry) = (entry, entries)

  abbrev with_failure : Entry → ℕ → Entry
  with_failure entry time =
      let failures = entry.failures ++ time ∷ [] in
      record {
        failures = failures;
        blocked_until =
            if leb policy.max_failures (length failures)
            then some (time + policy.lock_ms)
            else entry.blocked_until;
      }

  unfoldable pub record_failure : ℕ → Principals → Text → ℕ → Principals
  record_failure max_principals entries key time =
      let chosen = entry_for max_principals entries time (lookup entries key) in
      put chosen.1 key (with_failure (prune chosen.0 time) time)

unfoldable pub record_success : Principals → Text → Principals
record_success entries key = delete entries key
