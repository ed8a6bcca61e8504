-- ===== src/Settings/MemoryStore/History.antt =====
-- The history of a setting: versions without gaps, the last one current.
use mathlib.Core.Path.{subst}
use taymex.Prelude.{
  ℕ, ◌+◌, ◌≤◌, ◌≡◌, refl, sym, ap, ◌∙◌, Text, Option, none, some, false, List, [], ◌∷◌, ◌++◌,
  length, length-append, set_at, text_eq, text_eq_refl, Bool-cases, inl, inr, arith, Option-cases,
  text_eq_iff, ◌⊎◌,
}
use taymex.Foundation.Errors.{Number}
use taymex.Settings.MemoryStore.{
  MemoryStore, SettingCoordinate, SettingWriteCandidate, SettingHistoryEntry, StoredSettingValue,
  empty_store, key_of, entries_of, version_of, new_record, new_entry, is_number, compare_and_write,
  mark_applied,
}

abbrev pub IsUpTo : Option ℕ → ℕ → Type 0
IsUpTo none n = Unit
IsUpTo (some v) n = v ≤ n

IsUpTo-le : (o : Option ℕ) (m n : ℕ) → IsUpTo o m → m ≤ n → IsUpTo o n
IsUpTo-le none m n h k = tt
IsUpTo-le (some v) m n h k = omega arith

module _ (V : Type 0) where
  -- the two operations that change a store
  pub data Command : Type 0 where
    save : SettingWriteCandidate V → Command
    mark : SettingCoordinate → Number → Command

module _ {V : Type 0} where
  -- Entries at the versions that follow n, without gaps.
  abbrev pub IsNumbered : ℕ → List (SettingHistoryEntry V) → Type 0
  IsNumbered n [] = Unit
  IsNumbered n (h ∷ hs) = (h.stored.version ≡ n + 1) × IsNumbered (n + 1) hs

  abbrev pub last_stored : List (SettingHistoryEntry V) → Option (StoredSettingValue V)
  last_stored [] = none
  last_stored (h ∷ []) = some h.stored
  last_stored (h ∷ g ∷ hs) = last_stored (g ∷ hs)

  -- What holds at one key: the history counts the versions from 1 up without a gap, the current
  -- value is its last one, and no later version is marked as applied.
  pub record IsConsistent (store : MemoryStore V) (key : Text) : Type 0 where
    pub numbered : IsNumbered 0 (entries_of (store.history key))
    pub current : store.current key ≡ last_stored (entries_of (store.history key))
    pub applied : IsUpTo (store.applied key) (length (entries_of (store.history key)))

  IsNumbered-append :
      (n : ℕ) (hs : List (SettingHistoryEntry V)) (h : SettingHistoryEntry V)
      → IsNumbered n hs
      → h.stored.version ≡ n + length hs + 1
      → IsNumbered n (hs ++ h ∷ [])
  IsNumbered-append n [] h _ e = (omega arith, tt)
  IsNumbered-append n (g ∷ hs) h (p, q) e = (p, IsNumbered-append (n + 1) hs h q (omega arith))

  last_stored-append :
      (hs : List (SettingHistoryEntry V)) (h : SettingHistoryEntry V)
      → last_stored (hs ++ h ∷ []) ≡ some h.stored
  last_stored-append [] h = refl
  last_stored-append (g ∷ []) h = refl
  last_stored-append (g ∷ f ∷ hs) h = last_stored-append (f ∷ hs) h

  version_of_last :
      (n : ℕ) (h : SettingHistoryEntry V) (hs : List (SettingHistoryEntry V))
      → IsNumbered n (h ∷ hs)
      → version_of (last_stored (h ∷ hs)) ≡ n + 1 + length hs
  version_of_last n h [] (p, _) = omega arith
  version_of_last n h (g ∷ hs) (p, q) = omega (arith, version_of_last (n + 1) g hs q)

  version_of_numbered :
      (hs : List (SettingHistoryEntry V))
      → IsNumbered 0 hs
      → version_of (last_stored hs) ≡ length hs
  version_of_numbered [] h = refl
  version_of_numbered (h ∷ hs) p = omega (arith, version_of_last 0 h hs p)

  -- the store after an accepted write
  abbrev pub accepted : MemoryStore V → SettingWriteCandidate V → MemoryStore V
  accepted store candidate =
      let key = key_of candidate.coordinate in
      let stored = new_record candidate (version_of (store.current key)) in
      record store {
        current = set_at store.current key (some stored);
        history =
            set_at store.history key
              (some (entries_of (store.history key) ++ new_entry candidate stored ∷ []));
      }

  accepted_self :
      (store : MemoryStore V) (candidate : SettingWriteCandidate V)
      → IsConsistent store (key_of candidate.coordinate)
      → IsConsistent (accepted store candidate) (key_of candidate.coordinate)
  accepted_self store candidate c =
      let key = key_of candidate.coordinate in
      let entries = entries_of (store.history key) in
      let entry = new_entry candidate (new_record candidate (version_of (store.current key))) in
      let count : version_of (store.current key) ≡ length entries =
        ap version_of c.current ∙ version_of_numbered entries c.numbered in
      record {
        numbered =
            rw text_eq_refl (IsNumbered-append 0 entries entry c.numbered (omega (arith, count)));
        current = rw text_eq_refl (sym (last_stored-append entries entry));
        applied = rw text_eq_refl (
            IsUpTo-le (store.applied key) (length entries) (length (entries ++ entry ∷ []))
              c.applied (omega (arith, length-append entries (entry ∷ []))));
      }

  accepted_other :
      (store : MemoryStore V) (candidate : SettingWriteCandidate V) (key : Text)
      → text_eq (key_of candidate.coordinate) key ≡ false
      → IsConsistent store key
      → IsConsistent (accepted store candidate) key
  accepted_other store candidate key h c = record {
    numbered = rw h c.numbered;
    current = rw h c.current;
    applied = rw h c.applied;
  }

  abbrev pub apply : MemoryStore V → Command V → MemoryStore V
  apply store (save candidate) = (compare_and_write store candidate).1
  apply store (mark coordinate version) = (mark_applied store coordinate version).1

  unfoldable pub run : MemoryStore V → List (Command V) → MemoryStore V
  run store [] = store
  run store (c ∷ cs) = run (apply store c) cs

  accepted-IsConsistent :
      (store : MemoryStore V) (candidate : SettingWriteCandidate V) (key : Text)
      → IsConsistent store key
      → IsConsistent (accepted store candidate) key
  accepted-IsConsistent store candidate key c =
      elim (Bool-cases (text_eq (key_of candidate.coordinate) key)) [
        | inl same ↦
            let e = (text_eq_iff (key_of candidate.coordinate) key).0 same in
            subst (IsConsistent (accepted store candidate)) e
              (accepted_self store candidate (rw e c))
        | inr differ ↦ accepted_other store candidate key differ c
      ]

  pub compare_and_write-cases :
      (store : MemoryStore V) (candidate : SettingWriteCandidate V)
      → ((compare_and_write store candidate).1 ≡ accepted store candidate)
        ⊎ ((compare_and_write store candidate).1 ≡ store)
  unfolding compare_and_write
  compare_and_write-cases store candidate =
      elim (Bool-cases (
        is_number (version_of (store.current (key_of candidate.coordinate)))
          candidate.expected_version)) [ inl hit ↦ inl (rw hit) | inr miss ↦ inr (rw miss) ]

  marked_self :
      (store : MemoryStore V) (key place : Text) (r : StoredSettingValue V)
      → store.current key ≡ some r
      → IsConsistent store place
      → IsConsistent (record store { applied = set_at store.applied key (some r.version) }) place
  marked_self store key place r found c = elim (Bool-cases (text_eq key place)) [
    | inl same ↦
        let e = (text_eq_iff key place).0 same in
        let entries = entries_of (store.history place) in
        let last : store.current place ≡ some r = rw (sym e) found in
        let count : r.version ≡ length entries =
          ap version_of (sym last ∙ c.current) ∙ version_of_numbered entries c.numbered in
        record {
          numbered = c.numbered;
          current = c.current;
          applied = rw same (omega (arith, count));
        }
    | inr differ ↦ record {
      numbered = c.numbered;
      current = c.current;
      applied = rw differ c.applied;
    }
  ]

  mark_applied-IsConsistent :
      (store : MemoryStore V) (coordinate : SettingCoordinate) (version : Number) (key : Text)
      → IsConsistent store key
      → IsConsistent (mark_applied store coordinate version).1 key
  unfolding mark_applied
  mark_applied-IsConsistent store coordinate version key c =
      elim (Option-cases (store.current (key_of coordinate))) [
        | inl gone ↦ rw gone c
        | inr (r, found) ↦ elim (Bool-cases (is_number r.version version)) [
          | inl hit ↦ rw (found, hit) (marked_self store (key_of coordinate) key r found c)
          | inr miss ↦ rw (found, miss) c
        ]
      ]

  apply-IsConsistent :
      (store : MemoryStore V) (c : Command V) (key : Text)
      → IsConsistent store key
      → IsConsistent (apply store c) key
  apply-IsConsistent store (save candidate) key h = elim (compare_and_write-cases store candidate) [
    | inl e ↦ rw e (accepted-IsConsistent store candidate key h)
    | inr e ↦ rw e h
  ]
  apply-IsConsistent store (mark coordinate version) key h =
      mark_applied-IsConsistent store coordinate version key h

  -- Whatever is written and marked, in any order, a store that is consistent at a key stays so.
  pub run-IsConsistent :
      (store : MemoryStore V) (cs : List (Command V)) (key : Text)
      → IsConsistent store key
      → IsConsistent (run store cs) key
  unfolding run
  run-IsConsistent store [] key h = h
  run-IsConsistent store (c ∷ cs) key h =
      run-IsConsistent (apply store c) cs key (apply-IsConsistent store c key h)

  empty_store-IsConsistent : (key : Text) → IsConsistent (empty_store {V = V}) key
  empty_store-IsConsistent key = record { numbered = tt; current = refl; applied = tt }

  -- From an empty store, whatever is written and marked, in any order: at every key the versions of
  -- the history are 1, 2 and so on without a gap, the current value is the last one of the
  -- history, and what is marked as applied is no later than that.
  pub run_empty-IsConsistent :
      (cs : List (Command V)) (key : Text) → IsConsistent (run empty_store cs) key
  run_empty-IsConsistent cs key = run-IsConsistent empty_store cs key (empty_store-IsConsistent key)
