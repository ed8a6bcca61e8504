-- ===== src/Settings/MemoryStore/Writers.antt =====
-- Writers of one setting: what is in the history stays there, and of two that expect the same
-- version one is accepted.
use mathlib.Core.List.{append-nil}
use taymex.Prelude.{
  ℕ, ◌+◌, ◌≡◌, ◌≢◌, sym, ap, ◌∙◌, Text, Option, some, true, false, List, [], ◌∷◌, ◌++◌, find-append,
  text_eq, text_eq_refl, text_eq_iff, Bool-cases, inl, inr, arith, Option-cases,
}
use taymex.Foundation.Errors.{Number, nat, other}
use taymex.Settings.MemoryStore.{
  MemoryStore, SettingCoordinate, SettingWriteCandidate, SettingHistoryEntry, StoredSettingValue,
  SettingWriteStoreResult, key_of, entries_of, version_of, new_record, new_entry, has_version,
  is_number, find_history_version, compare_and_write, mark_applied, written, version_conflict,
}
use taymex.Settings.MemoryStore.History.{
  Command, save, mark, apply, run, accepted, compare_and_write-cases,
}

is_number_next : (n : ℕ) (e : Number) → is_number n e ≡ true → is_number (n + 1) e ≡ false
is_number_next n (nat m) h = ground arith
is_number_next n other h = cc

module _ {V : Type 0} where
  accepted_grows :
      (store : MemoryStore V) (candidate : SettingWriteCandidate V) (key : Text)
      → (more : List (SettingHistoryEntry V)) × (entries_of ((accepted store candidate).history key)
          ≡ entries_of (store.history key) ++ more)
  accepted_grows store candidate key =
      elim (Bool-cases (text_eq (key_of candidate.coordinate) key)) [
        | inl same ↦
            let e = (text_eq_iff (key_of candidate.coordinate) key).0 same in
            let entry =
              new_entry candidate
                (new_record candidate (version_of (store.current (key_of candidate.coordinate)))) in
            (entry ∷ [], rw same (ap (λ k. entries_of (store.history k) ++ entry ∷ []) e))
        | inr differ ↦ ([], rw differ (sym (append-nil _)))
      ]

  mark_applied_history :
      (store : MemoryStore V) (coordinate : SettingCoordinate) (version : Number)
      → (mark_applied store coordinate version).1.history ≡ store.history
  unfolding mark_applied
  mark_applied_history store coordinate version =
      elim (Option-cases (store.current (key_of coordinate))) [
        | inl gone ↦ rw gone
        | inr (r, found) ↦ elim (Bool-cases (is_number r.version version)) [
          | inl hit ↦ rw (found, hit)
          | inr miss ↦ rw (found, miss)
        ]
      ]

  apply_grows :
      (store : MemoryStore V) (c : Command V) (key : Text)
      → (more : List (SettingHistoryEntry V)) × (entries_of ((apply store c).history key)
          ≡ entries_of (store.history key) ++ more)
  apply_grows store (save candidate) key = elim (compare_and_write-cases store candidate) [
    | inl e ↦ rw e (accepted_grows store candidate key)
    | inr e ↦ rw e ([], sym (append-nil _))
  ]
  apply_grows store (mark coordinate version) key = (
    [],
    ap (λ (f : Text → Option (List (SettingHistoryEntry V))). entries_of (f key))
          (mark_applied_history store coordinate version)
        ∙ sym (append-nil _),
  )

  -- A version that is in the history is found there, unchanged, after any writes and marks.
  pub find_history_version_kept :
      (store : MemoryStore V) (cs : List (Command V)) (coordinate : SettingCoordinate)
      (version : Number) {entry : SettingHistoryEntry V}
      → find_history_version store coordinate version ≡ some entry
      → find_history_version (run store cs) coordinate version ≡ some entry
  unfolding run find_history_version
  find_history_version_kept store [] coordinate version h = h
  find_history_version_kept store (c ∷ cs) coordinate version h =
      let (more, e) = apply_grows store c (key_of coordinate) in
      find_history_version_kept (apply store c) cs coordinate version (
        rw e (
          find-append (has_version version) (entries_of (store.history (key_of coordinate))) more
            h))

  compare_and_write-hit :
      (store : MemoryStore V) (c : SettingWriteCandidate V)
      → is_number (version_of (store.current (key_of c.coordinate))) c.expected_version ≡ true
      → compare_and_write store c ≡ (
        written (new_record c (version_of (store.current (key_of c.coordinate)))),
        accepted store c,
      )
  unfolding compare_and_write
  compare_and_write-hit store c h = rw h

  compare_and_write-miss :
      (store : MemoryStore V) (c : SettingWriteCandidate V)
      → is_number (version_of (store.current (key_of c.coordinate))) c.expected_version ≡ false
      → compare_and_write store c
        ≡ (version_conflict (version_of (store.current (key_of c.coordinate))), store)
  unfolding compare_and_write
  compare_and_write-miss store c h = rw h

  abbrev result_version : SettingWriteStoreResult V → ℕ
  result_version (written r) = r.version
  result_version (version_conflict n) = n

  conflict-ne-written : (n : ℕ) (r : StoredSettingValue V) → version_conflict n ≢ written r
  conflict-ne-written n r h = cc

  accepted_version :
      (store : MemoryStore V) (first : SettingWriteCandidate V) (coordinate : SettingCoordinate)
      → coordinate ≡ first.coordinate
      → version_of ((accepted store first).current (key_of coordinate))
        ≡ version_of (store.current (key_of first.coordinate)) + 1
  accepted_version store first coordinate e = rw (e, text_eq_refl)

  -- Of two writers that expect the same version of a setting only one is accepted: the second is
  -- told the version that the first has written, and changes nothing.
  pub one_writer_accepted :
      (store : MemoryStore V) (first second : SettingWriteCandidate V) {r : StoredSettingValue V}
      → (compare_and_write store first).0 ≡ written r
      → second.coordinate ≡ first.coordinate
      → second.expected_version ≡ first.expected_version
      → compare_and_write (compare_and_write store first).1 second
        ≡ (version_conflict r.version, (compare_and_write store first).1)
  one_writer_accepted store first second {r} h c v =
      let n = version_of (store.current (key_of first.coordinate)) in
      elim (Bool-cases (is_number n first.expected_version)) [
        | inl hit ↦
            let one = compare_and_write-hit store first hit in
            let seen = accepted_version store first second.coordinate c in
            let version : n + 1 ≡ r.version = ap result_version (sym (ap (λ x. x.0) one) ∙ h) in
            rw one (
              compare_and_write-miss (accepted store first) second
                (rw (seen, v) (is_number_next n first.expected_version hit))
              ∙ ap (λ x. (version_conflict x, accepted store first)) (seen ∙ version))
        | inr miss ↦
            let two = compare_and_write-miss store first miss in
            absurd (conflict-ne-written _ r (sym (ap (λ x. x.0) two) ∙ h))
      ]
