-- ===== src/Settings/Service/Memory.antt =====
-- packages/settings-runtime/src/memory-store.ts as the store of the service. Beside it stands the
-- state of the rest of the program.
use taymex.Prelude.{
  [], ◌∷◌, ◌++◌, Text, ◌≡◌, refl, sym, ap, ◌∙◌, ℕ, ◌+◌, arith, some, Bool, true, false, ==_iff,
  set_at, text_eq_refl, if◌then◌else◌,
}
use taymex.Foundation.Errors.{ok, Number, nat, other}
use taymex.Settings.MemoryStore.{
  MemoryStore, SettingCoordinate, StoredSettingValue, SettingWriteCandidate,
  SettingWriteStoreResult, written, version_conflict, compare_and_write, find_current,
  find_current_many, find_history_version, list_history, get_applied_version, mark_applied,
  is_number, version_of, new_record, new_entry, entries_of, key_of,
}
use taymex.Settings.Contracts.{SettingsValueStore}
use taymex.Settings.Checks.{SettingsRuntimeService, AuditWriteInput}
use taymex.Settings.Service.Laws.{IsStoring, after}

-- MemorySettingsValueStore
abbrev pub memory_values : (V W : Type 0) → SettingsValueStore (MemoryStore V × W) V
memory_values V W = record {
  find_current = λ coordinate s. ok (find_current s.0 coordinate);
  find_current_many = λ coordinates s. ok (find_current_many s.0 coordinates);
  find_history_version = λ coordinate version s. ok (find_history_version s.0 coordinate version);
  list_history = λ coordinate limit s. list_history s.0 coordinate limit;
  compare_and_write = λ candidate s.
      let (result, store) = compare_and_write s.0 candidate in (ok result, (store, s.1));
  get_applied_version = λ coordinate s. ok (get_applied_version s.0 coordinate);
  mark_applied = λ coordinate version s.
      let (result, store) = mark_applied s.0 coordinate version in (ok result, (store, s.1));
}

mark_applied-find_current :
    {V : Type 0} (store : MemoryStore V) (marked coordinate : SettingCoordinate) (version : Number)
    → find_current (mark_applied store marked version).1 coordinate ≡ find_current store coordinate
unfolding mark_applied find_current
mark_applied-find_current store marked coordinate version = ground arith

expected_after :
    (n : ℕ) (expected : Number) → is_number n expected ≡ true → nat (n + 1) ≡ after expected
expected_after n (nat m) h = ap (λ k. nat (k + 1)) ((==_iff n m).0 h)
expected_after n other h = cc

module _ {V : Type 0} where
  written_parts :
      (store after_write : MemoryStore V) (candidate : SettingWriteCandidate V)
      (stored : StoredSettingValue V)
      → compare_and_write store candidate ≡ (written stored, after_write)
      → (stored.value ≡ candidate.value)
        × (nat stored.version ≡ after candidate.expected_version)
        × (find_current after_write candidate.coordinate ≡ some stored)
  unfolding compare_and_write find_current
  written_parts store after_write candidate stored h =
      go (is_number version candidate.expected_version) refl h
    where
      key : Text
      key = key_of candidate.coordinate

      version : ℕ
      version = version_of (store.current key)

      new : StoredSettingValue V
      new = new_record candidate version

      next : MemoryStore V
      next = record store {
        current = set_at store.current key (some new);
        history =
            set_at store.history key
              (some (entries_of (store.history key) ++ new_entry candidate new ∷ []));
      }

      the_same : {a b : StoredSettingValue V} → written a ≡ written b → a ≡ b
      the_same k = cc

      go :
          (b : Bool)
          → is_number version candidate.expected_version ≡ b
          → ◌≡◌ {A = SettingWriteStoreResult V × MemoryStore V}
              (if b then (written new, next) else (version_conflict version, store))
              (written stored, after_write)
          → (stored.value ≡ candidate.value)
            × (nat stored.version ≡ after candidate.expected_version)
            × (after_write.current key ≡ some stored)
      go true accepted k =
          let same : new ≡ stored = the_same (ap (λ r. r.0) k) in
          let found : next.current key ≡ some new = rw (text_eq_refl key) refl in
          (
            sym (ap (λ (x : StoredSettingValue V). x.value) same),
            sym (ap (λ (x : StoredSettingValue V). nat x.version) same)
                ∙ expected_after version candidate.expected_version accepted,
            sym (ap (λ (x : MemoryStore V). x.current key) (ap (λ r. r.1) k))
                ∙ found
                ∙ ap some same,
          )
      go false refused k = cc

of_ok {ℓ} : {A : Type ℓ} {a b : A} → ok a ≡ ok b → a ≡ b
of_ok h = cc

pair_eq : {A B : Type 0} {a c : A} {b d : B} → a ≡ c → b ≡ d → ◌≡◌ {A = A × B} (a, b) (c, d)
pair_eq h k = cc

module _ {V W T A : Type 0} (service : SettingsRuntimeService (MemoryStore V × W) V T A) where
  -- The service with the store in memory.
  abbrev pub over_memory : SettingsRuntimeService (MemoryStore V × W) V T A
  over_memory = record service { store = memory_values V W }

  -- The store in memory writes what it is given, as the version after the one expected, and marking
  -- a version as applied changes no current value, as the service needs, if the recorder of the audit
  -- leaves the store alone.
  pub memory-IsStoring :
      ((input : AuditWriteInput A) (s : MemoryStore V × W)
        → (service.record_audit input s).1.0 ≡ s.0)
      → IsStoring over_memory
  memory-IsStoring quiet = record {
    stores = λ candidate s t stored h.
        let (of_value, of_version, found) =
          written_parts s.0 t.0 candidate stored
            (pair_eq (of_ok (ap (λ r. r.0) h)) (ap (λ r. r.1.0) h)) in
        (of_value, of_version, ap ok found);
    marks = λ marked coordinate version s.
        ap ok (mark_applied-find_current s.0 marked coordinate version);
    records = λ input coordinate s.
        ap (λ (x : MemoryStore V). ok (find_current x coordinate)) (quiet input s);
  }
