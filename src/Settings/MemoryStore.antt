-- ===== src/Settings/MemoryStore.antt =====
-- packages/settings-runtime/src/memory-store.ts, with the types of contracts.ts. Values are of any
-- type; `structuredClone` copies them, which a value cannot tell. The three maps are functions from
-- the keys that `keyOf` builds.
pub mod History
pub mod Writers
use mathlib.Core.List.{reverse}
use taymex.Prelude.{
  ℕ, ◌+◌, ◌-◌, Text, codes, Option, none, some, Bool, true, false, List, [], ◌∷◌, ◌++◌, ◌==◌, leb,
  length, find, drop, set_at, if◌then◌else◌,
}
use taymex.Foundation.Errors.{range_error, Result, ok, err, Number, nat, other, safe_from, Date}

pub record SettingCoordinate : Type 0 where
  pub key : Text
  pub scope : Text
  pub scope_ref : Option Text

-- whether an entry comes from a write or from a rollback
pub data Operation : Type 0 where
  write rollback : Operation

module _ (V : Type 0) where
  pub record StoredSettingValue : Type 0 where
    pub coordinate : SettingCoordinate
    pub value : V
    pub version : ℕ
    pub saved_at : Date
    pub saved_by_account_id : Text
    pub source : Text

  pub record SettingHistoryEntry : Type 0 where
    pub stored : StoredSettingValue
    pub operation : Operation
    pub rolled_back_from_version : Option Number

  pub record SettingWriteCandidate : Type 0 where
    pub coordinate : SettingCoordinate
    pub value : V
    pub expected_version : Number
    pub saved_at : Date
    pub saved_by_account_id : Text
    pub source : Text
    pub operation : Operation
    pub rolled_back_from_version : Option Number

  pub data SettingWriteStoreResult : Type 0 where
    written : StoredSettingValue → SettingWriteStoreResult
    version_conflict : ℕ → SettingWriteStoreResult

  pub record MemoryStore : Type 0 where
    pub current : Text → Option StoredSettingValue
    pub history : Text → Option (List SettingHistoryEntry)
    pub applied : Text → Option ℕ

pub data MarkResult : Type 0 where
  applied version_mismatch missing : MarkResult

abbrev or_empty : Option Text → Text
or_empty none = []
or_empty (some t) = t

-- keyOf
unfoldable pub key_of : SettingCoordinate → Text
key_of c = c.key ++ (0 ∷ c.scope) ++ (0 ∷ or_empty c.scope_ref)

abbrev pub is_number : ℕ → Number → Bool
is_number n (nat m) = n == m
is_number n other = false

module _ {V : Type 0} where
  abbrev pub empty_store : MemoryStore V
  empty_store = record { current = λ key. none; history = λ key. none; applied = λ key. none }

  unfoldable pub find_current : MemoryStore V → SettingCoordinate → Option (StoredSettingValue V)
  find_current store coordinate = store.current (key_of coordinate)

  abbrev with_found :
      Option (StoredSettingValue V) → List (StoredSettingValue V) → List (StoredSettingValue V)
  with_found none records = records
  with_found (some r) records = r ∷ records

  unfoldable pub find_current_many :
      MemoryStore V → List SettingCoordinate → List (StoredSettingValue V)
  find_current_many store [] = []
  find_current_many store (c ∷ cs) =
      with_found (store.current (key_of c)) (find_current_many store cs)

  -- history.get(key) ?? []
  abbrev pub entries_of : Option (List (SettingHistoryEntry V)) → List (SettingHistoryEntry V)
  entries_of none = []
  entries_of (some entries) = entries

  abbrev pub has_version : Number → SettingHistoryEntry V → Bool
  has_version version entry = is_number entry.stored.version version

  unfoldable pub find_history_version :
      MemoryStore V → SettingCoordinate → Number → Option (SettingHistoryEntry V)
  find_history_version store coordinate version =
      find (has_version version) (entries_of (store.history (key_of coordinate)))

  abbrev limit_error : Result (List (SettingHistoryEntry V))
  limit_error = err (range_error "Settings history limit must be between 1 and 100.")

  unfoldable pub list_history :
      MemoryStore V → SettingCoordinate → Number → Result (List (SettingHistoryEntry V))
  list_history store coordinate limit = elim (safe_from 1 limit) [
    | none ↦ limit_error
    | some n ↦
        let entries = entries_of (store.history (key_of coordinate)) in
        if leb n 100 then ok (reverse (drop (length entries - n) entries)) else limit_error
  ]

  -- current?.version ?? 0
  abbrev pub version_of : Option (StoredSettingValue V) → ℕ
  version_of none = 0
  version_of (some r) = r.version

  abbrev pub new_record : SettingWriteCandidate V → ℕ → StoredSettingValue V
  new_record candidate version = record {
    coordinate = candidate.coordinate;
    value = candidate.value;
    version = version + 1;
    saved_at = candidate.saved_at;
    saved_by_account_id = candidate.saved_by_account_id;
    source = candidate.source;
  }

  abbrev pub new_entry : SettingWriteCandidate V → StoredSettingValue V → SettingHistoryEntry V
  new_entry candidate stored = record {
    stored = stored;
    operation = candidate.operation;
    rolled_back_from_version = candidate.rolled_back_from_version;
  }

  unfoldable pub compare_and_write :
      MemoryStore V → SettingWriteCandidate V → SettingWriteStoreResult V × MemoryStore V
  compare_and_write store candidate =
      let key = key_of candidate.coordinate in
      let current_version = version_of (store.current key) in
      let stored = new_record candidate current_version in
      if is_number current_version candidate.expected_version
      then (
        written stored,
        record store {
          current = set_at store.current key (some stored);
          history =
              set_at store.history key
                (some (entries_of (store.history key) ++ new_entry candidate stored ∷ []));
        },
      )
      else (version_conflict current_version, store)

  unfoldable pub get_applied_version : MemoryStore V → SettingCoordinate → Option ℕ
  get_applied_version store coordinate = store.applied (key_of coordinate)

  abbrev marked :
      MemoryStore V → Text → Number → Option (StoredSettingValue V) → MarkResult × MemoryStore V
  marked store key version none = (missing, store)
  marked store key version (some r) =
      if is_number r.version version
      then (
        MarkResult.applied,
        record store { applied = set_at store.applied key (some r.version) },
      )
      else (version_mismatch, store)

  unfoldable pub mark_applied :
      MemoryStore V → SettingCoordinate → Number → MarkResult × MemoryStore V
  mark_applied store coordinate version =
      let key = key_of coordinate in marked store key version (store.current key)
