-- ===== src/Settings/Examples.antt =====
-- The theorems on settings at concrete values.
use taymex.Prelude.{ℕ, ◌≡◌, refl, codes, none, some, List, [], ◌∷◌}
use taymex.Foundation.Errors.{nat, at}
use taymex.Settings.MemoryStore.{
  MemoryStore, SettingCoordinate, SettingWriteCandidate, StoredSettingValue, write, empty_store,
  key_of, find_history_version, compare_and_write, written, version_conflict, new_record, new_entry,
}
use taymex.Settings.MemoryStore.History.{
  Command, save, mark, run, IsConsistent, run_empty-IsConsistent,
}
use taymex.Settings.MemoryStore.Writers.{one_writer_accepted}

abbrev page_size : SettingCoordinate
page_size = record { key = codes "page-size"; scope = codes "platform"; scope_ref = none }

-- saving a number over a version
abbrev candidate : ℕ → ℕ → SettingWriteCandidate ℕ
candidate n version = record {
  coordinate = page_size;
  value = n;
  expected_version = nat version;
  saved_at = at 1000;
  saved_by_account_id = codes "someone";
  source = codes "test";
  operation = write;
  rolled_back_from_version = none;
}

abbrev first_record : StoredSettingValue ℕ
first_record = new_record (candidate 20 0) 0

abbrev commands : List (Command ℕ)
commands =
    save (candidate 20 0)
    ∷ save (candidate 30 1)
    ∷ mark page_size (nat 2)
    ∷ save (candidate 40 1)
    ∷ []

run_empty-IsConsistent_example : IsConsistent (run empty_store commands) (key_of page_size)
run_empty-IsConsistent_example = run_empty-IsConsistent commands (key_of page_size)

abbrev first_store : MemoryStore ℕ
first_store = record {
  current = λ key. some first_record;
  history = λ key. some (new_entry (candidate 20 0) first_record ∷ []);
  applied = λ key. none;
}

first_found :
    find_history_version first_store page_size (nat 1)
    ≡ some (new_entry (candidate 20 0) first_record)
unfolding find_history_version
first_found = refl

first_written : (compare_and_write empty_store (candidate 20 0)).0 ≡ written first_record
unfolding compare_and_write
first_written = refl

one_writer_accepted_example :
    compare_and_write (compare_and_write empty_store (candidate 20 0)).1 (candidate 30 0)
    ≡ (version_conflict 1, (compare_and_write empty_store (candidate 20 0)).1)
one_writer_accepted_example =
    one_writer_accepted empty_store (candidate 20 0) (candidate 30 0) first_written refl refl
