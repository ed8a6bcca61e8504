-- ===== src/Settings/ServiceExamples.antt =====
-- The theorems on the service at a setting that has two versions.
use taymex.Prelude.{
  ℕ, ◌≡◌, refl, ◌+◌, Text, codes, none, some, true, false, [], ◌∷◌, trim, trim_start, is_space,
  text_eq, inl,
}
use taymex.Foundation.Errors.{Error, ok, err, nat, at, safe_from}
use taymex.Foundation.Validation.{require_non_blank, require_uuid, is_uuid, matches, to_lower}
use taymex.Effects.{atomic}
use taymex.Identity.Session.{aal2}
use taymex.Identity.Actor.{require_assurance}
use taymex.Settings.MemoryStore.{
  MemoryStore, SettingCoordinate, SettingWriteCandidate, StoredSettingValue, SettingHistoryEntry,
  write, empty_store, key_of, find_current, find_history_version, compare_and_write, mark_applied,
}
use taymex.Settings.Contracts.{hot, configuration, invariant}
use taymex.Settings.Checks.{
  SettingsRuntimeService, AuditWriteInput, MutateInput, assert_mutable, normalize_coordinate,
  coordinate_for,
}
use taymex.Settings.Service.{
  rollback_setting, write_setting, mutate, assert_can_manage, validate_candidate,
}
use taymex.Settings.Service.Laws.{
  IsStoring, IsWritten, rollback_setting-restores, write_setting-immutable,
}
use taymex.Settings.Service.Memory.{memory_values, over_memory, memory-IsStoring}

abbrev admin_id : Text
admin_id = codes "a0000000-0000-1000-8000-000000000001"

abbrev World : Type 0
World = MemoryStore ℕ × ℕ

-- a recorder that counts, and a resolution that takes any value
abbrev base : SettingsRuntimeService World ℕ (Unit {0}) ℕ
base = record {
  store = memory_values ℕ ℕ;
  record_audit = λ input s. (ok tt, (s.0, s.1 + 1));
  has_permission = λ actor permission. true;
  resolve_setting = λ definition sources. ok tt;
  sanitize = λ v. v;
}

abbrev service : SettingsRuntimeService World ℕ (Unit {0}) ℕ
service = over_memory base

quiet : (input : AuditWriteInput ℕ) (s : World) → (base.record_audit input s).1.0 ≡ s.0
quiet input s = refl

abbrev input : MutateInput ℕ
input = record {
  definition = record {
    key = codes "k";
    scopes = codes "p" ∷ [];
    kind = configuration;
    runtime_behavior = hot;
    sensitive = false;
  };
  scope = codes "p";
  scope_ref = none;
  value = 0;
  expected_version = nat 2;
  actor = record {
    id = admin_id;
    account_id = admin_id;
    session_id = codes "s";
    role_ids = [];
    permissions = [];
    assurance = aal2;
    authenticated_at = 0;
  };
  correlation_id = none;
  source = none;
  operation = write;
  rolled_back_from_version = none;
}

abbrev place : SettingCoordinate
place = record { key = codes "k"; scope = codes "p"; scope_ref = none }

abbrev saving : ℕ → ℕ → SettingWriteCandidate ℕ
saving n version = record {
  coordinate = place;
  value = n;
  expected_version = nat version;
  saved_at = at 1000;
  saved_by_account_id = admin_id;
  source = codes "test";
  operation = write;
  rolled_back_from_version = none;
}

abbrev before : World
before = ((compare_and_write (compare_and_write empty_store (saving 20 0)).1 (saving 30 1)).1, 0)

abbrev restored : StoredSettingValue ℕ
restored = record {
  coordinate = place;
  value = 20;
  version = 3;
  saved_at = at 5000;
  saved_by_account_id = admin_id;
  source = codes "runtime-admin";
}

abbrev after_rollback : World
after_rollback = (rollback_setting service input (nat 1) (at 5000) before).1

located : coordinate_for (codes "k") (codes "p") none ≡ ok place
unfolding normalize_coordinate require_non_blank trim trim_start is_space safe_from
located = refl

rolled_back :
    rollback_setting service input (nat 1) (at 5000) before ≡ (ok restored, after_rollback)
unfolding rollback_setting assert_can_manage normalize_coordinate require_non_blank trim trim_start
    is_space safe_from mutate require_assurance assert_mutable require_uuid is_uuid matches to_lower
    validate_candidate find_current find_history_version compare_and_write mark_applied key_of
    text_eq atomic
rolled_back = refl

rollback_setting-restores_example :
    (entry : SettingHistoryEntry ℕ) × (service.store.find_history_version place (nat 1) before
      ≡ ok (some entry))
    × IsWritten service place entry.stored.value (nat 2) restored after_rollback
rollback_setting-restores_example =
    rollback_setting-restores service (memory-IsStoring base quiet) input (nat 1) (at 5000) place
      located before after_rollback restored rolled_back

memory-IsStoring_example : IsStoring service
memory-IsStoring_example = memory-IsStoring base quiet

abbrev fixed : MutateInput ℕ
fixed = record input { definition = record input.definition { kind = invariant } }

write_setting-immutable_example :
    ((e : Error) × (write_setting service fixed (at 7) before ≡ (err e, before)))
    × ((e : Error) × (rollback_setting service fixed (nat 1) (at 7) before ≡ (err e, before)))
write_setting-immutable_example =
    write_setting-immutable service fixed (nat 1) (at 7) before (inl refl)
