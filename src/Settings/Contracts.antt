-- ===== src/Settings/Contracts.antt =====
-- packages/settings-runtime/src/contracts.ts: definitions, the interface of a store and what the
-- service answers. A setting's scope is a text; its default and its schema are the business of the
-- settings package that resolves it.
use taymex.Prelude.{ℕ, Text, Option, Bool, List}
use taymex.Foundation.Errors.{Number}
use taymex.Effects.{Exec, Query}
use taymex.Settings.MemoryStore.{
  SettingCoordinate, StoredSettingValue, SettingHistoryEntry, SettingWriteCandidate,
  SettingWriteStoreResult, MarkResult,
}

-- SETTING_RUNTIME_BEHAVIORS
pub data SettingRuntimeBehavior : Type 0 where
  hot reload restart deploy : SettingRuntimeBehavior

-- MANAGED_SETTING_KINDS
pub data ManagedSettingKind : Type 0 where
  configuration preference feature_flag security_policy secret_reference : ManagedSettingKind
  invariant : ManagedSettingKind

pub record ManagedSettingDefinition : Type 0 where
  pub key : Text
  pub scopes : List Text
  pub kind : ManagedSettingKind
  pub runtime_behavior : SettingRuntimeBehavior
  pub sensitive : Bool

pub record SettingsValueStore (S V : Type 0) : Type 0 where
  pub find_current : SettingCoordinate → Query S (Option (StoredSettingValue V))
  pub find_current_many : List SettingCoordinate → Query S (List (StoredSettingValue V))
  pub find_history_version : SettingCoordinate → Number → Query S (Option (SettingHistoryEntry V))
  pub list_history : SettingCoordinate → Number → Query S (List (SettingHistoryEntry V))
  pub compare_and_write : SettingWriteCandidate V → Exec S (SettingWriteStoreResult V)
  pub get_applied_version : SettingCoordinate → Query S (Option ℕ)
  pub mark_applied : SettingCoordinate → Number → Exec S MarkResult

pub data SettingApplicationStatus : Type 0 where
  unset applied pending_reload pending_restart pending_deploy : SettingApplicationStatus

pub record SettingApplicationDiagnostic : Type 0 where
  pub coordinate : SettingCoordinate
  pub runtime_behavior : SettingRuntimeBehavior
  pub saved_version : Option ℕ
  pub applied_version : Option ℕ
  pub status : SettingApplicationStatus
