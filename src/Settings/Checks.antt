-- ===== src/Settings/Checks.antt =====
-- packages/settings-runtime/src/service.ts: what the service is built from and records, its checks, and
-- the errors of errors.ts. The permission check and the resolution of a setting belong to other
-- packages and are parameters, and so are the recorder of the audit, what it keeps of a value, and the
-- clock.
use taymex.Prelude.{
  ℕ, String, Text, codes, Option, none, some, Bool, true, false, [], ◌∷◌, ◌++◌, Map, ◌==◌,
  if◌then◌else◌,
}
use taymex.Foundation.Errors.{
  Category, settings_error, application_error, type_error, Error, Result, ok, err, Number, nat,
}
use taymex.Foundation.Validation.{require_non_blank}
use taymex.Effects.{Exec}
use taymex.Identity.Actor.{ActorContext}
use taymex.Settings.MemoryStore.{
  SettingCoordinate, StoredSettingValue, SettingWriteStoreResult, written, version_conflict,
  MarkResult, Operation, write, rollback,
}
use taymex.Settings.Contracts.{
  SettingRuntimeBehavior, hot, reload, restart, deploy, ManagedSettingKind, security_policy,
  secret_reference, invariant, ManagedSettingDefinition, SettingsValueStore,
  SettingApplicationStatus, unset, applied, pending_reload, pending_restart, pending_deploy,
}

-- a value with its version and its source, for the resolution
pub record ScopedSettingValue (V : Type 0) : Type 0 where
  pub value : V
  pub version : Option ℕ
  pub source : Text

pub data AuditActor : Type 0 where
  account_actor : Text → Text → AuditActor
  system_actor : Text → AuditActor

-- The value of an applied version is its number.
pub data AuditValue (A : Type 0) : Type 0 where
  redacted : AuditValue A
  sanitized : Option A → AuditValue A
  version_number : Number → AuditValue A

-- What the service records; the category is always that of settings.
pub record AuditWriteInput (A : Type 0) : Type 0 where
  pub action_code : Text
  pub is_warning : Bool
  pub actor : AuditActor
  pub resource_id : Text
  pub before : Option (AuditValue A)
  pub after : AuditValue A
  pub correlation_id : Option Text
  pub key : Text
  pub scope : Text
  pub scope_ref : Option Text
  pub runtime_behavior : Option SettingRuntimeBehavior
  pub saved_version : Option ℕ
  pub rolled_back_from_version : Option Number

pub record SettingsRuntimeService (S V T A : Type 0) : Type 0 where
  pub store : SettingsValueStore S V
  pub record_audit : AuditWriteInput A → Exec S (Unit {0})
  pub has_permission : ActorContext → Text → Bool
  pub resolve_setting : ManagedSettingDefinition → Map (ScopedSettingValue V) → Result T
  pub sanitize : V → A

pub record MutateInput (V : Type 0) : Type 0 where
  pub definition : ManagedSettingDefinition
  pub scope : Text
  pub scope_ref : Option Text
  pub value : V
  pub expected_version : Number
  pub actor : ActorContext
  pub correlation_id : Option Text
  pub source : Option Text
  pub operation : Operation
  pub rolled_back_from_version : Option Number

abbrev pub settings_failure : String → Category → String → Error
settings_failure code category key = application_error (record {
  class = settings_error;
  code = code;
  category = category;
  safe_message_key = key;
  field = none;
})

abbrev pub immutable_error : Error
immutable_error =
    settings_failure "SETTINGS_RUNTIME_IMMUTABLE" Category.validation "errors.settings.immutable"

abbrev pub version_conflict_error : Error
version_conflict_error =
    settings_failure "SETTINGS_RUNTIME_VERSION_CONFLICT" Category.conflict
      "errors.settings.versionConflict"

abbrev pub history_not_found : Error
history_not_found =
    settings_failure "SETTINGS_RUNTIME_HISTORY_NOT_FOUND" Category.not_found
      "errors.settings.historyNotFound"

abbrev pub application_version_mismatch : Error
application_version_mismatch =
    settings_failure "SETTINGS_RUNTIME_APPLICATION_VERSION_MISMATCH" Category.conflict
      "errors.settings.applicationVersionMismatch"

unfoldable pub assert_mutable : ManagedSettingKind → Result (Unit {0})
assert_mutable invariant = err immutable_error
assert_mutable secret_reference = err immutable_error
assert_mutable _ = ok tt

-- an empty text is none, as a condition has it
abbrev pub non_empty : Option Text → Option Text
non_empty none = none
non_empty (some []) = none
non_empty (some (c ∷ s)) = some (c ∷ s)

abbrev pub normalized_ref : Option Text → Result (Option Text)
normalized_ref none = ok none
normalized_ref (some ref) = wrapped (require_non_blank ref "setting.scopeRef" (nat 240))
  where
    wrapped : Result Text → Result (Option Text)
    wrapped (ok t) = ok (some t)
    wrapped (err e) = err e

abbrev pub with_parts : Text → Result Text → Result (Option Text) → Result SettingCoordinate
with_parts scope (err e) ref = err e
with_parts scope (ok key) (err e) = err e
with_parts scope (ok key) (ok ref) = ok (record { key = key; scope = scope; scope_ref = ref })

unfoldable pub normalize_coordinate : SettingCoordinate → Result SettingCoordinate
normalize_coordinate coordinate =
    with_parts coordinate.scope (require_non_blank coordinate.key "setting.key" (nat 240))
      (normalized_ref (non_empty coordinate.scope_ref))

abbrev pub coordinate_for : Text → Text → Option Text → Result SettingCoordinate
coordinate_for key scope scope_ref =
    normalize_coordinate (record { key = key; scope = scope; scope_ref = non_empty scope_ref })

abbrev pub suffix : Option Text → Text
suffix none = []
suffix (some ref) = codes ":" ++ ref

unfoldable pub coordinate_id : SettingCoordinate → Text
coordinate_id coordinate =
    coordinate.key ++ codes "@" ++ coordinate.scope ++ suffix (non_empty coordinate.scope_ref)

abbrev pub is_hot : SettingRuntimeBehavior → Bool
is_hot hot = true
is_hot _ = false

abbrev pub is_policy : ManagedSettingKind → Bool
is_policy security_policy = true
is_policy _ = false

abbrev pub same_number : Option ℕ → ℕ → Bool
same_number none n = false
same_number (some m) n = m == n

abbrev pub pending_for : SettingRuntimeBehavior → SettingApplicationStatus
pending_for hot = applied
pending_for reload = pending_reload
pending_for restart = pending_restart
pending_for deploy = pending_deploy

unfoldable pub application_status :
    SettingRuntimeBehavior → Option ℕ → Option ℕ → SettingApplicationStatus
application_status behavior none applied_version = unset
application_status behavior (some saved) applied_version =
    if same_number applied_version saved then applied else pending_for behavior

abbrev pub non_negative : Option ℕ → Result (Unit {0})
non_negative none = err (type_error "expectedVersion must be a non-negative safe integer.")
non_negative (some n) = ok tt

abbrev pub or_admin : Option Text → Text
or_admin none = codes "runtime-admin"
or_admin (some source) = source

abbrev pub action_of : Operation → Text
action_of write = codes "settings.value.changed"
action_of rollback = codes "settings.value.rolled-back"

abbrev pub written_or : {V : Type 0} → SettingWriteStoreResult V → Result (StoredSettingValue V)
written_or (written stored) = ok stored
written_or (version_conflict current) = err version_conflict_error

abbrev pub marked_or : Error → MarkResult → Result (Unit {0})
marked_or thrown MarkResult.applied = ok tt
marked_or thrown _ = err thrown

-- current?.version ?? null
abbrev pub saved_version : {V : Type 0} → Option (StoredSettingValue V) → Option ℕ
saved_version none = none
saved_version (some stored) = some stored.version
