-- ===== src/Settings/Service.antt =====
-- packages/settings-runtime/src/service.ts: the methods of the service.
pub mod Laws
pub mod Memory
use taymex.Prelude.{
  ℕ, String, Text, codes, Option, none, some, Bool, true, false, List, [], ◌∷◌, ◌++◌, Map, put,
  ◌==◌, if◌then◌else◌,
}
use taymex.Foundation.Errors.{
  Category, settings_error, application_error, type_error, plain_error, authorization_denied, Error,
  Result, ok, err, guard, Number, nat, safe_from, Date,
}
use taymex.Foundation.Validation.{require_non_blank, require_uuid}
use taymex.Effects.{Exec, Query, ◌>>=◌, ◌>>◌, pure, raise, lift, query, atomic}
use taymex.Identity.Session.{aal2}
use taymex.Identity.Actor.{ActorContext, require_assurance}
use taymex.Settings.MemoryStore.{
  SettingCoordinate, StoredSettingValue, SettingHistoryEntry, SettingWriteCandidate,
  SettingWriteStoreResult, written, version_conflict, MarkResult, Operation, write, rollback,
}
use taymex.Settings.Contracts.{
  SettingRuntimeBehavior, hot, reload, restart, deploy, ManagedSettingKind, security_policy,
  secret_reference, invariant, ManagedSettingDefinition, SettingsValueStore,
  SettingApplicationStatus, unset, applied, pending_reload, pending_restart, pending_deploy,
  SettingApplicationDiagnostic,
}
use taymex.Settings.Checks.{
  redacted, sanitized, version_number, account_actor, system_actor, ScopedSettingValue, AuditActor,
  AuditValue, AuditWriteInput, SettingsRuntimeService, MutateInput, settings_failure,
  immutable_error, version_conflict_error, history_not_found, application_version_mismatch,
  assert_mutable, non_empty, normalized_ref, with_parts, normalize_coordinate, coordinate_for,
  suffix, coordinate_id, is_hot, is_policy, same_number, pending_for, application_status,
  non_negative, or_admin, action_of, written_or, marked_or, saved_version,
}

module _ {S V T A : Type 0} (service : SettingsRuntimeService S V T A) where
  unfoldable pub assert_can_manage : ActorContext → Result (Unit {0})
  assert_can_manage actor =
      if service.has_permission actor (codes "settings.values.manage")
      then require_assurance actor aal2
      else err authorization_denied

  -- validateCandidate
  abbrev pub accepted : Result T → Result (Unit {0})
  accepted (ok trace) = ok tt
  accepted (err e) = err e

  unfoldable pub validate_candidate : ManagedSettingDefinition → Text → V → Result (Unit {0})
  validate_candidate definition scope value = accepted (
      service.resolve_setting definition
        ((scope, record { value = value; version = none; source = codes "candidate" }) ∷ []))

  abbrev audited : Bool → V → AuditValue A
  audited true value = redacted
  audited false value = sanitized (some (service.sanitize value))

  abbrev audited_before : Bool → Option (StoredSettingValue V) → Option (AuditValue A)
  audited_before sensitive none = none
  audited_before sensitive (some stored) = some (audited sensitive stored.value)

  abbrev pub change_record :
      MutateInput V
      → SettingCoordinate
      → Option (StoredSettingValue V)
      → StoredSettingValue V
      → AuditWriteInput A
  change_record input coordinate before stored = record {
    action_code = action_of input.operation;
    is_warning = is_policy input.definition.kind;
    actor = account_actor input.actor.account_id input.actor.session_id;
    resource_id = coordinate_id coordinate;
    before = audited_before input.definition.sensitive before;
    after = audited input.definition.sensitive stored.value;
    correlation_id = non_empty input.correlation_id;
    key = input.definition.key;
    scope = input.scope;
    scope_ref = non_empty input.scope_ref;
    runtime_behavior = some input.definition.runtime_behavior;
    saved_version = some stored.version;
    rolled_back_from_version = input.rolled_back_from_version;
  }

  abbrev pub candidate_of :
      MutateInput V → SettingCoordinate → Text → Text → Date → SettingWriteCandidate V
  candidate_of input coordinate account_id source now = record {
    coordinate = coordinate;
    value = input.value;
    expected_version = input.expected_version;
    saved_at = now;
    saved_by_account_id = account_id;
    source = source;
    operation = input.operation;
    rolled_back_from_version = input.rolled_back_from_version;
  }

  -- `if (… runtimeBehavior === 'hot')`
  abbrev pub apply_hot :
      ManagedSettingDefinition → SettingCoordinate → StoredSettingValue V → Exec S (Unit {0})
  apply_hot definition coordinate stored =
      if is_hot definition.runtime_behavior
      then (do
        marked ← service.store.mark_applied coordinate (nat stored.version)
        lift (marked_or (plain_error "Failed to mark hot setting applied") marked))
      else pure tt

  -- what mutate does after its checks
  abbrev pub store_change :
      MutateInput V → SettingCoordinate → Text → Text → Date → Exec S (StoredSettingValue V)
  store_change input coordinate account_id source now = do
    before ← query (service.store.find_current coordinate)
    result ← service.store.compare_and_write (candidate_of input coordinate account_id source now)
    stored ← lift (written_or result)
    apply_hot input.definition coordinate stored
    service.record_audit (change_record input coordinate before stored)
    pure stored

  unfoldable pub mutate : MutateInput V → Date → Exec S (StoredSettingValue V)
  mutate input now = do
    lift (assert_can_manage input.actor)
    lift (assert_mutable input.definition.kind)
    lift (non_negative (safe_from 0 input.expected_version))
    account_id ← lift (require_uuid input.actor.account_id "actor.accountId")
    source ← lift (require_non_blank (or_admin input.source) "source" (nat 128))
    coordinate ← lift (coordinate_for input.definition.key input.scope input.scope_ref)
    lift (validate_candidate input.definition input.scope input.value)
    store_change input coordinate account_id source now

  -- write: the input is that of `mutate` with its operation
  unfoldable pub write_setting : MutateInput V → Date → Exec S (StoredSettingValue V)
  write_setting input now =
      atomic (mutate (record input { operation = write; rolled_back_from_version = none }) now)

  abbrev pub found_entry : Option (SettingHistoryEntry V) → Result (SettingHistoryEntry V)
  found_entry none = err history_not_found
  found_entry (some entry) = ok entry

  -- what rollback does in its transaction; the value of `input` is not read
  abbrev pub restore_version : MutateInput V → Number → Date → Exec S (StoredSettingValue V)
  restore_version input target_version now = do
    lift (assert_can_manage input.actor)
    coordinate ← lift (coordinate_for input.definition.key input.scope input.scope_ref)
    found ← query (service.store.find_history_version coordinate target_version)
    historical ← lift (found_entry found)
    mutate
        (record input {
          value = historical.stored.value;
          operation = rollback;
          rolled_back_from_version = some target_version;
        })
        now

  unfoldable pub rollback_setting : MutateInput V → Number → Date → Exec S (StoredSettingValue V)
  rollback_setting input target_version now = atomic (restore_version input target_version now)

  unfoldable pub history :
      ActorContext → SettingCoordinate → Number → Exec S (List (SettingHistoryEntry V))
  history actor given limit = do
    lift (assert_can_manage actor)
    coordinate ← lift (normalize_coordinate given)
    query (service.store.list_history coordinate limit)

  unfoldable pub diagnostic :
      ManagedSettingDefinition → Text → Option Text → Exec S SettingApplicationDiagnostic
  diagnostic definition scope scope_ref = do
    coordinate ← lift (coordinate_for definition.key scope scope_ref)
    current ← query (service.store.find_current coordinate)
    applied_version ← query (service.store.get_applied_version coordinate)
    pure (record {
      coordinate = coordinate;
      runtime_behavior = definition.runtime_behavior;
      saved_version = saved_version current;
      applied_version = applied_version;
      status =
          application_status definition.runtime_behavior (saved_version current) applied_version;
    })

  abbrev store_applied :
      ManagedSettingDefinition
      → Text
      → Option Text
      → Number
      → Option Text
      → Text
      → Exec S (Unit {0})
  store_applied definition scope scope_ref version correlation_id given_source = do
    coordinate ← lift (coordinate_for definition.key scope scope_ref)
    result ← service.store.mark_applied coordinate version
    lift (marked_or application_version_mismatch result)
    source ← lift (require_non_blank given_source "runtimeSource" (nat 128))
    service.record_audit (record {
      action_code = codes "settings.value.applied";
      is_warning = false;
      actor = system_actor source;
      resource_id = coordinate_id coordinate;
      before = none;
      after = version_number version;
      correlation_id = non_empty correlation_id;
      key = definition.key;
      scope = scope;
      scope_ref = none;
      runtime_behavior = none;
      saved_version = none;
      rolled_back_from_version = none;
    })

  unfoldable pub mark_setting_applied :
      ManagedSettingDefinition
      → Text
      → Option Text
      → Number
      → Option Text
      → Text
      → Exec S (Unit {0})
  mark_setting_applied definition scope scope_ref version correlation_id source =
      atomic (store_applied definition scope scope_ref version correlation_id source)

  abbrev coordinates_for : Text → (Text → Option Text) → List Text → Result (List SettingCoordinate)
  coordinates_for key refs [] = ok []
  coordinates_for key refs (scope ∷ scopes) =
      both (coordinate_for key scope (refs scope)) (coordinates_for key refs scopes)
    where
      both :
          Result SettingCoordinate
          → Result (List SettingCoordinate)
          → Result (List SettingCoordinate)
      both (err e) rest = err e
      both (ok c) (err e) = err e
      both (ok c) (ok cs) = ok (c ∷ cs)

  abbrev sources_from :
      List (StoredSettingValue V) → Map (ScopedSettingValue V) → Map (ScopedSettingValue V)
  sources_from [] sources = sources
  sources_from (r ∷ records) sources = sources_from records (
      put sources r.coordinate.scope
        (record { value = r.value; version = some r.version; source = r.source }))

  unfoldable pub resolve_effective :
      ManagedSettingDefinition → (Text → Option Text) → Exec S (T × Map (ScopedSettingValue V))
  resolve_effective definition scope_refs = do
    coordinates ← lift (coordinates_for definition.key scope_refs definition.scopes)
    records ← query (service.store.find_current_many coordinates)
    let sources = sources_from records []
    trace ← lift (service.resolve_setting definition sources)
    pure (trace, sources)
