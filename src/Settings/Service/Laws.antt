-- ===== src/Settings/Service/Laws.antt =====
-- What a rollback and a refused write leave.
use mathlib.Core.Path.{subst}
use taymex.Prelude.{
  ◌≡◌, refl, sym, ap, ◌∙◌, ◌+◌, Text, Option, none, some, Bool, true, false, ◌⊎◌, inl, inr,
  if◌then◌else◌,
}
use taymex.Foundation.Errors.{
  Error, plain_error, Result, ok, err, Result-cases, Number, nat, safe_from, Date,
}
use taymex.Foundation.Validation.{require_non_blank, require_uuid}
use taymex.Effects.{◌>>=◌, pure, lift, restore, atomic}
use taymex.Effects.Runs.{>>=-ok, lift-ok, query-ok, pure-ok, atomic-ok}
use taymex.Settings.MemoryStore.{
  SettingCoordinate, StoredSettingValue, SettingHistoryEntry, SettingWriteCandidate,
  SettingWriteStoreResult, written, version_conflict, rollback, write,
}
use taymex.Settings.Contracts.{ManagedSettingDefinition, invariant, secret_reference}
use taymex.Settings.Checks.{
  SettingsRuntimeService, AuditWriteInput, MutateInput, assert_mutable, non_negative, or_admin,
  coordinate_for, written_or, marked_or, is_hot, immutable_error,
}
use taymex.Settings.Service.{
  assert_can_manage, validate_candidate, candidate_of, change_record, apply_hot, mutate,
  store_change, write_setting, rollback_setting, restore_version, found_entry,
}

-- the version after one that is expected
abbrev pub after : Number → Number
after (nat n) = nat (n + 1)
after Number.other = Number.other

module _ {S V T A : Type 0} (service : SettingsRuntimeService S V T A) where
  -- The value that a coordinate has in a state.
  abbrev pub current : SettingCoordinate → S → Result (Option (StoredSettingValue V))
  current coordinate s = service.store.find_current coordinate s

  -- What the store and the recorder promise: an accepted write is of the candidate's value, one
  -- version after the one that it expects, and is the current value then, which nothing else changes.
  pub record IsStoring : Type 0 where
    pub stores :
        (candidate : SettingWriteCandidate V) (s t : S) (stored : StoredSettingValue V)
        → service.store.compare_and_write candidate s ≡ (ok (written stored), t)
        → (stored.value ≡ candidate.value)
          × (nat stored.version ≡ after candidate.expected_version)
          × (current candidate.coordinate t ≡ ok (some stored))
    pub marks :
        (marked coordinate : SettingCoordinate) (version : Number) (s : S)
        → current coordinate (service.store.mark_applied marked version s).1 ≡ current coordinate s
    pub records :
        (input : AuditWriteInput A) (coordinate : SettingCoordinate) (s : S)
        → current coordinate (service.record_audit input s).1 ≡ current coordinate s

  -- What a write has done.
  pub record IsWritten (coordinate : SettingCoordinate) (value : V) (expected : Number)
      (stored : StoredSettingValue V) (t : S) : Type 0 where
    pub same_value : stored.value ≡ value
    pub next : nat (stored.version) ≡ after expected
    pub is_current : current coordinate t ≡ ok (some stored)

  apply_hot-current :
      IsStoring
      → (definition : ManagedSettingDefinition) (coordinate : SettingCoordinate)
        (stored : StoredSettingValue V) (s t : S) {a : Unit {0}}
      → apply_hot service definition coordinate stored s ≡ (ok a, t)
      → current coordinate t ≡ current coordinate s
  apply_hot-current laws definition coordinate stored s t {a} h =
      go (is_hot definition.runtime_behavior) h
    where
      go :
          (b : Bool)
          → (if b
                then (service.store.mark_applied coordinate (nat stored.version) >>= λ marked.
                    lift (marked_or (plain_error "Failed to mark hot setting applied") marked))
                else pure tt)
              s
            ≡ (ok a, t)
          → current coordinate t ≡ current coordinate s
      go true k =
          let (marked, s1, e, r) =
            >>=-ok (service.store.mark_applied coordinate (nat stored.version)) _ s k in
          sym (ap (λ x. current coordinate x) (ap (λ r. r.1) e ∙ ap (λ r. r.1) r))
          ∙ laws.marks coordinate coordinate (nat stored.version) s
      go false k = sym (ap (λ x. current coordinate x) (ap (λ r. r.1) k))

  store_change-IsWritten :
      IsStoring
      → (input : MutateInput V) (c : SettingCoordinate) (account_id source : Text) (now : Date)
        (s t : S) (stored : StoredSettingValue V)
      → store_change service input c account_id source now s ≡ (ok stored, t)
      → IsWritten c input.value input.expected_version stored t
  store_change-IsWritten laws input c account_id source now s t stored h =
      let (before, _, r8) = query-ok (service.store.find_current c) _ s h in
      let (result, s1, e9, r9) = >>=-ok (service.store.compare_and_write candidate) _ s r8 in
      let (kept, e10, r10) = lift-ok (written_or result) _ s1 r9 in
      let (_, s2, e11, r11) = >>=-ok (apply_hot service input.definition c kept) _ s1 r10 in
      let (_, s3, e12, r12) =
        >>=-ok (service.record_audit (change_record service input c before kept)) _ s2 r11 in
      let (same, stays) = pure-ok kept s3 r12 in
      finish before result kept s1 s2 s3 e9 e10 e11 e12 same stays
    where
      candidate : SettingWriteCandidate V
      candidate = candidate_of service input c account_id source now

      was_written :
          (r : SettingWriteStoreResult V) {a : StoredSettingValue V}
          → written_or r ≡ ok a
          → r ≡ written a
      was_written (written b) k = cc
      was_written (version_conflict n) k = cc

      finish :
          (before : Option (StoredSettingValue V)) (result : SettingWriteStoreResult V)
          (kept : StoredSettingValue V) (s1 s2 s3 : S) {a b : Unit {0}}
          → service.store.compare_and_write candidate s ≡ (ok result, s1)
          → written_or result ≡ ok kept
          → apply_hot service input.definition c kept s1 ≡ (ok a, s2)
          → service.record_audit (change_record service input c before kept) s2 ≡ (ok b, s3)
          → kept ≡ stored
          → s3 ≡ t
          → IsWritten c input.value input.expected_version stored t
      finish before result kept s1 s2 s3 e9 e10 e11 e12 same stays =
          let (of_value, of_version, is_current) =
            laws.stores candidate s s1 kept (e9 ∙ ap (λ r. (ok r, s1)) (was_written result e10)) in
          let last : current c s3 ≡ ok (some kept) =
            ap (λ r. current c r.1) (sym e12)
            ∙ laws.records (change_record service input c before kept) c s2
            ∙ apply_hot-current laws input.definition c kept s1 s2 e11
            ∙ is_current in
          record {
            same_value = sym (ap (λ (x : StoredSettingValue V). x.value) same) ∙ of_value;
            next = sym (ap (λ (x : StoredSettingValue V). nat x.version) same) ∙ of_version;
            is_current =
                subst (λ x. current c x ≡ ok (some stored)) stays
                  (last ∙ ap (λ x. ok (some x)) same);
          }

  mutate-IsWritten :
      IsStoring
      → (input : MutateInput V) (now : Date) (coordinate : SettingCoordinate)
      → coordinate_for input.definition.key input.scope input.scope_ref ≡ ok coordinate
      → (s t : S) (stored : StoredSettingValue V) → mutate service input now s ≡ (ok stored, t)
      → IsWritten coordinate input.value input.expected_version stored t
  unfolding mutate
  mutate-IsWritten laws input now coordinate located s t stored h =
      let (_, _, r1) = lift-ok (assert_can_manage service input.actor) _ s h in
      let (_, _, r2) = lift-ok (assert_mutable input.definition.kind) _ s r1 in
      let (_, _, r3) = lift-ok (non_negative (safe_from 0 input.expected_version)) _ s r2 in
      let (account_id, _, r4) =
        lift-ok (require_uuid input.actor.account_id "actor.accountId") _ s r3 in
      let (source, _, r5) =
        lift-ok (require_non_blank (or_admin input.source) "source" (nat 128)) _ s r4 in
      let (c, e6, r6) =
        lift-ok (coordinate_for input.definition.key input.scope input.scope_ref) _ s r5 in
      let (_, _, r7) =
        lift-ok (validate_candidate service input.definition input.scope input.value) _ s r6 in
      subst (λ x. IsWritten x input.value input.expected_version stored t)
        (the_same (sym e6 ∙ located))
        (store_change-IsWritten laws input c account_id source now s t stored r7)
    where
      the_same : {a b : SettingCoordinate} → ok a ≡ ok b → a ≡ b
      the_same k = cc

  -- A rollback that succeeds makes the value of the version that it goes back to the current one
  -- again, as the version after the one that it expected: where the store writes what it is given and
  -- nothing else changes a current value.
  pub rollback_setting-restores :
      IsStoring
      → (input : MutateInput V) (target_version : Number) (now : Date)
        (coordinate : SettingCoordinate)
      → coordinate_for input.definition.key input.scope input.scope_ref ≡ ok coordinate
      → (s t : S) (stored : StoredSettingValue V)
      → rollback_setting service input target_version now s ≡ (ok stored, t)
      → (entry : SettingHistoryEntry V) × (service.store.find_history_version coordinate
            target_version s
          ≡ ok (some entry))
        × IsWritten coordinate entry.stored.value input.expected_version stored t
  unfolding rollback_setting
  rollback_setting-restores laws input target_version now coordinate located s t stored h =
      let run = atomic-ok (restore_version service input target_version now) s h in
      let (_, _, r1) = lift-ok (assert_can_manage service input.actor) _ s run in
      let (c, e2, r2) =
        lift-ok (coordinate_for input.definition.key input.scope input.scope_ref) _ s r1 in
      let (found, e3, r3) = query-ok (service.store.find_history_version c target_version) _ s r2 in
      let (entry, e4, r4) = lift-ok (found_entry service found) _ s r3 in
      let here : c ≡ coordinate = the_same (sym e2 ∙ located) in
      (
        entry,
        subst (λ x. service.store.find_history_version x target_version s ≡ ok (some entry)) here
            (e3 ∙ ap ok (was_found found e4)),
        mutate-IsWritten laws
            (record input {
              value = entry.stored.value;
              operation = rollback;
              rolled_back_from_version = some target_version;
            })
            now coordinate located s t stored r4,
      )
    where
      was_found :
          (o : Option (SettingHistoryEntry V)) {a : SettingHistoryEntry V}
          → found_entry service o ≡ ok a
          → o ≡ some a
      was_found none k = cc
      was_found (some b) k = cc

      the_same : {a b : SettingCoordinate} → ok a ≡ ok b → a ≡ b
      the_same k = cc

  mutate-refused :
      (input : MutateInput V) (now : Date) (s : S)
      → assert_mutable input.definition.kind ≡ err immutable_error
      → (e : Error) × (mutate service input now s ≡ (err e, s))
  unfolding mutate
  mutate-refused input now s h = elim (Result-cases (assert_can_manage service input.actor)) [
    | inl (a, allowed) ↦ (immutable_error, rw (allowed, h) refl)
    | inr (e, denied) ↦ (e, rw denied refl)
  ]

  rollback_setting-refused :
      (input : MutateInput V) (target_version : Number) (now : Date) (s : S)
      → assert_mutable input.definition.kind ≡ err immutable_error
      → (e : Error) × (rollback_setting service input target_version now s ≡ (err e, s))
  unfolding rollback_setting atomic
  rollback_setting-refused input target_version now s h =
      go (restore_version service input target_version now s) refl
    where
      never :
          (stored : StoredSettingValue V) (t : S)
          → restore_version service input target_version now s ≡ (ok stored, t)
          → (e : Error) × (restore s (ok stored, t) ≡ (err e, s))
      never stored t k =
          let (_, _, r1) = lift-ok (assert_can_manage service input.actor) _ s k in
          let (c, _, r2) =
            lift-ok (coordinate_for input.definition.key input.scope input.scope_ref) _ s r1 in
          let (found, _, r3) =
            query-ok (service.store.find_history_version c target_version) _ s r2 in
          let (entry, _, r4) = lift-ok (found_entry service found) _ s r3 in
          let (e, refused) =
            mutate-refused
              (record input {
                value = entry.stored.value;
                operation = rollback;
                rolled_back_from_version = some target_version;
              })
              now s h in
          absurd (differ (sym (ap (λ r. r.0) r4) ∙ ap (λ r. r.0) refused))
        where
          differ : {a : StoredSettingValue V} {e : Error} → ok a ≡ err e → ⊥
          differ x = cc

      go :
          (r : Result (StoredSettingValue V) × S)
          → restore_version service input target_version now s ≡ r
          → (e : Error) × (atomic (restore_version service input target_version now) s ≡ (err e, s))
      go (err e, t) k = (e, ap (restore s) k)
      go (ok stored, t) k = let (e, refused) = never stored t k in (e, ap (restore s) k ∙ refused)

  -- A setting that is an invariant or a reference to a secret is not changed, whoever asks: a write
  -- and a rollback to any version end in an error and leave the state as it was.
  pub write_setting-immutable :
      (input : MutateInput V) (target_version : Number) (now : Date) (s : S)
      → (input.definition.kind ≡ invariant) ⊎ (input.definition.kind ≡ secret_reference)
      → ((e : Error) × (write_setting service input now s ≡ (err e, s)))
        × ((e : Error) × (rollback_setting service input target_version now s ≡ (err e, s)))
  unfolding write_setting assert_mutable atomic mutate-refused
  write_setting-immutable input target_version now s h =
      let (e, refused) =
        mutate-refused (record input { operation = write; rolled_back_from_version = none }) now s
          immutable in
      ((e, rw refused refl), rollback_setting-refused input target_version now s immutable)
    where
      immutable : assert_mutable input.definition.kind ≡ err immutable_error
      immutable = elim h [ inl e ↦ ap assert_mutable e | inr e ↦ ap assert_mutable e ]
