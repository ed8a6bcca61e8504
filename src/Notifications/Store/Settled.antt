-- ===== src/Notifications/Store/Settled.antt =====
-- Messages that are delivered or dead, and the statements that leave them alone.
use mathlib.Core.Path.{subst}
use taymex.Prelude.{
  ◌≡◌, refl, sym, ap, ◌∙◌, ℕ, arith, Text, Bool, true, false, ◌&&◌, ◌||◌, not, List, [], ◌∷◌, ◌++◌,
  any, all, filter, take, zero, suc, text_eq, text_eq_iff, update_where, insert_by, sort_by,
  Bool-cases, inl, inr, if◌then◌else◌,
}
use taymex.Notifications.Contracts.{
  NotificationOutboxRecord, OutboxStatus, pending, processing, delivered, dead,
}
use taymex.Notifications.Store.{claimable, candidates, is_one_of, leased, same_status}

module _ {A : Type 0} (p : A → Bool) where
  any-insert_by :
      (before : A → A → Bool) (a : A) (rows : List A)
      → p a ≡ false
      → any p rows ≡ false
      → any p (insert_by before a rows) ≡ false
  unfolding insert_by
  any-insert_by before a [] h k = rw h refl
  any-insert_by before a (b ∷ rows) h k = ground (arith, any-insert_by before a rows)

  any-sort_by :
      (before : A → A → Bool) (rows : List A)
      → any p rows ≡ false
      → any p (sort_by before rows) ≡ false
  unfolding sort_by
  any-sort_by before [] h = refl
  any-sort_by before (a ∷ rows) h =
      any-insert_by before a (sort_by before rows) (ground arith)
        (any-sort_by before rows (ground arith))

  any-take : (n : ℕ) (rows : List A) → any p rows ≡ false → any p (take n rows) ≡ false
  any-take zero rows h = refl
  any-take (suc n) [] h = refl
  any-take (suc n) (a ∷ rows) h = ground (arith, any-take n rows)

  any-filter :
      (q : A → Bool) (rows : List A)
      → all (λ a. not (p a) || not (q a)) rows ≡ true
      → any p (filter q rows) ≡ false
  any-filter q [] h = refl
  any-filter q (a ∷ rows) h = ground (arith, any-filter q rows)

abbrev pub is_final : NotificationOutboxRecord → Bool
is_final row = same_status row.status delivered || same_status row.status dead

abbrev pub has_id : Text → NotificationOutboxRecord → Bool
has_id id row = text_eq row.id id

-- There is a message with the id, and it is over.
unfoldable pub is_settled : Text → List NotificationOutboxRecord → Bool
is_settled id rows = any (has_id id) rows && all (λ r. not (has_id id r) || is_final r) rows

final_status :
    (status : OutboxStatus)
    → (same_status status delivered || same_status status dead) ≡ true
    → (same_status status pending ≡ false) × (same_status status processing ≡ false)
final_status pending h = cc
final_status processing h = cc
final_status delivered h = (refl, refl)
final_status dead h = (refl, refl)

both : (b c : Bool) → (b && c) ≡ true → (b ≡ true) × (c ≡ true)
both true true k = (refl, refl)
both true false k = cc
both false c k = cc

and_false : (b : Bool) → (b && false) ≡ false
and_false true = refl
and_false false = refl

not_claimable :
    (now : ℕ) (row : NotificationOutboxRecord) → is_final row ≡ true → claimable now row ≡ false
not_claimable now row h =
    let (not_pending, not_processing) = final_status row.status h in
    rw (not_pending, not_processing) (and_false _)

pub not_leased :
    (id lease_token : Text) (row : NotificationOutboxRecord)
    → is_final row ≡ true
    → leased id lease_token row ≡ false
not_leased id lease_token row h =
    let (_, not_processing) = final_status row.status h in
    rw (not_processing, and_false (text_eq row.id id)) refl

module _ (id : Text) (test : NotificationOutboxRecord → Bool)
    (change : NotificationOutboxRecord → NotificationOutboxRecord)
    (apart : (r : NotificationOutboxRecord)
      → has_id id r ≡ true
      → is_final r ≡ true
      → test r ≡ false)
    (kept : (r : NotificationOutboxRecord) → (change r).id ≡ r.id) where
  same_id :
      (r : NotificationOutboxRecord) → has_id id (if test r then change r else r) ≡ has_id id r
  same_id r = elim (Bool-cases (test r)) [
    | inl hit ↦ rw hit (ap (λ i. text_eq i id) (kept r))
    | inr miss ↦ rw miss refl
  ]

  still_final :
      (r : NotificationOutboxRecord)
      → (not (has_id id r) || is_final r) ≡ true
      → (not (has_id id (if test r then change r else r))
          || is_final (if test r then change r else r))
        ≡ true
  still_final r h = elim (Bool-cases (has_id id r)) [
    | inl mine ↦
        let over : is_final r ≡ true = subst (λ b. (not b || is_final r) ≡ true) mine h in
        rw (apart r mine over) h
    | inr others ↦
        let still = same_id r ∙ others in
        ap (λ b. not b || is_final (if test r then change r else r)) still
  ]

  any-update_where :
      (rows : List NotificationOutboxRecord)
      → any (has_id id) (update_where test change rows) ≡ any (has_id id) rows
  unfolding update_where
  any-update_where [] = refl
  any-update_where (r ∷ rows) =
      ap (λ b. b || any (has_id id) (update_where test change rows)) (same_id r)
      ∙ ap (λ b. has_id id r || b) (any-update_where rows)

  all-update_where :
      (rows : List NotificationOutboxRecord)
      → all (λ r. not (has_id id r) || is_final r) rows ≡ true
      → all (λ r. not (has_id id r) || is_final r) (update_where test change rows) ≡ true
  unfolding update_where
  all-update_where [] h = refl
  all-update_where (r ∷ rows) h =
      let (first, rest) = both (not (has_id id r) || is_final r) _ h in
      rw (still_final r first, all-update_where rows rest) refl

  pub update_where-settled :
      (rows : List NotificationOutboxRecord)
      → is_settled id rows ≡ true
      → is_settled id (update_where test change rows) ≡ true
  unfolding is_settled
  update_where-settled rows h =
      let (there, over) = both (any (has_id id) rows) _ h in
      rw (any-update_where rows, there, all-update_where rows over) refl

none_settled_claimable :
    (id : Text) (now : ℕ) (rows : List NotificationOutboxRecord)
    → all (λ r. not (has_id id r) || is_final r) rows ≡ true
    → all (λ r. not (has_id id r) || not (claimable now r)) rows ≡ true
none_settled_claimable id now [] h = refl
none_settled_claimable id now (r ∷ rows) h =
    let (first, rest) = both (not (has_id id r) || is_final r) _ h in
    rw (one (has_id id r) first, none_settled_claimable id now rows rest) refl
  where
    one : (b : Bool) → (not b || is_final r) ≡ true → (not b || not (claimable now r)) ≡ true
    one true k = ap not (not_claimable now r k)
    one false k = refl

-- No message with a settled id is a candidate.
pub candidates-settled :
    (id : Text) (now limit : ℕ) (rows : List NotificationOutboxRecord)
    → is_settled id rows ≡ true
    → any (has_id id) (candidates now limit rows) ≡ false
unfolding is_settled candidates
candidates-settled id now limit rows h = any-take (has_id id) limit _ (
    any-sort_by (has_id id) _ _ (
      any-filter (has_id id) (claimable now) rows
        (none_settled_claimable id now rows (both (any (has_id id) rows) _ h).1)))

pub not_chosen :
    (id : Text) (chosen : List NotificationOutboxRecord) (row : NotificationOutboxRecord)
    → any (has_id id) chosen ≡ false
    → has_id id row ≡ true
    → is_one_of chosen row ≡ false
not_chosen id chosen row h mine = rw ((text_eq_iff row.id id).0 mine) h

pub append-settled :
    (id : Text) (row : NotificationOutboxRecord) (rows : List NotificationOutboxRecord)
    → has_id id row ≡ false
    → is_settled id rows ≡ true
    → is_settled id (rows ++ row ∷ []) ≡ true
unfolding is_settled
append-settled id row rows other h =
    let (there, over) = both (any (has_id id) rows) _ h in
    rw (any-append rows there, all-append rows over) refl
  where
    any-append :
        (xs : List NotificationOutboxRecord)
        → any (has_id id) xs ≡ true
        → any (has_id id) (xs ++ row ∷ []) ≡ true
    any-append [] k = cc
    any-append (x ∷ xs) k = ground (arith, any-append xs)

    all-append :
        (xs : List NotificationOutboxRecord)
        → all (λ r. not (has_id id r) || is_final r) xs ≡ true
        → all (λ r. not (has_id id r) || is_final r) (xs ++ row ∷ []) ≡ true
    all-append [] k = rw other refl
    all-append (x ∷ xs) k =
        let (first, rest) = both (not (has_id id x) || is_final x) _ k in
        rw (first, all-append xs rest) refl

-- A row that is inserted is not one of a settled id.
pub other_id :
    (id : Text) (row : NotificationOutboxRecord) (rows : List NotificationOutboxRecord)
    → any (λ (r : NotificationOutboxRecord). text_eq r.id row.id) rows ≡ false
    → is_settled id rows ≡ true
    → has_id id row ≡ false
unfolding is_settled
other_id id row rows fresh h = elim (Bool-cases (has_id id row)) [
  | inl mine ↦
      let (there, _) = both (any (has_id id) rows) _ h in
      let same : row.id ≡ id = (text_eq_iff row.id id).0 mine in
      let clash : true ≡ false =
        sym there
        ∙ subst (λ i. any (λ (r : NotificationOutboxRecord). text_eq r.id i) rows ≡ false) same
            fresh in
      cc
  | inr others ↦ others
]
