-- ===== src/Identity/Persistence/Laws.antt =====
-- Which rows the statements of the repository reach.
use mathlib.Core.Path.{subst}
use taymex.Prelude.{
  update_where, ◌≡◌, refl, sym, ap, ◌∙◌, arith, ℕ, Text, some, Bool, true, false, ◌&&◌, not, List,
  [], ◌∷◌, find, any, text_eq, text_eq_iff, Bool-cases, inl, inr, ◌⊎◌, if◌then◌else◌, ◌||◌,
}
use taymex.Identity.Session.{SessionRecord, is_some}
use taymex.Identity.Contracts.{IdentityChallenge, IdentityChallengeKind}
use taymex.Identity.Persistence.Tables.{
  open_of, revoked_row, consumable, consumed_row, is_challenge, distinct,
}

-- What `find` finds is the first row, which passes the test, or is found behind it.
pub find-cases {ℓ} :
    {A : Type ℓ} (test : A → Bool) (r : A) (rows : List A) {row : A}
    → find test (r ∷ rows) ≡ some row
    → ((r ≡ row) × (test r ≡ true)) ⊎ ((test r ≡ false) × (find test rows ≡ some row))
find-cases {A = A} test r rows {row} h = go (test r) refl h
  where
    inside : {a b : A} → some a ≡ some b → a ≡ b
    inside e = cc

    go :
        (b : Bool)
        → test r ≡ b
        → (if b then some r else find test rows) ≡ some row
        → ((r ≡ row) × (test r ≡ true)) ⊎ ((test r ≡ false) × (find test rows ≡ some row))
    go true hit k = inl (inside k, hit)
    go false miss k = inr (miss, k)

abbrev after : Text → ℕ → SessionRecord → SessionRecord
after account_id now r = if open_of account_id r then revoked_row now r else r

closed :
    (account_id : Text) (now : ℕ) (r : SessionRecord)
    → (after account_id now r).account_id ≡ account_id
    → is_some (after account_id now r).revoked_at ≡ true
closed account_id now r h = elim (Bool-cases (text_eq r.account_id account_id)) [
  | inl same ↦ elim (Bool-cases (is_some r.revoked_at)) [
    | inl revoked ↦ rw (same, revoked) revoked
    | inr open_one ↦ rw (same, open_one) refl
  ]
  | inr differ ↦
      let owner : r.account_id ≡ account_id =
        subst
          (λ b.
            (if b && not (is_some r.revoked_at) then revoked_row now r else r).account_id
            ≡ account_id)
          differ h in
      let clash : true ≡ false = sym ((text_eq_iff r.account_id account_id).1 owner) ∙ differ in cc
]

-- No open session of the account is left.
pub none_open :
    (account_id : Text) (now : ℕ) (test : SessionRecord → Bool) (rows : List SessionRecord)
    {row : SessionRecord}
    → find test (update_where (open_of account_id) (revoked_row now) rows) ≡ some row
    → row.account_id ≡ account_id
    → is_some row.revoked_at ≡ true
unfolding update_where
none_open account_id now test [] h k = cc
none_open account_id now test (r ∷ rows) {row} h k =
    elim (find-cases test (after account_id now r)
      (update_where (open_of account_id) (revoked_row now) rows) h) [
        | inl (same, _) ↦
            subst (λ (x : SessionRecord). is_some x.revoked_at ≡ true) same
              (closed account_id now r (ap (λ (x : SessionRecord). x.account_id) same ∙ k))
        | inr (_, rest) ↦ none_open account_id now test rows rest k
      ]

any-found {ℓ} :
    {A : Type ℓ} (test other : A → Bool) (rows : List A) {row : A}
    → find test rows ≡ some row
    → any other rows ≡ false
    → other row ≡ false
any-found test other [] h k = cc
any-found test other (r ∷ rows) {row} h k = elim (find-cases test r rows h) [
  | inl (same, _) ↦ subst (λ x. other x ≡ false) same (ground arith)
  | inr (_, rest) ↦ any-found test other rows rest (ground arith)
]

abbrev pub challenge_ids : IdentityChallenge → Text
challenge_ids row = row.id

not_consumable :
    (id : Text) (version now : ℕ) (r : IdentityChallenge)
    → text_eq r.id id ≡ false
    → consumable id version now r ≡ false
not_consumable id version now r h = rw h refl

none_consumable :
    (id : Text) (version now : ℕ) (rows : List IdentityChallenge)
    → any (λ (r : IdentityChallenge). text_eq r.id id) rows ≡ false
    → any (consumable id version now) rows ≡ false
none_consumable id version now [] h = refl
none_consumable id version now (r ∷ rows) h =
    let first : text_eq r.id id ≡ false = ground arith in
    rw (first, none_consumable id version now rows (ground arith)) refl

left_holds : (b c : Bool) → (b || c) ≡ true → c ≡ false → b ≡ true
left_holds true c h k = refl
left_holds false c h k = let clash : true ≡ false = sym h ∙ k in cc

right_holds : (b c : Bool) → (b || c) ≡ true → b ≡ false → c ≡ true
right_holds true c h k = cc
right_holds false c h k = h

text_eq-flip : (s t : Text) → text_eq s t ≡ false → text_eq t s ≡ false
text_eq-flip s t h = elim (Bool-cases (text_eq t s)) [
  | inl same ↦
      let clash : true ≡ false = sym ((text_eq_iff s t).1 (sym ((text_eq_iff t s).0 same))) ∙ h in
      cc
  | inr differ ↦ differ
]

-- What the consumption of a challenge leaves of it.
unfoldable pub IsConsumed :
    IdentityChallengeKind → Text → Text → ℕ → ℕ → List IdentityChallenge → Type 0
IsConsumed kind hash id version now rows =
    (d : IdentityChallenge) × (find (is_challenge kind hash)
        (update_where (consumable id version now) (consumed_row now) rows)
      ≡ some d)
    × (is_some d.consumed_at ≡ true)

first-IsConsumed :
    (kind : IdentityChallengeKind) (hash : Text) (version now : ℕ) (r : IdentityChallenge)
    (rows : List IdentityChallenge)
    → any (λ (x : IdentityChallenge). text_eq x.id r.id) rows ≡ false
    → is_challenge kind hash r ≡ true
    → any (consumable r.id version now) (r ∷ rows) ≡ true
    → IsConsumed kind hash r.id version now (r ∷ rows)
unfolding update_where IsConsumed
first-IsConsumed kind hash version now r rows alone hit a =
    let first =
      left_holds (consumable r.id version now r) (any (consumable r.id version now) rows) a
        (none_consumable r.id version now rows alone) in
    (consumed_row now r, rw (first, hit) refl, refl)

-- The challenge that is found is the one that is consumed, if no two have the same id.
pub found-IsConsumed :
    (kind : IdentityChallengeKind) (hash : Text) (version now : ℕ) (rows : List IdentityChallenge)
    {c : IdentityChallenge}
    → distinct challenge_ids rows ≡ true
    → find (is_challenge kind hash) rows ≡ some c
    → any (consumable c.id version now) rows ≡ true
    → IsConsumed kind hash c.id version now rows
unfolding update_where IsConsumed
found-IsConsumed kind hash version now [] u f a = cc
found-IsConsumed kind hash version now (r ∷ rows) {c} u f a =
    let alone : any (λ (x : IdentityChallenge). text_eq x.id r.id) rows ≡ false = ground arith in
    let apart : distinct challenge_ids rows ≡ true = ground arith in
    elim (find-cases (is_challenge kind hash) r rows f) [
      | inl (same, hit) ↦
          subst (λ (x : IdentityChallenge). IsConsumed kind hash x.id version now (r ∷ rows)) same
            (first-IsConsumed kind hash version now r rows alone hit (
              subst (λ (x : IdentityChallenge). any (consumable x.id version now) (r ∷ rows) ≡ true)
                (sym same) a))
      | inr (miss, rest) ↦
          let other =
            text_eq-flip c.id r.id
              (any-found (is_challenge kind hash) (λ x. text_eq x.id r.id) rows rest alone) in
          let first = not_consumable c.id version now r other in
          let (d, e, k) = found-IsConsumed kind hash version now rows {c = c} apart rest (
            right_holds (consumable c.id version now r) (any (consumable c.id version now) rows) a
              first) in
          (d, rw (first, miss) e, k)
    ]
