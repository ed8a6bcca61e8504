-- ===== src/Identity/Throttle/Locking.antt =====
-- When the throttle locks a principal out, and when it does not.
use taymex.Prelude.{
  ℕ, ◌+◌, ◌≤◌, ◌<◌, ◌≡◌, refl, sym, ap, ◌∙◌, Text, none, some, Bool, true, false, List, [], ◌∷◌,
  ◌++◌, length, length-append, length-filter-le, All, All-append, text_eq, text_eq_refl, inl, inr,
  Option-cases, arith,
}
use mathlib.Core.List.{append_assoc, append-nil}
use taymex.Identity.Throttle.{
  Policy, Entry, Entries, or_new, in_window, recent, is_blocked, failed_entry, record_failure,
  record_success,
}

module _ (policy : Policy) where
  -- the failures of one principal, in their order
  unfoldable pub fail_at : Entries → Text → List ℕ → Entries
  fail_at entries key [] = entries
  fail_at entries key (t ∷ ts) = fail_at (record_failure policy entries key t) key ts

  -- Within one window that ends at `last`.
  abbrev pub IsBurst : ℕ → List ℕ → Type 0
  IsBurst last = All (λ t. (t ≤ last) × (last < t + policy.window_ms))

  filter-append :
      (time : ℕ) (xs ys : List ℕ)
      → recent policy time (xs ++ ys) ≡ recent policy time xs ++ recent policy time ys
  filter-append time [] ys = refl
  filter-append time (x ∷ xs) ys = ground (arith, filter-append time xs ys)

  recent_burst :
      (last time : ℕ) (ts : List ℕ) → time ≤ last → IsBurst last ts → recent policy time ts ≡ ts
  recent_burst last time [] h b = refl
  recent_burst last time (t ∷ ts) h (p, b) = ground (arith, recent_burst last time ts h b)

  -- The entry's failures end in those of the burst.
  abbrev EndsIn : Entry → List ℕ → Type 0
  EndsIn entry ts = (before : List ℕ) × (entry.failures ≡ before ++ ts)

  record_failure_self :
      (entries : Entries) (key : Text) (time : ℕ)
      → record_failure policy entries key time key
        ≡ some (failed_entry policy (or_new (entries key)) time)
  unfolding record_failure
  record_failure_self entries key time = rw text_eq_refl

  failed_entry-EndsIn :
      (entry : Entry) (last time : ℕ) (ts : List ℕ)
      → time ≤ last
      → IsBurst last ts
      → EndsIn entry ts
      → EndsIn (failed_entry policy entry time) (ts ++ time ∷ [])
  unfolding failed_entry
  failed_entry-EndsIn entry last time ts h b (before, e) = (
    recent policy time before,
    ap (λ l. recent policy time l ++ time ∷ []) e
        ∙ ap (λ l. l ++ time ∷ []) (filter-append time before ts)
        ∙ append_assoc (recent policy time before) (recent policy time ts) (time ∷ [])
        ∙ ap (λ l. recent policy time before ++ (l ++ time ∷ [])) (recent_burst last time ts h b),
  )

  fail_at-EndsIn :
      (entries : Entries) (key : Text) (last : ℕ) (done ts : List ℕ)
      → IsBurst last done
      → IsBurst last ts
      → EndsIn (or_new (entries key)) done
      → EndsIn (or_new (fail_at entries key ts key)) (done ++ ts)
  unfolding fail_at
  fail_at-EndsIn entries key last done [] b c e = rw (append-nil done) e
  fail_at-EndsIn entries key last done (t ∷ ts) b (p, c) e =
      let next : EndsIn (or_new (record_failure policy entries key t key)) (done ++ t ∷ []) =
        rw (record_failure_self entries key t)
          (failed_entry-EndsIn (or_new (entries key)) last t done p.0 b e) in
      rw (← append_assoc done (t ∷ []) ts) (
        fail_at-EndsIn (record_failure policy entries key t) key last (done ++ t ∷ []) ts
          (All-append _ done (t ∷ []) b (p, tt)) c next)

  fail_at-append :
      (entries : Entries) (key : Text) (ts us : List ℕ)
      → fail_at entries key (ts ++ us) ≡ fail_at (fail_at entries key ts) key us
  unfolding fail_at
  fail_at-append entries key [] us = refl
  fail_at-append entries key (t ∷ ts) us =
      fail_at-append (record_failure policy entries key t) key ts us

  locked_entry :
      (entry : Entry) (last : ℕ) (ts : List ℕ)
      → EndsIn (failed_entry policy entry last) ts
      → policy.max_failures ≤ length ts
      → (failed_entry policy entry last).blocked_until ≡ some (last + policy.lock_ms)
  unfolding failed_entry
  locked_entry entry last ts (before, e) h =
      let n = length-append before ts in ground (arith, n, ap length e)

  is_blocked_of_entry :
      (entries : Entries) (key : Text) (entry : Entry) (now until : ℕ)
      → entries key ≡ some entry
      → entry.blocked_until ≡ some until
      → now < until
      → is_blocked policy entries key now ≡ (true, entries)
  unfolding is_blocked
  is_blocked_of_entry entries key entry now until h k l = rw (h, k) (ground arith)

  -- A burst of failures that reaches the limit locks the principal until the time to lock has
  -- passed since the last one, whatever was recorded before.
  pub fail_at-is_blocked :
      (entries : Entries) (key : Text) (ts : List ℕ) (last now : ℕ)
      → IsBurst last (ts ++ last ∷ [])
      → policy.max_failures ≤ length (ts ++ last ∷ [])
      → now < last + policy.lock_ms
      → (is_blocked policy (fail_at entries key (ts ++ last ∷ [])) key now).0 ≡ true
  fail_at-is_blocked entries key ts last now b h k =
      let before = fail_at entries key ts in
      let entry = failed_entry policy (or_new (before key)) last in
      let split : fail_at entries key (ts ++ last ∷ []) ≡ record_failure policy before key last =
        fail_at-append entries key ts (last ∷ []) ∙ unfold fail_at in refl in
      let found : fail_at entries key (ts ++ last ∷ []) key ≡ some entry =
        ap (λ (es : Entries). es key) split ∙ record_failure_self before key last in
      let ends : EndsIn (or_new (fail_at entries key (ts ++ last ∷ []) key)) (ts ++ last ∷ []) =
        fail_at-EndsIn entries key last [] (ts ++ last ∷ []) tt b
          ((or_new (entries key)).failures, sym (append-nil _)) in
      let ends' : EndsIn entry (ts ++ last ∷ []) = rw found at ends in
      ap (λ (r : Bool × Entries). r.0)
        (is_blocked_of_entry _ key entry now (last + policy.lock_ms) found
          (locked_entry (or_new (before key)) last (ts ++ last ∷ []) ends' h) k)

  -- Few failures: the entry has no lock.
  abbrev IsOpen : Entry → ℕ → Type 0
  IsOpen entry n = (entry.blocked_until ≡ none) × (length entry.failures ≤ n)

  failed_entry-IsOpen :
      (entry : Entry) (time n : ℕ)
      → IsOpen entry n
      → n + 1 < policy.max_failures
      → IsOpen (failed_entry policy entry time) (n + 1)
  unfolding failed_entry
  failed_entry-IsOpen entry time n (b, l) h =
      let f = length-filter-le (in_window policy time) entry.failures in
      let a = length-append (recent policy time entry.failures) (time ∷ []) in ground (arith, f, a)

  fail_at-IsOpen :
      (entries : Entries) (key : Text) (ts : List ℕ) (n : ℕ)
      → IsOpen (or_new (entries key)) n
      → n + length ts < policy.max_failures
      → IsOpen (or_new (fail_at entries key ts key)) (n + length ts)
  unfolding fail_at
  fail_at-IsOpen entries key [] n o h = (o.0, omega (arith, o.1))
  fail_at-IsOpen entries key (t ∷ ts) n o h =
      let next : IsOpen (or_new (record_failure policy entries key t key)) (n + 1) =
        rw (record_failure_self entries key t)
          (failed_entry-IsOpen (or_new (entries key)) t n o (omega arith)) in
      let r =
        fail_at-IsOpen (record_failure policy entries key t) key ts (n + 1) next (omega arith) in
      (r.0, omega (arith, r.1))

  is_blocked_of_open :
      (entries : Entries) (key : Text) (now : ℕ)
      → (or_new (entries key)).blocked_until ≡ none
      → (is_blocked policy entries key now).0 ≡ false
  unfolding is_blocked
  is_blocked_of_open entries key now h = elim (Option-cases (entries key)) [
    | inl missing ↦ rw missing
    | inr (entry, found) ↦
        let open_now : entry.blocked_until ≡ none = rw found at h in rw (found, open_now)
  ]

  -- A principal that starts clean, or signed in last, and fails less often than the limit is
  -- never blocked, at any time.
  pub fail_at-not_blocked :
      (entries : Entries) (key : Text) (ts : List ℕ) (now : ℕ)
      → length ts < policy.max_failures
      → (is_blocked policy (fail_at (record_success entries key) key ts) key now).0 ≡ false
  fail_at-not_blocked entries key ts now h =
      let clean : IsOpen (or_new (record_success entries key key)) 0 =
        unfold record_success in rw text_eq_refl (refl, omega arith) in
      is_blocked_of_open _ key now
        (fail_at-IsOpen (record_success entries key) key ts 0 clean (omega arith)).0

  -- What happens to one principal does not show for another.
  pub throttle_isolated :
      (entries : Entries) (key other : Text) (time : ℕ)
      → text_eq key other ≡ false
      → (record_failure policy entries key time other ≡ entries other)
        × (record_success entries key other ≡ entries other)
        × ((is_blocked policy entries key time).1 other ≡ entries other)
  unfolding record_failure record_success is_blocked
  throttle_isolated entries key other time h = (
    rw h,
    rw h,
    elim (Option-cases (entries key)) [
      | inl missing ↦ rw missing
      | inr (entry, found) ↦ rw found (ground arith)
    ],
  )
