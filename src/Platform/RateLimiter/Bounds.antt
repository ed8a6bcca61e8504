-- ===== src/Platform/RateLimiter/Bounds.antt =====
-- How many requests the limiter lets through, and how many keys it holds.
use taymex.Prelude.{
  ℕ, ◌+◌, ◌-◌, ◌*◌, ◌≤◌, ◌<◌, min, ◌≡◌, ◌≢◌, refl, Text, some, Bool, true, false, List, [], ◌∷◌,
  length, filter, ltb, leb, length-filter-le, All, lookup, put, lookup-put, length-put-le,
  length-put_found, text_eq, Option-cases, Bool-cases, inl, inr, arith,
}
use taymex.Platform.RateLimiter.{
  Policy, Bucket, Buckets, bucket_for, consume_valid, counted, drop_oldest, evict_expired_or_oldest,
  with_room, is_live, retry_after,
}

module _ (max_keys : ℕ) (policy : Policy) where
  abbrev one : Bool → ℕ
  one true = 1
  one false = 0

  -- how many of the requests under one key, at these times, are let through
  unfoldable pub passed : Buckets → Text → List ℕ → ℕ
  passed buckets key [] = 0
  passed buckets key (t ∷ ts) =
      let (decision, after) = consume_valid max_keys policy buckets key t in
      one decision.allowed + passed after key ts

  consume_valid_live :
      (buckets : Buckets) (key : Text) (bucket : Bucket) (now : ℕ)
      → lookup buckets key ≡ some bucket
      → now < bucket.reset_at
      → consume_valid max_keys policy buckets key now ≡ (
        record {
          allowed = leb (bucket.count + 1) policy.limit;
          retry_after_seconds = retry_after bucket.reset_at now;
        },
        put buckets key (counted bucket),
      )
  unfolding consume_valid bucket_for
  consume_valid_live buckets key bucket now h k =
      let live : leb bucket.reset_at now ≡ false = ground arith in rw (h, live)

  -- Within one window of a key, whose count stands at some number, as many requests are let
  -- through as the limit leaves, and no more, whatever the order of their times.
  pub passed_in_window :
      (buckets : Buckets) (key : Text) (bucket : Bucket) (ts : List ℕ)
      → lookup buckets key ≡ some bucket
      → All (λ t. t < bucket.reset_at) ts
      → passed buckets key ts ≡ min (length ts) (policy.limit - bucket.count)
  unfolding passed
  passed_in_window buckets key bucket [] h a = omega arith
  passed_in_window buckets key bucket (t ∷ ts) h (p, a) =
      let rest =
        passed_in_window (put buckets key (counted bucket)) key (counted bucket) ts
          (lookup-put buckets key (counted bucket)) a in
      rw (consume_valid_live buckets key bucket t h p, rest) (ground arith)

  retry_after_enough : (reset_at now : ℕ) → reset_at ≤ now + 1000 * retry_after reset_at now
  retry_after_enough reset_at now = omega arith

  consume_valid_over :
      (buckets : Buckets) (key : Text) (bucket : Bucket) (now : ℕ)
      → lookup buckets key ≡ some bucket
      → bucket.reset_at ≤ now
      → 1 ≤ policy.limit
      → (consume_valid max_keys policy buckets key now).0.allowed ≡ true
  unfolding consume_valid bucket_for
  consume_valid_over buckets key bucket now h k l =
      let over : leb bucket.reset_at now ≡ true = ground arith in rw (h, over) (ground arith)

  -- the bucket that a request leaves, and what it tells the client
  consume_valid_bucket :
      (buckets : Buckets) (key : Text) (now : ℕ)
      → let (decision, after) = consume_valid max_keys policy buckets key now in
        (bucket : Bucket) × (lookup after key ≡ some bucket)
        × (decision.retry_after_seconds ≡ retry_after bucket.reset_at now)
  unfolding consume_valid
  consume_valid_bucket buckets key now = (_, lookup-put _ key _, refl)

  -- A client that waits for as long as the limiter tells is let through, if nobody else asks under
  -- its key meanwhile: at any time from then on, for any limit of at least one.
  pub retry_after_allows :
      (buckets : Buckets) (key : Text) (now later : ℕ)
      → 1 ≤ policy.limit
      → now + 1000 * (consume_valid max_keys policy buckets key now).0.retry_after_seconds ≤ later
      → (consume_valid max_keys policy
          (consume_valid max_keys policy buckets key now).1
          key
          later).0.allowed
        ≡ true
  retry_after_allows buckets key now later l w =
      let (bucket, found, told) = consume_valid_bucket buckets key now in
      consume_valid_over _ key bucket later found
        (omega (arith, retry_after_enough bucket.reset_at now, told)) l

  -- At most as many keys as the capacity, none of them empty.
  pub record IsBounded (buckets : Buckets) : Type 0 where
    pub size : length buckets ≤ max_keys
    pub named : All (λ (e : Text × Bucket). e.0 ≢ []) buckets

  All-filter :
      (now : ℕ) (m : Buckets)
      → All (λ (e : Text × Bucket). e.0 ≢ []) m
      → All (λ (e : Text × Bucket). e.0 ≢ []) (filter (is_live now) m)
  All-filter now [] h = tt
  All-filter now (e ∷ m) (p, h) = elim (Bool-cases (is_live now e)) [
    | inl live ↦ rw live (p, All-filter now m h)
    | inr over ↦ rw over (All-filter now m h)
  ]

  All-put :
      (m : Buckets) (key : Text) (bucket : Bucket)
      → key ≢ []
      → All (λ (e : Text × Bucket). e.0 ≢ []) m
      → All (λ (e : Text × Bucket). e.0 ≢ []) (put m key bucket)
  unfolding put
  All-put [] key bucket n h = (n, tt)
  All-put ((k, b) ∷ m) key bucket n (p, h) = elim (Bool-cases (text_eq k key)) [
    | inl same ↦ rw same (p, h)
    | inr differ ↦ rw differ (p, All-put m key bucket n h)
  ]

  drop_oldest-IsBounded :
      (m : Buckets)
      → IsBounded m
      → 1 ≤ max_keys
      → (length (drop_oldest m) + 1 ≤ max_keys)
        × All (λ (e : Text × Bucket). e.0 ≢ []) (drop_oldest m)
  drop_oldest-IsBounded [] b h = (omega arith, tt)
  drop_oldest-IsBounded (([], bucket) ∷ m) b h = absurd (b.named.0 refl)
  drop_oldest-IsBounded ((c ∷ key, bucket) ∷ m) b h = (omega (arith, b.size), b.named.1)

  -- room for one more key
  with_room-IsBounded :
      (buckets : Buckets) (now : ℕ)
      → IsBounded buckets
      → 1 ≤ max_keys
      → (length (with_room max_keys buckets now) + 1 ≤ max_keys)
        × All (λ (e : Text × Bucket). e.0 ≢ []) (with_room max_keys buckets now)
  unfolding with_room evict_expired_or_oldest
  with_room-IsBounded buckets now b h =
      let live = filter (is_live now) buckets in
      let fewer = length-filter-le (is_live now) buckets in
      let kept = All-filter now buckets b.named in
      elim (Bool-cases (leb max_keys (length buckets))) [
        | inl full ↦ elim (Bool-cases (ltb (length live) max_keys)) [
          | inl room ↦ rw (full, room) (ground arith, kept)
          | inr none_over ↦
              rw (full, none_over)
                (drop_oldest-IsBounded live
                  (record { size = omega (arith, fewer, b.size); named = kept }) h)
        ]
        | inr room ↦ rw room (ground arith, b.named)
      ]

  put_found-IsBounded :
      (buckets : Buckets) (key : Text) (bucket : Bucket) {old : Bucket}
      → key ≢ []
      → lookup buckets key ≡ some old
      → IsBounded buckets
      → IsBounded (put buckets key bucket)
  put_found-IsBounded buckets key bucket n found b = record {
    size = omega (arith, length-put_found buckets key bucket found, b.size);
    named = All-put buckets key bucket n b.named;
  }

  -- A request under a key that is not empty, whatever it is answered, keeps the number of keys
  -- within a capacity of at least one, and no key empty.
  pub consume_valid-IsBounded :
      (buckets : Buckets) (key : Text) (now : ℕ)
      → 1 ≤ max_keys
      → key ≢ []
      → IsBounded buckets
      → IsBounded (consume_valid max_keys policy buckets key now).1
  unfolding consume_valid bucket_for
  consume_valid-IsBounded buckets key now h n b = elim (Option-cases (lookup buckets key)) [
    | inl missing ↦
        let (size, named) = with_room-IsBounded buckets now b h in
        rw missing (record {
          size = omega (arith, length-put-le (with_room max_keys buckets now) key _, size);
          named = All-put (with_room max_keys buckets now) key _ n named;
        })
    | inr (bucket, found) ↦ elim (Bool-cases (leb bucket.reset_at now)) [
      | inl over ↦ rw (found, over) (put_found-IsBounded buckets key _ n found b)
      | inr live ↦ rw (found, live) (put_found-IsBounded buckets key _ n found b)
    ]
  ]
