-- ===== src/Notifications/Processor/Pass.antt =====
-- What a pass over the outbox does with the jobs that it claims, and that no job stops it.
use mathlib.Core.Path.{subst}
use native.Mathlib.Nat.{min-le_left}
use taymex.Prelude.{
  ◌≡◌, refl, sym, ap, ◌∙◌, ℕ, ◌+◌, ◌*◌, ◌^◌, min, ◌≤◌, arith, Text, true, List, [], ◌∷◌, length,
  leb,
}
use taymex.Foundation.Errors.{Error, Result, ok, err, at}
use taymex.Effects.{caught}
use taymex.Effects.Runs.{>>=-ok, lift-ok}
use taymex.Identity.Authentication.{date_of}
use taymex.Identity.Session.{max_time}
use taymex.Notifications.Contracts.{NotificationOutboxRecord, FailInput, FailResult}
use taymex.Notifications.Outbox.{require_uuid, error_code_of, retry_delay, is_delivery_code}
use taymex.Notifications.Outbox.Bounds.{error_code_of-accepted}
use taymex.Notifications.Processor.{
  Processor, Summary, Counts, no_counts, after_failure, failure, try_job, handle, process_job,
  process_jobs, process_once, claim_input, summary_of,
}
use taymex.Notifications.Processor.Counters.{FailedAs, on_state-ok}
use taymex.Notifications.Processor.Jobs.{IsDone, thrown, fail-ok, try_job-ok, try_job-IsUncounted}

date_of-at : (time : ℕ) → time ≤ max_time → date_of time ≡ at time
date_of-at time h = let valid : leb time max_time ≡ true = ground arith in rw valid refl

module _ {S : Type 0} (processor : Processor S) where
  -- Every job in order, from the first state and counts to the last.
  pub data IsPass (lease_token : Text)
      : List NotificationOutboxRecord → S → Counts → S → Counts → Type 0 where
    over : {s : S} {c : Counts} → IsPass lease_token [] s c s c
    next :
        {job : NotificationOutboxRecord} {jobs : List NotificationOutboxRecord} {s t u : S}
        {c d e : Counts}
        → IsDone processor job lease_token s c t d
        → IsPass lease_token jobs t d u e
        → IsPass lease_token (job ∷ jobs) s c u e

  process_job-ok :
      (job : NotificationOutboxRecord) (lease_token : Text) (s t : S) (c d : Counts)
      → process_job processor job lease_token (s, c) ≡ (ok tt, (t, d))
      → IsDone processor job lease_token s c t d
  process_job-ok job lease_token s t c d h = go (try_job processor job lease_token (s, c)) refl h
    where
      failed :
          (e : Error) (u : S) (c' : Counts)
          → c' ≡ c
          → try_job processor job lease_token (s, c) ≡ (err e, (u, c'))
          → handle processor job lease_token e (u, c') ≡ (ok tt, (t, d))
          → IsDone processor job lease_token s c t d
      failed e u c' same tried k =
          let (time, v, ticked, l) = on_state-ok processor.now _ u c' k in
          let (r, told, counted) =
            fail-ok processor job lease_token (error_code_of e) time v t c' d l in
          thrown e u time v r (tried ∙ ap (λ x. (err e, (u, x))) same) ticked told
            (subst (λ x. FailedAs r x d) same counted)

      go :
          (r : Result (Unit {0}) × (S × Counts))
          → try_job processor job lease_token (s, c) ≡ r
          → caught (handle processor job lease_token) r ≡ (ok tt, (t, d))
          → IsDone processor job lease_token s c t d
      go (ok tt, (u, c')) tried k = try_job-ok processor job lease_token s t c d (tried ∙ k)
      go (err e, (u, c')) tried k =
          failed e u c'
            (sym (ap (λ r. r.1.1) tried)
              ∙ (try_job-IsUncounted processor job lease_token).kept s c e (ap (λ r. r.0) tried))
            tried k

  process_jobs-ok :
      (jobs : List NotificationOutboxRecord) (lease_token : Text) (s t : S) (c d : Counts)
      → process_jobs processor jobs lease_token (s, c) ≡ (ok tt, (t, d))
      → IsPass lease_token jobs s c t d
  unfolding process_jobs
  process_jobs-ok [] lease_token s t c d h =
      subst (λ (p : S × Counts). IsPass lease_token [] s c p.0 p.1) (ap (λ r. r.1) h) over
  process_jobs-ok (job ∷ jobs) lease_token s t c d h =
      let (done, (u, e), k, l) = >>=-ok (process_job processor job lease_token) _ (s, c) h in
      next (process_job-ok job lease_token s u c e k) (process_jobs-ok jobs lease_token u t e d l)

  -- A pass over the outbox that ends has gone through the jobs that it claimed, each once and in
  -- order, and its summary says how many it claimed and counts, for each job, what the store answered
  -- to the last report on it: delivered where it was sent and the store took that, dead or put off as
  -- the store took a failure or a burial, and nothing where the lease was lost.
  pub process_once-IsPass :
      (s t : S) (summary : Summary)
      → process_once processor s ≡ (ok summary, t)
      → (time : ℕ) × (lease_token : Text) × (jobs : List NotificationOutboxRecord) × (u v : S)
        × (processor.store.claim_batch (claim_input processor time lease_token) u ≡ (ok jobs, v))
        × (summary.claimed ≡ length jobs)
        × IsPass lease_token jobs v no_counts t summary.counts
  unfolding process_once
  process_once-IsPass s t summary h =
      let (time, s1, _, r1) = >>=-ok processor.now _ s h in
      let (given, s2, _, r2) = >>=-ok processor.next_lease_token _ s1 r1 in
      let (lease_token, _, r3) = lift-ok (require_uuid given) _ s2 r2 in
      let (jobs, s3, claimed, r4) =
        >>=-ok (processor.store.claim_batch (claim_input processor time lease_token)) _ s2 r3 in
      let (many, passed) =
        summed jobs lease_token s3 (process_jobs processor jobs lease_token (s3, no_counts)) refl
          r4 in
      (time, lease_token, jobs, s2, s3, claimed, many, passed)
    where
      summed :
          (jobs : List NotificationOutboxRecord) (lease_token : Text) (v : S)
          (r : Result (Unit {0}) × (S × Counts))
          → process_jobs processor jobs lease_token (v, no_counts) ≡ r
          → summary_of processor (length jobs) r ≡ (ok summary, t)
          → (summary.claimed ≡ length jobs) × IsPass lease_token jobs v no_counts t summary.counts
      summed jobs lease_token v (err e, (w, d)) ran k = cc
      summed jobs lease_token v (ok tt, (w, d)) ran k =
          let same : record { claimed = length jobs; counts = d } ≡ summary =
            value (ap (λ x. x.0) k) in
          (
            sym (ap (λ (x : Summary). x.claimed) same),
            process_jobs-ok jobs lease_token v t no_counts summary.counts (
                ran
                ∙ ap (λ x. (ok tt, (x, d))) (ap (λ x. x.1) k)
                ∙ ap (λ (x : Summary). (ok tt, (t, x.counts))) same),
          )
        where
          value : {a b : Summary} → ok a ≡ ok b → a ≡ b
          value x = cc

  -- What the handler of a failed job needs: a clock that ticks, early enough for a date after the
  -- longest delay, and a store that answers a failure with a valid date and a code that the
  -- constraint on codes takes.
  pub record IsAnswering : Type 0 where
    pub ticks :
        (u : S)
        → (time : ℕ) × ((processor.now u).0 ≡ ok time)
          × (time + processor.limits.max_retry_delay_ms ≤ max_time)
    pub answers :
        (input : FailInput) (time : ℕ) (u : S)
        → is_delivery_code input.error_code ≡ true
        → input.next_available_at ≡ at time
        → (r : FailResult) × ((processor.store.mark_failed input u).0 ≡ ok r)

  retry_date :
      (job : NotificationOutboxRecord) (lease_token code : Text) (time : ℕ)
      → time + processor.limits.max_retry_delay_ms ≤ max_time
      → (failure processor job lease_token code time).next_available_at
        ≡ at (time + retry_delay processor.limits job.attempt_count)
  unfolding retry_delay
  retry_date job lease_token code time early =
      let most =
        min-le_left processor.limits.max_retry_delay_ms
          (processor.limits.base_retry_delay_ms * 2 ^ min job.attempt_count 16) in
      date_of-at
        (time
          + min processor.limits.max_retry_delay_ms
              (processor.limits.base_retry_delay_ms * 2 ^ min job.attempt_count 16))
        (omega arith)

  handle-returns :
      IsAnswering
      → (job : NotificationOutboxRecord) (lease_token : Text) (e : Error) (p : S × Counts)
      → (q : S × Counts) × (handle processor job lease_token e p ≡ (ok tt, q))
  handle-returns laws job lease_token e p =
      let (time, ticked, early) = laws.ticks p.0 in
      let input = failure processor job lease_token (error_code_of e) time in
      let (r, told) =
        laws.answers input (time + retry_delay processor.limits job.attempt_count)
          (processor.now p.0).1 (error_code_of-accepted e)
          (retry_date job lease_token (error_code_of e) time early) in
      (
        ((processor.store.mark_failed input (processor.now p.0).1).1, after_failure r p.1),
        rw (ticked, told) refl,
      )

  process_job-returns :
      IsAnswering
      → (job : NotificationOutboxRecord) (lease_token : Text) (p : S × Counts)
      → (q : S × Counts) × (process_job processor job lease_token p ≡ (ok tt, q))
  process_job-returns laws job lease_token p = go (try_job processor job lease_token p)
    where
      go :
          (r : Result (Unit {0}) × (S × Counts))
          → (q : S × Counts) × (caught (handle processor job lease_token) r ≡ (ok tt, q))
      go (ok tt, q) = (q, refl)
      go (err e, q) = handle-returns laws job lease_token e q

  process_jobs-run :
      IsAnswering
      → (jobs : List NotificationOutboxRecord) (lease_token : Text) (p : S × Counts)
      → (q : S × Counts) × (process_jobs processor jobs lease_token p ≡ (ok tt, q))
  unfolding process_jobs
  process_jobs-run laws [] lease_token p = (p, refl)
  process_jobs-run laws (job ∷ jobs) lease_token p =
      let (q, e) = process_job-returns laws job lease_token p in
      let (r, f) = process_jobs-run laws jobs lease_token q in (r, rw e f)

  -- No job stops the pass: where the clock ticks and the store answers the failures that the handler
  -- reports, the jobs that were claimed are all gone through, each once and in order, whatever the
  -- codec, the resolver, the provider and the rest of the store throw.
  pub process_jobs-returns :
      IsAnswering
      → (jobs : List NotificationOutboxRecord) (lease_token : Text) (s : S) (c : Counts)
      → (t : S) × (d : Counts) × (process_jobs processor jobs lease_token (s, c) ≡ (ok tt, (t, d)))
        × IsPass lease_token jobs s c t d
  process_jobs-returns laws jobs lease_token s c =
      let ((t, d), ran) = process_jobs-run laws jobs lease_token (s, c) in
      (t, d, ran, process_jobs-ok jobs lease_token s t c d ran)
