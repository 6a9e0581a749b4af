-- ===== src/Gateway/Jobs/Attempts.antt =====
-- crates/missive-gateway/src/jobs.rs: what becomes of a job when an attempt at it ends.
use missive.Common.{
  ℕ, ◌+◌, ◌/◌, ◌≤◌, ◌<◌, ◌≡◌, ◌≢◌, refl, min, String, Bool, true, false, none, some, [], ◌∷◌, ◌++◌,
  ltb, if◌then◌else◌, arith, inl, inr, Bool-cases, is_empty, ◌∙◌, subst,
}
use missive.Common.Str.{Str, str_eq, str_eq_refl, str_eq→eq, str_len}
use missive.Core.Error.{ok}
use missive.Store.Jobs.{
  GatewayJobState, GatewayJobRecord, Jobs, get_gateway_job, put_job, upsert_gateway_job,
  validate_len, validate_gateway_attempts,
}
use missive.Gateway.Jobs.{
  GatewayStore, JobAttempt, JobAttemptResult, save, timestamp_after, bounded_backoff,
  finish_terminal_job, finish_retry_or_fail, finish_job, finish_job_attempt_blocking,
  next_retry_count, is_cancelled, retry_upsert, failure_output, terminal_upsert,
}
use missive.Gateway.Jobs.Backoff.{bounded_backoff-bounds}

pub get-put :
    (jobs : Jobs) (job : GatewayJobRecord)
    → get_gateway_job (put_job jobs job) job.gateway_job_id ≡ some job
unfolding get_gateway_job put_job
get-put [] job = let same = str_eq_refl job.gateway_job_id in ground arith
get-put (j ∷ jobs) job =
    let same = str_eq_refl job.gateway_job_id in let rest = get-put jobs job in ground arith

-- What the store asks of a job that it takes.
unfoldable pub IsStorable : GatewayJobRecord → Type 0
IsStorable job =
    (is_empty job.kind ≡ false)
    × (str_len job.kind ≤ 63)
    × (1 ≤ job.max_attempts)
    × (job.retry_count ≤ job.max_attempts)

save-get :
    (store : GatewayStore) (event_type : String) (job : GatewayJobRecord)
    → IsStorable job
    → (next : GatewayStore) × (save store event_type job ≡ ok next)
      × (get_gateway_job next.jobs job.gateway_job_id ≡ some job)
unfolding save upsert_gateway_job validate_len validate_gateway_attempts IsStorable
save-get store event_type job h =
    let put = get-put store.jobs job in
    (
      record {
        jobs = put_job store.jobs job;
        events = store.events ++ (event_type, job.gateway_job_id) ∷ [];
      },
      ground arith,
      put,
    )

-- A row that is free for the next worker, or closed.
unfoldable pub IsUnlocked : GatewayJobRecord → Type 0
IsUnlocked job = (job.locked_by ≡ none) × (job.locked_until ≡ none)

module _ (in_range : ℕ → Bool) (store : GatewayStore) (job : GatewayJobRecord) (error : Str)
    (now : ℕ) where
  retried :
      (next_run_at : ℕ)
      → IsStorable job
      → ltb (next_retry_count job) job.max_attempts ≡ true
      → timestamp_after in_range now (bounded_backoff (next_retry_count job) / 1000)
        ≡ ok next_run_at
      → (next : GatewayStore) × (finish_retry_or_fail in_range store job error now ≡ ok next)
        × (get_gateway_job next.jobs job.gateway_job_id
            ≡ some (retry_upsert job error (next_retry_count job) next_run_at))
  unfolding finish_retry_or_fail IsStorable
  retried next_run_at h more time =
      let (next, saved, put) =
        save-get store "missive.gateway.job.retrying"
          (retry_upsert job error (next_retry_count job) next_run_at) (ground arith) in
      (next, rw (more, time) saved, put)

  given_up :
      IsStorable job
      → ltb (next_retry_count job) job.max_attempts ≡ false
      → (next : GatewayStore) × (closed : GatewayJobRecord) × (finish_retry_or_fail in_range store
            job error now
          ≡ ok next)
        × (get_gateway_job next.jobs job.gateway_job_id ≡ some closed)
        × (closed.state ≡ GatewayJobState.failed)
        × (closed.retry_count ≡ job.retry_count)
        × (closed.completed_at ≡ some now)
        × IsUnlocked closed
        × IsStorable closed
  unfolding finish_retry_or_fail IsStorable finish_terminal_job IsUnlocked
  given_up h last =
      let closed =
        terminal_upsert job GatewayJobState.failed (failure_output job error (next_retry_count job))
          now in
      let (next, saved, put) = save-get store "missive.gateway.job.failed" closed (ground arith) in
      (next, closed, rw last saved, put, refl, refl, refl, (refl, refl), ground arith)

-- The clock and the range of times leave room for the next time of a job.
unfoldable pub HasRoom : (ℕ → Bool) → ℕ → Type 0
HasRoom in_range now =
    (now + 60 ≤ 0x7FFFFFFFFFFFFFFF) × ((t : ℕ) → t ≤ now + 60 → in_range t ≡ true)

pub timestamp_after-ok :
    (in_range : ℕ → Bool) (now seconds : ℕ)
    → HasRoom in_range now
    → seconds ≤ 60
    → timestamp_after in_range now seconds ≡ ok (now + (if ltb seconds 1 then 1 else seconds))
unfolding timestamp_after HasRoom
timestamp_after-ok in_range now seconds (small, room) h =
    let later = now + (if ltb seconds 1 then 1 else seconds) in
    let soon : later ≤ now + 60 = ground arith in
    let same : min later 0x7FFFFFFFFFFFFFFF ≡ later = omega arith in rw (same, room later soon) refl

-- A job with one failed attempt more: it waits for the next, or it has failed.
pub data HasMoved (job : GatewayJobRecord) (now : ℕ) (moved : GatewayJobRecord) : Type 0 where
  waits :
      (at : ℕ)
      → moved.state ≡ GatewayJobState.retrying
      → moved.retry_count ≡ job.retry_count + 1
      → moved.retry_count < job.max_attempts
      → moved.next_run_at ≡ some at
      → now < at
      → at ≤ now + 30
      → HasMoved job now moved
  has_failed :
      moved.state ≡ GatewayJobState.failed
      → moved.retry_count ≡ job.retry_count
      → job.max_attempts ≤ job.retry_count + 1
      → moved.completed_at ≡ some now
      → HasMoved job now moved

pub get-id :
    (jobs : Jobs) (id : Str) (job : GatewayJobRecord)
    → get_gateway_job jobs id ≡ some job
    → job.gateway_job_id ≡ id
unfolding get_gateway_job
get-id [] id job h = cc
get-id (j ∷ jobs) id job h = elim (Bool-cases (str_eq j.gateway_job_id id)) [
  | inl hit ↦ let same = str_eq→eq j.gateway_job_id id hit in ground arith
  | inr miss ↦ get-id jobs id job (ground arith)
]

finish-live :
    (in_range : ℕ → Bool) (store : GatewayStore) (job : GatewayJobRecord) (attempt : JobAttempt)
    (now : ℕ)
    → get_gateway_job store.jobs attempt.job_id ≡ some job
    → job.state ≢ GatewayJobState.cancelled
    → finish_job_attempt_blocking in_range store attempt now
      ≡ finish_job in_range store job attempt.result now
unfolding finish_job_attempt_blocking
finish-live in_range store job attempt now found live =
    let alive : is_cancelled job.state ≡ false = ground arith in ground arith

-- When an attempt at a job of the store ends in an error that may pass, the job was not cancelled
-- meanwhile, the store could take its row, its limit of attempts fits in 32 bits, and the clock has
-- a minute to go in the range of times, then the store accepts the outcome and the job is unlocked.
-- It waits between one and 30 seconds for the next attempt if another one is left, and has failed
-- if not.
pub finish_job_attempt_blocking-retriable :
    (in_range : ℕ → Bool) (store : GatewayStore) (job : GatewayJobRecord) (id error : Str) (now : ℕ)
    → get_gateway_job store.jobs id ≡ some job
    → job.state ≢ GatewayJobState.cancelled
    → IsStorable job
    → job.max_attempts ≤ 0xFFFFFFFF
    → HasRoom in_range now
    → (next : GatewayStore) × (moved : GatewayJobRecord) × (finish_job_attempt_blocking in_range
          store
          (record { job_id = id; result = JobAttemptResult.retriable_error error })
          now
        ≡ ok next)
      × (get_gateway_job next.jobs id ≡ some moved)
      × HasMoved job now moved
      × IsUnlocked moved
      × IsStorable moved
finish_job_attempt_blocking-retriable in_range store job id error now found live h small room =
    let same = get-id store.jobs id job found in
    let attempt : JobAttempt = record {
      job_id = id;
      result = JobAttemptResult.retriable_error error;
    } in
    let goes : finish_job_attempt_blocking in_range store attempt now
        ≡ finish_retry_or_fail in_range store job error now =
      unfold finish_job in finish-live in_range store job attempt now found live in
    elim (Bool-cases (ltb (next_retry_count job) job.max_attempts)) [
      | inl more ↦
          let pause = bounded_backoff (next_retry_count job) / 1000 in
          let (low, _, high) =
            bounded_backoff-bounds (next_retry_count job) (next_retry_count job) (omega arith) in
          let time = timestamp_after-ok in_range now pause room (omega arith) in
          let at : ℕ = now + (if ltb pause 1 then 1 else pause) in
          let moved = retry_upsert job error (next_retry_count job) at in
          let (next, saved, put) = retried in_range store job error now at h more time in
          (
            next,
            moved,
            goes ∙ saved,
            subst (λ i. get_gateway_job next.jobs i ≡ some moved) same put,
            waits at refl (ground arith) (ground arith) refl (ground arith) (ground arith),
            unfold IsUnlocked in (refl, refl),
            unfold IsStorable in ground arith,
          )
      | inr last ↦
          let (next, closed, saved, put, state, count, done, unlocked, stored) =
            given_up in_range store job error now h last in
          (
            next,
            closed,
            goes ∙ saved,
            subst (λ i. get_gateway_job next.jobs i ≡ some closed) same put,
            has_failed state count (ground arith) done,
            unlocked,
            stored,
          )
    ]
