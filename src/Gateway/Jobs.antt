-- ===== src/Gateway/Jobs.antt =====
-- crates/missive-gateway/src/jobs.rs: which background jobs are due, how they are claimed, and what
-- becomes of a job when an attempt at it ends.
--
-- The clock is an argument, in whole seconds. The state is the job table with the types and job ids
-- of the events appended so far.
pub mod Backoff
pub mod Claims
pub mod Attempts
mod Examples
use missive.Common.{
  or_else, ℕ, zero, suc, ◌+◌, ◌*◌, ◌/◌, ◌-◌, ◌^◌, min, String, Bool, true, false, not, ◌&&◌, ◌||◌,
  Option, none, some, List, [], ◌∷◌, ◌++◌, leb, ltb, if◌then◌else◌, length,
}
use missive.Common.Str.{Str, lit, str_eq}
use missive.Core.Json.{Value}
use missive.Core.Error.{Result, ok, err, ◌>>=◌, validation_error}
use missive.Store.Jobs.{
  GatewayJobState, JobResult, GatewayJobRecord, Jobs, get_gateway_job, upsert_gateway_job,
}

unfoldable pub is_background_job_kind : Str → Bool
is_background_job_kind kind =
    str_eq kind (lit "send")
    || (str_eq kind (lit "stream") || (str_eq kind (lit "wait") || str_eq kind (lit "reduce")))

pub record JobExecutionOutput : Type 0 where
  pub result_json : JobResult
  pub agent_alias : Option Str
  pub context_id : Option Str
  pub task_id : Option Str
  pub group_name : Option Str
  pub message : Str

pub data JobAttemptResult : Type 0 where
  succeeded : JobExecutionOutput → JobAttemptResult
  cancelled : JobExecutionOutput → JobAttemptResult
  failed_permanent : JobExecutionOutput → (error : Str) → JobAttemptResult
  retriable_error : (error : Str) → JobAttemptResult

-- The kind, which only events and spans show, is left out.
pub record JobAttempt : Type 0 where
  pub job_id : Str
  pub result : JobAttemptResult

pub record JobSnapshot : Type 0 where
  pub due : ℕ
  pub queued : ℕ
  pub running : ℕ
  pub retrying : ℕ
  pub terminal : ℕ

pub record JobManagerConfig : Type 0 where
  pub profile : Str
  pub job_concurrency : ℕ

pub record GatewayStore : Type 0 where
  pub jobs : Jobs
  pub events : List (String × Str)

unfoldable pub job_is_due : GatewayJobRecord → ℕ → Bool
job_is_due job now = elim job.state [
  | GatewayJobState.queued ↦ elim job.next_run_at [ none ↦ true | some at ↦ leb at now ]
  | GatewayJobState.retrying ↦ elim job.next_run_at [ none ↦ true | some at ↦ leb at now ]
  | GatewayJobState.running ↦ elim job.locked_until [ none ↦ false | some at ↦ leb at now ]
  | _ ↦ false
]

-- In milliseconds. The shift and the saturating product of the source stay far below 2 ^ 64.
unfoldable pub bounded_backoff : ℕ → ℕ
bounded_backoff attempt = min (min (1000 * 2 ^ min (attempt - 1) 5) 0xFFFFFFFFFFFFFFFF) 30000

-- `upsert_gateway_job` and `append_job_lifecycle_event`.
unfoldable pub save : GatewayStore → String → GatewayJobRecord → Result GatewayStore
unfolding upsert_gateway_job
save store event_type job = do
  jobs ← upsert_gateway_job store.jobs job
  ok (record { jobs = jobs; events = store.events ++ (event_type, job.gateway_job_id) ∷ [] })

unfoldable pub count_state : JobSnapshot → GatewayJobState → JobSnapshot
count_state s GatewayJobState.queued = record s { queued = s.queued + 1 }
count_state s GatewayJobState.running = record s { running = s.running + 1 }
count_state s GatewayJobState.retrying = record s { retrying = s.retrying + 1 }
count_state s _ = record s { terminal = s.terminal + 1 }

pub record Scan : Type 0 where
  pub store : GatewayStore
  pub candidates : Jobs
  pub snapshot : JobSnapshot

abbrev pub terminal_upsert :
    GatewayJobRecord → GatewayJobState → JobExecutionOutput → ℕ → GatewayJobRecord
terminal_upsert job state output now = record job {
  state = state;
  agent_alias = or_else output.agent_alias job.agent_alias;
  context_id = or_else output.context_id job.context_id;
  task_id = or_else output.task_id job.task_id;
  group_name = or_else output.group_name job.group_name;
  result_json = some output.result_json;
  next_run_at = none;
  locked_by = none;
  locked_until = none;
  completed_at = some now;
}

unfoldable pub finish_terminal_job :
    GatewayStore
    → GatewayJobRecord
    → GatewayJobState
    → JobExecutionOutput
    → String
    → ℕ
    → Result GatewayStore
unfolding save
finish_terminal_job store job state output event_type now =
    save store event_type (terminal_upsert job state output now)

-- `saturating_add(1)` on a u32.
abbrev pub next_retry_count : GatewayJobRecord → ℕ
next_retry_count job =
    if ltb job.retry_count 0xFFFFFFFF then job.retry_count + 1 else job.retry_count

-- The row of a job that is to be tried again, and the output of one that is not.
abbrev pub retry_upsert : GatewayJobRecord → Str → ℕ → ℕ → GatewayJobRecord
retry_upsert job error next next_run_at = record job {
  state = GatewayJobState.retrying;
  retry_count = next;
  next_run_at = some next_run_at;
  locked_by = none;
  locked_until = none;
  completed_at = none;
  result_json =
      some (JobResult.retry_result error next job.max_attempts (bounded_backoff next) next_run_at);
}

abbrev pub failure_output : GatewayJobRecord → Str → ℕ → JobExecutionOutput
failure_output job error next = record {
  result_json = JobResult.fail_result error (min next job.max_attempts) job.max_attempts;
  agent_alias = job.agent_alias;
  context_id = job.context_id;
  task_id = job.task_id;
  group_name = job.group_name;
  message = error;
}

abbrev pub is_cancelled : GatewayJobState → Bool
is_cancelled GatewayJobState.cancelled = true
is_cancelled _ = false

-- `in_range` stands for the seconds that chrono takes for a time.
module _ (in_range : ℕ → Bool) where
  -- Of a duration in seconds, whose fraction `as_secs` drops.
  unfoldable pub timestamp_after : ℕ → ℕ → Result ℕ
  timestamp_after now seconds =
      let later = min (now + (if ltb seconds 1 then 1 else seconds)) 0x7FFFFFFFFFFFFFFF in
      if in_range later
      then ok later
      else err
          (validation_error "invalid unix timestamp {seconds}: value is outside supported range")

  -- The lock is held for 60 seconds.
  unfoldable pub running_job_upsert :
      GatewayJobRecord → JobManagerConfig → ℕ → Result GatewayJobRecord
  unfolding timestamp_after
  running_job_upsert job config now = do
    until ← timestamp_after now 60
    ok (record job {
      state = GatewayJobState.running;
      locked_by = some (lit "gateway:jobs:" ++ config.profile);
      locked_until = some until;
      next_run_at = none;
      completed_at = none;
      result_json = none;
    })

  -- One turn of the loop of `scan_background_jobs_blocking`.
  unfoldable pub scan_job : JobManagerConfig → ℕ → Scan → GatewayJobRecord → Result Scan
  unfolding running_job_upsert save count_state
  scan_job config now s job =
      if not (is_background_job_kind job.kind)
      then ok s
      else (let snapshot = count_state s.snapshot job.state in
          let max_due = if ltb config.job_concurrency 1 then 1 else config.job_concurrency in
          if leb max_due (length s.candidates) || not (job_is_due job now)
          then ok (record s { snapshot = snapshot })
          else running_job_upsert job config now >>= λ claimed.
              save s.store "missive.gateway.job.started" claimed >>= λ store. ok (record {
                store = store;
                candidates = s.candidates ++ claimed ∷ [];
                snapshot = record snapshot { due = snapshot.due + 1 };
              }))

  unfoldable pub scan_jobs : JobManagerConfig → ℕ → Scan → Jobs → Result Scan
  unfolding scan_job
  scan_jobs config now s [] = ok s
  scan_jobs config now s (job ∷ jobs) =
      scan_job config now s job >>= λ next. scan_jobs config now next jobs

  unfoldable pub scan_background_jobs_blocking : GatewayStore → JobManagerConfig → ℕ → Result Scan
  unfolding scan_jobs
  scan_background_jobs_blocking store config now =
      scan_jobs config now
        (record {
          store = store;
          candidates = [];
          snapshot = record { due = 0; queued = 0; running = 0; retrying = 0; terminal = 0 };
        })
        store.jobs

  unfoldable pub finish_retry_or_fail :
      GatewayStore → GatewayJobRecord → Str → ℕ → Result GatewayStore
  unfolding timestamp_after save finish_terminal_job
  finish_retry_or_fail store job error now =
      let next = next_retry_count job in
      if ltb next job.max_attempts
      then (timestamp_after now (bounded_backoff next / 1000) >>= λ next_run_at.
          save store "missive.gateway.job.retrying" (retry_upsert job error next next_run_at))
      else finish_terminal_job store job GatewayJobState.failed (failure_output job error next)
          "missive.gateway.job.failed" now

  -- The `match` on the result, for a job that was not cancelled meanwhile.
  unfoldable pub finish_job :
      GatewayStore → GatewayJobRecord → JobAttemptResult → ℕ → Result GatewayStore
  unfolding finish_terminal_job finish_retry_or_fail
  finish_job store job (JobAttemptResult.succeeded output) now =
      finish_terminal_job store job GatewayJobState.succeeded output "missive.gateway.job.succeeded"
        now
  finish_job store job (JobAttemptResult.cancelled output) now =
      finish_terminal_job store job GatewayJobState.cancelled output "missive.gateway.job.cancelled"
        now
  finish_job store job (JobAttemptResult.failed_permanent output error) now =
      finish_terminal_job store job GatewayJobState.failed output "missive.gateway.job.failed" now
  finish_job store job (JobAttemptResult.retriable_error error) now =
      finish_retry_or_fail store job error now

  unfoldable pub finish_job_attempt_blocking : GatewayStore → JobAttempt → ℕ → Result GatewayStore
  unfolding finish_job get_gateway_job
  finish_job_attempt_blocking store attempt now = elim (get_gateway_job store.jobs attempt.job_id) [
    | none ↦ ok store
    | some job ↦
        if is_cancelled job.state
        then ok (record store {
          events = store.events ++ ("missive.gateway.job.cancelled", job.gateway_job_id) ∷ [];
        })
        else finish_job store job attempt.result now
  ]
