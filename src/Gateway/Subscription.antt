-- ===== src/Gateway/Subscription.antt =====
-- crates/missive-gateway/src/subscription.rs: the jobs that follow the tasks of agents, which are
-- removed when their task is over and tried again otherwise; and the redaction of what is logged.
--
-- The backoff, its limits and `timestamp_after` are those of Gateway.Jobs: the source repeats them.
pub mod Redaction
pub mod Cleanup
pub mod Finish
mod Examples
use missive.Common.{
  ℕ, suc, ◌+◌, ◌/◌, min, String, Bool, true, false, not, ◌&&◌, ◌||◌, Option, none, some, List, [],
  ◌∷◌, ◌++◌, filter_by, if◌then◌else◌,
}
use missive.Common.Str.{Str, lit, str_eq}
use missive.Core.Error.{Result, ok, err, ◌>>=◌}
use missive.Store.Tasks.{TaskState, TaskRecord}
use missive.Store.Jobs.{
  GatewayJobState, JobResult, GatewayJobRecord, Jobs, get_gateway_job, upsert_gateway_job,
  delete_gateway_job,
}
use missive.Gateway.Jobs.{bounded_backoff, timestamp_after, next_retry_count}

unfoldable pub is_monitorable_task_state : TaskState → Bool
is_monitorable_task_state TaskState.submitted = true
is_monitorable_task_state TaskState.working = true
is_monitorable_task_state TaskState.unknown = true
is_monitorable_task_state _ = false

unfoldable pub is_terminal_task_state : TaskState → Bool
is_terminal_task_state TaskState.completed = true
is_terminal_task_state TaskState.failed = true
is_terminal_task_state TaskState.cancelled = true
is_terminal_task_state _ = false

pub data SubscriptionAttemptResult : Type 0 where
  done : SubscriptionAttemptResult
  broken : (message : Str) → SubscriptionAttemptResult

pub record SubscriptionAttempt : Type 0 where
  pub job_id : Str
  pub task_id : Str
  pub events : ℕ
  pub terminal_seen : Bool
  pub result : SubscriptionAttemptResult

pub data AttemptOutcome : Type 0 where
  cleaned_up : AttemptOutcome
  retrying : (backoff_ms : ℕ) → AttemptOutcome

-- The tables that the functions read and write, with the types and job ids of the events appended.
pub record SubscriptionStore : Type 0 where
  pub tasks : List TaskRecord
  pub jobs : Jobs
  pub events : List (String × Str)

unfoldable pub get_task : List TaskRecord → Str → Option TaskRecord
get_task [] id = none
get_task (task ∷ tasks) id =
    let rest = get_task tasks id in if str_eq task.task_id id then some task else rest

-- `append_subscription_lifecycle_event` and `delete_gateway_job`.
abbrev pub clean_job : SubscriptionStore → GatewayJobRecord → SubscriptionStore
clean_job store job = record store {
  jobs = delete_gateway_job store.jobs job.gateway_job_id;
  events = store.events ++ ("missive.gateway.subscription.cleaned", job.gateway_job_id) ∷ [];
}

-- A test on the task, if there is one: `is_none_or`.
abbrev pub is_none_or : Option TaskRecord → (TaskState → Bool) → Bool
is_none_or none p = true
is_none_or (some task) p = p task.state

unfoldable pub should_delete : List TaskRecord → GatewayJobRecord → Bool
should_delete tasks job = elim job.task_id [
  | none ↦ true
  | some id ↦ is_none_or (get_task tasks id) (λ state. not (is_monitorable_task_state state))
]

abbrev pub is_subscription : GatewayJobRecord → Bool
is_subscription job = str_eq job.kind (lit "task_subscription")

-- The loop, with the count of the snapshot.
unfoldable pub cleanup_jobs : Jobs → SubscriptionStore → ℕ → SubscriptionStore × ℕ
cleanup_jobs [] store count = (store, count)
cleanup_jobs (job ∷ jobs) store count =
    let kept = cleanup_jobs jobs store count in
    let cleaned = cleanup_jobs jobs (clean_job store job) (count + 1) in
    if is_subscription job && should_delete store.tasks job then cleaned else kept

abbrev pub cleanup_stale_or_terminal_jobs : SubscriptionStore → ℕ → SubscriptionStore × ℕ
cleanup_stale_or_terminal_jobs store = cleanup_jobs store.jobs store

abbrev pub retry_reason_of : SubscriptionAttemptResult → Str
retry_reason_of SubscriptionAttemptResult.done = lit "stream_closed_non_terminal"
retry_reason_of (SubscriptionAttemptResult.broken message) = message

-- The row of a subscription that is to be tried again. The count stops at the limit.
abbrev pub resubscribe_upsert : GatewayJobRecord → SubscriptionAttempt → ℕ → GatewayJobRecord
resubscribe_upsert job attempt next_run_at = record job {
  state = GatewayJobState.retrying;
  retry_count = min (next_retry_count job) job.max_attempts;
  next_run_at = some next_run_at;
  locked_by = none;
  locked_until = none;
  completed_at = none;
  result_json = some (
      JobResult.resubscribe_result (retry_reason_of attempt.result) attempt.events
        attempt.terminal_seen (bounded_backoff (next_retry_count job)) next_run_at);
}

module _ (in_range : ℕ → Bool) where
  unfoldable pub retry_subscription :
      SubscriptionStore
      → GatewayJobRecord
      → SubscriptionAttempt
      → ℕ
      → Result (AttemptOutcome × SubscriptionStore)
  retry_subscription store job attempt now = do
    let backoff_ms = bounded_backoff (next_retry_count job)
    next_run_at ← timestamp_after in_range now (backoff_ms / 1000)
    jobs ← upsert_gateway_job store.jobs (resubscribe_upsert job attempt next_run_at)
    ok (
      AttemptOutcome.retrying backoff_ms,
      record store {
        jobs = jobs;
        events = store.events ++ ("missive.gateway.subscription.retrying", job.gateway_job_id) ∷ [];
      },
    )

  -- With the row that the store has for the job.
  unfoldable pub finish_subscription_job :
      SubscriptionStore
      → SubscriptionAttempt
      → ℕ
      → Option GatewayJobRecord
      → Result (AttemptOutcome × SubscriptionStore)
  finish_subscription_job store attempt now none = ok (AttemptOutcome.cleaned_up, store)
  finish_subscription_job store attempt now (some job) =
      if attempt.terminal_seen
        || is_none_or (get_task store.tasks attempt.task_id) is_terminal_task_state
      then ok (AttemptOutcome.cleaned_up, clean_job store job)
      else retry_subscription store job attempt now

  abbrev pub finish_subscription_attempt_blocking :
      SubscriptionStore → SubscriptionAttempt → ℕ → Result (AttemptOutcome × SubscriptionStore)
  finish_subscription_attempt_blocking store attempt now =
      finish_subscription_job store attempt now (get_gateway_job store.jobs attempt.job_id)
