-- ===== src/Gateway/Subscription/Examples.antt =====
-- Subscriptions of crates/missive-gateway/src/subscription.rs: one follows a task that works, one a task
-- that is gone.
use missive.Common.{ℕ, ◌≡◌, ◌↔◌, refl, Bool, true, false, none, some, [], ◌∷◌, leb, arith}
use missive.Common.Str.{Str, lit, str_eq, str_len}
use missive.Core.Json.{Value, Fields}
use missive.Store.Tasks.{TaskState, TaskSource}
use missive.Store.Jobs.{GatewayJobState, GatewayJobRecord, get_gateway_job}
use missive.Gateway.Jobs.Attempts.{IsStorable, HasRoom}
use missive.Gateway.Subscription.{
  SubscriptionStore, SubscriptionAttempt, SubscriptionAttemptResult,
  finish_subscription_attempt_blocking,
}
use missive.Gateway.Subscription.Redaction.{redact_json, is_clean, redact_json-clean_iff}
use missive.Gateway.Subscription.Cleanup.{HasKeys}
use missive.Gateway.Subscription.Finish.{Settles, finish_subscription_attempt_blocking-Settles}

-- The last second that chrono takes.
abbrev in_range : ℕ → Bool
in_range t = leb t 8210266876799

abbrev following : Str → Str → GatewayJobRecord
following id task_id = record {
  gateway_job_id = id;
  kind = lit "task_subscription";
  state = GatewayJobState.running;
  agent_alias = some (lit "coder");
  context_id = none;
  task_id = some task_id;
  group_name = none;
  request_json = Value.null;
  result_json = none;
  retry_count = 0;
  max_attempts = 4294967295;
  next_run_at = none;
  locked_by = none;
  locked_until = none;
  completed_at = none;
}

abbrev store : SubscriptionStore
store = record {
  tasks =
      record {
        task_id = lit "t1";
        agent_alias = lit "coder";
        context_id = none;
        state = TaskState.working;
        source = TaskSource.remote;
        updated_at = 7;
      }
      ∷ [];
  jobs = following (lit "j1") (lit "t1") ∷ following (lit "j2") (lit "t2") ∷ [];
  events = [];
}

abbrev attempt : SubscriptionAttempt
attempt = record {
  job_id = lit "j1";
  task_id = lit "t1";
  events = 2;
  terminal_seen = false;
  result = SubscriptionAttemptResult.done;
}

following-IsStorable : IsStorable (following (lit "j1") (lit "t1"))
unfolding IsStorable str_len
following-IsStorable = (refl, omega arith, omega arith, omega arith)

today-HasRoom : HasRoom in_range 1700000000
unfolding HasRoom
today-HasRoom = (omega arith, λ t h. ground arith)

finish_subscription_attempt_blocking-Settles_example :
    Settles store attempt 1700000000
      (finish_subscription_attempt_blocking in_range store attempt 1700000000)
unfolding get_gateway_job str_eq
finish_subscription_attempt_blocking-Settles_example =
    finish_subscription_attempt_blocking-Settles in_range store attempt 1700000000
      (following (lit "j1") (lit "t1")) refl following-IsStorable today-HasRoom

store-HasKeys : HasKeys store.jobs
unfolding HasKeys str_eq
store-HasKeys = (refl, refl, (refl, refl, tt))

abbrev headers : Value
headers = Value.object (
    Fields.field (lit "X")
      (Value.object (Fields.field (lit "Set-Cookie") (Value.text (lit "a=b")) Fields.end))
      Fields.end)

redact_json-clean_iff_example :
    (is_clean (redact_json headers) ≡ true)
    × ((is_clean headers ≡ true) ↔ (redact_json headers ≡ headers))
redact_json-clean_iff_example = redact_json-clean_iff headers
