-- ===== src/Gateway/Subscription/Finish.antt =====
-- crates/missive-gateway/src/subscription.rs: what becomes of a subscription when its stream ends.
use missive.Common.{
  ℕ, ◌+◌, ◌/◌, ◌≤◌, ◌≡◌, refl, sym, ap, ◌∙◌, subst, ◌⊎◌, inl, inr, Bool, true, false, ◌||◌, none,
  some, [], ◌∷◌, ◌++◌, arith, Bool-cases,
}
use missive.Common.Str.{Str}
use missive.Core.Error.{Result, ok}
use missive.Store.Jobs.{
  GatewayJobState, GatewayJobRecord, Jobs, get_gateway_job, put_job, upsert_gateway_job,
  delete_gateway_job, validate_len, validate_gateway_attempts,
}
use missive.Gateway.Jobs.{bounded_backoff, timestamp_after, next_retry_count}
use missive.Gateway.Jobs.Backoff.{bounded_backoff-bounds}
use missive.Gateway.Jobs.Attempts.{
  IsStorable, IsUnlocked, HasRoom, timestamp_after-ok, get-put, get-id,
}
use missive.Gateway.Subscription.{
  SubscriptionStore, SubscriptionAttempt, AttemptOutcome, clean_job, get_task, is_none_or,
  is_terminal_task_state, resubscribe_upsert, retry_subscription,
  finish_subscription_attempt_blocking, finish_subscription_job,
}

get-delete : (jobs : Jobs) (id : Str) → get_gateway_job (delete_gateway_job jobs id) id ≡ none
unfolding get_gateway_job delete_gateway_job
get-delete [] id = refl
get-delete (job ∷ jobs) id = ground (arith, get-delete jobs id)

-- Whether the task of the attempt is over.
abbrev pub is_finished : SubscriptionStore → SubscriptionAttempt → Bool
is_finished store attempt =
    attempt.terminal_seen
    || is_none_or (get_task store.tasks attempt.task_id) is_terminal_task_state

-- The row waits, unlocked, and the pause is between one and 30 seconds.
unfoldable pub WaitsAgain : ℕ → ℕ → GatewayJobRecord → Type 0
WaitsAgain now backoff_ms job =
    (1000 ≤ backoff_ms)
    × (backoff_ms ≤ 30000)
    × (job.state ≡ GatewayJobState.retrying)
    × (job.next_run_at ≡ some (now + backoff_ms / 1000))
    × IsUnlocked job
    × IsStorable job

unfoldable pub Settles :
    SubscriptionStore
    → SubscriptionAttempt
    → ℕ
    → Result (AttemptOutcome × SubscriptionStore)
    → Type 0
Settles store attempt now finished =
    (next : SubscriptionStore) × (((is_finished store attempt ≡ true)
        × (finished ≡ ok (AttemptOutcome.cleaned_up, next))
        × (get_gateway_job next.jobs attempt.job_id ≡ none))
      ⊎ ((is_finished store attempt ≡ false)
          × (backoff_ms : ℕ) × (job : GatewayJobRecord) × (finished
              ≡ ok (AttemptOutcome.retrying backoff_ms, next))
          × (get_gateway_job next.jobs attempt.job_id ≡ some job)
          × WaitsAgain now backoff_ms job))

upsert-storable :
    (jobs : Jobs) (job : GatewayJobRecord)
    → IsStorable job
    → upsert_gateway_job jobs job ≡ ok (put_job jobs job)
unfolding upsert_gateway_job validate_len validate_gateway_attempts IsStorable
upsert-storable jobs job h = ground arith

retry_subscription-waits :
    (in_range : ℕ → Bool) (store : SubscriptionStore) (attempt : SubscriptionAttempt) (now : ℕ)
    (job : GatewayJobRecord)
    → IsStorable job
    → HasRoom in_range now
    → (next : SubscriptionStore) × (backoff_ms : ℕ) × (row : GatewayJobRecord) × (retry_subscription
          in_range store job attempt now
        ≡ ok (AttemptOutcome.retrying backoff_ms, next))
      × (get_gateway_job next.jobs job.gateway_job_id ≡ some row)
      × WaitsAgain now backoff_ms row
unfolding retry_subscription WaitsAgain
retry_subscription-waits in_range store attempt now job h room =
    let ms = bounded_backoff (next_retry_count job) in
    let (low, _, high) =
      bounded_backoff-bounds (next_retry_count job) (next_retry_count job) (omega arith) in
    let at = now + ms / 1000 in
    let time : timestamp_after in_range now (ms / 1000) ≡ ok at =
      timestamp_after-ok in_range now (ms / 1000) room (omega arith) ∙ ground arith in
    let row = resubscribe_upsert job attempt at in
    let stored : IsStorable row = unfold IsStorable in ground arith in
    let saved = upsert-storable store.jobs row stored in
    (
      record store {
        jobs = put_job store.jobs row;
        events = store.events ++ ("missive.gateway.subscription.retrying", job.gateway_job_id) ∷ [];
      },
      ms,
      row,
      rw time (rw saved refl),
      get-put store.jobs row,
      (low, high, refl, refl, unfold IsUnlocked in (refl, refl), stored),
    )

-- The attempt at a job of the store, whose row the store could take, is settled as long as the clock
-- has a minute to go in the range of times. If the stream or the store shows that the task is over,
-- the job is gone. Otherwise it waits, unlocked, for its next turn in one to 30 seconds, however often
-- it was tried before.
pub finish_subscription_attempt_blocking-Settles :
    (in_range : ℕ → Bool) (store : SubscriptionStore) (attempt : SubscriptionAttempt) (now : ℕ)
    (job : GatewayJobRecord)
    → get_gateway_job store.jobs attempt.job_id ≡ some job
    → IsStorable job
    → HasRoom in_range now
    → Settles store attempt now (finish_subscription_attempt_blocking in_range store attempt now)
unfolding finish_subscription_job Settles
finish_subscription_attempt_blocking-Settles in_range store attempt now job found h room =
    let same = get-id store.jobs attempt.job_id job found in
    let goes = ap (finish_subscription_job in_range store attempt now) found in
    elim (Bool-cases (is_finished store attempt)) [
      | inl over ↦ (
        clean_job store job,
        inl (
          over,
          goes ∙ rw over refl,
          subst (λ id. get_gateway_job (delete_gateway_job store.jobs id) attempt.job_id ≡ none)
              (sym same) (get-delete store.jobs attempt.job_id),
        ),
      )
      | inr live ↦
          let (next, ms, row, made, put, waits) =
            retry_subscription-waits in_range store attempt now job h room in
          (
            next,
            inr (
              live,
              ms,
              row,
              goes ∙ rw live made,
              subst (λ id. get_gateway_job next.jobs id ≡ some row) same put,
              waits,
            ),
          )
    ]
