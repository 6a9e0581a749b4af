-- ===== src/Gateway/Subscription/Cleanup.antt =====
-- crates/missive-gateway/src/subscription.rs: the scan starts by removing the jobs whose task is over.
use missive.Common.{
  and-split, ℕ, ◌+◌, ◌≡◌, refl, ap, ◌∙◌, Bool, true, not, ◌&&◌, List, [], ◌∷◌, ◌++◌, all, filter_by,
  arith, Bool-cases, inl, inr,
}
use missive.Common.Str.{str_eq, str_eq_refl}
use missive.Store.Tasks.{TaskRecord}
use missive.Store.Jobs.{GatewayJobRecord, Jobs, delete_gateway_job}
use missive.Gateway.Subscription.{
  SubscriptionStore, should_delete, is_subscription, cleanup_jobs, cleanup_stale_or_terminal_jobs,
}

abbrev pub is_stale : List TaskRecord → GatewayJobRecord → Bool
is_stale tasks job = is_subscription job && should_delete tasks job

-- The key of the table.
abbrev pub is_other : GatewayJobRecord → GatewayJobRecord → Bool
is_other job other = not (str_eq other.gateway_job_id job.gateway_job_id)

unfoldable pub HasKeys : Jobs → Type 0
HasKeys [] = Unit {0}
HasKeys (job ∷ jobs) =
    (all (is_other job) jobs ≡ true)
    × (all (λ other. is_other other job) jobs ≡ true)
    × HasKeys jobs

filter_by-all : {A : Type 0} (p : A → Bool) (xs : List A) → all p xs ≡ true → filter_by p xs ≡ xs
filter_by-all p [] h = refl
filter_by-all p (x ∷ xs) h = ground (arith, filter_by-all p xs)

-- Jobs with other keys stay in front.
cleanup_jobs-front :
    (first : GatewayJobRecord) (jobs rest : Jobs) (store : SubscriptionStore) (count : ℕ)
    → all (λ other. is_other other first) jobs ≡ true
    → ((cleanup_jobs jobs (record store { jobs = first ∷ rest }) count).0).jobs
      ≡ first ∷ ((cleanup_jobs jobs (record store { jobs = rest }) count).0).jobs
unfolding cleanup_jobs delete_gateway_job
cleanup_jobs-front first [] rest store count h = refl
cleanup_jobs-front first (job ∷ jobs) rest store count h =
    let (here, there) = and-split (is_other job first) _ h in
    elim (Bool-cases (is_stale store.tasks job)) [
      | inl stale ↦
          rw (stale, here)
            (cleanup_jobs-front first jobs (delete_gateway_job rest job.gateway_job_id)
              (record store {
                events =
                    store.events
                    ++ ("missive.gateway.subscription.cleaned", job.gateway_job_id) ∷ [];
              })
              (count + 1) there)
      | inr fresh ↦ rw fresh (cleanup_jobs-front first jobs rest store count there)
    ]

cleanup_jobs-fresh :
    (jobs : Jobs) (store : SubscriptionStore) (count : ℕ)
    → HasKeys jobs
    → ((cleanup_jobs jobs (record store { jobs = jobs }) count).0).jobs
      ≡ filter_by (λ job. not (is_stale store.tasks job)) jobs
unfolding cleanup_jobs delete_gateway_job HasKeys
cleanup_jobs-fresh [] store count h = refl
cleanup_jobs-fresh (job ∷ jobs) store count (others, away, rest) =
    elim (Bool-cases (is_stale store.tasks job)) [
      | inl stale ↦
          let gone = filter_by-all (is_other job) jobs others in
          rw (stale, str_eq_refl job.gateway_job_id, gone)
            (cleanup_jobs-fresh jobs
              (record store {
                events =
                    store.events
                    ++ ("missive.gateway.subscription.cleaned", job.gateway_job_id) ∷ [];
              })
              (count + 1) rest)
      | inr fresh ↦ rw fresh (
          cleanup_jobs-front job jobs jobs store count away
          ∙ ap (◌∷◌ job) (cleanup_jobs-fresh jobs store count rest))
    ]

-- When no two rows have one id, the cleanup keeps exactly the jobs that are no subscription or whose
-- task is there and can still be followed, as they were and in their order.
pub cleanup_stale_or_terminal_jobs-fresh :
    (store : SubscriptionStore) (count : ℕ)
    → HasKeys store.jobs
    → ((cleanup_stale_or_terminal_jobs store count).0).jobs
      ≡ filter_by (λ job. not (is_stale store.tasks job)) store.jobs
cleanup_stale_or_terminal_jobs-fresh store count h = cleanup_jobs-fresh store.jobs store count h
