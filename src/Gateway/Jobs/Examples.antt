-- ===== src/Gateway/Jobs/Examples.antt =====
-- Runs of crates/missive-gateway/src/jobs.rs on a store with one job to send a message.
use missive.Common.{ℕ, ◌≡◌, refl, ◌≤◌, Bool, none, some, [], ◌∷◌, length, leb, arith, In, count_by}
use missive.Common.Str.{lit, str_eq, str_len}
use missive.Core.Json.{Value}
use missive.Core.Error.{Result, ok, err, panic, hang}
use missive.Store.Jobs.{GatewayJobState, GatewayJobRecord, get_gateway_job}
use missive.Gateway.Jobs.{
  GatewayStore, JobManagerConfig, JobAttemptResult, Scan, is_background_job_kind,
  scan_background_jobs_blocking, finish_job_attempt_blocking, job_is_due,
}
use missive.Gateway.Jobs.Claims.{
  IsClaim, max_due, snapshot_total, scan_background_jobs_blocking-claims,
}
use missive.Gateway.Jobs.Attempts.{
  IsStorable, IsUnlocked, HasRoom, HasMoved, finish_job_attempt_blocking-retriable,
}

-- The last second that chrono takes.
abbrev in_range : ℕ → Bool
in_range t = leb t 8210266876799

abbrev sending : GatewayJobRecord
sending = record {
  gateway_job_id = lit "j1";
  kind = lit "send";
  state = GatewayJobState.queued;
  agent_alias = some (lit "coder");
  context_id = none;
  task_id = none;
  group_name = none;
  request_json = Value.null;
  result_json = none;
  retry_count = 0;
  max_attempts = 3;
  next_run_at = none;
  locked_by = none;
  locked_until = none;
  completed_at = none;
}

abbrev store : GatewayStore
store = record { jobs = sending ∷ []; events = [] }

abbrev config : JobManagerConfig
config = record { profile = lit "default"; job_concurrency = 2 }

sending-IsStorable : IsStorable sending
unfolding IsStorable str_len
sending-IsStorable = (refl, omega arith, omega arith, omega arith)

today-HasRoom : HasRoom in_range 1700000000
unfolding HasRoom
today-HasRoom = (omega arith, λ t h. ground arith)

finish_job_attempt_blocking-retriable_example :
    (next : GatewayStore) × (moved : GatewayJobRecord) × (finish_job_attempt_blocking in_range store
        (record { job_id = lit "j1"; result = JobAttemptResult.retriable_error (lit "timeout") })
        1700000000
      ≡ ok next)
    × (get_gateway_job next.jobs (lit "j1") ≡ some moved)
    × HasMoved sending 1700000000 moved
    × IsUnlocked moved
    × IsStorable moved
unfolding get_gateway_job str_eq
finish_job_attempt_blocking-retriable_example =
    finish_job_attempt_blocking-retriable in_range store sending (lit "j1") (lit "timeout")
      1700000000 refl (ground arith) sending-IsStorable (omega arith) today-HasRoom

abbrev nothing : Scan
nothing = record {
  store = store;
  candidates = [];
  snapshot = record { due = 0; queued = 0; running = 0; retrying = 0; terminal = 0 };
}

abbrev started : Result Scan → Scan
started (ok scan) = scan
started (err e) = nothing
started panic = nothing
started hang = nothing

abbrev scanned : Scan
scanned = started (scan_background_jobs_blocking in_range store config 1700000000)

scan_background_jobs_blocking-claims_example :
    (length scanned.candidates ≤ max_due config)
    × (scanned.snapshot.due ≡ length scanned.candidates)
    × (snapshot_total scanned.snapshot
        ≡ count_by (λ (job : GatewayJobRecord). is_background_job_kind job.kind) store.jobs)
    × ((d : GatewayJobRecord) → In d scanned.candidates → IsClaim config 1700000000 store.jobs d)
unfolding scan_background_jobs_blocking is_background_job_kind str_eq job_is_due str_len
scan_background_jobs_blocking-claims_example =
    scan_background_jobs_blocking-claims in_range config 1700000000 store scanned refl
