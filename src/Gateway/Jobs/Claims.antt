-- ===== src/Gateway/Jobs/Claims.antt =====
-- crates/missive-gateway/src/jobs.rs: what a scan claims.
use missive.Common.{
  some, min, ℕ, zero, suc, ◌+◌, ◌≤◌, ◌<◌, ◌≡◌, refl, Bool, true, false, not, ◌||◌, [], ◌∷◌, ◌++◌,
  leb, ltb, if◌then◌else◌, length, length-append, arith, Bool-cases, In, at, count_by, In-tail, ap,
  subst, sym, ◌⊎◌, inl, inr,
}
use missive.Core.Error.{ok}
use missive.Core.Error.Laws.{>>=-eq-ok, ok-injective}
use missive.Store.Jobs.{GatewayJobState, GatewayJobRecord, Jobs}
use missive.Gateway.Jobs.{
  timestamp_after, GatewayStore, JobManagerConfig, JobSnapshot, Scan, is_background_job_kind,
  job_is_due, running_job_upsert, save, count_state, scan_job, scan_jobs,
  scan_background_jobs_blocking,
}

abbrev pub max_due : JobManagerConfig → ℕ
max_due config = if ltb config.job_concurrency 1 then 1 else config.job_concurrency

-- A claim of a due job of the list: the row runs under a lock of 60 seconds, before the end of which
-- it is not due again.
pub record IsClaim (config : JobManagerConfig) (now : ℕ) (jobs : Jobs) (claimed : GatewayJobRecord)
    : Type 0 where
  pub job : GatewayJobRecord
  pub found : In job jobs
  pub due : job_is_due job now ≡ true
  pub kind : is_background_job_kind job.kind ≡ true
  pub same_id : claimed.gateway_job_id ≡ job.gateway_job_id
  pub runs : claimed.state ≡ GatewayJobState.running
  pub attempts_kept : claimed.retry_count ≡ job.retry_count
  pub held : (t : ℕ) → t < min (now + 60) 0x7FFFFFFFFFFFFFFF → job_is_due claimed t ≡ false

abbrev pub snapshot_total : JobSnapshot → ℕ
snapshot_total s = s.queued + s.running + s.retrying + s.terminal

pub record IsBounded (config : JobManagerConfig) (s : Scan) : Type 0 where
  pub within : length s.candidates ≤ max_due config
  pub counted : s.snapshot.due ≡ length s.candidates

-- What one turn of the loop did.
data Turn (in_range : ℕ → Bool) (config : JobManagerConfig) (now : ℕ) (s : Scan)
    (job : GatewayJobRecord) (next : Scan) : Type 0 where
  skipped : is_background_job_kind job.kind ≡ false → next ≡ s → Turn in_range config now s job next
  passed :
      is_background_job_kind job.kind ≡ true
      → next.candidates ≡ s.candidates
      → next.snapshot ≡ count_state s.snapshot job.state
      → Turn in_range config now s job next
  claimed :
      (claim : GatewayJobRecord)
      → is_background_job_kind job.kind ≡ true
      → job_is_due job now ≡ true
      → length s.candidates < max_due config
      → running_job_upsert in_range job config now ≡ ok claim
      → next.candidates ≡ s.candidates ++ claim ∷ []
      → next.snapshot ≡ record (count_state s.snapshot job.state) {
        due = (count_state s.snapshot job.state).due + 1;
      }
      → Turn in_range config now s job next

scan_job-Turn :
    (in_range : ℕ → Bool) (config : JobManagerConfig) (now : ℕ) (s next : Scan)
    (job : GatewayJobRecord)
    → scan_job in_range config now s job ≡ ok next
    → Turn in_range config now s job next
unfolding scan_job
scan_job-Turn in_range config now s next job h =
    elim (Bool-cases (is_background_job_kind job.kind)) [
      | inr other ↦ skipped other (sym (ok-injective (rw other at h)))
      | inl mine ↦
          elim (Bool-cases
            (leb (max_due config) (length s.candidates) || not (job_is_due job now))) [
              | inl over ↦
                  let same = sym (ok-injective (rw (mine, over) at h)) in
                  passed mine (ap (λ (t : Scan). t.candidates) same)
                    (ap (λ (t : Scan). t.snapshot) same)
              | inr free ↦
                  let step = rw (mine, free) at h in
                  let (claim, made, rest) =
                    >>=-eq-ok (running_job_upsert in_range job config now) _ step in
                  let (store, saved, last) = >>=-eq-ok (save s.store _ claim) _ rest in
                  let same = sym (ok-injective last) in
                  claimed claim mine (ground arith) (ground arith) made
                    (ap (λ (t : Scan). t.candidates) same) (ap (λ (t : Scan). t.snapshot) same)
            ]
    ]

count_state_lem :
    (s : JobSnapshot) (state : GatewayJobState)
    → (snapshot_total (count_state s state) ≡ snapshot_total s + 1)
      × ((count_state s state).due ≡ s.due)
unfolding count_state
count_state_lem s state = (ground arith, ground arith)

running_job_upsert_lem :
    (in_range : ℕ → Bool) (job claim : GatewayJobRecord) (config : JobManagerConfig) (now : ℕ)
    → running_job_upsert in_range job config now ≡ ok claim
    → (claim.gateway_job_id ≡ job.gateway_job_id)
      × (claim.state ≡ GatewayJobState.running)
      × (claim.retry_count ≡ job.retry_count)
      × (claim.locked_until ≡ some (min (now + 60) 0x7FFFFFFFFFFFFFFF))
unfolding running_job_upsert timestamp_after
running_job_upsert_lem in_range job claim config now h = ground arith

In-append : (xs : Jobs) (c d : GatewayJobRecord) → In d (xs ++ c ∷ []) → In d xs ⊎ (d ≡ c)
In-append [] c d (at zero g) = inr (ground arith)
In-append [] c d (at (suc i) g) = absurd cc
In-append (x ∷ xs) c d (at zero g) = inl (at zero g)
In-append (x ∷ xs) c d (at (suc i) g) = elim (In-append xs c d (at i g)) [
  | inl m ↦ inl (In-tail m)
  | inr e ↦ inr e
]

nothing-In : (d : GatewayJobRecord) → In d [] → ⊥
nothing-In d (at i g) = cc

held-job_is_due :
    (claim : GatewayJobRecord) (until t : ℕ)
    → claim.state ≡ GatewayJobState.running
    → claim.locked_until ≡ some until
    → t < until
    → job_is_due claim t ≡ false
unfolding job_is_due
held-job_is_due claim until t runs locked early = ground arith

module _ (in_range : ℕ → Bool) (config : JobManagerConfig) (now : ℕ) where
  -- What a scan has done so far, of the jobs `all`.
  record IsScan (all : Jobs) (seen : ℕ) (s : Scan) : Type 0 where
    within : length s.candidates ≤ max_due config
    counted : s.snapshot.due ≡ length s.candidates
    told : snapshot_total s.snapshot ≡ seen
    claims : (d : GatewayJobRecord) → In d s.candidates → IsClaim config now all d

  abbrev mine : GatewayJobRecord → Bool
  mine job = is_background_job_kind job.kind

  Turn-IsScan :
      (all : Jobs) (seen : ℕ) (s next : Scan) (job : GatewayJobRecord)
      → In job all
      → IsScan all seen s
      → Turn in_range config now s job next
      → IsScan all ((if mine job then 1 else 0) + seen) next
  Turn-IsScan all seen s next job here b (skipped other same) =
      let none_more : (if mine job then 1 else 0) + seen ≡ seen = ground arith in
      subst (λ n. IsScan all n next) (sym none_more) (subst (IsScan all seen) (sym same) b)
  Turn-IsScan all seen s next job here b (passed ours same snap) =
      let count = count_state_lem s.snapshot job.state in
      record {
        within = rw same b.within;
        counted = ground arith;
        told = ground arith;
        claims = λ d m. b.claims d (subst (In d) same m);
      }
  Turn-IsScan all seen s next job here b (claimed claim ours due free made same snap) =
      let count = count_state_lem s.snapshot job.state in
      let (id, runs, kept, until) = running_job_upsert_lem in_range job claim config now made in
      record {
        within = ground (arith, length-append s.candidates (claim ∷ []));
        counted = ground (arith, length-append s.candidates (claim ∷ []));
        told = ground arith;
        claims = λ d m. elim (In-append s.candidates claim d (subst (In d) same m)) [
          | inl old ↦ b.claims d old
          | inr new ↦ subst (IsClaim config now all) (sym new) (record {
            job = job;
            found = here;
            due = due;
            kind = ours;
            same_id = id;
            runs = runs;
            attempts_kept = kept;
            held = λ t early. held-job_is_due claim _ t runs until early;
          })
        ];
      }

  scan_jobs-IsScan :
      (all : Jobs) (seen : ℕ) (s next : Scan) (jobs : Jobs)
      → ((job : GatewayJobRecord) → In job jobs → In job all)
      → IsScan all seen s
      → scan_jobs in_range config now s jobs ≡ ok next
      → IsScan all (count_by mine jobs + seen) next
  unfolding scan_jobs
  scan_jobs-IsScan all seen s next [] sub b h =
      subst (IsScan all (0 + seen)) (ok-injective h) (subst (λ n. IsScan all n s) (omega arith) b)
  scan_jobs-IsScan all seen s next (job ∷ jobs) sub b h =
      let (mid, one, rest) = >>=-eq-ok (scan_job in_range config now s job) _ h in
      let turn = scan_job-Turn in_range config now s mid job one in
      let first = Turn-IsScan all seen s mid job (sub job (at 0 refl)) b turn in
      let more =
        scan_jobs-IsScan all ((if mine job then 1 else 0) + seen) mid next jobs
          (λ j m. sub j (In-tail m)) first rest in
      subst (λ n. IsScan all n next) (ground arith) more

  -- A scan that succeeds claims at most as many jobs as may run at once, and at least one may. Each
  -- was due and of a background kind, keeps its count of attempts, runs now, and is not due again
  -- for the next 60 seconds (or before the last second that fits in 63 bits), and the snapshot
  -- counts each background job of the store once.
  pub scan_background_jobs_blocking-claims :
      (store : GatewayStore) (scan : Scan)
      → scan_background_jobs_blocking in_range store config now ≡ ok scan
      → (length scan.candidates ≤ max_due config)
        × (scan.snapshot.due ≡ length scan.candidates)
        × (snapshot_total scan.snapshot ≡ count_by mine store.jobs)
        × ((d : GatewayJobRecord) → In d scan.candidates → IsClaim config now store.jobs d)
  unfolding scan_background_jobs_blocking
  scan_background_jobs_blocking-claims store scan h =
      let start : Scan = record {
        store = store;
        candidates = [];
        snapshot = record { due = 0; queued = 0; running = 0; retrying = 0; terminal = 0 };
      } in
      let begun : IsScan store.jobs 0 start = record {
        within = omega arith;
        counted = refl;
        told = refl;
        claims = λ d m. absurd (nothing-In d m);
      } in
      let b = scan_jobs-IsScan store.jobs 0 start scan store.jobs (λ j m. m) begun h in
      (b.within, b.counted, omega (arith, b.told), b.claims)
