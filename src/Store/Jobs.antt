-- ===== src/Store/Jobs.antt =====
-- crates/missive-store/src/repository.rs: the rows of the gateway's jobs. SQLite is taken to carry
-- its statements out: the table is a list with one row for each id.
use missive.Common.{
  ℕ, Bool, not, filter_by, Option, none, some, List, [], ◌∷◌, ltb, ◌==◌, if◌then◌else◌, is_empty,
}
use missive.Common.Str.{Str, str_eq, str_len}
use missive.Core.Json.{Value}
use missive.Core.Error.{Result, ok, ◌>>◌, fail_if, validation_error}

pub data GatewayJobState : Type 0 where
  queued running succeeded failed cancelled retrying : GatewayJobState

-- What `result_json` holds: the output of the work, or what `finish_retry_or_fail` or the end of a
-- subscription writes there.
pub data JobResult : Type 0 where
  output : Value → JobResult
  retry_result : (error : Str) (retry_count max_attempts backoff_ms next_run_at : ℕ) → JobResult
  fail_result : (error : Str) (retry_count max_attempts : ℕ) → JobResult
  resubscribe_result :
      (reason : Str) (events : ℕ) (terminal_seen : Bool) (backoff_ms next_run_at : ℕ) → JobResult

-- The row and the upsert, which differ by the times that SQLite records. The metadata and the
-- binding of an adapter, which are only passed on, are left out. A time is in whole seconds, which
-- is how the store writes it.
pub record GatewayJobRecord : Type 0 where
  pub gateway_job_id : Str
  pub kind : Str
  pub state : GatewayJobState
  pub agent_alias : Option Str
  pub context_id : Option Str
  pub task_id : Option Str
  pub group_name : Option Str
  pub request_json : Value
  pub result_json : Option JobResult
  pub retry_count : ℕ
  pub max_attempts : ℕ
  pub next_run_at : Option ℕ
  pub locked_by : Option Str
  pub locked_until : Option ℕ
  pub completed_at : Option ℕ

unfoldable pub validate_gateway_attempts : ℕ → ℕ → Result (Unit {0})
validate_gateway_attempts retry_count max_attempts = do
  fail_if (max_attempts == 0) (validation_error "gateway job max_attempts must be at least 1")
  fail_if (ltb max_attempts retry_count) (
      validation_error
        "gateway job retry_count {retry_count} cannot exceed max_attempts {max_attempts}")

unfoldable pub validate_len : Str → ℕ → Result (Unit {0})
validate_len value max_bytes = do
  fail_if (is_empty value) (validation_error "{label} cannot be empty")
  fail_if (ltb max_bytes (str_len value))
      (validation_error "{label} is {} bytes, but the maximum is {max_bytes}")

abbrev pub Jobs : Type 0
Jobs = List GatewayJobRecord

unfoldable pub get_gateway_job : Jobs → Str → Option GatewayJobRecord
get_gateway_job [] id = none
get_gateway_job (j ∷ jobs) id =
    let rest = get_gateway_job jobs id in if str_eq j.gateway_job_id id then some j else rest

-- `INSERT ... ON CONFLICT(gateway_job_id) DO UPDATE`.
unfoldable pub put_job : Jobs → GatewayJobRecord → Jobs
put_job [] new = new ∷ []
put_job (j ∷ jobs) new =
    let rest = put_job jobs new in
    if str_eq j.gateway_job_id new.gateway_job_id then new ∷ jobs else j ∷ rest

unfoldable pub upsert_gateway_job : Jobs → GatewayJobRecord → Result Jobs
unfolding validate_len validate_gateway_attempts put_job
upsert_gateway_job jobs input = do
  validate_len input.kind 63
  validate_gateway_attempts input.retry_count input.max_attempts
  ok (put_job jobs input)

-- `DELETE FROM gateway_jobs WHERE gateway_job_id = ?1`.
unfoldable pub delete_gateway_job : Jobs → Str → Jobs
delete_gateway_job jobs id = filter_by (λ job. not (str_eq job.gateway_job_id id)) jobs
