-- ===== src/Core/Error.antt =====
-- crates/missive-core/src/error.rs, and the result type of the whole model.
--
-- A message is kept as the literal text that tells it apart, `detail`, without the values that
-- `format!` puts in. Help texts and the chain of sources are left out.
pub mod Laws
use missive.Common.{ℕ, String, Bool, true, false, Option, none, some, ◌≡◌, refl, ◌⊎◌, List, [], ◌∷◌}

pub data ErrorCategory : Type 0 where
  io config protocol transport storage auth validation orchestration : ErrorCategory

pub data MissiveExitCode : Type 0 where
  success usage unavailable software io temporary_failure protocol permission config :
      MissiveExitCode
  task_failed task_cancelled task_timeout task_input_required : MissiveExitCode

-- The discriminants of the enum.
unfoldable pub as_u8 : MissiveExitCode → ℕ
as_u8 MissiveExitCode.success = 0
as_u8 MissiveExitCode.usage = 64
as_u8 MissiveExitCode.unavailable = 69
as_u8 MissiveExitCode.software = 70
as_u8 MissiveExitCode.io = 74
as_u8 MissiveExitCode.temporary_failure = 75
as_u8 MissiveExitCode.protocol = 76
as_u8 MissiveExitCode.permission = 77
as_u8 MissiveExitCode.config = 78
as_u8 MissiveExitCode.task_failed = 80
as_u8 MissiveExitCode.task_cancelled = 81
as_u8 MissiveExitCode.task_timeout = 82
as_u8 MissiveExitCode.task_input_required = 83

unfoldable pub category_exit_code : ErrorCategory → MissiveExitCode
category_exit_code ErrorCategory.validation = MissiveExitCode.usage
category_exit_code ErrorCategory.transport = MissiveExitCode.unavailable
category_exit_code ErrorCategory.io = MissiveExitCode.io
category_exit_code ErrorCategory.storage = MissiveExitCode.temporary_failure
category_exit_code ErrorCategory.protocol = MissiveExitCode.protocol
category_exit_code ErrorCategory.auth = MissiveExitCode.permission
category_exit_code ErrorCategory.config = MissiveExitCode.config
category_exit_code ErrorCategory.orchestration = MissiveExitCode.software

pub record MissiveError : Type 0 where
  pub category : ErrorCategory
  pub detail : String
  pub override : Option MissiveExitCode

-- `MissiveError::new`, and the constructors for one category that the modelled code calls.
abbrev pub new_error : ErrorCategory → String → MissiveError
new_error category detail = record { category = category; detail = detail; override = none }

abbrev pub config_error : String → MissiveError
config_error = new_error ErrorCategory.config

abbrev pub storage_error : String → MissiveError
storage_error = new_error ErrorCategory.storage

abbrev pub validation_error : String → MissiveError
validation_error = new_error ErrorCategory.validation

abbrev pub orchestration_error : String → MissiveError
orchestration_error = new_error ErrorCategory.orchestration

abbrev pub with_exit_code : MissiveError → MissiveExitCode → MissiveError
with_exit_code e code = record e { override = some code }

unfoldable pub error_exit_code : MissiveError → MissiveExitCode
error_exit_code e = elim e.override [ some code ↦ code | none ↦ category_exit_code e.category ]

-- `Result<T, MissiveError>`, with two more outcomes that the source's types do not show:
-- a failed `expect`, index or `unreachable!`, and a recursion that does not come to an end.
pub data Result {ℓ} (A : Type ℓ) : Type ℓ where
  ok : A → Result A
  err : MissiveError → Result A
  panic : Result A
  hang : Result A

-- The `?` operator: whatever is no value ends the function.
infixl 5 ◌>>=◌
abbrev pub ◌>>=◌ {ℓ κ} : {A : Type ℓ} {B : Type κ} → Result A → (A → Result B) → Result B
panic >>= rest = panic
hang >>= rest = hang
err failure >>= rest = err failure
ok value >>= rest = rest value

infixl 5 ◌>>◌
abbrev pub ◌>>◌ {ℓ} : {B : Type ℓ} → Result (Unit {0}) → Result B → Result B
check >> rest = check >>= λ done. rest

-- `if test { return Err(e) }`.
abbrev pub fail_if : Bool → MissiveError → Result (Unit {0})
fail_if true e = err e
fail_if false e = ok tt

-- `ok_or_else`, and `expect` or an index.
abbrev pub ok_or {ℓ} : {A : Type ℓ} → Option A → MissiveError → Result A
ok_or none e = err e
ok_or (some a) e = ok a

abbrev pub expect {ℓ} : {A : Type ℓ} → Option A → Result A
expect none = panic
expect (some a) = ok a

-- A loop over a list in which every call has its `?`.
unfoldable pub check_all {ℓ} : {A : Type ℓ} → (A → Result (Unit {0})) → List A → Result (Unit {0})
check_all check [] = ok tt
check_all check (x ∷ xs) = check x >> check_all check xs

-- `if let Some(x) = o { check(x)?; }`.
abbrev pub check_some {ℓ} : {A : Type ℓ} → (A → Result (Unit {0})) → Option A → Result (Unit {0})
check_some check none = ok tt
check_some check (some x) = check x

-- The call comes back with a value or an error value.
abbrev pub Returns {ℓ} : {A : Type ℓ} → Result A → Type 0
Returns (ok a) = Unit {0}
Returns (err e) = Unit {0}
Returns panic = ⊥
Returns hang = ⊥
