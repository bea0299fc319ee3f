-- ===== src/Environment.antt =====
-- What the program reads and does not implement: its settings (app/core/config.py), the clock and
-- the generator of identifiers (app/models/base.py), hashing, the database's text order, and the
-- arithmetic of decimals and floats.
use jb_wm_backend.Base.{ℕ, String, Bool, true, false, Option, List}
use jb_wm_backend.Json.{Json, ℤ, Fields, Decimal, Float}
use jb_wm_backend.Planning.{NeedAssessment, Plan}
use jb_wm_backend.Models.{SignalEnvelope}

pub data AppEnv : Type 0 where
  local dev staging prod : AppEnv

pub data ExecutionMode : Type 0 where
  mock_apply external_request : ExecutionMode

pub data JobMode : Type 0 where
  local_stub codex_cli : JobMode

-- How a worker's process ends: with a failure (`CalledProcessError`), out of time, without a command
-- or an output file, or with an output file of a size and a text, which is absent if it is no UTF-8.
pub data WorkerEnd : Type 0 where
  failed : WorkerEnd
  timed_out : WorkerEnd
  not_found : WorkerEnd
  wrote : ℕ → Option String → WorkerEnd

-- The settings that the modelled code reads. They are read once, when the program starts, also from
-- the environment of the process.
pub record Settings : Type 0 where
  pub app_env : AppEnv
  pub action_execution_mode : ExecutionMode
  pub agent_job_mode : JobMode
  pub privacy_sensitive_retention_days : ℕ
  pub jwt_secret : String
  pub codex_command : String
  pub agent_job_codex_model : String
  pub agent_job_codex_reasoning_effort : String
  pub agent_job_output_max_bytes : ℕ

-- Python's `float` and `Decimal`.
pub record Numbers : Type 0 where
  -- the float that is written n / 100
  pub hundredths : ℕ → Float
  -- `bool(x)`
  pub nonzero : Float → Bool
  -- `float(v)`, absent where Python raises
  pub to_float : Json → Option Float
  -- `int(v)` of a value that is no integer, and `str(v)` of one that is no text
  pub to_int : Json → Option ℤ
  pub to_text : Json → String
  -- `x >= y`
  pub ge : Float → Float → Bool
  pub sub : Float → Float → Float
  pub mul : Float → Float → Float
  -- `sum(xs)` of a list that is not empty
  pub sum : List Float → Float
  pub of_int : ℤ → Float
  -- `int(x)` and `round(x)`
  pub trunc : Float → ℤ
  pub round : Float → ℤ
  -- `f"{n:,}"`
  pub with_commas : ℤ → String
  pub max : Float → Float → Float
  -- `x / n` by an integer
  pub div : Float → ℕ → Float
  pub dec_of : ℕ → Decimal
  -- `Decimal(str(x))`
  pub dec_of_float : Float → Decimal
  pub dec_add : Decimal → Decimal → Decimal
  pub dec_mul : Decimal → Decimal → Decimal
  pub dec_div : Decimal → ℕ → Decimal
  -- `float(x)` and `int(x)`
  pub float_of_dec : Decimal → Float
  pub int_of_dec : Decimal → ℤ
  -- `round(x / y, 2)`
  pub ratio : Float → Float → Float
  -- `a + b` of two values that are not both integers, absent where Python raises
  pub plus : Json → Json → Option Json
  -- `x > 0`
  pub dec_positive : Decimal → Bool

pub record Env : Type 0 where
  pub settings : Settings
  pub numbers : Numbers
  -- the n-th identifier and the n-th reading of the clock
  pub new_uuid : ℕ → String
  pub utcnow : ℕ → ℕ
  -- the day of the n-th reading of `date.today()`
  pub today : ℕ → ℕ
  -- `isoformat()` of a time in microseconds and of a day
  pub isoformat : ℕ → String
  pub date_isoformat : ℕ → String
  -- `int(time.time())` at the n-th reading of the clock
  pub unix_time : ℕ → ℕ
  -- `secrets.token_urlsafe(16)` at the n-th reading
  pub token_urlsafe : ℕ → String
  -- HMAC with SHA-256 of a key and a message, and PBKDF2 with SHA-256 of a password, a salt and a
  -- number of rounds, absent where Python raises
  pub hmac_sha256 : String → String → List ℕ
  pub pbkdf2_hmac : String → String → ℤ → Option (List ℕ)
  -- `json.dumps(d, separators=…, ensure_ascii=False).encode("utf-8")`, and `json.loads` of bytes read
  -- as UTF-8, absent where Python raises
  pub json_bytes : Fields → List ℕ
  pub json_loads : List ℕ → Option Json
  -- SHA-256 of the sorted JSON text of a dictionary of texts, and of a JSON value
  pub sha256_texts : List (String × String) → String
  pub sha256_json : Fields → String
  -- `os.environ` while a job runs, and how the process of a command with an environment and an input
  -- ends
  pub environ : List (String × String)
  pub spawn : List String → List (String × String) → String → WorkerEnd
  -- the JSON text of a job's input
  pub context_text : SignalEnvelope → Fields → String
  -- `json.loads(text)`, absent where it raises, and `json.dumps(v, ensure_ascii=False, default=str)`
  pub json_of_text : String → Option Json
  pub json_text : Json → String
  -- `NeedAssessment.model_validate` and `Plan.model_validate`, absent where they raise
  pub validate_assessment : Json → Option NeedAssessment
  pub validate_plan : Json → Option Plan
  -- the exception that the conversion of a malformed amount raises in the local worker
  pub conversion_error : SignalEnvelope → Fields → String
  -- the path of a file in a job's directory
  pub job_path : String → String → String
  -- `text.lower()`
  pub lower : String → String
  -- the place of a text in the database's collation
  pub collation : String → ℕ

-- `settings.app_env in {"local", "dev"}`
abbrev pub is_local_or_dev : AppEnv → Bool
is_local_or_dev local = true
is_local_or_dev dev = true
is_local_or_dev _ = false

-- `settings.action_execution_mode == "external_request"`
abbrev pub is_external : ExecutionMode → Bool
is_external mock_apply = false
is_external external_request = true
