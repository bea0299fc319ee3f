-- ===== src/AgentJobs/Dispatcher.antt =====
-- app/agent_jobs/dispatcher.py, `AgentJobDispatcher.run`, with app/planning/validators.py. The job's
-- directory and files are left out.
use mathlib.Core.List.{◌++◌ as append}
use jb_wm_backend.Base.{
  String, Bool, ◌&&◌, ◌||◌, Option, none, some, if◌then◌else◌, List, [], ◌∷◌, any, contains, truthy,
  or_text,
}
use jb_wm_backend.Json.{Json, str, obj, Fields, get, truth, dict}
use jb_wm_backend.Signals.{get_or_null, text_or_empty}
use jb_wm_backend.Planning.{NeedAssessment, Plan, AgentJobOutput, dump_assessment, dump_plan}
use jb_wm_backend.Models.{
  AgentSession, AgentJob, DataSnapshot, SignalEnvelope, JobOutcome, no_result, output, error,
}
use jb_wm_backend.Database.{
  http, exception, Result, ok, err, Exec, pure, raise, raise_if, modify, commit, tick, ◌>>=◌, ◌>>◌,
}
use jb_wm_backend.Database.Rows.{save_row}
use jb_wm_backend.Environment.{Env, JobMode, local_stub, codex_cli}
use jb_wm_backend.AgentJobs.Codex.{run_codex_cli}
use jb_wm_backend.AgentJobs.LocalStub.{build_local_stub_output}

-- `FORBIDDEN_OUTPUT_FRAGMENTS`
abbrev pub forbidden_output_fragments : List String
forbidden_output_fragments =
    "customer_id" ∷ "agent_session_id" ∷ "graph_thread_id" ∷ "fintech_use_num" ∷ "api_tran_id"
    ∷ "bank_tran_id" ∷ "card_value" ∷ "loan_repayment_id" ∷ "DATABASE_URL" ∷ "JWT_SECRET" ∷ []

-- `leaked` is not empty, for the JSON text of an output.
unfoldable pub is_leaking : List String → String → Bool
is_leaking forbidden_values text =
    any (λ needle. contains needle text) forbidden_output_fragments
    || any (λ value. truthy value && contains value text) forbidden_values

-- `reject_forbidden_output_identifiers`, on the JSON text of the output.
unfoldable pub reject_forbidden_output_identifiers : List String → String → Exec (Unit {0})
reject_forbidden_output_identifiers forbidden_values text =
    raise_if (is_leaking forbidden_values text) (http 422)

-- The key of a job.
abbrev pub job_id : AgentJob → String
job_id j = j.id

abbrev pub mode_text : JobMode → String
mode_text local_stub = "local_stub"
mode_text codex_cli = "codex_cli"

-- What `run` returns.
pub record JobResult : Type 0 where
  pub job : AgentJob
  pub assessment : NeedAssessment
  pub plan : Plan
  pub message : String

-- A computed result as an action.
abbrev pub from_result {ℓ} : {A : Type ℓ} → Result A → Exec A
from_result (ok a) = pure a
from_result (err e) = raise e

-- The dictionary of the local worker.
abbrev pub dump_output : AgentJobOutput → Json
dump_output out = obj (
    dict (
      ("assessment", obj (dump_assessment out.assessment))
      ∷ ("plan", obj (dump_plan out.plan))
      ∷ ("message", str out.message)
      ∷ []))

module _ (env : Env) where
  -- The output of the local worker.
  unfoldable pub stub_output : SignalEnvelope → Fields → Result Json
  stub_output signal context = elim (build_local_stub_output env signal context) [
    | some out ↦ ok (dump_output out)
    | none ↦ err (exception (env.conversion_error signal context))
  ]

  -- The worker of the configured mode.
  unfoldable pub raw_output : String → SignalEnvelope → Fields → Result Json
  raw_output id signal context = elim env.settings.agent_job_mode [
    | codex_cli ↦ run_codex_cli env id signal context
    | local_stub ↦ stub_output signal context
  ]

  -- `str(raw_output.get("message") or plan.explanation or assessment.rationale)`
  abbrev pub message_of : Fields → NeedAssessment → Plan → String
  message_of raw assessment plan =
      if truth env.numbers.nonzero (get_or_null "message" raw)
      then text_or_empty env (get_or_null "message" raw)
      else or_text plan.explanation assessment.rationale

  -- The validation of the plan; it takes the separate assessment.
  unfoldable pub planned : Fields → NeedAssessment → Option Json → Result AgentJobOutput
  planned raw assessment none = err (exception "KeyError")
  planned raw assessment (some v) = elim (env.validate_plan v) [
    | none ↦ err (exception "ValidationError")
    | some plan ↦ ok (record {
      assessment = assessment;
      plan = record plan { assessment = some assessment };
      message = message_of raw assessment plan;
    })
  ]

  -- The validation of the assessment, and then of the plan.
  unfoldable pub assessed : Fields → Option Json → Result AgentJobOutput
  assessed raw none = err (exception "KeyError")
  assessed raw (some v) = elim (env.validate_assessment v) [
    | none ↦ err (exception "ValidationError")
    | some assessment ↦ planned raw assessment (get "plan" raw)
  ]

  -- The output that a checked JSON value has. Anything but a dictionary has no item under a text.
  unfoldable pub parsed : Json → Result AgentJobOutput
  parsed (obj raw) = assessed raw (get "assessment" raw)
  parsed _ = err (exception "TypeError")

  -- The row of a new job.
  unfoldable pub new_job : DataSnapshot → Exec AgentJob
  new_job snapshot = do
    t ← tick
    let job : AgentJob = record {
      id = env.new_uuid t;
      graph_thread_id = snapshot.graph_thread_id;
      customer_id = snapshot.customer_id;
      data_snapshot_id = snapshot.id;
      mode = mode_text env.settings.agent_job_mode;
      status = "queued";
      input_path = "";
      output_path = "";
      result = no_result;
      created_at = env.utcnow t;
      updated_at = env.utcnow t;
    }
    modify (λ db. record db { jobs = append db.jobs (job ∷ []) })
    commit
    pure job

  -- The body of the `try`, up to the message: the raw output is searched for leaks before it is
  -- validated.
  unfoldable pub checked_output :
      AgentSession → DataSnapshot → SignalEnvelope → AgentJob → Exec AgentJobOutput
  checked_output session snapshot signal job = do
    raw ← from_result (raw_output job.id signal snapshot.context)
    reject_forbidden_output_identifiers
        (session.customer_id ∷ session.id ∷ snapshot.graph_thread_id ∷ snapshot.id ∷ job.id ∷ [])
        (env.json_text raw)
    from_result (parsed raw)

  -- The job's row after the run.
  unfoldable pub finish_job : AgentJob → String → JobOutcome → Exec AgentJob
  finish_job job status result = do
    t ← tick
    let job' : AgentJob = record job {
      status = status;
      input_path = env.job_path job.id "context.json";
      output_path = env.job_path job.id "output.json";
      result = result;
      updated_at = env.utcnow t;
    }
    modify (λ db. record db { jobs = save_row job_id job' db.jobs })
    commit
    pure job'

  -- The `except` of `run`: the failure is stored, and raised again.
  unfoldable pub settle_job : AgentJob → Result AgentJobOutput → Exec JobResult
  settle_job job (ok out) = do
    job' ← finish_job job "completed" (output out)
    pure
        (record { job = job'; assessment = out.assessment; plan = out.plan; message = out.message })
  settle_job job (err e) = do finish_job job "failed" error; raise e

  -- The `try` of `run`, with its `except`.
  unfoldable pub try_job : AgentSession → DataSnapshot → SignalEnvelope → AgentJob → Exec JobResult
  try_job session snapshot signal job w =
      let (out, w') = checked_output session snapshot signal job w in settle_job job out w'

  -- `AgentJobDispatcher.run`
  unfoldable pub run_job : AgentSession → DataSnapshot → SignalEnvelope → Exec JobResult
  run_job session snapshot signal = do job ← new_job snapshot; try_job session snapshot signal job
