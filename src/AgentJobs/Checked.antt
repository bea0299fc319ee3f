-- ===== src/AgentJobs/Checked.antt =====
-- app/agent_jobs/dispatcher.py: what a run of a job returns, and what it leaves when it raises.
use mathlib.Core.List.{◌++◌}
use jb_wm_backend.Base.{
  arith, eq_refl, ◌+◌, String, ◌≡◌, refl, ◌⊎◌, true, false, none, some, List, [], ◌∷◌, Option-cases,
  Bool-cases, inl, inr,
}
use jb_wm_backend.Json.{Json}
use jb_wm_backend.Models.{AgentSession, AgentJob, DataSnapshot, SignalEnvelope, no_result, error}
use jb_wm_backend.Database.{World, Error, Result, ok, err, http, exception}
use jb_wm_backend.Database.Rows.{get_row, save_row, get_row-append, get_row-save_row}
use jb_wm_backend.Environment.{Env, JobMode, local_stub, codex_cli, WorkerEnd}
use jb_wm_backend.AgentJobs.Codex.{safe_env, codex_command, run_codex_cli}
use jb_wm_backend.AgentJobs.Outputs.{
  IsParsed, WorkerFails, IsInvalid, read_output-fails, parsed-IsInvalid, parsed-IsParsed,
}
use jb_wm_backend.AgentJobs.{
  is_leaking, reject_forbidden_output_identifiers, build_local_stub_output, stub_output, raw_output,
  parsed, new_job, checked_output, finish_job, settle_job, try_job, run_job, job_id, mode_text,
  JobResult,
}

-- The identifiers of a run that no output may contain.
abbrev pub forbidden_values : Env → AgentSession → DataSnapshot → World → List String
forbidden_values env session snapshot w =
    session.customer_id
    ∷ session.id
    ∷ snapshot.graph_thread_id
    ∷ snapshot.id
    ∷ env.new_uuid w.ticks
    ∷ []

-- A result that was checked: the worker's raw output does not leak and is valid, and its assessment
-- is also that of the plan; the job is stored.
pub record IsChecked (env : Env) (session : AgentSession) (snapshot : DataSnapshot)
    (signal : SignalEnvelope) (w : World) (r : JobResult) (w' : World) : Type 0 where
  pub raw : Json
  pub produced : raw_output env (env.new_uuid w.ticks) signal snapshot.context ≡ ok raw
  pub hides : is_leaking (forbidden_values env session snapshot w) (env.json_text raw) ≡ false
  pub valid : IsParsed env raw r.assessment r.plan
  pub job_status : r.job.status ≡ "completed"
  pub same_job : r.job.id ≡ env.new_uuid w.ticks
  pub committed : w'.committed ≡ w'.working

-- How the worker's process of a job ends.
abbrev pub end_of : Env → SignalEnvelope → DataSnapshot → World → WorkerEnd
end_of env signal snapshot w =
    env.spawn (codex_command env (env.new_uuid w.ticks)) (safe_env env.environ)
      (env.context_text signal snapshot.context)

-- Why a run raises, with the exception: the configured worker gave no output, the output leaks, or it
-- does not leak and is not valid.
pub data Fails (env : Env) (session : AgentSession) (snapshot : DataSnapshot)
    (signal : SignalEnvelope) (w : World) : Error → Type 0 where
  of_worker :
      {e : Error}
      → env.settings.agent_job_mode ≡ codex_cli
      → WorkerFails env (end_of env signal snapshot w) e
      → Fails env session snapshot signal w e
  of_stub :
      env.settings.agent_job_mode ≡ local_stub
      → build_local_stub_output env signal snapshot.context ≡ none
      → Fails env session snapshot signal w
          (exception (env.conversion_error signal snapshot.context))
  leaks :
      (raw : Json)
      → raw_output env (env.new_uuid w.ticks) signal snapshot.context ≡ ok raw
      → is_leaking (forbidden_values env session snapshot w) (env.json_text raw) ≡ true
      → Fails env session snapshot signal w (http 422)
  of_output :
      {e : Error} (raw : Json)
      → raw_output env (env.new_uuid w.ticks) signal snapshot.context ≡ ok raw
      → is_leaking (forbidden_values env session snapshot w) (env.json_text raw) ≡ false
      → IsInvalid env raw e
      → Fails env session snapshot signal w e

-- A failure that is on record: the stored job says that it failed, and the record is committed.
pub record IsFailure (env : Env) (session : AgentSession) (snapshot : DataSnapshot)
    (signal : SignalEnvelope) (w : World) (e : Error) (w' : World) : Type 0 where
  pub why : Fails env session snapshot signal w e
  pub job : AgentJob
  pub stored : get_row job_id (env.new_uuid w.ticks) w'.committed.jobs ≡ some job
  pub job_status : job.status ≡ "failed"
  pub outcome : job.result ≡ error
  pub same_customer : job.customer_id ≡ snapshot.customer_id

-- The row of a new job, and what a failure makes of it.
abbrev added_job : Env → DataSnapshot → World → AgentJob
added_job env snapshot w = record {
  id = env.new_uuid w.ticks;
  graph_thread_id = snapshot.graph_thread_id;
  customer_id = snapshot.customer_id;
  data_snapshot_id = snapshot.id;
  mode = mode_text env.settings.agent_job_mode;
  status = "queued";
  input_path = "";
  output_path = "";
  result = no_result;
  created_at = env.utcnow w.ticks;
  updated_at = env.utcnow w.ticks;
}

abbrev failed_job : Env → DataSnapshot → World → AgentJob
failed_job env snapshot w = record (added_job env snapshot w) {
  status = "failed";
  input_path = env.job_path (env.new_uuid w.ticks) "context.json";
  output_path = env.job_path (env.new_uuid w.ticks) "output.json";
  result = error;
  updated_at = env.utcnow (w.ticks + 1);
}

-- The row that was added is found, with its new value, once it is saved.
get_row-save_added :
    (jobs : List AgentJob) (added saved : AgentJob)
    → saved.id ≡ added.id
    → get_row job_id added.id (save_row job_id saved (jobs ++ added ∷ [])) ≡ some saved
get_row-save_added jobs added saved same = ground (
  arith,
  eq_refl added.id,
  get_row-append job_id added.id jobs added,
  get_row-save_row job_id added.id saved (jobs ++ added ∷ []),
)

Result-cases : {A : Type 0} (r : Result A) → ((a : A) × (r ≡ ok a)) ⊎ ((e : Error) × (r ≡ err e))
Result-cases (ok a) = inl (a, refl)
Result-cases (err e) = inr (e, refl)

module _ (env : Env) (session : AgentSession) (snapshot : DataSnapshot) (signal : SignalEnvelope)
    (w : World) where
  -- What the worker of the run gives.
  abbrev given : Result Json
  given = raw_output env (env.new_uuid w.ticks) signal snapshot.context

  stub_output-none :
      (e : Error)
      → stub_output env signal snapshot.context ≡ err e
      → (build_local_stub_output env signal snapshot.context ≡ none)
        × (e ≡ exception (env.conversion_error signal snapshot.context))
  unfolding stub_output
  stub_output-none e h = elim (Option-cases (build_local_stub_output env signal snapshot.context)) [
    | inl missing ↦ (missing, ground arith)
    | inr (out, found) ↦ absurd (ground arith)
  ]

  mode_cases : (m : JobMode) → (m ≡ codex_cli) ⊎ (m ≡ local_stub)
  mode_cases codex_cli = inl refl
  mode_cases local_stub = inr refl

  given-Fails : (e : Error) → given ≡ err e → Fails env session snapshot signal w e
  unfolding raw_output run_codex_cli
  given-Fails e h = elim (mode_cases env.settings.agent_job_mode) [
    | inl codex ↦
        of_worker codex (read_output-fails env (end_of env signal snapshot w) e (ground arith))
    | inr local ↦
        let (missing, same) = stub_output-none e (ground arith) in rw same (of_stub local missing)
  ]

  -- If a run returns, then the worker's raw output has no forbidden fragment and no identifier of the
  -- run in its JSON text, its assessment and plan are valid, the result has the assessment, also inside
  -- the plan, and the proposals of the plan, the job is completed, and everything is committed.
  pub run_job-IsChecked :
      (w' : World) (r : JobResult)
      → run_job env session snapshot signal w ≡ (ok r, w')
      → IsChecked env session snapshot signal w r w'
  unfolding run_job new_job try_job checked_output reject_forbidden_output_identifiers settle_job
      finish_job
  run_job-IsChecked w' r run = elim (Result-cases given) [
    | inr (e, raises) ↦ absurd (ground arith)
    | inl (raw, found) ↦
        elim (Bool-cases
          (is_leaking (forbidden_values env session snapshot w) (env.json_text raw))) [
            | inl leaking ↦ absurd (ground arith)
            | inr safe ↦ elim (Result-cases (parsed env raw)) [
              | inr (e, bad) ↦ absurd (ground arith)
              | inl (out, valid) ↦
                  let same_assessment : out.assessment ≡ r.assessment = ground arith in
                  let same_plan : out.plan ≡ r.plan = ground arith in
                  record {
                    raw = raw;
                    produced = found;
                    hides = safe;
                    valid = rw (← same_assessment, ← same_plan) (parsed-IsParsed env raw out valid);
                    job_status = ground arith;
                    same_job = ground arith;
                    committed = ground arith;
                  }
            ]
          ]
  ]

  fails :
      (w' : World) (e : Error)
      → run_job env session snapshot signal w ≡ (err e, w')
      → Fails env session snapshot signal w e
  unfolding run_job new_job try_job checked_output reject_forbidden_output_identifiers settle_job
      finish_job
  fails w' e run = elim (Result-cases given) [
    | inr (x, raises) ↦ given-Fails e (ground arith)
    | inl (raw, found) ↦
        elim (Bool-cases
          (is_leaking (forbidden_values env session snapshot w) (env.json_text raw))) [
            | inl leaking ↦
                let same : e ≡ http 422 = ground arith in rw same (leaks raw found leaking)
            | inr safe ↦ elim (Result-cases (parsed env raw)) [
              | inl (out, valid) ↦ absurd (ground arith)
              | inr (x, bad) ↦ of_output raw found safe (parsed-IsInvalid env raw e (ground arith))
            ]
          ]
  ]

  failed_jobs :
      (w' : World) (e : Error)
      → run_job env session snapshot signal w ≡ (err e, w')
      → w'.committed.jobs
        ≡ save_row job_id
            (failed_job env snapshot w)
            (w.working.jobs ++ added_job env snapshot w ∷ [])
  unfolding run_job new_job try_job checked_output reject_forbidden_output_identifiers settle_job
      finish_job
  failed_jobs w' e run = elim (Result-cases given) [
    | inr (x, raises) ↦ ground arith
    | inl (raw, found) ↦
        elim (Bool-cases
          (is_leaking (forbidden_values env session snapshot w) (env.json_text raw))) [
            | inl leaking ↦ ground arith
            | inr safe ↦ elim (Result-cases (parsed env raw)) [
              | inl (out, valid) ↦ absurd (ground arith)
              | inr (x, bad) ↦ ground arith
            ]
          ]
  ]

  -- If a run raises, the configured worker gave no output, or its output leaks (422), or it does not
  -- leak and is not valid, each with the exception that it raises; and the job is stored and committed
  -- as failed.
  pub run_job-IsFailure :
      (w' : World) (e : Error)
      → run_job env session snapshot signal w ≡ (err e, w')
      → IsFailure env session snapshot signal w e w'
  run_job-IsFailure w' e run = record {
    why = fails w' e run;
    job = failed_job env snapshot w;
    stored = rw (failed_jobs w' e run) (
        get_row-save_added w.working.jobs (added_job env snapshot w) (failed_job env snapshot w)
          refl);
    job_status = refl;
    outcome = refl;
    same_customer = refl;
  }
