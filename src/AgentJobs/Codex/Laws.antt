-- ===== src/AgentJobs/Codex/Laws.antt =====
-- What app/agent_jobs/dispatcher.py's `_run_codex_cli` lets a worker see and answer.
use mathlib.Core.List.{◌++◌}
use jb_wm_backend.Base.{
  arith, ℕ, ◌≤◌, String, ◌≡◌, refl, sym, ◌∙◌, false, none, some, List, [], ◌∷◌, ◌==◌, any,
}
use jb_wm_backend.Json.{Json, null, bool, int, float, str, arr, obj, Fields}
use jb_wm_backend.Planning.{AgentJobOutput}
use jb_wm_backend.Models.{AgentSession, AgentJob, DataSnapshot, SignalEnvelope}
use jb_wm_backend.Database.{World, Result, ok, err, ◌>>=◌, ◌>>◌}
use jb_wm_backend.Environment.{Env, codex_cli, WorkerEnd, failed, timed_out, not_found, wrote}
use jb_wm_backend.AgentJobs.{
  is_leaking, raw_output, planned, assessed, parsed, run_job, new_job, try_job, checked_output,
  settle_job, finish_job, JobResult, from_result, reject_forbidden_output_identifiers,
}
use jb_wm_backend.AgentJobs.Outputs.{IsParsed}
use jb_wm_backend.AgentJobs.Checked.{run_job-IsChecked, forbidden_values, end_of}
use jb_wm_backend.AgentJobs.Codex.{
  safe_env, safe_env_allowlist, codex_command, is_ungrounded, reject_context_unavailable_output,
  load_output, read_output, run_codex_cli,
}

-- A variable that is not on the list is left out.
safe_env-insert :
    (key value : String) (before after : List (String × String))
    → any (λ k. k == key) safe_env_allowlist ≡ false
    → safe_env (before ++ (key, value) ∷ after) ≡ safe_env (before ++ after)
unfolding safe_env
safe_env-insert key value [] after hidden = rw hidden refl
safe_env-insert key value ((k, v) ∷ before) after hidden =
    rw (safe_env-insert key value before after hidden) refl

worker_output :
    (env : Env) (id : String) (signal : SignalEnvelope) (context : Fields)
    → env.settings.agent_job_mode ≡ codex_cli
    → raw_output env id signal context ≡ run_codex_cli env id signal context
unfolding raw_output
worker_output env id signal context mode = rw mode refl

-- An environment of the process.
abbrev pub with_environ : Env → List (String × String) → Env
with_environ env vars = record env { environ = vars }

module _ (env : Env) (before after : List (String × String)) (key value : String)
    (hidden : any (λ k. k == key) safe_env_allowlist ≡ false)
    (mode : env.settings.agent_job_mode ≡ codex_cli) where
  -- With the variable, and without.
  abbrev full : Env
  full = with_environ env (before ++ (key, value) ∷ after)

  abbrev rest : Env
  rest = with_environ env (before ++ after)

  read_output-hides : (end : WorkerEnd) → read_output full end ≡ read_output rest end
  unfolding read_output load_output reject_context_unavailable_output is_ungrounded
  read_output-hides failed = refl
  read_output-hides timed_out = refl
  read_output-hides not_found = refl
  read_output-hides (wrote size none) = refl
  read_output-hides (wrote size (some text)) = refl

  parsed-hides : (raw : Json) → parsed full raw ≡ parsed rest raw
  unfolding parsed assessed planned
  parsed-hides (obj items) = refl
  parsed-hides null = refl
  parsed-hides (bool b) = refl
  parsed-hides (int n) = refl
  parsed-hides (float x) = refl
  parsed-hides (str s) = refl
  parsed-hides (arr xs) = refl

  run_codex_cli-hides :
      (id : String) (signal : SignalEnvelope) (context : Fields)
      → run_codex_cli full id signal context ≡ run_codex_cli rest id signal context
  unfolding run_codex_cli
  run_codex_cli-hides id signal context = rw (safe_env-insert key value before after hidden) (
      read_output-hides (
        env.spawn (codex_command env id) (safe_env (before ++ after))
          (env.context_text signal context)))

  raw_output-hides :
      (id : String) (signal : SignalEnvelope) (context : Fields)
      → raw_output full id signal context ≡ raw_output rest id signal context
  raw_output-hides id signal context =
      worker_output full id signal context mode
      ∙ run_codex_cli-hides id signal context
      ∙ sym (worker_output rest id signal context mode)

  check-hides :
      (forbidden : List String) (r : Result Json) (w : World)
      → (from_result r >>= λ raw.
            reject_forbidden_output_identifiers forbidden (full.json_text raw)
            >> from_result (parsed full raw))
          w
        ≡ (from_result r >>= λ raw.
              reject_forbidden_output_identifiers forbidden (rest.json_text raw)
              >> from_result (parsed rest raw))
            w
  check-hides forbidden (ok raw) w = rw (parsed-hides raw) refl
  check-hides forbidden (err e) w = refl

  checked_output-hides :
      (session : AgentSession) (snapshot : DataSnapshot) (signal : SignalEnvelope) (job : AgentJob)
      (w : World)
      → checked_output full session snapshot signal job w
        ≡ checked_output rest session snapshot signal job w
  unfolding checked_output
  checked_output-hides session snapshot signal job w =
      rw (raw_output-hides job.id signal snapshot.context) (
        check-hides
          (session.customer_id ∷ session.id ∷ snapshot.graph_thread_id ∷ snapshot.id ∷ job.id ∷ [])
          (raw_output rest job.id signal snapshot.context) w)

  settle_job-hides :
      (job : AgentJob) (r : Result AgentJobOutput) (w : World)
      → settle_job full job r w ≡ settle_job rest job r w
  unfolding settle_job finish_job
  settle_job-hides job (ok out) w = refl
  settle_job-hides job (err e) w = refl

  -- In the mode `codex_cli`, for settings that have been read: if the environment of the process has a
  -- variable that is not on the list of safe ones while a job runs, a secret for instance, the worker
  -- does not get it, so that the job's result and what it stores are the same without it.
  pub run_job-hides :
      (session : AgentSession) (snapshot : DataSnapshot) (signal : SignalEnvelope) (w : World)
      → run_job (with_environ env (before ++ (key, value) ∷ after)) session snapshot signal w
        ≡ run_job (with_environ env (before ++ after)) session snapshot signal w
  unfolding run_job new_job try_job
  run_job-hides session snapshot signal w =
      rw (checked_output-hides session snapshot signal, settle_job-hides) refl

-- An output of a Codex worker that was let through: it stands in a file of at most the configured
-- size, and says neither that the context was unreadable nor an identifier of the run; the job's
-- assessment and proposals are the output's.
pub record IsGrounded (env : Env) (session : AgentSession) (snapshot : DataSnapshot)
    (signal : SignalEnvelope) (w : World) (r : JobResult) : Type 0 where
  pub size : ℕ
  pub text : String
  pub written : end_of env signal snapshot w ≡ wrote size (some text)
  pub bounded : size ≤ env.settings.agent_job_output_max_bytes
  pub raw : Json
  pub loaded : env.json_of_text text ≡ some raw
  pub grounded : is_ungrounded env raw ≡ false
  pub hides : is_leaking (forbidden_values env session snapshot w) (env.json_text raw) ≡ false
  pub valid : IsParsed env raw r.assessment r.plan

-- An output that a process left.
record IsRead (env : Env) (end : WorkerEnd) (raw : Json) : Type 0 where
  size : ℕ
  text : String
  written : end ≡ wrote size (some text)
  bounded : size ≤ env.settings.agent_job_output_max_bytes
  loaded : env.json_of_text text ≡ some raw
  grounded : is_ungrounded env raw ≡ false

read_output-IsRead :
    (env : Env) (end : WorkerEnd) (raw : Json) → read_output env end ≡ ok raw → IsRead env end raw
unfolding read_output load_output reject_context_unavailable_output
read_output-IsRead env failed raw h = absurd (ground arith)
read_output-IsRead env timed_out raw h = absurd (ground arith)
read_output-IsRead env not_found raw h = absurd (ground arith)
read_output-IsRead env (wrote size none) raw h = absurd (ground arith)
read_output-IsRead env (wrote size (some text)) raw h = record {
  size = size;
  text = text;
  written = refl;
  bounded = ground arith;
  loaded = ground arith;
  grounded = ground arith;
}

-- If a job in the mode `codex_cli` returns, its assessment and proposals are those of an output that
-- stands in the file of the spawned worker, which is no larger than the configured maximum, has no
-- phrase that says that the context was unreadable, and does not leak.
pub run_job-IsGrounded :
    (env : Env) (session : AgentSession) (snapshot : DataSnapshot) (signal : SignalEnvelope)
    (w w' : World) (r : JobResult)
    → env.settings.agent_job_mode ≡ codex_cli
    → run_job env session snapshot signal w ≡ (ok r, w')
    → IsGrounded env session snapshot signal w r
unfolding run_codex_cli
run_job-IsGrounded env session snapshot signal w w' r mode runs =
    let checked = run_job-IsChecked env session snapshot signal w w' r runs in
    let good = read_output-IsRead env (end_of env signal snapshot w) checked.raw (
      sym (worker_output env (env.new_uuid w.ticks) signal snapshot.context mode)
      ∙ checked.produced) in
    record {
      size = good.size;
      text = good.text;
      written = good.written;
      bounded = good.bounded;
      raw = checked.raw;
      loaded = good.loaded;
      grounded = good.grounded;
      hides = checked.hides;
      valid = checked.valid;
    }
