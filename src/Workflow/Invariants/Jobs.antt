-- ===== src/Workflow/Invariants/Jobs.antt =====
-- A run of an agent job keeps every such invariant.
use jb_wm_backend.Base.{String}
use jb_wm_backend.Models.{AgentSession, AgentJob, DataSnapshot, SignalEnvelope, JobOutcome}
use jb_wm_backend.Planning.{AgentJobOutput}
use jb_wm_backend.Database.{Db, Result, ok, err}
use jb_wm_backend.Database.Keeps.{Keeps, keeps_rules, pure-Keeps, raise-Keeps}
use jb_wm_backend.Environment.{Env}
use jb_wm_backend.AgentJobs.{
  new_job, checked_output, reject_forbidden_output_identifiers, finish_job, settle_job, try_job,
  run_job, from_result,
}
use jb_wm_backend.Workflow.Invariants.Rules.{IsInvariant, other-Keeps}

module _ {env : Env} {P : Db → Type 0} (inv : IsInvariant env P) where
  new_job-Keeps : (snapshot : DataSnapshot) → Keeps P (new_job env snapshot)
  unfolding new_job
  new_job-Keeps snapshot = search (keeps_rules, other-Keeps) depth 20

  from_result-Keeps : {A : Type 0} (r : Result A) → Keeps P (from_result r)
  from_result-Keeps (ok a) = pure-Keeps a
  from_result-Keeps (err e) = raise-Keeps e

  checked_output-Keeps :
      (session : AgentSession) (snapshot : DataSnapshot) (signal : SignalEnvelope) (job : AgentJob)
      → Keeps P (checked_output env session snapshot signal job)
  unfolding checked_output reject_forbidden_output_identifiers
  checked_output-Keeps session snapshot signal job =
      search (keeps_rules, from_result-Keeps) depth 20

  finish_job-Keeps :
      (job : AgentJob) (status : String) (outcome : JobOutcome)
      → Keeps P (finish_job env job status outcome)
  unfolding finish_job
  finish_job-Keeps job status outcome = search (keeps_rules, other-Keeps) depth 20

  settle_job-Keeps :
      (job : AgentJob) (out : Result AgentJobOutput) → Keeps P (settle_job env job out)
  unfolding settle_job
  settle_job-Keeps job (ok out) = search (keeps_rules, finish_job-Keeps)
  settle_job-Keeps job (err e) = search (keeps_rules, finish_job-Keeps)

  try_job-Keeps :
      (session : AgentSession) (snapshot : DataSnapshot) (signal : SignalEnvelope) (job : AgentJob)
      → Keeps P (try_job env session snapshot signal job)
  unfolding try_job
  try_job-Keeps session snapshot signal job = record {
    at = λ w h.
        let (out, w') = checked_output env session snapshot signal job w in
        (settle_job-Keeps job out).at w'
          ((checked_output-Keeps session snapshot signal job).at w h);
  }

  pub run_job-Keeps :
      (session : AgentSession) (snapshot : DataSnapshot) (signal : SignalEnvelope)
      → Keeps P (run_job env session snapshot signal)
  unfolding run_job
  run_job-Keeps session snapshot signal = search (keeps_rules, new_job-Keeps, try_job-Keeps)
