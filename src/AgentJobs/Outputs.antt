-- ===== src/AgentJobs/Outputs.antt =====
-- What app/agent_jobs/dispatcher.py makes of the end of a worker's process and of its raw output.
use mathlib.Core.Path.{ap}
use jb_wm_backend.Base.{
  arith, ℕ, ◌<◌, ltb, String, ◌≡◌, ◌≢◌, refl, ◌∙◌, true, Option, none, some, Option-cases,
  Bool-cases, inl, inr,
}
use jb_wm_backend.Json.{Json, null, bool, int, float, str, arr, obj, Fields, get}
use jb_wm_backend.Planning.{NeedAssessment, Plan, AgentJobOutput}
use jb_wm_backend.Database.{Error, ok, err, exception}
use jb_wm_backend.Environment.{Env, WorkerEnd, failed, timed_out, not_found, wrote}
use jb_wm_backend.AgentJobs.Codex.{
  is_ungrounded, reject_context_unavailable_output, load_output, read_output,
}
use jb_wm_backend.AgentJobs.{planned, assessed, parsed}

-- The assessment and the plan that a raw output has, and what the job makes of them.
pub record IsParsed (env : Env) (raw : Json) (assessment : NeedAssessment) (plan : Plan)
    : Type 0 where
  pub items : Fields
  pub dictionary : raw ≡ obj items
  pub assessment_json : Json
  pub has_assessment : get "assessment" items ≡ some assessment_json
  pub valid_assessment : env.validate_assessment assessment_json ≡ some assessment
  pub plan_json : Json
  pub has_plan : get "plan" items ≡ some plan_json
  pub own_plan : Plan
  pub valid_plan : env.validate_plan plan_json ≡ some own_plan
  pub assessed_plan : plan.assessment ≡ some assessment
  pub same_proposals : plan.proposals ≡ own_plan.proposals

-- Why a Codex worker gives no output, with the exception that this raises.
pub data WorkerFails (env : Env) (end : WorkerEnd) : Error → Type 0 where
  process_failed : end ≡ failed → WorkerFails env end (exception "RuntimeError")
  out_of_time : end ≡ timed_out → WorkerFails env end (exception "TimeoutExpired")
  no_file : end ≡ not_found → WorkerFails env end (exception "FileNotFoundError")
  too_large :
      (size : ℕ) (text : Option String)
      → end ≡ wrote size text
      → env.settings.agent_job_output_max_bytes < size
      → WorkerFails env end (exception "ValueError")
  no_text :
      (size : ℕ) → end ≡ wrote size none → WorkerFails env end (exception "UnicodeDecodeError")
  no_json :
      (size : ℕ) (text : String)
      → end ≡ wrote size (some text)
      → env.json_of_text text ≡ none
      → WorkerFails env end (exception "JSONDecodeError")
  ungrounded :
      (size : ℕ) (text : String) (raw : Json)
      → end ≡ wrote size (some text)
      → env.json_of_text text ≡ some raw
      → is_ungrounded env raw ≡ true
      → WorkerFails env end (exception "RuntimeError")

-- Why a raw output is not valid, with the exception that this raises.
pub data IsInvalid (env : Env) (raw : Json) : Error → Type 0 where
  no_dictionary : ((items : Fields) → raw ≢ obj items) → IsInvalid env raw (exception "TypeError")
  no_assessment :
      (items : Fields)
      → raw ≡ obj items
      → get "assessment" items ≡ none
      → IsInvalid env raw (exception "KeyError")
  bad_assessment :
      (items : Fields) (v : Json)
      → raw ≡ obj items
      → get "assessment" items ≡ some v
      → env.validate_assessment v ≡ none
      → IsInvalid env raw (exception "ValidationError")
  no_plan :
      (items : Fields)
      → raw ≡ obj items
      → get "plan" items ≡ none
      → IsInvalid env raw (exception "KeyError")
  bad_plan :
      (items : Fields) (v : Json)
      → raw ≡ obj items
      → get "plan" items ≡ some v
      → env.validate_plan v ≡ none
      → IsInvalid env raw (exception "ValidationError")

module _ (env : Env) where
  load_output-fails :
      (size : ℕ) (text : Option String) (end : WorkerEnd) (e : Error)
      → end ≡ wrote size text
      → load_output env text ≡ err e
      → WorkerFails env end e
  unfolding load_output reject_context_unavailable_output
  load_output-fails size none end e at h =
      let same : e ≡ exception "UnicodeDecodeError" = ground arith in rw same (no_text size at)
  load_output-fails size (some text) end e at h = elim (Option-cases (env.json_of_text text)) [
    | inl none_read ↦
        let same : e ≡ exception "JSONDecodeError" = ground arith in
        rw same (no_json size text at none_read)
    | inr (raw, loaded) ↦ elim (Bool-cases (is_ungrounded env raw)) [
      | inl says ↦
          let same : e ≡ exception "RuntimeError" = ground arith in
          rw same (ungrounded size text raw at loaded says)
      | inr quiet ↦ absurd (ground arith)
    ]
  ]

  pub read_output-fails :
      (end : WorkerEnd) (e : Error) → read_output env end ≡ err e → WorkerFails env end e
  unfolding read_output
  read_output-fails failed e h =
      let same : e ≡ exception "RuntimeError" = ground arith in rw same (process_failed refl)
  read_output-fails timed_out e h =
      let same : e ≡ exception "TimeoutExpired" = ground arith in rw same (out_of_time refl)
  read_output-fails not_found e h =
      let same : e ≡ exception "FileNotFoundError" = ground arith in rw same (no_file refl)
  read_output-fails (wrote size text) e h =
      elim (Bool-cases (ltb env.settings.agent_job_output_max_bytes size)) [
        | inl large ↦
            let same : e ≡ exception "ValueError" = ground arith in
            rw same (too_large size text refl (ground arith))
        | inr fits ↦ load_output-fails size text (wrote size text) e refl (ground arith)
      ]

  planned-IsInvalid :
      (items : Fields) (a : NeedAssessment) (e : Error)
      → planned env items a (get "plan" items) ≡ err e
      → IsInvalid env (obj items) e
  unfolding planned
  planned-IsInvalid items a e h = elim (Option-cases (get "plan" items)) [
    | inl missing ↦
        let same : e ≡ exception "KeyError" = ground arith in rw same (no_plan items refl missing)
    | inr (v, has) ↦ elim (Option-cases (env.validate_plan v)) [
      | inl bad ↦
          let same : e ≡ exception "ValidationError" = ground arith in
          rw same (bad_plan items v refl has bad)
      | inr (plan, valid) ↦ absurd (ground arith)
    ]
  ]

  assessed-IsInvalid :
      (items : Fields) (e : Error)
      → assessed env items (get "assessment" items) ≡ err e
      → IsInvalid env (obj items) e
  unfolding assessed
  assessed-IsInvalid items e h = elim (Option-cases (get "assessment" items)) [
    | inl missing ↦
        let same : e ≡ exception "KeyError" = ground arith in
        rw same (no_assessment items refl missing)
    | inr (v, has) ↦ elim (Option-cases (env.validate_assessment v)) [
      | inl bad ↦
          let same : e ≡ exception "ValidationError" = ground arith in
          rw same (bad_assessment items v refl has bad)
      | inr (a, valid) ↦ planned-IsInvalid items a e (ground arith)
    ]
  ]

  untyped :
      (raw : Json) (e : Error)
      → ((items : Fields) → raw ≢ obj items)
      → parsed env raw ≡ err (exception "TypeError")
      → parsed env raw ≡ err e
      → IsInvalid env raw e
  untyped raw e other typed h =
      let same : e ≡ exception "TypeError" = ground arith in rw same (no_dictionary other)

  pub parsed-IsInvalid : (raw : Json) (e : Error) → parsed env raw ≡ err e → IsInvalid env raw e
  unfolding parsed
  parsed-IsInvalid (obj items) e h = assessed-IsInvalid items e h
  parsed-IsInvalid null e h = untyped null e (λ items same. ground arith) refl h
  parsed-IsInvalid (bool b) e h = untyped (bool b) e (λ items same. ground arith) refl h
  parsed-IsInvalid (int n) e h = untyped (int n) e (λ items same. ground arith) refl h
  parsed-IsInvalid (float x) e h = untyped (float x) e (λ items same. ground arith) refl h
  parsed-IsInvalid (str s) e h = untyped (str s) e (λ items same. ground arith) refl h
  parsed-IsInvalid (arr xs) e h = untyped (arr xs) e (λ items same. ground arith) refl h

  assessed-IsParsed :
      (items : Fields) (out : AgentJobOutput)
      → assessed env items (get "assessment" items) ≡ ok out
      → IsParsed env (obj items) out.assessment out.plan
  unfolding assessed planned
  assessed-IsParsed items out h = elim (Option-cases (get "assessment" items)) [
    | inl missing ↦ absurd (ground arith)
    | inr (v, has) ↦ elim (Option-cases (env.validate_assessment v)) [
      | inl bad ↦ absurd (ground arith)
      | inr (a, valid) ↦ elim (Option-cases (get "plan" items)) [
        | inl missing ↦ absurd (ground arith)
        | inr (pv, has_p) ↦ elim (Option-cases (env.validate_plan pv)) [
          | inl bad ↦ absurd (ground arith)
          | inr (plan, valid_p) ↦
              let same_a : a ≡ out.assessment = ground arith in
              record {
                items = items;
                dictionary = refl;
                assessment_json = v;
                has_assessment = has;
                valid_assessment = valid ∙ ap some same_a;
                plan_json = pv;
                has_plan = has_p;
                own_plan = plan;
                valid_plan = valid_p;
                assessed_plan = ground arith;
                same_proposals = ground arith;
              }
        ]
      ]
    ]
  ]

  pub parsed-IsParsed :
      (raw : Json) (out : AgentJobOutput)
      → parsed env raw ≡ ok out
      → IsParsed env raw out.assessment out.plan
  unfolding parsed
  parsed-IsParsed (obj items) out h = assessed-IsParsed items out h
  parsed-IsParsed null out h = absurd (ground arith)
  parsed-IsParsed (bool b) out h = absurd (ground arith)
  parsed-IsParsed (int n) out h = absurd (ground arith)
  parsed-IsParsed (float x) out h = absurd (ground arith)
  parsed-IsParsed (str s) out h = absurd (ground arith)
  parsed-IsParsed (arr xs) out h = absurd (ground arith)
