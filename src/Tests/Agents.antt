-- ===== src/Tests/Agents.antt =====
-- The theorems on redaction, signals and agent jobs at concrete inputs.
use jb_wm_backend.Base.{String, List, ◌∷◌, ◌++◌, ◌≡◌, refl, some, [], contains}
use jb_wm_backend.Json.{Fields, str, obj, arr, nil, item, end, field, get, truth}
use jb_wm_backend.Planning.{AgentJobOutput}
use jb_wm_backend.Models.{user_utterance, Severity, SignalEnvelope, output}
use jb_wm_backend.Database.{World, Result, ok, err, http}
use jb_wm_backend.Redaction.{redact, sanitize}
use jb_wm_backend.Redaction.Laws.{
  IsRedacted, redact-IsRedacted, redacted_at, context_at, get-sanitize,
}
use jb_wm_backend.AgentJobs.{
  JobResult, run_job, new_job, try_job, checked_output, reject_forbidden_output_identifiers,
  settle_job, finish_job, raw_output, is_leaking, parsed, assessed, planned,
}
use jb_wm_backend.AgentJobs.Codex.{
  run_codex_cli, safe_env, read_output, reject_context_unavailable_output, load_output,
  is_ungrounded,
}
use jb_wm_backend.AgentJobs.Codex.Laws.{with_environ, run_job-hides, IsGrounded, run_job-IsGrounded}
use jb_wm_backend.AgentJobs.Checked.{IsChecked, IsFailure, run_job-IsChecked, run_job-IsFailure}
use jb_wm_backend.Tests.Samples.{environment, world, session, snapshot, signal, assessment, plan}

-- A context with identifiers at two depths.
abbrev raw : Fields
raw = field "customer_id" (str "c1") (
    field "profile" (obj (field "name" (str "Kim") (field "age_band" (str "30s") end)))
      (field "loans" (arr (item (obj (field "loan_id" (str "l1") end)) nil)) end))

redact-IsRedacted_example : IsRedacted (redact (obj raw))
redact-IsRedacted_example = redact-IsRedacted (obj raw)

get-sanitize_example : get "loans" (sanitize raw) ≡ redacted_at "loans" (context_at "loans" raw)
get-sanitize_example = get-sanitize "loans" raw

-- A message about a card payment.
abbrev message : Fields
message = field "text" (str "카드") end

-- The signal of the message.
abbrev card_signal : SignalEnvelope
card_signal = record {
  source = user_utterance;
  kind = "upcoming_card_payment_pressure";
  severity = Severity.mid;
  payload = message;
  rationale = "수동 또는 외부 이벤트 입력으로 전달된 신호입니다.";
}

abbrev good_output : AgentJobOutput
good_output = record {
  assessment = assessment;
  plan = record plan { assessment = some assessment };
  message = "routine_check";
}

abbrev good_run : Result JobResult × World
good_run = run_job environment session snapshot (signal "routine_check") (world [])

abbrev good_result : JobResult
good_result = record {
  job = record {
    id = "uuid";
    graph_thread_id = "t1";
    customer_id = "c1";
    data_snapshot_id = "d1";
    mode = "codex_cli";
    status = "completed";
    input_path = "context.json";
    output_path = "output.json";
    result = output good_output;
    created_at = 0;
    updated_at = 1;
  };
  assessment = assessment;
  plan = good_output.plan;
  message = "routine_check";
}

good_run_returns : good_run ≡ (ok good_result, good_run.1)
unfolding run_job new_job try_job checked_output reject_forbidden_output_identifiers settle_job
    finish_job raw_output run_codex_cli safe_env read_output reject_context_unavailable_output
    load_output is_ungrounded parsed assessed planned get truth is_leaking contains
good_run_returns = refl

run_job-IsChecked_example :
    IsChecked environment session snapshot
      (signal "routine_check")
      (world [])
      good_result
      good_run.1
run_job-IsChecked_example =
    run_job-IsChecked environment session snapshot (signal "routine_check") (world []) good_run.1
      good_result good_run_returns

abbrev leak_run : Result JobResult × World
leak_run = run_job environment session snapshot (signal "customer_id") (world [])

leak_run_raises : leak_run ≡ (err (http 422), leak_run.1)
unfolding run_job new_job try_job checked_output reject_forbidden_output_identifiers settle_job
    finish_job raw_output run_codex_cli safe_env read_output reject_context_unavailable_output
    load_output is_ungrounded parsed assessed planned get truth is_leaking contains
leak_run_raises = refl

run_job-IsFailure_example :
    IsFailure environment session snapshot (signal "customer_id") (world []) (http 422) leak_run.1
run_job-IsFailure_example =
    run_job-IsFailure environment session snapshot (signal "customer_id") (world []) leak_run.1
      (http 422) leak_run_raises

run_job-IsGrounded_example :
    IsGrounded environment session snapshot (signal "routine_check") (world []) good_result
run_job-IsGrounded_example =
    run_job-IsGrounded environment session snapshot (signal "routine_check") (world []) good_run.1
      good_result refl good_run_returns

-- The variables of a process that holds a secret.
abbrev path_variable : List (String × String)
path_variable = ("PATH", "/bin") ∷ []

run_job-hides_example :
    run_job
      (with_environ environment (path_variable ++ ("JWT_SECRET", "key") ∷ []))
      session
      snapshot
      (signal "routine_check")
      (world [])
    ≡ run_job
        (with_environ environment (path_variable ++ []))
        session
        snapshot
        (signal "routine_check")
        (world [])
run_job-hides_example =
    run_job-hides environment path_variable [] "JWT_SECRET" "key" refl refl session snapshot
      (signal "routine_check") (world [])
