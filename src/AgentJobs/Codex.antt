-- ===== src/AgentJobs/Codex.antt =====
-- app/agent_jobs/dispatcher.py, `_run_codex_cli`: the command, the environment and the checks of a
-- Codex worker. The process itself and the job's files are parameters.
pub mod Laws
use Prim.Native.String.{◌++◌}
use mathlib.Core.List.{◌++◌ as append}
use jb_wm_backend.Base.{
  ℕ, String, Bool, true, Option, none, some, List, [], ◌∷◌, ◌==◌, if◌then◌else◌, any, ltb, truthy,
  contains_any,
}
use jb_wm_backend.Json.{Json, Fields}
use jb_wm_backend.Database.{Result, ok, err, exception}
use jb_wm_backend.Models.{SignalEnvelope}
use jb_wm_backend.Environment.{Env, WorkerEnd, failed, timed_out, not_found, wrote}

-- The literals that Python joins to the prompt.
abbrev prompt_parts : List String
prompt_parts =
    "You are a sandboxed JB-WM planning worker. The complete sanitized "
    ∷ "customer context JSON is appended on stdin; context.json in this "
    ∷ "directory contains the same payload for audit/debug inspection. Use "
    ∷ "only that provided JSON. Do not access DB, external APIs, customer "
    ∷ "records outside the provided context, or execution tools. Your final "
    ∷ "response must be valid JSON only and must match output_schema.json "
    ∷ "exactly. Use these top-level keys: assessment, plan, and message. "
    ∷ "plan must include strategy, proposals, explanation, and assessment. "
    ∷ "First write plan.strategy as the high-level direction: objective, "
    ∷ "priority_order, rationale, and risk_controls. Then create proposals "
    ∷ "that follow that strategy. Each proposal must include a customer-readable "
    ∷ "execution_summary, concrete execution_steps, and machine-readable "
    ∷ "execution_params. Do not jump directly from signal to action without "
    ∷ "making the strategy explicit in plan.strategy. In execution_params, "
    ∷ "use null for fields that are not relevant to the proposal. "
    ∷ "Each proposal must use one of these kinds: book_hospital, "
    ∷ "review_insurance, cashflow_plan, rebalance_portfolio, notify, report. "
    ∷ "The signal is the trigger. For financial API signals such as "
    ∷ "portfolio_loss, spending_spike, income_drop, repayment_pressure, "
    ∷ "card_payment_pressure, or loan pressure, prioritize investment, "
    ∷ "cashflow, insurance, loan, card, and account evidence. Treat health "
    ∷ "or medical context as background only unless the signal explicitly "
    ∷ "asks for medical care. For portfolio_loss, do not make book_hospital "
    ∷ "the first proposal. If you propose rebalance_portfolio, mark it as "
    ∷ "has_external_effect=true because real portfolio changes require "
    ∷ "customer approval and executor verification. For rebalance_portfolio, "
    ∷ "set execution_params.target_high_risk_weight and "
    ∷ "execution_params.target_low_risk_weight, and describe the sell/buy or "
    ∷ "move_to_cash steps in execution_steps using the portfolio allocation "
    ∷ "available in context. " ∷ "Do not say you cannot read context.json; the context is already "
    ∷ "provided below through stdin. Do not wrap the response in Markdown." ∷ []

abbrev concat : List String → String
concat [] = ""
concat (s ∷ ss) = s ++ concat ss

abbrev pub prompt : String
prompt = concat prompt_parts

-- `SAFE_ENV_ALLOWLIST`
abbrev pub safe_env_allowlist : List String
safe_env_allowlist = "PATH" ∷ "LANG" ∷ "LC_ALL" ∷ "TMPDIR" ∷ []

-- The dictionary comprehension over `os.environ`.
unfoldable pub safe_env : List (String × String) → List (String × String)
safe_env [] = []
safe_env ((key, value) ∷ rest) =
    if any (λ k. k == key) safe_env_allowlist then (key, value) ∷ safe_env rest else safe_env rest

-- `blocked_phrases`
abbrev pub blocked_phrases : List String
blocked_phrases =
    "cannot read context.json" ∷ "can't read context.json" ∷ "cannot access context.json"
    ∷ "can't access context.json" ∷ "cannot read the provided context"
    ∷ "cannot access the provided context" ∷ "no access to context.json" ∷ "context.json을 읽을 수 없습니다"
    ∷ "context.json을 읽을 수 없" ∷ "컨텍스트를 읽을 수 없습니다" ∷ "제공된 컨텍스트를 읽을 수 없" ∷ []

module _ (env : Env) where
  -- The flags that `_append_codex_model_flags` adds.
  abbrev pub codex_model_flags : List String
  codex_model_flags =
      append
        (if truthy env.settings.agent_job_codex_model
          then "--model" ∷ env.settings.agent_job_codex_model ∷ []
          else [])
        (if truthy env.settings.agent_job_codex_reasoning_effort
          then "-c"
            ∷ ("model_reasoning_effort=\""
                ++ (env.settings.agent_job_codex_reasoning_effort ++ "\""))
            ∷ []
          else [])

  -- The command of a job.
  abbrev pub codex_command : String → List String
  codex_command id =
      env.settings.codex_command
      ∷ "exec"
      ∷ "--sandbox"
      ∷ "read-only"
      ∷ "--skip-git-repo-check"
      ∷ "--ephemeral"
      ∷ "--color"
      ∷ "never"
      ∷ "--output-schema"
      ∷ env.job_path id "output_schema.json"
      ∷ "--output-last-message"
      ∷ env.job_path id "output.json"
      ∷ "-C"
      ∷ env.job_path id ""
      ∷ append codex_model_flags (prompt ∷ [])

  -- The test of `_reject_context_unavailable_output`.
  unfoldable pub is_ungrounded : Json → Bool
  is_ungrounded raw = contains_any blocked_phrases (env.lower (env.json_text raw))

  -- `_reject_context_unavailable_output`
  unfoldable pub reject_context_unavailable_output : Json → Result Json
  reject_context_unavailable_output raw =
      if is_ungrounded raw then err (exception "RuntimeError") else ok raw

  -- `json.loads` of the output's text, and the test of what it says.
  unfoldable pub load_output : Option String → Result Json
  load_output none = err (exception "UnicodeDecodeError")
  load_output (some text) = elim (env.json_of_text text) [
    | some raw ↦ reject_context_unavailable_output raw
    | none ↦ err (exception "JSONDecodeError")
  ]

  -- What a process leaves, once it has ended.
  unfoldable pub read_output : WorkerEnd → Result Json
  read_output failed = err (exception "RuntimeError")
  read_output timed_out = err (exception "TimeoutExpired")
  read_output not_found = err (exception "FileNotFoundError")
  read_output (wrote size text) =
      if ltb env.settings.agent_job_output_max_bytes size
      then err (exception "ValueError")
      else load_output text

  -- `_run_codex_cli`
  unfoldable pub run_codex_cli : String → SignalEnvelope → Fields → Result Json
  run_codex_cli id signal context =
      read_output
        (env.spawn (codex_command id) (safe_env env.environ) (env.context_text signal context))
