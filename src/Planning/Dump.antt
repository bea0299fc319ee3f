-- ===== src/Planning/Dump.antt =====
-- `model_dump` of the planning schemas (app/planning/schemas.py): an execution step and the execution
-- parameters without the absent ones, as app/workflows/nodes.py calls it, and an assessment and a plan,
-- as app/agent_jobs/local_stub.py does.
use jb_wm_backend.Base.{String, Option, none, some, List, [], ◌∷◌}
use jb_wm_backend.Json.{
  Json, Float, int, float, str, bool, arr, obj, null, Items, nil, item, Fields, end, field, dict,
  opt_str, ℤ,
}
use jb_wm_backend.Planning.Schemas.{
  ExecutionStep, ExecutionParams, NeedAssessment, PrimaryNeed, PlanStrategy, ActionProposalSchema,
  Plan, action_text, level_text, need_text, kind_text,
}

abbrev opt_int : Option ℤ → Json
opt_int none = null
opt_int (some n) = int n

-- `step.model_dump()`
abbrev pub dump_step : ExecutionStep → Json
dump_step s = obj (
    dict (
      ("action", str (action_text s.action))
      ∷ ("target", str s.target)
      ∷ ("amount_krw", opt_int s.amount_krw)
      ∷ ("current_value", opt_str s.current_value)
      ∷ ("target_value", opt_str s.target_value)
      ∷ ("reason", str s.reason)
      ∷ ("requires_customer_approval", bool s.requires_customer_approval)
      ∷ []))

abbrev pub dump_steps : List ExecutionStep → Items
dump_steps [] = nil
dump_steps (s ∷ ss) = item (dump_step s) (dump_steps ss)

-- One field of a dump with `exclude_none=True`.
abbrev present : String → Option Json → Fields → Fields
present k none fs = fs
present k (some v) fs = field k v fs

abbrev as_json {ℓ} : {A : Type ℓ} → (A → Json) → Option A → Option Json
as_json f none = none
as_json f (some a) = some (f a)

-- `execution_params.model_dump(exclude_none=True)`
abbrev pub dump_params : ExecutionParams → Fields
dump_params p = present "target_high_risk_weight" (as_json float p.target_high_risk_weight) (
    present "target_low_risk_weight" (as_json float p.target_low_risk_weight) (
      present "liquidity_buffer_krw" (as_json int p.liquidity_buffer_krw) (
        present "insurance_review_reason" (as_json str p.insurance_review_reason) (
          present "report_focus" (as_json str p.report_focus)
            (present "notes" (as_json str p.notes) end)))))

abbrev opt_float : Option Float → Json
opt_float none = null
opt_float (some x) = float x

-- `execution_params.model_dump()`
abbrev dump_all_params : ExecutionParams → Fields
dump_all_params p = dict (
    ("target_high_risk_weight", opt_float p.target_high_risk_weight)
    ∷ ("target_low_risk_weight", opt_float p.target_low_risk_weight)
    ∷ ("liquidity_buffer_krw", opt_int p.liquidity_buffer_krw)
    ∷ ("insurance_review_reason", opt_str p.insurance_review_reason)
    ∷ ("report_focus", opt_str p.report_focus)
    ∷ ("notes", opt_str p.notes)
    ∷ [])

-- `assessment.model_dump()`
abbrev pub dump_assessment : NeedAssessment → Fields
dump_assessment a = dict (
    ("medical_cost_need", str (level_text a.medical_cost_need))
    ∷ ("insurance_need", str (level_text a.insurance_need))
    ∷ ("cashflow_need", str (level_text a.cashflow_need))
    ∷ ("asset_defense_need", str (level_text a.asset_defense_need))
    ∷ ("investment_adjust_need", str (level_text a.investment_adjust_need))
    ∷ ("life_plan_need", str (level_text a.life_plan_need))
    ∷ ("primary_need", str (need_text a.primary_need))
    ∷ ("confidence", float a.confidence)
    ∷ ("rationale", str a.rationale)
    ∷ ("preference_update_only", bool a.preference_update_only)
    ∷ ("no_action", bool a.is_no_action)
    ∷ ("clarifying_question", opt_str a.clarifying_question)
    ∷ [])

abbrev dump_needs : List PrimaryNeed → Items
dump_needs [] = nil
dump_needs (n ∷ ns) = item (str (need_text n)) (dump_needs ns)

abbrev dump_texts : List String → Items
dump_texts [] = nil
dump_texts (s ∷ ss) = item (str s) (dump_texts ss)

abbrev dump_strategy : Option PlanStrategy → Json
dump_strategy none = null
dump_strategy (some s) = obj (
    dict (
      ("title", str s.title)
      ∷ ("objective", str s.objective)
      ∷ ("priority_order", arr (dump_needs s.priority_order))
      ∷ ("rationale", str s.rationale)
      ∷ ("risk_controls", arr (dump_texts s.risk_controls))
      ∷ []))

abbrev dump_proposal : ActionProposalSchema → Json
dump_proposal p = obj (
    dict (
      ("kind", str (kind_text p.kind))
      ∷ ("summary", str p.summary)
      ∷ ("has_external_effect", bool p.has_external_effect)
      ∷ ("execution_summary", str p.execution_summary)
      ∷ ("execution_steps", arr (dump_steps p.execution_steps))
      ∷ ("execution_params", obj (dump_all_params p.execution_params))
      ∷ ("params", obj p.params)
      ∷ ("rationale", str p.rationale)
      ∷ []))

abbrev dump_proposals : List ActionProposalSchema → Items
dump_proposals [] = nil
dump_proposals (p ∷ ps) = item (dump_proposal p) (dump_proposals ps)

abbrev dump_assessed : Option NeedAssessment → Json
dump_assessed none = null
dump_assessed (some a) = obj (dump_assessment a)

-- `plan.model_dump()`
abbrev pub dump_plan : Plan → Fields
dump_plan p = dict (
    ("strategy", dump_strategy p.strategy)
    ∷ ("proposals", arr (dump_proposals p.proposals))
    ∷ ("explanation", str p.explanation)
    ∷ ("assessment", dump_assessed p.assessment)
    ∷ [])
