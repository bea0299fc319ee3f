-- ===== src/Planning/Schemas.antt =====
-- The classes of app/planning/schemas.py. Pydantic checks them at the boundary; inside the program
-- the values are typed, and a `Literal` is an enumeration.
use jb_wm_backend.Base.{
  String, Bool, true, false, ◌≡◌, refl, Option, none, some, List, [], ◌∷◌, any, is_some, ◌==◌,
  if◌then◌else◌,
}
use jb_wm_backend.Json.{ℤ, Float, Fields}

-- `NeedLevel`; the literal "none" is `no_need`.
pub data NeedLevel : Type 0 where
  no_need low mid high : NeedLevel

-- `PrimaryNeed`; the literal "none" is `no_primary`.
pub data PrimaryNeed : Type 0 where
  medical_cost insurance cashflow asset_defense investment_adjust life_plan : PrimaryNeed
  preference_update no_primary : PrimaryNeed

pub data ActionKind : Type 0 where
  book_hospital review_insurance cashflow_plan rebalance_portfolio notify report : ActionKind

-- `ExecutionAction`; `notify` and `none` are `send_notice` and `no_action`.
pub data ExecutionAction : Type 0 where
  sell buy move_to_cash create_report review request send_notice book no_action : ExecutionAction

pub record PlanStrategy : Type 0 where
  pub title : String
  pub objective : String
  pub priority_order : List PrimaryNeed
  pub rationale : String
  pub risk_controls : List String

pub record ExecutionStep : Type 0 where
  pub action : ExecutionAction
  pub target : String
  pub amount_krw : Option ℤ
  pub current_value : Option String
  pub target_value : Option String
  pub reason : String
  pub requires_customer_approval : Bool

pub record ExecutionParams : Type 0 where
  pub target_high_risk_weight : Option Float
  pub target_low_risk_weight : Option Float
  pub liquidity_buffer_krw : Option ℤ
  pub insurance_review_reason : Option String
  pub report_focus : Option String
  pub notes : Option String

pub record NeedAssessment : Type 0 where
  pub medical_cost_need : NeedLevel
  pub insurance_need : NeedLevel
  pub cashflow_need : NeedLevel
  pub asset_defense_need : NeedLevel
  pub investment_adjust_need : NeedLevel
  pub life_plan_need : NeedLevel
  pub primary_need : PrimaryNeed
  pub confidence : Float
  pub rationale : String
  pub preference_update_only : Bool
  pub is_no_action : Bool
  pub clarifying_question : Option String

pub record ActionProposalSchema : Type 0 where
  pub kind : ActionKind
  pub summary : String
  pub has_external_effect : Bool
  pub execution_summary : String
  pub execution_steps : List ExecutionStep
  pub execution_params : ExecutionParams
  pub params : Fields
  pub rationale : String

pub record Plan : Type 0 where
  pub strategy : Option PlanStrategy
  pub proposals : List ActionProposalSchema
  pub explanation : String
  pub assessment : Option NeedAssessment

pub record AgentJobOutput : Type 0 where
  pub assessment : NeedAssessment
  pub plan : Plan
  pub message : String

-- `NeedAssessment.needs_clarification`
pub needs_clarification : NeedAssessment → Bool
needs_clarification a = is_some a.clarifying_question

abbrev is_needed : NeedLevel → Bool
is_needed no_need = false
is_needed _ = true

-- `NeedAssessment.has_actionable_need`
pub has_actionable_need : NeedAssessment → Bool
has_actionable_need a = any is_needed (
    a.medical_cost_need ∷ a.insurance_need ∷ a.cashflow_need ∷ a.asset_defense_need
    ∷ a.investment_adjust_need ∷ a.life_plan_need ∷ [])

-- `ExecutionParams()`
abbrev pub no_params : ExecutionParams
no_params = record {
  target_high_risk_weight = none;
  target_low_risk_weight = none;
  liquidity_buffer_krw = none;
  insurance_review_reason = none;
  report_focus = none;
  notes = none;
}

-- The text of an action kind.
abbrev pub kind_text : ActionKind → String
kind_text book_hospital = "book_hospital"
kind_text review_insurance = "review_insurance"
kind_text cashflow_plan = "cashflow_plan"
kind_text rebalance_portfolio = "rebalance_portfolio"
kind_text notify = "notify"
kind_text report = "report"

-- The check of a text against the literals of `ActionKind`.
unfoldable pub parse_kind : String → Option ActionKind
parse_kind t =
    if t == "book_hospital"
    then some book_hospital
    else if t == "review_insurance"
    then some review_insurance
    else if t == "cashflow_plan"
    then some cashflow_plan
    else if t == "rebalance_portfolio"
    then some rebalance_portfolio
    else if t == "notify"
    then some notify
    else if t == "report"
    then some report
    else none

pub parse_kind-kind_text : (k : ActionKind) → parse_kind (kind_text k) ≡ some k
unfolding parse_kind
parse_kind-kind_text book_hospital = refl
parse_kind-kind_text _ = refl

-- The text of a need level and of a primary need.
abbrev pub level_text : NeedLevel → String
level_text no_need = "none"
level_text low = "low"
level_text mid = "mid"
level_text high = "high"

abbrev pub need_text : PrimaryNeed → String
need_text medical_cost = "medical_cost"
need_text insurance = "insurance"
need_text cashflow = "cashflow"
need_text asset_defense = "asset_defense"
need_text investment_adjust = "investment_adjust"
need_text life_plan = "life_plan"
need_text preference_update = "preference_update"
need_text no_primary = "none"

abbrev pub action_text : ExecutionAction → String
action_text sell = "sell"
action_text buy = "buy"
action_text move_to_cash = "move_to_cash"
action_text create_report = "create_report"
action_text review = "review"
action_text request = "request"
action_text send_notice = "notify"
action_text book = "book"
action_text no_action = "none"
