-- ===== src/AgentJobs/Assess.antt =====
-- app/agent_jobs/local_stub.py: what the planning worker reads of the context, and its three
-- assessments. "gaps_hint" is absent or a text, as the insurance summary builds it.
use Prim.Native.String.{◌++◌}
use jb_wm_backend.Base.{String, Bool, true, false, none, List, [], ◌∷◌, if◌then◌else◌}
use jb_wm_backend.Integers.{ℤ}
use jb_wm_backend.Json.{Json, int, str, Fields, Float}
use jb_wm_backend.Planning.{NeedAssessment, NeedLevel, no_need, PrimaryNeed}
use jb_wm_backend.Environment.{Env}
use jb_wm_backend.Signals.{get_or_null, section}

abbrev text_of : Json → String
text_of (str s) = s
text_of _ = ""

-- The markers of `asset_signal`.
abbrev pub asset_markers : List String
asset_markers =
    "portfolio_loss" ∷ "repayment" ∷ "spending" ∷ "income_drop" ∷ "card_payment_pressure" ∷ []

-- `context["insurance"]["gaps_hint"]`, empty where it is absent.
abbrev pub gaps_hint : Fields → String
gaps_hint context = text_of (get_or_null "gaps_hint" (section "insurance" context))

module _ (env : Env) where
  abbrev pub show : Json → String
  show (str s) = s
  show v = env.numbers.to_text v

  abbrev pub percent : Float → String
  percent x =
      env.numbers.to_text
        (int (env.numbers.round (env.numbers.mul x (env.numbers.hundredths 10000))))
      ++ "%"

  abbrev pub won : ℤ → String
  won n = env.numbers.with_commas n ++ "원"

  unfoldable pub asset_assessment : Bool → Bool → NeedAssessment
  asset_assessment loss gap = record {
    medical_cost_need = NeedLevel.mid;
    insurance_need = if gap then NeedLevel.mid else NeedLevel.low;
    cashflow_need = NeedLevel.high;
    asset_defense_need = NeedLevel.high;
    investment_adjust_need = if loss then NeedLevel.high else NeedLevel.mid;
    life_plan_need = NeedLevel.low;
    primary_need = if loss then PrimaryNeed.investment_adjust else PrimaryNeed.cashflow;
    confidence = env.numbers.hundredths 84;
    rationale = "금융 API 데이터에서 현금흐름/자산방어 신호가 감지되었습니다.";
    preference_update_only = false;
    is_no_action = false;
    clarifying_question = none;
  }

  unfoldable pub insurance_assessment : NeedAssessment
  insurance_assessment = record {
    medical_cost_need = NeedLevel.low;
    insurance_need = NeedLevel.high;
    cashflow_need = NeedLevel.mid;
    asset_defense_need = NeedLevel.low;
    investment_adjust_need = NeedLevel.no_need;
    life_plan_need = NeedLevel.low;
    primary_need = PrimaryNeed.insurance;
    confidence = env.numbers.hundredths 78;
    rationale = "보험 보장 공백 또는 보험료 점검 필요성이 감지되었습니다.";
    preference_update_only = false;
    is_no_action = false;
    clarifying_question = none;
  }

  unfoldable pub routine_assessment : NeedAssessment
  routine_assessment = record {
    medical_cost_need = no_need;
    insurance_need = no_need;
    cashflow_need = no_need;
    asset_defense_need = no_need;
    investment_adjust_need = no_need;
    life_plan_need = no_need;
    primary_need = PrimaryNeed.no_primary;
    confidence = env.numbers.hundredths 40;
    rationale = "강한 조치 필요 신호는 없고 정기 점검 메시지만 생성합니다.";
    preference_update_only = false;
    is_no_action = true;
    clarifying_question = none;
  }
