-- ===== src/AgentJobs/LocalStub.antt =====
-- app/agent_jobs/local_stub.py, `build_local_stub_output`.
use jb_wm_backend.Base.{
  Bool, ◌||◌, Option, none, some, [], ◌∷◌, if◌then◌else◌, contains, contains_any, truthy,
}
use jb_wm_backend.Json.{pos, Fields}
use jb_wm_backend.Planning.{NeedAssessment, Plan, AgentJobOutput, PrimaryNeed}
use jb_wm_backend.Models.{SignalEnvelope}
use jb_wm_backend.Environment.{Env}
use jb_wm_backend.Signals.{get_or_null, section, int_or_zero, float_or_zero}
use jb_wm_backend.AgentJobs.Assess.{
  asset_markers, gaps_hint, asset_assessment, insurance_assessment, routine_assessment,
}
use jb_wm_backend.AgentJobs.Asset.{asset_plan}
use jb_wm_backend.AgentJobs.Insurance.{insurance_plan}

abbrev bind {ℓ κ} : {A : Type ℓ} {B : Type κ} → Option A → (A → Option B) → Option B
bind none f = none
bind (some a) f = f a

-- `{"assessment": …, "plan": …, "message": plan.explanation}`
abbrev pub output_of : NeedAssessment → Plan → AgentJobOutput
output_of a p = record { assessment = a; plan = p; message = p.explanation }

-- The plan of a routine check.
unfoldable pub routine_plan : NeedAssessment → Plan
routine_plan assessment = record {
  strategy = some (record {
    title = "정기 점검 유지";
    objective = "강한 위험 신호가 없으므로 기존 상태를 기록하고 다음 변화를 기다립니다.";
    priority_order = PrimaryNeed.no_primary ∷ [];
    rationale = "감지된 신호가 약하고 실행 가능한 조치 필요도가 낮습니다.";
    risk_controls = "고객 승인 없는 외부 실행 금지" ∷ [];
  });
  proposals = [];
  explanation = "현재는 실행할 액션 없이 정기 점검만 기록했습니다.";
  assessment = some assessment;
}

module _ (env : Env) where
  -- The branch of a financial signal, absent where Python raises on a malformed amount.
  unfoldable pub asset_output : Bool → Fields → Option AgentJobOutput
  asset_output loss context =
      let accounts = section "liquidity_summary" (section "accounts" context) in
      let portfolio = section "portfolio" context in
      let gap = gaps_hint context in
      let assessment = asset_assessment env loss (truthy gap) in
      bind (float_or_zero env (get_or_null "high_risk_weight" portfolio)) λ high.
        bind (int_or_zero env (get_or_null "available_cash_krw" accounts)) λ cash.
          bind
            (int_or_zero env
              (get_or_null "upcoming_card_payment_krw" (section "card_bills" context)))
            λ card.
              bind
                (if env.numbers.ge high (env.numbers.hundredths 55)
                  then int_or_zero env (get_or_null "total_value" portfolio)
                  else some (pos 0))
                λ total. some (
                  output_of assessment (
                    asset_plan env assessment high total cash card gap
                      (get_or_null "medical_willingness" (section "memory" context))))

  -- `build_local_stub_output`
  unfoldable pub build_local_stub_output : SignalEnvelope → Fields → Option AgentJobOutput
  build_local_stub_output signal context =
      let kind = env.lower signal.kind in
      if contains_any asset_markers kind
      then asset_output (contains "portfolio_loss" kind) context
      else if truthy (gaps_hint context) || contains "insurance" kind
      then some (
          output_of (insurance_assessment env) (
            insurance_plan env (insurance_assessment env) (gaps_hint context)
              (get_or_null "medical_willingness" (section "memory" context))))
      else some (output_of (routine_assessment env) (routine_plan (routine_assessment env)))
