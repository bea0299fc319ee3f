-- ===== src/AgentJobs/Insurance.antt =====
-- app/agent_jobs/local_stub.py, `_insurance_plan`.
use Prim.Native.String.{◌++◌}
use jb_wm_backend.Base.{String, true, false, none, some, [], ◌∷◌, or_text}
use jb_wm_backend.Json.{Json, str, end, dict}
use jb_wm_backend.Planning.{
  ActionProposalSchema, NeedAssessment, Plan, no_params, ActionKind, ExecutionAction, PrimaryNeed,
}
use jb_wm_backend.Environment.{Env}
use jb_wm_backend.AgentJobs.Assess.{show}

module _ (env : Env) where
  -- The automatic report of `_insurance_plan`.
  unfoldable pub gap_report : String → ActionProposalSchema
  gap_report gap = record {
    kind = ActionKind.report;
    summary = "보험 보장 공백 분석 리포트 (" ++ (gap ++ ")");
    has_external_effect = false;
    execution_summary = gap ++ " 여부와 현재 보험 보장 한도를 리포트로 정리합니다.";
    execution_steps =
        record {
          action = ExecutionAction.create_report;
          target = "보험 보장 공백 분석 리포트";
          amount_krw = none;
          current_value = some gap;
          target_value = some "보장 공백 요약 기록";
          reason = "외부 점검 요청 전에 현재 보장 상태를 고객에게 설명하기 위해 자동 생성합니다.";
          requires_customer_approval = false;
        }
        ∷ [];
    execution_params = record no_params {
      insurance_review_reason = some gap;
      report_focus = some "insurance_gap";
    };
    params = end;
    rationale = "현재 보험 목록과 납입 정보를 정규화해 공백을 요약합니다.";
  }

  -- The review request of `_insurance_plan`, which the customer has to approve.
  unfoldable pub gap_review : String → Json → ActionProposalSchema
  gap_review gap willingness = record {
    kind = ActionKind.review_insurance;
    summary = "보장 공백 점검 요청: " ++ gap;
    has_external_effect = true;
    execution_summary = gap ++ "을 중심으로 기존 보장 한도와 예상 의료비 부담을 비교합니다.";
    execution_steps =
        record {
          action = ExecutionAction.review;
          target = gap;
          amount_krw = none;
          current_value = some "공백 감지";
          target_value = some "점검 요청 및 보장 검토";
          reason = "현재 보험 목록에서 해당 보장이 확인되지 않아 의료비 부담이 커질 수 있습니다.";
          requires_customer_approval = true;
        }
        ∷ [];
    execution_params = record no_params {
      insurance_review_reason = some gap;
      notes = some ("medical_willingness=" ++ show env willingness);
    };
    params = dict (("reason", str gap) ∷ ("willingness", willingness) ∷ []);
    rationale = "방향은 보장 공백 확인과 의료비 대비이며, 보험 점검/청구 준비는 고객 승인 후 Executor가 처리합니다.";
  }

  -- `_insurance_plan`
  unfoldable pub insurance_plan : NeedAssessment → String → Json → Plan
  insurance_plan assessment hint willingness =
      let gap = or_text hint "보험 보장 공백" in
      record {
        strategy = some (record {
          title = "보험 보장 공백을 먼저 확인하기";
          objective = "현재 질병·의료비 위험과 보험 보장 목록을 대조해 고객 부담으로 남는 항목을 줄입니다.";
          priority_order =
              PrimaryNeed.insurance ∷ PrimaryNeed.medical_cost ∷ PrimaryNeed.cashflow ∷ [];
          rationale = "보험 공백 신호가 명확하므로 투자 조정보다 보장 확인과 의료비 부담 점검이 우선입니다.";
          risk_controls = "보험 가입·변경은 고객 승인과 별도 설명 없이 실행하지 않음" ∷ [];
        });
        proposals = gap_report gap ∷ gap_review gap willingness ∷ [];
        explanation = "보험 데이터에서 점검할 항목이 감지되어 리포트와 승인 필요 액션을 준비했습니다.";
        assessment = some assessment;
      }
