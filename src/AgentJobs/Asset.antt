-- ===== src/AgentJobs/Asset.antt =====
-- app/agent_jobs/local_stub.py, `_asset_plan`.
use Prim.Native.String.{◌++◌}
use mathlib.Core.List.{◌++◌ as append}
use jb_wm_backend.Base.{String, true, false, none, some, List, [], ◌∷◌, if◌then◌else◌, truthy}
use jb_wm_backend.Integers.{ℤ, ◌-ℤ◌, max_zero}
use jb_wm_backend.Json.{Json, int, float, str, Float, dict}
use jb_wm_backend.Planning.{
  ActionProposalSchema, NeedAssessment, Plan, no_params, ActionKind, ExecutionAction, PrimaryNeed,
}
use jb_wm_backend.Environment.{Env}
use jb_wm_backend.AgentJobs.Assess.{show, percent, won}

module _ (env : Env) where
  -- The automatic report of `_asset_plan`.
  unfoldable pub asset_report : ℤ → ℤ → ActionProposalSchema
  asset_report cash card = record {
    kind = ActionKind.report;
    summary = "현금흐름·자산방어 리스크 리포트 생성";
    has_external_effect = false;
    execution_summary = "가용 현금, 카드 청구, 대출 상환, 포트폴리오 위험도를 하나의 리포트로 정리합니다.";
    execution_steps =
        record {
          action = ExecutionAction.create_report;
          target = "현금흐름·자산방어 리포트";
          amount_krw = none;
          current_value = some ("가용 현금 " ++ (won env cash ++ (" / 예정 카드결제 " ++ won env card)));
          target_value = some "리스크 요약 기록";
          reason = "승인 전 고객에게 현재 부담 요인을 먼저 설명하기 위해 자동 생성합니다.";
          requires_customer_approval = false;
        }
        ∷ [];
    execution_params = record no_params {
      liquidity_buffer_krw = some cash;
      report_focus = some "cashflow_asset_defense";
    };
    params = dict (("available_cash_krw", int cash) ∷ ("upcoming_card_payment_krw", int card) ∷ []);
    rationale = "계좌 잔액, 카드 청구, 대출 상환, 포트폴리오 위험도를 종합합니다.";
  }

  -- The automatic cashflow plan of `_asset_plan`.
  unfoldable pub cashflow_proposal : ℤ → ActionProposalSchema
  cashflow_proposal cash = record {
    kind = ActionKind.cashflow_plan;
    summary = "3개월 현금흐름 방어 플랜 생성";
    has_external_effect = false;
    execution_summary = "향후 3개월 동안 결제·상환·의료비에 대비할 현금 완충 목표를 계산합니다.";
    execution_steps =
        record {
          action = ExecutionAction.create_report;
          target = "3개월 현금흐름 방어 플랜";
          amount_krw = some cash;
          current_value = some ("가용 현금 " ++ won env cash);
          target_value = some "3개월 완충 목표와 부족분 계산";
          reason = "투자 조정 전에 생활비와 의료비 지출을 버틸 수 있는지 확인합니다.";
          requires_customer_approval = false;
        }
        ∷ [];
    execution_params = record no_params {
      liquidity_buffer_krw = some cash;
      report_focus = some "three_month_cashflow";
    };
    params = dict (("available_cash_krw", int cash) ∷ []);
    rationale = "다음 결제와 상환 전 가용 현금 완충을 계산합니다.";
  }

  -- `reduction_amount`
  reduction_amount : ℤ → Float → ℤ
  reduction_amount total high =
      let part = λ (x : Float). env.numbers.trunc (env.numbers.mul (env.numbers.of_int total) x) in
      max_zero (part high -ℤ part (env.numbers.hundredths 45))

  -- The rebalancing of `_asset_plan`, which the customer has to approve.
  unfoldable pub rebalance_proposal : Float → ℤ → ℤ → ActionProposalSchema
  unfolding reduction_amount
  rebalance_proposal high total cash =
      let target_high = env.numbers.hundredths 45 in
      let target_low = env.numbers.hundredths 55 in
      let amount = reduction_amount total high in
      record {
        kind = ActionKind.rebalance_portfolio;
        summary = "고위험 자산 일부를 현금성·저위험 자산으로 옮기는 방어형 리밸런싱";
        has_external_effect = true;
        execution_summary =
            "고위험 비중을 현재 "
            ++ (percent env high ++ (" 수준에서 " ++ (percent env target_high ++ " 수준으로 낮춥니다.")));
        execution_steps =
            record {
              action = ExecutionAction.sell;
              target = "고위험 보유자산 묶음";
              amount_krw = some amount;
              current_value = some (percent env high);
              target_value = some (percent env target_high);
              reason = "최근 손실 신호와 현금흐름 압박을 반영해 변동성이 큰 자산을 줄입니다.";
              requires_customer_approval = true;
            }
            ∷ record {
              action = ExecutionAction.move_to_cash;
              target = "현금성·저위험 자산 묶음";
              amount_krw = some amount;
              current_value =
                  some (percent env (env.numbers.sub (env.numbers.hundredths 100) high));
              target_value = some (percent env target_low);
              reason = "의료비·카드결제·대출상환에 대응할 수 있는 방어 여력을 확보합니다.";
              requires_customer_approval = true;
            }
            ∷ [];
        execution_params = record no_params {
          target_high_risk_weight = some target_high;
          target_low_risk_weight = some target_low;
          liquidity_buffer_krw = some cash;
          notes = some "mock 리밸런싱은 위험등급별 보유금액을 목표 비중으로 재배분합니다.";
        };
        params = dict (
            ("target_high_risk_weight", float target_high)
            ∷ ("target_low_risk_weight", float target_low)
            ∷ []);
        rationale = "방향은 자산방어와 현금흐름 안정화이며, 실제 포트폴리오 변경은 고객 승인 후 Executor만 수행합니다.";
      }

  -- The insurance review of `_asset_plan`.
  unfoldable pub asset_review : String → Json → ActionProposalSchema
  asset_review gap willingness = record {
    kind = ActionKind.review_insurance;
    summary = "보장 공백 점검: " ++ gap;
    has_external_effect = true;
    execution_summary = gap ++ " 항목을 중심으로 기존 보험 보장과 의료비 위험을 대조합니다.";
    execution_steps =
        record {
          action = ExecutionAction.review;
          target = gap;
          amount_krw = none;
          current_value = some "미보유 또는 부족";
          target_value = some "보장 점검 완료";
          reason = "건강 이벤트와 현금흐름 부담이 겹칠 때 보장 공백이 직접 부담으로 이어질 수 있습니다.";
          requires_customer_approval = true;
        }
        ∷ [];
    execution_params = record no_params {
      insurance_review_reason = some gap;
      notes = some ("medical_willingness=" ++ show env willingness);
    };
    params = dict (("reason", str gap) ∷ ("willingness", willingness) ∷ []);
    rationale = "방향은 보험 공백 확인과 의료비 부담 완화이며, 보장 점검 요청은 승인 후 진행합니다.";
  }

  -- The proposals of `_asset_plan`, from the figures that it reads.
  unfoldable pub asset_proposals : Float → ℤ → ℤ → ℤ → String → Json → List ActionProposalSchema
  asset_proposals high total cash card gap willingness =
      asset_report cash card
      ∷ cashflow_proposal cash
      ∷ append
          (if env.numbers.ge high (env.numbers.hundredths 55)
            then rebalance_proposal high total cash ∷ []
            else [])
          (if truthy gap then asset_review gap willingness ∷ [] else [])

  -- `_asset_plan`
  unfoldable pub asset_plan : NeedAssessment → Float → ℤ → ℤ → ℤ → String → Json → Plan
  asset_plan assessment high total cash card gap willingness = record {
    strategy = some (record {
      title = "현금흐름을 지키면서 고위험 노출을 낮추기";
      objective = "손실 이벤트 이후 의료비·결제·상환에 대응할 유동성을 확보하고 포트폴리오 변동성을 낮춥니다.";
      priority_order =
          PrimaryNeed.cashflow ∷ PrimaryNeed.asset_defense ∷ PrimaryNeed.investment_adjust
          ∷ PrimaryNeed.insurance ∷ PrimaryNeed.medical_cost ∷ [];
      rationale = "가용 현금, 카드 청구액, 포트폴리오 고위험 비중을 함께 보면 단순 수익률 회복보다 방어 여력 확보가 우선입니다.";
      risk_controls = "외부 효과가 있는 포트폴리오 변경은 고객 승인 후 실행" ∷ "의료 권고가 아닌 재무 대비 관점으로만 판단" ∷ [];
    });
    proposals = asset_proposals high total cash card gap willingness;
    explanation = "금융 데이터 기준으로 현금흐름과 자산방어를 먼저 점검해야 합니다. 자동 리포트는 생성하고, 실제 변경 액션은 승인 후 진행합니다.";
    assessment = some assessment;
  }
