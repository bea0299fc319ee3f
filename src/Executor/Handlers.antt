-- ===== src/Executor/Handlers.antt =====
-- app/executor/handlers.py, from `_exec_record` to `_handle`.
use Prim.Native.String.{◌++◌}
use Prim.Native.String.{String as Text}
use jb_wm_backend.Base.{
  ℕ, zero, suc, String, Bool, true, false, not, ◌&&◌, ◌||◌, Option, none, some, List, [], ◌∷◌, ◌==◌,
  if◌then◌else◌, first, where_all, update_where, order_by, length,
}
use mathlib.Core.List.{◌++◌ as append}
use jb_wm_backend.Json.{
  Json, null, bool, float, str, arr, nil, Fields, Float, Decimal, end, get, truth, fields, dict,
}
use jb_wm_backend.Models.{
  ActionProposal, AgentSession, InsurancePolicy, CoverageItem, PortfolioAccount, Holding,
}
use jb_wm_backend.Database.{
  Db, exception, Exec, pure, gets, or_raise, modify, commit, tick, ◌>>=◌, ◌>>◌,
}
use jb_wm_backend.Database.Rows.{get_row}
use jb_wm_backend.Environment.{Env, Numbers, is_external}

-- The first `n` characters of a text, `s[:n]`.
unfoldable pub prefix : ℕ → String → String
prefix zero s = Text.[]
prefix (suc n) Text.[] = Text.[]
prefix (suc n) (Text.◌∷◌ c s) = Text.◌∷◌ c (prefix n s)

-- `sum(h.amount for h in holdings)`
abbrev pub sum_amounts : Numbers → Decimal → List Holding → Decimal
sum_amounts n acc [] = acc
sum_amounts n acc (h ∷ hs) = sum_amounts n (n.dec_add acc h.amount) hs

abbrev is_empty {ℓ} : {A : Type ℓ} → List A → Bool
is_empty [] = true
is_empty (_ ∷ _) = false

-- `params.get(key)`, with `None` for a missing key.
abbrev get_or_null : String → Fields → Json
get_or_null k fs = elim (get k fs) [ none ↦ null | some v ↦ v ]

-- `params.get("execution_steps", [])`
abbrev steps_of : Fields → Json
steps_of fs = elim (get "execution_steps" fs) [ none ↦ arr nil | some v ↦ v ]

-- An `ActionExecution` before the database has stored it.
pub record Outcome : Type 0 where
  pub executor : String
  pub status : String
  pub result : Fields

-- `_exec_record`
abbrev pub exec_record : String → Fields → String → Outcome
exec_record executor result status = record {
  executor = executor;
  status = status;
  result = result;
}

-- `_customer_id_for_proposal`
unfoldable pub customer_id_for_proposal : ActionProposal → Db → String
customer_id_for_proposal p db =
    elim (get_row (λ (s : AgentSession). s.id) p.session_id db.sessions) [
      | none ↦ ""
      | some s ↦ s.customer_id
    ]

-- `_external_not_implemented`
abbrev pub external_not_implemented : Outcome
external_not_implemented =
    exec_record "ExternalRequestExecutor"
      (dict (
        ("mode", str "external_request")
        ∷ ("message", str "실제 외부 실행 요청은 아직 구현되지 않았습니다. ACTION_EXECUTION_MODE=mock_apply만 사용하세요.")
        ∷ []))
      "failed"

-- The text of the cardiovascular rider.
abbrev pub cardio : String
cardio = "심혈관특약"

module _ (env : Env) where
  -- The policy that `_apply_mock_insurance_review` works on: the customer's first active one by
  -- product name, or a new one.
  unfoldable pub review_policy : String → Exec InsurancePolicy
  review_policy customer_id = do
    found ← gets (λ db.
        first (λ p. p.customer_id == customer_id && p.active)
          (order_by (λ p. env.collation p.product_name) db.policies))
    elim found [
      | some policy ↦ pure policy
      | none ↦ do
        t ← tick
        let policy : InsurancePolicy = record {
          id = env.new_uuid t;
          customer_id = customer_id;
          product_name = "JB 보장점검 결과";
          policy_type = "건강";
          active = true;
          external_ref = end;
        }
        modify (λ db. record db { policies = append db.policies (policy ∷ []) })
        commit
        pure policy
    ]

  -- The coverage that is added unless the policy has it.
  unfoldable pub ensure_coverage : InsurancePolicy → Exec (Unit {0})
  ensure_coverage policy = do
    existing ← gets (λ db.
        first
          (λ (c : CoverageItem). c.policy_id == policy.id && c.coverage_type == cardio && c.active)
          db.coverages)
    elim existing [
      | some _ ↦ pure tt
      | none ↦ do
        t ← tick
        let coverage : CoverageItem = record {
          id = env.new_uuid t;
          policy_id = policy.id;
          coverage_type = cardio;
          limit_amount = env.numbers.dec_of 20000000;
          active = true;
          external_ref = end;
        }
        modify (λ db. record db { coverages = append db.coverages (coverage ∷ []) })
        commit
    ]

  -- `_apply_mock_insurance_review`
  unfoldable pub apply_mock_insurance_review : ActionProposal → Exec Fields
  unfolding review_policy ensure_coverage customer_id_for_proposal
  apply_mock_insurance_review p = do
    customer_id ← gets (customer_id_for_proposal p)
    policy ← review_policy customer_id
    ensure_coverage policy
    pure (
        dict (
          ("document", str "보험 보장 점검 결과 (mock)")
          ∷ ("coverage", str cardio)
          ∷ ("status", str "mock DB 반영 완료")
          ∷ ("claim_id", str ("MOCK-INS-" ++ prefix 8 p.id))
          ∷ ("applied", bool true)
          ∷ []))

  -- `float(params.get(k) or execution_params.get(k) or 0.45)`; Python raises where the value that
  -- is chosen is no number.
  unfoldable pub target_high : Fields → Option Float
  target_high params =
      let direct = get_or_null "target_high_risk_weight" params in
      let nested =
        get_or_null "target_high_risk_weight" (fields (get_or_null "execution_params" params)) in
      if truth env.numbers.nonzero direct
      then env.numbers.to_float direct
      else if truth env.numbers.nonzero nested
      then env.numbers.to_float nested
      else some (env.numbers.hundredths 45)

  -- The new amount and weight of every holding of one risk group.
  abbrev spread : Decimal → Float → List Holding → Holding → Holding
  spread total target group h = record h {
    amount =
        env.numbers.dec_div (env.numbers.dec_mul total (env.numbers.dec_of_float target))
          (length group);
    weight = env.numbers.div target (length group);
  }

  abbrev is_high : Holding → Bool
  is_high h = h.risk_grade == "high"

  -- The two loops of `_apply_mock_rebalance` over the holdings of an account.
  unfoldable pub rebalance :
      String → Float → Float → Decimal → List Holding → List Holding → List Holding
  rebalance account_id high low total holdings rows =
      let highs = where_all is_high holdings in
      let lows = where_all (λ h. not (is_high h)) holdings in
      update_where (λ h. h.account_id == account_id && not (is_high h)) (spread total low lows)
        (update_where (λ h. h.account_id == account_id && is_high h) (spread total high highs) rows)

  abbrev not_applied : String → Fields
  not_applied text = dict (("proposal", str text) ∷ ("applied", bool false) ∷ [])

  -- `_apply_mock_rebalance`, once the account is known.
  unfoldable pub rebalance_account : ActionProposal → PortfolioAccount → Exec Fields
  rebalance_account p account = do
    holdings ← gets (λ db. where_all (λ h. h.account_id == account.id) db.holdings)
    let total = sum_amounts env.numbers (env.numbers.dec_of 0) holdings
    if is_empty holdings || not (env.numbers.dec_positive total)
        then pure (not_applied "리밸런싱 대상 보유자산 없음")
        else do
          high ← or_raise (target_high p.params) (exception "ValueError")
          let low =
              env.numbers.max (env.numbers.hundredths 0)
                (env.numbers.sub (env.numbers.hundredths 100) high)
          modify (λ db. record db {
            holdings = rebalance account.id high low total holdings db.holdings;
          })
          commit
          pure (
              dict (
                ("proposal", str "방어형 리밸런싱 적용 (mock)")
                ∷ ("applied", bool true)
                ∷ ("execution_summary", get_or_null "execution_summary" p.params)
                ∷ ("execution_steps", steps_of p.params)
                ∷ ("target_high_risk_weight", float high)
                ∷ ("target_low_risk_weight", float low)
                ∷ []))

  -- `_apply_mock_rebalance`
  unfoldable pub apply_mock_rebalance : ActionProposal → Exec Fields
  unfolding rebalance_account customer_id_for_proposal
  apply_mock_rebalance p = do
    customer_id ← gets (customer_id_for_proposal p)
    found ←
        gets (λ db.
          first (λ (a : PortfolioAccount). a.customer_id == customer_id) db.portfolio_accounts)
    elim found [
      | none ↦ pure (not_applied "리밸런싱 대상 계좌 없음")
      | some account ↦ rebalance_account p account
    ]

  -- The plan text of a cashflow proposal: its summary if that is not empty.
  abbrev plan_text : Fields → Json
  plan_text params =
      let summary = get_or_null "execution_summary" params in
      if truth env.numbers.nonzero summary then summary else str "3개월 비상자금 플랜 (mock)"

  -- `_handle`
  unfoldable pub handle : ActionProposal → Exec Outcome
  handle p =
      if is_external env.settings.action_execution_mode
      then pure external_not_implemented
      else if p.kind == "review_insurance"
      then (do
        result ← apply_mock_insurance_review p
        pure (exec_record "InsuranceReviewMockHandler" result "success"))
      else if p.kind == "report"
      then pure (
          exec_record "ReportHandler"
            (dict (
              ("report", str p.summary)
              ∷ ("execution_summary", get_or_null "execution_summary" p.params)
              ∷ ("execution_steps", steps_of p.params)
              ∷ []))
            "success")
      else if p.kind == "cashflow_plan"
      then pure (
          exec_record "CashflowPlanHandler"
            (dict (("plan", plan_text p.params) ∷ ("execution_steps", steps_of p.params) ∷ []))
            "success")
      else if p.kind == "rebalance_portfolio"
      then (do
        result ← apply_mock_rebalance p
        pure (exec_record "RebalanceHandler" result "success"))
      else if p.kind == "book_hospital"
      then pure (
          exec_record "HospitalBookingHandler"
            (dict (("booking", str "예약 완료 (mock)") ∷ ("when", str "내주") ∷ [])) "success")
      else if p.kind == "notify"
      then pure (exec_record "NotifyHandler" (dict (("notified", bool true) ∷ [])) "success")
      else pure
          (exec_record "Unknown" (dict (("message", str ("미지원 액션: " ++ p.kind)) ∷ [])) "failed")
