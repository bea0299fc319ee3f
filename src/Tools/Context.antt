-- ===== src/Tools/Context.antt =====
-- app/tools/data_tools.py: card bills, loans, the portfolio, and the bundle that becomes the source
-- of an agent job's context.
use jb_wm_backend.Base.{
  String, true, Option, none, some, List, [], ◌∷◌, ◌==◌, if◌then◌else◌, where_all, first, truthy?,
  map,
}
use jb_wm_backend.Json.{bool, float, str, arr, obj, Fields, end, dict, get}
use jb_wm_backend.Models.{LoanAccount, LoanSwitchPrecheck, PortfolioAccount, Holding}
use jb_wm_backend.Database.{Db, exception, Exec, gets, or_raise, ◌>>=◌}
use jb_wm_backend.Environment.{Env}
use jb_wm_backend.Tools.People.{
  objects, opt_date, get_customer_profile, get_health_data, get_insurance_summary,
  get_customer_memory, get_asset_events, get_population_stat,
}
use jb_wm_backend.Tools.Cards.{get_card_bills}
use jb_wm_backend.Tools.Money.{
  sum_json, whole, holdings_of, is_high_risk, get_account_balances, get_account_transactions,
}

-- The rows of one customer.
abbrev pub loans_of : String → Db → List LoanAccount
loans_of customer_id db = where_all (λ (l : LoanAccount). l.customer_id == customer_id) db.loans

abbrev pub prechecks_of : String → Db → List LoanSwitchPrecheck
prechecks_of customer_id db =
    where_all (λ (q : LoanSwitchPrecheck). q.customer_id == customer_id) db.loan_prechecks

abbrev pub portfolios_of : String → Db → List PortfolioAccount
portfolios_of customer_id db =
    where_all (λ (a : PortfolioAccount). a.customer_id == customer_id) db.portfolio_accounts

-- The statistics of an age band.
abbrev pub population_of : String → Db → Fields
population_of age_band db = dict (
    ("avg_net_assets", obj (get_population_stat age_band "avg_net_assets" db))
    ∷ (
      "avg_emergency_fund_months",
      obj (get_population_stat age_band "avg_emergency_fund_months" db),
    )
    ∷ ("cardio_prevalence", obj (get_population_stat age_band "cardio_prevalence" db))
    ∷ [])

-- `profile.get("age_band", "")`
abbrev pub age_band_of : Fields → String
age_band_of profile = elim (get "age_band" profile) [ some (str s) ↦ s | _ ↦ "" ]

module _ (env : Env) where
  abbrev loan_dict : LoanAccount → Fields
  loan_dict l = dict (
      ("balance", float (env.numbers.float_of_dec l.balance))
      ∷ ("principal", float (env.numbers.float_of_dec l.principal))
      ∷ ("next_due_date", opt_date env l.next_due_date)
      ∷ ("monthly_payment", float (env.numbers.float_of_dec l.monthly_payment))
      ∷ [])

  -- `get_loan_status`
  unfoldable pub get_loan_status : String → Db → Fields
  get_loan_status customer_id db =
      dict (("loans", arr (objects loan_dict (loans_of customer_id db))) ∷ [])

  -- `query.where(...)` only for a loan that is named
  abbrev of_loan : Option String → List LoanSwitchPrecheck → Option LoanSwitchPrecheck
  of_loan none rows = first (λ q. true) rows
  of_loan (some loan_id) rows =
      if truthy? (some loan_id)
      then first (λ (q : LoanSwitchPrecheck). q.loan_id == loan_id) rows
      else first (λ q. true) rows

  abbrev precheck_dict : LoanSwitchPrecheck → Fields
  precheck_dict row = dict (
      ("loan_id", str row.loan_id)
      ∷ ("repayment_available", bool row.repayment_available)
      ∷ ("prepayment_penalty_krw", whole env row.prepayment_penalty_krw)
      ∷ ("note", str "사전조회 mock 결과입니다. 실제 대환 실행은 고객 승인 후 Executor 영역입니다.")
      ∷ [])

  -- `get_loan_switch_precheck`
  unfoldable pub get_loan_switch_precheck : String → Option String → Db → Fields
  get_loan_switch_precheck customer_id loan_id db =
      elim (of_loan loan_id (prechecks_of customer_id db)) [
        | none ↦ end
        | some row ↦ precheck_dict row
      ]

  abbrev pub holding_dict : Holding → Fields
  holding_dict h = dict (
      ("asset_type", str h.asset_type)
      ∷ ("risk_grade", str h.risk_grade)
      ∷ ("amount_krw", whole env h.amount)
      ∷ ("weight", float h.weight)
      ∷ [])

  -- `get_portfolio_summary`
  unfoldable pub get_portfolio_summary : String → Db → Fields
  unfolding holdings_of
  get_portfolio_summary customer_id db =
      let holdings = holdings_of db (portfolios_of customer_id db) in
      dict (
        (
          "total_value",
          sum_json env (map (λ (h : Holding). env.numbers.float_of_dec h.amount) holdings),
        )
        ∷ ("allocation", arr (objects holding_dict holdings))
        ∷ (
          "high_risk_weight",
          sum_json env (map (λ (h : Holding). h.weight) (where_all is_high_risk holdings)),
        )
        ∷ [])

  -- The bundle of `build_context`, around the transactions and the card bills.
  unfoldable pub bundle : String → Fields → Fields → Db → Fields
  bundle customer_id transactions card_bills db =
      let profile = get_customer_profile customer_id db in
      dict (
        ("customer_id", str customer_id)
        ∷ ("profile", obj profile)
        ∷ ("health", obj (get_health_data env customer_id db))
        ∷ ("insurance", obj (get_insurance_summary env customer_id db))
        ∷ ("accounts", obj (get_account_balances env customer_id db))
        ∷ ("transactions", obj transactions)
        ∷ ("card_bills", obj card_bills)
        ∷ ("loans", obj (get_loan_status customer_id db))
        ∷ ("loan_switch_precheck", obj (get_loan_switch_precheck customer_id none db))
        ∷ ("portfolio", obj (get_portfolio_summary customer_id db))
        ∷ ("asset_events", obj (get_asset_events customer_id db))
        ∷ ("population", obj (population_of (age_band_of profile) db))
        ∷ ("memory", obj (get_customer_memory env customer_id db))
        ∷ [])

  -- The rest of `build_context`, once the transactions are read.
  unfoldable pub bundle_from : String → Fields → Exec Fields
  bundle_from customer_id transactions = do
    card_bills ← or_raise (← gets (get_card_bills env customer_id)) (exception "TypeError")
    gets (bundle customer_id transactions card_bills)

  -- `build_context`
  unfoldable pub build_context : String → Exec Fields
  unfolding bundle_from
  build_context customer_id =
      get_account_transactions env customer_id none none >>= bundle_from customer_id
