-- ===== src/Tools/Snapshot.antt =====
-- app/tools/data_tools.py, `get_customer_detail_snapshot`: the stored answers of the providers, for
-- the screen that shows a customer's data in full.
use jb_wm_backend.Base.{
  ℕ, String, Option, none, some, List, [], ◌∷◌, ◌==◌, where_all, newest_first, take,
}
use jb_wm_backend.Json.{
  Json, null, bool, int, str, arr, obj, Items, nil, item, Fields, end, dict, put, pos,
}
use jb_wm_backend.Models.{
  HealthRecord, HealthEvent, MedicalDocument, InsurancePolicy, CoverageItem, AccountBalance,
  AccountTransaction, CardBill, LoanAccount, LoanSwitchPrecheck, PortfolioAccount,
}
use jb_wm_backend.Database.{Db, exception, Exec, gets, or_raise, ◌>>=◌}
use jb_wm_backend.Environment.{Env}
use jb_wm_backend.Tools.People.{
  objects, opt_date, consented_records, consented_documents, record_dict, event_dict, document_dict,
  items_of, policies_of,
}
use jb_wm_backend.Tools.Money.{whole, balances_of, transactions_of, holdings_of}
use jb_wm_backend.Tools.Cards.{get_or, bills_of}
use jb_wm_backend.Tools.Context.{loans_of, prechecks_of, portfolios_of, holding_dict}

-- `row.external_ref.get(key, {})`
abbrev body : String → Fields → Json
body key ref = get_or (obj end) key ref

abbrev opt_number : Option ℕ → Json
opt_number none = null
opt_number (some n) = int (pos n)

-- `{**header, "res_list": …}`, absent where the header is no dictionary and Python raises.
abbrev pub with_list : Json → Json → Option Fields
with_list (obj header) rows = some (put "res_list" rows header)
with_list _ rows = none

-- The header of the newest transaction.
abbrev pub header_of : List AccountTransaction → Json
header_of [] = obj end
header_of (r ∷ rows) = body "api_body_header" r.external_ref

abbrev pub newest_transactions : String → Db → List AccountTransaction
newest_transactions customer_id db =
    newest_first (λ (r : AccountTransaction). r.transacted_at) (transactions_of customer_id db)

abbrev bodies : List AccountTransaction → Items
bodies [] = nil
bodies (r ∷ rs) = item (body "api_body" r.external_ref) (bodies rs)

-- The section `transactions`.
abbrev pub transactions_body : String → Db → Option Fields
transactions_body customer_id db =
    let rows = newest_transactions customer_id db in
    with_list (header_of rows) (arr (bodies (take 80 rows)))

module _ (env : Env) where
  abbrev coverage_body : CoverageItem → Fields
  coverage_body it = dict (
      ("coverage_type", str it.coverage_type)
      ∷ ("limit_amount", whole env it.limit_amount)
      ∷ ("active", bool it.active)
      ∷ ("api_body", body "api_body" it.external_ref)
      ∷ [])

  abbrev pub policy_body : Db → InsurancePolicy → Fields
  policy_body db p = dict (
      (
        "normalized",
        obj (
            dict (
              ("product_name", str p.product_name)
              ∷ ("policy_type", str p.policy_type)
              ∷ ("active", bool p.active)
              ∷ ("coverages", arr (objects coverage_body (items_of db p)))
              ∷ [])),
      )
      ∷ ("api_body", body "api_body" p.external_ref)
      ∷ ("payment_api_body", body "payment_api_body" p.external_ref)
      ∷ [])

  abbrev balance_body : AccountBalance → Fields
  balance_body a = dict (
      (
        "normalized",
        obj (
            dict (
              ("bank_name", str a.bank_name)
              ∷ ("product_name", str a.product_name)
              ∷ ("account_type", str a.account_type)
              ∷ ("balance_krw", whole env a.balance_krw)
              ∷ ("available_krw", whole env a.available_krw)
              ∷ [])),
      )
      ∷ ("api_body", body "api_body" a.external_ref)
      ∷ [])

  abbrev card_body : CardBill → Fields
  card_body b = dict (
      (
        "normalized",
        obj (
            dict (
              ("card_name", str b.card_name)
              ∷ ("charge_month", str b.charge_month)
              ∷ ("charge_krw", whole env b.charge_krw)
              ∷ ("settlement_date", opt_date env b.settlement_date)
              ∷ [])),
      )
      ∷ ("card_list_api_body", body "card_list_api_body" b.external_ref)
      ∷ ("card_issue_api_body", body "card_issue_api_body" b.external_ref)
      ∷ ("bill_basic_api_body", body "bill_basic_api_body" b.external_ref)
      ∷ ("bill_detail_api_body", body "bill_detail_api_body" b.external_ref)
      ∷ [])

  abbrev loan_body : LoanAccount → Fields
  loan_body l = dict (
      (
        "normalized",
        obj (
            dict (
              ("principal", whole env l.principal)
              ∷ ("balance", whole env l.balance)
              ∷ ("monthly_payment", whole env l.monthly_payment)
              ∷ ("next_due_date", opt_date env l.next_due_date)
              ∷ [])),
      )
      ∷ [])

  abbrev precheck_body : LoanSwitchPrecheck → Fields
  precheck_body q = dict (
      (
        "normalized",
        obj (
            dict (
              ("loan_id", str q.loan_id)
              ∷ ("repayment_available", bool q.repayment_available)
              ∷ ("prepayment_penalty_krw", whole env q.prepayment_penalty_krw)
              ∷ ("interest_rate_type", str q.interest_rate_type)
              ∷ ("variation_cycle_months", opt_number q.variation_cycle_months)
              ∷ ("fixed_rate_apply_months", opt_number q.fixed_rate_apply_months)
              ∷ [])),
      )
      ∷ ("api_body", body "api_body" q.external_ref)
      ∷ [])

  abbrev account_body : PortfolioAccount → Fields
  account_body a = dict (("id", str a.id) ∷ ("name", str a.name) ∷ [])

  -- The section `health`.
  unfoldable pub health_body : String → Db → Fields
  health_body customer_id db = dict (
      (
        "records",
        arr (
            objects (record_dict env) (
              consented_records (
                where_all (λ (r : HealthRecord). r.customer_id == customer_id) db.health_records))),
      )
      ∷ (
        "events",
        arr (
            objects (event_dict env)
              (where_all (λ (e : HealthEvent). e.customer_id == customer_id) db.health_events)),
      )
      ∷ (
        "medical_documents",
        arr (
            objects (document_dict env) (
              consented_documents (
                where_all (λ (d : MedicalDocument). d.customer_id == customer_id)
                  db.medical_documents))),
      )
      ∷ [])

  -- The section `portfolio`.
  unfoldable pub portfolio_body : String → Db → Fields
  unfolding holdings_of
  portfolio_body customer_id db =
      let accounts = portfolios_of customer_id db in
      dict (
        ("accounts", arr (objects account_body accounts))
        ∷ ("holdings", arr (objects (holding_dict env) (holdings_of db accounts)))
        ∷ [])

  -- The dictionary of `get_customer_detail_snapshot`, around the transactions.
  unfoldable pub detail_body : String → Fields → Db → Fields
  unfolding health_body portfolio_body
  detail_body customer_id transactions db = dict (
      ("health", obj (health_body customer_id db))
      ∷ ("insurance", arr (objects (policy_body db) (policies_of customer_id db)))
      ∷ ("accounts", arr (objects balance_body (balances_of customer_id db)))
      ∷ ("transactions", obj (dict (("api_body", obj transactions) ∷ [])))
      ∷ ("cards", arr (objects card_body (bills_of customer_id db)))
      ∷ ("loans", arr (objects loan_body (loans_of customer_id db)))
      ∷ ("loan_switch_prechecks", arr (objects precheck_body (prechecks_of customer_id db)))
      ∷ ("portfolio", obj (portfolio_body customer_id db))
      ∷ [])

  -- `get_customer_detail_snapshot`
  unfoldable pub get_customer_detail_snapshot : String → Exec Fields
  unfolding detail_body
  get_customer_detail_snapshot customer_id = do
    transactions ← or_raise (← gets (transactions_body customer_id)) (exception "TypeError")
    gets (detail_body customer_id transactions)
