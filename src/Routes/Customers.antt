-- ===== src/Routes/Customers.antt =====
-- app/api/routes/customers.py: the views of a customer's data.
use jb_wm_backend.Base.{String, none, List, where_all, map}
use jb_wm_backend.Json.{Fields, end, field}
use jb_wm_backend.Models.{Customer, customer}
use jb_wm_backend.Database.{Db, http, exception, Exec, pure, raise, gets, or_raise, ◌>>=◌, ◌>>◌}
use jb_wm_backend.Environment.{Env}
use jb_wm_backend.Security.{Principal, equals?, require_customer_access}
use jb_wm_backend.Tools.People.{
  get_customer_profile, get_health_data, get_insurance_summary, get_customer_memory,
}
use jb_wm_backend.Tools.Money.{get_account_balances, get_account_transactions}
use jb_wm_backend.Tools.Cards.{get_card_bills}
use jb_wm_backend.Tools.Context.{get_loan_status, get_loan_switch_precheck, get_portfolio_summary}
use jb_wm_backend.Tools.Snapshot.{get_customer_detail_snapshot}

-- The routes below `/customers/{customer_id}`.
pub data CustomerRoute : Type 0 where
  profile health insurance portfolio loans accounts transactions card_bills : CustomerRoute
  loan_switch_precheck memory detail_snapshot : CustomerRoute

-- A row of `list_customers`
pub record CustomerOut : Type 0 where
  pub id : String
  pub name : String
  pub age_band : String

abbrev pub customer_out : Customer → CustomerOut
customer_out c = record { id = c.id; name = c.name; age_band = c.age_band }

-- The rows that `list_customers` selects for a principal.
abbrev pub listed : Principal → Db → List Customer
listed principal db = elim principal.role [
  | customer ↦ where_all (λ (c : Customer). equals? principal.customer_id c.id) db.customers
  | _ ↦ db.customers
]

-- `list_customers`
unfoldable pub list_customers : Principal → Exec (List CustomerOut)
list_customers principal = gets (λ db. map customer_out (listed principal db))

-- `if not profile: raise HTTPException(404)`
abbrev pub present : Fields → Exec Fields
present end = raise (http 404)
present (field k v fs) = pure (field k v fs)

module _ (env : Env) where
  -- The handler of a route, behind its check.
  unfoldable pub customer_data : CustomerRoute → String → Exec Fields
  customer_data profile customer_id = gets (get_customer_profile customer_id) >>= λ fs. present fs
  customer_data health customer_id = gets (get_health_data env customer_id)
  customer_data insurance customer_id = gets (get_insurance_summary env customer_id)
  customer_data portfolio customer_id = gets (get_portfolio_summary env customer_id)
  customer_data loans customer_id = gets (get_loan_status env customer_id)
  customer_data accounts customer_id = gets (get_account_balances env customer_id)
  customer_data transactions customer_id = get_account_transactions env customer_id none none
  customer_data card_bills customer_id =
      gets (get_card_bills env customer_id) >>= λ bills. or_raise bills (exception "TypeError")
  customer_data loan_switch_precheck customer_id =
      gets (get_loan_switch_precheck env customer_id none)
  customer_data memory customer_id = gets (get_customer_memory env customer_id)
  customer_data detail_snapshot customer_id = get_customer_detail_snapshot env customer_id

  -- A route, for the principal of the request.
  unfoldable pub customer_route : CustomerRoute → Principal → String → Exec Fields
  unfolding customer_data require_customer_access
  customer_route route principal customer_id =
      require_customer_access principal customer_id >> customer_data route customer_id
