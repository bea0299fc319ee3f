-- ===== src/Routes/Access.antt =====
-- app/api/routes/customers.py: who sees a customer's data, and whose data it is.
use jb_wm_backend.Base.{
  String, arith, ◌≡◌, refl, true, some, List, [], ◌∷◌, All, map, where_all, where_all_meets,
}
use jb_wm_backend.Json.{Fields, end, field}
use jb_wm_backend.Tools.People.{get_customer_profile}
use jb_wm_backend.Models.{Customer, customer}
use jb_wm_backend.Database.{World, ok, err, http}
use jb_wm_backend.Environment.{Env}
use jb_wm_backend.Security.{Principal, equals?, require_customer_access}
use jb_wm_backend.Security.Access.{MayAct, require_customer_access_denied, equals?_sound}
use jb_wm_backend.Tools.Isolation.{
  SameCustomer, profile-same, health-same, insurance-same, portfolio-same, loans-same,
  balances-same, transactions-same, bills-same, precheck-same, memory-same,
}
use jb_wm_backend.Tools.Details.{get_customer_detail_snapshot-isolated}
use jb_wm_backend.Routes.Customers.{
  CustomerRoute, profile, health, insurance, portfolio, loans, accounts, transactions, card_bills,
  loan_switch_precheck, memory, detail_snapshot, CustomerOut, customer_out, present, list_customers,
  customer_data, customer_route,
}

present-same : (fs : Fields) (w v : World) → (present fs w).0 ≡ (present fs v).0
present-same end w v = refl
present-same (field k x fs) w v = refl

own_outs :
    (p : Principal) (cs : List Customer)
    → All (λ (c : Customer). equals? p.customer_id c.id ≡ true) cs
    → All (λ (o : CustomerOut). p.customer_id ≡ some o.id) (map customer_out cs)
own_outs p [] h = tt
own_outs p (c ∷ cs) h = (equals?_sound p.customer_id c.id h.0, own_outs p cs h.1)

-- A customer who lists the customers sees at most the row that carries the customer's identifier.
pub list_customers-own :
    (p : Principal) (w : World)
    → p.role ≡ customer
    → (rows : List CustomerOut) × (list_customers p w ≡ (ok rows, w))
      × All (λ (o : CustomerOut). p.customer_id ≡ some o.id) rows
unfolding list_customers
list_customers-own p w own =
    let rows = where_all (λ (c : Customer). equals? p.customer_id c.id) w.working.customers in
    (
      map customer_out rows,
      rw own refl,
      own_outs p rows
          (where_all_meets (λ (c : Customer). equals? p.customer_id c.id) w.working.customers),
    )

module _ (env : Env) where
  -- Every route below a customer is closed to principals who may not act for the customer: they get
  -- 403, and nothing changes.
  pub customer_route_denied :
      (r : CustomerRoute) (p : Principal) (c : String) (w : World)
      → ¬ MayAct p c
      → customer_route env r p c w ≡ (err (http 403), w)
  unfolding customer_route
  customer_route_denied r p c w denied = ground (arith, require_customer_access_denied p c w denied)

  data-isolated :
      (r : CustomerRoute) (c : String) (w v : World)
      → w.ticks ≡ v.ticks
      → SameCustomer c w.working v.working
      → (customer_data env r c w).0 ≡ (customer_data env r c v).0
  unfolding customer_data
  data-isolated profile c w v e h =
      rw (profile-same env c w.working v.working h)
        (present-same (get_customer_profile c v.working) w v)
  data-isolated health c w v e h = rw (health-same env c w.working v.working h) refl
  data-isolated insurance c w v e h = rw (insurance-same env c w.working v.working h) refl
  data-isolated portfolio c w v e h = rw (portfolio-same env c w.working v.working h) refl
  data-isolated loans c w v e h = rw (loans-same env c w.working v.working h) refl
  data-isolated accounts c w v e h = rw (balances-same env c w.working v.working h) refl
  data-isolated transactions c w v e h = transactions-same env c w v e h.transactions
  data-isolated card_bills c w v e h = ground (arith, bills-same env c w.working v.working h)
  data-isolated loan_switch_precheck c w v e h = rw (precheck-same env c w.working v.working h) refl
  data-isolated memory c w v e h = rw (memory-same env c w.working v.working h) refl
  data-isolated detail_snapshot c w v e h = get_customer_detail_snapshot-isolated env c w v h

  -- What a route below a customer answers depends on that customer's rows and the clock only: two
  -- databases that agree on the customer give every principal the same answer.
  pub customer_route-isolated :
      (r : CustomerRoute) (p : Principal) (c : String) (w v : World)
      → w.ticks ≡ v.ticks
      → SameCustomer c w.working v.working
      → (customer_route env r p c w).0 ≡ (customer_route env r p c v).0
  unfolding customer_route require_customer_access
  customer_route-isolated r p c w v e h = ground (arith, data-isolated r c w v e h)
