-- ===== src/Tests/Contexts.antt =====
-- The theorems on the context tools, the customer routes and the runs of the graph at concrete
-- inputs.
use jb_wm_backend.Base.{String, ◌≡◌, refl, arith, eq_iff, none, some, List, [], ◌∷◌}
use jb_wm_backend.Json.{Fields, end, arr, get}
use jb_wm_backend.Models.{LoanAccount, HealthRecord, AccountTransaction, customer}
use jb_wm_backend.Database.{Db, empty_db, World, ok, err, http}
use jb_wm_backend.Security.{Principal}
use jb_wm_backend.Security.Access.{MayAct}
use jb_wm_backend.Tools.People.{objects, get_health_data}
use jb_wm_backend.Tools.Money.{transaction_dict, get_account_transactions}
use jb_wm_backend.Tools.Context.{build_context}
use jb_wm_backend.Tools.Isolation.{SameCustomer, build_context-isolated}
use jb_wm_backend.Tools.Consent.{
  without_unconsented, IsWindow, get_health_data-unconsented, get_account_transactions-IsWindow,
}
use jb_wm_backend.Routes.Customers.{health, detail_snapshot, customer_route}
use jb_wm_backend.Routes.Access.{customer_route_denied, customer_route-isolated}
use jb_wm_backend.Workflow.{node_data_refresh}
use jb_wm_backend.Workflow.Walk.{HasEnded, walk, walk-ends}
use jb_wm_backend.Tests.Samples.{environment, world, state}

abbrev loan : String → LoanAccount
loan customer_id = record {
  id = "l1";
  customer_id = customer_id;
  principal = record { repr = 9 };
  balance = record { repr = 5 };
  next_due_date = none;
  monthly_payment = record { repr = 1 };
}

-- The tables with the loans of the given customers.
abbrev lent : List LoanAccount → Db
lent loans = record empty_db { loans = loans }

abbrev lent_world : List LoanAccount → World
lent_world loans = record { committed = empty_db; working = lent loans; ticks = 0 }

-- A principal of another customer.
abbrev other : Principal
other = record { subject = "u2"; role = customer; customer_id = some "c2" }

-- The customer whose data it is.
abbrev owner : Principal
owner = record { subject = "u1"; role = customer; customer_id = some "c1" }

-- The loan of another customer makes no difference to the first.
same_loans : SameCustomer "c1" (lent (loan "c1" ∷ [])) (lent (loan "c2" ∷ loan "c1" ∷ []))
same_loans = record {
  profile = refl;
  memory = refl;
  health_records = refl;
  health_events = refl;
  documents = refl;
  policies = refl;
  coverages = tt;
  balances = refl;
  transactions = refl;
  bills = refl;
  loans = refl;
  prechecks = refl;
  portfolios = refl;
  holdings = tt;
  asset_events = refl;
  statistics = refl;
}

build_context-isolated_example :
    (build_context environment "c1" (lent_world (loan "c1" ∷ []))).0
    ≡ (build_context environment "c1" (lent_world (loan "c2" ∷ loan "c1" ∷ []))).0
build_context-isolated_example =
    build_context-isolated environment "c1" (lent_world (loan "c1" ∷ []))
      (lent_world (loan "c2" ∷ loan "c1" ∷ [])) refl same_loans

customer_route-isolated_example :
    (customer_route environment detail_snapshot owner "c1" (lent_world (loan "c1" ∷ []))).0
    ≡ (customer_route environment detail_snapshot owner "c1"
        (lent_world (loan "c2" ∷ loan "c1" ∷ []))).0
customer_route-isolated_example =
    customer_route-isolated environment detail_snapshot owner "c1" (lent_world (loan "c1" ∷ []))
      (lent_world (loan "c2" ∷ loan "c1" ∷ [])) refl same_loans

-- A record that no consent covers.
abbrev private_record : HealthRecord
private_record = record {
  id = "h1";
  customer_id = "c1";
  source = "device";
  metric = "sleep_score";
  value = end;
  measured_at = 0;
  consent_id = none;
}

abbrev private_tables : Db
private_tables = record empty_db { health_records = private_record ∷ [] }

get_health_data-unconsented_example :
    get_health_data environment "c1" (without_unconsented private_tables)
    ≡ get_health_data environment "c1" private_tables
get_health_data-unconsented_example = get_health_data-unconsented environment "c1" private_tables

-- A payment of a customer on the eleventh day.
abbrev payment : String → AccountTransaction
payment customer_id = record {
  id = "x1";
  customer_id = customer_id;
  account_id = "a1";
  transacted_at = 950400000000;
  direction = "out";
  transaction_type = "transfer";
  description = "";
  amount_krw = record { repr = 5 };
  after_balance_krw = record { repr = 4 };
  category_hint = "";
  external_ref = end;
}

abbrev paid : World
paid = record {
  committed = empty_db;
  working = record empty_db { transactions = payment "c2" ∷ payment "c1" ∷ [] };
  ticks = 0;
}

get_account_transactions-IsWindow_example :
    (fs : Fields) × (rows : List AccountTransaction) × ((get_account_transactions environment "c1"
        (some 10)
        (some 20)
        paid).0
      ≡ ok fs)
    × (get "transactions" fs ≡ some (arr (objects (transaction_dict environment) rows)))
    × IsWindow "c1" 10 20 paid.working.transactions rows
get_account_transactions-IsWindow_example =
    get_account_transactions-IsWindow environment "c1" 10 20 paid

other-MayAct : ¬ MayAct other "c1"
other-MayAct may = ground (arith, eq_iff "c2" "c1")

customer_route_denied_example :
    customer_route environment health other "c1" (world []) ≡ (err (http 403), world [])
customer_route_denied_example =
    customer_route_denied environment health other "c1" (world []) other-MayAct

walk-ends_example :
    HasEnded (walk environment "u1" 11 none node_data_refresh (state none) (world [])).0
walk-ends_example = walk-ends environment "u1" none node_data_refresh (state none) (world [])
