-- ===== src/Models/Finance.antt =====
-- app/models/finance.py, insurance.py and stats.py. A date is the number of its day.
use jb_wm_backend.Base.{ℕ, String, Bool, Option, List}
use jb_wm_backend.Json.{Decimal, Float, Fields}

pub record PortfolioAccount : Type 0 where
  pub id : String
  pub customer_id : String
  pub name : String

pub record Holding : Type 0 where
  pub id : String
  pub account_id : String
  pub asset_type : String
  pub risk_grade : String
  pub amount : Decimal
  pub weight : Float

pub record LoanAccount : Type 0 where
  pub id : String
  pub customer_id : String
  pub principal : Decimal
  pub balance : Decimal
  pub next_due_date : Option ℕ
  pub monthly_payment : Decimal

pub record AccountBalance : Type 0 where
  pub id : String
  pub customer_id : String
  pub bank_name : String
  pub product_name : String
  pub account_type : String
  pub balance_krw : Decimal
  pub available_krw : Decimal
  pub issued_on : Option ℕ
  pub matures_on : Option ℕ
  pub last_transaction_on : Option ℕ
  pub external_ref : Fields

pub record AccountTransaction : Type 0 where
  pub id : String
  pub customer_id : String
  pub account_id : String
  pub transacted_at : ℕ
  pub direction : String
  pub transaction_type : String
  pub description : String
  pub amount_krw : Decimal
  pub after_balance_krw : Decimal
  pub category_hint : String
  pub external_ref : Fields

pub record CardBill : Type 0 where
  pub id : String
  pub customer_id : String
  pub card_name : String
  pub charge_month : String
  pub charge_krw : Decimal
  pub settlement_date : Option ℕ
  pub credit_check_type : String
  pub details : List Fields
  pub external_ref : Fields

pub record LoanSwitchPrecheck : Type 0 where
  pub id : String
  pub customer_id : String
  pub loan_id : String
  pub repayment_available : Bool
  pub denial_code : Option String
  pub prepayment_penalty_krw : Decimal
  pub interest_rate_type : String
  pub variation_cycle_months : Option ℕ
  pub fixed_rate_apply_months : Option ℕ
  pub external_ref : Fields

pub record AssetEvent : Type 0 where
  pub id : String
  pub customer_id : String
  pub kind : String
  pub severity : String
  pub detected_at : ℕ
  pub raw_ref : Fields

pub record PopulationStat : Type 0 where
  pub id : String
  pub age_band : String
  pub metric : String
  pub value : Fields
  pub source : String
  pub as_of : String

pub record InsurancePolicy : Type 0 where
  pub id : String
  pub customer_id : String
  pub product_name : String
  pub policy_type : String
  pub active : Bool
  pub external_ref : Fields

pub record CoverageItem : Type 0 where
  pub id : String
  pub policy_id : String
  pub coverage_type : String
  pub limit_amount : Decimal
  pub active : Bool
  pub external_ref : Fields
