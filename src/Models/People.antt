-- ===== src/Models/People.antt =====
-- app/models/{customer,memory,auth,privacy,health}.py: customers, their memory, accounts, push
-- subscriptions, consents and health data.
use jb_wm_backend.Base.{ℕ, String, Bool, Option}
use jb_wm_backend.Json.{Decimal, Float, Fields}

pub record Customer : Type 0 where
  pub id : String
  pub name : String
  pub birth_date : ℕ
  pub age_band : String
  pub locale : String
  pub created_at : ℕ
  pub updated_at : ℕ

pub record CustomerMemory : Type 0 where
  pub customer_id : String
  pub medical_willingness : String
  pub medical_one_time_budget_krw : Decimal
  pub monthly_medical_budget_krw : Decimal
  pub medical_budget_ratio : Float
  pub risk_preference : String
  pub hospital_preference : Option String
  pub investment_style : String
  pub constraints : Fields
  pub updated_at : ℕ

-- The column `UserAccount.role` and `Principal.role`.
pub data Role : Type 0 where
  customer advisor operator : Role
  other_role : String → Role

pub record UserAccount : Type 0 where
  pub id : String
  pub email : String
  pub password_hash : String
  pub role : Role
  pub customer_id : Option String
  pub active : Bool
  pub created_at : ℕ
  pub updated_at : ℕ
  pub last_login_at : Option ℕ

pub record PushSubscription : Type 0 where
  pub id : String
  pub user_account_id : String
  pub customer_id : Option String
  pub endpoint : String
  pub p256dh : String
  pub auth : String
  pub user_agent : String
  pub status : String
  pub meta : Fields
  pub created_at : ℕ
  pub updated_at : ℕ
  pub last_seen_at : ℕ

pub record ConsentRecord : Type 0 where
  pub id : String
  pub customer_id : String
  pub scope : String
  pub status : String
  pub granted_at : ℕ
  pub revoked_at : Option ℕ

pub record HealthRecord : Type 0 where
  pub id : String
  pub customer_id : String
  pub source : String
  pub metric : String
  pub value : Fields
  pub measured_at : ℕ
  pub consent_id : Option String

pub record HealthEvent : Type 0 where
  pub id : String
  pub customer_id : String
  pub kind : String
  pub severity : String
  pub detected_at : ℕ
  pub raw_ref : Fields

pub record MedicalDocument : Type 0 where
  pub id : String
  pub customer_id : String
  pub doc_type : String
  pub issued_at : Option ℕ
  pub summary : Fields
  pub file_ref : Option String
  pub consent_id : Option String
