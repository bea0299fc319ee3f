-- ===== src/Database/Tables.antt =====
-- The tables, in the order of app/models/__init__.py.
use jb_wm_backend.Base.{List, []}
use jb_wm_backend.Models.{
  Customer, CustomerMemory, UserAccount, PushSubscription, ConsentRecord, HealthRecord, HealthEvent,
  MedicalDocument, AgentThread, DataSnapshot, AgentJob, AgentSession, Signal, ActionProposal,
  ApprovalDecision, ActionExecution, AgentEvent, AgentMessage, NeedAssessmentRecord, PlanRecord,
  PortfolioAccount, Holding, InsurancePolicy, CoverageItem, LoanAccount, AccountBalance,
  AccountTransaction, CardBill, LoanSwitchPrecheck, AssetEvent, PopulationStat,
}

pub record Db : Type 0 where
  pub customers : List Customer
  pub memories : List CustomerMemory
  pub accounts : List UserAccount
  pub subscriptions : List PushSubscription
  pub consents : List ConsentRecord
  pub health_records : List HealthRecord
  pub health_events : List HealthEvent
  pub medical_documents : List MedicalDocument
  pub threads : List AgentThread
  pub snapshots : List DataSnapshot
  pub jobs : List AgentJob
  pub sessions : List AgentSession
  pub signals : List Signal
  pub proposals : List ActionProposal
  pub decisions : List ApprovalDecision
  pub executions : List ActionExecution
  pub events : List AgentEvent
  pub messages : List AgentMessage
  pub assessments : List NeedAssessmentRecord
  pub plans : List PlanRecord
  pub portfolio_accounts : List PortfolioAccount
  pub holdings : List Holding
  pub policies : List InsurancePolicy
  pub coverages : List CoverageItem
  pub loans : List LoanAccount
  pub balances : List AccountBalance
  pub transactions : List AccountTransaction
  pub card_bills : List CardBill
  pub loan_prechecks : List LoanSwitchPrecheck
  pub asset_events : List AssetEvent
  pub population_stats : List PopulationStat

abbrev pub empty_db : Db
empty_db = record {
  customers = [];
  memories = [];
  accounts = [];
  subscriptions = [];
  consents = [];
  health_records = [];
  health_events = [];
  medical_documents = [];
  threads = [];
  snapshots = [];
  jobs = [];
  sessions = [];
  signals = [];
  proposals = [];
  decisions = [];
  executions = [];
  events = [];
  messages = [];
  assessments = [];
  plans = [];
  portfolio_accounts = [];
  holdings = [];
  policies = [];
  coverages = [];
  loans = [];
  balances = [];
  transactions = [];
  card_bills = [];
  loan_prechecks = [];
  asset_events = [];
  population_stats = [];
}
