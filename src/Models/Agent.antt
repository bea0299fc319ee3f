-- ===== src/Models/Agent.antt =====
-- app/models/agent.py: sessions, signals, proposals, decisions, executions, events, messages.
-- A text column that the code compares with literals is an enumeration with `other`; columns that
-- hold a dump of a planning value hold the value.
use jb_wm_backend.Base.{ℕ, String, Bool, true, false, Option, List}
use jb_wm_backend.Json.{Fields, Float}
use jb_wm_backend.Planning.{NeedAssessment, Plan, PrimaryNeed, NeedLevel}

-- The column `AgentSession.state`: the values of `SessionState` and any other text.
pub data SessionState : Type 0 where
  monitoring user_approval : SessionState
  other_state : String → SessionState

-- The column `ActionProposal.status`.
pub data ProposalStatus : Type 0 where
  proposed approved rejected deferred executed failed : ProposalStatus
  other_status : String → ProposalStatus

-- `AgentSession.recent_context`
pub record RecentContext : Type 0 where
  pub assessment : NeedAssessment
  pub plan : Plan
  pub data_snapshot_id : String
  pub agent_job_id : Option String

-- The dictionary of `_need_levels`.
pub record NeedLevels : Type 0 where
  pub medical_cost_need : NeedLevel
  pub insurance_need : NeedLevel
  pub cashflow_need : NeedLevel
  pub asset_defense_need : NeedLevel
  pub investment_adjust_need : NeedLevel
  pub life_plan_need : NeedLevel

-- `AgentSession.active_needs`, where the empty dictionary is `none`.
pub record ActiveNeeds : Type 0 where
  pub primary_need : PrimaryNeed
  pub needs : NeedLevels

pub record AgentSession : Type 0 where
  pub id : String
  pub customer_id : String
  pub state : SessionState
  pub active_needs : Option ActiveNeeds
  pub pending_proposal_id : Option String
  pub recent_context : Option RecentContext
  pub failure_reason : Option String
  pub created_at : ℕ
  pub updated_at : ℕ

pub record Signal : Type 0 where
  pub id : String
  pub session_id : String
  pub source : String
  pub payload : Fields
  pub created_at : ℕ

pub record ActionProposal : Type 0 where
  pub id : String
  pub session_id : String
  pub kind : String
  pub summary : String
  pub has_external_effect : Bool
  pub params : Fields
  pub rationale : String
  pub status : ProposalStatus
  pub created_at : ℕ

pub record ApprovalDecision : Type 0 where
  pub id : String
  pub proposal_id : String
  pub decision : String
  pub decided_by : Option String
  pub note : String
  pub decided_at : ℕ

pub record ActionExecution : Type 0 where
  pub id : String
  pub proposal_id : String
  pub executor : String
  pub status : String
  pub result : Fields
  pub executed_at : ℕ

pub record AgentEvent : Type 0 where
  pub id : String
  pub session_id : String
  pub type_ : String
  pub detail : Fields
  pub created_at : ℕ

pub record AgentMessage : Type 0 where
  pub id : String
  pub session_id : String
  pub role : String
  pub content : String
  pub meta : Fields
  pub created_at : ℕ

pub record NeedAssessmentRecord : Type 0 where
  pub id : String
  pub session_id : String
  pub needs : NeedLevels
  pub primary_need : PrimaryNeed
  pub confidence : Float
  pub rationale : String
  pub raw_output : NeedAssessment
  pub created_at : ℕ

pub record PlanRecord : Type 0 where
  pub id : String
  pub session_id : String
  pub explanation : String
  pub raw_output : Plan
  pub proposal_ids : List String
  pub created_at : ℕ

-- `proposal.status == "executed"`
abbrev pub is_executed : ProposalStatus → Bool
is_executed executed = true
is_executed _ = false

-- `proposal.status in {"proposed", "approved"}`
abbrev pub is_executable : ProposalStatus → Bool
is_executable proposed = true
is_executable approved = true
is_executable _ = false

-- `proposal.status == "approved"`
abbrev pub is_approved : ProposalStatus → Bool
is_approved approved = true
is_approved _ = false

-- `proposal.status == "proposed"`
abbrev pub is_proposed : ProposalStatus → Bool
is_proposed proposed = true
is_proposed _ = false

-- `session.state == SessionState.USER_APPROVAL`
abbrev pub is_user_approval : SessionState → Bool
is_user_approval user_approval = true
is_user_approval _ = false

-- `session.state in {SessionState.MONITORING, SessionState.USER_APPROVAL}`
abbrev pub is_known_state : SessionState → Bool
is_known_state monitoring = true
is_known_state user_approval = true
is_known_state _ = false
