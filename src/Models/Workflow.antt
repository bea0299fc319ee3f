-- ===== src/Models/Workflow.antt =====
-- app/models/workflow.py: threads, context snapshots and agent jobs, and the envelope of a signal
-- (app/signals/schemas.py).
use jb_wm_backend.Base.{ℕ, String, Bool, true, false}
use jb_wm_backend.Json.{Fields}
use jb_wm_backend.Planning.{AgentJobOutput}

-- The column `AgentThread.status`.
pub data ThreadStatus : Type 0 where
  active stale : ThreadStatus
  other_thread : String → ThreadStatus

pub record AgentThread : Type 0 where
  pub graph_thread_id : String
  pub tenant_id : String
  pub customer_id : String
  pub agent_session_id : String
  pub created_by_principal_id : String
  pub scope_hash : String
  pub status : ThreadStatus
  pub created_at : ℕ
  pub updated_at : ℕ

pub record DataSnapshot : Type 0 where
  pub id : String
  pub graph_thread_id : String
  pub customer_id : String
  pub context : Fields
  pub context_hash : String
  pub redaction_version : String
  pub created_at : ℕ

-- `AgentJob.result`: empty, the checked output, or an error. The text of the error and the figures
-- of the run (duration, sizes) are left out.
pub data JobOutcome : Type 0 where
  no_result : JobOutcome
  output : AgentJobOutput → JobOutcome
  error : JobOutcome

pub record AgentJob : Type 0 where
  pub id : String
  pub graph_thread_id : String
  pub customer_id : String
  pub data_snapshot_id : String
  pub mode : String
  pub status : String
  pub input_path : String
  pub output_path : String
  pub result : JobOutcome
  pub created_at : ℕ
  pub updated_at : ℕ

-- `SignalSource`
pub data SignalSource : Type 0 where
  event user_utterance detector approval_revision : SignalSource

-- The severities of a signal.
pub data Severity : Type 0 where
  low mid high : Severity

pub record SignalEnvelope : Type 0 where
  pub source : SignalSource
  pub kind : String
  pub severity : Severity
  pub payload : Fields
  pub rationale : String

-- `thread.status == "active"`
abbrev pub is_active : ThreadStatus → Bool
is_active active = true
is_active _ = false
