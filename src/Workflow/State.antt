-- ===== src/Workflow/State.antt =====
-- app/workflows/state.py and session_state.py: the graph state of one run. Values that the nodes
-- dump and validate again are kept typed; LangGraph merges the dictionary that a node returns into
-- the state, which here is the new state.
use jb_wm_backend.Base.{String, Option, List, [], ◌∷◌}
use jb_wm_backend.Json.{Fields}
use jb_wm_backend.Planning.{NeedAssessment, Plan}
use jb_wm_backend.Models.{SignalEnvelope, ActionExecution, SessionState, user_approval}

-- The dictionary with which an approval resumes the graph.
pub record Decision : Type 0 where
  pub decision : String
  pub proposal_id : String
  pub note : String

-- `WMGraphState`; an absent key is `none` or an empty list.
pub record GraphState : Type 0 where
  pub scope : List (String × String)
  pub source : String
  pub payload : Fields
  pub data_snapshot_id : Option String
  pub context_hash : Option String
  pub signal : Option SignalEnvelope
  pub assessment : Option NeedAssessment
  pub plan : Option Plan
  pub agent_job_id : Option String
  pub agent_message : Option String
  pub proposal_ids : List String
  pub pending_proposal_id : Option String
  pub approval_decision : Option Decision
  pub execution_results : List ActionExecution
  pub stage : String

-- `allowed_actions`
abbrev pub allowed_actions : SessionState → List String
allowed_actions user_approval = "approve" ∷ "reject" ∷ "revise" ∷ []
allowed_actions _ = []
