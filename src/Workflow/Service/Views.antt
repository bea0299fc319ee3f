-- ===== src/Workflow/Service/Views.antt =====
-- app/workflows/service.py, `serialize_thread`: what a client sees of a thread. The rows stand for
-- their dictionaries, and a missing text for its absence.
use jb_wm_backend.Base.{
  String, not, Option, none, some, List, ◌==◌, if◌then◌else◌, where_all, order_by, newest_first,
  take, any, truthy?,
}
use jb_wm_backend.Models.{
  AgentThread, AgentSession, SessionState, ActiveNeeds, RecentContext, ActionProposal,
  ActionExecution, AgentEvent, AgentMessage, DataSnapshot, AgentJob, is_known_state,
}
use jb_wm_backend.Database.{Db, http, exception, Exec, raise_if, gets, or_raise, ◌>>=◌, ◌>>◌}
use jb_wm_backend.Database.Rows.{get_row}
use jb_wm_backend.Executor.{proposal_id, session_id}
use jb_wm_backend.Workflow.State.{allowed_actions}

abbrev pub thread_key : AgentThread → String
thread_key t = t.graph_thread_id

abbrev pub or_empty : Option String → String
or_empty none = ""
or_empty (some s) = s

pub record ThreadView : Type 0 where
  pub thread_id : String
  pub session_id : String
  pub customer_id : String
  pub state : SessionState
  pub allowed_actions : List String
  pub pending_proposal : Option ActionProposal
  pub active_needs : Option ActiveNeeds
  pub recent_context : Option RecentContext
  pub messages : List AgentMessage
  pub proposals : List ActionProposal
  pub executions : List ActionExecution
  pub events : List AgentEvent
  pub snapshots : List DataSnapshot
  pub agent_jobs : List AgentJob

abbrev pub pending_of : AgentSession → Db → Option ActionProposal
pending_of s db =
    if truthy? s.pending_proposal_id
    then get_row proposal_id (or_empty s.pending_proposal_id) db.proposals
    else none

abbrev pub proposals_of : AgentSession → Db → List ActionProposal
proposals_of s db =
    order_by (λ (p : ActionProposal). p.created_at)
      (where_all (λ p. p.session_id == s.id) db.proposals)

-- `_executions`
abbrev pub executions_of : List ActionProposal → Db → List ActionExecution
executions_of ps db = where_all (λ e. any (λ p. p.id == e.proposal_id) ps) db.executions

-- The dictionary of `serialize_thread`.
abbrev pub view_of : AgentThread → AgentSession → Db → ThreadView
view_of t s db = record {
  thread_id = t.graph_thread_id;
  session_id = s.id;
  customer_id = t.customer_id;
  state = s.state;
  allowed_actions = allowed_actions s.state;
  pending_proposal = pending_of s db;
  active_needs = s.active_needs;
  recent_context = s.recent_context;
  messages =
      order_by (λ (m : AgentMessage). m.created_at)
        (where_all (λ m. m.session_id == s.id) db.messages);
  proposals = proposals_of s db;
  executions = executions_of (proposals_of s db) db;
  events =
      order_by (λ (e : AgentEvent). e.created_at) (where_all (λ e. e.session_id == s.id) db.events);
  snapshots = take 5 (
      newest_first (λ (d : DataSnapshot). d.created_at)
        (where_all (λ d. d.graph_thread_id == t.graph_thread_id) db.snapshots));
  agent_jobs = take 5 (
      newest_first (λ (j : AgentJob). j.created_at)
        (where_all (λ j. j.graph_thread_id == t.graph_thread_id) db.jobs));
}

-- `serialize_thread`
unfoldable pub serialize_thread : AgentThread → Exec ThreadView
serialize_thread t = do
  s ← or_raise (← gets (λ db. get_row session_id t.agent_session_id db.sessions)) (http 404)
  raise_if (not (is_known_state s.state)) (exception "ValueError")
  gets (view_of t s)
