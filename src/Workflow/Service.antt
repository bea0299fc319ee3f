-- ===== src/Workflow/Service.antt =====
-- app/workflows/service.py: the threads of a customer, and the order of checks before a run of the
-- graph. The checkpointer and the compiled graph of LangGraph are parameters.
mod Views
unfoldable pub use Views.*
use mathlib.Core.List.{◌++◌}
use jb_wm_backend.Base.{
  newest_first, ℕ, String, Bool, true, false, not, ◌&&◌, Option, none, some, List, [], ◌∷◌, ◌==◌,
  if◌then◌else◌, truthy, truthy?, or_text, where_all,
}
use jb_wm_backend.Json.{str, Fields, end, dict, opt_str}
use jb_wm_backend.Models.{
  Customer, AgentThread, AgentSession, active, stale, is_active, is_known_state, is_user_approval,
  monitoring,
}
use jb_wm_backend.Database.{
  Db, http, Exec, pure, raise, raise_if, gets, or_raise, modify, commit, tick, ◌>>=◌, ◌>>◌,
}
use jb_wm_backend.Database.Rows.{get_row, save_row}
use jb_wm_backend.Environment.{Env, is_local_or_dev}
use jb_wm_backend.Security.{Principal, CustomerScope, as_dict, require_scope_access, scope_digest}
use jb_wm_backend.Executor.{session_id}
use jb_wm_backend.Workflow.State.{GraphState, Decision}
use jb_wm_backend.Workflow.Helpers.{add_message}

-- `TENANT_ID`
abbrev pub tenant : String
tenant = "jbwm"

abbrev pub customer_key : Customer → String
customer_key c = c.id

-- `_scope_for`
abbrev pub scope_for : AgentThread → CustomerScope
scope_for t = record {
  tenant_id = or_text t.tenant_id tenant;
  customer_id = t.customer_id;
  agent_session_id = t.agent_session_id;
  graph_thread_id = t.graph_thread_id;
}

-- The session of a thread waits for an approval.
abbrev pub waits : Option AgentSession → Bool
waits none = false
waits (some s) = is_user_approval s.state

abbrev head : List AgentThread → Option AgentThread
head [] = none
head (t ∷ ts) = some t

-- The loop of `_pick_reusable_thread`, with the thread to take if none waits.
unfoldable pub first_waiting : Db → List AgentThread → Option AgentThread → Option AgentThread
first_waiting db [] other = other
first_waiting db (t ∷ ts) other =
    if waits (get_row session_id t.agent_session_id db.sessions)
    then some t
    else first_waiting db ts other

-- `_pick_reusable_thread`
unfoldable pub pick_reusable_thread : Db → List AgentThread → Option AgentThread
pick_reusable_thread db threads = first_waiting db threads (head threads)

-- The query of `create_or_reuse_thread`.
abbrev pub active_threads : String → Db → List AgentThread
active_threads customer_id db =
    newest_first (λ (t : AgentThread). t.created_at)
      (where_all (λ t. t.customer_id == customer_id && is_active t.status) db.threads)

-- `state` of `trigger_event`
abbrev pub initial_state : AgentThread → String → Fields → GraphState
initial_state t source payload = record {
  scope = as_dict (scope_for t);
  source = source;
  payload = payload;
  data_snapshot_id = none;
  context_hash = none;
  signal = none;
  assessment = none;
  plan = none;
  agent_job_id = none;
  agent_message = none;
  proposal_ids = [];
  pending_proposal_id = none;
  approval_decision = none;
  execution_results = [];
  stage = "Monitoring";
}

-- What the graph is given: a new state, or the decision that resumes it.
pub data GraphInput : Type 0 where
  start : GraphState → GraphInput
  resume : Decision → GraphInput

-- The compiled graph with its checkpointer: whether a thread has a checkpoint with a scope, and an
-- invocation on a thread for a principal.
pub record Graph : Type 0 where
  pub has_checkpoint : AgentThread → Db → Bool
  pub invoke : Principal → AgentThread → GraphInput → Exec (Unit {0})

abbrev save_thread : AgentThread → Exec (Unit {0})
save_thread t = modify (λ db. record db { threads = save_row thread_key t db.threads })

module _ (env : Env) where
  -- The session of a new thread, and the thread.
  abbrev pub new_session : String → ℕ → AgentSession
  new_session customer_id t = record {
    id = env.new_uuid t;
    customer_id = customer_id;
    state = monitoring;
    active_needs = none;
    pending_proposal_id = none;
    recent_context = none;
    failure_reason = none;
    created_at = env.utcnow t;
    updated_at = env.utcnow t;
  }

  abbrev pub new_thread : String → Principal → String → ℕ → AgentThread
  new_thread customer_id principal sid t = record {
    graph_thread_id = env.new_uuid t;
    tenant_id = tenant;
    customer_id = customer_id;
    agent_session_id = sid;
    created_by_principal_id = principal.subject;
    scope_hash = scope_digest env (record {
      tenant_id = tenant;
      customer_id = customer_id;
      agent_session_id = sid;
      graph_thread_id = env.new_uuid t;
    });
    status = active;
    created_at = env.utcnow t;
    updated_at = env.utcnow t;
  }

  -- The end of `create_or_reuse_thread`: a new session and its thread.
  unfoldable pub open_thread : String → Principal → Exec AgentThread
  open_thread customer_id principal = do
    s ← tick
    modify (λ db. record db { sessions = db.sessions ++ new_session customer_id s ∷ [] })
    commit
    t ← tick
    let thread = new_thread customer_id principal (env.new_uuid s) t
    modify (λ db. record db { threads = db.threads ++ thread ∷ [] })
    commit
    pure thread

  -- The session of a thread in `resolve_thread`, with the check of the hash.
  unfoldable pub resolve_session : AgentThread → Exec AgentSession
  resolve_session thread = do
    session ←
        or_raise (← gets (λ db. get_row session_id thread.agent_session_id db.sessions)) (http 403)
    raise_if (not (session.customer_id == thread.customer_id)) (http 403)
    raise_if
        (truthy thread.scope_hash && not (thread.scope_hash == scope_digest env (scope_for thread)))
        (http 403)
    pure session

  -- `resolve_thread`, once the thread is loaded.
  unfoldable pub resolve_loaded : AgentThread → Principal → Exec (AgentThread × AgentSession)
  resolve_loaded thread principal = do
    raise_if (not (is_active thread.status)) (http 404)
    require_scope_access principal thread.customer_id
    session ← resolve_session thread
    pure (thread, session)

  -- `resolve_thread`
  unfoldable pub resolve_thread : String → Principal → Exec (AgentThread × AgentSession)
  resolve_thread id principal = do
    thread ← or_raise (← gets (λ db. get_row thread_key id db.threads)) (http 404)
    resolve_loaded thread principal

  -- `record_user_message`
  unfoldable pub record_user_message : String → Principal → String → Exec ThreadView
  record_user_message id principal text = do
    (thread, session) ← resolve_thread id principal
    add_message env session.id "user" text (
        dict (
          ("kind", str "user_reply")
          ∷ ("pending_proposal_id", opt_str session.pending_proposal_id)
          ∷ []))
    commit
    serialize_thread thread

  module _ (graph : Graph) where
    -- What becomes of the thread that may be used again.
    unfoldable pub reuse_or_open : String → Principal → Option AgentThread → Exec AgentThread
    reuse_or_open customer_id principal none = open_thread customer_id principal
    reuse_or_open customer_id principal (some existing) = do
      checked ← gets (graph.has_checkpoint existing)
      if is_local_or_dev env.settings.app_env && not checked
          then (do
            save_thread (record existing { status = stale })
            commit
            open_thread customer_id principal)
          else pure existing

    -- `create_or_reuse_thread`
    unfoldable pub create_or_reuse_thread : String → Principal → Bool → Exec ThreadView
    create_or_reuse_thread customer_id principal force_new = do
      or_raise (← gets (λ db. get_row customer_key customer_id db.customers)) (http 404)
      require_scope_access principal customer_id
      threads ← gets (active_threads customer_id)
      existing ← gets (λ db. pick_reusable_thread db threads)
      thread ← reuse_or_open customer_id principal (if force_new then none else existing)
      serialize_thread thread

    -- `trigger_event`, once the thread is resolved.
    unfoldable pub start_run :
        Principal → String → Fields → AgentThread × AgentSession → Exec ThreadView
    start_run principal source payload (thread, session) = do
      raise_if (not (is_known_state session.state)) (http 409)
      raise_if (is_user_approval session.state) (http 409)
      graph.invoke principal thread (start (initial_state thread source payload))
      serialize_thread thread

    -- `trigger_event`
    unfoldable pub trigger_event : String → Principal → String → Fields → Exec ThreadView
    trigger_event id principal source payload = do
      resolved ← resolve_thread id principal
      start_run principal source payload resolved

    -- The guards of `submit_decision`, and the decision that they let pass.
    unfoldable pub checked_decision : AgentSession → String → Option String → String → Exec Decision
    checked_decision session decision proposal_id note = do
      raise_if (not (is_user_approval session.state)) (http 409)
      raise_if (not (truthy? session.pending_proposal_id)) (http 409)
      pending ← or_raise session.pending_proposal_id (http 409)
      let target = or_text (or_empty proposal_id) pending
      raise_if (not (target == pending)) (http 409)
      pure (record { decision = decision; proposal_id = target; note = note })

    -- `submit_decision`, once the thread is resolved.
    unfoldable pub resume_run :
        Principal → String → Option String → String → AgentThread × AgentSession → Exec ThreadView
    resume_run principal decision proposal_id note (thread, session) = do
      d ← checked_decision session decision proposal_id note
      graph.invoke principal thread (resume d)
      serialize_thread thread

    -- `submit_decision`
    unfoldable pub submit_decision :
        String → Principal → String → Option String → String → Exec ThreadView
    submit_decision id principal decision proposal_id note = do
      resolved ← resolve_thread id principal
      resume_run principal decision proposal_id note resolved
