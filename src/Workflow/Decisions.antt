-- ===== src/Workflow/Decisions.antt =====
-- app/workflows/nodes.py: the approval of a pending proposal, the closing nodes and the routers.
use mathlib.Core.List.{◌++◌}
use jb_wm_backend.Base.{
  ℕ, String, true, not, Option, none, some, List, [], ◌∷◌, ◌==◌, if◌then◌else◌, truthy?, or_text,
}
use jb_wm_backend.Json.{str, bool, arr, obj, dict, Items, nil, item, Fields, end}
use jb_wm_backend.Models.{
  AgentSession, ActionProposal, ActionExecution, ApprovalDecision, CustomerMemory, monitoring,
  approved, rejected, deferred,
}
use jb_wm_backend.Database.{
  http, interrupted, Exec, pure, raise, raise_if, gets, or_raise, modify, commit, tick, ◌>>=◌, ◌>>◌,
}
use jb_wm_backend.Database.Rows.{get_row, save_row}
use jb_wm_backend.Environment.{Env}
use jb_wm_backend.Executor.{proposal_id, execute_scoped}
use jb_wm_backend.Workflow.State.{GraphState, Decision}
use jb_wm_backend.Workflow.Helpers.{load_session, add_event, add_message, next_pending_proposal}
use jb_wm_backend.Workflow.Nodes.{memory_id, save_session, save_proposal, await, id_of}

-- The decision of the state, with empty texts where it is absent.
abbrev pub decision_of : Option Decision → Decision
decision_of none = record { decision = ""; proposal_id = ""; note = "" }
decision_of (some d) = d

-- `_execution_dict`
abbrev execution_dict : ActionExecution → Fields
execution_dict e = dict (
    ("id", str e.id)
    ∷ ("proposal_id", str e.proposal_id)
    ∷ ("executor", str e.executor)
    ∷ ("status", str e.status)
    ∷ ("result", obj e.result)
    ∷ [])

abbrev execution_dicts : List ActionExecution → Items
execution_dicts [] = nil
execution_dicts (e ∷ es) = item (obj (execution_dict e)) (execution_dicts es)

abbrev pub decided : String → String → Fields
decided pid action = dict (("proposal_id", str pid) ∷ ("decision", str action) ∷ [])

-- `CustomerMemory(customer_id=…)`, with the defaults of the model.
abbrev new_memory : Env → String → ℕ → CustomerMemory
new_memory env customer_id now = record {
  customer_id = customer_id;
  medical_willingness = "moderate";
  medical_one_time_budget_krw = env.numbers.dec_of 0;
  monthly_medical_budget_krw = env.numbers.dec_of 0;
  medical_budget_ratio = env.numbers.hundredths 0;
  risk_preference = "mid";
  hospital_preference = none;
  investment_style = "balanced";
  constraints = end;
  updated_at = now;
}

-- `approval_interrupt` on the pending proposal, with the value that resumes the graph, if there is
-- one.
unfoldable pub interrupt_for : Option String → Option Decision → GraphState → Exec GraphState
interrupt_for none resume state = pure (record state { stage = "ApprovalSkipped" })
interrupt_for (some pending) resume state = do
  load_session state
  proposal ← or_raise (← gets (λ db. get_row proposal_id pending db.proposals)) (http 404)
  decision ← or_raise resume (interrupted proposal.id)
  pure (record state { approval_decision = some decision; stage = "ApprovalInterrupt" })

-- `approval_interrupt`
unfoldable pub approval_interrupt : Option Decision → GraphState → Exec GraphState
unfolding interrupt_for
approval_interrupt resume state = interrupt_for state.pending_proposal_id resume state

module _ (env : Env) where
  -- The row of a decision.
  abbrev pub decision_row : String → String → String → String → ℕ → ApprovalDecision
  decision_row pid action decided_by note t = record {
    id = env.new_uuid t;
    proposal_id = pid;
    decision = action;
    decided_by = some decided_by;
    note = note;
    decided_at = env.utcnow t;
  }

  unfoldable pub add_decision : String → String → String → String → Exec (Unit {0})
  add_decision pid action decided_by note = do
    t ← tick
    modify (λ db. record db {
      decisions = db.decisions ++ decision_row pid action decided_by note t ∷ [];
    })

  -- The branch of an approval.
  unfoldable pub approve : AgentSession → ActionProposal → Exec (List ActionExecution)
  approve session p = do
    save_proposal (record p { status = approved })
    commit
    execution ← execute_scoped env p.id session.customer_id true
    add_event env session.id "approval" (decided p.id "approve")
    pure (execution ∷ [])

  -- The branch of a rejection.
  unfoldable pub reject : AgentSession → ActionProposal → Exec (List ActionExecution)
  reject session p = do
    save_proposal (record p { status = rejected })
    add_event env session.id "approval" (decided p.id "reject")
    pure []

  -- The message and the event of a revision.
  unfoldable pub ask_revision : AgentSession → ActionProposal → String → Exec (List ActionExecution)
  ask_revision session p note = do
    add_message env session.id "assistant" "수정 요청을 기록했습니다. 원하는 방향을 메시지로 남기면 새 신호로 다시 검토하겠습니다."
        (dict (("kind", str "revision_requested") ∷ ("proposal_id", str p.id) ∷ []))
    add_event env session.id "approval"
        (dict (("proposal_id", str p.id) ∷ ("decision", str "revise") ∷ ("note", str note) ∷ []))
    pure []

  -- The branch of a revision.
  unfoldable pub revise : AgentSession → ActionProposal → String → Exec (List ActionExecution)
  revise session p note = do
    save_proposal (record p { status = deferred })
    ask_revision session p note

  -- The branches of `execute_action` on the decision.
  unfoldable pub decide :
      AgentSession → ActionProposal → String → String → Exec (List ActionExecution)
  decide session p action note =
      if action == "approve"
      then approve session p
      else if action == "reject"
      then reject session p
      else if action == "revise"
      then revise session p note
      else raise (http 400)

  -- The record of a decision, and its effect.
  unfoldable pub record_and_decide :
      AgentSession → ActionProposal → String → Decision → Exec (List ActionExecution)
  record_and_decide session p subject decision = do
    add_decision p.id decision.decision subject decision.note
    decide session p decision.decision decision.note

  -- The end of `execute_action`: the next proposal that waits, and the session's state.
  unfoldable pub advance : AgentSession → Exec (Option String)
  advance session = do
    next ← next_pending_proposal session
    t ← tick
    save_session (record (await next session) { updated_at = env.utcnow t })
    commit
    pure (id_of next)

  -- `execute_action` from the record of the decision on.
  unfoldable pub decide_and_advance :
      String → GraphState → AgentSession → ActionProposal → Decision → Exec GraphState
  decide_and_advance subject state session p decision = do
    results ← record_and_decide session p subject decision
    next ← advance session
    pure (record state {
      pending_proposal_id = next;
      approval_decision = none;
      execution_results = state.execution_results ++ results;
      stage = "ExecuteAction";
    })

  -- `execute_action` on a pending proposal, for the principal who decides.
  unfoldable pub execute_pending : String → String → GraphState → AgentSession → Exec GraphState
  execute_pending subject pending state session = do
    let decision = decision_of state.approval_decision
    raise_if (not (or_text decision.proposal_id pending == pending)) (http 409)
    p ← or_raise (← gets (λ db. get_row proposal_id pending db.proposals)) (http 404)
    decide_and_advance subject state session p decision

  -- `execute_action`, once the session is loaded.
  unfoldable pub execute_for : Option String → String → GraphState → AgentSession → Exec GraphState
  execute_for none subject state session = pure (record state { stage = "ExecuteSkipped" })
  execute_for (some pending) subject state session = execute_pending subject pending state session

  -- `execute_action`
  unfoldable pub execute_action : String → GraphState → Exec GraphState
  execute_action subject state = do
    session ← load_session state
    execute_for state.pending_proposal_id subject state session

  -- `verify_result`
  unfoldable pub verify_result : GraphState → Exec GraphState
  verify_result state = do
    session ← load_session state
    add_event env session.id "graph_state" (
        dict (
          ("stage", str "VerifyResult")
          ∷ ("results", arr (execution_dicts state.execution_results))
          ∷ []))
    commit
    pure (record state { stage = "VerifyResult" })

  -- The memory row of `update_memory`: the stored one with a new time, or a new one.
  unfoldable pub store_memory : Option CustomerMemory → String → ℕ → Exec (Unit {0})
  store_memory (some memory) customer_id now = modify (λ db. record db {
    memories = save_row memory_id (record memory { updated_at = now }) db.memories;
  })
  store_memory none customer_id now =
      modify (λ db. record db { memories = db.memories ++ new_memory env customer_id now ∷ [] })

  unfoldable pub touch_memory : String → ℕ → Exec (Unit {0})
  touch_memory customer_id now = do
    found ← gets (λ db. get_row memory_id customer_id db.memories)
    store_memory found customer_id now

  -- The session of `update_memory`.
  abbrev pub rest : AgentSession → AgentSession
  rest s =
      if truthy? s.pending_proposal_id
      then s
      else record s { state = monitoring; active_needs = none }

  -- `update_memory`
  unfoldable pub update_memory : GraphState → Exec GraphState
  update_memory state = do
    session ← load_session state
    t ← tick
    later ← tick
    touch_memory session.customer_id (env.utcnow t)
    save_session (rest (record session { updated_at = env.utcnow later }))
    add_event env session.id "memory"
        (dict (("stage", str "UpdateMemory") ∷ ("updated", bool true) ∷ []))
    commit
    pure (record state { stage = "Done" })
