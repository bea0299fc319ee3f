-- ===== src/Executor/Scoped.antt =====
-- app/executor/handlers.py, `execute` and `execute_scoped`.
use jb_wm_backend.Base.{
  String, Bool, not, ◌&&◌, Option, none, some, [], ◌∷◌, ◌++◌, ◌==◌, if◌then◌else◌, first,
}
use jb_wm_backend.Planning.{ActionProposalSchema, no_params, parse_kind}
use jb_wm_backend.Policy.{Routing, evaluate}
use jb_wm_backend.Models.{
  ActionProposal, ActionExecution, AgentSession, ProposalStatus, executed, failed, is_executed,
  is_executable, is_approved,
}
use jb_wm_backend.Database.{
  http, exception, Exec, pure, gets, or_raise, raise_if, modify, commit, tick, ◌>>=◌, ◌>>◌,
}
use jb_wm_backend.Database.Rows.{get_row, save_row}
use jb_wm_backend.Environment.{Env}
use jb_wm_backend.Executor.Handlers.{Outcome, handle}

-- The primary keys.
abbrev pub proposal_id : ActionProposal → String
proposal_id p = p.id

abbrev pub session_id : AgentSession → String
session_id s = s.id

-- The `ActionProposalSchema` of a stored proposal; Pydantic rejects a kind that is no literal.
unfoldable pub schema_of : ActionProposal → Option ActionProposalSchema
schema_of p = elim (parse_kind p.kind) [
  | none ↦ none
  | some kind ↦ some (record {
    kind = kind;
    summary = p.summary;
    has_external_effect = p.has_external_effect;
    execution_summary = "";
    execution_steps = [];
    execution_params = no_params;
    params = p.params;
    rationale = p.rationale;
  })
]

-- `evaluate(ActionProposalSchema(…))` on a stored proposal.
unfoldable pub route : ActionProposal → Exec Routing
route p = do schema ← or_raise (schema_of p) (exception "ValidationError"); pure (evaluate schema)

-- The status after the handler has run.
abbrev pub status_after : Outcome → ProposalStatus
status_after o = if o.status == "success" then executed else failed

module _ (env : Env) where
  -- `execute`
  unfoldable pub execute : ActionProposal → Exec ActionExecution
  execute p = do
    outcome ← handle env p
    t ← tick
    let execution : ActionExecution = record {
      id = env.new_uuid t;
      proposal_id = p.id;
      executor = outcome.executor;
      status = outcome.status;
      result = outcome.result;
      executed_at = env.utcnow t;
    }
    modify (λ db. record db {
      executions = db.executions ++ execution ∷ [];
      proposals = save_row proposal_id (record p { status = status_after outcome }) db.proposals;
    })
    commit
    pure execution

  -- The record that a repeated execution returns.
  unfoldable pub recorded_execution : ActionProposal → Exec ActionExecution
  recorded_execution p = do
    existing ← gets (λ db. first (λ (e : ActionExecution). e.proposal_id == p.id) db.executions)
    or_raise existing (http 409)

  -- The policy check of `execute_scoped`, and the execution.
  unfoldable pub execute_routed : ActionProposal → Bool → Exec ActionExecution
  execute_routed p require_approval = do
    routing ← route p
    raise_if (routing.needs_approval && require_approval && not (is_approved p.status)) (http 409)
    raise_if (routing.needs_approval && not require_approval) (http 409)
    execute p

  -- `execute_scoped`, once the proposal and its session are loaded.
  unfoldable pub execute_owned :
      ActionProposal → AgentSession → String → Bool → Exec ActionExecution
  execute_owned p s customer_id require_approval = do
    raise_if (not (s.customer_id == customer_id)) (http 403)
    if is_executed p.status then recorded_execution p else do
      raise_if (not (is_executable p.status)) (http 409)
      execute_routed p require_approval

  -- `execute_scoped`
  unfoldable pub execute_scoped : String → String → Bool → Exec ActionExecution
  execute_scoped pid customer_id require_approval = do
    p ← or_raise (← gets (λ db. get_row proposal_id pid db.proposals)) (http 404)
    s ← or_raise (← gets (λ db. get_row session_id p.session_id db.sessions)) (http 403)
    execute_owned p s customer_id require_approval
