-- ===== src/Workflow/Invariants.antt =====
-- A rule for invariants of proposals, decisions and executions: what a predicate has to meet so that
-- every node but `execute_action` keeps it.
mod Rules
mod Jobs
pub use Rules.*
use mathlib.Core.List.{◌++◌}
use jb_wm_backend.Base.{
  ℕ, String, ◌≡◌, refl, Bool, Option, none, some, List, [], ◌∷◌, if◌then◌else◌,
}
use jb_wm_backend.Json.{Fields}
use jb_wm_backend.Planning.{ActionProposalSchema, NeedAssessment, Plan}
use jb_wm_backend.Models.{
  AgentSession, ActionProposal, AgentJob, DataSnapshot, SignalEnvelope, proposed, JobOutcome,
  CustomerMemory,
}
use jb_wm_backend.Planning.{AgentJobOutput}
use jb_wm_backend.Database.{Db, Result, ok, err, pure, modify, ◌>>=◌}
use jb_wm_backend.Database.Keeps.{
  Keeps, pure-Keeps, modify-Keeps, bind-Keeps, if-Keeps, keeps_rules,
}
use jb_wm_backend.Environment.{Env}
use jb_wm_backend.Executor.{execute_scoped, route}
use jb_wm_backend.Tools.Keeps.{context-Keeps}
use jb_wm_backend.AgentJobs.{
  new_job, checked_output, reject_forbidden_output_identifiers, finish_job, settle_job, try_job,
  run_job,
}
use jb_wm_backend.Workflow.State.{GraphState, Decision}
use jb_wm_backend.Workflow.Helpers.{
  require_scope, load_session, assert_scope, add_event, add_message, record_assessment,
  proposal_row, add_proposal, add_proposals, persist_plan, record_plan, needs_approval, first_gated,
  next_pending_proposal,
}
use jb_wm_backend.Workflow.Nodes.{
  data_refresh, load_snapshot, signal_detect, signal_gate, build_context, spawn_agent,
  validate_output, policy_loop, policy_check,
}
use jb_wm_backend.Workflow.Decisions.{
  interrupt_for, approval_interrupt, advance, execute_action, verify_result, store_memory,
  touch_memory, update_memory,
}
use jb_wm_backend.Workflow.Graph.{
  Node, node_data_refresh, node_signal_detect, node_signal_gate, node_build_context,
  node_spawn_agent, node_validate_output, node_policy_check, node_approval_interrupt,
  node_execute_action, node_verify_result, node_update_memory, run_node,
}
use jb_wm_backend.Workflow.Invariants.Rules.{
  IsInvariant, save_session-Keeps, await-IsWaiting, rest-IsWaiting, other-Keeps, add_event-Keeps,
  add_message-Keeps, load_session-Keeps,
}
use jb_wm_backend.Workflow.Invariants.Jobs.{run_job-Keeps}

proposed_row :
    (env : Env) (session : AgentSession) (planned : ActionProposalSchema) (t : ℕ)
    → (proposal_row env session planned t).status ≡ proposed
unfolding proposal_row
proposed_row env session planned t = refl

module _ {env : Env} {P : Db → Type 0} (inv : IsInvariant env P) where
  load_snapshot-Keeps : (state : GraphState) → Keeps P (load_snapshot env state)
  unfolding load_snapshot
  load_snapshot-Keeps state = search keeps_rules

  data_refresh-Keeps : (state : GraphState) → Keeps P (data_refresh env state)
  unfolding data_refresh require_scope assert_scope
  data_refresh-Keeps state =
      search
        (
          keeps_rules,
          context-Keeps env,
          load_session-Keeps inv,
          other-Keeps inv,
          add_event-Keeps inv,
        )
        depth 20

  signal_detect-Keeps : (state : GraphState) → Keeps P (signal_detect env state)
  unfolding signal_detect
  signal_detect-Keeps state =
      search
        (
          keeps_rules,
          load_session-Keeps inv,
          load_snapshot-Keeps,
          other-Keeps inv,
          add_event-Keeps inv,
          add_message-Keeps inv,
        )
        depth 20

  signal_gate-Keeps : (state : GraphState) → Keeps P (signal_gate env state)
  unfolding signal_gate
  signal_gate-Keeps state =
      search (keeps_rules, load_session-Keeps inv, add_event-Keeps inv) depth 20

  build_context-Keeps : (state : GraphState) → Keeps P (build_context env state)
  unfolding build_context
  build_context-Keeps state =
      search (keeps_rules, load_session-Keeps inv, add_event-Keeps inv) depth 20

  spawn_agent-Keeps : (state : GraphState) → Keeps P (spawn_agent env state)
  unfolding spawn_agent
  spawn_agent-Keeps state =
      search
        (
          keeps_rules,
          load_session-Keeps inv,
          load_snapshot-Keeps,
          run_job-Keeps inv,
          add_event-Keeps inv,
        )
        depth 20

  validate_output-Keeps : (state : GraphState) → Keeps P (validate_output env state)
  unfolding validate_output
  validate_output-Keeps state =
      search (keeps_rules, load_session-Keeps inv, add_event-Keeps inv) depth 20

  record_assessment-Keeps :
      (session : AgentSession) (a : NeedAssessment) → Keeps P (record_assessment env session a)
  unfolding record_assessment
  record_assessment-Keeps session a = search (keeps_rules, other-Keeps inv)

  add_row-Keeps :
      (session : AgentSession) (planned : ActionProposalSchema) (t : ℕ)
      → Keeps P (
          modify (λ db. record db {
            proposals = db.proposals ++ proposal_row env session planned t ∷ [];
          }))
  add_row-Keeps session planned t =
      modify-Keeps _ (λ d.
        inv.planned d (proposal_row env session planned t) (proposed_row env session planned t))

  add_proposal-Keeps :
      (session : AgentSession) (planned : ActionProposalSchema)
      → Keeps P (add_proposal env session planned)
  unfolding add_proposal
  add_proposal-Keeps session planned = search (keeps_rules, add_row-Keeps)

  add_proposals-Keeps :
      (session : AgentSession) (items : List ActionProposalSchema)
      → Keeps P (add_proposals env session items)
  unfolding add_proposals
  add_proposals-Keeps session [] = search keeps_rules
  add_proposals-Keeps session (p ∷ items) =
      bind-Keeps (add_proposal env session p)
        (λ q. add_proposals env session items >>= λ rest. pure (q ∷ rest))
        (add_proposal-Keeps session p)
        (λ q.
          bind-Keeps (add_proposals env session items) (λ rest. pure (q ∷ rest))
            (add_proposals-Keeps session items) (λ rest. pure-Keeps (q ∷ rest)))

  persist_plan-Keeps :
      (session : AgentSession) (plan : Plan) → Keeps P (persist_plan env session plan)
  unfolding persist_plan
  persist_plan-Keeps session plan = search (keeps_rules, add_proposals-Keeps)

  record_plan-Keeps :
      (session : AgentSession) (plan : Plan) (ps : List ActionProposal) (message : String)
      → Keeps P (record_plan env session plan ps message)
  unfolding record_plan
  record_plan-Keeps session plan ps message =
      search (keeps_rules, other-Keeps inv, add_message-Keeps inv) depth 20

  needs_approval-Keeps : (p : ActionProposal) → Keeps P (needs_approval p)
  unfolding needs_approval route
  needs_approval-Keeps p = search keeps_rules

  policy_loop-Keeps :
      (customer : String) (ps : List ActionProposal) (pending : Option ActionProposal)
      (done : List String)
      → Keeps P (policy_loop env customer ps pending done)
  unfolding policy_loop
  policy_loop-Keeps customer [] pending done = search keeps_rules
  policy_loop-Keeps customer (p ∷ ps) pending done =
      search (keeps_rules, needs_approval-Keeps, inv.executed, policy_loop-Keeps customer ps) depth
        20

  policy_check-Keeps : (state : GraphState) → Keeps P (policy_check env state)
  unfolding policy_check
  policy_check-Keeps state =
      search
        (
          keeps_rules,
          load_session-Keeps inv,
          record_assessment-Keeps,
          persist_plan-Keeps,
          record_plan-Keeps,
          policy_loop-Keeps,
          save_session-Keeps inv,
          await-IsWaiting,
          other-Keeps inv,
          add_event-Keeps inv,
        )
        depth 30

  first_gated-Keeps : (ps : List ActionProposal) → Keeps P (first_gated ps)
  unfolding first_gated
  first_gated-Keeps [] = search keeps_rules
  first_gated-Keeps (p ∷ ps) =
      bind-Keeps (needs_approval p) (λ gated. if gated then pure (some p) else first_gated ps)
        (needs_approval-Keeps p)
        (λ gated.
          if-Keeps gated (pure (some p)) (first_gated ps) (pure-Keeps (some p))
            (first_gated-Keeps ps))

  pub next_pending_proposal-Keeps :
      (session : AgentSession) → Keeps P (next_pending_proposal session)
  unfolding next_pending_proposal
  next_pending_proposal-Keeps session = search (keeps_rules, first_gated-Keeps)

  interrupt_for-Keeps :
      (pending : Option String) (resume : Option Decision) (state : GraphState)
      → Keeps P (interrupt_for pending resume state)
  unfolding interrupt_for
  interrupt_for-Keeps none resume state = search keeps_rules
  interrupt_for-Keeps (some pending) resume state =
      search (keeps_rules, load_session-Keeps inv) depth 20

  pub advance-Keeps : (session : AgentSession) → Keeps P (advance env session)
  unfolding advance
  advance-Keeps session =
      search (keeps_rules, next_pending_proposal-Keeps, save_session-Keeps inv, await-IsWaiting)
        depth 20

  verify_result-Keeps : (state : GraphState) → Keeps P (verify_result env state)
  unfolding verify_result
  verify_result-Keeps state =
      search (keeps_rules, load_session-Keeps inv, add_event-Keeps inv) depth 20

  store_memory-Keeps :
      (found : Option CustomerMemory) (customer : String) (now : ℕ)
      → Keeps P (store_memory env found customer now)
  unfolding store_memory
  store_memory-Keeps none customer now = search (keeps_rules, other-Keeps inv)
  store_memory-Keeps (some m) customer now = search (keeps_rules, other-Keeps inv)

  update_memory-Keeps : (state : GraphState) → Keeps P (update_memory env state)
  unfolding update_memory touch_memory
  update_memory-Keeps state =
      search
        (
          keeps_rules,
          load_session-Keeps inv,
          store_memory-Keeps,
          save_session-Keeps inv,
          rest-IsWaiting env,
          add_event-Keeps inv,
        )
        depth 20

  -- A run of any node keeps the invariant if `execute_action` does.
  pub run_node-Keeps :
      ((subject : String) (state : GraphState) → Keeps P (execute_action env subject state))
      → (subject : String) (resume : Option Decision) (n : Node) (state : GraphState)
      → Keeps P (run_node env subject resume n state)
  unfolding run_node approval_interrupt
  run_node-Keeps deciding subject resume node_data_refresh s = data_refresh-Keeps s
  run_node-Keeps deciding subject resume node_signal_detect s = signal_detect-Keeps s
  run_node-Keeps deciding subject resume node_signal_gate s = signal_gate-Keeps s
  run_node-Keeps deciding subject resume node_build_context s = build_context-Keeps s
  run_node-Keeps deciding subject resume node_spawn_agent s = spawn_agent-Keeps s
  run_node-Keeps deciding subject resume node_validate_output s = validate_output-Keeps s
  run_node-Keeps deciding subject resume node_policy_check s = policy_check-Keeps s
  run_node-Keeps deciding subject resume node_approval_interrupt s =
      interrupt_for-Keeps s.pending_proposal_id resume s
  run_node-Keeps deciding subject resume node_execute_action s = deciding subject s
  run_node-Keeps deciding subject resume node_verify_result s = verify_result-Keeps s
  run_node-Keeps deciding subject resume node_update_memory s = update_memory-Keeps s
