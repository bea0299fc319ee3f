-- ===== src/Workflow/Effects.antt =====
-- app/workflows/nodes.py: what a decision may change.
use mathlib.Core.List.{◌++◌}
use jb_wm_backend.Base.{
  arith, String, ◌≡◌, ◌≢◌, refl, false, Option, none, some, List, [], ◌∷◌, ◌==◌, eq_iff, or_text,
  Option-cases, inl, inr,
}
use jb_wm_backend.Models.{AgentSession, ActionProposal, ActionExecution}
use jb_wm_backend.Database.{World, Result, ok, err, pure, view, ◌>>=◌}
use jb_wm_backend.Database.Rows.{get_row}
use jb_wm_backend.Environment.{Env}
use jb_wm_backend.Executor.{proposal_id, route}
use jb_wm_backend.Workflow.State.{GraphState, Decision}
use jb_wm_backend.Workflow.Helpers.{
  require_scope, load_session, add_event, add_message, needs_approval, first_gated, open_proposals,
  next_pending_proposal,
}
use jb_wm_backend.Workflow.Decisions.{
  decision_of, add_decision, reject, ask_revision, revise, decide, record_and_decide, advance,
  decide_and_advance, execute_pending, execute_for, execute_action,
}

-- The decision of a state approves its pending proposal.
abbrev pub Releases : GraphState → Type 0
Releases state =
    (pending : String) × (state.pending_proposal_id ≡ some pending)
    × ((decision_of state.approval_decision).decision ≡ "approve")
    × (or_text (decision_of state.approval_decision).proposal_id pending ≡ pending)

first_gated_same : (ps : List ActionProposal) (w : World) → (first_gated ps w).1 ≡ w
unfolding first_gated needs_approval route
first_gated_same [] w = refl
first_gated_same (p ∷ ps) w = ground (arith, first_gated_same ps w)

load_session_same : (state : GraphState) (w : World) → (load_session state w).1 ≡ w
unfolding load_session require_scope
load_session_same state w = ground arith

module _ (env : Env) where
  pub advance_same :
      (s : AgentSession) (w : World)
      → ((view (advance env s w)).executions ≡ w.working.executions)
        × ((view (advance env s w)).proposals ≡ w.working.proposals)
        × ((view (advance env s w)).decisions ≡ w.working.decisions)
  unfolding advance next_pending_proposal
  advance_same s w = ground (arith, first_gated_same (open_proposals s w.working) w)

  pub advance-commits :
      (s : AgentSession) (w w' : World) (next : Option String)
      → advance env s w ≡ (ok next, w')
      → w'.committed ≡ w'.working
  unfolding advance
  advance-commits s w w' next run = ground arith

  -- A decision that is no approval executes nothing.
  decide_unapproved :
      (s : AgentSession) (p : ActionProposal) (action note : String) (w : World)
      → (action == "approve") ≡ false
      → (view (decide env s p action note w)).executions ≡ w.working.executions
  unfolding decide reject revise ask_revision add_event add_message
  decide_unapproved s p action note w other = ground arith

  record_unapproved :
      (s : AgentSession) (p : ActionProposal) (subject : String) (d : Decision) (w : World)
      → (d.decision == "approve") ≡ false
      → (view (record_and_decide env s p subject d w)).executions ≡ w.working.executions
  unfolding record_and_decide add_decision
  record_unapproved s p subject d w other = decide_unapproved s p d.decision d.note _ other

  advance_then :
      (s : AgentSession) (state : GraphState) (out : Result (List ActionExecution)) (v : World)
      → (view (
          ((λ (w : World). (out, w)) >>= λ results. advance env s >>= λ next. pure (record state {
            pending_proposal_id = next;
            approval_decision = none;
            execution_results = state.execution_results ++ results;
            stage = "ExecuteAction";
          }))
            v)).executions
        ≡ v.working.executions
  advance_then s state (ok results) v = ground (arith, advance_same s v)
  advance_then s state (err e) v = refl

  decide_and_advance_unapproved :
      (subject : String) (state : GraphState) (s : AgentSession) (p : ActionProposal) (d : Decision)
      (w : World)
      → (d.decision == "approve") ≡ false
      → (view (decide_and_advance env subject state s p d w)).executions ≡ w.working.executions
  unfolding decide_and_advance
  decide_and_advance_unapproved subject state s p d w other =
      let (out, v) = record_and_decide env s p subject d w in
      rw (advance_then s state out v) (record_unapproved s p subject d w other)

  execute_pending_needs_approve :
      (subject pending : String) (state : GraphState) (s : AgentSession) (w : World)
      → (view (execute_pending env subject pending state s w)).executions ≢ w.working.executions
      → ((decision_of state.approval_decision).decision ≡ "approve")
        × (or_text (decision_of state.approval_decision).proposal_id pending ≡ pending)
  unfolding execute_pending
  execute_pending_needs_approve subject pending state s w grown =
      let d = decision_of state.approval_decision in
      elim (Option-cases (get_row proposal_id pending w.working.proposals)) [
        | inl missing ↦ absurd (ground arith)
        | inr (p, found) ↦ ground (
          arith,
          eq_iff d.decision "approve",
          eq_iff (or_text d.proposal_id pending) pending,
          decide_and_advance_unapproved subject state s p d w,
        )
      ]

  -- The decision that releases an execution, on the pending proposal.
  execute_loaded_needs_approve :
      (subject : String) (state : GraphState) (out : Result AgentSession) (w : World)
      → (view (
          ((λ (v : World). (out, v)) >>= execute_for env state.pending_proposal_id subject state)
            w)).executions
        ≢ w.working.executions
      → Releases state
  unfolding execute_for
  execute_loaded_needs_approve subject state (err e) w grown = absurd (ground arith)
  execute_loaded_needs_approve subject state (ok s) w grown =
      elim (Option-cases state.pending_proposal_id) [
        | inl nothing ↦ absurd (ground arith)
        | inr (pending, some_pending) ↦
            let (positive, named) =
              execute_pending_needs_approve subject pending state s w (ground arith) in
            (pending, some_pending, positive, named)
      ]

  -- If `execute_action` adds an execution, a proposal is pending, the decision at hand is an approval,
  -- and the proposal that it names, if it names one, is the pending one.
  pub execute_action_needs_approve :
      (subject : String) (state : GraphState) (w : World)
      → (view (execute_action env subject state w)).executions ≢ w.working.executions
      → Releases state
  unfolding execute_action
  execute_action_needs_approve subject state w grown =
      let unchanged : (load_session state w).1.working.executions ≡ w.working.executions =
        rw (load_session_same state w) refl in
      execute_loaded_needs_approve subject state (load_session state w).0 (load_session state w).1
        (λ same. grown (cc (same, unchanged)))
