-- ===== src/Workflow/Outcome.antt =====
-- app/workflows/nodes.py: the proposal that `execute_action` leaves, by the decision.
use mathlib.Core.List.{◌++◌}
use mathlib.Core.Option.{Option, some-injective}
use mathlib.Core.Path.{subst}
use jb_wm_backend.Base.{
  arith, String, ◌≡◌, refl, Bool, true, false, none, some, List, [], ◌∷◌, ◌==◌, eq_iff, ◌⊎◌,
  or_text, Option-cases, Bool-cases, inl, inr, if◌then◌else◌,
}
use jb_wm_backend.Models.{
  AgentSession, ActionProposal, ActionExecution, ProposalStatus, approved, executed, failed,
  rejected, deferred,
}
use jb_wm_backend.Database.{Db, World, Result, ok, err, pure, ◌>>=◌, ◌>>◌}
use jb_wm_backend.Database.Rows.{get_row, save_row, key-get_row, get_row-save_row_self}
use jb_wm_backend.Environment.{Env}
use jb_wm_backend.Executor.{proposal_id, execute_scoped}
use jb_wm_backend.Executor.Runs.{execute-IsRecorded, execute_scoped-IsReturned}
use jb_wm_backend.Workflow.State.{GraphState, Decision}
use jb_wm_backend.Workflow.Helpers.{add_event, add_message}
use jb_wm_backend.Workflow.Decisions.{
  decided, decision_of, add_decision, approve, reject, ask_revision, revise, decide,
  record_and_decide, advance, decide_and_advance, execute_pending,
}
use jb_wm_backend.Workflow.Effects.{advance_same, advance-commits}

-- The status that a decision leads to.
abbrev pub Settles : String → ProposalStatus → Type 0
Settles action status =
    ((action ≡ "approve") × ((status ≡ executed) ⊎ (status ≡ failed)))
    ⊎ (((action ≡ "reject") × (status ≡ rejected)) ⊎ ((action ≡ "revise") × (status ≡ deferred)))

-- The decision's proposal in the session's view.
abbrev pub IsDecided : String → String → World → Type 0
IsDecided pid action w =
    (q : ActionProposal) × (get_row proposal_id pid w.working.proposals ≡ some q)
    × Settles action q.status

closed_status :
    (b : Bool)
    → ((if b then executed else failed) ≡ executed) ⊎ ((if b then executed else failed) ≡ failed)
closed_status true = inl refl
closed_status false = inr refl

module _ (env : Env) where
  -- An execution of an approved proposal closes it.
  executed-IsDecided :
      (customer : String) (q : ActionProposal) (w w' : World) (e : ActionExecution)
      → q.status ≡ approved
      → get_row proposal_id q.id w.working.proposals ≡ some q
      → execute_scoped env q.id customer true w ≡ (ok e, w')
      → IsDecided q.id "approve" w'
  executed-IsDecided customer q w w' e status found run =
      let r = execute_scoped-IsReturned env q.id customer true w w' e run in
      let same : r.proposal ≡ q = some-injective r.proposal q (rw (← r.found) found) in
      elim r.outcome [
        | inl (done, _, _) ↦ absurd (ground arith)
        | inr (_, ran, _) ↦
            let recorded = execute-IsRecorded env q w w' e (rw same at ran) in
            let closed : ActionProposal = record q {
              status = if e.status == "success" then executed else failed;
            } in
            (
              closed,
              rw recorded.closed
                  (get_row-save_row_self proposal_id q.id closed q w.working.proposals refl found),
              inl (refl, closed_status (e.status == "success")),
            )
      ]

  -- The event after the execution changes no proposal.
  event-IsDecided :
      (s : AgentSession) (q : ActionProposal) (o : Result ActionExecution) (w v w' : World)
      (out : List ActionExecution)
      → q.status ≡ approved
      → get_row proposal_id q.id w.working.proposals ≡ some q
      → execute_scoped env q.id s.customer_id true w ≡ (o, v)
      → (((λ (u : World). (o, u)) >>= λ execution.
            add_event env s.id "approval" (decided q.id "approve") >> pure (execution ∷ []))
          v)
        ≡ (ok out, w')
      → IsDecided q.id "approve" w'
  unfolding add_event
  event-IsDecided s q (err e) w v w' out status found run rest = absurd (ground arith)
  event-IsDecided s q (ok e) w v w' out status found run rest =
      let same : w'.working.proposals ≡ v.working.proposals = ground arith in
      rw same (executed-IsDecided s.customer_id q w v e status found run)

  approve-IsDecided :
      (s : AgentSession) (p : ActionProposal) (w w' : World) (out : List ActionExecution)
      → get_row proposal_id p.id w.working.proposals ≡ some p
      → approve env s p w ≡ (ok out, w')
      → IsDecided p.id "approve" w'
  unfolding approve
  approve-IsDecided s p w w' out found run =
      let q : ActionProposal = record p { status = approved } in
      let saved : Db = record w.working {
        proposals = save_row proposal_id q w.working.proposals;
      } in
      let u : World = record w { committed = saved; working = saved } in
      event-IsDecided s q (execute_scoped env p.id s.customer_id true u).0 u
        (execute_scoped env p.id s.customer_id true u).1 w' out refl
        (get_row-save_row_self proposal_id p.id q p w.working.proposals refl found) refl run

  reject-IsDecided :
      (s : AgentSession) (p : ActionProposal) (w w' : World) (out : List ActionExecution)
      → get_row proposal_id p.id w.working.proposals ≡ some p
      → reject env s p w ≡ (ok out, w')
      → IsDecided p.id "reject" w'
  unfolding reject add_event
  reject-IsDecided s p w w' out found run =
      let q : ActionProposal = record p { status = rejected } in
      let same : w'.working.proposals ≡ save_row proposal_id q w.working.proposals = ground arith in
      (
        q,
        rw same (get_row-save_row_self proposal_id p.id q p w.working.proposals refl found),
        inr (inl (refl, refl)),
      )

  revise-IsDecided :
      (s : AgentSession) (p : ActionProposal) (note : String) (w w' : World)
      (out : List ActionExecution)
      → get_row proposal_id p.id w.working.proposals ≡ some p
      → revise env s p note w ≡ (ok out, w')
      → IsDecided p.id "revise" w'
  unfolding revise ask_revision add_event add_message
  revise-IsDecided s p note w w' out found run =
      let q : ActionProposal = record p { status = deferred } in
      let same : w'.working.proposals ≡ save_row proposal_id q w.working.proposals = ground arith in
      (
        q,
        rw same (get_row-save_row_self proposal_id p.id q p w.working.proposals refl found),
        inr (inr (refl, refl)),
      )

  decide-IsDecided :
      (s : AgentSession) (p : ActionProposal) (action note : String) (w w' : World)
      (out : List ActionExecution)
      → get_row proposal_id p.id w.working.proposals ≡ some p
      → decide env s p action note w ≡ (ok out, w')
      → IsDecided p.id action w'
  unfolding decide
  decide-IsDecided s p action note w w' out found run = elim (Bool-cases (action == "approve")) [
    | inl e ↦
        rw ((eq_iff action "approve").0 e) (approve-IsDecided s p w w' out found (rw e at run))
    | inr no_approval ↦ elim (Bool-cases (action == "reject")) [
      | inl e ↦
          rw ((eq_iff action "reject").0 e)
            (reject-IsDecided s p w w' out found (rw e at (rw no_approval at run)))
      | inr no_rejection ↦ elim (Bool-cases (action == "revise")) [
        | inl e ↦ rw ((eq_iff action "revise").0 e) (
            revise-IsDecided s p note w w' out found
              (rw e at (rw no_rejection at (rw no_approval at run))))
        | inr unknown ↦ absurd (ground arith)
      ]
    ]
  ]

  record-IsDecided :
      (subject : String) (s : AgentSession) (p : ActionProposal) (d : Decision) (w w' : World)
      (out : List ActionExecution)
      → get_row proposal_id p.id w.working.proposals ≡ some p
      → record_and_decide env s p subject d w ≡ (ok out, w')
      → IsDecided p.id d.decision w'
  unfolding record_and_decide add_decision
  record-IsDecided subject s p d w w' out found run =
      decide-IsDecided s p d.decision d.note _ w' out found run

  -- A run that returns was committed by `advance`.
  advance_end :
      (state : GraphState) (s : AgentSession) (out : List ActionExecution)
      (o : Result (Option String)) (v u w' : World) (after : GraphState)
      → advance env s v ≡ (o, u)
      → (((λ (x : World). (o, u)) >>= λ next. pure (record state {
        pending_proposal_id = next;
        approval_decision = none;
        execution_results = state.execution_results ++ out;
        stage = "ExecuteAction";
      }))
          v)
        ≡ (ok after, w')
      → w'.committed ≡ w'.working
  advance_end state s out (err e) v u w' after run rest = absurd (ground arith)
  advance_end state s out (ok next) v u w' after run rest =
      let same : w' ≡ u = ground arith in rw same (advance-commits env s v u next run)

  -- The session's new state changes no proposal, and everything is committed.
  advance-IsDecided :
      (subject : String) (state after : GraphState) (s : AgentSession) (p : ActionProposal)
      (d : Decision) (o : Result (List ActionExecution)) (w v w' : World)
      → get_row proposal_id p.id w.working.proposals ≡ some p
      → record_and_decide env s p subject d w ≡ (o, v)
      → (((λ (u : World). (o, u)) >>= λ results. advance env s >>= λ next. pure (record state {
        pending_proposal_id = next;
        approval_decision = none;
        execution_results = state.execution_results ++ results;
        stage = "ExecuteAction";
      }))
          v)
        ≡ (ok after, w')
      → IsDecided p.id d.decision w'
        × (w'.committed ≡ w'.working)
        × (after.approval_decision ≡ none)
  advance-IsDecided subject state after s p d (err e) w v w' found run rest = absurd (ground arith)
  advance-IsDecided subject state after s p d (ok out) w v w' found run rest =
      let same : w'.working.proposals ≡ v.working.proposals =
        ground (arith, advance_same env s v) in
      (
        rw same (record-IsDecided subject s p d w v out found run),
        advance_end state s out (advance env s v).0 v (advance env s v).1 w' after refl rest,
        ground arith,
      )

  decide_and_advance-IsDecided :
      (subject : String) (state after : GraphState) (s : AgentSession) (p : ActionProposal)
      (d : Decision) (w w' : World)
      → get_row proposal_id p.id w.working.proposals ≡ some p
      → decide_and_advance env subject state s p d w ≡ (ok after, w')
      → IsDecided p.id d.decision w'
        × (w'.committed ≡ w'.working)
        × (after.approval_decision ≡ none)
  unfolding decide_and_advance
  decide_and_advance-IsDecided subject state after s p d w w' found run =
      let out = record_and_decide env s p subject d w in
      advance-IsDecided subject state after s p d out.0 w out.1 w' found refl run

  -- If `execute_action` on a pending proposal returns, then the decision is an approval, a rejection or
  -- a revision, the proposal is executed or failed, rejected, or deferred accordingly, the decision at
  -- hand is gone, and everything is committed.
  pub execute_pending-IsDecided :
      (subject pending : String) (state after : GraphState) (s : AgentSession) (w w' : World)
      → execute_pending env subject pending state s w ≡ (ok after, w')
      → IsDecided pending (decision_of state.approval_decision).decision w'
        × (w'.committed ≡ w'.working)
        × (after.approval_decision ≡ none)
  unfolding execute_pending
  execute_pending-IsDecided subject pending state after s w w' run =
      let d = decision_of state.approval_decision in
      elim (Bool-cases (or_text d.proposal_id pending == pending)) [
        | inr other ↦ absurd (ground arith)
        | inl named ↦ elim (Option-cases (get_row proposal_id pending w.working.proposals)) [
          | inl missing ↦ absurd (ground arith)
          | inr (p, found) ↦
              let own : p.id ≡ pending =
                key-get_row proposal_id pending w.working.proposals p found in
              let back : pending ≡ p.id = rw own refl in
              subst
                (λ k.
                  IsDecided k d.decision w'
                  × (w'.committed ≡ w'.working)
                  × (after.approval_decision ≡ none))
                own
                (decide_and_advance-IsDecided subject state after s p d w w'
                  (subst (λ k. get_row proposal_id k w.working.proposals ≡ some p) back found)
                  (ground arith))
        ]
      ]
