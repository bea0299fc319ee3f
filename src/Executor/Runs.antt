-- ===== src/Executor/Runs.antt =====
-- What a call of `execute_scoped` that returns has done.
use jb_wm_backend.Base.{
  String, ◌≡◌, ◌⊎◌, inl, inr, Bool, true, some, [], ◌∷◌, ◌++◌, arith, ◌==◌, eq_iff, if◌then◌else◌,
  Option-cases, Bool-cases,
}
use jb_wm_backend.Models.{
  ActionProposal, ActionExecution, AgentSession, executed, failed, approved, is_executed,
  is_executable,
}
use jb_wm_backend.Database.{World, ok}
use jb_wm_backend.Database.Rows.{get_row, save_row}
use jb_wm_backend.Environment.{Env}
use jb_wm_backend.Executor.Scoped.{
  proposal_id, session_id, schema_of, route, execute, recorded_execution, execute_routed,
  execute_owned, execute_scoped,
}
use jb_wm_backend.Executor.Gate.{NeedsApproval, schema_needs_approval}
use jb_wm_backend.Executor.Frame.{IsAtomic, handle-Keeps, handle-IsAtomic}

-- The key by which executions are searched.
abbrev pub executed_proposal : ActionExecution → String
executed_proposal e = e.proposal_id

-- A run of a handler that was recorded.
pub record IsRecorded (p : ActionProposal) (w : World) (e : ActionExecution) (w' : World)
    : Type 0 where
  pub of_proposal : e.proposal_id ≡ p.id
  pub appended : w'.working.executions ≡ w.working.executions ++ e ∷ []
  pub closed :
      w'.working.proposals
      ≡ save_row proposal_id
          (record p { status = if e.status == "success" then executed else failed })
          w.working.proposals
  pub same_sessions : w'.working.sessions ≡ w.working.sessions
  pub same_decisions : w'.working.decisions ≡ w.working.decisions
  pub same_threads : w'.working.threads ≡ w.working.threads
  pub committed : w'.committed ≡ w'.working

module _ (env : Env) where
  pub execute-IsRecorded :
      (p : ActionProposal) (w w' : World) (e : ActionExecution)
      → execute env p w ≡ (ok e, w')
      → IsRecorded p w e w'
  unfolding execute
  execute-IsRecorded p w w' e h = ground (arith, handle-Keeps env p w)

  pub execute-IsAtomic : (p : ActionProposal) (w : World) → IsAtomic w (execute env p w)
  unfolding execute
  execute-IsAtomic p w = ground (arith, handle-IsAtomic env p w)

  execute_routed-IsAtomic :
      (p : ActionProposal) (b : Bool) (w : World) → IsAtomic w (execute_routed env p b w)
  unfolding execute_routed route
  execute_routed-IsAtomic p b w = ground (arith, execute-IsAtomic p w)

  recorded_execution-IsAtomic :
      (p : ActionProposal) (w : World) → IsAtomic w (recorded_execution env p w)
  unfolding recorded_execution
  recorded_execution-IsAtomic p w = ground arith

  execute_owned-IsAtomic :
      (p : ActionProposal) (s : AgentSession) (customer : String) (b : Bool) (w : World)
      → IsAtomic w (execute_owned env p s customer b w)
  unfolding execute_owned
  execute_owned-IsAtomic p s customer b w =
      ground (arith, execute_routed-IsAtomic p b w, recorded_execution-IsAtomic p w)

  -- A call of `execute_scoped` that raises has changed nothing, whatever it raises.
  pub execute_scoped-IsAtomic :
      (pid customer : String) (require_approval : Bool) (w : World)
      → IsAtomic w (execute_scoped env pid customer require_approval w)
  unfolding execute_scoped
  execute_scoped-IsAtomic pid customer require_approval w = grind (arith, execute_owned-IsAtomic)

-- How a call came to return an execution: it was recorded before, or it was made now.
pub record IsReturned (env : Env) (pid customer : String) (w : World) (e : ActionExecution)
    (w' : World) : Type 0 where
  pub proposal : ActionProposal
  pub session : AgentSession
  pub found : get_row proposal_id pid w.working.proposals ≡ some proposal
  pub in_session : get_row session_id proposal.session_id w.working.sessions ≡ some session
  pub owned : session.customer_id ≡ customer
  pub outcome :
      ((proposal.status ≡ executed)
        × (get_row executed_proposal proposal.id w.working.executions ≡ some e)
        × (w' ≡ w))
      ⊎ ((is_executable proposal.status ≡ true)
          × (execute env proposal w ≡ (ok e, w'))
          × (NeedsApproval proposal → proposal.status ≡ approved))

-- The two ways in which a loaded proposal yields an execution.
abbrev Returns : Env → ActionProposal → World → ActionExecution → World → Type 0
Returns env p w e w' =
    ((p.status ≡ executed)
      × (get_row executed_proposal p.id w.working.executions ≡ some e)
      × (w' ≡ w))
    ⊎ ((is_executable p.status ≡ true)
        × (execute env p w ≡ (ok e, w'))
        × (NeedsApproval p → p.status ≡ approved))

module _ (env : Env) where
  execute_routed-returns :
      (p : ActionProposal) (b : Bool) (w w' : World) (e : ActionExecution)
      → execute_routed env p b w ≡ (ok e, w')
      → (execute env p w ≡ (ok e, w')) × (NeedsApproval p → p.status ≡ approved)
  unfolding execute_routed route
  execute_routed-returns p b w w' e h = elim (Option-cases (schema_of p)) [
    | inl bad ↦ absurd (ground arith)
    | inr (q, eq) ↦ (ground arith, λ n. ground (arith, schema_needs_approval p q eq n))
  ]

  recorded_execution-returns :
      (p : ActionProposal) (w w' : World) (e : ActionExecution)
      → recorded_execution env p w ≡ (ok e, w')
      → (get_row executed_proposal p.id w.working.executions ≡ some e) × (w' ≡ w)
  unfolding recorded_execution
  recorded_execution-returns p w w' e h = ground arith

  execute_owned-Returns :
      (p : ActionProposal) (s : AgentSession) (customer : String) (b : Bool) (w w' : World)
      (e : ActionExecution)
      → execute_owned env p s customer b w ≡ (ok e, w')
      → (s.customer_id ≡ customer) × Returns env p w e w'
  unfolding execute_owned
  execute_owned-Returns p s customer b w w' e h =
      let owned : s.customer_id ≡ customer = ground (arith, eq_iff s.customer_id customer) in
      (
        owned,
        elim (Bool-cases (is_executed p.status)) [
          | inl done ↦
              let (recorded, same) =
                recorded_execution-returns p w w' e
                  (ground (arith, eq_iff s.customer_id customer)) in
              inl (ground arith, recorded, same)
          | inr fresh ↦
              let (run, released) =
                execute_routed-returns p b w w' e (ground (arith, eq_iff s.customer_id customer)) in
              inr (ground (arith, eq_iff s.customer_id customer), run, released)
        ],
      )

  -- If `execute_scoped` returns an execution, the proposal is stored in a session of the customer, and
  -- either it was executed before, the execution is its recorded one and nothing has changed, or it was
  -- executable, `execute` made the execution, and it was approved if it needs approval.
  pub execute_scoped-IsReturned :
      (pid customer : String) (require_approval : Bool) (w w' : World) (e : ActionExecution)
      → execute_scoped env pid customer require_approval w ≡ (ok e, w')
      → IsReturned env pid customer w e w'
  unfolding execute_scoped
  execute_scoped-IsReturned pid customer require_approval w w' e h =
      elim (Option-cases (get_row proposal_id pid w.working.proposals)) [
        | inl missing ↦ absurd (ground arith)
        | inr (p, ep) ↦ elim (Option-cases (get_row session_id p.session_id w.working.sessions)) [
          | inl missing ↦ absurd (ground arith)
          | inr (s, es) ↦
              let (owned, outcome) =
                execute_owned-Returns p s customer require_approval w w' e (ground arith) in
              record {
                proposal = p;
                session = s;
                found = ep;
                in_session = es;
                owned = owned;
                outcome = outcome;
              }
        ]
      ]
