-- ===== src/Workflow/Deciding.antt =====
-- app/workflows/nodes.py: a decision of the customer keeps the invariant that what is released was
-- approved, and so does every run of the graph's nodes.
use mathlib.Core.List.{◌++◌}
use jb_wm_backend.Base.{
  arith, String, ◌≡◌, refl, Bool, true, false, Option, none, some, List, [], ◌∷◌, ◌==◌, eq_iff,
  eq_refl, any, or-true_right, Bool-cases, inl, inr,
}
use jb_wm_backend.Models.{
  AgentSession, ActionProposal, ApprovalDecision, ProposalStatus, approved, rejected, deferred,
}
use jb_wm_backend.Database.{Db, World, pure, commit, ◌>>=◌, ◌>>◌, http}
use jb_wm_backend.Database.Keeps.{
  Holds, Keeps, raise-Keeps, modify-Keeps, bind-Keeps, if-Keeps, keeps_rules,
}
use jb_wm_backend.Environment.{Env}
use jb_wm_backend.Executor.{execute_scoped}
use jb_wm_backend.Workflow.State.{GraphState, Decision}
use jb_wm_backend.Workflow.Nodes.{save_proposal}
use jb_wm_backend.Workflow.Helpers.{add_event}
use jb_wm_backend.Workflow.Decisions.{
  decided, decision_row, add_decision, approve, reject, ask_revision, revise, decide,
  record_and_decide, decide_and_advance, execute_pending, execute_for, execute_action,
}
use jb_wm_backend.Workflow.Graph.{Node, run_node}
use jb_wm_backend.Workflow.Invariants.{
  run_node-Keeps, add_event-Keeps, add_message-Keeps, load_session-Keeps, advance-Keeps,
}
use jb_wm_backend.Workflow.Approval.{
  is_released, approves, HasApproval, IsApproved, IsApproved-save, execute_scoped-IsApproved,
  approval_invariant,
}

any-append :
    (f : ApprovalDecision → Bool) (rows more : List ApprovalDecision)
    → any f rows ≡ true
    → any f (rows ++ more) ≡ true
any-append f [] more h = absurd (ground arith)
any-append f (r ∷ rows) more h = ground (arith, any-append f rows more)

any-last :
    (f : ApprovalDecision → Bool) (rows : List ApprovalDecision) (r : ApprovalDecision)
    → f r ≡ true
    → any f (rows ++ r ∷ []) ≡ true
any-last f [] r h = ground arith
any-last f (x ∷ rows) r h = ground (arith, any-last f rows r h, or-true_right (f x))

-- More decisions keep every approval.
IsApproved-decided :
    (d : Db) (r : ApprovalDecision)
    → IsApproved d
    → IsApproved (record d { decisions = d.decisions ++ r ∷ [] })
IsApproved-decided d r h = record {
  at = λ pid p found needs released.
      any-append (approves pid) d.decisions (r ∷ []) (h.at pid p found needs released);
}

approves-own :
    (r : ApprovalDecision) (pid : String)
    → r.proposal_id ≡ pid
    → r.decision ≡ "approve"
    → approves pid r ≡ true
approves-own r pid same positive = rw same (rw positive (rw (eq_refl pid) refl))

module _ (env : Env) where
  after_approval-Keeps :
      (session : AgentSession) (p : ActionProposal)
      → Keeps IsApproved (
          commit >> execute_scoped env p.id session.customer_id true >>= λ execution.
          add_event env session.id "approval" (decided p.id "approve") >> pure (execution ∷ []))
  after_approval-Keeps session p =
      search (keeps_rules, execute_scoped-IsApproved, add_event-Keeps (approval_invariant env))
        depth 20

  approve-Holds :
      (session : AgentSession) (p : ActionProposal) (w : World)
      → HasApproval p.id w.working.decisions
      → Holds IsApproved w
      → Holds IsApproved (approve env session p w).1
  unfolding approve
  approve-Holds session p w has h = (after_approval-Keeps session p).at _ (record {
    committed = h.committed;
    working = IsApproved-save w.working (record p { status = approved }) (λ _ _. has) h.working;
  })

  unreleased_row-Keeps :
      (p : ActionProposal) (s : ProposalStatus)
      → is_released s ≡ false
      → Keeps IsApproved (save_proposal (record p { status = s }))
  unreleased_row-Keeps p s closed =
      modify-Keeps _
        (λ d. IsApproved-save d (record p { status = s }) (λ _ released. absurd (ground arith)))

  reject-Keeps :
      (session : AgentSession) (p : ActionProposal) → Keeps IsApproved (reject env session p)
  unfolding reject
  reject-Keeps session p =
      bind-Keeps (save_proposal (record p { status = rejected }))
        (λ _. add_event env session.id "approval" (decided p.id "reject") >> pure [])
        (unreleased_row-Keeps p rejected refl)
        (λ _. search (keeps_rules, add_event-Keeps (approval_invariant env)) depth 20)

  ask_revision-Keeps :
      (session : AgentSession) (p : ActionProposal) (note : String)
      → Keeps IsApproved (ask_revision env session p note)
  unfolding ask_revision
  ask_revision-Keeps session p note =
      search
        (
          keeps_rules,
          add_message-Keeps (approval_invariant env),
          add_event-Keeps (approval_invariant env),
        )
        depth 20

  revise-Keeps :
      (session : AgentSession) (p : ActionProposal) (note : String)
      → Keeps IsApproved (revise env session p note)
  unfolding revise
  revise-Keeps session p note =
      bind-Keeps (save_proposal (record p { status = deferred }))
        (λ _. ask_revision env session p note) (unreleased_row-Keeps p deferred refl)
        (λ _. ask_revision-Keeps session p note)

  -- Whatever the decision says, what it releases has its approval.
  decide-Holds :
      (session : AgentSession) (p : ActionProposal) (action note : String) (w : World)
      → (action ≡ "approve" → HasApproval p.id w.working.decisions)
      → Holds IsApproved w
      → Holds IsApproved (decide env session p action note w).1
  unfolding decide
  decide-Holds session p action note w has h = elim (Bool-cases (action == "approve")) [
    | inl e ↦ rw e (approve-Holds session p w (has ((eq_iff action "approve").0 e)) h)
    | inr e ↦ rw e (
        (if-Keeps (action == "reject") (reject env session p) _ (reject-Keeps session p) (
            if-Keeps (action == "revise") (revise env session p note) _
              (revise-Keeps session p note) (raise-Keeps (http 400)))).at
          w h)
  ]

  record_and_decide-Keeps :
      (session : AgentSession) (p : ActionProposal) (subject : String) (decision : Decision)
      → Keeps IsApproved (record_and_decide env session p subject decision)
  unfolding record_and_decide add_decision
  record_and_decide-Keeps session p subject decision = record {
    at = λ w h.
        let row = decision_row env p.id decision.decision subject decision.note w.ticks in
        decide-Holds session p decision.decision decision.note _
          (λ positive.
            any-last (approves p.id) w.working.decisions row (approves-own row p.id refl positive))
          (record {
            committed = h.committed;
            working = IsApproved-decided w.working row h.working;
          });
  }

  execute_pending-Keeps :
      (subject pending : String) (state : GraphState) (session : AgentSession)
      → Keeps IsApproved (execute_pending env subject pending state session)
  unfolding execute_pending decide_and_advance
  execute_pending-Keeps subject pending state session =
      search (keeps_rules, record_and_decide-Keeps, advance-Keeps (approval_invariant env)) depth 20

  execute_for-Keeps :
      (pending : Option String) (subject : String) (state : GraphState) (session : AgentSession)
      → Keeps IsApproved (execute_for env pending subject state session)
  unfolding execute_for
  execute_for-Keeps none subject state session = search keeps_rules
  execute_for-Keeps (some pending) subject state session =
      execute_pending-Keeps subject pending state session

  pub execute_action-Keeps :
      (subject : String) (state : GraphState) → Keeps IsApproved (execute_action env subject state)
  unfolding execute_action
  execute_action-Keeps subject state =
      search (keeps_rules, load_session-Keeps (approval_invariant env), execute_for-Keeps) depth 20

module _ (env : Env) (subject : String) where
  -- What the backend can do next with its tables: run any node in any state with any decision, or
  -- close the request, which drops what was not committed.
  pub data Step (w : World) : World → Type 0 where
    run :
        (resume : Option Decision) (n : Node) (s : GraphState)
        → Step w (run_node env subject resume n s w).1
    close : Step w (record w { working = w.committed })

  -- The worlds that steps lead to.
  pub data Reach (w : World) : World → Type 0 where
    here : Reach w w
    next : {v v' : World} → Reach w v → Step v v' → Reach w v'

  Step-IsApproved : {w v : World} → Step w v → Holds IsApproved w → Holds IsApproved v
  Step-IsApproved (run resume n s) h =
      (run_node-Keeps (approval_invariant env) (execute_action-Keeps env) subject resume n s).at _ h
  Step-IsApproved close h = record { committed = h.committed; working = h.committed }

  -- However the nodes of the graph run, on whatever states and decisions, from tables in which every
  -- released proposal that needs approval has a recorded approval: so do the tables they lead to,
  -- committed or not.
  pub Reach-IsApproved : {w v : World} → Reach w v → Holds IsApproved w → Holds IsApproved v
  Reach-IsApproved here h = h
  Reach-IsApproved (next before step) h = Step-IsApproved step (Reach-IsApproved before h)
