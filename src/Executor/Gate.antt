-- ===== src/Executor/Gate.antt =====
-- Who can make `execute_scoped` execute what.
use jb_wm_backend.Base.{
  String, ◌≡◌, refl, ◌≢◌, ◌⊎◌, inl, inr, Bool, true, some, arith, eq_iff, Option-cases,
}
use jb_wm_backend.Planning.{
  ActionProposalSchema, ActionKind, parse_kind, kind_text, parse_kind-kind_text, book_hospital,
  rebalance_portfolio,
}
use jb_wm_backend.Policy.{evaluate, is_gated, evaluate-needs_approval}
use jb_wm_backend.Models.{ActionProposal, AgentSession, proposed, approved}
use jb_wm_backend.Database.{Db, World, view}
use jb_wm_backend.Database.Rows.{get_row}
use jb_wm_backend.Environment.{Env}
use jb_wm_backend.Executor.Scoped.{
  proposal_id, session_id, schema_of, route, recorded_execution, execute_routed, execute_owned,
  execute_scoped,
}

-- A proposal that only the customer's approval can release.
abbrev pub NeedsApproval : ActionProposal → Type 0
NeedsApproval p =
    (p.has_external_effect ≡ true) ⊎ ((p.kind ≡ "book_hospital") ⊎ (p.kind ≡ "rebalance_portfolio"))

-- What has to hold in the database before a proposal is executed for a customer.
pub record IsAuthorised (d : Db) (pid customer : String) (require_approval : Bool) : Type 0 where
  pub proposal : ActionProposal
  pub session : AgentSession
  pub found : get_row proposal_id pid d.proposals ≡ some proposal
  pub in_session : get_row session_id proposal.session_id d.sessions ≡ some session
  pub owned : session.customer_id ≡ customer
  pub open_status : (proposal.status ≡ proposed) ⊎ (proposal.status ≡ approved)
  pub released : NeedsApproval proposal → (require_approval ≡ true) × (proposal.status ≡ approved)

pub schema_of-fields :
    (p : ActionProposal) (q : ActionProposalSchema)
    → schema_of p ≡ some q
    → (parse_kind p.kind ≡ some q.kind) × (q.has_external_effect ≡ p.has_external_effect)
unfolding schema_of
schema_of-fields p q e = ground arith

gated_text :
    (p : ActionProposal) (q : ActionProposalSchema) (k : ActionKind)
    → schema_of p ≡ some q
    → is_gated k ≡ true
    → p.kind ≡ kind_text k
    → (evaluate q).needs_approval ≡ true
gated_text p q k e gated same =
    let parsed : parse_kind p.kind ≡ some k = rw same (parse_kind-kind_text k) in
    ground (arith, evaluate-needs_approval q, schema_of-fields p q e)

-- The policy asks for approval where `NeedsApproval` holds.
pub schema_needs_approval :
    (p : ActionProposal) (q : ActionProposalSchema)
    → schema_of p ≡ some q
    → NeedsApproval p
    → (evaluate q).needs_approval ≡ true
schema_needs_approval p q e (inl external) =
    ground (arith, evaluate-needs_approval q, schema_of-fields p q e)
schema_needs_approval p q e (inr (inl hospital)) = gated_text p q book_hospital e refl hospital
schema_needs_approval p q e (inr (inr rebalance)) =
    gated_text p q rebalance_portfolio e refl rebalance

module _ (env : Env) where
  execute_routed_released :
      (p : ActionProposal) (b : Bool) (w : World)
      → (view (execute_routed env p b w)).executions ≢ w.working.executions
      → NeedsApproval p
      → (b ≡ true) × (p.status ≡ approved)
  unfolding execute_routed route
  execute_routed_released p b w grown n = elim (Option-cases (schema_of p)) [
    | inl e ↦ absurd (ground arith)
    | inr (q, e) ↦ ground (arith, schema_needs_approval p q e n)
  ]

  recorded_execution_same :
      (p : ActionProposal) (w : World)
      → (view (recorded_execution env p w)).executions ≡ w.working.executions
  unfolding recorded_execution
  recorded_execution_same p w = ground arith

  execute_owned_grown :
      (p : ActionProposal) (s : AgentSession) (customer : String) (b : Bool) (w : World)
      → (view (execute_owned env p s customer b w)).executions ≢ w.working.executions
      → (s.customer_id ≡ customer)
        × ((p.status ≡ proposed) ⊎ (p.status ≡ approved))
        × ((view (execute_routed env p b w)).executions ≢ w.working.executions)
  unfolding execute_owned
  execute_owned_grown p s customer b w grown =
      ground (arith, eq_iff s.customer_id customer, recorded_execution_same p w)

  -- If `execute_scoped` adds an execution, the proposal is stored, its session belongs to the
  -- customer, its status is proposed or approved, and a proposal with an external effect, a hospital
  -- booking or a rebalancing is approved and was executed on the approval path.
  pub execute_scoped-IsAuthorised :
      (pid customer : String) (require_approval : Bool) (w : World)
      → (view (execute_scoped env pid customer require_approval w)).executions
        ≢ w.working.executions
      → IsAuthorised w.working pid customer require_approval
  unfolding execute_scoped
  execute_scoped-IsAuthorised pid customer require_approval w grown =
      elim (Option-cases (get_row proposal_id pid w.working.proposals)) [
        | inl e ↦ absurd (ground arith)
        | inr (p, ep) ↦ elim (Option-cases (get_row session_id p.session_id w.working.sessions)) [
          | inl e ↦ absurd (ground arith)
          | inr (s, es) ↦
              let (owned, open_status, grown_routed) =
                execute_owned_grown p s customer require_approval w (ground arith) in
              record {
                proposal = p;
                session = s;
                found = ep;
                in_session = es;
                owned = owned;
                open_status = open_status;
                released = execute_routed_released p require_approval w grown_routed;
              }
        ]
      ]
