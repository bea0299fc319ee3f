-- ===== src/Workflow/Approval.antt =====
-- Nothing that needs the customer's approval is executed without a recorded approval.
use mathlib.Core.List.{◌++◌}
use jb_wm_backend.Base.{
  String, ◌≡◌, refl, inl, inr, Bool, true, false, ◌&&◌, some, List, [], ◌∷◌, arith, ◌==◌, eq_iff,
  if◌then◌else◌, any, Bool-cases,
}
use jb_wm_backend.Models.{
  ActionProposal, ActionExecution, ApprovalDecision, ProposalStatus, proposed, approved, executed,
  failed,
}
use jb_wm_backend.Database.{Db, World, Result, ok, err}
use jb_wm_backend.Database.Rows.{get_row, save_row, key-get_row, get_row-save_row, get_row-append}
use jb_wm_backend.Database.Keeps.{Holds, Keeps}
use jb_wm_backend.Environment.{Env}
use jb_wm_backend.Executor.{proposal_id, execute_scoped}
use jb_wm_backend.Executor.Frame.{IsAtomic}
use jb_wm_backend.Executor.Gate.{NeedsApproval}
use jb_wm_backend.Executor.Runs.{
  IsRecorded, IsReturned, execute-IsRecorded, execute_scoped-IsReturned, execute_scoped-IsAtomic,
}
use jb_wm_backend.Workflow.Invariants.{IsInvariant}

-- The statuses of a proposal that was released for execution.
abbrev pub is_released : ProposalStatus → Bool
is_released approved = true
is_released executed = true
is_released failed = true
is_released _ = false

abbrev pub approves : String → ApprovalDecision → Bool
approves pid r = r.proposal_id == pid && r.decision == "approve"

-- A decision that approves the proposal is recorded.
abbrev pub HasApproval : String → List ApprovalDecision → Type 0
HasApproval pid rows = any (approves pid) rows ≡ true

-- Every released proposal that needs approval has a recorded approval.
pub record IsApproved (d : Db) : Type 0 where
  pub at :
      (pid : String) (p : ActionProposal)
      → get_row proposal_id pid d.proposals ≡ some p
      → NeedsApproval p
      → is_released p.status ≡ true
      → HasApproval pid d.decisions

-- The invariant looks at proposals and decisions only.
IsApproved-same :
    (d d' : Db)
    → d'.proposals ≡ d.proposals
    → d'.decisions ≡ d.decisions
    → IsApproved d
    → IsApproved d'
IsApproved-same d d' ep ed h = record {
  at = λ pid p found needs released. rw ed (h.at pid p (rw ep at found) needs released);
}

IsApproved-planned :
    (d : Db) (p : ActionProposal)
    → p.status ≡ proposed
    → IsApproved d
    → IsApproved (record d { proposals = d.proposals ++ p ∷ [] })
IsApproved-planned d p new h = record {
  at = λ pid q found needs released.
      ground (arith, get_row-append proposal_id pid d.proposals p, h.at pid q);
}

-- A proposal may be saved with a status that is not released, or once it is approved.
pub IsApproved-save :
    (d : Db) (q : ActionProposal)
    → (NeedsApproval q → is_released q.status ≡ true → HasApproval q.id d.decisions)
    → IsApproved d
    → IsApproved (record d { proposals = save_row proposal_id q d.proposals })
IsApproved-save d q allowed h = record {
  at = λ pid r found needs released. elim (Bool-cases (q.id == pid)) [
    | inl hit ↦
        let saved : r ≡ q = ground (arith, get_row-save_row proposal_id pid q d.proposals) in
        rw (← (eq_iff q.id pid).0 hit) (allowed (rw saved at needs) (rw saved at released))
    | inr other ↦
        h.at pid r (ground (arith, get_row-save_row proposal_id pid q d.proposals)) needs released
  ];
}

-- A recorded run releases its proposal, which was released before if it needs approval.
IsApproved-recorded :
    (pid : String) (p : ActionProposal) (w w' : World) (e : ActionExecution)
    → get_row proposal_id pid w.working.proposals ≡ some p
    → (NeedsApproval p → p.status ≡ approved)
    → IsRecorded p w e w'
    → IsApproved w.working
    → IsApproved w'.working
IsApproved-recorded pid p w w' e found gate r h =
    let closed : ActionProposal = record p {
      status = if e.status == "success" then executed else failed;
    } in
    let same : p.id ≡ pid = key-get_row proposal_id pid w.working.proposals p found in
    IsApproved-same
      (record w.working { proposals = save_row proposal_id closed w.working.proposals }) w'.working
      r.closed r.same_decisions
      (IsApproved-save w.working closed
        (λ needs _. rw same (h.at pid p found needs (rw (gate needs) refl))) h)

module _ (env : Env) where
  returned-IsApproved :
      (pid customer : String) (w w' : World) (e : ActionExecution)
      → IsReturned env pid customer w e w'
      → Holds IsApproved w
      → Holds IsApproved w'
  returned-IsApproved pid customer w w' e r h = elim r.outcome [
    | inl (_, _, same) ↦ rw same h
    | inr (_, run, gate) ↦
        let recorded = execute-IsRecorded env r.proposal w w' e run in
        let now : IsApproved w'.working =
          IsApproved-recorded pid r.proposal w w' e r.found gate recorded h.working in
        record { committed = rw recorded.committed now; working = now }
  ]

  execute_scoped_cases :
      (pid customer : String) (b : Bool) (w : World) (out : Result ActionExecution × World)
      → execute_scoped env pid customer b w ≡ out
      → IsAtomic w out
      → Holds IsApproved w
      → Holds IsApproved out.1
  execute_scoped_cases pid customer b w (ok e, w') run atomic h =
      returned-IsApproved pid customer w w' e
        (execute_scoped-IsReturned env pid customer b w w' e run) h
  execute_scoped_cases pid customer b w (err x, w') run same h = rw same h

  pub execute_scoped-IsApproved :
      (pid customer : String) (b : Bool) → Keeps IsApproved (execute_scoped env pid customer b)
  execute_scoped-IsApproved pid customer b = record {
    at = λ w h.
        execute_scoped_cases pid customer b w (execute_scoped env pid customer b w) refl
          (execute_scoped-IsAtomic env pid customer b w) h;
  }

  pub approval_invariant : IsInvariant env IsApproved
  approval_invariant = record {
    other_tables = λ d d' same. IsApproved-same d d' same.proposals same.decisions;
    planned = IsApproved-planned;
    saved = λ d s waits. IsApproved-same d _ refl refl;
    executed = execute_scoped-IsApproved;
  }
