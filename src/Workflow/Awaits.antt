-- ===== src/Workflow/Awaits.antt =====
-- app/workflows/nodes.py: for what a session waits once `execute_action` has decided a proposal.
use jb_wm_backend.Base.{
  arith, String, ◌≡◌, refl, ◌⊎◌, inl, inr, Bool, false, Option, none, some, List, All, Option-cases,
}
use jb_wm_backend.Models.{AgentSession, ActionProposal, ActionExecution, user_approval, monitoring}
use jb_wm_backend.Database.{Db, World, Result, ok, err, modify}
use jb_wm_backend.Database.Rows.{get_row, save_row, get_row-save_row_self}
use jb_wm_backend.Database.Keeps.{Holds, Keeps, modify-Keeps, keeps_rules}
use jb_wm_backend.Environment.{Env}
use jb_wm_backend.Executor.{proposal_id, session_id, execute_scoped}
use jb_wm_backend.Executor.Frame.{IsAtomic}
use jb_wm_backend.Executor.Runs.{
  IsReturned, execute-IsRecorded, execute_scoped-IsReturned, execute_scoped-IsAtomic,
}
use jb_wm_backend.Workflow.State.{GraphState, Decision}
use jb_wm_backend.Workflow.Helpers.{add_event, add_message, next_pending_proposal}
use jb_wm_backend.Workflow.Nodes.{await, id_of}
use jb_wm_backend.Workflow.Decisions.{
  add_decision, approve, reject, revise, ask_revision, decide, record_and_decide, advance,
  decide_and_advance, execute_pending, decision_of,
}
use jb_wm_backend.Workflow.Pending.{
  IsRouted, IsQueue, IsNext, next_pending_proposal-IsNext, next_pending_proposal-IsNone,
}

-- A predicate on tables that looks at the sessions alone.
module _ (env : Env) {P : Db → Type 0}
    (same : (d d' : Db) → d'.sessions ≡ d.sessions → P d → P d') where
  returned-sessions :
      (pid customer : String) (w w' : World) (e : ActionExecution)
      → IsReturned env pid customer w e w'
      → Holds P w
      → Holds P w'
  returned-sessions pid customer w w' e r h = elim r.outcome [
    | inl (_, _, unchanged) ↦ rw unchanged h
    | inr (_, executes, gate) ↦
        let recorded = execute-IsRecorded env r.proposal w w' e executes in
        let now = same w.working w'.working recorded.same_sessions h.working in
        record { committed = rw recorded.committed now; working = now }
  ]

  execute_scoped_cases :
      (pid customer : String) (b : Bool) (w : World) (out : Result ActionExecution × World)
      → execute_scoped env pid customer b w ≡ out
      → IsAtomic w out
      → Holds P w
      → Holds P out.1
  execute_scoped_cases pid customer b w (ok e, w') executes atomic h =
      returned-sessions pid customer w w' e
        (execute_scoped-IsReturned env pid customer b w w' e executes) h
  execute_scoped_cases pid customer b w (err x, w') executes unchanged h = rw unchanged h

  pub execute_scoped-Keeps :
      (pid customer : String) (b : Bool) → Keeps P (execute_scoped env pid customer b)
  execute_scoped-Keeps pid customer b = record {
    at = λ w h.
        execute_scoped_cases pid customer b w (execute_scoped env pid customer b w) refl
          (execute_scoped-IsAtomic env pid customer b w) h;
  }

  elsewhere-Keeps : (f : Db → Db) → ((d : Db) → (f d).sessions ≡ d.sessions) → Keeps P (modify f)
  elsewhere-Keeps f kept = modify-Keeps f (λ d. same d (f d) (kept d))

  pub record_and_decide-Keeps :
      (session : AgentSession) (p : ActionProposal) (subject : String) (decision : Decision)
      → Keeps P (record_and_decide env session p subject decision)
  unfolding record_and_decide add_decision decide approve reject revise ask_revision add_event
      add_message
  record_and_decide-Keeps session p subject decision =
      search (keeps_rules, elsewhere-Keeps, execute_scoped-Keeps) depth 40

-- What a session waits for, in committed tables: for the next proposal, or for none.
pub record WaitsFor (s : AgentSession) (next : Option String) (d : Db) : Type 0 where
  pub session : AgentSession
  pub stored : get_row session_id s.id d.sessions ≡ some session
  pub waits :
      ((p : ActionProposal) × (next ≡ some p.id)
        × IsNext s d.proposals p
        × (session.pending_proposal_id ≡ some p.id)
        × (session.state ≡ user_approval))
      ⊎ ((next ≡ none)
          × (queue : List ActionProposal) × IsQueue s d.proposals queue
          × All (IsRouted false) queue
          × (session.pending_proposal_id ≡ none)
          × (session.state ≡ monitoring))

-- The tables have the session as it is.
abbrev pub IsStored : AgentSession → Db → Type 0
IsStored s d = get_row session_id s.id d.sessions ≡ some s

module _ (env : Env) (s : AgentSession) where
  advanced :
      (w w1 w' : World) (next : Option ActionProposal) (out : Option String)
      → next_pending_proposal s w ≡ (ok next, w1)
      → w1 ≡ w
      → advance env s w ≡ (ok out, w')
      → (out ≡ id_of next)
        × (w'.committed.sessions
            ≡ save_row session_id
                (record (await next s) { updated_at = env.utcnow w.ticks })
                w.working.sessions)
        × (w'.committed.proposals ≡ w.working.proposals)
  unfolding advance
  advanced w w1 w' next out finds unchanged run = (ground arith, ground arith, ground arith)

  -- What the session becomes.
  abbrev renewed : Option ActionProposal → World → AgentSession
  renewed next w = record (await next s) { updated_at = env.utcnow w.ticks }

  stored-renewed :
      (next : Option ActionProposal) (w : World) (rows : List AgentSession)
      → (renewed next w).id ≡ s.id
      → rows ≡ save_row session_id (renewed next w) w.working.sessions
      → IsStored s w.working
      → get_row session_id s.id rows ≡ some (renewed next w)
  stored-renewed next w rows same saved stored =
      rw saved
        (get_row-save_row_self session_id s.id (renewed next w) s w.working.sessions same stored)

  advance_cases :
      (w w' : World) (out : Option String) (found : Result (Option ActionProposal) × World)
      → next_pending_proposal s w ≡ found
      → IsStored s w.working
      → advance env s w ≡ (ok out, w')
      → WaitsFor s out w'.committed
  unfolding advance
  advance_cases w w' out (ok (some p), w1) finds stored run =
      let (unchanged, first) = next_pending_proposal-IsNext s w w1 p finds in
      let (next, sessions, proposals) = advanced w w1 w' (some p) out finds unchanged run in
      record {
        session = renewed (some p) w;
        stored = stored-renewed (some p) w w'.committed.sessions refl sessions stored;
        waits = inl (p, next, rw proposals first, refl, refl);
      }
  advance_cases w w' out (ok none, w1) finds stored run =
      let (unchanged, queue, ordered, automatic) = next_pending_proposal-IsNone s w w1 finds in
      let (next, sessions, proposals) = advanced w w1 w' none out finds unchanged run in
      record {
        session = renewed none w;
        stored = stored-renewed none w w'.committed.sessions refl sessions stored;
        waits = inr (next, queue, rw proposals ordered, automatic, refl, refl);
      }
  advance_cases w w' out (err e, w1) finds stored run = absurd (ground arith)

  IsStored-same : (d d' : Db) → d'.sessions ≡ d.sessions → IsStored s d → IsStored s d'
  IsStored-same d d' same h = rw same h

  -- A decision, and then the search for the next proposal.
  decided-WaitsFor :
      (subject : String) (state state' : GraphState) (p : ActionProposal) (decision : Decision)
      (w w' : World) (done : Result (List ActionExecution) × World)
      → record_and_decide env s p subject decision w ≡ done
      → Holds (IsStored s) done.1
      → decide_and_advance env subject state s p decision w ≡ (ok state', w')
      → WaitsFor s state'.pending_proposal_id w'.committed
  unfolding decide_and_advance
  decided-WaitsFor subject state state' p decision w w' (err e, v) decides kept run =
      absurd (ground arith)
  decided-WaitsFor subject state state' p decision w w' (ok results, v) decides kept run =
      moved (advance env s v) refl
    where
      moved :
          (out : Result (Option String) × World)
          → advance env s v ≡ out
          → WaitsFor s state'.pending_proposal_id w'.committed
      moved (ok next, v') goes =
          let same_next : state'.pending_proposal_id ≡ next = ground arith in
          let same_world : w' ≡ v' = ground arith in
          rw (same_next, same_world)
            (advance_cases v v' next (next_pending_proposal s v) refl kept.working goes)
      moved (err e, v') goes = absurd (ground arith)

  -- If `execute_action` on a pending proposal returns, for a session that is stored, the committed
  -- session then waits for the oldest of its open proposals that need approval, whose key the state
  -- carries on; if every open proposal of the session is automatic, it is monitoring, without a pending
  -- proposal.
  pub execute_pending-WaitsFor :
      (subject pending : String) (state state' : GraphState) (w w' : World)
      → Holds (IsStored s) w
      → execute_pending env subject pending state s w ≡ (ok state', w')
      → WaitsFor s state'.pending_proposal_id w'.committed
  unfolding execute_pending
  execute_pending-WaitsFor subject pending state state' w w' stored run =
      elim (Option-cases (get_row proposal_id pending w.working.proposals)) [
        | inl missing ↦ absurd (ground arith)
        | inr (p, found) ↦
            let decision = decision_of state.approval_decision in
            decided-WaitsFor subject state state' p decision w w'
              (record_and_decide env s p subject decision w) refl
              ((record_and_decide-Keeps env IsStored-same s p subject decision).at w stored)
              (ground arith)
      ]
