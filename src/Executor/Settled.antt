-- ===== src/Executor/Settled.antt =====
-- No proposal is executed twice: an open proposal has no recorded execution, and a repeated call
-- returns the record of the first.
use jb_wm_backend.Base.{
  String, ◌≡◌, refl, inl, inr, Bool, true, none, some, arith, ◌==◌, eq_iff, if◌then◌else◌,
}
use jb_wm_backend.Models.{
  ActionProposal, ActionExecution, AgentSession, executed, failed, is_executable,
}
use jb_wm_backend.Database.{Db, World, Result, ok, err, view}
use jb_wm_backend.Database.Rows.{
  get_row, key-get_row, get_row-save_row, get_row-append, get_row-save_row_self,
}
use jb_wm_backend.Environment.{Env}
use jb_wm_backend.Executor.Frame.{IsAtomic}
use jb_wm_backend.Executor.Scoped.{
  proposal_id, session_id, recorded_execution, execute_owned, execute_scoped,
}
use jb_wm_backend.Executor.Runs.{
  executed_proposal, IsRecorded, IsReturned, execute-IsRecorded, execute_scoped-IsReturned,
  execute_scoped-IsAtomic,
}

-- An open proposal, proposed or approved, has no recorded execution.
pub record IsSettled (d : Db) : Type 0 where
  pub unexecuted :
      (pid : String) (p : ActionProposal)
      → get_row proposal_id pid d.proposals ≡ some p
      → is_executable p.status ≡ true
      → get_row executed_proposal pid d.executions ≡ none

-- The record of an execution, and the status that it gives the proposal, settle the proposal.
IsRecorded-IsSettled :
    (pid : String) (p : ActionProposal) (w w' : World) (e : ActionExecution)
    → get_row proposal_id pid w.working.proposals ≡ some p
    → IsRecorded p w e w'
    → IsSettled w.working
    → IsSettled w'.working
IsRecorded-IsSettled pid p w w' e found r settled = record {
  unexecuted = λ qid q at_q is_open.
      let same : p.id ≡ pid = key-get_row proposal_id pid w.working.proposals p found in
      rw r.appended (
        ground (
          arith,
          r.of_proposal,
          r.closed,
          eq_iff p.id qid,
          get_row-save_row proposal_id qid
              (record p { status = if e.status == "success" then executed else failed })
              w.working.proposals,
          get_row-append executed_proposal qid w.working.executions e,
          settled.unexecuted qid q,
        ));
}

module _ (env : Env) where
  returned-IsSettled :
      (pid customer : String) (w w' : World) (e : ActionExecution)
      → IsReturned env pid customer w e w'
      → IsSettled w.working
      → IsSettled w'.working
  returned-IsSettled pid customer w w' e r settled = elim r.outcome [
    | inl (_, _, same) ↦ rw same settled
    | inr (_, run, _) ↦
        IsRecorded-IsSettled pid r.proposal w w' e r.found
          (execute-IsRecorded env r.proposal w w' e run) settled
  ]

  IsSettled-by_cases :
      (pid customer : String) (b : Bool) (w : World) (out : Result ActionExecution × World)
      → execute_scoped env pid customer b w ≡ out
      → IsAtomic w out
      → IsSettled w.working
      → IsSettled (view out)
  IsSettled-by_cases pid customer b w (ok e, w') h atomic settled =
      returned-IsSettled pid customer w w' e (execute_scoped-IsReturned env pid customer b w w' e h)
        settled
  IsSettled-by_cases pid customer b w (err x, w') h same settled = rw same settled

  -- If no open proposal has a recorded execution, none has one after `execute_scoped`, whatever it
  -- answers.
  pub execute_scoped-IsSettled :
      (pid customer : String) (require_approval : Bool) (w : World)
      → IsSettled w.working
      → IsSettled (view (execute_scoped env pid customer require_approval w))
  execute_scoped-IsSettled pid customer b w settled =
      IsSettled-by_cases pid customer b w (execute_scoped env pid customer b w) refl
        (execute_scoped-IsAtomic env pid customer b w) settled

  -- A proposal that is marked executed is answered with its record.
  executed_again :
      (pid customer : String) (b : Bool) (w : World) (p : ActionProposal) (s : AgentSession)
      (e : ActionExecution)
      → get_row proposal_id pid w.working.proposals ≡ some p
      → get_row session_id p.session_id w.working.sessions ≡ some s
      → s.customer_id ≡ customer
      → p.status ≡ executed
      → get_row executed_proposal p.id w.working.executions ≡ some e
      → execute_scoped env pid customer b w ≡ (ok e, w)
  unfolding execute_scoped execute_owned recorded_execution
  executed_again pid customer b w p s e found in_session owned done recorded =
      ground (arith, eq_iff s.customer_id customer)

  fresh_again :
      (pid customer : String) (b : Bool) (w w' : World) (p : ActionProposal) (s : AgentSession)
      (e : ActionExecution)
      → get_row proposal_id pid w.working.proposals ≡ some p
      → get_row session_id p.session_id w.working.sessions ≡ some s
      → s.customer_id ≡ customer
      → get_row executed_proposal p.id w.working.executions ≡ none
      → IsRecorded p w e w'
      → e.status ≡ "success"
      → execute_scoped env pid customer b w' ≡ (ok e, w')
  fresh_again pid customer b w w' p s e found in_session owned clear r success =
      let same : p.id ≡ pid = key-get_row proposal_id pid w.working.proposals p found in
      let closed : ActionProposal = record p {
        status = if e.status == "success" then executed else failed;
      } in
      executed_again pid customer b w' closed s e
        (rw r.closed
          (get_row-save_row_self proposal_id pid closed p w.working.proposals same found))
        (rw r.same_sessions in_session) owned (rw success refl)
        (rw r.appended (
          ground (
            arith,
            r.of_proposal,
            eq_iff e.proposal_id p.id,
            get_row-append executed_proposal p.id w.working.executions e,
          )))

  -- From tables in which open proposals have no recorded execution: once `execute_scoped` has returned
  -- an execution with the status "success", a second call for the proposal returns the same execution
  -- and changes nothing, on the automatic and on the approval path.
  pub execute_scoped_twice :
      (pid customer : String) (b b' : Bool) (w w' : World) (e : ActionExecution)
      → IsSettled w.working
      → execute_scoped env pid customer b w ≡ (ok e, w')
      → e.status ≡ "success"
      → execute_scoped env pid customer b' w' ≡ (ok e, w')
  execute_scoped_twice pid customer b b' w w' e settled h success =
      let r = execute_scoped-IsReturned env pid customer b w w' e h in
      elim r.outcome [
        | inl (done, recorded, same) ↦ rw same (
            executed_again pid customer b' w r.proposal r.session e r.found r.in_session r.owned
              done recorded)
        | inr (is_open, run, _) ↦
            fresh_again pid customer b' w w' r.proposal r.session e r.found r.in_session r.owned
              (rw (key-get_row proposal_id pid w.working.proposals r.proposal r.found)
                (settled.unexecuted pid r.proposal r.found is_open))
              (execute-IsRecorded env r.proposal w w' e run) success
      ]
