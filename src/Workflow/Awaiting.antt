-- ===== src/Workflow/Awaiting.antt =====
-- app/workflows/nodes.py: a session that waits for an approval names what it waits for.
use jb_wm_backend.Base.{
  String, ◌≡◌, inl, inr, Bool, Option, none, some, List, [], ◌∷◌, ◌==◌, All, Bool-cases,
}
use jb_wm_backend.Models.{AgentSession, ActionProposal}
use jb_wm_backend.Database.{Db, World}
use jb_wm_backend.Database.Rows.{save_row}
use jb_wm_backend.Database.Keeps.{Holds, Keeps, keeps_rules}
use jb_wm_backend.Environment.{Env}
use jb_wm_backend.Executor.{session_id, execute_scoped}
use jb_wm_backend.Workflow.State.{GraphState, Decision}
use jb_wm_backend.Workflow.Decisions.{
  record_and_decide, decide_and_advance, execute_pending, execute_for, execute_action,
}
use jb_wm_backend.Workflow.Deciding.{Step, run, close, Reach, here, next}
use jb_wm_backend.Workflow.Awaits.{execute_scoped-Keeps, record_and_decide-Keeps}
use jb_wm_backend.Workflow.Invariants.{
  IsInvariant, IsWaiting, load_session-Keeps, advance-Keeps, run_node-Keeps,
}

-- Every session that waits for an approval names a proposal.
pub record IsAwaiting (d : Db) : Type 0 where
  pub at : All IsWaiting d.sessions

All-save :
    (s : AgentSession) (rows : List AgentSession)
    → IsWaiting s
    → All IsWaiting rows
    → All IsWaiting (save_row session_id s rows)
All-save s [] waits h = tt
All-save s (x ∷ rows) waits h = elim (Bool-cases (x.id == s.id)) [
  | inl hit ↦ rw hit (waits, All-save s rows waits h.1)
  | inr miss ↦ rw miss (h.0, All-save s rows waits h.1)
]

IsAwaiting-same : (d d' : Db) → d'.sessions ≡ d.sessions → IsAwaiting d → IsAwaiting d'
IsAwaiting-same d d' same h = record { at = rw same h.at }

module _ (env : Env) where
  execute_scoped-IsAwaiting :
      (pid customer : String) (b : Bool) → Keeps IsAwaiting (execute_scoped env pid customer b)
  execute_scoped-IsAwaiting = execute_scoped-Keeps env IsAwaiting-same

  IsAwaiting-IsInvariant : IsInvariant env IsAwaiting
  IsAwaiting-IsInvariant = record {
    other_tables = λ d d' same. IsAwaiting-same d d' same.sessions;
    planned = λ d p new h. record { at = h.at };
    saved = λ d s waits h. record { at = All-save s d.sessions waits h.at };
    executed = execute_scoped-IsAwaiting;
  }

  record_and_decide-IsAwaiting :
      (session : AgentSession) (p : ActionProposal) (subject : String) (decision : Decision)
      → Keeps IsAwaiting (record_and_decide env session p subject decision)
  record_and_decide-IsAwaiting = record_and_decide-Keeps env IsAwaiting-same

  execute_pending-IsAwaiting :
      (subject pending : String) (state : GraphState) (session : AgentSession)
      → Keeps IsAwaiting (execute_pending env subject pending state session)
  unfolding execute_pending decide_and_advance
  execute_pending-IsAwaiting subject pending state session =
      search (keeps_rules, record_and_decide-IsAwaiting, advance-Keeps IsAwaiting-IsInvariant) depth
        20

  execute_for-IsAwaiting :
      (pending : Option String) (subject : String) (state : GraphState) (session : AgentSession)
      → Keeps IsAwaiting (execute_for env pending subject state session)
  unfolding execute_for
  execute_for-IsAwaiting none subject state session = search keeps_rules
  execute_for-IsAwaiting (some pending) subject state session =
      execute_pending-IsAwaiting subject pending state session

  execute_action-IsAwaiting :
      (subject : String) (state : GraphState) → Keeps IsAwaiting (execute_action env subject state)
  unfolding execute_action
  execute_action-IsAwaiting subject state =
      search (keeps_rules, load_session-Keeps IsAwaiting-IsInvariant, execute_for-IsAwaiting) depth
        20

module _ (env : Env) (subject : String) where
  Step-IsAwaiting : {w v : World} → Step env subject w v → Holds IsAwaiting w → Holds IsAwaiting v
  Step-IsAwaiting (run resume n s) h =
      (run_node-Keeps (IsAwaiting-IsInvariant env) (execute_action-IsAwaiting env) subject resume n
          s).at
        _ h
  Step-IsAwaiting close h = record { committed = h.committed; working = h.committed }

  -- However the nodes of the graph run, on whatever states and decisions: if every session that waits
  -- for an approval names a proposal at first, this is so in the tables that they lead to, committed
  -- or not.
  pub Reach-IsAwaiting :
      {w v : World} → Reach env subject w v → Holds IsAwaiting w → Holds IsAwaiting v
  Reach-IsAwaiting here h = h
  Reach-IsAwaiting (next before step) h = Step-IsAwaiting step (Reach-IsAwaiting before h)
