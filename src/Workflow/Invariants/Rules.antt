-- ===== src/Workflow/Invariants/Rules.antt =====
-- What an invariant of proposals, decisions and executions has to meet, and the helpers of the nodes.
use mathlib.Core.List.{◌++◌}
use jb_wm_backend.Base.{String, ◌≡◌, refl, Bool, true, Option, none, some, [], ◌∷◌, is_some, arith}
use jb_wm_backend.Json.{Fields}
use jb_wm_backend.Models.{ActionProposal, AgentSession, proposed, is_user_approval}
use jb_wm_backend.Database.{Db, modify}
use jb_wm_backend.Database.Keeps.{Keeps, modify-Keeps, keeps_rules}
use jb_wm_backend.Environment.{Env}
use jb_wm_backend.Executor.{execute_scoped, session_id}
use jb_wm_backend.Database.Rows.{save_row}
use jb_wm_backend.Workflow.Nodes.{save_session, await}
use jb_wm_backend.Workflow.Decisions.{rest}
use jb_wm_backend.Workflow.State.{GraphState}
use jb_wm_backend.Workflow.Helpers.{require_scope, load_session, add_event, add_message}

-- The tables that decide what may be executed are the same.
pub record SameCore (d d' : Db) : Type 0 where
  pub proposals : d'.proposals ≡ d.proposals
  pub decisions : d'.decisions ≡ d.decisions
  pub executions : d'.executions ≡ d.executions
  pub sessions : d'.sessions ≡ d.sessions

-- A session that waits for an approval names the proposal.
abbrev pub IsWaiting : AgentSession → Type 0
IsWaiting s = is_user_approval s.state ≡ true → is_some s.pending_proposal_id ≡ true

pub record IsInvariant (env : Env) (P : Db → Type 0) : Type 0 where
  pub other_tables : (d d' : Db) → SameCore d d' → P d → P d'
  pub planned :
      (d : Db) (p : ActionProposal)
      → p.status ≡ proposed
      → P d
      → P (record d { proposals = d.proposals ++ p ∷ [] })
  pub saved :
      (d : Db) (s : AgentSession)
      → IsWaiting s
      → P d
      → P (record d { sessions = save_row session_id s d.sessions })
  pub executed : (pid customer : String) (b : Bool) → Keeps P (execute_scoped env pid customer b)

pub await-IsWaiting :
    (o : Option ActionProposal) (s : AgentSession)
    → is_user_approval (await o s).state ≡ true
    → is_some (await o s).pending_proposal_id ≡ true
await-IsWaiting none s h = absurd (ground arith)
await-IsWaiting (some p) s h = refl

pub rest-IsWaiting :
    (env : Env) (s : AgentSession)
    → is_user_approval (rest env s).state ≡ true
    → is_some (rest env s).pending_proposal_id ≡ true
rest-IsWaiting env s h = ground arith

module _ {env : Env} {P : Db → Type 0} (inv : IsInvariant env P) where
  pub other-Keeps :
      (f : Db → Db)
      → ((d : Db) → (f d).proposals ≡ d.proposals)
      → ((d : Db) → (f d).decisions ≡ d.decisions)
      → ((d : Db) → (f d).executions ≡ d.executions)
      → ((d : Db) → (f d).sessions ≡ d.sessions)
      → Keeps P (modify f)
  other-Keeps f p q r s = modify-Keeps f (λ d.
      inv.other_tables d (f d)
        (record { proposals = p d; decisions = q d; executions = r d; sessions = s d }))

  pub save_session-Keeps : (s : AgentSession) → IsWaiting s → Keeps P (save_session s)
  save_session-Keeps s waits = modify-Keeps _ (λ d. inv.saved d s waits)

  pub add_event-Keeps :
      (sid kind : String) (detail : Fields) → Keeps P (add_event env sid kind detail)
  unfolding add_event
  add_event-Keeps sid kind detail = search (keeps_rules, other-Keeps)

  pub add_message-Keeps :
      (sid role content : String) (meta : Fields) → Keeps P (add_message env sid role content meta)
  unfolding add_message
  add_message-Keeps sid role content meta = search (keeps_rules, other-Keeps)

  pub load_session-Keeps : (state : GraphState) → Keeps P (load_session state)
  unfolding load_session require_scope
  load_session-Keeps state = search keeps_rules
