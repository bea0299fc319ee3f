-- ===== src/Routes/Entry.antt =====
-- app/api/routes/workflows.py: who can move a workflow thread, and when.
use jb_wm_backend.Base.{arith, String, ◌≡◌, ◌≢◌, refl}
use jb_wm_backend.Json.{Fields}
use jb_wm_backend.Models.{AgentThread, AgentSession, operator, monitoring, user_approval}
use jb_wm_backend.Database.{World, ok}
use jb_wm_backend.Environment.{Env}
use jb_wm_backend.Security.{Principal, require_operator}
use jb_wm_backend.Workflow.Service.{Graph, resolve_thread}
use jb_wm_backend.Workflow.Entry.{Admits, trigger_event-Admits}
use jb_wm_backend.Routes.Workflows.{post_workflow_event, post_workflow_message, message_to}

module _ (env : Env) (graph : Graph) where
  -- An event changes something only if the principal is an operator, the thread resolves and its
  -- session is monitoring.
  pub post_workflow_event-Admits :
      (id source : String) (payload : Fields) (p : Principal) (w : World)
      → (post_workflow_event env graph id source payload p w).1 ≢ w
      → (p.role ≡ operator) × Admits env id p w (λ s. s.state ≡ monitoring)
  unfolding post_workflow_event require_operator
  post_workflow_event-Admits id source payload p w changed =
      let role : p.role ≡ operator = ground arith in
      (role, trigger_event-Admits env graph id p source payload w (ground arith))

  waiting_message :
      (other : Graph) (id text : String) (p : Principal) (t : AgentThread) (s : AgentSession)
      (v : World)
      → s.state ≡ user_approval
      → message_to env graph id text p (t, s) v ≡ message_to env other id text p (t, s) v
  unfolding message_to
  waiting_message other id text p t s v waits = rw waits refl

  -- A message to a session that waits for an approval never reaches the graph: what it returns and
  -- what it leaves are the same whatever the graph does.
  pub post_workflow_message-waiting :
      (other : Graph) (id text : String) (p : Principal) (t : AgentThread) (s : AgentSession)
      (w : World)
      → resolve_thread env id p w ≡ (ok (t, s), w)
      → s.state ≡ user_approval
      → post_workflow_message env graph id text p w ≡ post_workflow_message env other id text p w
  unfolding post_workflow_message
  post_workflow_message-waiting other id text p t s w found waits =
      ground (arith, waiting_message other id text p t s w waits)
