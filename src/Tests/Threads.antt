-- ===== src/Tests/Threads.antt =====
-- The theorems on threads and on the entry points of a workflow at concrete inputs.
use jb_wm_backend.Base.{arith, ◌≡◌, ◌≢◌, refl, ◌↔◌, inl, inr, true, false, none, some, [], ◌∷◌}
use jb_wm_backend.Json.{end}
use jb_wm_backend.Models.{AgentThread, AgentSession, active, monitoring, operator}
use jb_wm_backend.Database.{Db, World, ok, pure, tick, ◌>>=◌, empty_db}
use jb_wm_backend.Security.{
  Principal, require_operator, require_scope_access, require_customer_access, scope_digest,
}
use jb_wm_backend.Workflow.Service.{
  Graph, resolve_thread, resolve_loaded, resolve_session, serialize_thread, start_run,
  trigger_event, checked_decision, resume_run, submit_decision, open_thread, pick_reusable_thread,
  new_thread, new_session,
}
use jb_wm_backend.Workflow.Threads.{IsResolved, resolve_thread_iff, resolve_thread-open_thread}
use jb_wm_backend.Workflow.Entry.{Admits, AwaitsDecision, submit_decision-Admits}
use jb_wm_backend.Workflow.Reuse.{IsPicked, pick_reusable_thread-IsPicked}
use jb_wm_backend.Routes.Workflows.{post_workflow_event, post_workflow_message}
use jb_wm_backend.Routes.Entry.{post_workflow_event-Admits, post_workflow_message-waiting}
use jb_wm_backend.Tests.Samples.{environment, world, session}

abbrev staff : Principal
staff = record { subject = "u9"; role = operator; customer_id = none }

abbrev thread : AgentThread
thread = record {
  graph_thread_id = "t1";
  tenant_id = "jbwm";
  customer_id = "c1";
  agent_session_id = "s1";
  created_by_principal_id = "u9";
  scope_hash = "hash";
  status = active;
  created_at = 0;
  updated_at = 0;
}

-- A graph that reads the clock once.
abbrev graph : Graph
graph = record { has_checkpoint = λ t d. true; invoke = λ p t i. tick >>= λ _. pure tt }

abbrev tables_of : AgentSession → Db
tables_of s = record empty_db { sessions = s ∷ []; threads = thread ∷ [] }

abbrev world_of : AgentSession → World
world_of s = record { committed = tables_of s; working = tables_of s; ticks = 0 }

abbrev idle_session : AgentSession
idle_session = record session { state = monitoring; pending_proposal_id = none }

resolve_thread_iff_example :
    (resolve_thread environment "t1" staff (world_of session)
      ≡ (ok (thread, session), world_of session))
    ↔ IsResolved environment "t1" staff (tables_of session) thread session
resolve_thread_iff_example =
    resolve_thread_iff environment "t1" staff thread session (world_of session)

resolve_thread-open_thread_example :
    resolve_thread environment "uuid" staff (open_thread environment "c1" staff (world [])).1 ≡ (
      ok (new_thread environment "c1" staff "uuid" 1, new_session environment "c1" 0),
      (open_thread environment "c1" staff (world [])).1,
    )
resolve_thread-open_thread_example =
    resolve_thread-open_thread environment "c1" staff (world []) (inl (inr refl)) refl refl

trigger_changes :
    (post_workflow_event environment graph "t1" "event" end staff (world_of idle_session)).1
    ≢ world_of idle_session
unfolding post_workflow_event require_operator trigger_event start_run serialize_thread
    resolve_thread resolve_loaded resolve_session require_scope_access require_customer_access
    scope_digest
trigger_changes = λ e. ground arith

post_workflow_event-Admits_example :
    (staff.role ≡ operator)
    × Admits environment "t1" staff (world_of idle_session) (λ s. s.state ≡ monitoring)
post_workflow_event-Admits_example =
    post_workflow_event-Admits environment graph "t1" "event" end staff (world_of idle_session)
      trigger_changes

-- A graph that does nothing.
abbrev idle_graph : Graph
idle_graph = record { has_checkpoint = λ t d. false; invoke = λ p t i. pure tt }

post_workflow_message-waiting_example :
    post_workflow_message environment graph "t1" "why?" staff (world_of session)
    ≡ post_workflow_message environment idle_graph "t1" "why?" staff (world_of session)
unfolding resolve_thread resolve_loaded resolve_session require_scope_access require_customer_access
    scope_digest
post_workflow_message-waiting_example =
    post_workflow_message-waiting environment graph idle_graph "t1" "why?" staff thread session
      (world_of session) refl refl

decision_changes :
    (submit_decision environment graph "t1" staff "approve" (some "p1") "" (world_of session)).1
    ≢ world_of session
unfolding submit_decision resume_run checked_decision serialize_thread resolve_thread resolve_loaded
    resolve_session require_scope_access require_customer_access scope_digest
decision_changes = λ e. ground arith

submit_decision-Admits_example :
    Admits environment "t1" staff (world_of session) (AwaitsDecision (some "p1"))
submit_decision-Admits_example =
    submit_decision-Admits environment graph "t1" staff "approve" (some "p1") "" (world_of session)
      decision_changes

pick_reusable_thread-IsPicked_example :
    IsPicked
      (tables_of session)
      (thread ∷ [])
      (pick_reusable_thread (tables_of session) (thread ∷ []))
pick_reusable_thread-IsPicked_example =
    pick_reusable_thread-IsPicked (tables_of session) (thread ∷ [])
