-- ===== src/Tests/Decisions.antt =====
-- The theorems on the workflow's decisions at concrete inputs.
use jb_wm_backend.Base.{arith, ◌≡◌, ◌≢◌, refl, none, some, [], ◌∷◌}
use jb_wm_backend.Policy.{evaluate}
use jb_wm_backend.Models.{ActionProposal, proposed}
use jb_wm_backend.Database.{World, Result, ok, view}
use jb_wm_backend.Database.Keeps.{Holds}
use jb_wm_backend.Executor.{
  execute_scoped, execute_owned, execute_routed, execute, route, schema_of, handle,
}
use jb_wm_backend.Planning.{parse_kind}
use jb_wm_backend.Workflow.{
  GraphState, node_execute_action, run_node, execute_action, execute_for, execute_pending,
  load_session, require_scope, decide_and_advance, record_and_decide, add_decision, decide, approve,
  advance, add_event, needs_approval, first_gated, next_pending_proposal, reject,
}
use jb_wm_backend.Workflow.Approval.{IsApproved}
use jb_wm_backend.Workflow.Awaits.{WaitsFor, execute_pending-WaitsFor}
use jb_wm_backend.Workflow.Deciding.{Reach, here, next, run, Reach-IsApproved}
use jb_wm_backend.Workflow.Effects.{Releases, execute_action_needs_approve}
use jb_wm_backend.Workflow.Outcome.{IsDecided, execute_pending-IsDecided}
use jb_wm_backend.Workflow.Pending.{IsNext, next_pending_proposal-IsNext}
use jb_wm_backend.Tests.Samples.{environment, proposal, world, session, state, decision}

-- A pending hospital booking, after a report.
abbrev booking : ActionProposal
booking = proposal "p1" "book_hospital" proposed

abbrev report : ActionProposal
report = proposal "p0" "report" proposed

abbrev start : World
start = world (report ∷ booking ∷ [])

start-IsApproved : Holds IsApproved start
start-IsApproved = record {
  committed = record { at = λ pid p found needs released. absurd (ground arith) };
  working = record { at = λ pid p found needs released. absurd (ground arith) };
}

-- The world once the customer has approved the booking.
abbrev approved_world : World
approved_world =
    (run_node environment "u1" none node_execute_action (state (some (decision "approve"))) start).1

approving : Reach environment "u1" start approved_world
approving = next here (run none node_execute_action (state (some (decision "approve"))))

Reach-IsApproved_example : Holds IsApproved approved_world
Reach-IsApproved_example = Reach-IsApproved environment "u1" approving start-IsApproved

approval_executes :
    (view (execute_action environment "u1" (state (some (decision "approve"))) start)).executions
    ≢ start.working.executions
unfolding execute_action execute_for execute_pending load_session require_scope decide_and_advance
    record_and_decide add_decision decide approve advance add_event needs_approval first_gated
    next_pending_proposal execute_scoped execute_owned execute_routed execute route schema_of handle
    evaluate parse_kind
approval_executes = λ e. ground arith

execute_action_needs_approve_example : Releases (state (some (decision "approve")))
execute_action_needs_approve_example =
    execute_action_needs_approve environment "u1" (state (some (decision "approve"))) start
      approval_executes

abbrev rejection : Result GraphState × World
rejection = execute_pending environment "u1" "p1" (state (some (decision "reject"))) session start

abbrev rejected_state : GraphState
rejected_state = record (state none) { pending_proposal_id = none; stage = "ExecuteAction" }

rejection_returns : rejection ≡ (ok rejected_state, rejection.1)
unfolding execute_pending decide_and_advance record_and_decide add_decision decide reject advance
    add_event needs_approval first_gated next_pending_proposal route schema_of evaluate parse_kind
rejection_returns = refl

-- The session once the booking is rejected: nothing else waits.
execute_pending-WaitsFor_example : WaitsFor session none rejection.1.committed
execute_pending-WaitsFor_example =
    execute_pending-WaitsFor environment session "u1" "p1" (state (some (decision "reject")))
      rejected_state start rejection.1 (record { committed = refl; working = refl })
      rejection_returns

execute_pending-IsDecided_example :
    IsDecided "p1" "reject" rejection.1
    × (rejection.1.committed ≡ rejection.1.working)
    × (rejected_state.approval_decision ≡ none)
execute_pending-IsDecided_example =
    execute_pending-IsDecided environment "u1" "p1" (state (some (decision "reject")))
      rejected_state session start rejection.1 rejection_returns

booking_is_next : next_pending_proposal session start ≡ (ok (some booking), start)
unfolding next_pending_proposal first_gated needs_approval route schema_of evaluate parse_kind
booking_is_next = refl

next_pending_proposal-IsNext_example :
    (start ≡ start) × IsNext session start.working.proposals booking
next_pending_proposal-IsNext_example =
    next_pending_proposal-IsNext session start start booking booking_is_next
