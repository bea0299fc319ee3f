-- ===== src/Workflow/Graph.antt =====
-- app/workflows/wm_graph.py: the nodes and edges of the graph, and the runs that follow them.
-- LangGraph itself is left out: a run is any sequence of node executions along the edges.
use jb_wm_backend.Base.{String, Option, none, some, truthy?, if◌then◌else◌}
use jb_wm_backend.Database.{Exec}
use jb_wm_backend.Environment.{Env}
use jb_wm_backend.Workflow.State.{GraphState, Decision}
use jb_wm_backend.Workflow.Nodes.{
  data_refresh, signal_detect, signal_gate, build_context, spawn_agent, validate_output,
  policy_check,
}
use jb_wm_backend.Workflow.Decisions.{
  approval_interrupt, execute_action, verify_result, update_memory,
}

-- The nodes of `get_workflow_graph`.
pub data Node : Type 0 where
  node_data_refresh node_signal_detect node_signal_gate node_build_context : Node
  node_spawn_agent node_validate_output node_policy_check : Node
  node_approval_interrupt node_execute_action node_verify_result node_update_memory : Node

-- `route_after_policy`
abbrev pub route_after_policy : GraphState → Node
route_after_policy s =
    if truthy? s.pending_proposal_id then node_approval_interrupt else node_verify_result

-- `route_after_execution`
abbrev pub route_after_execution : GraphState → Node
route_after_execution s =
    if truthy? s.pending_proposal_id then node_approval_interrupt else node_verify_result

-- The edge that leaves a node, `none` for `END`.
unfoldable pub next_node : Node → GraphState → Option Node
next_node node_data_refresh s = some node_signal_detect
next_node node_signal_detect s = some node_signal_gate
next_node node_signal_gate s = some node_build_context
next_node node_build_context s = some node_spawn_agent
next_node node_spawn_agent s = some node_validate_output
next_node node_validate_output s = some node_policy_check
next_node node_policy_check s = some (route_after_policy s)
next_node node_approval_interrupt s = some node_execute_action
next_node node_execute_action s = some (route_after_execution s)
next_node node_verify_result s = some node_update_memory
next_node node_update_memory s = none

-- A node's action. `resume` is the decision at hand when an approval is resumed, `subject` who
-- decides.
unfoldable pub run_node : Env → String → Option Decision → Node → GraphState → Exec GraphState
run_node env subject resume node_data_refresh s = data_refresh env s
run_node env subject resume node_signal_detect s = signal_detect env s
run_node env subject resume node_signal_gate s = signal_gate env s
run_node env subject resume node_build_context s = build_context env s
run_node env subject resume node_spawn_agent s = spawn_agent env s
run_node env subject resume node_validate_output s = validate_output env s
run_node env subject resume node_policy_check s = policy_check env s
run_node env subject resume node_approval_interrupt s = approval_interrupt resume s
run_node env subject resume node_execute_action s = execute_action env subject s
run_node env subject resume node_verify_result s = verify_result env s
run_node env subject resume node_update_memory s = update_memory env s
