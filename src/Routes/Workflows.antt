-- ===== src/Routes/Workflows.antt =====
-- app/api/routes/workflows.py: the routes of a workflow thread, over app/workflows/service.py. The
-- routes that stream call the same operations and differ in the form of the answer.
use jb_wm_backend.Base.{String, Bool, Option, [], ◌∷◌, if◌then◌else◌}
use jb_wm_backend.Json.{str, Fields, dict}
use jb_wm_backend.Models.{AgentThread, AgentSession, is_user_approval}
use jb_wm_backend.Database.{Exec, ◌>>=◌, ◌>>◌}
use jb_wm_backend.Environment.{Env}
use jb_wm_backend.Security.{Principal, require_operator}
use jb_wm_backend.Workflow.Service.{
  Graph, ThreadView, serialize_thread, resolve_thread, create_or_reuse_thread, trigger_event,
  record_user_message, submit_decision,
}

module _ (env : Env) where
  -- `get_workflow_session`
  unfoldable pub get_workflow_session : String → Principal → Exec ThreadView
  unfolding serialize_thread
  get_workflow_session thread_id principal = do
    (thread, session) ← resolve_thread env thread_id principal
    serialize_thread thread

  module _ (graph : Graph) where
    -- `create_workflow_session`
    unfoldable pub create_workflow_session : String → Bool → Principal → Exec ThreadView
    create_workflow_session customer_id force_new principal =
        create_or_reuse_thread env graph customer_id principal force_new

    -- `post_workflow_event`
    unfoldable pub post_workflow_event : String → String → Fields → Principal → Exec ThreadView
    post_workflow_event thread_id source payload principal =
        require_operator principal >> trigger_event env graph thread_id principal source payload

    -- `post_workflow_message`, once the thread is resolved.
    unfoldable pub message_to :
        String → String → Principal → AgentThread × AgentSession → Exec ThreadView
    message_to thread_id text principal (thread, session) =
        if is_user_approval session.state
        then record_user_message env thread.graph_thread_id principal text
        else trigger_event env graph thread_id principal "user_utterance"
            (dict (("text", str text) ∷ []))

    -- `post_workflow_message`
    unfoldable pub post_workflow_message : String → String → Principal → Exec ThreadView
    post_workflow_message thread_id text principal =
        resolve_thread env thread_id principal >>= message_to thread_id text principal

    -- `post_workflow_decision`
    unfoldable pub post_workflow_decision :
        String → String → Option String → String → Principal → Exec ThreadView
    post_workflow_decision thread_id decision proposal_id note principal =
        submit_decision env graph thread_id principal decision proposal_id note
