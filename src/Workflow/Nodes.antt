-- ===== src/Workflow/Nodes.antt =====
-- app/workflows/nodes.py: the nodes of the graph, from `data_refresh` to the routers.
use mathlib.Core.List.{◌++◌}
use jb_wm_backend.Base.{
  String, Bool, true, false, Option, none, some, List, [], ◌∷◌, if◌then◌else◌, length,
}
use jb_wm_backend.Json.{int, pos, str, arr, obj, Fields, dict, opt_str}
use jb_wm_backend.Planning.{need_text}
use jb_wm_backend.Models.{
  AgentSession, ActionProposal, DataSnapshot, CustomerMemory, monitoring, user_approval,
  SignalSource, user_utterance,
}
use jb_wm_backend.Database.{
  http, exception, Exec, pure, gets, or_raise, modify, commit, tick, ◌>>=◌, ◌>>◌,
}
use jb_wm_backend.Database.Rows.{get_row, save_row}
use jb_wm_backend.Environment.{Env}
use jb_wm_backend.Redaction.{sanitize, redaction_version}
use jb_wm_backend.Signals.{detect_signal}
use jb_wm_backend.Tools.Context.{build_context as raw_context}
use jb_wm_backend.AgentJobs.{run_job}
use jb_wm_backend.Executor.{proposal_id, session_id, execute_scoped}
use jb_wm_backend.Workflow.State.{GraphState}
use jb_wm_backend.Workflow.Helpers.{
  require_scope, scope_text, load_session, assert_scope, add_event, add_message, message_content,
  dump_signal, source_text, texts, ids, need_levels, record_assessment, persist_plan, record_plan,
  needs_approval,
}

-- The keys of a snapshot and of a customer's memory.
abbrev pub snapshot_id : DataSnapshot → String
snapshot_id s = s.id

abbrev pub memory_id : CustomerMemory → String
memory_id m = m.customer_id

-- `state[key]`
abbrev required {ℓ} : {A : Type ℓ} → Option A → Exec A
required o = or_raise o (exception "KeyError")

abbrev stage_event : String → Fields
stage_event stage = dict (("stage", str stage) ∷ [])

-- `pending or proposal`
abbrev or_else : Option ActionProposal → ActionProposal → Option ActionProposal
or_else none p = some p
or_else (some q) p = some q

-- `state.get("agent_message", "")`
abbrev or_empty : Option String → String
or_empty none = ""
or_empty (some s) = s

abbrev is_utterance : SignalSource → Bool
is_utterance user_utterance = true
is_utterance _ = false

-- The write of a changed session or proposal.
abbrev pub save_session : AgentSession → Exec (Unit {0})
save_session s = modify (λ db. record db { sessions = save_row session_id s db.sessions })

abbrev pub save_proposal : ActionProposal → Exec (Unit {0})
save_proposal p = modify (λ db. record db { proposals = save_row proposal_id p db.proposals })

-- The session's pending proposal and state, as `policy_check` and `execute_action` set them.
abbrev pub await : Option ActionProposal → AgentSession → AgentSession
await none s = record s { pending_proposal_id = none; state = monitoring }
await (some p) s = record s { pending_proposal_id = some p.id; state = user_approval }

abbrev pub id_of : Option ActionProposal → Option String
id_of none = none
id_of (some p) = some p.id

module _ (env : Env) where
  -- `data_refresh`
  unfoldable pub data_refresh : GraphState → Exec GraphState
  data_refresh state = do
    session ← load_session state
    scope ← require_scope state
    assert_scope session scope
    raw ← raw_context env session.customer_id
    let context = sanitize raw
    t ← tick
    let snapshot : DataSnapshot = record {
      id = env.new_uuid t;
      graph_thread_id = scope_text "graph_thread_id" scope;
      customer_id = session.customer_id;
      context = context;
      context_hash = env.sha256_json context;
      redaction_version = redaction_version;
      created_at = env.utcnow t;
    }
    modify (λ db. record db { snapshots = db.snapshots ++ snapshot ∷ [] })
    add_event env session.id "graph_state" (stage_event "DataRefresh")
    commit
    pure (record state {
      data_snapshot_id = some snapshot.id;
      context_hash = some snapshot.context_hash;
      stage = "DataRefresh";
    })

  -- The snapshot that the state names.
  unfoldable pub load_snapshot : GraphState → Exec DataSnapshot
  load_snapshot state = do
    id ← required state.data_snapshot_id
    or_raise (← gets (λ db. get_row snapshot_id id db.snapshots)) (http 404)

  -- `signal_detect`
  unfoldable pub signal_detect : GraphState → Exec GraphState
  signal_detect state = do
    session ← load_session state
    snapshot ← load_snapshot state
    signal ←
        or_raise (detect_signal env state.source state.payload snapshot.context)
          (exception "ValueError")
    t ← tick
    let dumped = dump_signal signal
    modify (λ db. record db {
      signals =
          db.signals
          ++ record {
            id = env.new_uuid t;
            session_id = session.id;
            source = source_text signal.source;
            payload = dumped;
            created_at = env.utcnow t;
          }
            ∷ [];
    })
    add_message env session.id (if is_utterance signal.source then "user" else "system")
        (message_content env signal) (dict (("kind", str "signal") ∷ ("signal", obj dumped) ∷ []))
    add_event env session.id "graph_state"
        (dict (("stage", str "SignalDetect") ∷ ("signal", obj dumped) ∷ []))
    commit
    pure (record state { signal = some signal; stage = "SignalDetect" })

  -- `signal_gate`
  unfoldable pub signal_gate : GraphState → Exec GraphState
  signal_gate state = do
    session ← load_session state
    signal ← required state.signal
    add_event env session.id "graph_state"
        (dict (("stage", str "SignalGate") ∷ ("kind", str signal.kind) ∷ []))
    commit
    pure (record state { stage = "SignalGate" })

  -- `build_context`
  unfoldable pub build_context : GraphState → Exec GraphState
  build_context state = do
    session ← load_session state
    snapshot ← required state.data_snapshot_id
    add_event env session.id "context_pack" (
        dict (
          ("stage", str "BuildContext")
          ∷ ("data_snapshot_id", str snapshot)
          ∷ ("context_hash", opt_str state.context_hash)
          ∷ []))
    commit
    pure (record state { stage = "BuildContext" })

  -- `spawn_agent`
  unfoldable pub spawn_agent : GraphState → Exec GraphState
  spawn_agent state = do
    session ← load_session state
    snapshot ← load_snapshot state
    signal ← required state.signal
    result ← run_job env session snapshot signal
    add_event env session.id "agent_job"
        (dict (("stage", str "SpawnAgent") ∷ ("agent_job_id", str result.job.id) ∷ []))
    commit
    pure (record state {
      assessment = some result.assessment;
      plan = some result.plan;
      agent_job_id = some result.job.id;
      agent_message = some result.message;
      stage = "SpawnAgent";
    })

  -- `validate_output`
  unfoldable pub validate_output : GraphState → Exec GraphState
  validate_output state = do
    session ← load_session state
    assessment ← required state.assessment
    plan ← required state.plan
    add_event env session.id "graph_state" (
        dict (
          ("stage", str "ValidateOutput")
          ∷ ("primary_need", str (need_text assessment.primary_need))
          ∷ ("proposal_count", int (pos (length plan.proposals)))
          ∷ []))
    commit
    pure (record state { stage = "ValidateOutput" })

  -- The loop of `policy_check`: automatic proposals are executed, and the first that needs approval
  -- is kept.
  unfoldable pub policy_loop :
      String
      → List ActionProposal
      → Option ActionProposal
      → List String
      → Exec (Option ActionProposal × List String)
  policy_loop customer_id [] pending done = pure (pending, done)
  policy_loop customer_id (p ∷ ps) pending done = do
    gated ← needs_approval p
    let keep = policy_loop customer_id ps (or_else pending p) done
    let run : Exec (Option ActionProposal × List String) = do
      execution ← execute_scoped env p.id customer_id false
      policy_loop customer_id ps pending (done ++ execution.id ∷ [])
    if gated then keep else run

  -- `policy_check`
  unfoldable pub policy_check : GraphState → Exec GraphState
  policy_check state = do
    session ← load_session state
    assessment ← required state.assessment
    plan ← required state.plan
    record_assessment env session assessment
    proposals ← persist_plan env session plan
    record_plan env session plan proposals (or_empty state.agent_message)
    (pending, done) ← policy_loop session.customer_id proposals none []
    snapshot ← required state.data_snapshot_id
    t ← tick
    save_session (record (await pending session) {
      active_needs =
          some (record { primary_need = assessment.primary_need; needs = need_levels assessment });
      recent_context = some (record {
        assessment = assessment;
        plan = plan;
        data_snapshot_id = snapshot;
        agent_job_id = state.agent_job_id;
      });
      updated_at = env.utcnow t;
    })
    add_event env session.id "policy" (
        dict (
          ("stage", str "PolicyCheck")
          ∷ ("proposal_ids", arr (texts (ids proposals)))
          ∷ ("pending_proposal_id", opt_str (id_of pending))
          ∷ ("auto_execution_ids", arr (texts done))
          ∷ []))
    commit
    pure (record state {
      proposal_ids = ids proposals;
      pending_proposal_id = id_of pending;
      stage = "PolicyCheck";
    })
