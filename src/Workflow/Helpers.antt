-- ===== src/Workflow/Helpers.antt =====
-- app/workflows/nodes.py, from `_db` to the end: the helpers of the nodes.
use Prim.Native.String.{◌++◌}
use mathlib.Core.List.{◌++◌ as append}
use jb_wm_backend.Base.{
  ℕ, String, Bool, true, false, not, ◌&&◌, ◌||◌, Option, none, some, List, [], ◌∷◌, ◌==◌,
  if◌then◌else◌, truthy, or_text, where_all, order_by, any,
}
use jb_wm_backend.Json.{
  Json, str, arr, obj, Items, nil, item, Fields, end, field, put, setdefault, truth, dict,
}
use jb_wm_backend.Planning.{
  ActionProposalSchema, NeedAssessment, Plan, kind_text, dump_steps, dump_params,
}
use jb_wm_backend.Models.{
  AgentSession, ActionProposal, NeedLevels, SignalEnvelope, SignalSource, event, user_utterance,
  detector, approval_revision, Severity, proposed, is_proposed,
}
use jb_wm_backend.Database.{
  Db, http, Exec, pure, raise_if, gets, or_raise, modify, commit, tick, ◌>>=◌, ◌>>◌,
}
use jb_wm_backend.Database.Rows.{get_row}
use jb_wm_backend.Environment.{Env}
use jb_wm_backend.Executor.{session_id, route}
use jb_wm_backend.Signals.{get_or_null}
use jb_wm_backend.Workflow.State.{GraphState}

-- A text in a dictionary of texts.
abbrev pub lookup_text : String → List (String × String) → Option String
lookup_text k [] = none
lookup_text k ((j, v) ∷ ps) = if j == k then some v else lookup_text k ps

-- The keys that `_scope` requires.
abbrev pub scope_keys : List String
scope_keys = "tenant_id" ∷ "customer_id" ∷ "agent_session_id" ∷ "graph_thread_id" ∷ []

abbrev lacks : List (String × String) → String → Bool
lacks scope k = elim (lookup_text k scope) [ none ↦ true | some _ ↦ false ]

-- `scope[key]`, once `_scope` has passed.
abbrev pub scope_text : String → List (String × String) → String
scope_text k scope = elim (lookup_text k scope) [ none ↦ "" | some v ↦ v ]

-- `_scope`
unfoldable pub require_scope : GraphState → Exec (List (String × String))
require_scope state = do raise_if (any (lacks state.scope) scope_keys) (http 400); pure state.scope

-- `_session`
unfoldable pub load_session : GraphState → Exec AgentSession
load_session state = do
  scope ← require_scope state
  or_raise (← gets (λ db. get_row session_id (scope_text "agent_session_id" scope) db.sessions))
      (http 404)

-- `_assert_scope`
unfoldable pub assert_scope : AgentSession → List (String × String) → Exec (Unit {0})
assert_scope session scope =
    raise_if
      (not (session.customer_id == scope_text "customer_id" scope)
        || not (session.id == scope_text "agent_session_id" scope))
      (http 403)

abbrev pub source_text : SignalSource → String
source_text event = "event"
source_text user_utterance = "user_utterance"
source_text detector = "detector"
source_text approval_revision = "approval_revision"

abbrev severity_text : Severity → String
severity_text Severity.low = "low"
severity_text Severity.mid = "mid"
severity_text Severity.high = "high"

-- `signal.model_dump()`
abbrev pub dump_signal : SignalEnvelope → Fields
dump_signal s = dict (
    ("source", str (source_text s.source))
    ∷ ("kind", str s.kind)
    ∷ ("severity", str (severity_text s.severity))
    ∷ ("payload", obj s.payload)
    ∷ ("rationale", str s.rationale)
    ∷ [])

-- A list of texts as JSON.
abbrev pub texts : List String → Items
texts [] = nil
texts (t ∷ ts) = item (str t) (texts ts)

abbrev pub ids : List ActionProposal → List String
ids [] = []
ids (p ∷ ps) = p.id ∷ ids ps

-- `_need_levels`
abbrev pub need_levels : NeedAssessment → NeedLevels
need_levels a = record {
  medical_cost_need = a.medical_cost_need;
  insurance_need = a.insurance_need;
  cashflow_need = a.cashflow_need;
  asset_defense_need = a.asset_defense_need;
  investment_adjust_need = a.investment_adjust_need;
  life_plan_need = a.life_plan_need;
}

-- `params.setdefault(key, value)` for every execution parameter.
unfoldable pub add_defaults : Fields → Fields → Fields
add_defaults end params = params
add_defaults (field k v more) params = add_defaults more (setdefault k v params)

abbrev has_fields : Fields → Bool
has_fields end = false
has_fields (field _ _ _) = true

abbrev has_items {ℓ} : {A : Type ℓ} → List A → Bool
has_items [] = false
has_items (_ ∷ _) = true

-- `_proposal_params`
unfoldable pub proposal_params : ActionProposalSchema → Fields
proposal_params planned =
    let summarised =
      if truthy planned.execution_summary
      then put "execution_summary" (str planned.execution_summary) planned.params
      else planned.params in
    let stepped =
      if has_items planned.execution_steps
      then put "execution_steps" (arr (dump_steps planned.execution_steps)) summarised
      else summarised in
    let extra = dump_params planned.execution_params in
    if has_fields extra
    then add_defaults extra (put "execution_params" (obj extra) stepped)
    else stepped

module _ (env : Env) where
  -- `_event`
  unfoldable pub add_event : String → String → Fields → Exec (Unit {0})
  add_event session type_ detail = do
    t ← tick
    modify (λ db. record db {
      events = append db.events (
          record {
            id = env.new_uuid t;
            session_id = session;
            type_ = type_;
            detail = detail;
            created_at = env.utcnow t;
          }
          ∷ []);
    })

  -- `db.add(AgentMessage(…))`
  unfoldable pub add_message : String → String → String → Fields → Exec (Unit {0})
  add_message session role content meta = do
    t ← tick
    modify (λ db. record db {
      messages = append db.messages (
          record {
            id = env.new_uuid t;
            session_id = session;
            role = role;
            content = content;
            meta = meta;
            created_at = env.utcnow t;
          }
          ∷ []);
    })

  abbrev show : Json → String
  show (str s) = s
  show v = env.numbers.to_text v

  -- `_message_content`
  unfoldable pub message_content : SignalEnvelope → String
  message_content signal =
      let text = get_or_null "text" signal.payload in
      let summary = get_or_null "customer_summary" signal.payload in
      let title = get_or_null "title" signal.payload in
      let is_true = truth env.numbers.nonzero in
      if source_text signal.source == "user_utterance"
      then (if is_true text then show text else show (obj signal.payload))
      else if is_true summary
      then (if is_true title then show title else "새 금융 데이터") ++ (": " ++ show summary)
      else signal.kind ++ (": " ++ signal.rationale)

  -- `_record_assessment`
  unfoldable pub record_assessment : AgentSession → NeedAssessment → Exec (Unit {0})
  record_assessment session a = do
    t ← tick
    modify (λ db. record db {
      assessments = append db.assessments (
          record {
            id = env.new_uuid t;
            session_id = session.id;
            needs = need_levels a;
            primary_need = a.primary_need;
            confidence = a.confidence;
            rationale = a.rationale;
            raw_output = a;
            created_at = env.utcnow t;
          }
          ∷ []);
    })

  -- The row of one planned proposal.
  unfoldable pub proposal_row : AgentSession → ActionProposalSchema → ℕ → ActionProposal
  proposal_row session planned t = record {
    id = env.new_uuid t;
    session_id = session.id;
    kind = kind_text planned.kind;
    summary = planned.summary;
    has_external_effect = planned.has_external_effect;
    params = proposal_params planned;
    rationale = planned.rationale;
    status = proposed;
    created_at = env.utcnow t;
  }

  -- One round of the loop of `_persist_plan`.
  unfoldable pub add_proposal : AgentSession → ActionProposalSchema → Exec ActionProposal
  add_proposal session planned = do
    t ← tick
    modify
        (λ db. record db { proposals = append db.proposals (proposal_row session planned t ∷ []) })
    pure (proposal_row session planned t)

  -- The loop of `_persist_plan`.
  unfoldable pub add_proposals :
      AgentSession → List ActionProposalSchema → Exec (List ActionProposal)
  add_proposals session [] = pure []
  add_proposals session (planned ∷ more) = do
    p ← add_proposal session planned
    rest ← add_proposals session more
    pure (p ∷ rest)

  -- `_persist_plan`
  unfoldable pub persist_plan : AgentSession → Plan → Exec (List ActionProposal)
  persist_plan session plan = do
    proposals ← add_proposals session plan.proposals
    commit
    pure proposals

  -- `_record_plan`
  unfoldable pub record_plan : AgentSession → Plan → List ActionProposal → String → Exec (Unit {0})
  record_plan session plan proposals message = do
    t ← tick
    modify (λ db. record db {
      plans = append db.plans (
          record {
            id = env.new_uuid t;
            session_id = session.id;
            explanation = plan.explanation;
            raw_output = plan;
            proposal_ids = ids proposals;
            created_at = env.utcnow t;
          }
          ∷ []);
    })
    add_message session.id "assistant" (or_text message (or_text plan.explanation "계획을 생성했습니다."))
        (dict (("kind", str "plan") ∷ ("proposal_ids", arr (texts (ids proposals))) ∷ []))
    commit

-- `_needs_approval`
unfoldable pub needs_approval : ActionProposal → Exec Bool
needs_approval p = do routing ← route p; pure routing.needs_approval

-- The loop of `_next_pending_proposal`.
unfoldable pub first_gated : List ActionProposal → Exec (Option ActionProposal)
first_gated [] = pure none
first_gated (p ∷ ps) = do
  gated ← needs_approval p
  let rest = first_gated ps
  if gated then pure (some p) else rest

-- The query of `_next_pending_proposal`.
abbrev pub open_proposals : AgentSession → Db → List ActionProposal
open_proposals session db =
    order_by (λ (p : ActionProposal). p.created_at)
      (where_all (λ p. p.session_id == session.id && is_proposed p.status) db.proposals)

-- `_next_pending_proposal`
unfoldable pub next_pending_proposal : AgentSession → Exec (Option ActionProposal)
next_pending_proposal session = do proposals ← gets (open_proposals session); first_gated proposals
