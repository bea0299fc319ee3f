-- ===== src/Redaction.antt =====
-- app/adapters/mock/context.py: the boundary that removes provider and backend identifiers from the
-- context before an agent job sees it.
pub mod Keys
pub mod Laws
use Prim.Native.String.{String as Text}
use jb_wm_backend.Base.{
  String, Bool, ◌||◌, Option, none, some, List, [], ◌∷◌, ◌==◌, if◌then◌else◌, any,
}
use jb_wm_backend.Json.{
  Json, null, bool, int, float, str, arr, obj, Items, nil, item, Fields, end, field, get, put, pop,
  dict, fields,
}

-- `REDACTION_VERSION`
abbrev pub redaction_version : String
redaction_version = "v1"

-- `FORBIDDEN_KEYS`
abbrev pub forbidden_keys : List String
forbidden_keys =
    "id" ∷ "customer_id" ∷ "session_id" ∷ "agent_session_id" ∷ "graph_thread_id" ∷ "account_id"
    ∷ "loan_id" ∷ "policy_id" ∷ "proposal_id" ∷ "external_ref" ∷ "api_body" ∷ "api_body_header"
    ∷ "api_tran_id" ∷ "bank_tran_id" ∷ "fintech_use_num" ∷ "card_value" ∷ "loan_repayment_id"
    ∷ "raw_ref" ∷ []

-- `key.endswith(suffix)`
unfoldable pub ends_with : String → String → Bool
ends_with suffix Text.[] = suffix == Text.[]
ends_with suffix (Text.◌∷◌ c s) = Text.◌∷◌ c s == suffix || ends_with suffix s

-- The test of `_redact` on a key.
unfoldable pub is_forbidden : String → Bool
unfolding ends_with
is_forbidden key = any (λ k. k == key) forbidden_keys || ends_with "_id" key

-- `_redact`
unfoldable mutual
  pub redact : Json → Json
  redact null = null
  redact (bool b) = bool b
  redact (int n) = int n
  redact (float x) = float x
  redact (str s) = str s
  redact (arr xs) = arr (redact_items xs)
  redact (obj fs) = obj (redact_fields fs)

  pub redact_items : Items → Items
  redact_items nil = nil
  redact_items (item v xs) = item (redact v) (redact_items xs)

  pub redact_fields : Fields → Fields
  redact_fields end = end
  redact_fields (field k v fs) =
      if is_forbidden k then redact_fields fs else field k (redact v) (redact_fields fs)

-- `dict.get(key, default)` as a JSON value.
abbrev or_default : Json → Option Json → Json
or_default d none = d
or_default d (some v) = v

-- The pseudonymous profile of `build_agent_context_snapshot`.
abbrev profile_label : Fields → Fields
profile_label profile = dict (
    ("label", str "customer")
    ∷ ("age_band", or_default null (get "age_band" profile))
    ∷ ("locale", or_default (str "ko") (get "locale" profile))
    ∷ [])

-- `build_agent_context_snapshot`, from the raw context that `data_tools.build_context` returns.
unfoldable pub sanitize : Fields → Fields
sanitize raw =
    let profile = fields (or_default (obj end) (get "profile" raw)) in
    redact_fields (pop "customer_id" (put "profile" (obj (profile_label profile)) raw))
