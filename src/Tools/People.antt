-- ===== src/Tools/People.antt =====
-- app/tools/data_tools.py: profile, health, insurance, memory, asset events and statistics. A
-- dictionary of the source is a `Fields`, a list of dictionaries an `Items`.
use jb_wm_backend.Base.{
  ℕ, String, Bool, ◌&&◌, ◌||◌, Option, none, some, List, [], ◌∷◌, ◌++◌, ◌==◌, if◌then◌else◌, first,
  where_all, any, truthy?, map,
}
use jb_wm_backend.Json.{
  Json, null, bool, int, float, str, arr, obj, Items, nil, item, Fields, end, dict, opt_str,
}
use jb_wm_backend.Models.{
  Customer, CustomerMemory, HealthRecord, HealthEvent, MedicalDocument, InsurancePolicy,
  CoverageItem, AssetEvent, PopulationStat,
}
use jb_wm_backend.Database.{Db}
use jb_wm_backend.Database.Rows.{get_row}
use jb_wm_backend.Environment.{Env}

-- A list of dictionaries as a JSON value.
abbrev pub objects {ℓ} : {A : Type ℓ} → (A → Fields) → List A → Items
objects f [] = nil
objects f (x ∷ xs) = item (obj (f x)) (objects f xs)

-- `d.isoformat() if d else None`
abbrev pub opt_date : Env → Option ℕ → Json
opt_date env none = null
opt_date env (some d) = str (env.date_isoformat d)

abbrev pub customer_key : Customer → String
customer_key c = c.id

abbrev pub memory_key : CustomerMemory → String
memory_key m = m.customer_id

abbrev pub profile_of : Customer → Fields
profile_of c = dict (
    ("id", str c.id)
    ∷ ("name", str c.name)
    ∷ ("age_band", str c.age_band)
    ∷ ("locale", str c.locale)
    ∷ [])

-- `get_customer_profile`
unfoldable pub get_customer_profile : String → Db → Fields
get_customer_profile customer_id db = elim (get_row customer_key customer_id db.customers) [
  | none ↦ end
  | some c ↦ profile_of c
]

-- The rows that a consent covers, and no others.
abbrev pub consented_records : List HealthRecord → List HealthRecord
consented_records rows = where_all (λ r. truthy? r.consent_id) rows

abbrev pub consented_documents : List MedicalDocument → List MedicalDocument
consented_documents rows = where_all (λ d. truthy? d.consent_id) rows

-- The coverage items of a policy.
abbrev pub items_of : Db → InsurancePolicy → List CoverageItem
items_of db p = where_all (λ (it : CoverageItem). it.policy_id == p.id) db.coverages

-- `covered_types`, in the order of the walk.
unfoldable pub covered_types : Db → List InsurancePolicy → List String
covered_types db [] = []
covered_types db (p ∷ ps) =
    map (λ (it : CoverageItem). it.coverage_type)
      (where_all (λ (it : CoverageItem). it.active) (items_of db p))
    ++ covered_types db ps

abbrev pub policies_of : String → Db → List InsurancePolicy
policies_of customer_id db =
    where_all (λ (p : InsurancePolicy). p.customer_id == customer_id) db.policies

module _ (env : Env) where
  abbrev pub record_dict : HealthRecord → Fields
  record_dict r = dict (
      ("source", str r.source)
      ∷ ("metric", str r.metric)
      ∷ ("value", obj r.value)
      ∷ ("measured_at", str (env.isoformat r.measured_at))
      ∷ [])

  abbrev pub event_dict : HealthEvent → Fields
  event_dict e = dict (
      ("kind", str e.kind)
      ∷ ("severity", str e.severity)
      ∷ ("detected_at", str (env.isoformat e.detected_at))
      ∷ ("raw_ref", obj e.raw_ref)
      ∷ [])

  abbrev pub document_dict : MedicalDocument → Fields
  document_dict d = dict (
      ("doc_type", str d.doc_type)
      ∷ ("issued_at", opt_date env d.issued_at)
      ∷ ("summary", obj d.summary)
      ∷ [])

  -- `get_health_data`
  unfoldable pub get_health_data : String → Db → Fields
  get_health_data customer_id db =
      let records =
        where_all (λ (r : HealthRecord). r.customer_id == customer_id) db.health_records in
      let events = where_all (λ (e : HealthEvent). e.customer_id == customer_id) db.health_events in
      let docs =
        where_all (λ (d : MedicalDocument). d.customer_id == customer_id) db.medical_documents in
      dict (
        ("records", arr (objects record_dict (consented_records records)))
        ∷ ("events", arr (objects event_dict events))
        ∷ ("documents", arr (objects document_dict (consented_documents docs)))
        ∷ [])

  abbrev pub coverage_dict : CoverageItem → Fields
  coverage_dict it = dict (
      ("coverage_type", str it.coverage_type)
      ∷ ("limit", float (env.numbers.float_of_dec it.limit_amount))
      ∷ ("active", bool it.active)
      ∷ [])

  abbrev pub policy_dict : Db → InsurancePolicy → Fields
  policy_dict db p = dict (
      ("product_name", str p.product_name)
      ∷ ("type", str p.policy_type)
      ∷ ("active", bool p.active)
      ∷ ("coverages", arr (objects coverage_dict (items_of db p)))
      ∷ [])

  abbrev pub has_cardio : List String → Bool
  has_cardio types = any (λ t. t == "심혈관특약") types || any (λ t. t == "심혈관") types

  -- `get_insurance_summary`
  unfoldable pub get_insurance_summary : String → Db → Fields
  unfolding covered_types
  get_insurance_summary customer_id db =
      let policies = policies_of customer_id db in
      dict (
        ("policies", arr (objects (policy_dict db) policies))
        ∷ ("gaps_hint", if has_cardio (covered_types db policies) then null else str "심혈관 특약 없음")
        ∷ [])

  abbrev pub memory_dict : CustomerMemory → Fields
  memory_dict m = dict (
      ("medical_willingness", str m.medical_willingness)
      ∷ ("medical_one_time_budget_krw", int (env.numbers.int_of_dec m.medical_one_time_budget_krw))
      ∷ ("monthly_medical_budget_krw", int (env.numbers.int_of_dec m.monthly_medical_budget_krw))
      ∷ ("medical_budget_ratio", float m.medical_budget_ratio)
      ∷ ("risk_preference", str m.risk_preference)
      ∷ ("hospital_preference", opt_str m.hospital_preference)
      ∷ ("investment_style", str m.investment_style)
      ∷ ("constraints", obj m.constraints)
      ∷ [])

  -- `get_customer_memory`
  unfoldable pub get_customer_memory : String → Db → Fields
  get_customer_memory customer_id db = elim (get_row memory_key customer_id db.memories) [
    | none ↦ end
    | some m ↦ memory_dict m
  ]

abbrev pub asset_event_dict : AssetEvent → Fields
asset_event_dict e =
    dict (("kind", str e.kind) ∷ ("severity", str e.severity) ∷ ("raw_ref", obj e.raw_ref) ∷ [])

-- `get_asset_events`
unfoldable pub get_asset_events : String → Db → Fields
get_asset_events customer_id db =
    let events = where_all (λ (e : AssetEvent). e.customer_id == customer_id) db.asset_events in
    dict (("events", arr (objects asset_event_dict events)) ∷ [])

abbrev pub stat_dict : PopulationStat → Fields
stat_dict row =
    dict (("value", obj row.value) ∷ ("source", str row.source) ∷ ("as_of", str row.as_of) ∷ [])

-- `get_population_stat`
unfoldable pub get_population_stat : String → String → Db → Fields
get_population_stat age_band metric db =
    elim (first (λ (s : PopulationStat). s.age_band == age_band && s.metric == metric)
      db.population_stats) [ none ↦ end | some row ↦ stat_dict row ]
