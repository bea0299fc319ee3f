-- ===== src/Tests/Schemas.antt =====
-- The theorems on the schema of an agent job's output at a concrete schema.
use jb_wm_backend.Base.{◌≡◌, refl, true, some, is_some, [], ◌∷◌}
use jb_wm_backend.Json.{Fields, str, obj, get, dict}
use jb_wm_backend.Json.Lookups.{HasDistinctKeys}
use jb_wm_backend.AgentJobs.Schema.{make_strict_json_schema}
use jb_wm_backend.AgentJobs.Schema.Strict.{IsDictionary, IsStrict, make_strict_json_schema-IsStrict}
use jb_wm_backend.AgentJobs.Schema.Required.{
  IsClosed, make_strict_json_schema-IsClosed, DemandsMissing,
  make_strict_json_schema-DemandsMissing,
}

abbrev text_schema : Fields
text_schema = dict (("default", str "") ∷ ("type", str "string") ∷ [])

-- Two of the properties of `PlanStrategy`.
abbrev strategy_properties : Fields
strategy_properties = dict (("title", obj text_schema) ∷ ("objective", obj text_schema) ∷ [])

abbrev strategy : Fields
strategy = dict (
    ("title", str "PlanStrategy")
    ∷ ("type", str "object")
    ∷ ("properties", obj strategy_properties)
    ∷ [])

strategy_properties-HasDistinctKeys : HasDistinctKeys strategy_properties
unfolding HasDistinctKeys get
strategy_properties-HasDistinctKeys = (refl, (refl, tt))

strategy_is_object : get "type" strategy ≡ some (str "object")
unfolding get
strategy_is_object = refl

strategy_has_properties : get "properties" strategy ≡ some (obj strategy_properties)
unfolding get
strategy_has_properties = refl

text_schema-IsDictionary : IsDictionary (obj text_schema)
unfolding IsDictionary HasDistinctKeys get
text_schema-IsDictionary = ((refl, (refl, tt)), (tt, (tt, tt)))

strategy-IsDictionary : IsDictionary (obj strategy)
unfolding IsDictionary HasDistinctKeys get
strategy-IsDictionary = (
  (refl, (refl, (refl, tt))),
  (
    tt,
    (
      tt,
      (
        (
          strategy_properties-HasDistinctKeys,
          (text_schema-IsDictionary, (text_schema-IsDictionary, tt)),
        ),
        tt,
      ),
    ),
  ),
)

make_strict_json_schema-IsStrict_example : IsStrict (make_strict_json_schema (obj strategy))
make_strict_json_schema-IsStrict_example =
    make_strict_json_schema-IsStrict (obj strategy) strategy-IsDictionary

make_strict_json_schema-IsClosed_example :
    IsClosed strategy_properties (make_strict_json_schema (obj strategy))
make_strict_json_schema-IsClosed_example =
    make_strict_json_schema-IsClosed strategy strategy_properties (rw strategy_is_object refl)
      strategy_has_properties

strategy_has_title : is_some (get "title" strategy_properties) ≡ true
unfolding get
strategy_has_title = refl

make_strict_json_schema-DemandsMissing_example :
    DemandsMissing "title" (make_strict_json_schema (obj strategy))
make_strict_json_schema-DemandsMissing_example =
    make_strict_json_schema-DemandsMissing "title" strategy strategy_properties refl
      (rw strategy_is_object refl) strategy_has_properties strategy_properties-HasDistinctKeys
      strategy_has_title
