-- ===== src/AgentJobs/Schema/Required.antt =====
-- Which properties an object schema requires once app/agent_jobs/dispatcher.py's
-- `_make_strict_json_schema` has closed it.
use jb_wm_backend.Base.{
  String, ◌≡◌, refl, ◌∙◌, Bool, ◌||◌, true, false, none, some, arith, ◌==◌, is_some,
}
use jb_wm_backend.Json.{Json, bool, str, arr, obj, Items, nil, item, Fields, end, field, get}
use jb_wm_backend.Json.Lookups.{get-put, HasDistinctKeys}
use jb_wm_backend.AgentJobs.Schema.{
  strip, keys, is_object_type, require_all, close_object, make_strict_json_schema,
  make_strict_values,
}
use jb_wm_backend.AgentJobs.Schema.Laws.{member, is_stripped, get-strip, get-close_object}
use jb_wm_backend.AgentJobs.Schema.Strict.{
  strict_node, get-strict_node, close_object-closed, strip-none, values-HasDistinctKeys,
  stripped-written,
}

-- A schema that requires all properties of `ps`, shows them made strict, and admits no others.
pub record IsClosed (ps : Fields) (result : Json) : Type 0 where
  pub required : member "required" result ≡ some (arr (keys ps))
  pub properties : member "properties" result ≡ some (make_strict_json_schema (obj ps))
  pub closed : member "additionalProperties" result ≡ some (bool false)

close_object-required :
    (seen node ps : Fields)
    → is_object_type (get "type" seen) ≡ true
    → get "properties" seen ≡ some (obj ps)
    → get "required" (close_object seen node) ≡ some (arr (keys ps))
unfolding close_object require_all
close_object-required seen node ps object has = rw (object, has, get-put) refl

-- An object schema with the properties `ps` comes out requiring every key of `ps`, its properties
-- are `ps` made strict, and "additionalProperties" is false.
pub make_strict_json_schema-IsClosed :
    (node ps : Fields)
    → is_object_type (get "type" node) ≡ true
    → get "properties" node ≡ some (obj ps)
    → IsClosed ps (make_strict_json_schema (obj node))
unfolding make_strict_json_schema
make_strict_json_schema-IsClosed node ps object has =
    let seen : is_object_type (get "type" (strip node)) ≡ true =
      rw (get-strip "type" node refl) object in
    record {
      required =
          close_object-required (strip node) _ ps seen (rw (get-strip "properties" node refl) has);
      properties = rw (get-strict_node "properties" node refl refl, has) refl;
      closed = close_object-closed (strip node) _ seen;
    }

-- Whether a list of texts has one.
unfoldable pub is_listed : String → Items → Bool
is_listed k nil = false
is_listed k (item (str s) xs) = s == k || is_listed k xs
is_listed k (item _ xs) = is_listed k xs

keys-is_listed :
    (k : String) (fs : Fields) → is_some (get k fs) ≡ true → is_listed k (keys fs) ≡ true
unfolding get keys is_listed
keys-is_listed k end h = absurd (ground arith)
keys-is_listed k (field j v fs) h = ground (arith, keys-is_listed k fs)

strict_obj : (ps : Fields) → make_strict_json_schema (obj ps) ≡ obj (strict_node ps)
unfolding make_strict_json_schema
strict_obj ps = refl

-- A schema that requires a property, and has none of that name.
pub record DemandsMissing (k : String) (result : Json) : Type 0 where
  pub names : Items
  pub required : member "required" result ≡ some (arr names)
  pub listed : is_listed k names ≡ true
  pub properties : Fields
  pub shown : member "properties" result ≡ some (obj properties)
  pub missing : get k properties ≡ none

-- If an object schema has a property that is itself called "default", "title" or "description", and
-- its properties have different names, the strict schema still requires that property but no longer
-- has it.
pub make_strict_json_schema-DemandsMissing :
    (k : String) (node ps : Fields)
    → is_stripped k ≡ true
    → is_object_type (get "type" node) ≡ true
    → get "properties" node ≡ some (obj ps)
    → HasDistinctKeys ps
    → is_some (get k ps) ≡ true
    → DemandsMissing k (make_strict_json_schema (obj node))
make_strict_json_schema-DemandsMissing k node ps stripped object has distinct present =
    let closed = make_strict_json_schema-IsClosed node ps object has in
    record {
      names = keys ps;
      required = closed.required;
      listed = keys-is_listed k ps present;
      properties = strict_node ps;
      shown = closed.properties ∙ rw (strict_obj ps) refl;
      missing =
          rw (get-close_object k (strip ps) _ (stripped-written k stripped))
            (strip-none (make_strict_values ps) (values-HasDistinctKeys ps distinct) k stripped);
    }
