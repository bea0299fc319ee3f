-- ===== src/AgentJobs/Schema.antt =====
-- app/agent_jobs/dispatcher.py, `_strict_agent_output_schema` and `_make_strict_json_schema`: the
-- JSON schema that the Codex worker's output must match. The schema that Pydantic generates from
-- `AgentJobOutput` is a parameter.
pub mod Laws
pub mod Strict
pub mod Required
use jb_wm_backend.Base.{String, Bool, true, false, Option, none, some, ◌==◌, if◌then◌else◌}
use jb_wm_backend.Json.{
  Json, null, bool, int, float, str, arr, obj, Items, nil, item, Fields, end, field, get, put, pop,
}

-- The three keys that are popped from a node.
abbrev pub strip : Fields → Fields
strip node = pop "description" (pop "title" (pop "default" node))

-- `list(properties.keys())`
unfoldable pub keys : Fields → Items
keys end = nil
keys (field k v fs) = item (str k) (keys fs)

-- `node.get("type") == "object"`
abbrev pub is_object_type : Option Json → Bool
is_object_type (some (str s)) = s == "object"
is_object_type _ = false

-- The write of "required", when the properties are a dictionary.
unfoldable pub require_all : Option Json → Fields → Fields
require_all (some (obj properties)) node = put "required" (arr (keys properties)) node
require_all _ node = node

-- The branch on an object schema: `seen` is the node that the tests and the list of keys read, and
-- `node` the one that takes the writes.
unfoldable pub close_object : Fields → Fields → Fields
close_object seen node =
    if is_object_type (get "type" seen)
    then require_all (get "properties" seen) (put "additionalProperties" (bool false) node)
    else node

-- `_make_strict_json_schema`, which changes its argument in place. The source writes to a node and
-- then visits its values; here the values are visited first, and the node as it was is read.
unfoldable mutual
  pub make_strict_json_schema : Json → Json
  make_strict_json_schema null = null
  make_strict_json_schema (bool b) = bool b
  make_strict_json_schema (int n) = int n
  make_strict_json_schema (float x) = float x
  make_strict_json_schema (str s) = str s
  make_strict_json_schema (arr xs) = arr (make_strict_items xs)
  make_strict_json_schema (obj node) =
      obj (close_object (strip node) (strip (make_strict_values node)))

  pub make_strict_items : Items → Items
  make_strict_items nil = nil
  make_strict_items (item v xs) = item (make_strict_json_schema v) (make_strict_items xs)

  pub make_strict_values : Fields → Fields
  make_strict_values end = end
  make_strict_values (field k v fs) = field k (make_strict_json_schema v) (make_strict_values fs)

-- The dictionary at a key of a dictionary, replaced by its image; `{}` when it is missing, which the
-- change then does not reach.
abbrev pub update_at : String → (Fields → Fields) → Fields → Fields
update_at k f fs = elim (get k fs) [
  | some (obj inner) ↦ put k (obj (f inner)) fs
  | some _ ↦ fs
  | none ↦ fs
]

-- `_strict_agent_output_schema`, from the generated schema.
unfoldable pub strict_agent_output_schema : Fields → Json
strict_agent_output_schema schema = make_strict_json_schema (
    obj (
      update_at "$defs" (update_at "ActionProposalSchema" (update_at "properties" (pop "params")))
        schema))
