-- ===== src/AgentJobs/Schema/Laws.antt =====
-- What app/agent_jobs/dispatcher.py's `_make_strict_json_schema` makes of a schema.
use mathlib.Core.Option
use jb_wm_backend.Base.{
  String, ◌≡◌, refl, Bool, ◌||◌, false, Option, none, some, arith, ◌==◌, eq_iff, Bool-cases, inl,
  inr,
}
use jb_wm_backend.Json.{
  Json, null, bool, int, float, str, arr, obj, Fields, end, field, get, put, pop,
}
use jb_wm_backend.Json.Lookups.{get-put, get-pop_ne}
use jb_wm_backend.AgentJobs.Schema.{
  strip, keys, is_object_type, require_all, close_object, make_strict_json_schema,
  make_strict_items, make_strict_values,
}

values-pop :
    (k : String) (fs : Fields) → make_strict_values (pop k fs) ≡ pop k (make_strict_values fs)
unfolding make_strict_json_schema pop
values-pop k end = refl
values-pop k (field j v fs) = elim (Bool-cases (j == k)) [
  | inl hit ↦ rw hit refl
  | inr miss ↦ rw miss (rw (values-pop k fs))
]

values-put :
    (k : String) (v : Json) (fs : Fields)
    → make_strict_values (put k v fs) ≡ put k (make_strict_json_schema v) (make_strict_values fs)
unfolding make_strict_json_schema put
values-put k v end = refl
values-put k v (field j w fs) = elim (Bool-cases (j == k)) [
  | inl hit ↦ rw hit refl
  | inr miss ↦ rw miss (rw (values-put k v fs))
]

items-keys : (fs : Fields) → make_strict_items (keys fs) ≡ keys fs
unfolding make_strict_json_schema keys
items-keys end = refl
items-keys (field k v fs) = rw (items-keys fs)

pub get-values :
    (k : String) (fs : Fields)
    → get k (make_strict_values fs) ≡ Option.map make_strict_json_schema (get k fs)
unfolding get make_strict_json_schema
get-values k end = refl
get-values k (field j v fs) = ground (arith, get-values k fs)

values-require_all :
    (o : Option Json) (node : Fields)
    → make_strict_values (require_all o node) ≡ require_all o (make_strict_values node)
unfolding require_all make_strict_json_schema
values-require_all (some (obj ps)) node = rw (values-put, items-keys) refl
values-require_all (some null) node = refl
values-require_all (some (bool b)) node = refl
values-require_all (some (int n)) node = refl
values-require_all (some (float x)) node = refl
values-require_all (some (str s)) node = refl
values-require_all (some (arr xs)) node = refl
values-require_all none node = refl

values-close_object :
    (seen node : Fields)
    → make_strict_values (close_object seen node) ≡ close_object seen (make_strict_values node)
unfolding close_object make_strict_json_schema
values-close_object seen node = elim (Bool-cases (is_object_type (get "type" seen))) [
  | inl object ↦ rw object (rw (values-require_all, values-put) refl)
  | inr other ↦ rw other refl
]

-- A dictionary is changed in the source's order: the three keys are popped, an object schema is
-- closed, and only then are the values that the node has by now made strict.
pub make_strict_json_schema_obj :
    (node : Fields)
    → make_strict_json_schema (obj node)
      ≡ obj (make_strict_values (close_object (strip node) (strip node)))
unfolding make_strict_json_schema
make_strict_json_schema_obj node = rw (values-close_object, values-pop, values-pop, values-pop) refl

-- What a JSON value answers for a key.
abbrev pub member : String → Json → Option Json
member k (obj fs) = get k fs
member k _ = none

-- The keys that `strip` pops.
abbrev pub is_stripped : String → Bool
is_stripped k = "default" == k || "title" == k || "description" == k

pub get-strip :
    (k : String) (node : Fields) → is_stripped k ≡ false → get k (strip node) ≡ get k node
get-strip k node kept =
    rw
      (
        get-pop_ne "description" k _ (λ e. ground (arith, eq_iff "description" k)),
        get-pop_ne "title" k _ (λ e. ground (arith, eq_iff "title" k)),
        get-pop_ne "default" k _ (λ e. ground (arith, eq_iff "default" k)),
      )
      refl

-- The keys that `close_object` writes.
abbrev pub is_written : String → Bool
is_written k = "additionalProperties" == k || "required" == k

pub get-require_all :
    (k : String) (o : Option Json) (node : Fields)
    → ("required" == k) ≡ false
    → get k (require_all o node) ≡ get k node
unfolding require_all
get-require_all k (some (obj ps)) node other = rw (get-put, other) refl
get-require_all k (some null) node other = refl
get-require_all k (some (bool b)) node other = refl
get-require_all k (some (int n)) node other = refl
get-require_all k (some (float x)) node other = refl
get-require_all k (some (str s)) node other = refl
get-require_all k (some (arr xs)) node other = refl
get-require_all k none node other = refl

pub get-close_object :
    (k : String) (seen node : Fields)
    → is_written k ≡ false
    → get k (close_object seen node) ≡ get k node
unfolding close_object
get-close_object k seen node other = elim (Bool-cases (is_object_type (get "type" seen))) [
  | inl object ↦ rw object (rw (get-require_all k _ _ (ground arith), get-put) (ground arith))
  | inr plain ↦ rw plain refl
]
