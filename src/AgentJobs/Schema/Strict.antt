-- ===== src/AgentJobs/Schema/Strict.antt =====
-- Which schemas app/agent_jobs/dispatcher.py's `_make_strict_json_schema` yields.
use mathlib.Core.Option
use jb_wm_backend.Base.{
  String, ◌≡◌, refl, true, false, Option, none, some, arith, ◌==◌, eq_iff, Bool-cases, inl, inr,
}
use jb_wm_backend.Json.{
  Json, null, bool, int, float, str, arr, obj, Items, nil, item, Fields, end, field, get, put, pop,
}
use jb_wm_backend.Json.Lookups.{
  get-put, HasDistinctKeys, get-pop, get-pop-none, pop-HasDistinctKeys,
}
use jb_wm_backend.AgentJobs.Schema.{
  strip, keys, is_object_type, require_all, close_object, make_strict_json_schema,
  make_strict_items, make_strict_values,
}
use jb_wm_backend.AgentJobs.Schema.Laws.{
  is_stripped, get-strip, is_written, get-require_all, get-close_object, get-values,
}

-- The keys of every dictionary, at any depth, differ, as they do in Python.
unfoldable mutual
  pub IsDictionary : Json → Type 0
  IsDictionary (arr xs) = AreDictionaries xs
  IsDictionary (obj fs) = HasDistinctKeys fs × HasDictionaries fs
  IsDictionary _ = Unit

  pub AreDictionaries : Items → Type 0
  AreDictionaries nil = Unit
  AreDictionaries (item v xs) = IsDictionary v × AreDictionaries xs

  pub HasDictionaries : Fields → Type 0
  HasDictionaries end = Unit
  HasDictionaries (field k v fs) = IsDictionary v × HasDictionaries fs

-- A node without a default, title or description, that admits no further properties when it is an
-- object schema.
pub record IsStrictNode (node : Fields) : Type 0 where
  pub bare : (k : String) → is_stripped k ≡ true → get k node ≡ none
  pub closed :
      is_object_type (get "type" node) ≡ true → get "additionalProperties" node ≡ some (bool false)

mutual
  pub IsStrict : Json → Type 0
  IsStrict (arr xs) = AreStrict xs
  IsStrict (obj fs) = IsStrictNode fs × HasStrict fs
  IsStrict _ = Unit

  pub AreStrict : Items → Type 0
  AreStrict nil = Unit
  AreStrict (item v xs) = IsStrict v × AreStrict xs

  pub HasStrict : Fields → Type 0
  HasStrict end = Unit
  HasStrict (field k v fs) = IsStrict v × HasStrict fs

pop-HasStrict : (k : String) (fs : Fields) → HasStrict fs → HasStrict (pop k fs)
unfolding pop IsStrict
pop-HasStrict k end h = h
pop-HasStrict k (field j v fs) h = elim (Bool-cases (j == k)) [
  | inl hit ↦ rw hit h.1
  | inr miss ↦ rw miss (h.0, pop-HasStrict k fs h.1)
]

put-HasStrict :
    (k : String) (v : Json) (fs : Fields) → IsStrict v → HasStrict fs → HasStrict (put k v fs)
unfolding put IsStrict
put-HasStrict k v end hv h = (hv, h)
put-HasStrict k v (field j w fs) hv h = elim (Bool-cases (j == k)) [
  | inl hit ↦ rw hit (hv, h.1)
  | inr miss ↦ rw miss (h.0, put-HasStrict k v fs hv h.1)
]

keys-AreStrict : (fs : Fields) → AreStrict (keys fs)
unfolding keys IsStrict
keys-AreStrict end = tt
keys-AreStrict (field k v fs) = (tt, keys-AreStrict fs)

require_all-HasStrict :
    (o : Option Json) (node : Fields) → HasStrict node → HasStrict (require_all o node)
unfolding require_all IsStrict
require_all-HasStrict (some (obj ps)) node h =
    put-HasStrict "required" (arr (keys ps)) node (keys-AreStrict ps) h
require_all-HasStrict (some null) node h = h
require_all-HasStrict (some (bool b)) node h = h
require_all-HasStrict (some (int n)) node h = h
require_all-HasStrict (some (float x)) node h = h
require_all-HasStrict (some (str s)) node h = h
require_all-HasStrict (some (arr xs)) node h = h
require_all-HasStrict none node h = h

close_object-HasStrict : (seen node : Fields) → HasStrict node → HasStrict (close_object seen node)
unfolding close_object IsStrict
close_object-HasStrict seen node h = elim (Bool-cases (is_object_type (get "type" seen))) [
  | inl object ↦
      rw object
        (require_all-HasStrict _ _ (put-HasStrict "additionalProperties" (bool false) node tt h))
  | inr other ↦ rw other h
]

pub values-HasDistinctKeys :
    (fs : Fields) → HasDistinctKeys fs → HasDistinctKeys (make_strict_values fs)
unfolding make_strict_json_schema HasDistinctKeys
values-HasDistinctKeys end h = h
values-HasDistinctKeys (field k v fs) h = (rw (get-values, h.0) refl, values-HasDistinctKeys fs h.1)

-- A property of the three stripped keys holds of every key that is stripped.
stripped_ind {ℓ} :
    (P : String → Type ℓ)
    → P "default"
    → P "title"
    → P "description"
    → (k : String) → is_stripped k ≡ true
    → P k
stripped_ind P at_default at_title at_description k stripped = elim (Bool-cases ("default" == k)) [
  | inl e ↦ rw (← (eq_iff "default" k).0 e) at_default
  | inr not_default ↦ elim (Bool-cases ("title" == k)) [
    | inl e ↦ rw (← (eq_iff "title" k).0 e) at_title
    | inr not_title ↦ rw (← (eq_iff "description" k).0 (ground arith)) at_description
  ]
]

pub strip-none :
    (fs : Fields)
    → HasDistinctKeys fs
    → (k : String) → is_stripped k ≡ true
    → get k (strip fs) ≡ none
strip-none fs h =
    let no_default : HasDistinctKeys (pop "default" fs) = pop-HasDistinctKeys "default" fs h in
    stripped_ind (λ k. get k (strip fs) ≡ none)
      (get-pop-none _ _ _ (get-pop-none _ _ _ (get-pop "default" fs h)))
      (get-pop-none _ _ _ (get-pop "title" _ no_default))
      (get-pop "description" _ (pop-HasDistinctKeys "title" _ no_default))

pub stripped-written : (k : String) → is_stripped k ≡ true → is_written k ≡ false
stripped-written = stripped_ind (λ k. is_written k ≡ false) refl refl refl

is_object_type-map :
    (o : Option Json) → is_object_type (Option.map make_strict_json_schema o) ≡ is_object_type o
unfolding make_strict_json_schema
is_object_type-map (some null) = refl
is_object_type-map (some (bool b)) = refl
is_object_type-map (some (int n)) = refl
is_object_type-map (some (float x)) = refl
is_object_type-map (some (str s)) = refl
is_object_type-map (some (arr xs)) = refl
is_object_type-map (some (obj fs)) = refl
is_object_type-map none = refl

-- The node that `make_strict_json_schema` makes of a dictionary.
abbrev pub strict_node : Fields → Fields
strict_node node = close_object (strip node) (strip (make_strict_values node))

-- A key that is neither stripped nor written keeps its value, made strict.
pub get-strict_node :
    (k : String) (node : Fields)
    → is_stripped k ≡ false
    → is_written k ≡ false
    → get k (strict_node node) ≡ Option.map make_strict_json_schema (get k node)
get-strict_node k node kept other =
    rw (get-close_object k _ _ other, get-strip k _ kept, get-values) refl

pub close_object-closed :
    (seen node : Fields)
    → is_object_type (get "type" seen) ≡ true
    → get "additionalProperties" (close_object seen node) ≡ some (bool false)
unfolding close_object
close_object-closed seen node object =
    rw (object, get-require_all "additionalProperties" _ _ refl, get-put) refl

strict_node-IsStrictNode : (node : Fields) → HasDistinctKeys node → IsStrictNode (strict_node node)
strict_node-IsStrictNode node distinct = record {
  bare = λ k stripped.
      rw
        (get-close_object k (strip node) (strip (make_strict_values node))
          (stripped-written k stripped))
        (strip-none (make_strict_values node) (values-HasDistinctKeys node distinct) k stripped);
  closed = λ object. close_object-closed (strip node) _ (
      cc (
        object,
        get-strict_node "type" node refl refl,
        is_object_type-map (get "type" node),
        get-strip "type" node refl,
      ));
}

mutual
  unfolding make_strict_json_schema IsStrict IsDictionary

  schema_sound : (v : Json) → IsDictionary v → IsStrict (make_strict_json_schema v)
  schema_sound null h = tt
  schema_sound (bool b) h = tt
  schema_sound (int n) h = tt
  schema_sound (float x) h = tt
  schema_sound (str s) h = tt
  schema_sound (arr xs) h = items_sound xs h
  schema_sound (obj fs) h = (
    strict_node-IsStrictNode fs h.0,
    close_object-HasStrict (strip fs) _
        (pop-HasStrict _ _ (pop-HasStrict _ _ (pop-HasStrict _ _ (values_sound fs h.1)))),
  )

  items_sound : (xs : Items) → AreDictionaries xs → AreStrict (make_strict_items xs)
  items_sound nil h = tt
  items_sound (item v xs) h = (schema_sound v h.0, items_sound xs h.1)

  values_sound : (fs : Fields) → HasDictionaries fs → HasStrict (make_strict_values fs)
  values_sound end h = tt
  values_sound (field k v fs) h = (schema_sound v h.0, values_sound fs h.1)

-- If the keys of every dictionary of a schema differ, no dictionary of the strict schema, at any
-- depth, has a key "default", "title" or "description", and each whose "type" is "object" has
-- "additionalProperties": false.
pub make_strict_json_schema-IsStrict :
    (v : Json) → IsDictionary v → IsStrict (make_strict_json_schema v)
make_strict_json_schema-IsStrict v h = schema_sound v h
