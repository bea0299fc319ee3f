-- ===== src/Json.antt =====
-- The values that the program keeps in JSON columns and passes as dictionaries, with the
-- dictionary reads and the truth test that its code applies to them. A float is known by its
-- 64-bit pattern and a decimal by a code of its value: their arithmetic is a parameter.
pub mod Lookups
pub use jb_wm_backend.Integers.{ℤ, pos, negsuc}
use jb_wm_backend.Base.{
  ℕ, zero, String, Bool, true, false, Option, none, some, List, [], ◌∷◌, ◌==◌, if◌then◌else◌,
  truthy,
}

pub record Float : Type 0 where
  pub bits : ℕ

pub record Decimal : Type 0 where
  pub repr : ℕ

mutual
  pub data Json : Type 0 where
    null : Json
    bool : Bool → Json
    int : ℤ → Json
    float : Float → Json
    str : String → Json
    arr : Items → Json
    obj : Fields → Json

  pub data Items : Type 0 where
    nil : Items
    item : Json → Items → Items

  pub data Fields : Type 0 where
    end : Fields
    field : String → Json → Fields → Fields

-- `d.get(key)` on a dictionary.
unfoldable pub get : String → Fields → Option Json
get k end = none
get k (field j v fs) = if j == k then some v else get k fs

-- `key in d`
unfoldable pub has_key : String → Fields → Bool
unfolding get
has_key k fs = elim (get k fs) [ none ↦ false | some _ ↦ true ]

-- `d[key] = v`
unfoldable pub put : String → Json → Fields → Fields
put k v end = field k v end
put k v (field j w fs) = if j == k then field j v fs else field j w (put k v fs)

-- `d.pop(key, None)`
unfoldable pub pop : String → Fields → Fields
pop k end = end
pop k (field j w fs) = if j == k then fs else field j w (pop k fs)

-- `d.setdefault(key, v)`
unfoldable pub setdefault : String → Json → Fields → Fields
unfolding has_key put
setdefault k v fs = if has_key k fs then fs else put k v fs

-- `isinstance(v, dict)`, with the empty dictionary for anything else.
abbrev pub fields : Json → Fields
fields (obj fs) = fs
fields _ = end

-- `bool(v)`, where the float test is the interpreter's.
unfoldable pub truth : (Float → Bool) → Json → Bool
truth nonzero null = false
truth nonzero (bool b) = b
truth nonzero (int (pos zero)) = false
truth nonzero (int _) = true
truth nonzero (float x) = nonzero x
truth nonzero (str s) = truthy s
truth nonzero (arr nil) = false
truth nonzero (arr (item _ _)) = true
truth nonzero (obj end) = false
truth nonzero (obj (field _ _ _)) = true

-- A JSON object from its pairs, as the source writes a dictionary literal.
abbrev pub dict : List (String × Json) → Fields
dict [] = end
dict ((k, v) ∷ ps) = field k v (dict ps)

-- An optional text as a JSON value.
abbrev pub opt_str : Option String → Json
opt_str none = null
opt_str (some s) = str s
