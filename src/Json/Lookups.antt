-- ===== src/Json/Lookups.antt =====
-- The reads of a dictionary after `d[key] = v` and `d.pop(key, None)`.
use jb_wm_backend.Base.{
  String, ◌≡◌, refl, ◌≢◌, none, some, arith, ◌==◌, eq_iff, if◌then◌else◌, Bool-cases, inl, inr,
}
use jb_wm_backend.Json.{Json, Fields, end, field, get, put, pop}

pub get-put :
    (k j : String) (v : Json) (fs : Fields)
    → get j (put k v fs) ≡ (if k == j then some v else get j fs)
unfolding get put
get-put k j v end = refl
get-put k j v (field i w fs) = ground (arith, eq_iff k j, eq_iff i k, eq_iff i j, get-put k j v fs)

pub get-pop_ne : (k j : String) (fs : Fields) → k ≢ j → get j (pop k fs) ≡ get j fs
unfolding get pop
get-pop_ne k j end h = refl
get-pop_ne k j (field i w fs) h = ground (arith, eq_iff i k, eq_iff i j, get-pop_ne k j fs h)

-- The keys of a dictionary differ.
unfoldable pub HasDistinctKeys : Fields → Type 0
HasDistinctKeys end = Unit
HasDistinctKeys (field k v fs) = (get k fs ≡ none) × HasDistinctKeys fs

pub get-pop : (k : String) (fs : Fields) → HasDistinctKeys fs → get k (pop k fs) ≡ none
unfolding get pop HasDistinctKeys
get-pop k end h = refl
get-pop k (field j v fs) h = ground (arith, eq_iff j k, get-pop k fs)

pub get-pop-none : (k j : String) (fs : Fields) → get k fs ≡ none → get k (pop j fs) ≡ none
unfolding get pop
get-pop-none k j end h = refl
get-pop-none k j (field i v fs) h = ground (arith, eq_iff i k, eq_iff i j, get-pop-none k j fs)

pub pop-HasDistinctKeys :
    (k : String) (fs : Fields) → HasDistinctKeys fs → HasDistinctKeys (pop k fs)
unfolding pop HasDistinctKeys
pop-HasDistinctKeys k end h = h
pop-HasDistinctKeys k (field j v fs) h = elim (Bool-cases (j == k)) [
  | inl hit ↦ rw hit h.1
  | inr miss ↦ rw miss (get-pop-none j k fs h.0, pop-HasDistinctKeys k fs h.1)
]
