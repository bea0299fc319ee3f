-- ===== src/Redaction/Laws.antt =====
-- What the redaction of a context removes and what it keeps.
use mathlib.Core.Option
use jb_wm_backend.Base.{
  String, ◌≡◌, refl, sym, ◌∙◌, Bool, true, Option, none, some, arith, ◌==◌, eq_iff, if◌then◌else◌,
  Bool-cases, inl, inr,
}
use jb_wm_backend.Json.{
  Json, null, bool, int, float, str, arr, obj, Items, nil, item, Fields, end, field, get, fields,
}
use jb_wm_backend.Json.Lookups.{get-put, get-pop_ne}
use jb_wm_backend.Redaction.{
  is_forbidden, redact, redact_items, redact_fields, or_default, profile_label, sanitize,
}
use jb_wm_backend.Redaction.Keys.{IsPublic, is_forbidden-IsPublic}

-- Every key of every dictionary, at any depth, is public.
mutual
  pub data IsRedacted : Json → Type 0 where
    null_ok : IsRedacted null
    bool_ok : {b : Bool} → IsRedacted (bool b)
    int_ok : {n : _} → IsRedacted (int n)
    float_ok : {x : _} → IsRedacted (float x)
    str_ok : {s : String} → IsRedacted (str s)
    arr_ok : {xs : Items} → AreRedacted xs → IsRedacted (arr xs)
    obj_ok : {fs : Fields} → HasPublicKeys fs → IsRedacted (obj fs)

  pub data AreRedacted : Items → Type 0 where
    nil_ok : AreRedacted nil
    item_ok : {v : Json} {xs : Items} → IsRedacted v → AreRedacted xs → AreRedacted (item v xs)

  pub data HasPublicKeys : Fields → Type 0 where
    end_ok : HasPublicKeys end
    field_ok :
        {k : String} {v : Json} {fs : Fields}
        → IsPublic k
        → IsRedacted v
        → HasPublicKeys fs
        → HasPublicKeys (field k v fs)

mutual
  unfolding redact

  redact_sound : (v : Json) → IsRedacted (redact v)
  redact_sound null = null_ok
  redact_sound (bool b) = bool_ok
  redact_sound (int n) = int_ok
  redact_sound (float x) = float_ok
  redact_sound (str s) = str_ok
  redact_sound (arr xs) = arr_ok (redact_items_sound xs)
  redact_sound (obj fs) = obj_ok (redact_fields_sound fs)

  redact_items_sound : (xs : Items) → AreRedacted (redact_items xs)
  redact_items_sound nil = nil_ok
  redact_items_sound (item v xs) = item_ok (redact_sound v) (redact_items_sound xs)

  redact_fields_sound : (fs : Fields) → HasPublicKeys (redact_fields fs)
  redact_fields_sound end = end_ok
  redact_fields_sound (field k v fs) = elim (Bool-cases (is_forbidden k)) [
    | inl dropped ↦ rw dropped (redact_fields_sound fs)
    | inr kept ↦
        rw kept (field_ok (is_forbidden-IsPublic k kept) (redact_sound v) (redact_fields_sound fs))
  ]

-- Whatever the raw context holds, no key of the redacted value, at any depth, is a listed
-- identifier or ends in "_id".
pub redact-IsRedacted : (v : Json) → IsRedacted (redact v)
redact-IsRedacted v = redact_sound v

-- What a dictionary answers once it is redacted, from what it answered before.
abbrev pub redacted_at : String → Option Json → Option Json
redacted_at k found = if is_forbidden k then none else Option.map redact found

-- The redaction of a dictionary answers each key: nothing for a forbidden one, and the redacted
-- value of the source for any other.
pub get-redact_fields :
    (k : String) (fs : Fields) → get k (redact_fields fs) ≡ redacted_at k (get k fs)
unfolding get redact
get-redact_fields k end = ground arith
get-redact_fields k (field j v fs) = ground (arith, eq_iff j k, get-redact_fields k fs)

mutual
  unfolding redact

  redact_again : (v : Json) → redact (redact v) ≡ redact v
  redact_again null = refl
  redact_again (bool b) = refl
  redact_again (int n) = refl
  redact_again (float x) = refl
  redact_again (str s) = refl
  redact_again (arr xs) = rw (redact_items_again xs)
  redact_again (obj fs) = rw (redact_fields_again fs)

  redact_items_again : (xs : Items) → redact_items (redact_items xs) ≡ redact_items xs
  redact_items_again nil = refl
  redact_items_again (item v xs) = rw (redact_again v, redact_items_again xs)

  redact_fields_again : (fs : Fields) → redact_fields (redact_fields fs) ≡ redact_fields fs
  redact_fields_again end = refl
  redact_fields_again (field k v fs) = elim (Bool-cases (is_forbidden k)) [
    | inl dropped ↦ rw dropped (redact_fields_again fs)
    | inr kept ↦ rw kept (rw kept (rw (redact_again v, redact_fields_again fs)))
  ]

-- Redacting a second time changes nothing.
pub redact-redact : (v : Json) → redact (redact v) ≡ redact v
redact-redact v = redact_again v

customer_id_forbidden : is_forbidden "customer_id" ≡ true
unfolding is_forbidden
customer_id_forbidden = refl

-- Where the snapshot reads a key: the pseudonymous profile, or the raw context.
abbrev pub context_at : String → Fields → Option Json
context_at k raw =
    if "profile" == k
    then some (obj (profile_label (fields (or_default (obj end) (get "profile" raw)))))
    else get k raw

-- The snapshot of a raw context answers every key: nothing for a forbidden one ("customer_id"
-- among them), the redacted label for "profile", and the redacted raw value for any other.
pub get-sanitize :
    (k : String) (raw : Fields) → get k (sanitize raw) ≡ redacted_at k (context_at k raw)
unfolding sanitize
get-sanitize k raw = elim (Bool-cases ("customer_id" == k)) [
  | inl same ↦
      let forbidden : is_forbidden k ≡ true =
        rw (← (eq_iff "customer_id" k).0 same) customer_id_forbidden in
      rw (get-redact_fields, forbidden)
  | inr other ↦ rw (
    get-redact_fields,
    get-pop_ne "customer_id" k _ (λ e. cc (other, (eq_iff "customer_id" k).1 e)),
    get-put,
  )
]

-- If the snapshot of a raw context has a profile, the profile has no key "name".
pub sanitize_hides_name :
    (raw profile : Fields)
    → get "profile" (sanitize raw) ≡ some (obj profile)
    → get "name" profile ≡ none
unfolding get redact is_forbidden
sanitize_hides_name raw profile h =
    let seen : redacted_at "profile" (context_at "profile" raw) ≡ some (obj profile) =
      sym (get-sanitize "profile" raw) ∙ h in
    let label : redact_fields (profile_label (fields (or_default (obj end) (get "profile" raw))))
        ≡ profile =
      cc seen in
    rw (← label)
