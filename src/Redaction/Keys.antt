-- ===== src/Redaction/Keys.antt =====
-- What the key test of the redaction decides, said without it.
use Prim.Native.String.{◌++◌}
use Prim.Native.String.{String as Text}
use text.Mathlib.TextLemmas.{nil-append, cons-append}
use jb_wm_backend.Base.{
  String, ◌≡◌, refl, ◌≢◌, true, false, List, [], ◌∷◌, ◌==◌, eq_iff, eq_refl, any, All, or-eq-false,
  or-true_right,
}
use jb_wm_backend.Redaction.{ends_with, forbidden_keys, is_forbidden}

-- A key that names no listed identifier and has no suffix "_id".
pub record IsPublic (key : String) : Type 0 where
  pub unlisted : All (λ k. k ≢ key) forbidden_keys
  pub no_id_suffix : (stem : String) → key ≢ stem ++ "_id"

ends_with_self : (suffix : String) → ends_with suffix suffix ≡ true
unfolding ends_with
ends_with_self Text.[] = refl
ends_with_self (Text.◌∷◌ c s) = rw (eq_refl (Text.◌∷◌ c s)) refl

ends_with-append : (suffix stem : String) → ends_with suffix (stem ++ suffix) ≡ true
unfolding ends_with
ends_with-append suffix Text.[] = rw (nil-append suffix) (ends_with_self suffix)
ends_with-append suffix (Text.◌∷◌ c s) =
    rw (cons-append c s suffix)
      (or-true_right (Text.◌∷◌ c (s ++ suffix) == suffix) _ (ends_with-append suffix s))

any-false :
    (key : String) (ks : List String) → any (λ k. k == key) ks ≡ false → All (λ k. k ≢ key) ks
any-false key [] h = tt
any-false key (k ∷ ks) h =
    let (first_off, rest_off) = or-eq-false (k == key) _ h in
    ((λ e. cc (first_off, (eq_iff k key).1 e)), any-false key ks rest_off)

-- A key that the redaction lets through is public.
pub is_forbidden-IsPublic : (key : String) → is_forbidden key ≡ false → IsPublic key
unfolding is_forbidden
is_forbidden-IsPublic key h =
    let (unlisted, unsuffixed) = or-eq-false (any (λ k. k == key) forbidden_keys) _ h in
    record {
      unlisted = any-false key forbidden_keys unlisted;
      no_id_suffix = λ stem e. cc (unsuffixed, e, ends_with-append "_id" stem);
    }
