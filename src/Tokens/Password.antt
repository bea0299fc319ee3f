-- ===== src/Tokens/Password.antt =====
-- app/core/auth.py: `hash_password` and `verify_password`.
use Prim.Native.Char.{Char, char}
use Prim.Native.String.{String as Text}
use mathlib.Core.Option.{some-injective}
use jb_wm_backend.Base.{
  ℕ, zero, suc, String, ◌≡◌, refl, ap, sym, ◌∙◌, ◌↔◌, arith, Bool, true, false, Option, none, some,
  List, [], ◌∷◌, ◌==◌, eq_iff, if◌then◌else◌, All, Bool-cases, inl, inr,
}
use jb_wm_backend.Integers.{ℤ, pos}
use jb_wm_backend.Json.{str}
use jb_wm_backend.Database.{World, exception, Exec, pure, or_raise, tick, ok, ◌>>=◌}
use jb_wm_backend.Environment.{Env}
use jb_wm_backend.Tokens.Base64.{append, is_code, b64_bytes, b64_decode, lacks}
use jb_wm_backend.Tokens.RoundTrip.{IsByte, b64_decode-b64_bytes}

-- The text before the first separator, and the text behind it if there is one.
abbrev pub onto_cut : Char → String × Option String → String × Option String
onto_cut c (a, b) = (Text.◌∷◌ c a, b)

unfoldable pub cut : ℕ → String → String × Option String
cut d Text.[] = ("", none)
cut d (Text.◌∷◌ c s) = let rest = cut d s in if is_code d c then ("", some s) else onto_cut c rest

abbrev pub then_split : (String → List String) → String × Option String → List String
then_split f (a, none) = a ∷ []
then_split f (a, some b) = a ∷ f b

-- `text.split(separator, n)`
unfoldable pub split_max : ℕ → ℕ → String → List String
unfolding cut
split_max zero d s = s ∷ []
split_max (suc n) d s = then_split (split_max n d) (cut d s)

abbrev pub dollar : Char
dollar = char 36 tt

-- `f"{a}${b}"`
abbrev pub with_dollar : String → String → String
with_dollar a b = append a (Text.◌∷◌ dollar b)

abbrev pub four : List String → Option (String × String × String × String)
four (a ∷ b ∷ c ∷ d ∷ []) = some (a, b, c, d)
four _ = none

-- `PASSWORD_ITERATIONS`, and its text
abbrev pub password_iterations : ℤ
password_iterations = pos 120000

abbrev pub iterations_text : String
iterations_text = "120000"

module _ (env : Env) where
  -- The stored form of a digest.
  abbrev pub stored : String → List ℕ → String
  stored salt digest =
      with_dollar "pbkdf2_sha256"
        (with_dollar iterations_text (with_dollar salt (b64_bytes digest)))

  -- `hash_password`
  unfoldable pub hash_password : String → Exec String
  unfolding append b64_bytes
  hash_password password = do
    t ← tick
    digest ←
        or_raise (env.pbkdf2_hmac password (env.token_urlsafe t) password_iterations)
          (exception "ValueError")
    pure (stored (env.token_urlsafe t) digest)

  abbrev pub has_digest : Option (List ℕ) → String → Bool
  has_digest none expected = false
  has_digest (some digest) expected = b64_bytes digest == expected

  abbrev pub digest_with : String → String → Option ℤ → Option (List ℕ)
  digest_with password salt none = none
  digest_with password salt (some rounds) = env.pbkdf2_hmac password salt rounds

  abbrev pub matches : String → Option (String × String × String × String) → Bool
  matches password none = false
  matches password (some (algorithm, rounds, salt, expected)) =
      if algorithm == "pbkdf2_sha256"
      then has_digest (digest_with password salt (env.numbers.to_int (str rounds))) expected
      else false

  -- `verify_password`: every exception of its body becomes `False`.
  unfoldable pub verify_password : String → String → Bool
  unfolding split_max b64_bytes
  verify_password password password_hash = matches password (four (split_max 3 36 password_hash))

pub cut-lacks : (d : ℕ) (s : String) → lacks d s ≡ true → cut d s ≡ (s, none)
unfolding cut lacks
cut-lacks d Text.[] h = refl
cut-lacks d (Text.◌∷◌ c s) h = elim (Bool-cases (is_code d c)) [
  | inl here ↦ absurd (ground arith)
  | inr other ↦ rw (other, cut-lacks d s (ground arith)) refl
]

pub cut-append :
    (d : ℕ) (c : Char) (s t : String)
    → is_code d c ≡ true
    → lacks d s ≡ true
    → cut d (append s (Text.◌∷◌ c t)) ≡ (s, some t)
unfolding cut lacks append
cut-append d c Text.[] t e h = rw e refl
cut-append d c (Text.◌∷◌ b s) t e h = elim (Bool-cases (is_code d b)) [
  | inl here ↦ absurd (ground arith)
  | inr other ↦ rw (other, cut-append d c s t e (ground arith)) refl
]

algorithm-lacks : lacks 36 "pbkdf2_sha256" ≡ true
unfolding lacks
algorithm-lacks = refl

iterations-lacks : lacks 36 iterations_text ≡ true
unfolding lacks
iterations-lacks = refl

-- The parts of a stored hash.
four-stored :
    (salt expected : String)
    → lacks 36 salt ≡ true
    → four (
        split_max 3 36
          (with_dollar "pbkdf2_sha256" (with_dollar iterations_text (with_dollar salt expected))))
      ≡ some ("pbkdf2_sha256", iterations_text, salt, expected)
unfolding split_max
four-stored salt expected h =
    rw
      (
        cut-append 36 dollar "pbkdf2_sha256"
            (with_dollar iterations_text (with_dollar salt expected)) refl algorithm-lacks,
        cut-append 36 dollar iterations_text (with_dollar salt expected) refl iterations-lacks,
        cut-append 36 dollar salt expected refl h,
      )
      refl

b64_bytes-injective :
    (xs ys : List ℕ) → All IsByte xs → All IsByte ys → b64_bytes xs ≡ b64_bytes ys → xs ≡ ys
b64_bytes-injective xs ys hx hy e =
    some-injective xs ys
      (sym (b64_decode-b64_bytes xs hx) ∙ ap b64_decode e ∙ b64_decode-b64_bytes ys hy)

module _ (env : Env) where
  has_digest_iff :
      (o : Option (List ℕ)) (digest : List ℕ)
      → All IsByte digest
      → ((bytes : List ℕ) → o ≡ some bytes → All IsByte bytes)
      → (has_digest env o (b64_bytes digest) ≡ true) ↔ (o ≡ some digest)
  has_digest_iff none digest hd ho = (λ h. absurd (cc), λ h. absurd (cc))
  has_digest_iff (some bytes) digest hd ho = (
    λ h. ap some (
        b64_bytes-injective bytes digest (ho bytes refl) hd
          ((eq_iff (b64_bytes bytes) (b64_bytes digest)).0 h)),
    λ h.
        (eq_iff (b64_bytes bytes) (b64_bytes digest)).1
          (ap b64_bytes (some-injective bytes digest h)),
  )

  -- A password is accepted against the hash that was made of another exactly when the two have the
  -- same digest under the salt of the hash; so the password of the hash is. The salt has no `$`, the
  -- digests are bytes, and Python reads the number of rounds back.
  pub verify_password-hash_password :
      (password attempt hash : String) (digest : List ℕ) (w : World)
      → lacks 36 (env.token_urlsafe w.ticks) ≡ true
      → ((p : String) (bytes : List ℕ)
          → env.pbkdf2_hmac p (env.token_urlsafe w.ticks) password_iterations ≡ some bytes
          → All IsByte bytes)
      → env.numbers.to_int (str iterations_text) ≡ some password_iterations
      → env.pbkdf2_hmac password (env.token_urlsafe w.ticks) password_iterations ≡ some digest
      → (hash_password env password w).0 ≡ ok hash
      → (verify_password env attempt hash ≡ true) ↔ (
          env.pbkdf2_hmac attempt (env.token_urlsafe w.ticks) password_iterations
          ≡ env.pbkdf2_hmac password (env.token_urlsafe w.ticks) password_iterations)
  unfolding hash_password verify_password
  verify_password-hash_password password attempt hash digest w salted bytes rounds own made =
      let same : stored env (env.token_urlsafe w.ticks) digest ≡ hash = ground arith in
      rw (← same, four-stored (env.token_urlsafe w.ticks) (b64_bytes digest) salted, rounds, own)
        (has_digest_iff _ digest (bytes password digest own) (λ bs e. bytes attempt bs e))
