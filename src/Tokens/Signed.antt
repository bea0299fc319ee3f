-- ===== src/Tokens/Signed.antt =====
-- app/core/auth.py: which tokens `verify_jwt` accepts, and that it accepts those of `create_jwt`.
use Prim.Native.String.{String as Text}
use mathlib.Core.Option.{some-injective}
use mathlib.Core.Path.{subst}
use jb_wm_backend.Base.{
  ℕ, String, arith, ◌≡◌, refl, ap, sym, ◌⊎◌, inl, inr, true, false, Option, none, some, List, ◌==◌,
  eq_iff, eq_refl, All, Option-cases, Bool-cases,
}
use jb_wm_backend.Integers.{ℤ, pos, ◌+ℤ◌, ltb_ℤ}
use jb_wm_backend.Json.{Json, Fields, obj, get, opt_str}
use jb_wm_backend.Models.{Role, customer, advisor, operator, other_role}
use jb_wm_backend.Database.{World, Result, ok, err, http}
use jb_wm_backend.Environment.{Env}
use jb_wm_backend.Tokens.Base64.{append, b64_bytes, b64_decode, split, lacks, digits}
use jb_wm_backend.Tokens.RoundTrip.{
  IsByte, digits-IsCoded, IsCoded-lacks, b64_bytes-digits, b64_decode-b64_bytes, split-lacks,
  split-append,
}
use jb_wm_backend.Tokens.Jwt.{
  dot, dotted, role_text, known_role, header, payload, TokenPrincipal, three, b64, signature,
  token_of, signed_payload, payload_of, loads, exp_of, role_of, subject_of, or_null, create_jwt,
  verify_jwt,
}

-- The roles that a token can carry.
abbrev pub IsKnown : Role → Type 0
IsKnown (other_role s) = ⊥
IsKnown _ = Unit

known_role-text : (r : Role) → IsKnown r → known_role (Json.str (role_text r)) ≡ some r
known_role-text customer h = refl
known_role-text advisor h = refl
known_role-text operator h = refl
known_role-text (other_role s) h = absurd h

b64_bytes-lacks : (bytes : List ℕ) → All IsByte bytes → lacks 46 (b64_bytes bytes) ≡ true
b64_bytes-lacks bytes h =
    rw (b64_bytes-digits bytes h) (IsCoded-lacks (digits bytes) (digits-IsCoded bytes h))

append_assoc : (a b c : String) → append (append a b) c ≡ append a (append b c)
unfolding append
append_assoc Text.[] b c = refl
append_assoc (Text.◌∷◌ x a) b c = rw (append_assoc a b c) refl

-- Three parts without a dot, joined by dots, split into themselves.
three-dotted :
    (a b c : String)
    → lacks 46 a ≡ true
    → lacks 46 b ≡ true
    → lacks 46 c ≡ true
    → three (split 46 (dotted (dotted a b) c)) ≡ some (a, b, c)
unfolding append
three-dotted a b c ha hb hc =
    rw
      (
        append_assoc a (Text.◌∷◌ dot b) (Text.◌∷◌ dot c),
        split-append 46 dot a (dotted b c) refl ha,
        split-append 46 dot b c refl hb,
        split-lacks 46 c hc,
      )
      refl

-- What a token that is accepted carries: three parts with the signature of the first two, and a
-- payload with a known role that has not expired.
pub record IsAccepted (env : Env) (token : String) (now : ℕ) (p : TokenPrincipal) : Type 0 where
  pub head : String
  pub body : String
  pub parts : three (split 46 token) ≡ some (head, body, signature env (dotted head body))
  pub fs : Fields
  pub read : loads env (b64_decode body) ≡ some (obj fs)
  pub exp : ℤ
  pub expires : exp_of env (get "exp" fs) ≡ some exp
  pub fresh : ltb_ℤ exp (pos now) ≡ false
  pub role : role_of env (get "role" fs) ≡ some p.role
  pub subject : subject_of env (get "sub" fs) ≡ some p.subject

module _ (env : Env) where
  payload_of-obj : (o : Option Json) (fs : Fields) → payload_of env o ≡ some fs → o ≡ some (obj fs)
  payload_of-obj none fs h = absurd (cc)
  payload_of-obj (some Json.null) fs h = absurd (cc)
  payload_of-obj (some (Json.bool b)) fs h = absurd (cc)
  payload_of-obj (some (Json.int n)) fs h = absurd (cc)
  payload_of-obj (some (Json.float x)) fs h = absurd (cc)
  payload_of-obj (some (Json.str t)) fs h = absurd (cc)
  payload_of-obj (some (Json.arr xs)) fs h = absurd (cc)
  payload_of-obj (some (obj gs)) fs h = ap (λ x. some (obj x)) (some-injective gs fs h)

  -- The payload that a signed token yields stands in it.
  signed_parts :
      (parts : Option (String × String × String)) (fs : Fields)
      → payload_of env (signed_payload env parts) ≡ some fs
      → (head : String) × (body : String) × (parts
          ≡ some (head, body, signature env (dotted head body)))
        × (loads env (b64_decode body) ≡ some (obj fs))
  signed_parts none fs h = absurd (cc)
  signed_parts (some (head, body, s)) fs h =
      elim (Bool-cases (signature env (dotted head body) == s)) [
        | inr forged ↦ absurd (ground arith)
        | inl signed ↦ (
          head,
          body,
          ap (λ x. some (head, body, x))
              (sym ((eq_iff (signature env (dotted head body)) s).0 signed)),
          payload_of-obj (loads env (b64_decode body)) fs (rw signed at h),
        )
      ]

  -- The outcome of a token: accepted for a reason, or 401.
  abbrev pub Judged : String → ℕ → Result TokenPrincipal → Type 0
  Judged token now r =
      ((p : TokenPrincipal) × (r ≡ ok p) × IsAccepted env token now p) ⊎ (r ≡ err (http 401))

  payload-Judged :
      (token : String) (w : World) (fs : Fields)
      → payload_of env (signed_payload env (three (split 46 token))) ≡ some fs
      → Judged token (env.unix_time w.ticks) (verify_jwt env token w).0
  unfolding verify_jwt
  payload-Judged token w fs e = elim (Option-cases (exp_of env (get "exp" fs))) [
    | inl no_exp ↦ inr (ground arith)
    | inr (exp, has_exp) ↦ elim (Bool-cases (ltb_ℤ exp (pos (env.unix_time w.ticks)))) [
      | inl old ↦ inr (ground arith)
      | inr fresh ↦ elim (Option-cases (role_of env (get "role" fs))) [
        | inl no_role ↦ inr (ground arith)
        | inr (role, has_role) ↦ elim (Option-cases (subject_of env (get "sub" fs))) [
          | inl no_subject ↦ inr (ground arith)
          | inr (subject, has_subject) ↦
              let (head, body, parts, read) = signed_parts (three (split 46 token)) fs e in
              inl (
                record {
                  subject = subject;
                  role = role;
                  customer_id = or_null env (get "customer_id" fs);
                },
                ground arith,
                record {
                  head = head;
                  body = body;
                  parts = parts;
                  fs = fs;
                  read = read;
                  exp = exp;
                  expires = has_exp;
                  fresh = fresh;
                  role = has_role;
                  subject = has_subject;
                },
              )
        ]
      ]
    ]
  ]

  -- A token is accepted only if it has three parts, the third is the signature of the other two under
  -- the secret, and the payload names a known role and has not expired; every other token gets 401.
  pub verify_jwt_sound :
      (token : String) (w : World) → Judged token (env.unix_time w.ticks) (verify_jwt env token w).0
  unfolding verify_jwt
  verify_jwt_sound token w =
      elim (Option-cases (payload_of env (signed_payload env (three (split 46 token))))) [
        | inl unsigned ↦ inr (ground arith)
        | inr (fs, e) ↦ payload-Judged token w fs e
      ]

  -- The signed payload of a token that was made from a payload.
  signed_payload-token_of :
      (fs : Fields)
      → All IsByte (env.json_bytes header)
      → All IsByte (env.json_bytes fs)
      → ((m : String) → All IsByte (env.hmac_sha256 env.settings.jwt_secret m))
      → env.json_loads (env.json_bytes fs) ≡ some (obj fs)
      → signed_payload env (three (split 46 (token_of env fs))) ≡ some (obj fs)
  signed_payload-token_of fs hh hp hs law =
      rw
        (
          three-dotted (b64 env header) (b64 env fs)
              (signature env (dotted (b64 env header) (b64 env fs))) (b64_bytes-lacks _ hh)
              (b64_bytes-lacks _ hp) (b64_bytes-lacks _ (hs _)),
          eq_refl (signature env (dotted (b64 env header) (b64 env fs))),
          b64_decode-b64_bytes (env.json_bytes fs) hp,
        )
        law

  -- A signed payload of a known role that has not expired is accepted.
  verify_jwt-payload :
      (subject : String) (role : Role) (customer_id : Option String) (iat exp : ℤ) (token : String)
      (v : World)
      → IsKnown role
      → signed_payload env (three (split 46 token))
        ≡ some (obj (payload subject (role_text role) customer_id iat exp))
      → ltb_ℤ exp (pos (env.unix_time v.ticks)) ≡ false
      → (verify_jwt env token v).0
        ≡ ok (record { subject = subject; role = role; customer_id = opt_str customer_id })
  unfolding verify_jwt get
  verify_jwt-payload subject role customer_id iat exp token v known signed fresh =
      rw (signed, fresh, known_role-text role known) refl

  -- The payload that `create_jwt` signs at a reading of the clock.
  abbrev pub payload_at : String → Role → Option String → ℤ → ℕ → Fields
  payload_at subject role customer_id seconds t =
      let now = pos (env.unix_time t) in
      payload subject (role_text role) customer_id now (now +ℤ seconds)

  -- A token that `create_jwt` made for a known role is accepted until it expires, and yields the
  -- subject, the role and the customer that it was made for. HMAC, JSON and UTF-8 give bytes, and
  -- the payload can be read back from its JSON text.
  pub verify_jwt-create_jwt :
      (subject : String) (role : Role) (customer_id : Option String) (seconds : ℤ) (w v : World)
      (token : String)
      → IsKnown role
      → All IsByte (env.json_bytes header)
      → All IsByte (env.json_bytes (payload_at subject role customer_id seconds w.ticks))
      → ((m : String) → All IsByte (env.hmac_sha256 env.settings.jwt_secret m))
      → env.json_loads (env.json_bytes (payload_at subject role customer_id seconds w.ticks))
        ≡ some (obj (payload_at subject role customer_id seconds w.ticks))
      → ltb_ℤ (pos (env.unix_time w.ticks) +ℤ seconds) (pos (env.unix_time v.ticks)) ≡ false
      → (create_jwt env subject role customer_id seconds w).0 ≡ ok token
      → (verify_jwt env token v).0
        ≡ ok (record { subject = subject; role = role; customer_id = opt_str customer_id })
  unfolding create_jwt
  verify_jwt-create_jwt subject role customer_id seconds w v token known hh hp hs law fresh made =
      let fs = payload_at subject role customer_id seconds w.ticks in
      let same : token_of env fs ≡ token = ground arith in
      verify_jwt-payload subject role customer_id _ _ token v known
        (subst (λ t. signed_payload env (three (split 46 t)) ≡ some (obj fs)) same
          (signed_payload-token_of fs hh hp hs law))
        fresh
