-- ===== src/Tokens/Jwt.antt =====
-- app/core/auth.py: `create_jwt` and `verify_jwt`.
use Prim.Native.Char.{Char, char}
use Prim.Native.String.{String as Text}
use jb_wm_backend.Base.{ℕ, String, Option, none, some, List, [], ◌∷◌, ◌==◌, if◌then◌else◌}
use jb_wm_backend.Integers.{ℤ, pos, ◌+ℤ◌, ltb_ℤ}
use jb_wm_backend.Json.{Json, null, int, str, obj, Fields, dict, opt_str, get}
use jb_wm_backend.Models.{Role, customer, advisor, operator, other_role}
use jb_wm_backend.Database.{http, Exec, pure, or_raise, raise_if, tick, ◌>>=◌, ◌>>◌}
use jb_wm_backend.Environment.{Env}
use jb_wm_backend.Tokens.Base64.{append, b64_bytes, b64_decode, split}

abbrev pub dot : Char
dot = char 46 tt

-- `f"{a}.{b}"`
abbrev pub dotted : String → String → String
dotted a b = append a (Text.◌∷◌ dot b)

abbrev pub role_text : Role → String
role_text customer = "customer"
role_text advisor = "advisor"
role_text operator = "operator"
role_text (other_role s) = s

-- `role in {"customer", "advisor", "operator"}`, with the role.
abbrev pub known_role : Json → Option Role
known_role (str s) =
    if s == "customer"
    then some customer
    else if s == "advisor"
    then some advisor
    else if s == "operator"
    then some operator
    else none
known_role _ = none

abbrev pub header : Fields
header = dict (("alg", str "HS256") ∷ ("typ", str "JWT") ∷ [])

abbrev pub payload : String → String → Option String → ℤ → ℤ → Fields
payload subject role customer_id iat exp = dict (
    ("sub", str subject)
    ∷ ("role", str role)
    ∷ ("customer_id", opt_str customer_id)
    ∷ ("iat", int iat)
    ∷ ("exp", int exp)
    ∷ [])

-- The `Principal` of a token: its customer is whatever the payload holds.
pub record TokenPrincipal : Type 0 where
  pub subject : String
  pub role : Role
  pub customer_id : Json

abbrev pub dictionary : Json → Option Fields
dictionary (obj fs) = some fs
dictionary _ = none

-- `header_b64, payload_b64, signature_b64 = token.split(".")`
abbrev pub three : List String → Option (String × String × String)
three (a ∷ b ∷ c ∷ []) = some (a, b, c)
three _ = none

module _ (env : Env) where
  -- `_b64`
  abbrev pub b64 : Fields → String
  b64 fs = b64_bytes (env.json_bytes fs)

  -- The signature of a signing input.
  abbrev pub signature : String → String
  signature input = b64_bytes (env.hmac_sha256 env.settings.jwt_secret input)

  -- The token of a payload.
  abbrev pub token_of : Fields → String
  token_of fs = let input = dotted (b64 header) (b64 fs) in dotted input (signature input)

  -- `create_jwt`
  unfoldable pub create_jwt : String → Role → Option String → ℤ → Exec String
  unfolding append b64_bytes ◌+ℤ◌
  create_jwt subject role customer_id expires_in_seconds = do
    t ← tick
    let now = pos (env.unix_time t)
    pure (token_of (payload subject (role_text role) customer_id now (now +ℤ expires_in_seconds)))

  abbrev pub loads : Option (List ℕ) → Option Json
  loads none = none
  loads (some bytes) = env.json_loads bytes

  -- The payload of three parts with a valid signature.
  abbrev pub signed_payload : Option (String × String × String) → Option Json
  signed_payload none = none
  signed_payload (some (h, p, s)) =
      if signature (dotted h p) == s then loads (b64_decode p) else none

  -- `payload.get`, which a payload that is no dictionary does not have.
  abbrev pub payload_of : Option Json → Option Fields
  payload_of none = none
  payload_of (some v) = dictionary v

  -- `int(payload.get("exp", 0))`
  abbrev pub exp_of : Option Json → Option ℤ
  exp_of none = some (pos 0)
  exp_of (some (int n)) = some n
  exp_of (some v) = env.numbers.to_int v

  -- `payload.get("role")`
  abbrev pub role_of : Option Json → Option Role
  role_of none = none
  role_of (some v) = known_role v

  -- `str(payload["sub"])`
  abbrev pub subject_of : Option Json → Option String
  subject_of none = none
  subject_of (some (str s)) = some s
  subject_of (some v) = some (env.numbers.to_text v)

  abbrev pub or_null : Option Json → Json
  or_null none = null
  or_null (some v) = v

  -- `verify_jwt`: every exception of its body becomes a 401.
  unfoldable pub verify_jwt : String → Exec TokenPrincipal
  unfolding append b64_bytes b64_decode split get
  verify_jwt token = do
    fs ← or_raise (payload_of (signed_payload (three (split 46 token)))) (http 401)
    exp ← or_raise (exp_of (get "exp" fs)) (http 401)
    t ← tick
    raise_if (ltb_ℤ exp (pos (env.unix_time t))) (http 401)
    role ← or_raise (role_of (get "role" fs)) (http 401)
    subject ← or_raise (subject_of (get "sub" fs)) (http 401)
    pure (record { subject = subject; role = role; customer_id = or_null (get "customer_id" fs) })
