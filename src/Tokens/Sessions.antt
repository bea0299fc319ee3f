-- ===== src/Tokens/Sessions.antt =====
-- app/api/deps.py and app/api/routes/auth.py: whom `current_principal` lets in, and that a login's
-- token is let in.
use Prim.Native.Char.{Char, char}
use Prim.Native.String.{String as Text}
use mathlib.Core.Path.{subst}
use jb_wm_backend.Base.{
  ◌+◌, String, arith, ◌≡◌, refl, ap, sym, ◌⊎◌, inl, inr, true, false, not, ◌||◌, Option, none, some,
  ◌==◌, eq_iff, All, Bool-cases, Option-cases, truthy, truthy?, first,
}
use jb_wm_backend.Integers.{ℤ, pos, ◌+ℤ◌, ltb_ℤ}
use jb_wm_backend.Json.{obj}
use jb_wm_backend.Models.{Role, UserAccount}
use jb_wm_backend.Database.{World, Result, ok, err, pure, ◌>>=◌}
use jb_wm_backend.Database.Rows.{get_row}
use jb_wm_backend.Database.Reads.{Reads, reads_rules}
use jb_wm_backend.Environment.{Env, is_local_or_dev}
use jb_wm_backend.Security.{Principal}
use jb_wm_backend.Tokens.Base64.{append, lacks}
use jb_wm_backend.Tokens.Jwt.{TokenPrincipal, dot, dotted, token_of, header, create_jwt, verify_jwt}
use jb_wm_backend.Tokens.Password.{cut, cut-append}
use jb_wm_backend.Tokens.RoundTrip.{IsByte}
use jb_wm_backend.Tokens.Signed.{
  IsKnown, IsAccepted, Judged, verify_jwt_sound, payload_at, verify_jwt-create_jwt,
}
use jb_wm_backend.Tokens.Login.{
  account_key, active_account, principal_of, local_principal, LoginOut, principal_from,
  principal_in, principal_with, current_principal, user_dict, refuses, start_session, login,
}

-- Why a request acts for a principal: its token is accepted and names an active account, from which
-- the role and the customer are read.
pub record IsAdmitted (env : Env) (token : String) (w : World) (p : Principal) : Type 0 where
  pub named : TokenPrincipal
  pub accepted : IsAccepted env token (env.unix_time w.ticks) named
  pub account : UserAccount
  pub stored : get_row account_key named.subject w.working.accounts ≡ some account
  pub active : account.active ≡ true
  pub same : p ≡ principal_of account

-- `authorization.partition(" ")`
abbrev pub map_cut : Option String → Option (String × Option String)
map_cut none = none
map_cut (some header) = some (cut 32 header)

ok-injective : {A : Type 0} (a b : A) → ok a ≡ ok b → a ≡ b
ok-injective a b e = ground arith

truthy_cons : (c : Char) (s : String) → truthy (Text.◌∷◌ c s) ≡ true
truthy_cons c s = elim (Bool-cases (Text.◌∷◌ c s == "")) [
  | inr filled ↦ rw filled refl
  | inl empty ↦ let e : Text.◌∷◌ c s ≡ "" = (eq_iff (Text.◌∷◌ c s) "").0 empty in absurd (cc)
]

truthy-dotted : (a b : String) → truthy (dotted a b) ≡ true
unfolding append
truthy-dotted Text.[] b = truthy_cons dot b
truthy-dotted (Text.◌∷◌ c a) b = truthy_cons c (dotted a b)

bearer-lacks : lacks 32 "Bearer" ≡ true
unfolding lacks
bearer-lacks = refl

bearer_parts : (token : String) → cut 32 (append "Bearer " token) ≡ ("Bearer", some token)
unfolding append
bearer_parts token = cut-append 32 (char 32 tt) "Bearer" token refl bearer-lacks

bearer-truthy : (token : String) → truthy (append "Bearer " token) ≡ true
unfolding append
bearer-truthy token = truthy_cons (char 66 tt) (append "earer " token)

module _ (env : Env) where
  created-truthy :
      (subject : String) (role : Role) (customer_id : Option String) (seconds : ℤ) (x : World)
      (token : String)
      → (create_jwt env subject role customer_id seconds x).0 ≡ ok token
      → truthy token ≡ true
  unfolding create_jwt
  created-truthy subject role customer_id seconds x token made =
      let fs = payload_at env subject role customer_id seconds x.ticks in
      let same : token_of env fs ≡ token = ground arith in
      subst (λ t. truthy t ≡ true) same (truthy-dotted _ _)

  verify_jwt-Reads : (token : String) → Reads (verify_jwt env token)
  unfolding verify_jwt
  verify_jwt-Reads token = search reads_rules depth 20

  active_account_run :
      (id : String) (w : World) (a : UserAccount)
      → get_row account_key id w.working.accounts ≡ some a
      → a.active ≡ true
      → active_account id w ≡ (ok a, w)
  unfolding active_account
  active_account_run id w a found active = ground arith

  active_account_sound :
      (id : String) (w w' : World) (a : UserAccount)
      → active_account id w ≡ (ok a, w')
      → (get_row account_key id w.working.accounts ≡ some a) × (a.active ≡ true)
  unfolding active_account
  active_account_sound id w w' a run = ground arith

  -- The rest of `principal_from`, once the token is judged.
  account-IsAdmitted :
      (token : String) (w v w' : World) (tp : TokenPrincipal) (p : Principal)
      → IsAccepted env token (env.unix_time w.ticks) tp
      → v.working ≡ w.working
      → (active_account tp.subject >>= λ a. pure (principal_of a)) v ≡ (ok p, w')
      → IsAdmitted env token w p
  unfolding active_account
  account-IsAdmitted token w v w' tp p acc same run =
      elim (Option-cases (get_row account_key tp.subject v.working.accounts)) [
        | inl absent ↦ absurd (ground arith)
        | inr (a, found) ↦ elim (Bool-cases a.active) [
          | inr inactive ↦ absurd (ground arith)
          | inl active ↦ record {
            named = tp;
            accepted = acc;
            account = a;
            stored = subst (λ d. get_row account_key tp.subject d.accounts ≡ some a) same found;
            active = active;
            same = ground arith;
          }
        ]
      ]

  token-IsAdmitted :
      (token : String) (w v w' : World) (r : Result TokenPrincipal) (p : Principal)
      → Judged env token (env.unix_time w.ticks) r
      → v.working ≡ w.working
      → ((λ (x : World). (r, v)) >>= λ tp. active_account tp.subject >>= λ a. pure (principal_of a))
          v
        ≡ (ok p, w')
      → IsAdmitted env token w p
  token-IsAdmitted token w v w' (err e) p judged same run = absurd (ground arith)
  token-IsAdmitted token w v w' (ok tp) p (inr refused) same run = absurd (ground arith)
  token-IsAdmitted token w v w' (ok tp) p (inl (tp', is, acc)) same run =
      account-IsAdmitted token w v w' tp p
        (subst (IsAccepted env token (env.unix_time w.ticks)) (sym (ok-injective tp tp' is)) acc)
        same run

  principal_from_sound :
      (token : String) (w w' : World) (p : Principal)
      → principal_from env token w ≡ (ok p, w')
      → IsAdmitted env token w p
  unfolding principal_from
  principal_from_sound token w w' p run =
      token-IsAdmitted token w (verify_jwt env token w).1 w' (verify_jwt env token w).0 p
        (verify_jwt_sound env token w) ((verify_jwt-Reads token).at w) run

  -- The two ways to act: without a header where the program runs locally, and with a bearer token.
  abbrev pub MayProceed : Option String → World → Principal → Type 0
  MayProceed authorization w p =
      ((truthy? authorization ≡ false)
        × (is_local_or_dev env.settings.app_env ≡ true)
        × (p ≡ local_principal))
      ⊎ ((token : String) × (scheme : String) × (map_cut authorization ≡ some (scheme, some token))
          × (env.lower scheme ≡ "bearer")
          × IsAdmitted env token w p)

  principal_in_sound :
      (parts : String × Option String) (w w' : World) (p : Principal)
      → principal_in env parts w ≡ (ok p, w')
      → (token : String) × (scheme : String) × (parts ≡ (scheme, some token))
        × (env.lower scheme ≡ "bearer")
        × IsAdmitted env token w p
  unfolding principal_in
  principal_in_sound (scheme, none) w w' p run = absurd (ground arith)
  principal_in_sound (scheme, some token) w w' p run =
      elim (Bool-cases (not (env.lower scheme == "bearer") || not (truthy token))) [
        | inl refused ↦ absurd (ground arith)
        | inr passed ↦ (
          token,
          scheme,
          refl,
          (eq_iff (env.lower scheme) "bearer").0 (ground arith),
          principal_from_sound token w w' p (ground arith),
        )
      ]

  principal_with_sound :
      (header : String) (w w' : World) (p : Principal)
      → principal_with env header w ≡ (ok p, w')
      → MayProceed (some header) w p
  unfolding principal_with
  principal_with_sound header w w' p run =
      let (token, scheme, parts, bearer, admitted) =
        principal_in_sound (cut 32 header) w w' p run in
      inr (token, scheme, ap some parts, bearer, admitted)

  -- A request acts for someone only if it has no header and the program runs locally, or if it
  -- carries a bearer token that is signed and has not expired, and that names an account which is
  -- active now: the role and the customer are those of the account, not of the token.
  pub current_principal_sound :
      (authorization : Option String) (w w' : World) (p : Principal)
      → current_principal env authorization w ≡ (ok p, w')
      → MayProceed authorization w p
  unfolding current_principal
  current_principal_sound none w w' p run = inl (ground arith)
  current_principal_sound (some header) w w' p run = elim (Bool-cases (truthy header)) [
    | inr bare ↦ inl (ground arith)
    | inl given ↦ principal_with_sound header w w' p (ground arith)
  ]

  accounted :
      (r : Result TokenPrincipal) (v : World) (tp : TokenPrincipal) (a : UserAccount)
      → r ≡ ok tp
      → get_row account_key tp.subject v.working.accounts ≡ some a
      → a.active ≡ true
      → (((λ (x : World). (r, v)) >>= λ named.
            active_account named.subject >>= λ b. pure (principal_of b))
          v).0
        ≡ ok (principal_of a)
  accounted r v tp a judged found active =
      rw judged (ground (arith, active_account_run tp.subject v a found active))

  -- A token for the active account that it names is let in as that account.
  principal_from_run :
      (token : String) (v : World) (tp : TokenPrincipal) (a : UserAccount)
      → (verify_jwt env token v).0 ≡ ok tp
      → get_row account_key tp.subject v.working.accounts ≡ some a
      → a.active ≡ true
      → (principal_from env token v).0 ≡ ok (principal_of a)
  unfolding principal_from active_account
  principal_from_run token v tp a judged found active =
      let (r, v') = verify_jwt env token v in
      accounted r v' tp a judged (rw ((verify_jwt-Reads token).at v) found) active

  start_session_run :
      (user : UserAccount) (w w' : World) (out : LoginOut)
      → start_session env user w ≡ (ok out, w')
      → (x : World) × (x.ticks ≡ w.ticks + 2)
        × (out.user ≡ user_dict user)
        × ((create_jwt env user.id user.role user.customer_id (pos 3600) x).0 ≡ ok out.access_token)
  unfolding start_session create_jwt
  start_session_run user w w' out run =
      (record w { ticks = w.ticks + 1 + 1 }, omega arith, ground arith, ground arith)

  login_run :
      (email password : String) (w w' : World) (out : LoginOut)
      → login env email password w ≡ (ok out, w')
      → (user : UserAccount) × (first
            (λ (u : UserAccount). u.email == env.lower email)
            w.working.accounts
          ≡ some user)
        × (refuses env user password ≡ false)
        × (start_session env user w ≡ (ok out, w'))
  unfolding login
  login_run email password w w' out run =
      elim (Option-cases
        (first (λ (u : UserAccount). u.email == env.lower email) w.working.accounts)) [
          | inl absent ↦ absurd (ground arith)
          | inr (user, found) ↦ elim (Bool-cases (refuses env user password)) [
            | inl refused ↦ absurd (ground arith)
            | inr passed ↦ (user, found, passed, ground arith)
          ]
        ]

  -- A bearer header is taken apart into its token.
  bearer :
      (token : String) (v : World)
      → env.lower "Bearer" ≡ "bearer"
      → truthy token ≡ true
      → current_principal env (some (append "Bearer " token)) v ≡ principal_from env token v
  unfolding current_principal principal_with principal_in
  bearer token v low given =
      rw (bearer-truthy token, principal_with, bearer_parts token, low, given) refl

  -- As long as its account is active, the token of a login that succeeded lets its bearer in as that
  -- account until an hour has passed, with the role and the customer that the account has by then.
  -- HMAC, JSON and UTF-8 give bytes, and the payload can be read back from its JSON text.
  pub current_principal-login :
      (email password : String) (w w' v : World) (out : LoginOut) (a : UserAccount)
      → login env email password w ≡ (ok out, w')
      → IsKnown out.user.role
      → All IsByte (env.json_bytes header)
      → ((m : String) → All IsByte (env.hmac_sha256 env.settings.jwt_secret m))
      → All IsByte (
          env.json_bytes (
            payload_at env out.user.id out.user.role out.user.customer_id (pos 3600) (w.ticks + 2)))
      → env.json_loads (
          env.json_bytes (
            payload_at env out.user.id out.user.role out.user.customer_id (pos 3600) (w.ticks + 2)))
        ≡ some (
            obj (
              payload_at env out.user.id out.user.role out.user.customer_id
                (pos 3600)
                (w.ticks + 2)))
      → env.lower "Bearer" ≡ "bearer"
      → get_row account_key out.user.id v.working.accounts ≡ some a
      → a.active ≡ true
      → ltb_ℤ (pos (env.unix_time (w.ticks + 2)) +ℤ pos 3600) (pos (env.unix_time v.ticks)) ≡ false
      → (current_principal env (some (append "Bearer " out.access_token)) v).0 ≡ ok (principal_of a)
  current_principal-login email password w w' v out a run known hh hs hp law low found active
        fresh =
      let (user, stored, passed, started) = login_run email password w w' out run in
      let (x, at, shown, made) = start_session_run user w w' out started in
      rw (bearer out.access_token v low (created-truthy _ _ _ _ x out.access_token made)) (
        principal_from_run out.access_token v _ a
          (verify_jwt-create_jwt env out.user.id out.user.role out.user.customer_id (pos 3600) x v
            out.access_token known hh (rw at hp) hs (rw at law) (rw at fresh) (rw shown made))
          found active)
