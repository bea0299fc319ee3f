-- ===== src/Tokens/Login.antt =====
-- app/api/deps.py and app/api/routes/auth.py: whom a request acts for, the login and the account
-- that it shows.
use jb_wm_backend.Base.{
  String, Bool, true, not, ◌||◌, Option, none, some, ◌==◌, if◌then◌else◌, truthy, first,
}
use jb_wm_backend.Integers.{pos}
use jb_wm_backend.Models.{Role, operator, UserAccount}
use jb_wm_backend.Database.{
  http, Exec, pure, raise, gets, or_raise, raise_if, modify, commit, tick, ◌>>=◌, ◌>>◌,
}
use jb_wm_backend.Database.Rows.{get_row, save_row}
use jb_wm_backend.Environment.{Env, is_local_or_dev}
use jb_wm_backend.Security.{Principal}
use jb_wm_backend.Tokens.Password.{cut, verify_password}
use jb_wm_backend.Tokens.Jwt.{create_jwt, verify_jwt}

abbrev pub account_key : UserAccount → String
account_key a = a.id

-- The active account of an identifier, and 401 without one.
unfoldable pub active_account : String → Exec UserAccount
active_account id = do
  account ← or_raise (← gets (λ db. get_row account_key id db.accounts)) (http 401)
  raise_if (not account.active) (http 401)
  pure account

abbrev pub principal_of : UserAccount → Principal
principal_of a = record { subject = a.id; role = a.role; customer_id = a.customer_id }

abbrev pub local_principal : Principal
local_principal = record { subject = "local-dev"; role = operator; customer_id = none }

-- What `_user_dict` shows of an account.
pub record UserOut : Type 0 where
  pub id : String
  pub email : String
  pub role : Role
  pub customer_id : Option String
  pub active : Bool

-- `_user_dict`
abbrev pub user_dict : UserAccount → UserOut
user_dict a = record {
  id = a.id;
  email = a.email;
  role = a.role;
  customer_id = a.customer_id;
  active = a.active;
}

-- The answer of `login`; its `token_type` is always "bearer".
pub record LoginOut : Type 0 where
  pub access_token : String
  pub user : UserOut

abbrev pub behind : Option String → String
behind none = ""
behind (some s) = s

module _ (env : Env) where
  -- A principal from a token: the token names an account, and the account says the rest.
  unfoldable pub principal_from : String → Exec Principal
  unfolding active_account
  principal_from token = do
    token_principal ← verify_jwt env token
    account ← active_account token_principal.subject
    pure (principal_of account)

  -- The test of the scheme and the token.
  unfoldable pub principal_in : String × Option String → Exec Principal
  unfolding principal_from
  principal_in (scheme, rest) =
      if not (env.lower scheme == "bearer") || not (truthy (behind rest))
      then raise (http 401)
      else principal_from (behind rest)

  -- `authorization.partition(" ")`
  unfoldable pub principal_with : String → Exec Principal
  unfolding principal_in cut
  principal_with authorization = principal_in (cut 32 authorization)

  -- `current_principal`
  unfoldable pub current_principal : Option String → Exec Principal
  unfolding principal_with
  current_principal none =
      if is_local_or_dev env.settings.app_env then pure local_principal else raise (http 401)
  current_principal (some authorization) =
      if truthy authorization
      then principal_with authorization
      else if is_local_or_dev env.settings.app_env
      then pure local_principal
      else raise (http 401)

  abbrev pub save_account : UserAccount → Exec (Unit {0})
  save_account a = modify (λ db. record db { accounts = save_row account_key a db.accounts })

  -- The part of `login` behind the checks.
  unfoldable pub start_session : UserAccount → Exec LoginOut
  start_session user = do
    t ← tick
    t' ← tick
    save_account (record user { last_login_at = some (env.utcnow t); updated_at = env.utcnow t' })
    commit
    token ← create_jwt env user.id user.role user.customer_id (pos 3600)
    pure (record { access_token = token; user = user_dict user })

  -- The test of a password on the account of an address.
  abbrev pub refuses : UserAccount → String → Bool
  refuses user password = not user.active || not (verify_password env password user.password_hash)

  -- `login`
  unfoldable pub login : String → String → Exec LoginOut
  unfolding start_session
  login email password = do
    user ←
        or_raise
          (← gets (λ db. first (λ (u : UserAccount). u.email == env.lower email) db.accounts))
          (http 401)
    raise_if (refuses user password) (http 401)
    start_session user

-- `me`
unfoldable pub me : Principal → Exec UserOut
unfolding active_account
me principal =
    if principal.subject == "local-dev"
    then pure (record {
      id = "local-dev";
      email = "local-dev@jbwm.local";
      role = operator;
      customer_id = none;
      active = true;
    })
    else active_account principal.subject >>= λ user. pure (user_dict user)
