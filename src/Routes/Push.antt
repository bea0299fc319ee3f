-- ===== src/Routes/Push.antt =====
-- app/api/routes/push.py: the push subscriptions of an account.
use mathlib.Core.List.{◌++◌}
use jb_wm_backend.Base.{
  ℕ, String, Bool, not, ◌&&◌, Option, none, some, List, [], ◌∷◌, ◌==◌, if◌then◌else◌, first,
  where_all, newest_first, map,
}
use jb_wm_backend.Json.{Fields}
use jb_wm_backend.Models.{UserAccount, PushSubscription}
use jb_wm_backend.Database.{
  Db, http, Exec, pure, gets, or_raise, raise_if, modify, commit, tick, ◌>>=◌, ◌>>◌,
}
use jb_wm_backend.Database.Rows.{get_row, save_row}
use jb_wm_backend.Environment.{Env}
use jb_wm_backend.Security.{Principal}
use jb_wm_backend.Tokens.Login.{active_account}

-- `PushSubscriptionIn`, with `PushKeysIn` in place.
pub record PushSubscriptionIn : Type 0 where
  pub endpoint : String
  pub p256dh : String
  pub auth : String
  pub user_agent : String
  pub metadata : Fields

abbrev pub subscription_key : PushSubscription → String
subscription_key s = s.id

abbrev is_local_dev : Principal → Bool
is_local_dev p = p.subject == "local-dev"

-- The test of the query in `register_push_subscription`.
abbrev pub is_at : String → String → PushSubscription → Bool
is_at user_id endpoint s = s.user_account_id == user_id && s.endpoint == endpoint

-- `_account_for_principal`
unfoldable pub account_for_principal : Principal → Exec UserAccount
unfolding active_account
account_for_principal principal = active_account principal.subject

-- What `_subscription_dict` shows of a subscription: its keys stay out.
pub record SubscriptionOut : Type 0 where
  pub id : String
  pub customer_id : Option String
  pub endpoint : String
  pub user_agent : String
  pub status : String
  pub created_at : ℕ
  pub updated_at : ℕ
  pub last_seen_at : ℕ

abbrev pub subscription_dict : PushSubscription → SubscriptionOut
subscription_dict s = record {
  id = s.id;
  customer_id = s.customer_id;
  endpoint = s.endpoint;
  user_agent = s.user_agent;
  status = s.status;
  created_at = s.created_at;
  updated_at = s.updated_at;
  last_seen_at = s.last_seen_at;
}

module _ (env : Env) where
  abbrev pub new_subscription : UserAccount → PushSubscriptionIn → ℕ → PushSubscription
  new_subscription user body t = record {
    id = env.new_uuid t;
    user_account_id = user.id;
    customer_id = user.customer_id;
    endpoint = body.endpoint;
    p256dh = body.p256dh;
    auth = body.auth;
    user_agent = body.user_agent;
    status = "active";
    meta = body.metadata;
    created_at = env.utcnow t;
    updated_at = env.utcnow t;
    last_seen_at = env.utcnow t;
  }

  -- The row that a registration writes, and the write.
  unfoldable pub store_subscription :
      UserAccount → PushSubscriptionIn → Option PushSubscription → Exec PushSubscription
  store_subscription user body none = do
    t ← tick
    let row = new_subscription user body t
    modify (λ db. record db { subscriptions = db.subscriptions ++ row ∷ [] })
    pure row
  store_subscription user body (some found) = do
    t ← tick
    t' ← tick
    let row : PushSubscription = record found {
      customer_id = user.customer_id;
      p256dh = body.p256dh;
      auth = body.auth;
      user_agent = body.user_agent;
      meta = body.metadata;
      status = "active";
      updated_at = env.utcnow t;
      last_seen_at = env.utcnow t';
    }
    modify (λ db. record db { subscriptions = save_row subscription_key row db.subscriptions })
    pure row

  -- `register_push_subscription`, once the account is known.
  unfoldable pub register_for : UserAccount → PushSubscriptionIn → Exec SubscriptionOut
  register_for user body = do
    found ← gets (λ db. first (is_at user.id body.endpoint) db.subscriptions)
    row ← store_subscription user body found
    commit
    pure (subscription_dict row)

  -- `register_push_subscription`
  unfoldable pub register_push_subscription : PushSubscriptionIn → Principal → Exec SubscriptionOut
  register_push_subscription body principal = do
    raise_if (is_local_dev principal) (http 401)
    user ← account_for_principal principal
    register_for user body

  -- The row that `revoke_push_subscription` writes.
  unfoldable pub revoke_for : UserAccount → PushSubscription → Exec (String × String)
  revoke_for user row = do
    raise_if (not (row.user_account_id == user.id)) (http 404)
    t ← tick
    let revoked : PushSubscription = record row { status = "revoked"; updated_at = env.utcnow t }
    modify (λ db. record db { subscriptions = save_row subscription_key revoked db.subscriptions })
    commit
    pure (row.id, "revoked")

  -- `revoke_push_subscription`
  unfoldable pub revoke_push_subscription : String → Principal → Exec (String × String)
  revoke_push_subscription subscription_id principal = do
    raise_if (is_local_dev principal) (http 401)
    user ← account_for_principal principal
    row ←
        or_raise (← gets (λ db. get_row subscription_key subscription_id db.subscriptions))
          (http 404)
    revoke_for user row

-- The subscriptions of an account, the newest first.
abbrev pub subscriptions_of : String → Db → List PushSubscription
subscriptions_of user_id db =
    newest_first (λ (s : PushSubscription). s.created_at)
      (where_all (λ (s : PushSubscription). s.user_account_id == user_id) db.subscriptions)

-- `list_push_subscriptions`
unfoldable pub list_push_subscriptions : Principal → Exec (List SubscriptionOut)
list_push_subscriptions principal = if is_local_dev principal then pure [] else (do
  user ← account_for_principal principal
  gets (λ db. map subscription_dict (subscriptions_of user.id db)))
