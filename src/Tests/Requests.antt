-- ===== src/Tests/Requests.antt =====
-- The theorems on tokens, passwords, principals and push subscriptions at concrete inputs.
use mathlib.Core.Path.{subst}
use mathlib.Core.Option.{some-injective}
use jb_wm_backend.Base.{
  ℕ, String, ◌≡◌, refl, ◌⊎◌, ◌↔◌, arith, ◌==◌, if◌then◌else◌, true, none, some, List, [], ◌∷◌, All,
  Bool-cases, inl, inr,
}
use jb_wm_backend.Integers.{pos, ◌+ℤ◌}
use jb_wm_backend.Json.{end, obj}
use jb_wm_backend.Models.{UserAccount, PushSubscription, customer}
use jb_wm_backend.Database.{empty_db, World, ok, err, http}
use jb_wm_backend.Environment.{Env}
use jb_wm_backend.Tokens.Base64.{append, b64_bytes, b64_decode, lacks}
use jb_wm_backend.Tokens.RoundTrip.{IsByte, b64_decode-b64_bytes}
use jb_wm_backend.Tokens.Jwt.{TokenPrincipal, payload, token_of, create_jwt, verify_jwt}
use jb_wm_backend.Tokens.Signed.{IsAccepted, verify_jwt_sound}
use jb_wm_backend.Tokens.Password.{
  password_iterations, stored, hash_password, verify_password, verify_password-hash_password,
}
use jb_wm_backend.Tokens.Login.{LoginOut, user_dict, principal_of, current_principal, login}
use jb_wm_backend.Tokens.Sessions.{MayProceed, current_principal_sound, current_principal-login}
use jb_wm_backend.Routes.Push.{PushSubscriptionIn}
use jb_wm_backend.Routes.Subscriptions.{SameOthers, push-others}
use jb_wm_backend.Routes.Push.{register_push_subscription, revoke_push_subscription}
use jb_wm_backend.Tests.Samples.{environment, numbers, world}

b64_decode-b64_bytes_example : b64_decode (b64_bytes (77 ∷ 97 ∷ [])) ≡ some (77 ∷ 97 ∷ [])
b64_decode-b64_bytes_example = b64_decode-b64_bytes (77 ∷ 97 ∷ []) (omega arith, (omega arith, tt))

-- An environment that reads the number of rounds, lowers the scheme and reads a payload back.
abbrev served : Env
served = record environment {
  numbers = record numbers { to_int = λ v. some password_iterations };
  lower = λ s. if s == "Bearer" then "bearer" else s;
  json_loads = λ bytes. some (obj (payload "u1" "customer" (some "c1") (pos 2) (pos 3602)));
}

abbrev digest_of : String → List ℕ
digest_of p = if p == "pw" then 7 ∷ [] else 8 ∷ []

digest_of-bytes : (p : String) → All IsByte (digest_of p)
digest_of-bytes p = elim (Bool-cases (p == "pw")) [
  | inl own ↦ rw own (omega arith, tt)
  | inr other ↦ rw other (omega arith, tt)
]

salt-lacks : lacks 36 "salt" ≡ true
unfolding lacks
salt-lacks = refl

verify_password-hash_password_example :
    (verify_password served "guess" (stored served "salt" (7 ∷ [])) ≡ true) ↔ (
      served.pbkdf2_hmac "guess" "salt" password_iterations
      ≡ served.pbkdf2_hmac "pw" "salt" password_iterations)
unfolding hash_password
verify_password-hash_password_example =
    verify_password-hash_password served "pw" "guess" (stored served "salt" (7 ∷ [])) (7 ∷ [])
      (world []) salt-lacks
      (λ p bytes e. subst (All IsByte) (some-injective (digest_of p) bytes e) (digest_of-bytes p))
      refl refl refl

abbrev account : UserAccount
account = record {
  id = "u1";
  email = "a@x";
  password_hash = stored served "salt" (7 ∷ []);
  role = customer;
  customer_id = some "c1";
  active = true;
  created_at = 0;
  updated_at = 0;
  last_login_at = none;
}

abbrev accounts : World
accounts = record {
  committed = record empty_db { accounts = account ∷ [] };
  working = record empty_db { accounts = account ∷ [] };
  ticks = 0;
}

verify_jwt_sound_example :
    ((p : TokenPrincipal) × ((verify_jwt served "h.AwQF.AQI" accounts).0 ≡ ok p)
      × IsAccepted served "h.AwQF.AQI" 0 p)
    ⊎ ((verify_jwt served "h.AwQF.AQI" accounts).0 ≡ err (http 401))
verify_jwt_sound_example = verify_jwt_sound served "h.AwQF.AQI" accounts

admitted :
    current_principal served (some "bearer h.AwQF.AQI") accounts
    ≡ (ok (principal_of account), (current_principal served (some "bearer h.AwQF.AQI") accounts).1)
unfolding current_principal verify_jwt
admitted = refl

current_principal_sound_example :
    MayProceed served (some "bearer h.AwQF.AQI") accounts (principal_of account)
current_principal_sound_example =
    current_principal_sound served (some "bearer h.AwQF.AQI") accounts
      (current_principal served (some "bearer h.AwQF.AQI") accounts).1 (principal_of account)
      admitted

abbrev session_of : LoginOut
session_of = record {
  access_token = token_of served (payload "u1" "customer" (some "c1") (pos 2) (pos 3602));
  user = user_dict account;
}

logged_in : login served "a@x" "pw" accounts ≡ (ok session_of, (login served "a@x" "pw" accounts).1)
unfolding login verify_password create_jwt
logged_in = refl

bytes_4 : All IsByte (3 ∷ 4 ∷ 5 ∷ 6 ∷ [])
bytes_4 = (omega arith, (omega arith, (omega arith, (omega arith, tt))))

bytes_2 : All IsByte (1 ∷ 2 ∷ [])
bytes_2 = (omega arith, (omega arith, tt))

current_principal-login_example :
    (current_principal served (some (append "Bearer " session_of.access_token)) accounts).0
    ≡ ok (principal_of account)
unfolding ◌+ℤ◌
current_principal-login_example =
    current_principal-login served "a@x" "pw" accounts (login served "a@x" "pw" accounts).1 accounts
      session_of account logged_in tt bytes_4 (λ m. bytes_2) bytes_4 refl refl refl refl refl

abbrev subscription : String → String → PushSubscription
subscription id user = record {
  id = id;
  user_account_id = user;
  customer_id = none;
  endpoint = "https://push";
  p256dh = "";
  auth = "";
  user_agent = "";
  status = "active";
  meta = end;
  created_at = 0;
  updated_at = 0;
  last_seen_at = 0;
}

abbrev subscribed : World
subscribed = record accounts {
  working = record empty_db {
    accounts = account ∷ [];
    subscriptions = subscription "p1" "u1" ∷ subscription "p2" "u2" ∷ [];
  };
}

abbrev body : PushSubscriptionIn
body = record {
  endpoint = "https://push";
  p256dh = "k";
  auth = "a";
  user_agent = "";
  metadata = end;
}

push-others_example :
    SameOthers "u1" subscribed
      (register_push_subscription served body (principal_of account) subscribed).1
    × SameOthers "u1" subscribed
        (revoke_push_subscription served "p2" (principal_of account) subscribed).1
push-others_example =
    push-others served body "p2" (principal_of account) subscribed ((refl, tt), (tt, tt))
