-- ===== src/Routes/Subscriptions.antt =====
-- app/api/routes/push.py: a request touches the subscriptions of its own account only.
use mathlib.Core.List.{◌++◌}
use mathlib.Core.Path.{subst}
use mathlib.Core.Option.{some-injective}
use jb_wm_backend.Base.{
  String, arith, ◌≡◌, refl, sym, ap, Bool, true, false, not, some, List, [], ◌∷◌, ◌+◌, ◌⊎◌, ◌==◌,
  eq_iff, eq_refl, first, where_all, All, All-map, first-All, first_meets, Bool-cases, Option-cases,
  inl, inr, and-eq-true,
}
use jb_wm_backend.Models.{UserAccount, PushSubscription}
use jb_wm_backend.Database.{World, Error, http, ok, err}
use jb_wm_backend.Database.Rows.{get_row, save_row, key-get_row}
use jb_wm_backend.Environment.{Env}
use jb_wm_backend.Security.{Principal}
use jb_wm_backend.Tokens.Login.{account_key, active_account}
use jb_wm_backend.Routes.Push.{
  PushSubscriptionIn, subscription_key, is_at, account_for_principal, new_subscription,
  store_subscription, register_for, register_push_subscription, revoke_for,
  revoke_push_subscription,
}

-- No two subscriptions have the same identifier.
abbrev pub IsKeyed : List PushSubscription → Type 0
IsKeyed [] = Unit
IsKeyed (x ∷ xs) = All (λ (y : PushSubscription). (y.id == x.id) ≡ false) xs × IsKeyed xs

-- The subscriptions of the other accounts.
abbrev pub of_others : String → PushSubscription → Bool
of_others subject s = not (s.user_account_id == subject)

no_both : (b : Bool) → b ≡ false → b ≡ true → ⊥
no_both b e f = ground arith

same_id : (a b : String) → (b == a) ≡ true → (a == b) ≡ true
same_id a b h = (eq_iff a b).1 (sym ((eq_iff b a).0 h))

-- A row that is found is the only one with its identifier.
only_row :
    (p : PushSubscription → Bool) (xs : List PushSubscription) (f : PushSubscription)
    → IsKeyed xs
    → first p xs ≡ some f
    → All (λ (x : PushSubscription). (x.id == f.id) ≡ true → x ≡ f) xs
only_row p [] f h e = tt
only_row p (x ∷ xs) f h e = elim (Bool-cases (p x)) [
  | inl here ↦
      let same : x ≡ f = some-injective x f (rw here at e) in
      (
        λ _. same,
        All-map (λ (y : PushSubscription). (y.id == x.id) ≡ false)
            (λ y. (y.id == f.id) ≡ true → y ≡ f)
            (λ y apart hit.
              absurd (no_both _ (rw (← ap (λ (z : PushSubscription). z.id) same) apart) hit))
            xs h.0,
      )
  | inr skip ↦
      let later : first p xs ≡ some f = rw skip at e in
      (
        λ hit. absurd (
            no_both _
              (first-All (λ (y : PushSubscription). (y.id == x.id) ≡ false) p xs f h.0 later)
              (same_id f.id x.id hit)),
        only_row p xs f h.1 later,
      )
]

-- A write of an own row leaves the rows of the other accounts.
save-others :
    (subject : String) (q : PushSubscription) (xs : List PushSubscription)
    → (q.user_account_id == subject) ≡ true
    → All
        (λ (x : PushSubscription). (x.id == q.id) ≡ true → (x.user_account_id == subject) ≡ true)
        xs
    → where_all (of_others subject) (save_row subscription_key q xs)
      ≡ where_all (of_others subject) xs
save-others subject q [] own h = refl
save-others subject q (x ∷ xs) own h = elim (Bool-cases (x.id == q.id)) [
  | inl hit ↦ rw (hit, own, h.0 hit) (save-others subject q xs own h.1)
  | inr miss ↦ elim (Bool-cases (x.user_account_id == subject)) [
    | inl mine ↦ rw (miss, mine) (save-others subject q xs own h.1)
    | inr other ↦ rw (miss, other) (ap (λ ys. x ∷ ys) (save-others subject q xs own h.1))
  ]
]

append-others :
    (subject : String) (q : PushSubscription) (xs : List PushSubscription)
    → (q.user_account_id == subject) ≡ true
    → where_all (of_others subject) (xs ++ q ∷ []) ≡ where_all (of_others subject) xs
append-others subject q [] own = rw own refl
append-others subject q (x ∷ xs) own = elim (Bool-cases (x.user_account_id == subject)) [
  | inl mine ↦ rw mine (append-others subject q xs own)
  | inr other ↦ rw other (ap (λ ys. x ∷ ys) (append-others subject q xs own))
]

-- The write of a row that was found among those of an account.
found-others :
    (subject : String) (p : PushSubscription → Bool) (xs : List PushSubscription)
    (f q : PushSubscription)
    → IsKeyed xs
    → first p xs ≡ some f
    → (f.user_account_id == subject) ≡ true
    → q.id ≡ f.id
    → q.user_account_id ≡ f.user_account_id
    → where_all (of_others subject) (save_row subscription_key q xs)
      ≡ where_all (of_others subject) xs
found-others subject p xs f q keyed found own same_key same_user =
    save-others subject q xs (rw same_user own) (
      All-map (λ (x : PushSubscription). (x.id == f.id) ≡ true → x ≡ f)
        (λ (x : PushSubscription). (x.id == q.id) ≡ true → (x.user_account_id == subject) ≡ true)
        (λ x only hit. rw (only (rw same_key at hit)) own) xs (only_row p xs f keyed found))

-- The other accounts' subscriptions are the same.
abbrev pub SameOthers : String → World → World → Type 0
SameOthers subject w w' =
    where_all (of_others subject) w'.working.subscriptions
    ≡ where_all (of_others subject) w.working.subscriptions

module _ (env : Env) where
  register_for-others :
      (user : UserAccount) (body : PushSubscriptionIn) (w : World)
      → IsKeyed w.working.subscriptions
      → SameOthers user.id w (register_for env user body w).1
  unfolding register_for store_subscription
  register_for-others user body w keyed =
      elim (Option-cases (first (is_at user.id body.endpoint) w.working.subscriptions)) [
        | inl new ↦ ground (
          arith,
          append-others user.id (new_subscription env user body w.ticks) w.working.subscriptions
              (eq_refl user.id),
        )
        | inr (f, found) ↦
            let here = first_meets (is_at user.id body.endpoint) w.working.subscriptions f found in
            let (own, _) =
              and-eq-true (f.user_account_id == user.id) (f.endpoint == body.endpoint) here in
            ground (
              arith,
              found-others user.id (is_at user.id body.endpoint) w.working.subscriptions f
                  (record f {
                    customer_id = user.customer_id;
                    p256dh = body.p256dh;
                    auth = body.auth;
                    user_agent = body.user_agent;
                    meta = body.metadata;
                    status = "active";
                    updated_at = env.utcnow w.ticks;
                    last_seen_at = env.utcnow (w.ticks + 1);
                  })
                  keyed found own refl refl,
            )
      ]

  revoke_for-others :
      (user : UserAccount) (id : String) (row : PushSubscription) (w : World)
      → IsKeyed w.working.subscriptions
      → get_row subscription_key id w.working.subscriptions ≡ some row
      → SameOthers user.id w (revoke_for env user row w).1
  unfolding revoke_for
  revoke_for-others user id row w keyed found = elim (Bool-cases (row.user_account_id == user.id)) [
    | inr foreign ↦ ground arith
    | inl own ↦ ground (
      arith,
      found-others user.id (λ r. subscription_key r == id) w.working.subscriptions row
          (record row { status = "revoked"; updated_at = env.utcnow w.ticks }) keyed found own refl
          refl,
    )
  ]

  -- The account that a request acts for is the one that the principal names.
  account_cases :
      (principal : Principal) (w : World)
      → ((e : Error) × (account_for_principal principal w ≡ (err e, w)))
        ⊎ ((a : UserAccount) × (account_for_principal principal w ≡ (ok a, w))
            × (a.id ≡ principal.subject))
  unfolding account_for_principal active_account
  account_cases principal w =
      elim (Option-cases (get_row account_key principal.subject w.working.accounts)) [
        | inl absent ↦ inl (http 401, ground arith)
        | inr (a, found) ↦ elim (Bool-cases a.active) [
          | inr idle ↦ inl (http 401, ground arith)
          | inl active ↦ inr (
            a,
            ground arith,
            key-get_row account_key principal.subject w.working.accounts a found,
          )
        ]
      ]

  register-others :
      (body : PushSubscriptionIn) (principal : Principal) (w : World)
      → IsKeyed w.working.subscriptions
      → SameOthers principal.subject w (register_push_subscription env body principal w).1
  unfolding register_push_subscription
  register-others body principal w keyed = elim (account_cases principal w) [
    | inl (e, refused) ↦ ground arith
    | inr (a, account, same) ↦ ground (
      arith,
      subst (λ u. SameOthers u w (register_for env a body w).1) same
          (register_for-others a body w keyed),
    )
  ]

  revoke-others :
      (id : String) (principal : Principal) (w : World)
      → IsKeyed w.working.subscriptions
      → SameOthers principal.subject w (revoke_push_subscription env id principal w).1
  unfolding revoke_push_subscription
  revoke-others id principal w keyed = elim (account_cases principal w) [
    | inl (e, refused) ↦ ground arith
    | inr (a, account, same) ↦
        elim (Option-cases (get_row subscription_key id w.working.subscriptions)) [
          | inl absent ↦ ground arith
          | inr (row, found) ↦ ground (
            arith,
            subst (λ u. SameOthers u w (revoke_for env a row w).1) same
                (revoke_for-others a id row w keyed found),
          )
        ]
  ]

  -- Neither a registration nor a revocation of a push subscription changes a subscription of another
  -- account, whatever its input and outcome, as long as no two subscriptions share an identifier.
  pub push-others :
      (body : PushSubscriptionIn) (id : String) (principal : Principal) (w : World)
      → IsKeyed w.working.subscriptions
      → SameOthers principal.subject w (register_push_subscription env body principal w).1
        × SameOthers principal.subject w (revoke_push_subscription env id principal w).1
  push-others body id principal w keyed =
      (register-others body principal w keyed, revoke-others id principal w keyed)
