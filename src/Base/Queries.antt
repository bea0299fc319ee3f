-- ===== src/Base/Queries.antt =====
-- Tests and list walks. A table is the list of its rows in the order of insertion.
use Prim.Native.Nat.{ℕ, zero, suc, compare, Ordering}
use Prim.Native.String.{String}
use mathlib.Core.Path.{◌≡◌, refl, subst}
use mathlib.Core.Logic.{◌⊎◌, inl, inr}
use mathlib.Core.Bool.{Bool, true, false, not, ◌&&◌, ◌||◌}
use mathlib.Core.Option.{Option, none, some, some-injective}
use mathlib.Core.List.{List, [], ◌∷◌, ◌++◌}
use text.Mathlib.Text.{◌==◌}

infix 1 if◌then◌else◌
abbrev pub if◌then◌else◌ {ℓ} : {A : Type ℓ} → Bool → A → A → A
if true then x else y = x
if false then x else y = y

abbrev pub leb : ℕ → ℕ → Bool
leb a b = elim (compare a b) [ Ordering.gt ↦ false | _ ↦ true ]

abbrev pub ltb : ℕ → ℕ → Bool
ltb a b = elim (compare a b) [ Ordering.lt ↦ true | _ ↦ false ]

-- `bool(text)`: the empty text is false.
abbrev pub truthy : String → Bool
truthy s = not (s == "")

-- `a or b` on texts.
abbrev pub or_text : String → String → String
or_text a b = if truthy a then a else b

-- `x` of an optional text, where `None` and the empty text are both false.
abbrev pub truthy? : Option String → Bool
truthy? none = false
truthy? (some s) = truthy s

pub Bool-cases : (b : Bool) → (b ≡ true) ⊎ (b ≡ false)
Bool-cases true = inl refl
Bool-cases false = inr refl

pub Option-cases {ℓ} : {A : Type ℓ} (o : Option A) → (o ≡ none) ⊎ ((a : A) × (o ≡ some a))
Option-cases none = inl refl
Option-cases (some a) = inr (a, refl)

module _ {ℓ} {A : Type ℓ} where
  abbrev pub is_some : Option A → Bool
  is_some none = false
  is_some (some _) = true

  abbrev pub length : List A → ℕ
  length [] = 0
  length (x ∷ xs) = suc (length xs)

  -- `select(T).where(p).first()`
  abbrev pub first : (A → Bool) → List A → Option A
  first p [] = none
  first p (x ∷ xs) = if p x then some x else first p xs

  -- `select(T).where(p).all()`
  abbrev pub where_all : (A → Bool) → List A → List A
  where_all p [] = []
  where_all p (x ∷ xs) = if p x then x ∷ where_all p xs else where_all p xs

  abbrev pub any : (A → Bool) → List A → Bool
  any p [] = false
  any p (x ∷ xs) = p x || any p xs

  -- A write through the identity map: every row that the test picks is rewritten.
  abbrev pub update_where : (A → Bool) → (A → A) → List A → List A
  update_where p f [] = []
  update_where p f (x ∷ xs) = (if p x then f x else x) ∷ update_where p f xs

  -- `db.delete` of every row that the test picks.
  abbrev pub delete_where : (A → Bool) → List A → List A
  delete_where p [] = []
  delete_where p (x ∷ xs) = if p x then delete_where p xs else x ∷ delete_where p xs

  -- `order_by(key)`: a stable insertion sort.
  abbrev pub insert_by : (A → ℕ) → A → List A → List A
  insert_by key a [] = a ∷ []
  insert_by key a (x ∷ xs) = if leb (key a) (key x) then a ∷ x ∷ xs else x ∷ insert_by key a xs

  abbrev pub order_by : (A → ℕ) → List A → List A
  order_by key [] = []
  order_by key (x ∷ xs) = insert_by key x (order_by key xs)

  -- `order_by(key.desc())`
  abbrev pub insert_newest : (A → ℕ) → A → List A → List A
  insert_newest key a [] = a ∷ []
  insert_newest key a (x ∷ xs) =
      if leb (key x) (key a) then a ∷ x ∷ xs else x ∷ insert_newest key a xs

  abbrev pub newest_first : (A → ℕ) → List A → List A
  newest_first key [] = []
  newest_first key (x ∷ xs) = insert_newest key x (newest_first key xs)

  -- `rows[:n]`
  abbrev pub take : ℕ → List A → List A
  take zero xs = []
  take (suc n) [] = []
  take (suc n) (x ∷ xs) = x ∷ take n xs

  abbrev pub All {κ} : (A → Type κ) → List A → Type κ
  All P [] = Unit
  All P (x ∷ xs) = P x × All P xs

  pub All-append {κ} : (P : A → Type κ) (xs ys : List A) → All P xs → All P ys → All P (xs ++ ys)
  All-append P [] ys hx hy = hy
  All-append P (x ∷ xs) ys hx hy = (hx.0, All-append P xs ys hx.1 hy)

  pub All-map {κ μ} :
      (P : A → Type κ) (Q : A → Type μ)
      → ((a : A) → P a → Q a)
      → (xs : List A) → All P xs
      → All Q xs
  All-map P Q f [] h = tt
  All-map P Q f (x ∷ xs) h = (f x h.0, All-map P Q f xs h.1)

  pub All-insert_by {κ} :
      (P : A → Type κ) (key : A → ℕ) (a : A) (xs : List A)
      → P a
      → All P xs
      → All P (insert_by key a xs)
  All-insert_by P key a [] p h = (p, tt)
  All-insert_by P key a (x ∷ xs) p h = elim (Bool-cases (leb (key a) (key x))) [
    | inl low ↦ rw low (p, h)
    | inr high ↦ rw high (h.0, All-insert_by P key a xs p h.1)
  ]

  pub All-order_by {κ} :
      (P : A → Type κ) (key : A → ℕ) (xs : List A) → All P xs → All P (order_by key xs)
  All-order_by P key [] h = tt
  All-order_by P key (x ∷ xs) h =
      All-insert_by P key x (order_by key xs) h.0 (All-order_by P key xs h.1)

  pub All-where_all {κ} :
      (P : A → Type κ) (p : A → Bool) (xs : List A) → All P xs → All P (where_all p xs)
  All-where_all P p [] h = tt
  All-where_all P p (x ∷ xs) h = elim (Bool-cases (p x)) [
    | inl here ↦ rw here (h.0, All-where_all P p xs h.1)
    | inr skip ↦ rw skip (All-where_all P p xs h.1)
  ]

  -- Every row that a query returns meets its test.
  pub where_all_meets : (p : A → Bool) (xs : List A) → All (λ x. p x ≡ true) (where_all p xs)
  where_all_meets p [] = tt
  where_all_meets p (x ∷ xs) = elim (Bool-cases (p x)) [
    | inl here ↦ rw here (here, where_all_meets p xs)
    | inr skip ↦ rw skip (where_all_meets p xs)
  ]

  pub first_meets : (p : A → Bool) (xs : List A) (a : A) → first p xs ≡ some a → p a ≡ true
  first_meets p [] a e = cc
  first_meets p (x ∷ xs) a e = elim (Bool-cases (p x)) [
    | inl here ↦ subst (λ y. p y ≡ true) (some-injective x a (rw here at e)) here
    | inr skip ↦ first_meets p xs a (rw skip at e)
  ]

  pub first-All {κ} :
      (P : A → Type κ) (p : A → Bool) (xs : List A) (a : A) → All P xs → first p xs ≡ some a → P a
  first-All P p [] a h e = absurd (cc)
  first-All P p (x ∷ xs) a h e = elim (Bool-cases (p x)) [
    | inl here ↦ subst P (some-injective x a (rw here at e)) h.0
    | inr skip ↦ first-All P p xs a h.1 (rw skip at e)
  ]

pub or-eq-false : (a b : Bool) → (a || b) ≡ false → (a ≡ false) × (b ≡ false)
or-eq-false true b h = absurd (cc)
or-eq-false false b h = (refl, h)

pub or-true_right : (a b : Bool) → b ≡ true → (a || b) ≡ true
or-true_right true b h = refl
or-true_right false b h = h

pub and-eq-true : (a b : Bool) → (a && b) ≡ true → (a ≡ true) × (b ≡ true)
and-eq-true true b h = (refl, h)
and-eq-true false b h = absurd (cc)
