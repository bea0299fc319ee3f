-- ===== src/Base/Sorting.antt =====
-- The queries that sort, and what selecting and cutting keep of a sorted list.
use jb_wm_backend.Base.{
  ℕ, ◌≤◌, ◌≡◌, refl, Bool, List, [], ◌∷◌, arith, leb, where_all, insert_newest, newest_first, All,
  Bool-cases, inl, inr,
}

module _ {ℓ} {A : Type ℓ} where
  All-insert_newest {κ} :
      (P : A → Type κ) (key : A → ℕ) (a : A) (xs : List A)
      → P a
      → All P xs
      → All P (insert_newest key a xs)
  All-insert_newest P key a [] p h = (p, tt)
  All-insert_newest P key a (x ∷ xs) p h = elim (Bool-cases (leb (key x) (key a))) [
    | inl low ↦ rw low (p, h)
    | inr high ↦ rw high (h.0, All-insert_newest P key a xs p h.1)
  ]

  -- Every row is at least as new as those behind it.
  abbrev pub IsDescending : (A → ℕ) → List A → Type ℓ
  IsDescending key [] = Unit
  IsDescending key (x ∷ xs) = All (λ y. key y ≤ key x) xs × IsDescending key xs

  bounded_up :
      (key : A → ℕ) (m n : ℕ) (xs : List A)
      → m ≤ n
      → All (λ y. key y ≤ m) xs
      → All (λ y. key y ≤ n) xs
  bounded_up key m n [] up h = tt
  bounded_up key m n (x ∷ xs) up h = (omega arith, bounded_up key m n xs up h.1)

  insert_newest-IsDescending :
      (key : A → ℕ) (a : A) (xs : List A)
      → IsDescending key xs
      → IsDescending key (insert_newest key a xs)
  insert_newest-IsDescending key a [] h = (tt, tt)
  insert_newest-IsDescending key a (x ∷ xs) h = elim (Bool-cases (leb (key x) (key a))) [
    | inl low ↦
        let below : key x ≤ key a = ground arith in
        rw low ((below, bounded_up key (key x) (key a) xs below h.0), h)
    | inr high ↦
        let above : key a ≤ key x = ground arith in
        rw high (
          All-insert_newest (λ y. key y ≤ key x) key a xs above h.0,
          insert_newest-IsDescending key a xs h.1,
        )
  ]

  pub newest_first-IsDescending :
      (key : A → ℕ) (xs : List A) → IsDescending key (newest_first key xs)
  newest_first-IsDescending key [] = tt
  newest_first-IsDescending key (x ∷ xs) =
      insert_newest-IsDescending key x (newest_first key xs) (newest_first-IsDescending key xs)

  All-where_all_kept {κ} :
      (P : A → Type κ) (p : A → Bool) (xs : List A) → All P xs → All P (where_all p xs)
  All-where_all_kept P p [] h = tt
  All-where_all_kept P p (x ∷ xs) h = elim (Bool-cases (p x)) [
    | inl here ↦ rw here (h.0, All-where_all_kept P p xs h.1)
    | inr skip ↦ rw skip (All-where_all_kept P p xs h.1)
  ]

  pub where_all-IsDescending :
      (key : A → ℕ) (p : A → Bool) (xs : List A)
      → IsDescending key xs
      → IsDescending key (where_all p xs)
  where_all-IsDescending key p [] h = tt
  where_all-IsDescending key p (x ∷ xs) h = elim (Bool-cases (p x)) [
    | inl here ↦
        rw here
          (All-where_all_kept (λ y. key y ≤ key x) p xs h.0, where_all-IsDescending key p xs h.1)
    | inr skip ↦ rw skip (where_all-IsDescending key p xs h.1)
  ]

  -- Two selections in a row, in either order.
  pub where_all_absorbs :
      (p q : A → Bool) (xs : List A)
      → where_all q (where_all p (where_all q xs)) ≡ where_all q (where_all p xs)
  where_all_absorbs p q [] = refl
  where_all_absorbs p q (x ∷ xs) = ground (arith, where_all_absorbs p q xs)
