-- ===== src/Base/Selecting.antt =====
-- What a selection, a deletion and a sort do to a table, told by the rows and not by a test.
use mathlib.Core.List.{Perm}
use mathlib.Core.List.Perm
use jb_wm_backend.Base.{
  ℕ, ◌≤◌, ◌≡◌, refl, Bool, true, false, List, [], ◌∷◌, arith, leb, where_all, delete_where,
  insert_by, order_by, insert_newest, newest_first, All, Bool-cases, inl, inr, ◌&&◌,
}

-- A table, the rows of it that meet a condition, and the rest, both in their order.
pub data Splits {ℓ κ} {A : Type ℓ} (P : A → Type κ) : List A → List A → List A → Type (ℓ ⊔ κ) where
  done : Splits P [] [] []
  taken : {a : A} {xs ys ns : List A} → P a → Splits P xs ys ns → Splits P (a ∷ xs) (a ∷ ys) ns
  left : {a : A} {xs ys ns : List A} → ¬ P a → Splits P xs ys ns → Splits P (a ∷ xs) ys (a ∷ ns)

-- A Boolean test that decides a condition.
pub record Decides {ℓ κ} {A : Type ℓ} (P : A → Type κ) (p : A → Bool) : Type (ℓ ⊔ κ) where
  pub yes : (a : A) → p a ≡ true → P a
  pub no : (a : A) → p a ≡ false → ¬ P a

module _ {ℓ} {A : Type ℓ} where
  pub where_all-Splits {κ} :
      {P : A → Type κ} (p : A → Bool)
      → Decides P p
      → (xs : List A) → Splits P xs (where_all p xs) (delete_where p xs)
  where_all-Splits p d [] = done
  where_all-Splits p d (x ∷ xs) = elim (Bool-cases (p x)) [
    | inl hit ↦ rw hit (taken (d.yes x hit) (where_all-Splits p d xs))
    | inr miss ↦ rw miss (left (d.no x miss) (where_all-Splits p d xs))
  ]

  insert_newest-Perm : (key : A → ℕ) (a : A) (xs : List A) → Perm (a ∷ xs) (insert_newest key a xs)
  insert_newest-Perm key a [] = Perm.refl (a ∷ [])
  insert_newest-Perm key a (x ∷ xs) = elim (Bool-cases (leb (key x) (key a))) [
    | inl low ↦ rw low (Perm.refl (a ∷ x ∷ xs))
    | inr high ↦ rw high (Perm.trans (Perm.swap x a xs) (Perm.cons x (insert_newest-Perm key a xs)))
  ]

  pub newest_first-Perm : (key : A → ℕ) (xs : List A) → Perm xs (newest_first key xs)
  newest_first-Perm key [] = Perm.refl []
  newest_first-Perm key (x ∷ xs) =
      Perm.trans (Perm.cons x (newest_first-Perm key xs))
        (insert_newest-Perm key x (newest_first key xs))

  insert_by-Perm : (key : A → ℕ) (a : A) (xs : List A) → Perm (a ∷ xs) (insert_by key a xs)
  insert_by-Perm key a [] = Perm.refl (a ∷ [])
  insert_by-Perm key a (x ∷ xs) = elim (Bool-cases (leb (key a) (key x))) [
    | inl low ↦ rw low (Perm.refl (a ∷ x ∷ xs))
    | inr high ↦ rw high (Perm.trans (Perm.swap x a xs) (Perm.cons x (insert_by-Perm key a xs)))
  ]

  pub order_by-Perm : (key : A → ℕ) (xs : List A) → Perm xs (order_by key xs)
  order_by-Perm key [] = Perm.refl []
  order_by-Perm key (x ∷ xs) =
      Perm.trans (Perm.cons x (order_by-Perm key xs)) (insert_by-Perm key x (order_by key xs))

  -- Every row is at most as new as those behind it.
  abbrev pub IsAscending : (A → ℕ) → List A → Type ℓ
  IsAscending key [] = Unit
  IsAscending key (x ∷ xs) = All (λ y. key x ≤ key y) xs × IsAscending key xs

  bounded_down :
      (key : A → ℕ) (m n : ℕ) (xs : List A)
      → m ≤ n
      → All (λ y. n ≤ key y) xs
      → All (λ y. m ≤ key y) xs
  bounded_down key m n [] up h = tt
  bounded_down key m n (x ∷ xs) up h = (omega arith, bounded_down key m n xs up h.1)

  All-insert_by_le :
      (key : A → ℕ) (m : ℕ) (a : A) (xs : List A)
      → m ≤ key a
      → All (λ y. m ≤ key y) xs
      → All (λ y. m ≤ key y) (insert_by key a xs)
  All-insert_by_le key m a [] p h = (p, tt)
  All-insert_by_le key m a (x ∷ xs) p h = elim (Bool-cases (leb (key a) (key x))) [
    | inl low ↦ rw low (p, h)
    | inr high ↦ rw high (h.0, All-insert_by_le key m a xs p h.1)
  ]

  insert_by-IsAscending :
      (key : A → ℕ) (a : A) (xs : List A)
      → IsAscending key xs
      → IsAscending key (insert_by key a xs)
  insert_by-IsAscending key a [] h = (tt, tt)
  insert_by-IsAscending key a (x ∷ xs) h = elim (Bool-cases (leb (key a) (key x))) [
    | inl low ↦
        let below : key a ≤ key x = ground arith in
        rw low ((below, bounded_down key (key a) (key x) xs below h.0), h)
    | inr high ↦
        let above : key x ≤ key a = ground arith in
        rw high (All-insert_by_le key (key x) a xs above h.0, insert_by-IsAscending key a xs h.1)
  ]

  pub order_by-IsAscending : (key : A → ℕ) (xs : List A) → IsAscending key (order_by key xs)
  order_by-IsAscending key [] = tt
  order_by-IsAscending key (x ∷ xs) =
      insert_by-IsAscending key x (order_by key xs) (order_by-IsAscending key xs)

  where_all-insert_newest :
      (p : A → Bool) (key : A → ℕ) (a : A) (xs : List A)
      → Perm (where_all p (a ∷ xs)) (where_all p (insert_newest key a xs))
  where_all-insert_newest p key a [] = Perm.refl (where_all p (a ∷ []))
  where_all-insert_newest p key a (x ∷ xs) = elim (Bool-cases (leb (key x) (key a))) [
    | inl low ↦ rw low (Perm.refl (where_all p (a ∷ x ∷ xs)))
    | inr high ↦
        let step = where_all-insert_newest p key a xs in
        rw high (elim (Bool-cases (p x)) [
          | inr skip ↦ rw skip step
          | inl here ↦ elim (Bool-cases (p a)) [
            | inl too ↦
                rw (here, too)
                  (Perm.trans (Perm.swap x a (where_all p xs)) (Perm.cons x (rw too at step)))
            | inr not ↦ rw (here, not) (Perm.cons x (rw not at step))
          ]
        ])
  ]

  -- A selection of a sorted table has the rows of the selection of the table.
  pub where_all-newest_first :
      (p : A → Bool) (key : A → ℕ) (xs : List A)
      → Perm (where_all p xs) (where_all p (newest_first key xs))
  where_all-newest_first p key [] = Perm.refl []
  where_all-newest_first p key (x ∷ xs) =
      let step = where_all-newest_first p key xs in
      Perm.trans
        (elim (Bool-cases (p x)) [
          | inl here ↦ rw here (Perm.cons x step)
          | inr skip ↦ rw skip step
        ])
        (where_all-insert_newest p key x (newest_first key xs))

  -- Two selections in a row are one.
  pub where_all-where_all :
      (p q : A → Bool) (xs : List A) → where_all q (where_all p xs) ≡ where_all (λ a. p a && q a) xs
  where_all-where_all p q [] = refl
  where_all-where_all p q (x ∷ xs) = ground (arith, where_all-where_all p q xs)
