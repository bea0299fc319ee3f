-- ===== src/Database/Rows.antt =====
-- Reads and writes of a row by its primary key, and how they meet.
use jb_wm_backend.Base.{
  String, ◌≡◌, refl, Option, none, some, List, [], ◌∷◌, ◌++◌, arith, ◌==◌, eq_iff, if◌then◌else◌,
  first, update_where, is_some,
}

module _ {A : Type 0} (key : A → String) where
  -- `db.get(T, k)`
  abbrev pub get_row : String → List A → Option A
  get_row k rows = first (λ r. key r == k) rows

  -- The flush of a changed row.
  abbrev pub save_row : A → List A → List A
  save_row r rows = update_where (λ q. key q == key r) (λ _. r) rows

module _ {A : Type 0} (key : A → String) where
  pub key-get_row : (k : String) (rows : List A) (r : A) → get_row key k rows ≡ some r → key r ≡ k
  key-get_row k [] r e = cc
  key-get_row k (x ∷ rows) r e = ground (arith, eq_iff (key x) k, key-get_row k rows r)

  pub get_row-save_row :
      (k : String) (new : A) (rows : List A)
      → get_row key k (save_row key new rows) ≡ (
          if key new == k
          then (if is_some (get_row key k rows) then some new else none)
          else get_row key k rows)
  get_row-save_row k new [] = ground arith
  get_row-save_row k new (x ∷ rows) = ground (
    arith,
    eq_iff (key x) k,
    eq_iff (key x) (key new),
    eq_iff (key new) k,
    get_row-save_row k new rows,
  )

  pub get_row-append :
      (k : String) (rows : List A) (new : A)
      → get_row key k (rows ++ new ∷ []) ≡ (
          if is_some (get_row key k rows)
          then get_row key k rows
          else (if key new == k then some new else none))
  get_row-append k [] new = refl
  get_row-append k (x ∷ rows) new = ground (arith, get_row-append k rows new)

  -- A row that is found answers to its new value once it is saved.
  pub get_row-save_row_self :
      (k : String) (new old : A) (rows : List A)
      → key new ≡ k
      → get_row key k rows ≡ some old
      → get_row key k (save_row key new rows) ≡ some new
  get_row-save_row_self k new old rows e h =
      ground (arith, eq_iff (key new) k, get_row-save_row k new rows)
