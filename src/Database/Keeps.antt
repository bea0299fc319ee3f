-- ===== src/Database/Keeps.antt =====
-- Invariants of the tables. An action keeps a predicate if it holds of the committed tables and of
-- the session's view afterwards whenever it did before, whether the action returns or raises.
use jb_wm_backend.Base.{Bool, true, false, Option, none, some, if◌then◌else◌}
use jb_wm_backend.Database.Tables.{Db}
use jb_wm_backend.Database.Actions.{
  Error, Result, ok, err, World, Exec, pure, raise, gets, or_raise, raise_if, modify, commit, tick,
  ◌>>=◌,
}

-- The predicate holds of both versions of the tables.
pub record Holds (P : Db → Type 0) (w : World) : Type 0 where
  pub committed : P w.committed
  pub working : P w.working

pub record Keeps {ℓ} {A : Type ℓ} (P : Db → Type 0) (m : Exec A) : Type ℓ where
  pub at : (w : World) → Holds P w → Holds P (m w).1

module _ {P : Db → Type 0} where
  pub pure-Keeps {ℓ} : {A : Type ℓ} (a : A) → Keeps P (pure a)
  pure-Keeps a = record { at = λ w h. h }

  pub raise-Keeps {ℓ} : {A : Type ℓ} (e : Error) → Keeps P (raise {A = A} e)
  raise-Keeps e = record { at = λ w h. h }

  pub gets-Keeps {ℓ} : {A : Type ℓ} (f : Db → A) → Keeps P (gets f)
  gets-Keeps f = record { at = λ w h. h }

  pub or_raise-Keeps {ℓ} : {A : Type ℓ} (o : Option A) (e : Error) → Keeps P (or_raise o e)
  or_raise-Keeps none e = record { at = λ w h. h }
  or_raise-Keeps (some a) e = record { at = λ w h. h }

  pub raise_if-Keeps : (b : Bool) (e : Error) → Keeps P (raise_if b e)
  raise_if-Keeps true e = record { at = λ w h. h }
  raise_if-Keeps false e = record { at = λ w h. h }

  pub tick-Keeps : Keeps P tick
  tick-Keeps = record { at = λ w h. record { committed = h.committed; working = h.working } }

  pub commit-Keeps : Keeps P commit
  commit-Keeps = record { at = λ w h. record { committed = h.working; working = h.working } }

  pub modify-Keeps : (f : Db → Db) → ((d : Db) → P d → P (f d)) → Keeps P (modify f)
  modify-Keeps f keep = record {
    at = λ w h. record { committed = h.committed; working = keep w.working h.working };
  }

  continue-Keeps {ℓ κ} :
      {A : Type ℓ} {B : Type κ} (r : Result A) (w : World) (f : A → Exec B)
      → ((a : A) → Keeps P (f a))
      → Holds P w
      → Holds P (((λ (v : World). (r, v)) >>= f) w).1
  continue-Keeps (ok a) w f keep h = (keep a).at w h
  continue-Keeps (err e) w f keep h = h

  pub bind-Keeps {ℓ κ} :
      {A : Type ℓ} {B : Type κ} (m : Exec A) (f : A → Exec B)
      → Keeps P m
      → ((a : A) → Keeps P (f a))
      → Keeps P (m >>= f)
  bind-Keeps m f first keep = record {
    at = λ w h. let (r, w') = m w in continue-Keeps r w' f keep (first.at w h);
  }

  pub if-Keeps {ℓ} :
      {A : Type ℓ} (b : Bool) (m n : Exec A) → Keeps P m → Keeps P n → Keeps P (if b then m else n)
  if-Keeps true m n yes_branch no_branch = yes_branch
  if-Keeps false m n yes_branch no_branch = no_branch

pub ruleset keeps_rules = (
  pure-Keeps, raise-Keeps, gets-Keeps, or_raise-Keeps, raise_if-Keeps, tick-Keeps, commit-Keeps,
  bind-Keeps, if-Keeps,
)
