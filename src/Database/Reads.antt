-- ===== src/Database/Reads.antt =====
-- Actions that only read: they leave the session's view of the tables alone, whether they return or
-- raise. They may commit and read the clock.
use jb_wm_backend.Base.{◌≡◌, refl, ◌∙◌, Bool, true, false, Option, none, some, if◌then◌else◌}
use jb_wm_backend.Database.Tables.{Db}
use jb_wm_backend.Database.Actions.{
  Error, Result, ok, err, World, Exec, pure, raise, gets, or_raise, raise_if, tick, ◌>>=◌,
}

pub record Reads {ℓ} {A : Type ℓ} (m : Exec A) : Type ℓ where
  pub at : (w : World) → (m w).1.working ≡ w.working

pub pure-Reads {ℓ} : {A : Type ℓ} (a : A) → Reads (pure a)
pure-Reads a = record { at = λ w. refl }

pub raise-Reads {ℓ} : {A : Type ℓ} (e : Error) → Reads (raise {A = A} e)
raise-Reads e = record { at = λ w. refl }

pub gets-Reads {ℓ} : {A : Type ℓ} (f : Db → A) → Reads (gets f)
gets-Reads f = record { at = λ w. refl }

pub or_raise-Reads {ℓ} : {A : Type ℓ} (o : Option A) (e : Error) → Reads (or_raise o e)
or_raise-Reads none e = record { at = λ w. refl }
or_raise-Reads (some a) e = record { at = λ w. refl }

pub raise_if-Reads : (b : Bool) (e : Error) → Reads (raise_if b e)
raise_if-Reads true e = record { at = λ w. refl }
raise_if-Reads false e = record { at = λ w. refl }

pub tick-Reads : Reads tick
tick-Reads = record { at = λ w. refl }

continue-Reads {ℓ κ} :
    {A : Type ℓ} {B : Type κ} (r : Result A) (w : World) (f : A → Exec B)
    → ((a : A) → Reads (f a))
    → (((λ (v : World). (r, v)) >>= f) w).1.working ≡ w.working
continue-Reads (ok a) w f h = (h a).at w
continue-Reads (err e) w f h = refl

pub bind-Reads {ℓ κ} :
    {A : Type ℓ} {B : Type κ} (m : Exec A) (f : A → Exec B)
    → Reads m
    → ((a : A) → Reads (f a))
    → Reads (m >>= f)
bind-Reads m f first h = record {
  at = λ w. let (r, w') = m w in continue-Reads r w' f h ∙ first.at w;
}

pub if-Reads {ℓ} :
    {A : Type ℓ} (b : Bool) (m n : Exec A) → Reads m → Reads n → Reads (if b then m else n)
if-Reads true m n yes_branch no_branch = yes_branch
if-Reads false m n yes_branch no_branch = no_branch

pub ruleset reads_rules = (
  pure-Reads, raise-Reads, gets-Reads, or_raise-Reads, raise_if-Reads, tick-Reads, bind-Reads,
  if-Reads,
)
