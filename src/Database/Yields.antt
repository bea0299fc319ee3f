-- ===== src/Database/Yields.antt =====
-- What every value that an action returns meets, whatever the tables are.
use mathlib.Core.Path.{subst}
use jb_wm_backend.Base.{◌≡◌, ap}
use jb_wm_backend.Database.Actions.{Error, Result, ok, err, World, Exec, pure, raise, ◌>>=◌}

pub record Yields {ℓ} {A : Type ℓ} (Q : A → Type 0) (m : Exec A) : Type ℓ where
  pub at : (w : World) (a : A) → (m w).0 ≡ ok a → Q a

abbrev value_of {ℓ} : {A : Type ℓ} → A → Result A → A
value_of a (ok b) = b
value_of a (err e) = a

returned {ℓ} : {A : Type ℓ} (Q : A → Type 0) (a b : A) → Q a → ok a ≡ ok b → Q b
returned Q a b q e = subst Q (ap (value_of a) e) q

module _ {ℓ} {A : Type ℓ} {Q : A → Type 0} where
  pub pure-Yields : (a : A) → Q a → Yields Q (pure a)
  pure-Yields a q = record { at = λ w b e. returned Q a b q e }

  pub raise-Yields : (e : Error) → Yields Q (raise e)
  raise-Yields e = record { at = λ w b h. absurd (cc) }

  continue-Yields {κ} :
      {B : Type κ} (r : Result B) (v : World) (f : B → Exec A)
      → ((b : B) → Yields Q (f b))
      → (a : A) → (((λ (w : World). (r, v)) >>= f) v).0 ≡ ok a
      → Q a
  continue-Yields (ok b) v f h a e = (h b).at v a e
  continue-Yields (err x) v f h a e = absurd (cc)

  pub bind-Yields {κ} :
      {B : Type κ} (m : Exec B) (f : B → Exec A) → ((b : B) → Yields Q (f b)) → Yields Q (m >>= f)
  bind-Yields m f h = record { at = λ w a e. let (r, v) = m w in continue-Yields r v f h a e }
