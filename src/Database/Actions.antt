-- ===== src/Database/Actions.antt =====
-- Actions on a request's session: what they return or raise, and the state that they leave.
use jb_wm_backend.Base.{ℕ, ◌+◌, String, Bool, true, false, Option, none, some}
use jb_wm_backend.Database.Tables.{Db}

-- `HTTPException` by its status code, the approval interrupt by the proposal that it shows, and any
-- other exception by the name of its class.
pub data Error : Type 0 where
  http : ℕ → Error
  interrupted : String → Error
  exception : String → Error

pub data Result {ℓ} (A : Type ℓ) : Type ℓ where
  ok : A → Result A
  err : Error → Result A

-- The committed tables, the session's view of them, and how often the clock and the generator of
-- identifiers were read.
pub record World : Type 0 where
  pub committed : Db
  pub working : Db
  pub ticks : ℕ

abbrev pub Exec {ℓ} : Type ℓ → Type ℓ
Exec A = World → Result A × World

module _ {ℓ} {A : Type ℓ} where
  abbrev pub pure : A → Exec A
  pure a w = (ok a, w)

  abbrev pub raise : Error → Exec A
  raise e w = (err e, w)

  -- A value read from the session's view.
  abbrev pub gets : (Db → A) → Exec A
  gets f w = (ok (f w.working), w)

  abbrev pub or_raise : Option A → Error → Exec A
  or_raise none e = raise e
  or_raise (some a) e = pure a

infixl 5 ◌>>=◌ ◌>>◌
abbrev pub ◌>>=◌ {ℓ κ} : {A : Type ℓ} {B : Type κ} → Exec A → (A → Exec B) → Exec B
◌>>=◌ m f w = let (r, w') = m w in elim r [ ok a ↦ f a w' | err e ↦ (err e, w') ]

abbrev pub ◌>>◌ {ℓ κ} : {A : Type ℓ} {B : Type κ} → Exec A → Exec B → Exec B
m >> k = m >>= λ _. k

abbrev pub raise_if : Bool → Error → Exec (Unit {0})
raise_if true e w = (err e, w)
raise_if false e w = (ok tt, w)

-- `db.add`, or an assignment to a field of a row.
abbrev pub modify : (Db → Db) → Exec (Unit {0})
modify f w = (ok tt, record w { working = f w.working })

-- `db.commit()`
abbrev pub commit : Exec (Unit {0})
commit w = (ok tt, record w { committed = w.working })

-- One reading of `new_uuid` and of `utcnow`.
abbrev pub tick : Exec ℕ
tick w = (ok w.ticks, record w { ticks = w.ticks + 1 })

-- The tables once the request has ended: the session is closed, so that only commits last.
abbrev pub after {ℓ} : {A : Type ℓ} → Result A × World → Db
after r = r.1.committed

-- The session's view at the end of an action.
abbrev pub view {ℓ} : {A : Type ℓ} → Result A × World → Db
view r = r.1.working
