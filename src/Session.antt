-- ===== src/Session.antt =====
-- A database session (app/db/session.py, SQLAlchemy's AsyncSession) and the HTTP errors that the
-- services raise. Writes reach the session's working copy, which its own queries see; `commit`
-- makes them durable, and a request that raises rolls back to what was committed.
mod Errors
pub mod Keeps
pub use Errors.{Error}
unfoldable pub use Errors.{status_code}
use onboarding_and_verificat.Prelude.{Bool, Option, none, some, if◌then◌else◌}
use onboarding_and_verificat.Model.Db.{Db}

pub data Result (A : Type 0) : Type 0 where
  ok : A → Result A
  err : Error → Result A

pub record Session : Type 0 where
  pub committed : Db
  pub working : Db

abbrev pub Action : Type 0 → Type 0
Action A = Session → Result A × Session

module _ {A : Type 0} where
  abbrev pub pure : A → Action A
  pure a s = (ok a, s)

  abbrev pub raise : Error → Action A
  raise e s = (err e, s)

  -- A query.
  abbrev pub gets : (Db → A) → Action A
  gets f s = (ok (f s.working), s)

  abbrev pub or_raise : Option A → Error → Action A
  or_raise none e = raise e
  or_raise (some a) e = pure a

  -- What the client is told, and what the database holds afterwards.
  abbrev pub serve : Action A → Db → Result A × Db
  serve m db = let (r, s) = m (record { committed = db; working = db }) in (r, s.committed)

infixl 5 ◌>>=◌ ◌>>◌
abbrev pub ◌>>=◌ : {A B : Type 0} → Action A → (A → Action B) → Action B
◌>>=◌ m f s = let (r, s') = m s in elim r [ ok a ↦ f a s' | err e ↦ (err e, s') ]

abbrev pub ◌>>◌ : {A B : Type 0} → Action A → Action B → Action B
m >> k = m >>= λ _. k

-- `if not test: raise e`
abbrev pub guard : Bool → Error → Action (Unit {0})
guard test e s = (if test then ok tt else err e, s)

-- A write to the session.
abbrev pub modify : (Db → Db) → Action (Unit {0})
modify f s = (ok tt, record s { working = f s.working })

abbrev pub commit : Action (Unit {0})
commit s = (ok tt, record s { committed = s.working })
