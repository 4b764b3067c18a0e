-- ===== src/Session/Keeps.antt =====
-- Invariants of the database that the steps of a handler keep, and what a step returns.
use onboarding_and_verificat.Prelude.{
  ◌≡◌, refl, sym, subst, ◌∙◌, Bool, true, false, Option, none, some,
}
use onboarding_and_verificat.Model.Db.{Db}
use onboarding_and_verificat.Session.{
  Error, Result, ok, err, Session, Action, pure, raise, gets, or_raise, guard, modify, commit,
  serve, ◌>>=◌,
}

-- An action that returns nothing.
abbrev pub Done : Unit {0} → Type 0
Done _ = Unit

module _ (I : Db → Type 0) where
  -- The invariant holds of what is committed and of the session's working copy.
  abbrev pub Holds : Session → Type 0
  Holds s = I s.committed × I s.working

  abbrev pub Gives : {A : Type 0} → (A → Type 0) → Result A × Session → Type 0
  Gives Q (ok a, s) = Q a × Holds s
  Gives Q (err e, s) = Holds s

  -- From a state with the invariant, the action ends in one, and what it returns satisfies `Q`.
  abbrev pub Keeps : {A : Type 0} → (A → Type 0) → Action A → Type 0
  Keeps Q m = (s : Session) → Holds s → Gives Q (m s)

  module _ {A : Type 0} (Q : A → Type 0) where
    pub Keeps-pure : (a : A) → Q a → Keeps Q (pure a)
    Keeps-pure a q s h = (q, h)

    pub Keeps-raise : (e : Error) → Keeps Q (raise e)
    Keeps-raise e s h = h

    pub Keeps-gets : (f : Db → A) → ((db : Db) → I db → Q (f db)) → Keeps Q (gets f)
    Keeps-gets f q s h = (q s.working h.1, h)

    pub Keeps-or_raise :
        (o : Option A) (e : Error) → ((a : A) → o ≡ some a → Q a) → Keeps Q (or_raise o e)
    Keeps-or_raise none e q s h = h
    Keeps-or_raise (some a) e q s h = (q a refl, h)

    bind_from :
        {B : Type 0} (R : B → Type 0) (out : Result B × Session) (f : B → Action A)
        → Gives R out
        → ((b : B) → R b → Keeps Q (f b))
        → (s : Session) → Gives Q (((λ _. out) >>= f) s)
    bind_from R (ok b, s') f h k s = k b h.0 s' h.1
    bind_from R (err e, s') f h k s = h

    pub Keeps-bind :
        {B : Type 0} (R : B → Type 0) (m : Action B) (f : B → Action A)
        → Keeps R m
        → ((b : B) → R b → Keeps Q (f b))
        → Keeps Q (m >>= f)
    Keeps-bind R m f h k s good = bind_from R (m s) f (h s good) k s

    committed_from : (out : Result A × Session) → Gives Q out → I out.1.committed
    committed_from (ok a, s) h = h.1.0
    committed_from (err e, s) h = h.0

    pub Keeps-serve : (m : Action A) (db : Db) → Keeps Q m → I db → I (serve m db).1
    Keeps-serve m db h good =
        committed_from (m (record { committed = db; working = db }))
          (h (record { committed = db; working = db }) (good, good))

  pub Keeps-guard : (test : Bool) (e : Error) → Keeps Done (guard test e)
  Keeps-guard true e s h = (tt, h)
  Keeps-guard false e s h = h

  pub Keeps-modify : (f : Db → Db) → ((db : Db) → I db → I (f db)) → Keeps Done (modify f)
  Keeps-modify f k s h = (tt, (h.0, k s.working h.1))

  pub Keeps-commit : Keeps Done commit
  Keeps-commit s h = (tt, (h.1, h.1))

-- The action only reads.
abbrev pub IsRead : {A : Type 0} → Action A → Type 0
IsRead m = (s : Session) → (m s).1 ≡ s

module _ {A B : Type 0} where
  read_from :
      (out : Result B × Session) (f : B → Action A) (s : Session)
      → out.1 ≡ s
      → ((b : B) → IsRead (f b))
      → (((λ _. out) >>= f) s).1 ≡ s
  read_from (ok b, s') f s same h = h b s' ∙ same
  read_from (err e, s') f s same h = same

  pub IsRead-bind :
      (m : Action B) (f : B → Action A) → IsRead m → ((b : B) → IsRead (f b)) → IsRead (m >>= f)
  IsRead-bind m f reads h s = read_from (m s) f s (reads s) h

-- Nothing is asked of what a read returns.
abbrev pub Read : {A : Type 0} → A → Type 0
Read _ = Unit

module _ {A : Type 0} (I : Db → Type 0) where
  Gives-Read : (out : Result A × Session) (s : Session) → out.1 ≡ s → Holds I s → Gives I Read out
  Gives-Read (ok a, s') s same h = (tt, subst (Holds I) (sym same) h)
  Gives-Read (err e, s') s same h = subst (Holds I) (sym same) h

  pub Keeps-Read : (m : Action A) → IsRead m → Keeps I Read m
  Keeps-Read m reads s h = Gives-Read (m s) s (reads s) h
