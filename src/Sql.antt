-- ===== src/Sql.antt =====
-- database/sql as the services use it: code that runs on the tables, call after call. A call may
-- fail for reasons that the code does not see; a transaction that does not commit leaves no trace.
use tradesphere.Base.{
  arith, inl, inr, ◌≡◌, Result-cases, ℕ, suc, Bool, if◌then◌else◌, Result, ok, err,
}

-- The tables, and the calls of the database so far.
pub record Session (D : Type 0) : Type 0 where
  pub db : D
  pub calls : ℕ

-- Code that may end in an error of the type `E`
abbrev pub Act : Type 0 → Type 0 → Type 0 → Type 0
Act D E A = Session D → Result E A × Session D

infixl 5 ◌>>=◌ ◌>>◌
abbrev pub ◌>>=◌ : {D E A B : Type 0} → Act D E A → (A → Act D E B) → Act D E B
◌>>=◌ m f s = let (r, s') = m s in elim r [ ok a ↦ f a s' | err e ↦ (err e, s') ]

abbrev pub ◌>>◌ : {D E A B : Type 0} → Act D E A → Act D E B → Act D E B
m >> k = m >>= λ _. k

abbrev pub pure : {D E A : Type 0} → A → Act D E A
pure a s = (ok a, s)

abbrev pub raise : {D E A : Type 0} → E → Act D E A
raise e s = (err e, s)

abbrev pub raise_if : {D E : Type 0} → Bool → E → Act D E (Unit {0})
raise_if c e s = (if c then err e else ok tt, s)

-- One call more, and tables put back as they were
abbrev pub ticked : {D : Type 0} → Session D → Session D
ticked s = record s { calls = suc s.calls }

abbrev pub undone : {D : Type 0} → D → Session D → Session D
undone before s = record s { db = before }

module _ {D E : Type 0} (failed : E) (faults : ℕ → Bool) where
  -- A query: what it reads of the tables, or an error
  abbrev pub query : {A : Type 0} → (D → Result E A) → Act D E A
  query f s = (if faults s.calls then err failed else f s.db, ticked s)

  -- A statement: the tables after it, or an error
  abbrev pub exec : (D → Result E D) → Act D E (Unit {0})
  exec f s = if faults s.calls then (err failed, ticked s) else elim (f s.db) [
    | err e ↦ (err e, ticked s)
    | ok db' ↦ (ok tt, record { db = db'; calls = suc s.calls })
  ]

  -- `Commit` at the end of a transaction that began on the tables `before`
  abbrev pub commit : {A : Type 0} → D → A → Act D E A
  commit before a s =
      if faults s.calls then (err failed, undone before (ticked s)) else (ok a, ticked s)

-- Code in two parts that succeeds is its second part after its first, which succeeds too.
module _ {D E A B : Type 0} (m : Act D E A) (f : A → Act D E B) (s : Session D) where
  pub >>=-succeeds :
      {b : B} → ((m >>= f) s).0 ≡ ok b → (a : A) × ((m s).0 ≡ ok a) × ((m >>= f) s ≡ f a (m s).1)
  >>=-succeeds h = elim (Result-cases (m s).0) [
    | inl (a, e) ↦ (a, e, ground arith)
    | inr (x, e) ↦ absurd (ground arith)
  ]
