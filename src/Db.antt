-- ===== src/Db.antt =====
-- internal/infra/db/db.go and internal/usecase/tx: work inside a transaction. The database itself is
-- outside: each statement, the begin and the commit may fail, as a list of Booleans says, one for
-- each. After a commit that fails, one more says whether the database had committed all the same, as
-- when the connection is lost before its answer. Statements of one transaction see the tables that it has written, and no other writer.
pub mod Triple
pub mod Quiet
pub mod Rows
pub mod Steps
use vfx.Base.{Bool, true, false, List, [], ◌∷◌, Option, none, some, if◌then◌else◌}

-- What a usecase returns besides a value: a failure of the database, or an error of the domain.
pub data Failure (E : Type 0) : Type 0 where
  db : Failure E
  domain : E → Failure E

pub data Reply (E A : Type 0) : Type 0 where
  ok : A → Reply E A
  err : Failure E → Reply E A

-- A transaction that is under way: the tables as it sees them, and what will fail.
pub record Conn (S : Type 0) : Type 0 where
  pub tables : S
  pub faults : List Bool

abbrev pub Tx : Type 0 → Type 0 → Type 0 → Type 0
Tx E S A = Conn S → Reply E (A × Conn S)

abbrev pub next_fails : List Bool → Bool
next_fails [] = false
next_fails (f ∷ fs) = f

abbrev pub later_faults : List Bool → List Bool
later_faults [] = []
later_faults (f ∷ fs) = fs

module _ {E S A : Type 0} where
  abbrev pub return : A → Tx E S A
  return a c = ok (a, c)

  abbrev pub fail : E → Tx E S A
  fail e c = err (domain e)

  -- One statement: a result and new tables, or nothing where a constraint is violated.
  unfoldable pub statement : (S → Option (A × S)) → Tx E S A
  statement f c = elim (next_fails c.faults) [
    | true ↦ err db
    | false ↦ elim (f c.tables) [
      | none ↦ err db
      | some (a, s) ↦ ok (a, record { tables = s; faults = later_faults c.faults })
    ]
  ]

  -- Session.run: begin, the work, commit; on an error of the work the tables are as they were.
  abbrev pub committed : S → Reply E (A × Conn S) → Reply E A × S
  committed s (err e) = (err e, s)
  committed s (ok (a, c)) = elim (next_fails c.faults) [
    | true ↦ (err db, if next_fails (later_faults c.faults) then c.tables else s)
    | false ↦ (ok a, c.tables)
  ]

  unfoldable pub rw_tx : List Bool → S → Tx E S A → Reply E A × S
  rw_tx faults s work = elim (next_fails faults) [
    | true ↦ (err db, s)
    | false ↦ committed s (work (record { tables = s; faults = later_faults faults }))
  ]

infixl 5 ◌>>=◌ ◌>>◌
abbrev pub ◌>>=◌ : {E S A B : Type 0} → Tx E S A → (A → Tx E S B) → Tx E S B
◌>>=◌ m f c = elim (m c) [ err e ↦ err e | ok (a, d) ↦ f a d ]

abbrev pub ◌>>◌ : {E S A B : Type 0} → Tx E S A → Tx E S B → Tx E S B
m >> k = m >>= λ _. k

module _ {E S A : Type 0} where
  -- A statement that reads, one that writes and returns nothing, and `:one`, which may find no row.
  unfoldable pub query : (S → A) → Tx E S A
  query f = statement (λ s. some (f s, s))

  abbrev pub or_fail : E → Option A → Tx E S A
  or_fail e none = fail e
  or_fail e (some a) = return a

  unfoldable pub query_one : (S → Option A) → E → Tx E S A
  query_one f e = statement (λ s. some (f s, s)) >>= λ o. or_fail e o

module _ {E S : Type 0} where
  unfoldable pub exec : (S → S) → Tx E S (Unit {0})
  exec f = statement (λ s. some (tt, f s))

  -- `:execrows`, and an error when no row was affected.
  unfoldable pub exec_rows : (S → Bool) → (S → S) → E → Tx E S (Unit {0})
  exec_rows affected f e =
      statement (λ s. some (affected s, f s)) >>= λ y. if y then return tt else fail e
