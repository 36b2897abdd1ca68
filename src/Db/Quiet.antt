-- ===== src/Db/Quiet.antt =====
-- Transactions in which no statement fails.
use vfx.Base.{[], Option, some, ◌≡◌, refl}
use vfx.Db.{Tx, Conn, Failure, ok, err, statement, rw_tx, ◌>>=◌}

abbrev pub quiet : {S : Type 0} → S → Conn S
quiet s = record { tables = s; faults = [] }

module _ {E S A : Type 0} where
  pub statement-run :
      (f : S → Option (A × S)) (s t : S) (a : A)
      → f s ≡ some (a, t)
      → statement {E = E} f (quiet s) ≡ ok (a, quiet t)
  unfolding statement
  statement-run f s t a h = rw (h, statement) refl

  pub rw_tx-run :
      (s t : S) (m : Tx E S A) (a : A) → m (quiet s) ≡ ok (a, quiet t) → rw_tx [] s m ≡ (ok a, t)
  unfolding rw_tx
  rw_tx-run s t m a h = rw (h, rw_tx) refl

module _ {E S A : Type 0} where
  pub rw_tx-fail :
      (s : S) (m : Tx E S A) (e : Failure E) → m (quiet s) ≡ err e → rw_tx [] s m ≡ (err e, s)
  unfolding rw_tx
  rw_tx-fail s m e h = rw (h, rw_tx) refl

pub bind-run :
    {E S A B : Type 0}
    → (m : Tx E S A) → (f : A → Tx E S B) → (c d : Conn S) → (a : A) → m c ≡ ok (a, d)
    → (m >>= f) c ≡ f a d
bind-run m f c d a h = rw (h, ◌>>=◌) refl
