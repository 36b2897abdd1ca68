-- ===== src/Db/Triple.antt =====
-- A logic for work inside a transaction: what holds of the tables and the result when it succeeds.
use vfx.Base.{
  Bool, true, false, List, Option, none, some, ◌≡◌, refl, sym, ap, ◌∙◌, subst, Option-cases,
  Bool-cases, inl, inr, if◌then◌else◌,
}
use vfx.Db.{
  Tx, Conn, Reply, ok, err, return, fail, statement, committed, rw_tx, next_fails, later_faults,
  ◌>>=◌,
}

module _ {S A : Type 0} where
  abbrev pub Result : (A → S → Type 0) → Option (A × S) → Type 0
  Result Q none = Unit {0}
  Result Q (some (a, t)) = Q a t

pub ok_inj : {E A : Type 0} {a b : A} → ◌≡◌ {A = Reply E A} (ok a) (ok b) → a ≡ b
ok_inj h = cc h

module _ {E S A : Type 0} where
  abbrev pub Ends : (A → S → Type 0) → Reply E (A × Conn S) → Type 0
  Ends Q (ok (a, c)) = Q a c.tables
  Ends Q (err e) = Unit {0}

  pub record Triple (P : S → Type 0) (m : Tx E S A) (Q : A → S → Type 0) : Type 0 where
    pub ends : (c : Conn S) → P c.tables → Ends Q (m c)

  pub statement_rule :
      {P : S → Type 0}
      → {Q : A → S → Type 0} → (f : S → Option (A × S))
      → ((s : S) → P s → (a : A) → (t : S) → f s ≡ some (a, t) → Q a t)
      → Triple P (statement f) Q
  unfolding statement
  statement_rule {Q} f h = record {
    ends = λ c p. elim (Bool-cases (next_fails c.faults)) [
      | inl e ↦ rw (e, statement) tt
      | inr e ↦ elim (Option-cases (f c.tables)) [
        | inl n ↦ rw (e, n, statement) tt
        | inr ((a, t), y) ↦ rw (e, y, statement) (h c.tables p a t y)
      ]
    ];
  }

  -- A statement on tables that are known.
  pub at_rule :
      {Q : A → S → Type 0}
      → (s : S) → (f : S → Option (A × S)) → Result Q (f s)
      → Triple (λ t. t ≡ s) (statement f) Q
  at_rule {Q} s f h = statement_rule f λ t e a u y. subst (Result Q) (ap f (sym e) ∙ y) h

  -- The tables after a call that runs in a transaction: the work's, or the old ones.
  pub rw_tx_rule :
      {P : S → Type 0}
      → (faults : List Bool) → (s : S) → (m : Tx E S A) → P s
      → Triple P m (λ a t. P t)
      → P (rw_tx faults s m).1
  unfolding rw_tx
  rw_tx_rule {P} faults s m p h = elim (Bool-cases (next_fails faults)) [
    | inl e ↦ rw (e, rw_tx) p
    | inr e ↦
        rw (e, rw_tx) (over _ (h.ends (record { tables = s; faults = later_faults faults }) p))
  ]
    where
      over : (r : Reply E (A × Conn S)) → Ends (λ a t. P t) r → P (committed s r).1
      over (err x) u = p
      over (ok (a, c)) u = elim (Bool-cases (next_fails c.faults)) [
        | inl e ↦
            rw (e, committed)
              (elim (Bool-cases (next_fails (later_faults c.faults))) [
                | inl y ↦ rw y u
                | inr y ↦ rw y p
              ])
        | inr e ↦ rw (e, committed) u
      ]

  -- What a transaction that succeeds has established.
  pub rw_tx_ok :
      {P : S → Type 0}
      → {Q : A → S → Type 0} → (faults : List Bool) → (s : S) → (m : Tx E S A) → (a : A) → P s
      → Triple P m Q
      → (rw_tx faults s m).0 ≡ ok a
      → Q a (rw_tx faults s m).1
  unfolding rw_tx
  rw_tx_ok {P} {Q} faults s m a p h = elim (Bool-cases (next_fails faults)) [
    | inl e ↦ rw (e, rw_tx) (λ y. cc y)
    | inr e ↦
        rw (e, rw_tx) (over _ (h.ends (record { tables = s; faults = later_faults faults }) p))
  ]
    where
      over :
          (r : Reply E (A × Conn S)) → Ends Q r → (committed s r).0 ≡ ok a → Q a (committed s r).1
      over (err x) u = λ y. cc y
      over (ok (b, c)) u = elim (Bool-cases (next_fails c.faults)) [
        | inl e ↦ rw (e, committed) (λ y. cc y)
        | inr e ↦ rw (e, committed) (λ y. subst (λ z. Q z c.tables) (ok_inj y) u)
      ]

pub bind_rule :
    {E S A B : Type 0}
    → {P : S → Type 0} → {R : A → S → Type 0} → {Q : B → S → Type 0} → (m : Tx E S A)
    → (f : A → Tx E S B) → Triple P m R
    → ((a : A) → Triple (R a) (f a) Q)
    → Triple P (m >>= f) Q
bind_rule {E} {S} {A} {B} {P} {R} {Q} m f hm hf = record { ends = λ c p. over (m c) (hm.ends c p) }
  where
    over :
        (r : Reply E (A × Conn S))
        → Ends R r
        → Ends Q (elim r [ err e ↦ err e | ok (a, d) ↦ f a d ])
    over (err e) u = tt
    over (ok (a, d)) u = (hf a).ends d u

pub return_rule :
    {E S A : Type 0}
    → {P : S → Type 0} → {Q : A → S → Type 0} → (a : A) → ((s : S) → P s → Q a s)
    → Triple {E = E} P (return a) Q
return_rule a h = record { ends = λ c p. h c.tables p }

module _ {E S A : Type 0} where
  pub fail_rule : {P : S → Type 0} → {Q : A → S → Type 0} → (e : E) → Triple P (fail e) Q
  fail_rule e = record { ends = λ c p. tt }

  pub if_rule :
      {P : S → Type 0}
      → {Q : A → S → Type 0} → (b : Bool) → (m k : Tx E S A) → (b ≡ true → Triple P m Q)
      → (b ≡ false → Triple P k Q)
      → Triple P (if b then m else k) Q
  if_rule true m k f g = f refl
  if_rule false m k f g = g refl

  -- Of any work nothing is known.
  pub any_rule : {P : S → Type 0} → (m : Tx E S A) → Triple P m (λ a s. Unit {0})
  any_rule m = record { ends = λ c p. over (m c) }
    where
      over : (r : Reply E (A × Conn S)) → Ends (λ a s. Unit {0}) r
      over (err e) = tt
      over (ok x) = tt

  -- A fact that the condition implies may be used in the proof.
  pub fact_rule :
      {P : S → Type 0}
      → {Q : A → S → Type 0} → (m : Tx E S A) → ((s : S) → P s → Triple (λ t. t ≡ s) m Q)
      → Triple P m Q
  fact_rule m h = record { ends = λ c p. (h c.tables p).ends c refl }

  pub consequence :
      {P : S → Type 0}
      → {Q R : A → S → Type 0} → (m : Tx E S A) → Triple P m Q
      → ((a : A) → (s : S) → Q a s → R a s)
      → Triple P m R
  consequence {Q} {R} m h k = record { ends = λ c p. over (m c) (h.ends c p) }
    where
      over : (r : Reply E (A × Conn S)) → Ends Q r → Ends R r
      over (err e) u = tt
      over (ok (a, c)) u = k a c.tables u

  pub given :
      {P : S → Type 0}
      → {Q : A → S → Type 0} → (m : Tx E S A) → (s : S) → P s
      → Triple P m Q
      → Triple (λ t. t ≡ s) m Q
  given {P} m s p h = record { ends = λ c e. h.ends c (subst P (sym e) p) }
