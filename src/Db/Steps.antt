-- ===== src/Db/Steps.antt =====
-- Proofs about work inside a transaction, one statement after another, on tables that are known.
use vfx.Base.{Bool, true, Option, none, some, ◌≡◌, refl, sym, subst, ◌∙◌}
use vfx.Db.{Tx, ok, query, query_one, or_fail, exec, exec_rows, statement, ◌>>=◌}
use vfx.Db.Triple.{
  Triple, at_rule, bind_rule, return_rule, fail_rule, if_rule, fact_rule, consequence,
}
use vfx.Db.Quiet.{quiet}

-- Work on the tables `s` that leaves the tables `t` and a result of which `F` holds.
abbrev pub Leads : {E S A : Type 0} → S → Tx E S A → S → (A → Type 0) → Type 0
Leads s m t F = Triple (λ u. u ≡ s) m (λ a u. (u ≡ t) × F a)

pub then_rule :
    {E S A B : Type 0}
    → {Q : B → S → Type 0} → (s t : S) → (F : A → Type 0) → (m : Tx E S A) → (f : A → Tx E S B)
    → Leads s m t F
    → ((a : A) → F a → Triple (λ u. u ≡ t) (f a) Q)
    → Triple (λ u. u ≡ s) (m >>= f) Q
then_rule {Q} s t F m f hm hf =
    bind_rule m f hm
      λ a. fact_rule (f a) λ u p. subst (λ v. Triple (λ w. w ≡ v) (f a) Q) (sym p.0) (hf a p.1)

-- A predicate that work on known tables keeps.
pub keep_rule :
    {E S A : Type 0}
    → {P : S → Type 0} → (m : Tx E S A) → (g : S → S) → (F : S → A → Type 0)
    → ((s : S) → Leads s m (g s) (F s))
    → ((s : S) → (a : A) → P s → F s a → P (g s))
    → Triple P m (λ a u. P u)
keep_rule {P} m g F h k =
    fact_rule m λ s p. consequence m (h s) λ a u q. subst P (sym q.0) (k s a p q.1)

module _ {E S A : Type 0} where
  pub query_rule : (s : S) (f : S → A) → Leads {E = E} s (query f) s (λ a. a ≡ f s)
  unfolding query
  query_rule s f = at_rule s _ (refl, refl)

  pub query_one_rule :
      (s : S) (f : S → Option A) (e : E) → Leads s (query_one f e) s (λ a. f s ≡ some a)
  unfolding query_one
  query_one_rule s f e =
      bind_rule _ _ (at_rule {Q = λ o u. (u ≡ s) × (f s ≡ o)} s _ (refl, refl)) found
    where
      found :
          (o : Option A)
          → Triple (λ u. (u ≡ s) × (f s ≡ o)) (or_fail e o) (λ a u. (u ≡ s) × (f s ≡ some a))
      found none = fail_rule e
      found (some a) = return_rule a λ u p. p

module _ {E S : Type 0} where
  pub exec_rule : (s : S) (f : S → S) → Leads {E = E} s (exec f) (f s) (λ a. Unit {0})
  unfolding exec
  exec_rule s f = at_rule s _ (refl, tt)

  pub exec_rows_rule :
      (s : S) (affected : S → Bool) (f : S → S) (e : E)
      → Leads s (exec_rows affected f e) (f s) (λ a. affected s ≡ true)
  unfolding exec_rows
  exec_rows_rule s affected f e =
      bind_rule _ _ (at_rule {Q = λ y u. (u ≡ f s) × (affected s ≡ y)} s _ (refl, refl))
        λ y. if_rule y _ _ (λ h. return_rule tt λ u p. (p.0, p.1 ∙ h)) (λ h. fail_rule e)

-- The same statements where nothing fails.
module _ {E S A : Type 0} where
  pub query-run : (s : S) (f : S → A) → query {E = E} f (quiet s) ≡ ok (f s, quiet s)
  unfolding query statement
  query-run s f = refl

  pub query_one-run :
      (s : S) (f : S → Option A) (e : E) (a : A)
      → f s ≡ some a
      → query_one f e (quiet s) ≡ ok (a, quiet s)
  unfolding query_one statement
  query_one-run s f e a h = rw h refl

module _ {E S : Type 0} where
  pub exec-run : (s : S) (f : S → S) → exec {E = E} f (quiet s) ≡ ok (tt, quiet (f s))
  unfolding exec statement
  exec-run s f = refl

  pub exec_rows-run :
      (s : S) (affected : S → Bool) (f : S → S) (e : E)
      → affected s ≡ true
      → exec_rows affected f e (quiet s) ≡ ok (tt, quiet (f s))
  unfolding exec_rows statement
  exec_rows-run s affected f e h = rw h refl
