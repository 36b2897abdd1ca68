-- ===== src/Db/Rows.antt =====
-- Tables as lists of rows: what SELECT ... WHERE, INSERT ... ON CONFLICT DO UPDATE and DELETE do.
use vfx.Base.{Bool, not, Option, none, some, List, [], ◌∷◌, if◌then◌else◌, keep}

module _ {A : Type 0} where
  -- The row that passes a test; a key has one row at most.
  unfoldable pub select : (A → Bool) → List A → Option A
  select p [] = none
  select p (x ∷ xs) = let rest = select p xs in if p x then some x else rest

  -- The row that passes is changed; where none passes, a row is added.
  unfoldable pub upsert : (A → Bool) → (A → A) → A → List A → List A
  upsert p change new [] = new ∷ []
  upsert p change new (x ∷ xs) =
      let rest = upsert p change new xs in if p x then change x ∷ xs else x ∷ rest

  unfoldable pub delete_where : (A → Bool) → List A → List A
  delete_where p xs = keep (λ x. not (p x)) xs
