-- ===== src/Base/Sorting.antt =====
-- A stable sort by a strict comparison, as Go's sort.SliceStable, and its laws. It stands for sort.Slice
-- where the comparison tells any two elements apart, so that there is one sorted order.
use mathlib.Core.Path.{◌≡◌, refl, sym, ap, subst, ◌∙◌}
use mathlib.Core.Logic.{◌⊎◌, inl, inr}
use mathlib.Core.Bool.{Bool, true, false}
use mathlib.Core.List.{List, [], ◌∷◌, Memᴰ, Permᴰ}
use mathlib.Core.List.Memᴰ.{head, tail}
use mathlib.Core.List.Permᴰ.{nil, cons, swap, trans}
use mathlib.Core.List.Permᴰ
use native.Mathlib.Omega.{arith}
use vfx.Base.Tests.{if◌then◌else◌, Bool-cases}
use vfx.Base.Lists.{All, All-mono, All-of_mem, All-mem, mem-perm}

module _ {ℓ} {A : Type ℓ} (less : A → A → Bool) where
  -- `x` goes before the first element that is not less than it.
  abbrev pub insert : A → List A → List A
  insert x [] = x ∷ []
  insert x (y ∷ ys) = let rest = insert x ys in if less y x then y ∷ rest else x ∷ y ∷ ys

  abbrev pub sort : List A → List A
  sort [] = []
  sort (x ∷ xs) = insert x (sort xs)

  -- No element is less than one that stands before it.
  abbrev pub IsSorted : List A → Type ℓ
  IsSorted [] = Unit
  IsSorted (x ∷ xs) = All (λ y. less y x ≡ false) xs × IsSorted xs

  -- A strict weak order: what the comparison of a sort has to be.
  pub record IsOrder : Type ℓ where
    pub asym : (x y : A) → less x y ≡ true → less y x ≡ false
    pub le_trans : (x y z : A) → less y x ≡ false → less z y ≡ false → less z x ≡ false

  -- Two elements that the comparison tells apart, or that are the same.
  abbrev pub Apart : A → A → Type ℓ
  Apart x y = (less x y ≡ true) ⊎ (less y x ≡ true) ⊎ (x ≡ y)

  pub insert-perm : (x : A) (xs : List A) → Permᴰ (insert x xs) (x ∷ xs)
  insert-perm x [] = Permᴰ.refl _
  insert-perm x (y ∷ ys) = elim (Bool-cases (less y x)) [
    | inl e ↦ rw e (trans (cons refl (insert-perm x ys)) (swap refl refl))
    | inr e ↦ rw e (Permᴰ.refl _)
  ]

  pub sort-perm : (xs : List A) → Permᴰ (sort xs) xs
  sort-perm [] = nil
  sort-perm (x ∷ xs) = trans (insert-perm x (sort xs)) (cons refl (sort-perm xs))

  module _ (o : IsOrder) where
    insert-IsSorted : (x : A) (xs : List A) → IsSorted xs → IsSorted (insert x xs)
    insert-IsSorted x [] h = (tt, tt)
    insert-IsSorted x (y ∷ ys) h = elim (Bool-cases (less y x)) [
      | inl e ↦ rw e (
        All-of_mem _ _ (λ z m. below e (mem-perm (insert-perm x ys) m)),
        insert-IsSorted x ys h.1,
      )
      | inr e ↦ rw e ((e, All-mono ys (λ z k. o.le_trans x y z e k) h.0), h)
    ]
      where
        below : less y x ≡ true → {z : A} → Memᴰ z (x ∷ ys) → less z y ≡ false
        below e (head q) = subst (λ t. less t y ≡ false) (sym q) (o.asym y x e)
        below e (tail m) = All-mem _ ys h.0 m

    pub sort-IsSorted : (xs : List A) → IsSorted (sort xs)
    sort-IsSorted [] = tt
    sort-IsSorted (x ∷ xs) = insert-IsSorted x (sort xs) (sort-IsSorted xs)

    insert-insert_lt :
        (x y : A) (l : List A) → less x y ≡ true → insert x (insert y l) ≡ insert y (insert x l)
    insert-insert_lt x y [] h = ground (arith, o.asym x y)
    insert-insert_lt x y (z ∷ l) h =
        ground (arith, o.asym x y, o.le_trans x y z, insert-insert_lt x y l h)

    insert-insert :
        (x y : A) (l : List A) → Apart x y → insert x (insert y l) ≡ insert y (insert x l)
    insert-insert x y l (inl h) = insert-insert_lt x y l h
    insert-insert x y l (inr (inl h)) = sym (insert-insert_lt y x l h)
    insert-insert x y l (inr (inr e)) =
        subst (λ t. insert x (insert t l) ≡ insert t (insert x l)) e refl

    -- Where the comparison tells all elements apart, the order of the input does not matter.
    pub sort_unique :
        {xs ys : List A}
        → ((x y : A) → Memᴰ x xs → Memᴰ y xs → Apart x y)
        → Permᴰ xs ys
        → sort xs ≡ sort ys
    sort_unique apart nil = refl
    sort_unique apart (cons {a = a} {l₁ = l} {l₂ = m} e p) =
        ap (insert a) (sort_unique (λ x y m n. apart x y (tail m) (tail n)) p)
        ∙ ap (λ t. insert t (sort m)) e
    sort_unique apart (swap {a = a} {b = b} {a' = c} {b' = d} {l = l} e f) =
        insert-insert a b (sort l) (apart a b (head refl) (tail (head refl)))
        ∙ subst (λ t. insert b (insert a (sort l)) ≡ insert t (insert d (sort l))) f
            (subst (λ t. insert b (insert a (sort l)) ≡ insert b (insert t (sort l))) e refl)
    sort_unique apart (trans p q) =
        sort_unique apart p
        ∙ sort_unique (λ x y m n. apart x y (mem-perm (Permᴰ.symm p) m) (mem-perm (Permᴰ.symm p) n))
            q
