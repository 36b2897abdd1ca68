-- ===== src/Base/Lists.antt =====
-- Lists measured and indexed by native numbers, and predicates on lists by recursion.
use Prim.Native.Nat.{ℕ, zero, suc, ◌+◌, ◌≤◌}
use mathlib.Core.Path.{◌≡◌, refl, sym, subst, ◌∙◌}
use mathlib.Core.Logic.{◌⊎◌, inl, inr}
use mathlib.Core.Bool.{Bool, true, false}
use mathlib.Core.List.{List, [], ◌∷◌, ◌++◌, Memᴰ, Permᴰ}
use mathlib.Core.List.Memᴰ.{head, tail}
use mathlib.Core.List.Permᴰ
use mathlib.Core.List.Permᴰ.{nil, cons, swap, trans}
use mathlib.Core.Option.{Option, none, some}
use native.Mathlib.Omega.{arith}
use vfx.Base.Tests.{if◌then◌else◌, Bool-cases}

module _ {ℓ} {A : Type ℓ} where
  abbrev pub length : List A → ℕ
  length [] = 0
  length (x ∷ xs) = suc (length xs)

  abbrev pub get_elem? : List A → ℕ → Option A
  get_elem? [] i = none
  get_elem? (x ∷ xs) zero = some x
  get_elem? (x ∷ xs) (suc i) = get_elem? xs i

  abbrev pub take : ℕ → List A → List A
  take zero xs = []
  take (suc n) [] = []
  take (suc n) (x ∷ xs) = x ∷ take n xs

  abbrev pub drop : ℕ → List A → List A
  drop zero xs = xs
  drop (suc n) [] = []
  drop (suc n) (x ∷ xs) = drop n xs

  -- The elements that pass a Boolean test, in order.
  abbrev pub keep : (A → Bool) → List A → List A
  keep p [] = []
  keep p (x ∷ xs) = let rest = keep p xs in if p x then x ∷ rest else rest

  abbrev pub any : (A → Bool) → List A → Bool
  any p [] = false
  any p (x ∷ xs) = if p x then true else any p xs

  pub length-append : (xs ys : List A) → length (xs ++ ys) ≡ length xs + length ys
  length-append [] ys = omega arith
  length-append (x ∷ xs) ys = omega (arith, length-append xs ys)

  pub length-keep-le : (p : A → Bool) (xs : List A) → length (keep p xs) ≤ length xs
  length-keep-le p [] = omega arith
  length-keep-le p (x ∷ xs) = ground (arith, length-keep-le p xs)

  -- Quantification by recursion: it computes to tuples.
  abbrev pub All {κ} : (A → Type κ) → List A → Type κ
  All P [] = Unit
  All P (x ∷ xs) = P x × All P xs

  pub All-append {κ} : (P : A → Type κ) (xs ys : List A) → All P xs → All P ys → All P (xs ++ ys)
  All-append P [] ys h k = k
  All-append P (x ∷ xs) ys h k = (h.0, All-append P xs ys h.1 k)

  pub All-append_left {κ} : (P : A → Type κ) (xs ys : List A) → All P (xs ++ ys) → All P xs
  All-append_left P [] ys h = tt
  All-append_left P (x ∷ xs) ys h = (h.0, All-append_left P xs ys h.1)

  pub All-append_right {κ} : (P : A → Type κ) (xs ys : List A) → All P (xs ++ ys) → All P ys
  All-append_right P [] ys h = h
  All-append_right P (x ∷ xs) ys h = All-append_right P xs ys h.1

  pub All-mono {κ ι} :
      {P : A → Type κ} {Q : A → Type ι} (xs : List A) → ((x : A) → P x → Q x) → All P xs → All Q xs
  All-mono [] f h = tt
  All-mono (x ∷ xs) f h = (f x h.0, All-mono xs f h.1)

  pub All-of_mem {κ} : (P : A → Type κ) (xs : List A) → ((x : A) → Memᴰ x xs → P x) → All P xs
  All-of_mem P [] f = tt
  All-of_mem P (x ∷ xs) f = (f x (head refl), All-of_mem P xs (λ y m. f y (tail m)))

  pub All-mem {κ} : (P : A → Type κ) (xs : List A) → All P xs → {x : A} → Memᴰ x xs → P x
  All-mem P [] h m = elim m [ ]
  All-mem P (y ∷ xs) h (head e) = subst P (sym e) h.0
  All-mem P (y ∷ xs) h (tail m) = All-mem P xs h.1 m

  pub mem-append_left : {a : A} (xs ys : List A) → Memᴰ a xs → Memᴰ a (xs ++ ys)
  mem-append_left [] ys m = elim m [ ]
  mem-append_left (x ∷ xs) ys (head e) = head e
  mem-append_left (x ∷ xs) ys (tail m) = tail (mem-append_left xs ys m)

  pub mem-append_right : {a : A} (xs ys : List A) → Memᴰ a ys → Memᴰ a (xs ++ ys)
  mem-append_right [] ys m = m
  mem-append_right (x ∷ xs) ys m = tail (mem-append_right xs ys m)

  pub mem-append : {a : A} (xs ys : List A) → Memᴰ a (xs ++ ys) → Memᴰ a xs ⊎ Memᴰ a ys
  mem-append [] ys m = inr m
  mem-append (x ∷ xs) ys (head e) = inl (head e)
  mem-append (x ∷ xs) ys (tail m) = elim (mem-append xs ys m) [
    | inl l ↦ inl (tail l)
    | inr r ↦ inr r
  ]

  pub mem-perm : {a : A} {xs ys : List A} → Permᴰ xs ys → Memᴰ a xs → Memᴰ a ys
  mem-perm nil m = m
  mem-perm (cons e p) (head q) = head (q ∙ e)
  mem-perm (cons e p) (tail m) = tail (mem-perm p m)
  mem-perm (swap e f) (head q) = tail (head (q ∙ e))
  mem-perm (swap e f) (tail (head q)) = head (q ∙ f)
  mem-perm (swap e f) (tail (tail m)) = tail (tail m)
  mem-perm (trans p q) m = mem-perm q (mem-perm p m)

  pub mem-keep : {a : A} (p : A → Bool) (xs : List A) → Memᴰ a (keep p xs) → Memᴰ a xs
  mem-keep p [] m = elim m [ ]
  mem-keep p (x ∷ xs) m = elim (Bool-cases (p x)) [
    | inl e ↦ kept (mem-keep p xs) (subst (Memᴰ _) (rw e) m)
    | inr e ↦ tail (mem-keep p xs (subst (Memᴰ _) (rw e) m))
  ]
    where
      kept : {a : A} → (Memᴰ a (keep p xs) → Memᴰ a xs) → Memᴰ a (x ∷ keep p xs) → Memᴰ a (x ∷ xs)
      kept f (head q) = head q
      kept f (tail n) = tail (f n)

  pub length-perm : {xs ys : List A} → Permᴰ xs ys → length xs ≡ length ys
  length-perm nil = refl
  length-perm (cons e p) = omega (arith, length-perm p)
  length-perm (swap e f) = refl
  length-perm (trans p q) = length-perm p ∙ length-perm q

pub keep-member :
    {A : Type 0} (p : A → Bool) (e : A) (xs : List A) → Memᴰ e xs → p e ≡ true → Memᴰ e (keep p xs)
keep-member p e [] m h = elim m [ ]
keep-member p e (x ∷ xs) (head q) h = rw (subst (λ z. p z ≡ true) q h) (head q)
keep-member p e (x ∷ xs) (tail m) h = elim (Bool-cases (p x)) [
  | inl y ↦ rw y (tail (keep-member p e xs m h))
  | inr y ↦ rw y (keep-member p e xs m h)
]

pub All-keep : {A : Type 0} (p : A → Bool) (xs : List A) → All (λ x. p x ≡ true) (keep p xs)
All-keep p [] = tt
All-keep p (x ∷ xs) = elim (Bool-cases (p x)) [
  | inl e ↦ rw e (e, All-keep p xs)
  | inr e ↦ rw e (All-keep p xs)
]

pub keep-perm :
    {A : Type 0} (p : A → Bool) {xs ys : List A} → Permᴰ xs ys → Permᴰ (keep p xs) (keep p ys)
keep-perm p Permᴰ.nil = Permᴰ.nil
keep-perm p (Permᴰ.cons {a = a} {b = b} {l₁ = xs} {l₂ = ys} e d) =
    subst (λ c. Permᴰ (keep p (a ∷ xs)) (keep p (c ∷ ys))) e
      (elim (Bool-cases (p a)) [
        | inl y ↦ rw y (Permᴰ.cons refl (keep-perm p d))
        | inr n ↦ rw n (keep-perm p d)
      ])
keep-perm p (Permᴰ.swap {a = a} {b = b} {a' = c} {b' = d} {l = l} e f) =
    subst (λ x. Permᴰ (keep p (a ∷ b ∷ l)) (keep p (c ∷ x ∷ l))) e
      (subst (λ x. Permᴰ (keep p (a ∷ b ∷ l)) (keep p (x ∷ a ∷ l))) f
        (elim (Bool-cases (p a)) [
          | inl y ↦ elim (Bool-cases (p b)) [
            | inl z ↦ rw (y, z) (Permᴰ.swap refl refl)
            | inr z ↦ rw (y, z) (Permᴰ.refl (a ∷ keep p l))
          ]
          | inr y ↦ elim (Bool-cases (p b)) [
            | inl z ↦ rw (y, z) (Permᴰ.refl (b ∷ keep p l))
            | inr z ↦ rw (y, z) (Permᴰ.refl (keep p l))
          ]
        ]))
keep-perm p (Permᴰ.trans d e) = Permᴰ.trans (keep-perm p d) (keep-perm p e)
