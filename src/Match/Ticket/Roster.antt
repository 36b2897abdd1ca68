-- ===== src/Match/Ticket/Roster.antt =====
-- NormalizeParty of internal/domain/match/ticket.go.
use mathlib.Core.List.{Memᴰ, Permᴰ}
use mathlib.Core.List.Memᴰ.{head, tail}
use mathlib.Core.List.Permᴰ
use vfx.Base.{
  ℕ, ◌≤◌, true, false, List, [], ◌∷◌, ◌≡◌, ◌≢◌, ◌↔◌, ◌⊎◌, inl, inr, refl, sym, ap, subst, ◌∙◌,
  arith, leb, ◌==◌, ==_iff, if◌then◌else◌, length, any, All, All-mem, All-of_mem, All-mono,
  Bool-cases, mem-perm, length-perm, sort, sort-perm, sort-IsSorted, IsOrder, IsSorted,
}
use vfx.Match.Platform.{Platform, IsIdOrder, id_asym, id_le_trans}
use vfx.Match.Ticket.{add_id, add_ids, normalize_party}

abbrev IsDistinct : List ℕ → Type 0
IsDistinct [] = Unit {0}
IsDistinct (x ∷ xs) = All (λ y. x ≢ y) xs × IsDistinct xs

any-mem : (x : ℕ) (ids : List ℕ) → any (λ y. x == y) ids ≡ true → Memᴰ x ids
any-mem x [] h = cc
any-mem x (y ∷ ys) h = elim (Bool-cases (x == y)) [
  | inl e ↦ head ((==_iff x y).0 e)
  | inr e ↦ tail (any-mem x ys (ground arith))
]

any-ne : (x : ℕ) (ids : List ℕ) → any (λ y. x == y) ids ≡ false → All (λ y. x ≢ y) ids
any-ne x [] h = tt
any-ne x (y ∷ ys) h = ground (arith, any-ne x ys)

add_id-IsDistinct : (ids : List ℕ) (x : ℕ) → IsDistinct ids → IsDistinct (add_id ids x)
add_id-IsDistinct ids x h = elim (Bool-cases (any (λ y. x == y) ids)) [
  | inl e ↦ rw e h
  | inr e ↦ rw e (any-ne x ids e, h)
]

add_ids-IsDistinct : (ids xs : List ℕ) → IsDistinct ids → IsDistinct (add_ids ids xs)
add_ids-IsDistinct ids [] h = h
add_ids-IsDistinct ids (x ∷ xs) h = add_ids-IsDistinct (add_id ids x) xs (add_id-IsDistinct ids x h)

add_id-mem : (ids : List ℕ) (x a : ℕ) → Memᴰ a (add_id ids x) ↔ ((a ≡ x) ⊎ Memᴰ a ids)
add_id-mem ids x a = elim (Bool-cases (any (λ y. x == y) ids)) [
  | inl e ↦ rw e (λ m. inr m, back (any-mem x ids e))
  | inr e ↦ rw e (split, join)
]
  where
    back : Memᴰ x ids → (a ≡ x) ⊎ Memᴰ a ids → Memᴰ a ids
    back k (inl q) = subst (λ y. Memᴰ y ids) (sym q) k
    back k (inr m) = m

    split : Memᴰ a (x ∷ ids) → (a ≡ x) ⊎ Memᴰ a ids
    split (head q) = inl q
    split (tail m) = inr m

    join : (a ≡ x) ⊎ Memᴰ a ids → Memᴰ a (x ∷ ids)
    join (inl q) = head q
    join (inr m) = tail m

add_ids-mem : (ids xs : List ℕ) (a : ℕ) → Memᴰ a (add_ids ids xs) ↔ (Memᴰ a ids ⊎ Memᴰ a xs)
add_ids-mem ids [] a = (λ m. inl m, only)
  where
    only : Memᴰ a ids ⊎ Memᴰ a [] → Memᴰ a ids
    only (inl m) = m
    only (inr m) = elim m [ ]
add_ids-mem ids (x ∷ xs) a = step (add_ids-mem (add_id ids x) xs a)
  where
    there : Memᴰ a (add_id ids x) ⊎ Memᴰ a xs → Memᴰ a ids ⊎ Memᴰ a (x ∷ xs)
    there (inl m) = elim ((add_id-mem ids x a).0 m) [ inl q ↦ inr (head q) | inr k ↦ inl k ]
    there (inr m) = inr (tail m)

    back : Memᴰ a ids ⊎ Memᴰ a (x ∷ xs) → Memᴰ a (add_id ids x) ⊎ Memᴰ a xs
    back (inl m) = inl ((add_id-mem ids x a).1 (inr m))
    back (inr (head q)) = inl ((add_id-mem ids x a).1 (inl q))
    back (inr (tail m)) = inr m

    step :
        Memᴰ a (add_ids (add_id ids x) xs) ↔ (Memᴰ a (add_id ids x) ⊎ Memᴰ a xs)
        → Memᴰ a (add_ids (add_id ids x) xs) ↔ (Memᴰ a ids ⊎ Memᴰ a (x ∷ xs))
    step ih = (λ m. there (ih.0 m), λ m. ih.1 (back m))

IsDistinct-perm : {xs ys : List ℕ} → Permᴰ xs ys → IsDistinct xs → IsDistinct ys
IsDistinct-perm Permᴰ.nil h = h
IsDistinct-perm (Permᴰ.cons {a = a} {b = b} {l₁ = xs} {l₂ = ys} e p) h = (
  All-of_mem _ ys (λ y m. λ same. All-mem _ xs h.0 (mem-perm (Permᴰ.symm p) m) (e ∙ same)),
  IsDistinct-perm p h.1,
)
IsDistinct-perm (Permᴰ.swap {l = l} e f) h = (
  (λ same. h.0.0 (e ∙ sym same ∙ sym f), All-mono l (λ y n. λ same. n (f ∙ same)) h.1.0),
  (All-mono l (λ y n. λ same. n (e ∙ same)) h.0.1, h.1.1),
)
IsDistinct-perm (Permᴰ.trans p q) h = IsDistinct-perm q (IsDistinct-perm p h)

mem_of_short : {a b : ℕ} (l : List ℕ) → length l ≤ 1 → Memᴰ a l → Memᴰ b l → a ≡ b
mem_of_short [] h m n = elim m [ ]
mem_of_short (x ∷ []) h (head e) (head f) = e ∙ sym f
mem_of_short (x ∷ []) h (head e) (tail n) = elim n [ ]
mem_of_short (x ∷ []) h (tail m) n = elim m [ ]
mem_of_short (x ∷ y ∷ l) h m n = absurd (omega arith)

module _ (p : Platform) where
  -- Each id stands before all that follow it.
  abbrev pub IsIncreasing : List ℕ → Type 0
  IsIncreasing [] = Unit {0}
  IsIncreasing (x ∷ xs) = All (λ y. p.id_before x y ≡ true) xs × IsIncreasing xs

module _ (p : Platform) (ids : IsIdOrder p.id_before) where
  open p use {id_before}

  ids-IsOrder : IsOrder id_before
  ids-IsOrder = record { asym = id_asym ids; le_trans = id_le_trans ids }

  increasing : (xs : List ℕ) → IsDistinct xs → IsSorted id_before xs → IsIncreasing p xs
  increasing [] d s = tt
  increasing (x ∷ xs) d s = (All-of_mem _ xs before, increasing xs d.1 s.1)
    where
      before : (y : ℕ) → Memᴰ y xs → id_before x y ≡ true
      before y m = elim (ids.total x y) [
        | inl h ↦ h
        | inr (inl h) ↦ cc (h, All-mem _ xs s.0 m)
        | inr (inr e) ↦ absurd (All-mem _ xs d.0 m e)
      ]

  -- An increasing list is determined by its members.
  increasing_unique :
      (xs ys : List ℕ)
      → IsIncreasing p xs
      → IsIncreasing p ys
      → ((a : ℕ) → Memᴰ a xs → Memᴰ a ys)
      → ((a : ℕ) → Memᴰ a ys → Memᴰ a xs)
      → xs ≡ ys
  increasing_unique [] [] h k f g = refl
  increasing_unique [] (y ∷ ys) h k f g = elim (g y (head refl)) [ ]
  increasing_unique (x ∷ xs) [] h k f g = elim (f x (head refl)) [ ]
  increasing_unique (x ∷ xs) (y ∷ ys) h k f g =
      ap (λ t. t ∷ xs) same
      ∙ ap (λ l. y ∷ l)
          (increasing_unique xs ys h.1 k.1 (λ a m. drop_y a m (f a (tail m)))
            (λ a m. drop_x a m (g a (tail m))))
    where
      after_y : Memᴰ x (y ∷ ys) → (x ≡ y) ⊎ (id_before y x ≡ true)
      after_y (head e) = inl e
      after_y (tail m) = inr (All-mem _ ys k.0 m)

      after_x : Memᴰ y (x ∷ xs) → (x ≡ y) ⊎ (id_before x y ≡ true)
      after_x (head e) = inl (sym e)
      after_x (tail m) = inr (All-mem _ xs h.0 m)

      same : x ≡ y
      same = elim (after_y (f x (head refl))) [
        | inl e ↦ e
        | inr b ↦ elim (after_x (g y (head refl))) [ inl e ↦ e | inr c ↦ cc (id_asym ids x y c) ]
      ]

      drop_y : (a : ℕ) → Memᴰ a xs → Memᴰ a (y ∷ ys) → Memᴰ a ys
      drop_y a m (tail n) = n
      drop_y a m (head e) = cc (All-mem _ xs h.0 m, ids.irrefl x, e, same)

      drop_x : (a : ℕ) → Memᴰ a ys → Memᴰ a (x ∷ xs) → Memᴰ a xs
      drop_x a m (tail n) = n
      drop_x a m (head e) = cc (All-mem _ ys k.0 m, ids.irrefl y, e, same)

  module _ (order : List ℕ → List ℕ) (shuffles : (l : List ℕ) → Permᴰ (order l) l) where
    roster_of : ℕ → List ℕ → List ℕ
    roster_of self members = sort id_before (order (add_ids (self ∷ []) members))

    roster_of-perm :
        (self : ℕ) (members : List ℕ) → Permᴰ (roster_of self members) (add_ids (self ∷ []) members)
    unfolding roster_of
    roster_of-perm self members = Permᴰ.trans (sort-perm id_before _) (shuffles _)

    roster_of-IsIncreasing : (self : ℕ) (members : List ℕ) → IsIncreasing p (roster_of self members)
    unfolding roster_of
    roster_of-IsIncreasing self members =
        increasing _
          (IsDistinct-perm (Permᴰ.symm (roster_of-perm self members))
            (add_ids-IsDistinct (self ∷ []) members (tt, tt)))
          (sort-IsSorted id_before ids-IsOrder (order (add_ids (self ∷ []) members)))

    roster_of-mem :
        (self : ℕ) (members : List ℕ) (a : ℕ)
        → Memᴰ a (roster_of self members) ↔ Memᴰ a (self ∷ members)
    roster_of-mem self members a = (
      λ m. into ((add_ids-mem (self ∷ []) members a).0 (mem-perm (roster_of-perm self members) m)),
      λ m.
          mem-perm (Permᴰ.symm (roster_of-perm self members))
            ((add_ids-mem (self ∷ []) members a).1 (out m)),
    )
      where
        into : Memᴰ a (self ∷ []) ⊎ Memᴰ a members → Memᴰ a (self ∷ members)
        into (inl (head e)) = head e
        into (inl (tail m)) = elim m [ ]
        into (inr m) = tail m

        out : Memᴰ a (self ∷ members) → Memᴰ a (self ∷ []) ⊎ Memᴰ a members
        out (head e) = inl (head e)
        out (tail m) = inr m

    normalize_party-roster_of :
        (self : ℕ) (members : List ℕ)
        → normalize_party p order self members
          ≡ (if leb (length (roster_of self members)) 1 then [] else roster_of self members)
    unfolding normalize_party roster_of
    normalize_party-roster_of self members = rw (length-perm (roster_of-perm self members))

    -- The roster is empty when the submitter names nobody else, or it lists two or more players, the submitter and exactly the requested
    -- members, each once and in the order of their ids.
    pub normalize_party-members :
        (self : ℕ) (members : List ℕ)
        → let roster = normalize_party p order self members in
          ((roster ≡ []) × ((a : ℕ) → Memᴰ a members → a ≡ self))
          ⊎ ((2 ≤ length roster)
              × IsIncreasing p roster
              × ((a : ℕ) → Memᴰ a roster ↔ Memᴰ a (self ∷ members)))
    normalize_party-members self members =
        rw normalize_party-roster_of (elim (Bool-cases (leb (length (roster_of self members)) 1)) [
          | inl e ↦ rw e (inl (refl, λ a m. alone a e m))
          | inr e ↦
              rw e (
                inr (ground arith, roster_of-IsIncreasing self members, roster_of-mem self members))
        ])
      where
        alone : (a : ℕ) → leb (length (roster_of self members)) 1 ≡ true → Memᴰ a members → a ≡ self
        alone a short m =
            mem_of_short (roster_of self members) (ground arith)
              ((roster_of-mem self members a).1 (tail m))
              ((roster_of-mem self members self).1 (head refl))

  -- Two party members who name the same set of players get one roster, whoever of them submits, in
  -- whatever order and how often they list the others, and however the runtime iterates.
  pub normalize_party-canonical :
      (order order' : List ℕ → List ℕ)
      → ((l : List ℕ) → Permᴰ (order l) l)
      → ((l : List ℕ) → Permᴰ (order' l) l)
      → (self self' : ℕ) (members members' : List ℕ)
      → ((a : ℕ) → Memᴰ a (self ∷ members) → Memᴰ a (self' ∷ members'))
      → ((a : ℕ) → Memᴰ a (self' ∷ members') → Memᴰ a (self ∷ members))
      → normalize_party p order self members ≡ normalize_party p order' self' members'
  normalize_party-canonical order order' sh sh' self self' ms ms' f g =
      normalize_party-roster_of order sh self ms
      ∙ ap (λ (r : List ℕ). if leb (length r) 1 then [] else r) same
      ∙ sym (normalize_party-roster_of order' sh' self' ms')
    where
      same : roster_of order sh self ms ≡ roster_of order' sh' self' ms'
      same =
          increasing_unique _ _ (roster_of-IsIncreasing order sh self ms)
            (roster_of-IsIncreasing order' sh' self' ms')
            (λ a m.
              (roster_of-mem order' sh' self' ms' a).1
                (f a ((roster_of-mem order sh self ms a).0 m)))
            (λ a m.
              (roster_of-mem order sh self ms a).1
                (g a ((roster_of-mem order' sh' self' ms' a).0 m)))
