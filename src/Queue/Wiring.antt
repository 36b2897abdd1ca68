-- ===== src/Queue/Wiring.antt =====
-- How the channels hang on the tickets: each list of subscribers holds open channels, each once,
-- and no channel hangs on two tickets.
use mathlib.Core.List.{Memᴰ}
use mathlib.Core.List.Memᴰ.{head, tail}
use mathlib.Core.Path.{fun_ext}
use vfx.Base.{
  ℕ, true, false, Option, some, List, [], ◌∷◌, ◌++◌, ◌≡◌, ◌≢◌, sym, subst, ◌∙◌, ◌==◌, ==_iff,
  if◌then◌else◌, get_elem?, length, arith, All, All-append, All-of_mem, All-mem, All-mono,
  Bool-cases, Option-cases, eq_of_some, ◌⊎◌, inl, inr, mem-append,
}
use vfx.Queue.{Channel, without}
use vfx.Queue.Assoc.{get_elem?-append_left, get_elem?-snoc, get_elem?-lt}
use vfx.Queue.Channels.{IsOpen, IsDistinct, IsBounded}

pub record IsWired (subs : ℕ → List ℕ) (cs : List Channel) : Type 0 where
  pub live : (id : ℕ) → All (IsOpen cs) (subs id)
  pub distinct : (id : ℕ) → IsDistinct (subs id)
  pub apart : (i j ch : ℕ) → Memᴰ ch (subs i) → Memᴰ ch (subs j) → i ≡ j
  pub bounded : IsBounded cs

pub IsWired-ext :
    {subs subs' : ℕ → List ℕ} {cs : List Channel}
    → ((id : ℕ) → subs id ≡ subs' id)
    → IsWired subs cs
    → IsWired subs' cs
IsWired-ext {cs = cs} h w = subst (λ (s : ℕ → List ℕ). IsWired s cs) (fun_ext h) w

pub IsWired-keep :
    {subs : ℕ → List ℕ} {cs cs' : List Channel}
    → ((j : ℕ) → IsOpen cs j → IsOpen cs' j)
    → IsBounded cs'
    → IsWired subs cs
    → IsWired subs cs'
IsWired-keep {subs} h b w = record {
  live = λ id. All-mono (subs id) h (w.live id);
  distinct = w.distinct;
  apart = w.apart;
  bounded = b;
}

-- The list of one ticket replaced.
abbrev pub update : (ℕ → List ℕ) → ℕ → List ℕ → ℕ → List ℕ
update subs id l j = if id == j then l else subs j

-- A shorter list for one ticket: the channels that leave it may be closed.
pub IsWired-shrink :
    (subs : ℕ → List ℕ) (cs cs' : List Channel) (id : ℕ) (l : List ℕ)
    → ((ch : ℕ) → Memᴰ ch l → Memᴰ ch (subs id))
    → IsDistinct l
    → All (IsOpen cs') l
    → ((ch : ℕ) → (Memᴰ ch (subs id) → ⊥) → get_elem? cs' ch ≡ get_elem? cs ch)
    → IsBounded cs'
    → IsWired subs cs
    → IsWired (update subs id l) cs'
IsWired-shrink subs cs cs' id l sub d o same b w = record {
  live = λ j. elim (Bool-cases (id == j)) [
    | inl e ↦ rw e o
    | inr e ↦ rw e (All-of_mem (IsOpen cs') (subs j) (other j e))
  ];
  distinct = λ j. elim (Bool-cases (id == j)) [ inl e ↦ rw e d | inr e ↦ rw e (w.distinct j) ];
  apart = λ i j ch m n. w.apart i j ch (old i ch m) (old j ch n);
  bounded = b;
}
  where
    old : (j ch : ℕ) → Memᴰ ch (update subs id l j) → Memᴰ ch (subs j)
    old j ch m = elim (Bool-cases (id == j)) [
      | inl e ↦
          subst (λ k. Memᴰ ch (subs k)) ((==_iff id j).0 e) (sub ch (subst (Memᴰ ch) (rw e) m))
      | inr e ↦ subst (Memᴰ ch) (rw e) m
    ]

    other : (j : ℕ) → (id == j) ≡ false → (ch : ℕ) → Memᴰ ch (subs j) → IsOpen cs' ch
    other j e ch m =
        let (c, at, h) = All-mem (IsOpen cs) (subs j) (w.live j) m in
        (c, same ch (λ n. absurd (ne (w.apart id j ch n m))) ∙ at, h)
      where
        ne : id ≢ j
        ne q = cc (e, (==_iff id j).1 q)

IsDistinct-snoc :
    (xs : List ℕ) (x : ℕ) → IsDistinct xs → All (λ y. y ≢ x) xs → IsDistinct (xs ++ x ∷ [])
IsDistinct-snoc [] x d n = (tt, tt)
IsDistinct-snoc (y ∷ xs) x d n =
    (All-append (λ z. y ≢ z) xs (x ∷ []) d.0 (n.0, tt), IsDistinct-snoc xs x d.1 n.1)

-- A channel that was just made, for one more subscriber of a ticket.
pub IsWired-subscribe :
    (subs : ℕ → List ℕ) (cs : List Channel) (id : ℕ) (c : Channel)
    → c.closed ≡ false
    → IsBounded (cs ++ c ∷ [])
    → IsWired subs cs
    → IsWired (update subs id (subs id ++ length cs ∷ [])) (cs ++ c ∷ [])
IsWired-subscribe subs cs id c h b w = record {
  live = λ j. elim (Bool-cases (id == j)) [
    | inl e ↦ rw e (All-append (IsOpen (cs ++ c ∷ [])) (subs id) _ (kept id) (fresh_open, tt))
    | inr e ↦ rw e (kept j)
  ];
  distinct = λ j. elim (Bool-cases (id == j)) [
    | inl e ↦ rw e (
        IsDistinct-snoc (subs id) (length cs) (w.distinct id)
          (All-mono (subs id) (λ y o same. old_lt y o same) (w.live id)))
    | inr e ↦ rw e (w.distinct j)
  ];
  apart = λ i j ch m n. meet i j ch (split i ch m) (split j ch n);
  bounded = b;
}
  where
    fresh_open : IsOpen (cs ++ c ∷ []) (length cs)
    fresh_open = (c, get_elem?-snoc cs c, h)

    kept : (j : ℕ) → All (IsOpen (cs ++ c ∷ [])) (subs j)
    kept j = All-mono (subs j) (λ y o. (o.0, get_elem?-append_left cs _ y o.0 o.1, o.2)) (w.live j)

    old_lt : (y : ℕ) → IsOpen cs y → y ≢ length cs
    old_lt y o same = absurd (omega (arith, get_elem?-lt cs y o.0 o.1))

    -- A subscriber of the new wiring is an old one, or the new channel on its ticket.
    split :
        (j ch : ℕ)
        → Memᴰ ch (update subs id (subs id ++ length cs ∷ []) j)
        → Memᴰ ch (subs j) ⊎ ((ch ≡ length cs) × (id ≡ j))
    split j ch m = elim (Bool-cases (id == j)) [
      | inr e ↦ inl (subst (Memᴰ ch) (rw e) m)
      | inl e ↦ at_id e (mem-append (subs id) (length cs ∷ []) (subst (Memᴰ ch) (rw e) m))
    ]
      where
        at_id :
            (id == j) ≡ true
            → Memᴰ ch (subs id) ⊎ Memᴰ ch (length cs ∷ [])
            → Memᴰ ch (subs j) ⊎ ((ch ≡ length cs) × (id ≡ j))
        at_id e (inl k) = inl (subst (λ i. Memᴰ ch (subs i)) ((==_iff id j).0 e) k)
        at_id e (inr (head q)) = inr (q, (==_iff id j).0 e)
        at_id e (inr (tail k)) = elim k [ ]

    old_ne : (j ch : ℕ) → Memᴰ ch (subs j) → ch ≢ length cs
    old_ne j ch m = old_lt ch (All-mem (IsOpen cs) (subs j) (w.live j) m)

    meet :
        (i j ch : ℕ)
        → Memᴰ ch (subs i) ⊎ ((ch ≡ length cs) × (id ≡ i))
        → Memᴰ ch (subs j) ⊎ ((ch ≡ length cs) × (id ≡ j))
        → i ≡ j
    meet i j ch (inl m) (inl n) = w.apart i j ch m n
    meet i j ch (inl m) (inr n) = absurd (old_ne i ch m n.0)
    meet i j ch (inr m) (inl n) = absurd (old_ne j ch n m.0)
    meet i j ch (inr m) (inr n) = sym m.1 ∙ n.1

-- `without` takes one occurrence of the target out.
pub without-mem :
    (target : ℕ) (xs l : List ℕ)
    → without target xs ≡ some l
    → Memᴰ target xs × ((ch : ℕ) → Memᴰ ch l → Memᴰ ch xs)
unfolding without
without-mem target [] l e = cc
without-mem target (x ∷ xs) l e = elim (Bool-cases (x == target)) [
  | inl same ↦
      let eq : xs ≡ l = eq_of_some (subst (λ (o : Option (List ℕ)). o ≡ some l) (rw same) e) in
      (head (sym ((==_iff x target).0 same)), λ ch m. tail (subst (Memᴰ ch) (sym eq) m))
  | inr other ↦ elim (Option-cases (without target xs)) [
    | inl gone ↦ cc (rw (other, gone, without) at e)
    | inr (r, found) ↦
        let ih = without-mem target xs r found in
        let eq : x ∷ r ≡ l =
          eq_of_some (subst (λ (o : Option (List ℕ)). o ≡ some l) (rw (other, found, without)) e) in
        (tail ih.0, λ ch m. under x r ih.1 ch (subst (Memᴰ ch) (sym eq) m))
  ]
]
  where
    under :
        (x : ℕ) (r : List ℕ)
        → ((ch : ℕ) → Memᴰ ch r → Memᴰ ch xs)
        → (ch : ℕ) → Memᴰ ch (x ∷ r)
        → Memᴰ ch (x ∷ xs)
    under x r f ch (head q) = head q
    under x r f ch (tail m) = tail (f ch m)

-- From a list without repetition, the target is gone.
pub without-IsDistinct :
    (target : ℕ) (xs l : List ℕ)
    → without target xs ≡ some l
    → IsDistinct xs
    → IsDistinct l × All (λ y. y ≢ target) l
unfolding without
without-IsDistinct target [] l e d = cc
without-IsDistinct target (x ∷ xs) l e d = elim (Bool-cases (x == target)) [
  | inl same ↦
      let eq : xs ≡ l = eq_of_some (subst (λ (o : Option (List ℕ)). o ≡ some l) (rw same) e) in
      let hit = (==_iff x target).0 same in
      subst (λ (r : List ℕ). IsDistinct r × All (λ y. y ≢ target) r) eq
        (d.1, All-mono xs (λ y n q. n (hit ∙ sym q)) d.0)
  | inr other ↦ elim (Option-cases (without target xs)) [
    | inl gone ↦ cc (rw (other, gone, without) at e)
    | inr (r, found) ↦
        let ih = without-IsDistinct target xs r found d.1 in
        let sub = (without-mem target xs r found).1 in
        let eq : x ∷ r ≡ l =
          eq_of_some (subst (λ (o : Option (List ℕ)). o ≡ some l) (rw (other, found, without)) e) in
        subst (λ (r : List ℕ). IsDistinct r × All (λ y. y ≢ target) r) eq
          (
            (All-of_mem (λ y. x ≢ y) r (λ y m. All-mem (λ y. x ≢ y) xs d.0 (sub y m)), ih.0),
            ((λ q. cc (other, (==_iff x target).1 q)), ih.1),
          )
  ]
]
