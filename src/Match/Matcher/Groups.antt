-- ===== src/Match/Matcher/Groups.antt =====
-- What a selected group is: a seed and compatible units, whole, and as many tickets as a match has.
use vfx.Base.{
  ℕ, suc, ◌+◌, Bool, true, none, some, List, [], ◌∷◌, ◌++◌, ltb, ◌==◌, ==_iff, ◌≡◌, ◌≢◌, inl, inr,
  refl, sym, ap, subst, length, append_assoc, append-nil, ◌∙◌, arith, All, All-append, Bool-cases,
  Option-cases,
}
use native.Mathlib.Nat.{add-zero}
use vfx.Match.Platform.{Platform}
use vfx.Match.Ticket.{Ticket, compatible_with}
use vfx.Match.Units.{MatchUnit, tickets, size, anchor}
use vfx.Match.Matcher.{
  Matcher, unit_compatible_with, seed_fits, window, ignore_region, fill, group_from_seed, try_seeds,
}

module _ (p : Platform) where
  open p use {F64}

  abbrev pub flat : List (MatchUnit F64) → List (Ticket F64)
  flat [] = []
  flat (u ∷ us) = tickets u ++ flat us

  -- `cs` are some of the units that stand at index `j` and after, in their order; none of them is
  -- the unit at index `s`, and each passes the test.
  pub data Chosen (fits : List (Ticket F64) → Bool) (s : ℕ)
      : ℕ → List (MatchUnit F64) → List (MatchUnit F64) → Type 0 where
    stop : {j : ℕ} {us : List (MatchUnit F64)} → Chosen fits s j us []
    skip :
        {j : ℕ} {u : MatchUnit F64} {us cs : List (MatchUnit F64)}
        → Chosen fits s (suc j) us cs
        → Chosen fits s j (u ∷ us) cs
    choose :
        {j : ℕ} {u : MatchUnit F64} {us cs : List (MatchUnit F64)}
        → j ≢ s
        → fits (tickets u) ≡ true
        → Chosen fits s (suc j) us cs
        → Chosen fits s j (u ∷ us) (u ∷ cs)

  abbrev Filled :
      ℕ
      → (List (Ticket F64) → Bool)
      → ℕ
      → ℕ
      → List (MatchUnit F64)
      → List (Ticket F64)
      → List (Ticket F64)
      → Type 0
  Filled players fits s j us group out =
      (cs : List (MatchUnit F64)) × Chosen fits s j us cs × (out ≡ group ++ flat cs)

  module _ (players : ℕ) (fits : List (Ticket F64) → Bool) (s : ℕ) where
    fill-Chosen :
        (j : ℕ) (us : List (MatchUnit F64)) (group : List (Ticket F64))
        → Filled players fits s j us group (fill p players fits s j us group)
    unfolding fill
    fill-Chosen j [] group = ([], stop, sym (append-nil group))
    fill-Chosen j (u ∷ us) group = elim (Bool-cases (j == s)) [
      | inl seed ↦ let (cs, ch, e) = fill-Chosen (suc j) us group in (cs, skip ch, rw seed e)
      | inr other ↦ elim (Bool-cases (length group == players)) [
        | inl full ↦ ([], stop, rw (other, full) (sym (append-nil group)))
        | inr room ↦ elim (Bool-cases (ltb players (length group + size u))) [
          | inl over ↦
              let (cs, ch, e) = fill-Chosen (suc j) us group in
              (cs, skip ch, rw (other, room, over) e)
          | inr under ↦ elim (Bool-cases (fits (tickets u))) [
            | inr bad ↦
                let (cs, ch, e) = fill-Chosen (suc j) us group in
                (cs, skip ch, rw (other, room, under, bad) e)
            | inl good ↦
                let (cs, ch, e) = fill-Chosen (suc j) us (group ++ tickets u) in
                (
                  u ∷ cs,
                  choose (λ same. cc (other, (==_iff j s).1 same)) good ch,
                  rw (other, room, under, good) (e ∙ append_assoc group (tickets u) (flat cs)),
                )
          ]
        ]
      ]
    ]

  unit_compatible_with-All :
      (ts : List (Ticket F64)) (a : Ticket F64) (w : F64) (r : Bool)
      → unit_compatible_with p ts a w r ≡ true
      → All (λ (t : Ticket F64). compatible_with p a t w r ≡ true) ts
  unfolding unit_compatible_with
  unit_compatible_with-All [] a w r h = tt
  unit_compatible_with-All (t ∷ ts) a w r h = ground (arith, unit_compatible_with-All ts a w r)

  -- Every ticket beside the seed's is in the seed's tier.
  abbrev pub InTier : Matcher F64 → ℕ → MatchUnit F64 → Ticket F64 → Type 0
  InTier m now seed t =
      compatible_with p (anchor seed) t (window p m now seed) (ignore_region p m now seed) ≡ true

  module _ (m : Matcher F64) (now : ℕ) where
    Chosen-InTier :
        (seed : MatchUnit F64) {s j : ℕ} {us cs : List (MatchUnit F64)}
        → Chosen (seed_fits p m now seed) s j us cs
        → All (InTier m now seed) (flat cs)
    Chosen-InTier seed stop = tt
    Chosen-InTier seed (skip ch) = Chosen-InTier seed ch
    Chosen-InTier seed (choose {u = u} {cs = cs} n f ch) =
        All-append (InTier m now seed) (tickets u) (flat cs)
          (unit_compatible_with-All (tickets u) (anchor seed) _ _ f) (Chosen-InTier seed ch)

    -- A group grown from the seed at one index: the seed whole, then compatible units, each whole,
    -- to exactly the size of a match.
    pub record IsGroup (units : List (MatchUnit F64)) (i : ℕ) (seed : MatchUnit F64)
        (group : List (Ticket F64)) : Type 0 where
      pub chosen : List (MatchUnit F64)
      pub picks : Chosen (seed_fits p m now seed) i 0 units chosen
      pub whole : group ≡ tickets seed ++ flat chosen
      pub tier : All (InTier m now seed) (flat chosen)
      pub full : length group ≡ m.players_per_match

    group_from_seed-IsGroup :
        (units : List (MatchUnit F64)) (i : ℕ) (seed : MatchUnit F64) (group : List (Ticket F64))
        → group_from_seed p m now units i seed ≡ some group
        → IsGroup units i seed group
    unfolding group_from_seed
    group_from_seed-IsGroup units i seed group e =
        let out = fill p m.players_per_match (seed_fits p m now seed) i 0 units (tickets seed) in
        let (cs, ch, whole) =
          fill-Chosen m.players_per_match (seed_fits p m now seed) i 0 units (tickets seed) in
        let same : out ≡ group = ground arith in
        record {
          chosen = cs;
          picks = ch;
          whole = sym same ∙ whole;
          tier = Chosen-InTier seed ch;
          full = ground arith;
        }

    -- No unit of a list, which begins at an index, can seed a group.
    abbrev pub AllFail : List (MatchUnit F64) → ℕ → List (MatchUnit F64) → Type 0
    AllFail units i [] = Unit
    AllFail units i (u ∷ us) = (group_from_seed p m now units i u ≡ none) × AllFail units (suc i) us

    -- The group of the first unit that can seed one.
    pub record IsFirstGroup (units : List (MatchUnit F64)) (i : ℕ) (us : List (MatchUnit F64))
        (group : List (Ticket F64)) : Type 0 where
      pub before : List (MatchUnit F64)
      pub seed : MatchUnit F64
      pub after : List (MatchUnit F64)
      pub split : us ≡ before ++ seed ∷ after
      pub failed : AllFail units i before
      pub grown : IsGroup units (i + length before) seed group

    pub try_seeds-IsFirstGroup :
        (units : List (MatchUnit F64)) (i : ℕ) (us : List (MatchUnit F64))
        (group : List (Ticket F64))
        → try_seeds p m now units i us ≡ some group
        → IsFirstGroup units i us group
    unfolding try_seeds
    try_seeds-IsFirstGroup units i [] group e = cc
    try_seeds-IsFirstGroup units i (u ∷ us) group e =
        elim (Option-cases (group_from_seed p m now units i u)) [
          | inl fails ↦
              later fails
                (try_seeds-IsFirstGroup units (suc i) us group (rw (fails, try_seeds) at e))
          | inr (g, made) ↦ record {
            before = [];
            seed = u;
            after = us;
            split = refl;
            failed = tt;
            grown =
                rw add-zero
                  (group_from_seed-IsGroup units i u group (made ∙ (rw (made, try_seeds) at e)));
          }
        ]
      where
        later :
            group_from_seed p m now units i u ≡ none
            → IsFirstGroup units (suc i) us group
            → IsFirstGroup units i (u ∷ us) group
        later fails r = record {
          before = u ∷ r.before;
          seed = r.seed;
          after = r.after;
          split = ap (λ l. u ∷ l) r.split;
          failed = (fails, r.failed);
          grown = subst (λ k. IsGroup units k r.seed group) (omega arith) r.grown;
        }

    pub try_seeds-none :
        (units : List (MatchUnit F64)) (i : ℕ) (us : List (MatchUnit F64))
        → try_seeds p m now units i us ≡ none
        → AllFail units i us
    unfolding try_seeds
    try_seeds-none units i [] e = tt
    try_seeds-none units i (u ∷ us) e = ground (arith, try_seeds-none units (suc i) us)
