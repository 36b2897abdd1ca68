-- ===== src/Match/Matcher/Solos.antt =====
-- groupFromSeed where nobody queues in a party.
use vfx.Base.{
  ℕ, suc, ◌+◌, ◌≤◌, ◌<◌, Bool, false, none, List, [], ◌∷◌, ◌++◌, ltb, ◌==◌, if◌then◌else◌, ◌≡◌, ◌↔◌,
  length, length-append, ap, arith, All, min, Bool-cases, inl, inr,
}
use vfx.Match.Platform.{Platform}
use vfx.Match.Ticket.{Ticket}
use vfx.Match.Units.{MatchUnit, tickets, size}
use vfx.Match.Matcher.{Matcher, seed_fits, fill, group_from_seed}

module _ (p : Platform) where
  open p use {F64}

  -- How many units, beside the one at index `s`, pass the test.
  abbrev pub count_fits : (List (Ticket F64) → Bool) → ℕ → ℕ → List (MatchUnit F64) → ℕ
  count_fits fits s j [] = 0
  count_fits fits s j (u ∷ us) =
      let rest = count_fits fits s (suc j) us in
      if j == s then rest else if fits (tickets u) then suc rest else rest

  abbrev pub IsSolos : List (MatchUnit F64) → Type 0
  IsSolos = All (λ (u : MatchUnit F64). u.others ≡ [])

  length-fill :
      (players : ℕ) (fits : List (Ticket F64) → Bool) (s j : ℕ) (us : List (MatchUnit F64))
      (group : List (Ticket F64))
      → IsSolos us
      → length group ≤ players
      → length (fill p players fits s j us group)
        ≡ min players (length group + count_fits fits s j us)
  unfolding fill
  length-fill players fits s j [] group h le = omega arith
  length-fill players fits s j (u ∷ us) group h le = elim (Bool-cases (j == s)) [
    | inl seed ↦ rw seed (length-fill players fits s (suc j) us group h.1 le)
    | inr other ↦ elim (Bool-cases (length group == players)) [
      | inl full ↦ rw (other, full) (ground arith)
      | inr room ↦ elim (Bool-cases (fits (tickets u))) [
        | inr bad ↦
            rw (other, room, under h.0 room, bad)
              (length-fill players fits s (suc j) us group h.1 le)
        | inl good ↦
            rw (other, room, under h.0 room, good)
              (grown h.0 room (length-fill players fits s (suc j) us (group ++ tickets u) h.1))
      ]
    ]
  ]
    where
      under :
          u.others ≡ []
          → (length group == players) ≡ false
          → ltb players (length group + size u) ≡ false
      under one room = let sized = ap length one in ground arith

      grown :
          u.others ≡ []
          → (length group == players) ≡ false
          → (length (group ++ tickets u) ≤ players
              → length (fill p players fits s (suc j) us (group ++ tickets u))
                ≡ min players (length (group ++ tickets u) + count_fits fits s (suc j) us))
          → length (fill p players fits s (suc j) us (group ++ tickets u))
            ≡ min players (length group + suc (count_fits fits s (suc j) us))
      grown one room ih =
          let sized = ap length one in
          let bigger = length-append group (tickets u) in
          let fits_in : length (group ++ tickets u) ≤ players = ground arith in
          omega (arith, ih fits_in)

  -- In a pool of solo tickets, a seed gets its group exactly when the other tickets in its tier are
  -- enough to fill the match: the greedy choice misses none.
  pub group_from_seed-solos :
      (m : Matcher F64) (now : ℕ) (units : List (MatchUnit F64)) (i : ℕ) (seed : MatchUnit F64)
      → IsSolos units
      → seed.others ≡ []
      → 1 ≤ m.players_per_match
      → (group_from_seed p m now units i seed ≡ none)
        ↔ (1 + count_fits (seed_fits p m now seed) i 0 units < m.players_per_match)
  unfolding group_from_seed
  group_from_seed-solos m now units i seed h one pos =
      let sized = ap length one in
      let filled =
        length-fill m.players_per_match (seed_fits p m now seed) i 0 units (tickets seed) h
          (omega arith) in
      (λ e. ground arith, λ lt. ground arith)
