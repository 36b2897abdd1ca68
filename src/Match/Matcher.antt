-- ===== src/Match/Matcher.antt =====
-- internal/domain/match/matcher.go, the second half: groups grown from a seed.
pub mod Groups
pub mod Selection
pub mod Solos
use vfx.Base.{
  ℕ, suc, ◌+◌, Bool, true, false, not, Option, none, some, List, [], ◌∷◌, ◌++◌, ltb, ◌==◌,
  if◌then◌else◌, length,
}
use vfx.Base.Int.{ℤ, pos, pos_part, neg_part, sub_ℕ, leb_ℤ, ltb_ℤ}
use vfx.Match.Platform.{Platform}
use vfx.Match.Ticket.{Ticket, compatible_with}
use vfx.Match.Units.{MatchUnit, Party, tickets, size, anchor, build_units}

-- `playersPerMatch` is an int, which the caller may give as 0 or less.
pub record MatchingPolicy (F : Type 0) : Type 0 where
  pub base_rating_window : F
  pub rating_window_growth_per_sec : F
  pub region_relax_after : ℤ

pub record Matcher (F : Type 0) : Type 0 where
  pub policy : MatchingPolicy F
  pub open policy use *
  pub players_per_match : ℕ

-- 15 seconds in nanoseconds
abbrev pub default_relax : ℕ
default_relax = 15_000_000_000

module _ (p : Platform) where
  open p use {F64, of_ℕ, add, mul, eq, seconds}

  abbrev pub default_matching_policy : MatchingPolicy F64
  default_matching_policy = record {
    base_rating_window = of_ℕ 100;
    rating_window_growth_per_sec = of_ℕ 50;
    region_relax_after = pos default_relax;
  }

  abbrev pub is_zero : ℤ → Bool
  is_zero d = pos_part d + neg_part d == 0

  unfoldable pub with_defaults : MatchingPolicy F64 → MatchingPolicy F64
  with_defaults q = record {
    base_rating_window =
        if eq q.base_rating_window (of_ℕ 0) then of_ℕ 100 else q.base_rating_window;
    rating_window_growth_per_sec =
        if eq q.rating_window_growth_per_sec (of_ℕ 0)
        then of_ℕ 50
        else q.rating_window_growth_per_sec;
    region_relax_after =
        if is_zero q.region_relax_after then pos default_relax else q.region_relax_after;
  }

  unfoldable pub new_matcher : ℤ → MatchingPolicy F64 → Matcher F64
  unfolding with_defaults
  new_matcher players_per_match policy = record {
    policy = with_defaults policy;
    players_per_match = if ltb_ℤ players_per_match (pos 1) then 2 else pos_part players_per_match;
  }

  unfoldable pub unit_compatible_with : List (Ticket F64) → Ticket F64 → F64 → Bool → Bool
  unit_compatible_with [] anchor window ignore_region = true
  unit_compatible_with (t ∷ ts) anchor window ignore_region =
      let rest = unit_compatible_with ts anchor window ignore_region in
      if not (compatible_with p anchor t window ignore_region) then false else rest

  -- The tier of a seed: its rating window and whether the region still counts.
  unfoldable pub waited : ℕ → MatchUnit F64 → ℤ
  unfolding anchor
  waited now seed = sub_ℕ now (anchor seed).enqueued_at

  unfoldable pub window : Matcher F64 → ℕ → MatchUnit F64 → F64
  unfolding waited
  window m now seed =
      add m.base_rating_window (mul m.rating_window_growth_per_sec (seconds (waited now seed)))

  unfoldable pub ignore_region : Matcher F64 → ℕ → MatchUnit F64 → Bool
  unfolding waited
  ignore_region m now seed = leb_ℤ m.region_relax_after (waited now seed)

  abbrev pub seed_fits : Matcher F64 → ℕ → MatchUnit F64 → List (Ticket F64) → Bool
  seed_fits m now seed ts =
      unit_compatible_with ts (anchor seed) (window m now seed) (ignore_region m now seed)

  -- The group after one unit has been considered; `fits` is its compatibility with the seed.
  abbrev pub consider :
      ℕ → (List (Ticket F64) → Bool) → List (Ticket F64) → MatchUnit F64 → List (Ticket F64)
  consider players fits group u =
      if ltb players (length group + size u)
      then group
      else if not (fits (tickets u))
      then group
      else group ++ tickets u

  -- The loop over the units: `j` is the index of the next unit, `seed_idx` that of the seed.
  unfoldable pub fill :
      ℕ
      → (List (Ticket F64) → Bool)
      → ℕ
      → ℕ
      → List (MatchUnit F64)
      → List (Ticket F64)
      → List (Ticket F64)
  fill players fits seed_idx j [] group = group
  fill players fits seed_idx j (u ∷ us) group =
      let skipped = fill players fits seed_idx (suc j) us group in
      let next = fill players fits seed_idx (suc j) us (consider players fits group u) in
      if j == seed_idx then skipped else if length group == players then group else next

  unfoldable pub group_from_seed :
      Matcher F64 → ℕ → List (MatchUnit F64) → ℕ → MatchUnit F64 → Option (List (Ticket F64))
  group_from_seed m now units seed_idx seed =
      let group = fill m.players_per_match (seed_fits m now seed) seed_idx 0 units (tickets seed) in
      if ltb m.players_per_match (size seed)
      then none
      else if not (length group == m.players_per_match)
      then none
      else some group

  -- The first seed, oldest first, from which a group can be formed; `i` is the next seed's index.
  unfoldable pub try_seeds :
      Matcher F64 → ℕ → List (MatchUnit F64) → ℕ → List (MatchUnit F64) → Option (List (Ticket F64))
  try_seeds m now units i [] = none
  try_seeds m now units i (u ∷ us) =
      let rest = try_seeds m now units (suc i) us in
      elim (group_from_seed m now units i u) [ none ↦ rest | some group ↦ some group ]

  unfoldable pub select_group :
      Matcher F64
      → (List (Party F64) → List (Party F64))
      → ℕ
      → List (Ticket F64)
      → Option (List (Ticket F64))
  select_group m order now pending =
      let units = build_units p order pending in try_seeds m now units 0 units
