-- ===== src/Match/Tests.antt =====
-- A sample platform and pool, tests of the matcher, and its theorems at them.
use mathlib.Core.List.{Memᴰ, filter_map, reverse}
use mathlib.Core.List.Memᴰ.{head, tail}
use mathlib.Core.List.Permᴰ
use vfx.Base.{
  ℕ, ◌-◌, ◌/◌, ◌*◌, ◌+◌, ◌<◌, ◌≤◌, List, [], ◌∷◌, none, some, ◌≡◌, ◌↔◌, ◌⊎◌, refl, sym, ap, ◌∙◌,
  arith, ltb, ◌==◌, if◌then◌else◌, length, All,
}
use vfx.Base.Int.{pos, pos_part}
use vfx.Match.Platform.{Platform, IsIdOrder}
use vfx.Match.Ticket.{Ticket, is_party, party_key, normalize_party, compatible_with}
use vfx.Match.Ticket.Roster.{IsIncreasing, normalize_party-members, normalize_party-canonical}
use vfx.Match.Units.{
  Party, MatchUnit, build_units, scan, scan_ticket, add_member, keep_oldest, party_unit,
  unit_before, anchor, tickets,
}
use vfx.Match.Units.Ages.{IsOldest, AreOldestFirst}
use vfx.Match.Units.Order.{build_units-order}
use vfx.Match.Matcher.{
  Matcher, select_group, group_from_seed, seed_fits, try_seeds, fill, unit_compatible_with, window,
  ignore_region, waited,
}
use vfx.Match.Matcher.Groups.{IsFirstGroup, AllFail}
use vfx.Match.Matcher.Selection.{select_group-AreOldestFirst, select_group-none, select_group-All}
use vfx.Match.Matcher.Solos.{count_fits, group_from_seed-solos}

-- Ratings in whole points; a difference is taken as its size.
abbrev pub whole_points : Platform
whole_points = record {
  F64 = ℕ;
  of_ℕ = λ n. n;
  add = λ a b. a + b;
  sub = λ a b. if ltb a b then b - a else a - b;
  mul = λ a b. a * b;
  abs = λ a. a;
  gt = λ a b. ltb b a;
  eq = λ a b. a == b;
  seconds = λ d. pos_part d / 1_000_000_000;
  id_before = ltb;
}

ltb-IsIdOrder : IsIdOrder ltb
ltb-IsIdOrder = record {
  irrefl = λ a. ground arith;
  trans = λ a b c h k. ground arith;
  total = λ a b. ground arith;
}

abbrev ticket : ℕ → ℕ → ℕ → List ℕ → ℕ → Ticket ℕ
ticket id player rating party at = record {
  id = id;
  player_id = player;
  game_mode = "ranked";
  rating = some rating;
  region = none;
  party_members = party;
  attributes = [];
  enqueued_at = at;
}

-- A lone expert who waits longest, a party of two, and two lone players.
abbrev expert : Ticket ℕ
expert = ticket 1 11 2000 [] 10

abbrev left : Ticket ℕ
left = ticket 2 12 1000 (12 ∷ 13 ∷ []) 20

abbrev right : Ticket ℕ
right = ticket 3 13 1040 (12 ∷ 13 ∷ []) 25

abbrev first_solo : Ticket ℕ
first_solo = ticket 4 14 1050 [] 30

abbrev second_solo : Ticket ℕ
second_solo = ticket 5 15 1060 [] 40

abbrev pool : List (Ticket ℕ)
pool = expert ∷ left ∷ first_solo ∷ right ∷ second_solo ∷ []

abbrev threes : Matcher ℕ
threes = record {
  policy = record {
    base_rating_window = 100;
    rating_window_growth_per_sec = 50;
    region_relax_after = pos 15_000_000_000;
  };
  players_per_match = 3;
}

abbrev in_order : List (Party ℕ) → List (Party ℕ)
in_order qs = qs

-- The expert is passed over; the party is placed whole with the first player who fits.
select_group-pool :
    select_group whole_points threes in_order 50 pool ≡ some (left ∷ right ∷ first_solo ∷ [])
unfolding select_group build_units scan scan_ticket add_member keep_oldest party_key is_party
    party_unit unit_before try_seeds group_from_seed fill unit_compatible_with compatible_with
    window ignore_region waited anchor filter_map
select_group-pool = refl

select_group-AreOldestFirst_example :
    IsFirstGroup whole_points threes 50
      (build_units whole_points in_order pool)
      0
      (build_units whole_points in_order pool)
      (left ∷ right ∷ first_solo ∷ [])
    × AreOldestFirst (build_units whole_points in_order pool)
    × ((u : MatchUnit ℕ) → IsOldest (anchor u) (tickets u))
select_group-AreOldestFirst_example =
    select_group-AreOldestFirst whole_points threes in_order 50 pool
      (left ∷ right ∷ first_solo ∷ []) ltb-IsIdOrder (λ qs. Permᴰ.refl qs) (omega arith)
      select_group-pool

select_group-none_example :
    (select_group whole_points threes in_order 50 (expert ∷ left ∷ []) ≡ none)
    ↔ AllFail whole_points threes 50
        (build_units whole_points in_order (expert ∷ left ∷ []))
        0
        (build_units whole_points in_order (expert ∷ left ∷ []))
select_group-none_example = select_group-none whole_points threes in_order 50 (expert ∷ left ∷ [])

select_group-All_example :
    All (λ (t : Ticket ℕ). t.enqueued_at < 41) (left ∷ right ∷ first_solo ∷ [])
select_group-All_example =
    select_group-All whole_points threes in_order (λ (t : Ticket ℕ). t.enqueued_at < 41) 50 pool
      (left ∷ right ∷ first_solo ∷ []) (λ qs. Permᴰ.refl qs) (omega arith) select_group-pool

abbrev solos : List (MatchUnit ℕ)
solos =
    record { first = expert; others = []; seed_at = 10 }
    ∷ record { first = first_solo; others = []; seed_at = 30 }
    ∷ record { first = second_solo; others = []; seed_at = 40 }
    ∷ []

group_from_seed-solos_example :
    (group_from_seed whole_points threes 50 solos 1
        (record { first = first_solo; others = []; seed_at = 30 })
      ≡ none)
    ↔ (1
          + count_fits whole_points
              (seed_fits whole_points threes 50
                (record { first = first_solo; others = []; seed_at = 30 }))
              1
              0
              solos
        < 3)
group_from_seed-solos_example =
    group_from_seed-solos whole_points threes 50 solos 1
      (record { first = first_solo; others = []; seed_at = 30 }) (refl, (refl, (refl, tt))) refl
      (omega arith)

one_ticket :
    (t s : Ticket ℕ) → Memᴰ t (left ∷ right ∷ []) → Memᴰ s (left ∷ right ∷ []) → t.id ≡ s.id → t ≡ s
one_ticket t s (head a) (head b) e = a ∙ sym b
one_ticket t s (head a) (tail (head b)) e =
    absurd (omega (arith, ap (λ (x : Ticket ℕ). x.id) a, ap (λ (x : Ticket ℕ). x.id) b))
one_ticket t s (tail (head a)) (head b) e =
    absurd (omega (arith, ap (λ (x : Ticket ℕ). x.id) a, ap (λ (x : Ticket ℕ). x.id) b))
one_ticket t s (tail (head a)) (tail (head b)) e = a ∙ sym b
one_ticket t s (tail (tail m)) n e = elim m [ ]
one_ticket t s (head a) (tail (tail n)) e = elim n [ ]
one_ticket t s (tail (head a)) (tail (tail n)) e = elim n [ ]

build_units-order_example :
    build_units whole_points in_order (left ∷ right ∷ [])
    ≡ build_units whole_points reverse (left ∷ right ∷ [])
build_units-order_example =
    build_units-order whole_points ltb-IsIdOrder in_order reverse (left ∷ right ∷ [])
      (λ qs. Permᴰ.refl qs) (λ qs. Permᴰ.reverse qs) one_ticket

normalize_party-members_example :
    let roster = normalize_party whole_points (λ ids. ids) 3 (1 ∷ 3 ∷ 1 ∷ []) in
    ((roster ≡ []) × ((a : ℕ) → Memᴰ a (1 ∷ 3 ∷ 1 ∷ []) → a ≡ 3))
    ⊎ ((2 ≤ length roster)
        × IsIncreasing whole_points roster
        × ((a : ℕ) → Memᴰ a roster ↔ Memᴰ a (3 ∷ 1 ∷ 3 ∷ 1 ∷ [])))
normalize_party-members_example =
    normalize_party-members whole_points ltb-IsIdOrder (λ ids. ids) (λ ids. Permᴰ.refl ids) 3
      (1 ∷ 3 ∷ 1 ∷ [])

-- Players 1 and 3 form a party; player 3 also lists itself, and player 1 names 3 twice.
normalize_party-canonical_example :
    normalize_party whole_points (λ ids. ids) 3 (1 ∷ 3 ∷ [])
    ≡ normalize_party whole_points (λ ids. ids) 1 (3 ∷ 3 ∷ [])
normalize_party-canonical_example =
    normalize_party-canonical whole_points ltb-IsIdOrder (λ ids. ids) (λ ids. ids)
      (λ ids. Permᴰ.refl ids) (λ ids. Permᴰ.refl ids) 3 1 (1 ∷ 3 ∷ []) (3 ∷ 3 ∷ []) there back
  where
    there : (a : ℕ) → Memᴰ a (3 ∷ 1 ∷ 3 ∷ []) → Memᴰ a (1 ∷ 3 ∷ 3 ∷ [])
    there a (head e) = tail (head e)
    there a (tail (head e)) = head e
    there a (tail (tail (head e))) = tail (head e)
    there a (tail (tail (tail m))) = elim m [ ]

    back : (a : ℕ) → Memᴰ a (1 ∷ 3 ∷ 3 ∷ []) → Memᴰ a (3 ∷ 1 ∷ 3 ∷ [])
    back a (head e) = tail (head e)
    back a (tail (head e)) = head e
    back a (tail (tail (head e))) = head e
    back a (tail (tail (tail m))) = elim m [ ]
