-- ===== src/Match/Matcher/Selection.antt =====
-- What SelectGroup returns, over the whole pool.
use mathlib.Core.List.{Memᴰ, Permᴰ}
use mathlib.Core.List.Memᴰ.{head}
use vfx.Base.{
  ℕ, suc, ◌+◌, ◌<◌, List, [], ◌∷◌, none, some, ◌≡◌, ◌↔◌, inl, inr, refl, subst, sym, All,
  All-append, All-mem, All-of_mem, All-mono, mem-append_right, length, Bool,
}
use vfx.Match.Platform.{Platform, IsIdOrder}
use vfx.Match.Ticket.{Ticket}
use vfx.Match.Units.{MatchUnit, Party, tickets, anchor, build_units}
use vfx.Match.Units.Ages.{IsOldest, AreOldestFirst, anchor-IsOldest, build_units-AreOldestFirst}
use vfx.Match.Units.Origin.{IsFromPool, build_units-IsFromPool}
use vfx.Match.Matcher.{Matcher, try_seeds, select_group}
use vfx.Match.Matcher.Groups.{
  flat, Chosen, stop, skip, choose, IsGroup, AllFail, IsFirstGroup, try_seeds-IsFirstGroup,
  try_seeds-none,
}

module _ (p : Platform) (m : Matcher p.F64) (order : List (Party p.F64) → List (Party p.F64)) where
  open p use {F64, id_before}

  pub select_group-IsFirstGroup :
      (now : ℕ) (pending : List (Ticket F64)) (group : List (Ticket F64))
      → select_group p m order now pending ≡ some group
      → IsFirstGroup p m now (build_units p order pending) 0 (build_units p order pending) group
  unfolding select_group
  select_group-IsFirstGroup now pending group e =
      try_seeds-IsFirstGroup p m now (build_units p order pending) 0 (build_units p order pending)
        group e

  -- SelectGroup returns the group of the first unit from which one can be grown: that unit whole, then
  -- whole units compatible with the anchor of the first, in all exactly as many tickets as a match has
  -- players. The anchor of a unit is one of its tickets, and none of them is older; the units stand in
  -- the order of their anchors, oldest first, if no pending ticket has the zero time and the texts of
  -- ids are totally ordered.
  pub select_group-AreOldestFirst :
      (now : ℕ) (pending : List (Ticket F64)) (group : List (Ticket F64))
      → IsIdOrder id_before
      → ((qs : List (Party F64)) → Permᴰ (order qs) qs)
      → All (λ (t : Ticket F64). 0 < t.enqueued_at) pending
      → select_group p m order now pending ≡ some group
      → IsFirstGroup p m now (build_units p order pending) 0 (build_units p order pending) group
        × AreOldestFirst (build_units p order pending)
        × ((u : MatchUnit F64) → IsOldest (anchor u) (tickets u))
  select_group-AreOldestFirst now pending group ids shuffles set e = (
    select_group-IsFirstGroup now pending group e,
    build_units-AreOldestFirst p ids order pending shuffles set,
    anchor-IsOldest,
  )

  try_seeds-AllFail :
      (now : ℕ) (units : List (MatchUnit F64)) (i : ℕ) (us : List (MatchUnit F64))
      → AllFail p m now units i us
      → try_seeds p m now units i us ≡ none
  unfolding try_seeds
  try_seeds-AllFail now units i [] h = refl
  try_seeds-AllFail now units i (u ∷ us) h =
      rw (h.0, try_seeds) (try_seeds-AllFail now units (suc i) us h.1)

  -- SelectGroup returns no group exactly when no unit of the pool can seed one.
  pub select_group-none :
      (now : ℕ) (pending : List (Ticket F64))
      → (select_group p m order now pending ≡ none)
        ↔ AllFail p m now (build_units p order pending) 0 (build_units p order pending)
  unfolding select_group
  select_group-none now pending = (
    λ e. try_seeds-none p m now (build_units p order pending) 0 (build_units p order pending) e,
    λ h. try_seeds-AllFail now (build_units p order pending) 0 (build_units p order pending) h,
  )

  Chosen-All :
      (P : Ticket F64 → Type 0) (fits : List (Ticket F64) → Bool) {s j : ℕ}
      {us cs : List (MatchUnit F64)}
      → Chosen p fits s j us cs
      → All (λ (u : MatchUnit F64). All P (tickets u)) us
      → All P (flat p cs)
  Chosen-All P fits stop h = tt
  Chosen-All P fits (skip ch) h = Chosen-All P fits ch h.1
  Chosen-All P fits (choose {u = u} {cs = cs} n f ch) h =
      All-append P (tickets u) (flat p cs) h.0 (Chosen-All P fits ch h.1)

  unit-All :
      (P : Ticket F64 → Type 0) (qs : List (Party F64)) (u : MatchUnit F64)
      → IsFromPool p P qs u
      → All P (tickets u)
  unit-All P qs u (inl s) = subst (λ (v : MatchUnit F64). All P (tickets v)) (sym s.2) (s.0, tt)
  unit-All P qs u (inr (q, k, f)) = All-mono (tickets u) (λ t e. e.0) f.1

  -- Whatever holds of every pending ticket holds of every ticket of the group.
  pub select_group-All :
      (P : Ticket F64 → Type 0) (now : ℕ) (pending : List (Ticket F64)) (group : List (Ticket F64))
      → ((qs : List (Party F64)) → Permᴰ (order qs) qs)
      → All P pending
      → select_group p m order now pending ≡ some group
      → All P group
  select_group-All P now pending group shuffles h e = subst (All P) (sym made.whole) (
      All-append P (tickets first.seed) (flat p made.chosen)
        (All-mem (λ (u : MatchUnit F64). All P (tickets u)) units all
          (subst (Memᴰ first.seed) (sym first.split) (mem-append_right first.before _ (head refl))))
        (Chosen-All P _ made.picks all))
    where
      units : List (MatchUnit F64)
      units = build_units p order pending

      first : IsFirstGroup p m now units 0 units group
      first = select_group-IsFirstGroup now pending group e

      made : IsGroup p m now units (0 + length first.before) first.seed group
      made = first.grown

      all : All (λ (u : MatchUnit F64). All P (tickets u)) units
      all =
          All-of_mem _ units
            (λ u k. unit-All P _ u (build_units-IsFromPool p P order pending shuffles h u k))
