-- ===== src/Match/Units/Ages.antt =====
-- Units stand oldest first: their order by the earliest ticket of each, in internal/domain/match/matcher.go.
use mathlib.Core.List.{filter_map, Memᴰ, Permᴰ}
use mathlib.Core.List.Memᴰ.{head, tail}
use vfx.Base.{
  ◌≤◌, ◌<◌, ltb, ◌==◌, ◌++◌, ◌⊎◌, Bool, true, false, List, [], ◌∷◌, some, ◌≡◌, inl, inr, refl, sym,
  subst, ap, ◌∙◌, arith, All, All-mem, All-mono, All-of_mem, Option-cases, eq_of_some,
  sort-IsSorted, IsSorted, if◌then◌else◌,
}
use vfx.Match.Platform.{Platform, IsIdOrder}
use vfx.Match.Ticket.{Ticket}
use vfx.Match.Units.{
  MatchUnit, Party, tickets, oldest_of, anchor, collect, earliest, unit_of, party_unit, unit_before,
  build_units, scan, empty_pool,
}
use vfx.Match.Units.Origin.{IsFromPool, build_units-IsFromPool}
use vfx.Match.Units.Order.{unit_before-IsOrder}

module _ {F : Type 0} where
  -- A ticket of the list than which none is older.
  abbrev pub IsOldest : Ticket F → List (Ticket F) → Type 0
  IsOldest a ts = Memᴰ a ts × All (λ (t : Ticket F). a.enqueued_at ≤ t.enqueued_at) ts

  oldest_of-IsOldest : (a : Ticket F) (ts : List (Ticket F)) → IsOldest (oldest_of a ts) (a ∷ ts)
  oldest_of-IsOldest a [] = (head refl, (omega arith, tt))
  oldest_of-IsOldest a (t ∷ ts) =
      widen (if ltb t.enqueued_at a.enqueued_at then t else a) (ltb t.enqueued_at a.enqueued_at)
        refl refl (λ b. oldest_of-IsOldest b ts)
    where
      included : {b x : Ticket F} → (b ≡ t) ⊎ (b ≡ a) → Memᴰ x (b ∷ ts) → Memᴰ x (a ∷ t ∷ ts)
      included (inl e) (head q) = tail (head (q ∙ e))
      included (inr e) (head q) = head (q ∙ e)
      included e (tail m) = tail (tail m)

      widen :
          (b : Ticket F) (younger : Bool)
          → ltb t.enqueued_at a.enqueued_at ≡ younger
          → b ≡ (if younger then t else a)
          → ((b : Ticket F) → IsOldest (oldest_of b ts) (b ∷ ts))
          → IsOldest (oldest_of b ts) (a ∷ t ∷ ts)
      widen b true y e ih =
          let h = ih b in
          let at = ap (λ (x : Ticket F). x.enqueued_at) e in
          (included (inl e) h.0, (ground (arith, y, at, h.1.0), (ground (arith, at, h.1.0), h.1.1)))
      widen b false y e ih =
          let h = ih b in
          let at = ap (λ (x : Ticket F). x.enqueued_at) e in
          (included (inr e) h.0, (ground (arith, at, h.1.0), (ground (arith, y, at, h.1.0), h.1.1)))

  pub anchor-IsOldest : (u : MatchUnit F) → IsOldest (anchor u) (tickets u)
  unfolding anchor
  anchor-IsOldest u = oldest_of-IsOldest u.first u.others

  earliest-oldest_of :
      (a : Ticket F) (ts : List (Ticket F))
      → 0 < a.enqueued_at
      → All (λ (t : Ticket F). 0 < t.enqueued_at) ts
      → earliest a.enqueued_at ts ≡ (oldest_of a ts).enqueued_at
  unfolding earliest
  earliest-oldest_of a [] set h = refl
  earliest-oldest_of a (t ∷ ts) set h =
      let known : (a.enqueued_at == 0) ≡ false = ground (arith, set) in
      let older = ltb t.enqueued_at a.enqueued_at in
      rw known (
        ap (λ n. earliest n ts) (time_of older)
        ∙ earliest-oldest_of (if older then t else a) ts (is_set older) h.1)
    where
      time_of :
          (b : Bool)
          → (if b then t.enqueued_at else a.enqueued_at) ≡ (if b then t else a).enqueued_at
      time_of true = refl
      time_of false = refl

      is_set : (b : Bool) → 0 < (if b then t else a).enqueued_at
      is_set true = h.0
      is_set false = set

  -- The time by which a unit is sorted is that of its oldest ticket.
  abbrev IsDated : MatchUnit F → Type 0
  IsDated u = u.seed_at ≡ (anchor u).enqueued_at

  unit_of-IsDated :
      (ts : List (Ticket F)) (u : MatchUnit F)
      → unit_of ts ≡ some u
      → All (λ (t : Ticket F). 0 < t.enqueued_at) (tickets u)
      → IsDated u
  unfolding anchor earliest
  unit_of-IsDated [] u e h = cc e
  unit_of-IsDated (t ∷ ts) u e h =
      let made : record { first = t; others = ts; seed_at = earliest 0 (t ∷ ts) } ≡ u =
        eq_of_some e in
      subst (λ v. All (λ (t : Ticket F). 0 < t.enqueued_at) (tickets v) → IsDated v) made
        (dated t ts) h
    where
      dated :
          (t : Ticket F) (ts : List (Ticket F))
          → All (λ (t : Ticket F). 0 < t.enqueued_at) (t ∷ ts)
          → earliest 0 (t ∷ ts) ≡ (oldest_of t ts).enqueued_at
      dated t ts h = earliest-oldest_of t ts h.0 h.1

  party_unit-IsDated :
      (q : Party F) (u : MatchUnit F)
      → party_unit q ≡ some u
      → All (λ (t : Ticket F). 0 < t.enqueued_at) (tickets u)
      → IsDated u
  unfolding party_unit
  party_unit-IsDated q u e h = elim (Option-cases (collect q.roster q.members)) [
    | inl n ↦ cc (rw (n, party_unit) at e)
    | inr (ts, y) ↦ unit_of-IsDated ts u (rw (y, party_unit) at e) h
  ]

  -- No unit has an oldest ticket older than that of one that stands before it.
  abbrev pub AreOldestFirst : List (MatchUnit F) → Type 0
  AreOldestFirst [] = Unit {0}
  AreOldestFirst (u ∷ us) =
      All (λ (v : MatchUnit F). (anchor u).enqueued_at ≤ (anchor v).enqueued_at) us
      × AreOldestFirst us

module _ (p : Platform) (ids : IsIdOrder p.id_before) where
  open p use {F64}

  unit_before-le : (u v : MatchUnit F64) → unit_before p v u ≡ false → u.seed_at ≤ v.seed_at
  unfolding unit_before
  unit_before-le u v h = ground (arith, h)

  IsSorted-AreOldestFirst :
      (us : List (MatchUnit F64)) → IsSorted (unit_before p) us → All IsDated us → AreOldestFirst us
  IsSorted-AreOldestFirst [] s h = tt
  IsSorted-AreOldestFirst (u ∷ us) s h = (
    All-of_mem _ us λ v m.
        subst (λ n. n ≤ (anchor v).enqueued_at) h.0
          (subst (λ n. u.seed_at ≤ n) (All-mem IsDated us h.1 m)
            (unit_before-le u v (All-mem _ us s.0 m))),
    IsSorted-AreOldestFirst us s.1 h.1,
  )

  from_pool-IsDated :
      (qs : List (Party F64)) (u : MatchUnit F64)
      → IsFromPool p (λ t. 0 < t.enqueued_at) qs u
      → IsDated u
  unfolding anchor
  from_pool-IsDated qs u (inl a) = subst IsDated (sym a.2) refl
  from_pool-IsDated qs u (inr (q, m, a)) =
      party_unit-IsDated q u a.0 (All-mono (tickets u) (λ t e. e.0) a.1)

  -- The units of a pool stand oldest first, when no ticket has the zero time.
  pub build_units-AreOldestFirst :
      (order : List (Party F64) → List (Party F64)) (pending : List (Ticket F64))
      → ((qs : List (Party F64)) → Permᴰ (order qs) qs)
      → All (λ (t : Ticket F64). 0 < t.enqueued_at) pending
      → AreOldestFirst (build_units p order pending)
  unfolding build_units
  build_units-AreOldestFirst order pending shuffles set =
      IsSorted-AreOldestFirst (build_units p order pending) sorted (
        All-of_mem _ (build_units p order pending) λ u m.
          from_pool-IsDated _ u
            (build_units-IsFromPool p (λ t. 0 < t.enqueued_at) order pending shuffles set u m))
    where
      sorted : IsSorted (unit_before p) (build_units p order pending)
      sorted = sort-IsSorted (unit_before p) (unit_before-IsOrder p ids) (
          (scan p empty_pool pending).units
          ++ filter_map party_unit (order (scan p empty_pool pending).parties))
