-- ===== src/Match/Units/Origin.antt =====
-- Where the tickets of a unit come from, and that a ticket belongs to one unit only.
use mathlib.Core.List.{filter_map, Memᴰ, Permᴰ}
use mathlib.Core.List.Memᴰ.{head, tail}
use vfx.Base.{
  ℕ, eq_of_some, true, false, some, List, [], ◌∷◌, ◌==◌, ==_iff, sort-perm, ◌≡◌, ◌⊎◌, inl, inr,
  refl, sym, ap, subst, ◌∙◌, arith, All, All-append, All-mem, Bool-cases, Option-cases, mem-perm,
  mem-append,
}
use vfx.Match.Platform.{Platform}
use vfx.Match.Ticket.{Ticket, is_party, party_key}
use vfx.Match.Units.{
  MatchUnit, Party, Pool, tickets, solo, ids_eq, keep_oldest, find_member, collect, earliest,
  unit_of, party_unit, add_member, scan_ticket, scan, unit_before, empty_pool, build_units,
}

pub ids_eq→eq : (xs ys : List ℕ) → ids_eq xs ys ≡ true → xs ≡ ys
ids_eq→eq [] [] h = refl
ids_eq→eq [] (y ∷ ys) h = cc
ids_eq→eq (x ∷ xs) [] h = cc
ids_eq→eq (x ∷ xs) (y ∷ ys) h = ground (arith, ids_eq→eq xs ys)

pub ids_eq_refl : (xs : List ℕ) → ids_eq xs xs ≡ true
ids_eq_refl [] = refl
ids_eq_refl (x ∷ xs) = ground (arith, ids_eq_refl xs)

module _ (p : Platform) (P : Ticket p.F64 → Type 0) where
  open p use {F64}

  -- An entry of a party: the ticket of that player, with the party's key.
  abbrev pub IsEntry : List ℕ → ℕ × Ticket F64 → Type 0
  IsEntry key e = P e.1 × (e.1.player_id ≡ e.0) × (is_party e.1 ≡ true) × (party_key p e.1 ≡ key)

  abbrev pub IsSolo : MatchUnit F64 → Type 0
  IsSolo u = P u.first × (is_party u.first ≡ false) × (u ≡ solo u.first)

  abbrev pub HasEntries : Party F64 → Type 0
  HasEntries q = All (IsEntry q.key) q.members

  keep_oldest-All :
      (key : List ℕ) (t : Ticket F64) (ms : List (ℕ × Ticket F64))
      → IsEntry key (t.player_id, t)
      → All (IsEntry key) ms
      → All (IsEntry key) (keep_oldest t ms)
  unfolding keep_oldest
  keep_oldest-All key t [] e h = (e, tt)
  keep_oldest-All key t ((id, cur) ∷ ms) e h = ground (arith, keep_oldest-All key t ms e h.1)

  add_member-All :
      (key : List ℕ) (t : Ticket F64) (qs : List (Party F64))
      → IsEntry key (t.player_id, t)
      → All HasEntries qs
      → All HasEntries (add_member p key t qs)
  unfolding add_member
  add_member-All key t [] e h = (keep_oldest-All key t [] e tt, tt)
  add_member-All key t (q ∷ qs) e h = elim (Bool-cases (ids_eq q.key key)) [
    | inl same ↦ rw same (
      keep_oldest-All q.key t q.members
          (subst (λ k. IsEntry k (t.player_id, t)) (sym (ids_eq→eq q.key key same)) e) h.0,
      h.1,
    )
    | inr other ↦ rw other (h.0, add_member-All key t qs e h.1)
  ]

  record IsOriginal (pool : Pool F64) : Type 0 where
    solos : All IsSolo pool.units
    entries : All HasEntries pool.parties

  scan_ticket-IsOriginal :
      (pool : Pool F64) (t : Ticket F64) → P t → IsOriginal pool → IsOriginal (scan_ticket p pool t)
  unfolding scan_ticket
  scan_ticket-IsOriginal pool t h o = elim (Bool-cases (is_party t)) [
    | inl party ↦ rw party (record {
      solos = o.solos;
      entries = add_member-All (party_key p t) t pool.parties (h, refl, party, refl) o.entries;
    })
    | inr alone ↦ rw alone (record {
      solos = All-append IsSolo pool.units _ o.solos ((h, alone, refl), tt);
      entries = o.entries;
    })
  ]

  scan-IsOriginal :
      (pool : Pool F64) (ts : List (Ticket F64))
      → All P ts
      → IsOriginal pool
      → IsOriginal (scan p pool ts)
  unfolding scan
  scan-IsOriginal pool [] h o = o
  scan-IsOriginal pool (t ∷ ts) h o =
      scan-IsOriginal (scan_ticket p pool t) ts h.1 (scan_ticket-IsOriginal pool t h.0 o)

  find_member-IsEntry :
      (key : List ℕ) (x : ℕ) (ms : List (ℕ × Ticket F64)) (t : Ticket F64)
      → All (IsEntry key) ms
      → find_member x ms ≡ some t
      → IsEntry key (x, t)
  unfolding find_member
  find_member-IsEntry key x [] t h e = cc
  find_member-IsEntry key x ((id, cur) ∷ ms) t h e = elim (Bool-cases (id == x)) [
    | inl same ↦
        subst (λ s. IsEntry key (x, s)) (eq_of_some (rw same at e))
          (subst (λ i. IsEntry key (i, cur)) ((==_iff id x).0 same) h.0)
    | inr other ↦ find_member-IsEntry key x ms t h.1 (rw other at e)
  ]

  -- What a party's ticket satisfies.
  abbrev pub IsMember : List ℕ → Ticket F64 → Type 0
  IsMember key t = P t × (is_party t ≡ true) × (party_key p t ≡ key)

  collect-All :
      (key roster : List ℕ) (ms : List (ℕ × Ticket F64)) (ts : List (Ticket F64))
      → All (IsEntry key) ms
      → collect roster ms ≡ some ts
      → All (IsMember key) ts
  unfolding collect
  collect-All key [] ms ts h e = subst (All (IsMember key)) (eq_of_some e) tt
  collect-All key (id ∷ ids) ms ts h e = elim (Option-cases (find_member id ms)) [
    | inl missing ↦ cc (rw (missing, collect) at e)
    | inr (t, found) ↦ elim (Option-cases (collect ids ms)) [
      | inl short ↦ cc (rw (found, short, collect) at e)
      | inr (rest, all) ↦
          let entry = find_member-IsEntry key id ms t h found in
          subst (All (IsMember key)) (eq_of_some (rw (found, all, collect) at e))
            ((entry.0, entry.2, entry.3), collect-All key ids ms rest h all)
    ]
  ]

  -- A unit made from a party holds tickets of that party only.
  abbrev pub IsFrom : Party F64 → MatchUnit F64 → Type 0
  IsFrom q u = (party_unit q ≡ some u) × All (IsMember q.key) (tickets u)

  unit_of-tickets :
      (ts : List (Ticket F64)) (u : MatchUnit F64) → unit_of ts ≡ some u → tickets u ≡ ts
  unfolding earliest
  unit_of-tickets [] u e = cc
  unit_of-tickets (t ∷ ts) u e = ap tickets (sym (eq_of_some e))

  party_unit-IsFrom :
      (q : Party F64) (u : MatchUnit F64) → HasEntries q → party_unit q ≡ some u → IsFrom q u
  unfolding party_unit
  party_unit-IsFrom q u h e = elim (Option-cases (collect q.roster q.members)) [
    | inl short ↦ cc (rw (short, party_unit) at e)
    | inr (ts, all) ↦ (
      e,
      subst (All (IsMember q.key)) (sym (unit_of-tickets ts u (rw (all, party_unit) at e)))
          (collect-All q.key q.roster q.members ts h all),
    )
  ]

  -- Where each unit of the pool comes from: a ticket that queues alone, or one of the parties.
  abbrev pub IsFromPool : List (Party F64) → MatchUnit F64 → Type 0
  IsFromPool qs u = IsSolo u ⊎ ((q : Party F64) × Memᴰ q qs × IsFrom q u)

  mem-filter_map :
      (u : MatchUnit F64) (qs : List (Party F64))
      → Memᴰ u (filter_map party_unit qs)
      → (q : Party F64) × Memᴰ q qs × (party_unit q ≡ some u)
  unfolding filter_map
  mem-filter_map u [] m = elim m [ ]
  mem-filter_map u (q ∷ qs) m = elim (Option-cases (party_unit q)) [
    | inl e ↦ later (mem-filter_map u qs (subst (Memᴰ u) (rw e) m))
    | inr (v, e) ↦ now v e (subst (Memᴰ u) (rw e) m) (mem-filter_map u qs)
  ]
    where
      Found : List (Party F64) → Type 0
      Found rs = (q : Party F64) × Memᴰ q rs × (party_unit q ≡ some u)

      later : Found qs → Found (q ∷ qs)
      later (r, k, f) = (r, tail k, f)

      now :
          (v : MatchUnit F64)
          → party_unit q ≡ some v
          → Memᴰ u (v ∷ filter_map party_unit qs)
          → (Memᴰ u (filter_map party_unit qs) → Found qs)
          → Found (q ∷ qs)
      now v e (head same) rest = (q, head refl, e ∙ ap some (sym same))
      now v e (tail k) rest = later (rest k)

  -- Every unit that the matcher considers was made from the scanned pool.
  pub build_units-IsFromPool :
      (order : List (Party F64) → List (Party F64)) (pending : List (Ticket F64))
      → ((qs : List (Party F64)) → Permᴰ (order qs) qs)
      → All P pending
      → (u : MatchUnit F64) → Memᴰ u (build_units p order pending)
      → IsFromPool (scan p empty_pool pending).parties u
  unfolding build_units
  build_units-IsFromPool order pending shuffles h u m =
      from (mem-append pool.units _ (mem-perm (sort-perm (unit_before p) _) m))
    where
      pool : Pool F64
      pool = scan p empty_pool pending

      original : IsOriginal pool
      original = scan-IsOriginal empty_pool pending h (record { solos = tt; entries = tt })

      party :
          (q : Party F64)
          → Memᴰ q (order pool.parties)
          → party_unit q ≡ some u
          → IsFromPool pool.parties u
      party q k e =
          let inside = mem-perm (shuffles pool.parties) k in
          inr (q, inside, party_unit-IsFrom q u (All-mem HasEntries _ original.entries inside) e)

      from :
          Memᴰ u pool.units ⊎ Memᴰ u (filter_map party_unit (order pool.parties))
          → IsFromPool pool.parties u
      from (inl k) = inl (All-mem IsSolo _ original.solos k)
      from (inr k) = let (q, n, e) = mem-filter_map u (order pool.parties) k in party q n e
