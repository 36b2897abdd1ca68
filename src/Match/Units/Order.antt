-- ===== src/Match/Units/Order.antt =====
-- buildUnits and the order in which the runtime iterates over the map of parties.
use mathlib.Core.List.{filter_map, Memᴰ, Permᴰ}
use mathlib.Core.List.Memᴰ.{head, tail}
use mathlib.Core.List.Permᴰ.{nil, cons, swap, trans}
use mathlib.Core.List.Permᴰ
use vfx.Base.{
  ℕ, eq_of_some, false, List, [], ◌∷◌, ◌++◌, ◌==◌, sort-perm, sort_unique, IsOrder, Apart, ◌≡◌, ◌≢◌,
  inl, inr, refl, sym, ap, subst, ◌∙◌, arith, All, All-mem, All-of_mem, Bool-cases, Option-cases,
  mem-perm,
}
use vfx.Match.Platform.{Platform, IsIdOrder, id_asym, id_le_trans}
use vfx.Match.Ticket.{Ticket, is_party, party_key}
use vfx.Match.Units.{
  MatchUnit, Party, Pool, solo, ids_eq, party_unit, add_member, scan_ticket, scan, unit_before,
  empty_pool, build_units,
}
use vfx.Match.Units.Origin.{ids_eq_refl, IsFromPool, build_units-IsFromPool}

module _ (p : Platform) where
  open p use {F64, id_before}

  -- No two parties share a key.
  abbrev HasKeys : List (Party F64) → Type 0
  HasKeys [] = Unit
  HasKeys (q ∷ qs) = All (λ (r : Party F64). q.key ≢ r.key) qs × HasKeys qs

  add_member-fresh :
      (k key : List ℕ) (t : Ticket F64) (qs : List (Party F64))
      → k ≢ key
      → All (λ (r : Party F64). k ≢ r.key) qs
      → All (λ (r : Party F64). k ≢ r.key) (add_member p key t qs)
  unfolding add_member
  add_member-fresh k key t [] n h = (n, tt)
  add_member-fresh k key t (q ∷ qs) n h = elim (Bool-cases (ids_eq q.key key)) [
    | inl same ↦ rw same (h.0, h.1)
    | inr other ↦ rw other (h.0, add_member-fresh k key t qs n h.1)
  ]

  ne_of_ids_ne : (xs ys : List ℕ) → ids_eq xs ys ≡ false → xs ≢ ys
  ne_of_ids_ne xs ys h e = cc (ids_eq_refl xs, subst (λ l. ids_eq xs l ≡ false) (sym e) h)

  add_member-HasKeys :
      (key : List ℕ) (t : Ticket F64) (qs : List (Party F64))
      → HasKeys qs
      → HasKeys (add_member p key t qs)
  unfolding add_member
  add_member-HasKeys key t [] h = (tt, tt)
  add_member-HasKeys key t (q ∷ qs) h = elim (Bool-cases (ids_eq q.key key)) [
    | inl same ↦ rw same (h.0, h.1)
    | inr other ↦ rw other (
      add_member-fresh q.key key t qs (ne_of_ids_ne q.key key other) h.0,
      add_member-HasKeys key t qs h.1,
    )
  ]

  scan_ticket-HasKeys :
      (pool : Pool F64) (t : Ticket F64)
      → HasKeys pool.parties
      → HasKeys (scan_ticket p pool t).parties
  unfolding scan_ticket
  scan_ticket-HasKeys pool t h = elim (Bool-cases (is_party t)) [
    | inl e ↦ rw e (add_member-HasKeys (party_key p t) t pool.parties h)
    | inr e ↦ rw e h
  ]

  scan-HasKeys :
      (pool : Pool F64) (ts : List (Ticket F64))
      → HasKeys pool.parties
      → HasKeys (scan p pool ts).parties
  unfolding scan
  scan-HasKeys pool [] h = h
  scan-HasKeys pool (t ∷ ts) h =
      scan-HasKeys (scan_ticket p pool t) ts (scan_ticket-HasKeys pool t h)

  HasKeys-unique :
      (qs : List (Party F64)) {q r : Party F64}
      → HasKeys qs
      → Memᴰ q qs
      → Memᴰ r qs
      → q.key ≡ r.key
      → q ≡ r
  HasKeys-unique [] h m n e = elim m [ ]
  HasKeys-unique (x ∷ qs) h (head i) (head j) e = i ∙ sym j
  HasKeys-unique (x ∷ qs) {q} {r} h (head i) (tail n) e =
      absurd (All-mem _ qs h.0 n (subst (λ (y : Party F64). y.key ≡ r.key) i e))
  HasKeys-unique (x ∷ qs) {q} {r} h (tail m) (head j) e =
      absurd (All-mem _ qs h.0 m (subst (λ (y : Party F64). y.key ≡ q.key) j (sym e)))
  HasKeys-unique (x ∷ qs) h (tail m) (tail n) e = HasKeys-unique qs h.1 m n e

  module _ (ids : IsIdOrder id_before) where
    pub unit_before-IsOrder : IsOrder (unit_before p)
    unfolding unit_before
    unit_before-IsOrder = record {
      asym = λ u v h. ground (arith, id_asym ids u.first.id v.first.id);
      le_trans = λ u v w h k. ground (arith, id_le_trans ids u.first.id v.first.id w.first.id);
    }

    unit_before-Apart :
        (u v : MatchUnit F64) → (u.first.id ≡ v.first.id → u ≡ v) → Apart (unit_before p) u v
    unfolding unit_before
    unit_before-Apart u v same = elim (Bool-cases (u.seed_at == v.seed_at)) [
      | inr e ↦ ground arith
      | inl e ↦ elim (ids.total u.first.id v.first.id) [
        | inl before ↦ inl (ground arith)
        | inr (inl after) ↦ inr (inl (ground arith))
        | inr (inr eq) ↦ inr (inr (same eq))
      ]
    ]

    filter_map-perm :
        {qs rs : List (Party F64)}
        → Permᴰ qs rs
        → Permᴰ (filter_map party_unit qs) (filter_map party_unit rs)
    unfolding filter_map
    filter_map-perm nil = nil
    filter_map-perm (cons {a = q} {b = r} {l₁ = qs} {l₂ = rs} e d) =
        subst (λ s. Permᴰ (filter_map party_unit (q ∷ qs)) (filter_map party_unit (s ∷ rs))) e
          (one q (filter_map-perm d))
      where
        one :
            (q : Party F64)
            → Permᴰ (filter_map party_unit qs) (filter_map party_unit rs)
            → Permᴰ (filter_map party_unit (q ∷ qs)) (filter_map party_unit (q ∷ rs))
        one q d = elim (Option-cases (party_unit q)) [
          | inl e ↦ rw e d
          | inr (u, e) ↦ rw e (cons refl d)
        ]
    filter_map-perm (swap {a = q} {b = r} {a' = q'} {b' = r'} {l = l} e f) =
        subst (λ s. Permᴰ (filter_map party_unit (q ∷ r ∷ l)) (filter_map party_unit (q' ∷ s ∷ l)))
          e
          (subst
            (λ s. Permᴰ (filter_map party_unit (q ∷ r ∷ l)) (filter_map party_unit (s ∷ q ∷ l))) f
            two)
      where
        two : Permᴰ (filter_map party_unit (q ∷ r ∷ l)) (filter_map party_unit (r ∷ q ∷ l))
        two = elim (Option-cases (party_unit q)) [
          | inl e ↦ rw e (Permᴰ.refl _)
          | inr (u, e) ↦ elim (Option-cases (party_unit r)) [
            | inl f ↦ rw (e, f) (Permᴰ.refl _)
            | inr (v, f) ↦ rw (e, f) (swap refl refl)
          ]
        ]
    filter_map-perm (trans d e) = trans (filter_map-perm d) (filter_map-perm e)

    -- Two units whose first tickets are one ticket are one unit.
    unit_of_first :
        (pending : List (Ticket F64)) (qs : List (Party F64)) (u v : MatchUnit F64)
        → HasKeys qs
        → IsFromPool p (λ t. Memᴰ t pending) qs u
        → IsFromPool p (λ t. Memᴰ t pending) qs v
        → u.first ≡ v.first
        → u ≡ v
    unit_of_first pending qs u v keys (inl a) (inl b) e = a.2 ∙ ap solo e ∙ sym b.2
    unit_of_first pending qs u v keys (inl a) (inr (r, n, b)) e = cc (a.1, b.1.0.1, ap is_party e)
    unit_of_first pending qs u v keys (inr (q, m, a)) (inl b) e = cc (b.1, a.1.0.1, ap is_party e)
    unit_of_first pending qs u v keys (inr (q, m, a)) (inr (r, n, b)) e =
        let same : q ≡ r =
          HasKeys-unique qs keys m n (sym a.1.0.2 ∙ ap (party_key p) e ∙ b.1.0.2) in
        eq_of_some (sym a.0 ∙ ap party_unit same ∙ b.0)

    first-mem :
        (pending : List (Ticket F64)) (qs : List (Party F64)) (u : MatchUnit F64)
        → IsFromPool p (λ t. Memᴰ t pending) qs u
        → Memᴰ u.first pending
    first-mem pending qs u (inl a) = a.0
    first-mem pending qs u (inr (q, m, a)) = a.1.0.0

    -- With distinct ticket ids, the units and their order are the same whatever order the runtime
    -- chooses to iterate over the map of party rosters.
    pub build_units-order :
        (order order' : List (Party F64) → List (Party F64)) (pending : List (Ticket F64))
        → ((qs : List (Party F64)) → Permᴰ (order qs) qs)
        → ((qs : List (Party F64)) → Permᴰ (order' qs) qs)
        → ((t s : Ticket F64) → Memᴰ t pending → Memᴰ s pending → t.id ≡ s.id → t ≡ s)
        → build_units p order pending ≡ build_units p order' pending
    unfolding build_units
    build_units-order order order' pending shuffles shuffles' distinct =
        sort_unique (unit_before p) unit_before-IsOrder apart (
          Permᴰ.append_left pool.units
            (filter_map-perm (trans (shuffles pool.parties) (Permᴰ.symm (shuffles' pool.parties)))))
      where
        pool : Pool F64
        pool = scan p empty_pool pending

        units : List (MatchUnit F64)
        units = pool.units ++ filter_map party_unit (order pool.parties)

        origin :
            (u : MatchUnit F64) → Memᴰ u units → IsFromPool p (λ t. Memᴰ t pending) pool.parties u
        origin u m =
            build_units-IsFromPool p (λ t. Memᴰ t pending) order pending shuffles
              (All-of_mem _ pending (λ t k. k)) u
              (mem-perm (Permᴰ.symm (sort-perm (unit_before p) units)) m)

        apart : (u v : MatchUnit F64) → Memᴰ u units → Memᴰ v units → Apart (unit_before p) u v
        apart u v m n = unit_before-Apart u v (λ e.
            unit_of_first pending pool.parties u v (scan-HasKeys empty_pool pending tt) (origin u m)
              (origin v n)
              (distinct u.first v.first (first-mem pending pool.parties u (origin u m))
                (first-mem pending pool.parties v (origin v n)) e))
