-- ===== src/Match/Units.antt =====
-- internal/domain/match/matcher.go, the first half: the pending pool collapsed into units.
pub mod Origin
pub mod Order
pub mod Ages
use mathlib.Core.List.{filter_map}
use vfx.Base.{
  ℕ, Bool, true, false, not, ◌||◌, Option, none, some, List, [], ◌∷◌, ◌++◌, ltb, ◌==◌,
  if◌then◌else◌, length, sort,
}
use vfx.Match.Platform.{Platform}
use vfx.Match.Ticket.{Ticket, is_party, party_key}

-- A unit is never empty: its tickets are `first` and `others`.
pub record MatchUnit (F : Type 0) : Type 0 where
  pub first : Ticket F
  pub others : List (Ticket F)
  pub seed_at : ℕ

abbrev pub tickets : {F : Type 0} → MatchUnit F → List (Ticket F)
tickets u = u.first ∷ u.others

abbrev pub size : {F : Type 0} → MatchUnit F → ℕ
size u = length (tickets u)

abbrev pub oldest_of : {F : Type 0} → Ticket F → List (Ticket F) → Ticket F
oldest_of a [] = a
oldest_of a (t ∷ ts) = oldest_of (if ltb t.enqueued_at a.enqueued_at then t else a) ts

unfoldable pub anchor : {F : Type 0} → MatchUnit F → Ticket F
anchor u = oldest_of u.first u.others

-- What the source keeps under one key of its two maps, `rosters` and `byKeyPlayer`.
pub record Party (F : Type 0) : Type 0 where
  pub key : List ℕ
  pub roster : List ℕ
  pub members : List (ℕ × Ticket F)

-- The state of the loop over the pending tickets.
pub record Pool (F : Type 0) : Type 0 where
  pub units : List (MatchUnit F)
  pub parties : List (Party F)

abbrev pub empty_pool : {F : Type 0} → Pool F
empty_pool = record { units = []; parties = [] }

abbrev pub ids_eq : List ℕ → List ℕ → Bool
ids_eq [] [] = true
ids_eq (x ∷ xs) (y ∷ ys) = let rest = ids_eq xs ys in if x == y then rest else false
ids_eq _ _ = false

abbrev pub solo : {F : Type 0} → Ticket F → MatchUnit F
solo t = record { first = t; others = []; seed_at = t.enqueued_at }

-- The oldest ticket of each member is kept.
unfoldable pub keep_oldest : {F : Type 0} → Ticket F → List (ℕ × Ticket F) → List (ℕ × Ticket F)
keep_oldest t [] = (t.player_id, t) ∷ []
keep_oldest t ((id, cur) ∷ ms) =
    let rest = keep_oldest t ms in
    if id == t.player_id
    then (if ltb t.enqueued_at cur.enqueued_at then (id, t) ∷ ms else (id, cur) ∷ ms)
    else (id, cur) ∷ rest

unfoldable pub find_member : {F : Type 0} → ℕ → List (ℕ × Ticket F) → Option (Ticket F)
find_member x [] = none
find_member x ((id, t) ∷ ms) = let rest = find_member x ms in if id == x then some t else rest

-- One ticket for each id of the roster, or none when a member has no ticket.
unfoldable pub collect : {F : Type 0} → List ℕ → List (ℕ × Ticket F) → Option (List (Ticket F))
unfolding find_member
collect [] ms = some []
collect (id ∷ ids) ms = elim (find_member id ms) [
  | none ↦ none
  | some t ↦ elim (collect ids ms) [ none ↦ none | some ts ↦ some (t ∷ ts) ]
]

-- `seedAt` of the source: the zero time counts as not yet set.
unfoldable pub earliest : {F : Type 0} → ℕ → List (Ticket F) → ℕ
earliest at [] = at
earliest at (t ∷ ts) = earliest (if at == 0 || ltb t.enqueued_at at then t.enqueued_at else at) ts

abbrev pub unit_of : {F : Type 0} → List (Ticket F) → Option (MatchUnit F)
unit_of [] = none
unit_of (t ∷ ts) = some (record { first = t; others = ts; seed_at = earliest 0 (t ∷ ts) })

unfoldable pub party_unit : {F : Type 0} → Party F → Option (MatchUnit F)
unfolding collect earliest
party_unit q = elim (collect q.roster q.members) [ none ↦ none | some ts ↦ unit_of ts ]

module _ (p : Platform) where
  open p use {F64, id_before}

  unfoldable pub add_member : List ℕ → Ticket F64 → List (Party F64) → List (Party F64)
  unfolding keep_oldest
  add_member key t [] =
      record { key = key; roster = t.party_members; members = keep_oldest t [] } ∷ []
  add_member key t (q ∷ qs) =
      let rest = add_member key t qs in
      if ids_eq q.key key
      then record q { roster = t.party_members; members = keep_oldest t q.members } ∷ qs
      else q ∷ rest

  unfoldable pub scan_ticket : Pool F64 → Ticket F64 → Pool F64
  scan_ticket pool t =
      if not (is_party t)
      then record pool { units = pool.units ++ solo t ∷ [] }
      else record pool { parties = add_member (party_key p t) t pool.parties }

  unfoldable pub scan : Pool F64 → List (Ticket F64) → Pool F64
  unfolding scan_ticket
  scan pool [] = pool
  scan pool (t ∷ ts) = scan (scan_ticket pool t) ts

  -- Oldest first, then by the text of the first ticket's id.
  unfoldable pub unit_before : MatchUnit F64 → MatchUnit F64 → Bool
  unit_before u v =
      if not (u.seed_at == v.seed_at)
      then ltb u.seed_at v.seed_at
      else id_before u.first.id v.first.id

  -- `order` is the order in which the runtime iterates over the map of rosters.
  unfoldable pub build_units :
      (List (Party F64) → List (Party F64)) → List (Ticket F64) → List (MatchUnit F64)
  unfolding scan party_unit unit_before
  build_units order pending =
      let pool = scan empty_pool pending in
      sort unit_before (pool.units ++ filter_map party_unit (order pool.parties))
