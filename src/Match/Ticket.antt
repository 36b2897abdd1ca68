-- ===== src/Match/Ticket.antt =====
-- internal/domain/match/ticket.go: tickets, party rosters, and who may play with whom.
pub mod Roster
use vfx.Base.{
  ℕ, String, Bool, true, false, not, ◌&&◌, Option, none, some, List, [], ◌∷◌, leb, ◌==◌,
  if◌then◌else◌, length, any, sort, str_eq,
}
use vfx.Match.Platform.{Platform}

pub data TicketError : Type 0 where
  no_player no_game_mode party_too_large : TicketError

pub data Result {ℓ} (A : Type ℓ) : Type ℓ where
  ok : A → Result A
  err : TicketError → Result A

-- A ticket over the type of ratings.
pub record Ticket (F : Type 0) : Type 0 where
  pub id : ℕ
  pub player_id : ℕ
  pub game_mode : String
  pub rating : Option F
  pub region : Option String
  pub party_members : List ℕ
  pub attributes : List (String × String)
  pub enqueued_at : ℕ

-- uuid.Nil
abbrev pub nil_id : ℕ
nil_id = 0

unfoldable pub new_ticket : {F : Type 0} → ℕ → ℕ → String → ℕ → Result (Ticket F)
new_ticket id player_id game_mode now =
    if player_id == nil_id
    then err no_player
    else if str_eq game_mode ""
    then err no_game_mode
    else ok (record {
      id = id;
      player_id = player_id;
      game_mode = game_mode;
      rating = none;
      region = none;
      party_members = [];
      attributes = [];
      enqueued_at = now;
    })

unfoldable pub is_party : {F : Type 0} → Ticket F → Bool
is_party t = leb 2 (length t.party_members)

-- A Go map used as a set of ids, in the order of insertion.
abbrev pub add_id : List ℕ → ℕ → List ℕ
add_id ids x = if any (λ y. x == y) ids then ids else x ∷ ids

abbrev pub add_ids : List ℕ → List ℕ → List ℕ
add_ids ids [] = ids
add_ids ids (x ∷ xs) = add_ids (add_id ids x) xs

module _ (p : Platform) where
  open p use {F64, sub, abs, gt, id_before}

  -- The texts of the sorted ids joined by commas: that text and this list name each other.
  unfoldable pub party_key : Ticket F64 → List ℕ
  unfolding is_party
  party_key t = if not (is_party t) then [] else sort id_before t.party_members

  -- `order` is the order in which the runtime iterates over the map.
  unfoldable pub normalize_party : (List ℕ → List ℕ) → ℕ → List ℕ → List ℕ
  normalize_party order self members =
      let set = add_ids (self ∷ []) members in
      if leb (length set) 1 then [] else sort id_before (order set)

  abbrev pub regions_differ : Option String → Option String → Bool
  regions_differ (some r) (some s) = not (str_eq r s)
  regions_differ _ _ = false

  abbrev pub ratings_apart : F64 → Option F64 → Option F64 → Bool
  ratings_apart window (some r) (some s) = gt (abs (sub r s)) window
  ratings_apart window _ _ = false

  unfoldable pub compatible_with : Ticket F64 → Ticket F64 → F64 → Bool → Bool
  compatible_with t other rating_window ignore_region =
      if not ignore_region && regions_differ t.region other.region
      then false
      else if ratings_apart rating_window t.rating other.rating
      then false
      else true
