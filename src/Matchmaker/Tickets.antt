-- ===== src/Matchmaker/Tickets.antt =====
-- internal/usecase/match/match.go: what the clients of the match service call, over any queue and any
-- store of assignments.
use vfx.Base.{
  ℕ, suc, ◌≤◌, ◌⊎◌, ◌==◌, ◌≡◌, refl, ap, true, false, ◌&&◌, Option, none, some, List, String,
  str_eq, if◌then◌else◌, length, ltb, arith, Bool-cases, inl, inr,
}
use vfx.Match.Platform.{Platform}
use vfx.Match.Ticket.{
  Ticket, nil_id, TicketError, no_player, no_game_mode, party_too_large, Result, ok, err,
  new_ticket, normalize_party,
}
use vfx.Queue.{
  InMem, TicketEntry, Assignment, Outcome, done, error, panic, find, enqueue, subscribe, cancel,
  is_pending, depth,
}
use vfx.Queue.Drains.{enqueue-fresh}
use vfx.Matchmaker.{Answer, value, failure}

-- match.Queue and match.AssignmentStore, as far as the clients reach them. A channel is its name.
pub record TicketQueue (S F : Type 0) : Type 0 where
  pub enqueue : Ticket F → S → Answer (Unit {0}) × S
  pub subscribe : ℕ → S → Answer ℕ × S
  pub cancel : ℕ → S → Answer (Unit {0}) × S
  pub get : ℕ → S → Answer (Option Assignment) × S

pub record TicketInput (F : Type 0) : Type 0 where
  pub player_id : ℕ
  pub game_mode : String
  pub rating : Option F
  pub region : Option String
  pub party_members : List ℕ
  pub attributes : List (String × String)

unfoldable pub message : TicketError → String
message no_player = "match: ticket requires a player"
message no_game_mode = "match: ticket requires a game mode"
message party_too_large = "match: party exceeds the match size"

module _ (p : Platform) {S : Type 0} (q : TicketQueue S p.F64) where
  open p use {F64}

  abbrev pub after_enqueue : ℕ → Answer (Unit {0}) × S → Answer ℕ × S
  after_enqueue id (failure e, s) = (failure e, s)
  after_enqueue id (value u, s) = (value id, s)

  -- The ticket with the fields of the request and its canonical roster.
  abbrev pub filled : TicketInput F64 → List ℕ → Ticket F64 → Ticket F64
  filled input roster t = record t {
    rating = input.rating;
    region = input.region;
    party_members = roster;
    attributes = input.attributes;
  }

  abbrev pub after_new : ℕ → TicketInput F64 → List ℕ → Result (Ticket F64) → S → Answer ℕ × S
  after_new max_party_size input roster (err e) s = (failure (message e), s)
  after_new max_party_size input roster (ok t) s =
      if ltb 0 max_party_size && ltb max_party_size (length roster)
      then (failure (message party_too_large), s)
      else after_enqueue t.id (q.enqueue (filled input roster t) s)

  -- `id` is the new uuid, `now` the clock's answer and `order` the order in which the runtime iterates
  -- over the map of a roster.
  unfoldable pub create_ticket : ℕ → (List ℕ → List ℕ) → ℕ → ℕ → TicketInput F64 → S → Answer ℕ × S
  unfolding message
  create_ticket max_party_size order id now input s =
      after_new max_party_size input (normalize_party p order input.player_id input.party_members)
        (new_ticket id input.player_id input.game_mode now) s

  abbrev pub watch_ticket : ℕ → S → Answer ℕ × S
  watch_ticket id s = q.subscribe id s

  abbrev pub cancel_ticket : ℕ → S → Answer (Unit {0}) × S
  cancel_ticket id s = q.cancel id s

  abbrev pub get_current_match : ℕ → S → Answer (Option Assignment) × S
  get_current_match player s = q.get player s

-- noopAssignmentStore and the queue in memory.
abbrev outcome_of : {A S : Type 0} → S → Outcome (S × A) → Answer A × S
outcome_of s (done r) = (value r.1, r.0)
outcome_of s (error e) = (failure "match: ticket not found", s)
outcome_of s panic = (failure "panic", s)

abbrev only_state : {S : Type 0} → Outcome S → Outcome (S × Unit {0})
only_state (done s) = done (s, tt)
only_state (error e) = error e
only_state panic = panic

abbrev pub in_mem_tickets : {F : Type 0} → TicketQueue (InMem F) F
in_mem_tickets = record {
  enqueue = λ t s. (value tt, enqueue s t);
  subscribe = λ id s. outcome_of s (subscribe s id);
  cancel = λ id s. outcome_of s (only_state (cancel s id));
  get = λ player s. (value none, s);
}

module _ (p : Platform) (max_party_size : ℕ) (order : List ℕ → List ℕ) (id now : ℕ)
    (input : TicketInput p.F64) where
  open p use {F64}

  abbrev roster : List ℕ
  roster = normalize_party p order input.player_id input.party_members

  abbrev pub created : InMem F64 → Answer ℕ × InMem F64
  created q = create_ticket p in_mem_tickets max_party_size order id now input q

  -- The request names a player and a mode, and its party fits in a match.
  abbrev pub IsAdmissible : Type 0
  IsAdmissible =
      ((input.player_id == nil_id) ≡ false)
      × (str_eq input.game_mode "" ≡ false)
      × ((max_party_size ≡ 0) ⊎ (length roster ≤ max_party_size))

  -- The ticket of the request waits in its mode, under its roster, and it is one more.
  abbrev pub Waits : InMem F64 → InMem F64 → Type 0
  Waits q r =
      (depth r input.game_mode ≡ suc (depth q input.game_mode))
      × (e : TicketEntry F64) × (find id r.tickets ≡ some e)
      × (is_pending input.game_mode e ≡ true)
      × (e.ticket.player_id ≡ input.player_id)
      × (e.ticket.party_members ≡ roster)

  -- CreateTicket with a fresh id either answers an error and leaves the queue as it was, for a request
  -- that is not admissible, or answers the id, and then the ticket waits in the mode with its
  -- canonical roster, and one more ticket waits there than before.
  pub create_ticket-Waits :
      (q : InMem F64)
      → find id q.tickets ≡ none
      → ((e : String) × (created q ≡ (failure e, q)) × ¬ IsAdmissible)
        ⊎ (((created q).0 ≡ value id) × IsAdmissible × Waits q (created q).1)
  unfolding create_ticket new_ticket
  create_ticket-Waits q fresh = elim (Bool-cases (input.player_id == nil_id)) [
    | inl nobody ↦ inl (message no_player, rw nobody refl, λ a. cc (nobody, a.0))
    | inr player ↦ elim (Bool-cases (str_eq input.game_mode "")) [
      | inl nothing ↦ inl (message no_game_mode, rw (player, nothing) refl, λ a. cc (nothing, a.1))
      | inr mode ↦ elim (Bool-cases (ltb 0 max_party_size && ltb max_party_size (length roster))) [
        | inl over ↦
            inl (message party_too_large, rw (player, mode, over) refl, λ a. too_large over a.2)
        | inr fits ↦
            let (more, e, found, same, waits) = enqueue-fresh q ticket fresh in
            inr (
              rw (player, mode, fits) refl,
              (player, mode, small fits),
              rw (player, mode, fits)
                  (
                    more,
                    e,
                    found,
                    waits,
                    ap (λ (t : Ticket F64). t.player_id) same,
                    ap (λ (t : Ticket F64). t.party_members) same,
                  ),
            )
      ]
    ]
  ]
    where
      ticket : Ticket F64
      ticket = record {
        id = id;
        player_id = input.player_id;
        game_mode = input.game_mode;
        rating = input.rating;
        region = input.region;
        party_members = roster;
        attributes = input.attributes;
        enqueued_at = now;
      }

      too_large :
          (ltb 0 max_party_size && ltb max_party_size (length roster)) ≡ true
          → (max_party_size ≡ 0) ⊎ (length roster ≤ max_party_size)
          → ⊥
      too_large over h = ground arith

      small :
          (ltb 0 max_party_size && ltb max_party_size (length roster)) ≡ false
          → (max_party_size ≡ 0) ⊎ (length roster ≤ max_party_size)
      small fits = ground arith
