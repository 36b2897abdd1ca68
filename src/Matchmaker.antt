-- ===== src/Matchmaker.antt =====
-- internal/usecase/match/matchmaker.go: what the matchmaker does with a group that the rules of
-- internal/domain/match have formed. The queue, the room allocator, the signer of session tokens,
-- the store of assignments, the clock and the metrics are an interface over one state `S`.
pub mod Assignments
pub mod Laws
pub mod Drain
pub mod Local
pub mod Loop
pub mod Tests
pub mod Ticks
pub mod Tickets
pub mod Turns
use vfx.Base.{
  ℕ, ◌+◌, Bool, true, false, Option, none, some, List, [], ◌∷◌, String, if◌then◌else◌, length, ◌==◌,
  map,
}
use vfx.Match.Ticket.{Ticket}
use vfx.Queue.{Event, Assignment, matched, failed}

-- A Go call that returns a value or an error; an error is its message.
pub data Answer (A : Type 0) : Type 0 where
  value : A → Answer A
  failure : String → Answer A

-- match.RoomAllocation
pub record RoomAllocation : Type 0 where
  pub match_id : ℕ
  pub endpoint : String

-- A uuid that the source passes on as text is passed on as itself.
pub record Services (S : Type 0) : Type 0 where
  pub claim : String → List ℕ → S → Answer Bool × S
  pub publish : ℕ → Event → S → Answer (Unit {0}) × S
  pub allocate : String → ℕ → S → Answer RoomAllocation × S
  pub sign_session : ℕ → ℕ → List ℕ → ℕ → ℕ → S → Answer String × S
  pub put : ℕ → Assignment → ℕ → S → Answer (Unit {0}) × S
  pub now : S → ℕ × S
  pub match_allocated : S → S

-- The assignment of one player, for the given time to live of a session token.
abbrev pub assignment_of : ℕ → RoomAllocation → ℕ → String → Assignment
assignment_of session_token_ttl allocation now session_token = record {
  match_id = allocation.match_id;
  endpoint = allocation.endpoint;
  session_token = session_token;
  expires_at = now + session_token_ttl;
}

module _ {S : Type 0} (sv : Services S) (session_token_ttl : ℕ) {F : Type 0} where
  -- The notification of a whole group; errors are dropped.
  unfoldable pub fail_all : String → List (Ticket F) → S → S
  fail_all message [] s = s
  fail_all message (t ∷ ts) s =
      fail_all message ts (sv.publish t.id (failed "allocator_failed" message) s).1

  -- After Put: the event, and whether the player is paired.
  abbrev pub after_put : Assignment → Ticket F → Answer (Unit {0}) × S → Bool × S
  after_put assignment t (failure e, s) =
      (false, (sv.publish t.id (failed "internal" "failed to record assignment") s).1)
  after_put assignment t (value u, s) = (true, (sv.publish t.id (matched assignment) s).1)

  unfoldable pub assign : RoomAllocation → ℕ → Ticket F → String → S → Bool × S
  assign allocation now t session_token s =
      let assignment = assignment_of session_token_ttl allocation now session_token in
      after_put assignment t (sv.put t.player_id assignment session_token_ttl s)

  abbrev pub after_sign : RoomAllocation → ℕ → Ticket F → Answer String × S → Bool × S
  after_sign allocation now t (failure e, s) =
      (false, (sv.publish t.id (failed "internal" "failed to issue session token") s).1)
  after_sign allocation now t (value session_token, s) = assign allocation now t session_token s

  -- One turn of the loop of pair.
  unfoldable pub serve : RoomAllocation → List ℕ → ℕ → Ticket F → S → Bool × S
  serve allocation players now t s =
      after_sign allocation now t
        (sv.sign_session t.player_id allocation.match_id players now session_token_ttl s)

  unfoldable pub serve_all : RoomAllocation → List ℕ → ℕ → List (Ticket F) → ℕ → S → ℕ × S
  serve_all allocation players now [] paired s = (paired, s)
  serve_all allocation players now (t ∷ ts) paired s =
      let r = serve allocation players now t s in
      serve_all allocation players now ts (if r.0 then paired + 1 else paired) r.1

  -- The part of pair that runs once the room is allocated.
  unfoldable pub pair_in : RoomAllocation → List (Ticket F) → S → S
  pair_in allocation tickets s =
      let clock = sv.now s in
      let r =
        serve_all allocation (map (λ (t : Ticket F). t.player_id) tickets) clock.0 tickets 0
          clock.1 in
      if r.0 == length tickets then sv.match_allocated r.1 else r.1

  abbrev pub after_allocate : List (Ticket F) → Answer RoomAllocation × S → Option String × S
  after_allocate tickets (failure e, s) = (some e, fail_all e tickets s)
  after_allocate tickets (value allocation, s) = (none, pair_in allocation tickets s)

  abbrev pub after_claim : String → List (Ticket F) → Answer Bool × S → Option String × S
  after_claim mode tickets (failure e, s) = (some e, s)
  after_claim mode tickets (value false, s) = (none, s)
  after_claim mode tickets (value true, s) =
      after_allocate tickets (sv.allocate mode (length tickets) s)

  -- The error that is returned, or none.
  unfoldable pub pair : String → List (Ticket F) → S → Option String × S
  pair mode tickets s =
      after_claim mode tickets (sv.claim mode (map (λ (t : Ticket F). t.id) tickets) s)
