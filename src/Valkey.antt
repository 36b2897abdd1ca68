-- ===== src/Valkey.antt =====
-- internal/infra/matchqueue/valkey.go: the match.Queue that gateway replicas share. The Valkey server
-- is outside, as an interface over a state `S`; so are JSON and the text of uuids. `Str` is the type of
-- the strings that the server holds. An error is its message, less the prefix that says which command
-- failed.
pub mod Operations
pub mod Claims
pub mod Streams
pub mod Entries
pub mod Follows
pub mod Tests
use vfx.Base.{
  ℕ, Bool, true, false, Option, none, some, List, [], ◌∷◌, String, str_eq, if◌then◌else◌, map,
}
use vfx.Match.Ticket.{Ticket}
use vfx.Queue.{Event, Assignment, queued, matched, failed}
use vfx.Matchmaker.{Answer, value, failure}

-- ticketKey, eventKey, streamKey and pendingKey: a prefix of its own and what follows it.
pub data Key : Type 0 where
  ticket_key event_key stream_key : ℕ → Key
  pending_key : String → Key

pub record TicketDto (F Str : Type 0) : Type 0 where
  pub id : Str
  pub player_id : Str
  pub game_mode : String
  pub rating : Option F
  pub region : Option String
  pub party_members : List Str
  pub attributes : List (String × String)
  pub enqueued_at : ℕ

pub record MatchDto (Str : Type 0) : Type 0 where
  pub match_id : Str
  pub endpoint : String
  pub session_token : String
  pub expires_at : ℕ

-- The field of the type is called `kind`, since `Type` is a word of the language. A matched assignment
-- is a pointer, which a text may leave out.
pub record EventDto (Str : Type 0) : Type 0 where
  pub kind : String
  pub queued_at : ℕ
  pub queue_depth : ℕ
  pub assignment : Option (MatchDto Str)
  pub reason : String
  pub message : String

-- The packages encoding/json and uuid, and the conversion of nanoseconds to float64.
pub record Codec (F Str : Type 0) : Type 0 where
  pub uuid_text : ℕ → Str
  pub uuid_parse : Str → Option ℕ
  pub ticket_json : TicketDto F Str → Option Str
  pub ticket_of_json : Str → Option (TicketDto F Str)
  pub event_json : EventDto Str → Option Str
  pub event_of_json : Str → Option (EventDto Str)
  pub float : ℕ → F

-- The commands that the source sends; `set_nx` answers whether the key was set. `eval` runs a script,
-- a function of what the server holds, in which `zscore` and `zrem_now` are the calls of a script.
pub record Server (S F Str : Type 0) : Type 1 where
  pub set_nx : Key → Str → ℕ → S → Answer Bool × S
  pub set : Key → Str → ℕ → S → Answer (Unit {0}) × S
  pub get : Key → S → Answer (Option Str) × S
  pub zcard : Key → S → Answer ℕ × S
  pub zadd : Key → F → Str → S → Answer (Unit {0}) × S
  pub zrem : Key → Str → S → Answer (Unit {0}) × S
  pub zrange : Key → S → Answer (List Str) × S
  pub xadd : Key → Str → S → Answer (Unit {0}) × S
  pub expire : Key → ℕ → S → Answer (Unit {0}) × S
  pub eval : (S → ℕ × S) → S → Answer ℕ × S
  pub zscore : Key → Str → S → Option F
  pub zrem_now : Key → Str → S → S

-- What decoding a text comes to: a value, an error, or the panic of a nil pointer.
pub data Decoded (A : Type 0) : Type 0 where
  decoded : A → Decoded A
  undecodable : Decoded A
  panics : Decoded A

module _ {F Str : Type 0} (c : Codec F Str) where
  unfoldable pub marshal_ticket : Ticket F → Option Str
  marshal_ticket t = c.ticket_json (record {
    id = c.uuid_text t.id;
    player_id = c.uuid_text t.player_id;
    game_mode = t.game_mode;
    rating = t.rating;
    region = t.region;
    party_members = map c.uuid_text t.party_members;
    attributes = t.attributes;
    enqueued_at = t.enqueued_at;
  })

  -- The uuids of the texts, or none when one is not the text of a uuid.
  unfoldable pub parse_all : List Str → Option (List ℕ)
  parse_all [] = some []
  parse_all (x ∷ xs) =
      let rest = parse_all xs in
      elim (c.uuid_parse x) [
        | none ↦ none
        | some id ↦ elim rest [ none ↦ none | some ids ↦ some (id ∷ ids) ]
      ]

  abbrev pub ticket_of : TicketDto F Str → Option ℕ → Option ℕ → Option (List ℕ) → Option (Ticket F)
  ticket_of dto (some id) (some player) (some members) = some (record {
    id = id;
    player_id = player;
    game_mode = dto.game_mode;
    rating = dto.rating;
    region = dto.region;
    party_members = members;
    attributes = dto.attributes;
    enqueued_at = dto.enqueued_at;
  })
  ticket_of dto _ _ _ = none

  unfoldable pub unmarshal_ticket : Str → Option (Ticket F)
  unfolding parse_all
  unmarshal_ticket raw = elim (c.ticket_of_json raw) [
    | none ↦ none
    | some dto ↦
        ticket_of dto (c.uuid_parse dto.id) (c.uuid_parse dto.player_id)
          (parse_all dto.party_members)
  ]

  abbrev pub dto_of : Event → EventDto Str
  dto_of (queued at depth) = record {
    kind = "queued";
    queued_at = at;
    queue_depth = depth;
    assignment = none;
    reason = "";
    message = "";
  }
  dto_of (matched a) = record {
    kind = "matched";
    queued_at = 0;
    queue_depth = 0;
    assignment = some (record {
      match_id = c.uuid_text a.match_id;
      endpoint = a.endpoint;
      session_token = a.session_token;
      expires_at = a.expires_at;
    });
    reason = "";
    message = "";
  }
  dto_of (failed reason message) = record {
    kind = "failed";
    queued_at = 0;
    queue_depth = 0;
    assignment = none;
    reason = reason;
    message = message;
  }

  unfoldable pub marshal_event : Event → Option Str
  marshal_event e = c.event_json (dto_of e)

  abbrev pub matched_of : MatchDto Str → Option ℕ → Decoded Event
  matched_of m none = undecodable
  matched_of m (some id) = decoded (
      matched (record {
        match_id = id;
        endpoint = m.endpoint;
        session_token = m.session_token;
        expires_at = m.expires_at;
      }))

  abbrev pub assignment_in : Option (MatchDto Str) → Decoded Event
  assignment_in none = panics
  assignment_in (some m) = matched_of m (c.uuid_parse m.match_id)

  abbrev pub event_of : EventDto Str → Decoded Event
  event_of dto =
      if str_eq dto.kind "queued"
      then decoded (queued dto.queued_at dto.queue_depth)
      else if str_eq dto.kind "matched"
      then assignment_in dto.assignment
      else if str_eq dto.kind "failed"
      then decoded (failed dto.reason dto.message)
      else undecodable

  unfoldable pub unmarshal_event : Str → Decoded Event
  unmarshal_event raw = elim (c.event_of_json raw) [ none ↦ undecodable | some dto ↦ event_of dto ]
