-- ===== src/Valkey/Streams.antt =====
-- internal/infra/matchqueue/valkey.go: the events on the stream of a ticket, and the goroutine of Subscribe
-- that reads them.
use vfx.Base.{
  ℕ, ◌+◌, ltb, keep, min, Bool, true, false, some, List, [], ◌∷◌, ◌++◌, ◌≡◌, if◌then◌else◌, take,
}
use vfx.Queue.{Event, is_terminal}
use vfx.Valkey.{
  Codec, EventDto, Decoded, decoded, undecodable, panics, marshal_event, unmarshal_event,
}

-- What one turn of the loop meets: a read that times out, a read that answers so many of the entries
-- after the last one seen, or the end of the subscription (its context, or an error). A context that ends
-- between two events of a reply is a read that answers fewer.
pub data Read : Type 0 where
  timed_out stopped : Read
  answered : ℕ → Read

-- The count of XREAD.
abbrev pub batch : ℕ
batch = 64

-- The id "0", which is below that of every entry.
abbrev pub start_id : ℕ
start_id = 0

-- XREAD answers the entries above an id.
abbrev pub above : {Str : Type 0} → ℕ → ℕ × Str → Bool
above last_id x = ltb last_id x.0

abbrev pub texts_of : {Str : Type 0} → List (ℕ × Str) → List Str
texts_of [] = []
texts_of ((id, text) ∷ entries) = text ∷ texts_of entries

module _ {Str : Type 0} where
  -- What XREAD answers: at most so many of the entries whose id is above the given one.
  unfoldable pub xread : ℕ → ℕ → List (ℕ × Str) → List (ℕ × Str)
  xread count last_id stream = take count (keep (above last_id) stream)

  -- The id of the last entry of a reply, or the one before the reply.
  unfoldable pub seen : ℕ → List (ℕ × Str) → ℕ
  seen last_id [] = last_id
  seen last_id ((id, text) ∷ entries) = seen id entries

module _ {F Str : Type 0} (c : Codec F Str) where
  -- The events that one reply sends on the channel, and whether the subscription has ended with it.
  abbrev pub send : Decoded Event → List Event × Bool → List Event × Bool
  send (decoded e) rest = if is_terminal e then (e ∷ [], true) else (e ∷ rest.0, rest.1)
  send undecodable rest = rest
  send panics rest = ([], true)

  unfoldable pub deliver_reply : List Str → List Event × Bool
  deliver_reply [] = ([], false)
  deliver_reply (entry ∷ entries) = send (unmarshal_event c entry) (deliver_reply entries)

  -- The loop of the goroutine, with the id of the last entry seen.
  unfoldable pub follow_from : List Read → ℕ → List (ℕ × Str) → List Event
  unfolding deliver_reply xread seen
  follow_from [] last_id stream = []
  follow_from (stopped ∷ reads) last_id stream = []
  follow_from (timed_out ∷ reads) last_id stream = follow_from reads last_id stream
  follow_from (answered n ∷ reads) last_id stream =
      let entries = xread (min n batch) last_id stream in
      let reply = deliver_reply (texts_of entries) in
      let later = follow_from reads (seen last_id entries) stream in
      if reply.1 then reply.0 else reply.0 ++ later

  unfoldable pub follow : List Read → List (ℕ × Str) → List Event
  unfolding follow_from
  follow reads stream = follow_from reads start_id stream

  -- What the packages encoding/json and uuid document of the texts of events: they read back.
  pub record IsFaithful : Type 0 where
    pub uuids : (id : ℕ) → c.uuid_parse (c.uuid_text id) ≡ some id
    pub events :
        (dto : EventDto Str) (text : Str)
        → c.event_json dto ≡ some text
        → c.event_of_json text ≡ some dto

-- How many entries are read until the subscription is stopped.
abbrev pub reached : List Read → ℕ
reached [] = 0
reached (stopped ∷ reads) = 0
reached (timed_out ∷ reads) = reached reads
reached (answered n ∷ reads) = min n batch + reached reads

-- The events up to the first terminal one.
abbrev pub upto_terminal : List Event → List Event
upto_terminal [] = []
upto_terminal (e ∷ es) = if is_terminal e then e ∷ [] else e ∷ upto_terminal es

-- The entries of a stream are the texts of some events.
pub data Texts {F Str : Type 0} (c : Codec F Str) : List Event → List Str → Type 0 where
  nothing : Texts c [] []
  appended :
      {e : Event} {es : List Event} {text : Str} {texts : List Str}
      → marshal_event c e ≡ some text
      → Texts c es texts
      → Texts c (e ∷ es) (text ∷ texts)
