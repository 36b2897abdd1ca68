-- ===== src/Queue.antt =====
-- internal/infra/matchqueue/inmem.go, the match.Queue of one process, with the events of
-- internal/domain/match/event.go. Each method holds the mutex, so it is one step on the state.
-- A channel is a buffer on a heap of channels; a send on a closed channel and a second close of a
-- channel panic, as in Go.
pub mod Assoc
pub mod Channels
pub mod Wiring
pub mod Subscribers
pub mod Safety
pub mod Claims
pub mod Order
pub mod Changes
pub mod Keys
pub mod Drains
pub mod Tests
use vfx.Base.{
  ℕ, zero, suc, ◌+◌, Bool, true, false, not, ◌&&◌, ◌||◌, Option, none, some, List, [], ◌∷◌, ◌++◌,
  String, str_eq, ltb, ◌==◌, if◌then◌else◌, length, get_elem?, keep,
}
use mathlib.Core.List.{reverse, map}
use vfx.Match.Ticket.{Ticket}

pub record Assignment : Type 0 where
  pub match_id : ℕ
  pub endpoint : String
  pub session_token : String
  pub expires_at : ℕ

pub data Event : Type 0 where
  queued : ℕ → ℕ → Event
  matched : Assignment → Event
  failed : String → String → Event

unfoldable pub is_terminal : Event → Bool
is_terminal (matched a) = true
is_terminal (failed r m) = true
is_terminal (queued t d) = false

-- ticketEntry; `latest` is never nil, since Enqueue sets it.
pub record TicketEntry (F : Type 0) : Type 0 where
  pub ticket : Ticket F
  pub latest : Event
  pub finished : Bool
  pub claimed : Bool

-- A channel of capacity 4: the events sent and not received, oldest first.
pub record Channel : Type 0 where
  pub buffer : List Event
  pub closed : Bool

-- `channels` is the heap: a channel's name is its index. The map of subscribers has one list of
-- channels for each ticket; an id without a list has none.
pub record InMem (F : Type 0) : Type 0 where
  pub tickets : List (ℕ × TicketEntry F)
  pub subscribers : List (ℕ × List ℕ)
  pub channels : List Channel

pub data QueueError : Type 0 where
  ticket_not_found : QueueError

-- The outcome of a method: a value, an error value, or a panic.
pub data Outcome {ℓ} (A : Type ℓ) : Type ℓ where
  done : A → Outcome A
  error : QueueError → Outcome A
  panic : Outcome A

infixl 5 ◌>>=◌
abbrev pub ◌>>=◌ {ℓ κ} : {A : Type ℓ} {B : Type κ} → Outcome A → (A → Outcome B) → Outcome B
done a >>= f = f a
error e >>= f = error e
panic >>= f = panic

module _ {V : Type 0} where
  unfoldable pub find : ℕ → List (ℕ × V) → Option V
  find id [] = none
  find id ((key, value) ∷ others) =
      let below = find id others in if key == id then some value else below

  unfoldable pub store : ℕ → V → List (ℕ × V) → List (ℕ × V)
  store id new [] = (id, new) ∷ []
  store id new ((key, value) ∷ others) =
      let below = store id new others in
      if key == id then (id, new) ∷ others else (key, value) ∷ below

  unfoldable pub delete : ℕ → List (ℕ × V) → List (ℕ × V)
  delete k [] = []
  delete k ((j, w) ∷ m) = let rest = delete k m in if j == k then rest else (j, w) ∷ rest

  abbrev pub set : List V → ℕ → V → List V
  set [] i v = []
  set (x ∷ xs) zero v = v ∷ xs
  set (x ∷ xs) (suc i) v = x ∷ set xs i v

abbrev pub capacity : ℕ
capacity = 4

-- `select { case ch <- event: default: }`
unfoldable pub try_send : Event → Channel → Outcome Channel
try_send e c =
    if c.closed
    then panic
    else done
        (if ltb (length c.buffer) capacity then record c { buffer = c.buffer ++ e ∷ [] } else c)

unfoldable pub close : Channel → Outcome Channel
close c = if c.closed then panic else done (record c { closed = true })

-- An operation on the channel of a name; a name that was never made is a nil channel.
unfoldable pub at_channel : (Channel → Outcome Channel) → List Channel → ℕ → Outcome (List Channel)
at_channel f cs ch = elim (get_elem? cs ch) [
  | none ↦ panic
  | some c ↦ (f c >>= λ c'. done (set cs ch c'))
]

-- The loop of publishLocked over the subscribers of a ticket.
unfoldable pub deliver : Event → Bool → List ℕ → List Channel → Outcome (List Channel)
deliver e terminal [] cs = done cs
deliver e terminal (ch ∷ subs) cs = at_channel (try_send e) cs ch >>= λ cs₁.
    (if terminal then at_channel close cs₁ ch else done cs₁) >>= λ cs₂. deliver e terminal subs cs₂

abbrev pub or_nil : Option (List ℕ) → List ℕ
or_nil none = []
or_nil (some l) = l

abbrev pub cancelled : Event
cancelled = failed "cancelled" "ticket was cancelled by the client"

-- The subscribers without the first that is the target, or none when it is not among them.
unfoldable pub without : ℕ → List ℕ → Option (List ℕ)
without target [] = none
without target (ch ∷ subs) =
    let rest = without target subs in
    if ch == target then some subs else elim rest [ none ↦ none | some l ↦ some (ch ∷ l) ]

abbrev pub receive_from : List Event → List Event
receive_from [] = []
receive_from (e ∷ es) = es

module _ {F : Type 0} where
  unfoldable pub new_in_mem : InMem F
  new_in_mem = record { tickets = []; subscribers = []; channels = [] }

  abbrev pub subs_of : InMem F → ℕ → List ℕ
  subs_of q id = or_nil (find id q.subscribers)

  -- A ticket that waits for a match in the given mode.
  unfoldable pub is_pending : String → TicketEntry F → Bool
  is_pending mode e = if e.finished || e.claimed then false else str_eq e.ticket.game_mode mode

  -- The loop of Depth has a filter of its own.
  unfoldable pub count_pending : String → List (ℕ × TicketEntry F) → ℕ
  count_pending mode [] = 0
  count_pending mode ((id, e) ∷ ts) =
      let n = count_pending mode ts in
      if e.finished || e.claimed then n else if str_eq e.ticket.game_mode mode then n + 1 else n

  unfoldable pub count_pending_locked : InMem F → String → ℕ
  unfolding count_pending
  count_pending_locked q mode = count_pending mode q.tickets

  unfoldable pub depth : InMem F → String → ℕ
  depth q mode = count_pending_locked q mode

  unfoldable pub enqueue : InMem F → Ticket F → InMem F
  enqueue q t = elim (find t.id q.tickets) [
    | some e ↦ q
    | none ↦ record q {
      tickets =
          store t.id
            (record {
              ticket = t;
              latest = queued t.enqueued_at (count_pending_locked q t.game_mode + 1);
              finished = false;
              claimed = false;
            })
            q.tickets;
    }
  ]

  -- publishLocked; the caller has checked that the ticket is there, a nil entry would panic.
  unfoldable pub publish_locked : InMem F → ℕ → Event → Outcome (InMem F)
  publish_locked q id event = elim (find id q.tickets) [
    | none ↦ panic
    | some e ↦ deliver event (is_terminal event) (subs_of q id) q.channels >>= λ cs. done (
        if is_terminal event
        then record {
          tickets = store id (record e { latest = event; finished = true }) q.tickets;
          subscribers = delete id q.subscribers;
          channels = cs;
        }
        else record q { tickets = store id (record e { latest = event }) q.tickets; channels = cs })
  ]

  unfoldable pub cancel : InMem F → ℕ → Outcome (InMem F)
  cancel q id = elim (find id q.tickets) [
    | none ↦ error ticket_not_found
    | some e ↦ if e.finished then done q else publish_locked q id cancelled
  ]

  unfoldable pub publish : InMem F → ℕ → Event → Outcome (InMem F)
  publish q id event = elim (find id q.tickets) [
    | none ↦ error ticket_not_found
    | some e ↦ publish_locked q id event
  ]

  -- Subscribe, to the channel that it returns; its watcher goroutine calls `detach` later.
  unfoldable pub subscribe : InMem F → ℕ → Outcome (InMem F × ℕ)
  subscribe q id = elim (find id q.tickets) [
    | none ↦ error ticket_not_found
    | some e ↦
        let ch = length q.channels in
        done (
          if e.finished
          then (
            record q {
              channels = q.channels ++ record { buffer = e.latest ∷ []; closed = true } ∷ [];
            },
            ch,
          )
          else (
            record q {
              subscribers = store id (subs_of q id ++ ch ∷ []) q.subscribers;
              channels = q.channels ++ record { buffer = e.latest ∷ []; closed = false } ∷ [];
            },
            ch,
          ))
  ]

  unfoldable pub detach : InMem F → ℕ → ℕ → Outcome (InMem F)
  detach q id target = elim (without target (subs_of q id)) [
    | none ↦ done q
    | some l ↦ at_channel close q.channels target >>= λ cs.
        done (record q { subscribers = store id l q.subscribers; channels = cs })
  ]

  unfoldable pub claimable : InMem F → List ℕ → Bool
  claimable q [] = true
  claimable q (id ∷ ids) =
      let rest = claimable q ids in
      elim (find id q.tickets) [
        | none ↦ false
        | some e ↦ if e.finished || e.claimed then false else rest
      ]

  unfoldable pub mark_claimed : List ℕ → List (ℕ × TicketEntry F) → List (ℕ × TicketEntry F)
  mark_claimed [] ts = ts
  mark_claimed (id ∷ ids) ts = elim (find id ts) [
    | none ↦ mark_claimed ids ts
    | some e ↦ mark_claimed ids (store id (record e { claimed = true }) ts)
  ]

  unfoldable pub claim : InMem F → List ℕ → InMem F × Bool
  claim q ids =
      if not (claimable q ids)
      then (q, false)
      else (record q { tickets = mark_claimed ids q.tickets }, true)

  -- sortByEnqueuedAt: each ticket sinks from the end of the sorted part, which is kept reversed.
  unfoldable pub sink : Ticket F → List (Ticket F) → List (Ticket F)
  sink t [] = t ∷ []
  sink t (s ∷ sorted) =
      let rest = sink t sorted in
      if ltb t.enqueued_at s.enqueued_at then s ∷ rest else t ∷ s ∷ sorted

  unfoldable pub sort_by_enqueued_at : List (Ticket F) → List (Ticket F) → List (Ticket F)
  sort_by_enqueued_at sorted [] = reverse sorted
  sort_by_enqueued_at sorted (t ∷ ts) = sort_by_enqueued_at (sink t sorted) ts

  -- `order` is the order in which the runtime iterates over the map of tickets.
  unfoldable pub pending :
      (List (ℕ × TicketEntry F) → List (ℕ × TicketEntry F)) → InMem F → String → List (Ticket F)
  pending order q mode = sort_by_enqueued_at [] (
      map (λ (x : ℕ × TicketEntry F). x.1.ticket)
        (keep (λ (x : ℕ × TicketEntry F). is_pending mode x.1) (order q.tickets)))

  -- A receive by a subscriber, outside the mutex: the oldest event leaves the buffer.
  unfoldable pub receive : InMem F → ℕ → InMem F
  receive q ch = elim (get_elem? q.channels ch) [
    | none ↦ q
    | some c ↦ record q {
      channels = set q.channels ch (record c { buffer = receive_from c.buffer });
    }
  ]

-- The calls that change the queue, and what its clients do between them.
pub data Call (F : Type 0) : Type 0 where
  enqueues : Ticket F → Call F
  cancels subscribes receives : ℕ → Call F
  detaches : ℕ → ℕ → Call F
  publishes : ℕ → Event → Call F
  claims : List ℕ → Call F

unfoldable pub step : {F : Type 0} → InMem F → Call F → Outcome (InMem F)
step q (enqueues t) = done (enqueue q t)
step q (cancels id) = cancel q id
step q (subscribes id) = subscribe q id >>= λ r. done r.0
step q (receives ch) = done (receive q ch)
step q (detaches id ch) = detach q id ch
step q (publishes id e) = publish q id e
step q (claims ids) = done (claim q ids).0

-- An error leaves the state as it was; a panic ends the run.
unfoldable pub run : {F : Type 0} → InMem F → List (Call F) → Outcome (InMem F)
run q [] = done q
run q (c ∷ cs) = elim (step q c) [ done q' ↦ run q' cs | error e ↦ run q cs | panic ↦ panic ]
