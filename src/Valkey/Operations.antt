-- ===== src/Valkey/Operations.antt =====
-- internal/infra/matchqueue/valkey.go: the methods of the queue, as sequences of commands.
use vfx.Base.{
  ℕ, suc, ◌==◌, Bool, true, false, not, Option, none, some, List, [], ◌∷◌, ◌++◌, String,
  if◌then◌else◌, map,
}
use vfx.Match.Ticket.{Ticket}
use vfx.Queue.{Event, queued, is_terminal, cancelled}
use vfx.Matchmaker.{Answer, value, failure}
use vfx.Valkey.{
  Codec, Server, Key, ticket_key, event_key, stream_key, pending_key, Decoded, decoded, undecodable,
  panics, marshal_ticket, unmarshal_ticket, marshal_event, unmarshal_event,
}

abbrev pub Work : Type 0 → Type 0 → Type 0
Work S A = S → Answer A × S

abbrev pub return : {S A : Type 0} → A → Work S A
return a s = (value a, s)

abbrev pub fail : {S A : Type 0} → String → Work S A
fail e s = (failure e, s)

abbrev pub after : {S A B : Type 0} → (A → Work S B) → Answer A × S → Answer B × S
after f (value a, s) = f a s
after f (failure e, s) = (failure e, s)

infixl 5 ◌>>=◌
abbrev pub ◌>>=◌ : {S A B : Type 0} → Work S A → (A → Work S B) → Work S B
(m >>= f) s = after f (m s)

abbrev pub not_found : String
not_found = "match: ticket not found"

-- What a marshalled value or a value read from a text goes on with.
abbrev pub or_fail : {S A : Type 0} → Option A → Work S A
or_fail none = fail "json"
or_fail (some a) = return a

abbrev pub or_undecodable : {S A : Type 0} → Decoded A → Work S A
or_undecodable (decoded a) = return a
or_undecodable undecodable = fail "json"
or_undecodable panics = fail "panic"

-- A latest event that is there and terminal.
abbrev pub has_ended : Option Event → Bool
has_ended none = false
has_ended (some e) = is_terminal e

module _ {S F Str : Type 0} (sv : Server S F Str) where
  unfoldable pub depth : String → Work S ℕ
  depth mode = sv.zcard (pending_key mode)

  -- claimScript: the first loop looks for a member that is missing, the second removes all.
  unfoldable pub all_there : Key → List Str → S → Bool
  all_there k [] s = true
  all_there k (m ∷ ms) s =
      let rest = all_there k ms s in elim (sv.zscore k m s) [ none ↦ false | some x ↦ rest ]

  unfoldable pub remove_all : Key → List Str → S → S
  remove_all k [] s = s
  remove_all k (m ∷ ms) s = remove_all k ms (sv.zrem_now k m s)

  unfoldable pub claim_script : Key → List Str → S → ℕ × S
  unfolding all_there remove_all
  claim_script k members s =
      if not (all_there k members s) then (0, s) else (1, remove_all k members s)

module _ {S F Str : Type 0} (c : Codec F Str) (sv : Server S F Str) where
  unfoldable pub get_ticket : ℕ → Work S (Ticket F)
  get_ticket id = sv.get (ticket_key id) >>= λ raw. elim raw [
    | none ↦ fail not_found
    | some text ↦ or_fail (unmarshal_ticket c text)
  ]

  -- Subscribe, up to the goroutine that it starts.
  unfoldable pub subscribe : ℕ → Work S (Unit {0})
  unfolding get_ticket
  subscribe id = get_ticket id >>= λ t. return tt

  unfoldable pub latest_event : ℕ → Work S (Option Event)
  latest_event id = sv.get (event_key id) >>= λ raw. elim raw [
    | none ↦ return none
    | some text ↦ or_undecodable (unmarshal_event c text) >>= λ e. return (some e)
  ]

  -- The loop of Pending; a ticket that cannot be read is passed over.
  abbrev pub keep_read : List (Ticket F) → Answer (Ticket F) × S → List (Ticket F) × S
  keep_read out (value t, s) = (out ++ t ∷ [], s)
  keep_read out (failure e, s) = (out, s)

  unfoldable pub read_all : List Str → List (Ticket F) → S → List (Ticket F) × S
  unfolding get_ticket
  read_all [] out s = (out, s)
  read_all (text ∷ texts) out s = elim (c.uuid_parse text) [
    | none ↦ read_all texts out s
    | some id ↦ let r = keep_read out (get_ticket id s) in read_all texts r.0 r.1
  ]

  unfoldable pub pending : String → Work S (List (Ticket F))
  unfolding read_all
  pending mode =
      sv.zrange (pending_key mode) >>= λ texts s. let r = read_all texts [] s in (value r.0, r.1)

  unfoldable pub claim : String → List ℕ → Work S Bool
  unfolding claim_script
  claim mode ids =
      sv.eval (claim_script sv (pending_key mode) (map c.uuid_text ids)) >>= λ r. return (r == 1)

module _ {S F Str : Type 0} (c : Codec F Str) (sv : Server S F Str) (ttl : ℕ) where
  unfoldable pub set_event : ℕ → Event → Work S (Unit {0})
  set_event id event = or_fail (marshal_event c event) >>= λ text. sv.set (event_key id) text ttl

  unfoldable pub xadd_event : ℕ → Event → Work S (Unit {0})
  xadd_event id event = or_fail (marshal_event c event) >>= λ text.
      (sv.xadd (stream_key id) text >>= λ u. sv.expire (stream_key id) ttl)

  unfoldable pub enqueue : Ticket F → Work S (Unit {0})
  unfolding set_event xadd_event
  enqueue t = or_fail (marshal_ticket c t) >>= λ text.
      (sv.set_nx (ticket_key t.id) text ttl >>= λ is_new.
      if not is_new
      then return tt
      else (sv.zcard (pending_key t.game_mode) >>= λ depth.
          (set_event t.id (queued t.enqueued_at (suc depth)) >>= λ u.
          (xadd_event t.id (queued t.enqueued_at (suc depth)) >>= λ v.
          sv.zadd (pending_key t.game_mode) (c.float t.enqueued_at) (c.uuid_text t.id)))))

  unfoldable pub publish_ticket : Ticket F → Event → Work S (Unit {0})
  unfolding set_event xadd_event
  publish_ticket t event = set_event t.id event >>= λ u.
      ((if is_terminal event
          then sv.zrem (pending_key t.game_mode) (c.uuid_text t.id)
          else return tt)
        >>= λ v. xadd_event t.id event)

  unfoldable pub publish : ℕ → Event → Work S (Unit {0})
  unfolding get_ticket publish_ticket
  publish id event = get_ticket c sv id >>= λ t. publish_ticket t event

  unfoldable pub cancel : ℕ → Work S (Unit {0})
  unfolding get_ticket latest_event publish_ticket
  cancel id = get_ticket c sv id >>= λ t.
      (latest_event c sv id >>= λ latest.
      if has_ended latest then return tt else publish_ticket t cancelled)
