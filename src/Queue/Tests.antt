-- ===== src/Queue/Tests.antt =====
-- A sample history of the queue, tests, and the queue's theorems at it.
use mathlib.Core.List.{Memᴰ, Permᴰ, reverse}
use mathlib.Core.List.Memᴰ.{head, tail}
use mathlib.Core.List.Permᴰ
use vfx.Base.{ℕ, true, false, List, [], ◌∷◌, ◌≡◌, ◌↔◌, refl, none, length, All}
use vfx.Match.Ticket.{Ticket}
use vfx.Queue.{
  InMem, done, Call, enqueues, cancels, subscribes, detaches, step, run, new_in_mem, claim, pending,
  depth, count_pending, count_pending_locked, is_pending, enqueue, cancel, publish_locked,
  subscribe, claimable, mark_claimed, deliver, try_send, close, at_channel, is_terminal, find,
  store, delete, failed, queued,
}
use vfx.Queue.Safety.{run-new-Good}
use vfx.Queue.Subscribers.{Good}
use vfx.Queue.Claims.{IsFree, IsTaken, claim_all_or_none, claim_once}
use vfx.Queue.Order.{IsOldestFirst, Waiting, pending-Waiting}

abbrev ticket : ℕ → ℕ → Ticket ℕ
ticket id at = record {
  id = id;
  player_id = 10;
  game_mode = "ranked";
  rating = none;
  region = none;
  party_members = [];
  attributes = [];
  enqueued_at = at;
}

-- Two tickets, one watched twice; one watcher leaves before the ticket is cancelled.
abbrev history : List (Call ℕ)
history =
    enqueues (ticket 1 20)
    ∷ enqueues (ticket 2 10)
    ∷ subscribes 1
    ∷ subscribes 1
    ∷ detaches 1 0
    ∷ cancels 1
    ∷ detaches 1 1
    ∷ cancels 1
    ∷ []

run-new-Good_example : Good (run new_in_mem history)
run-new-Good_example = run-new-Good history

-- Ticket 2 waits with entry state as Enqueue leaves it, ticket 1 came later.
abbrev two_waiting : InMem ℕ
two_waiting = record {
  tickets =
      (1, record { ticket = ticket 1 20; latest = queued 20 1; finished = false; claimed = false })
      ∷ (
        2,
        record { ticket = ticket 2 10; latest = queued 10 2; finished = false; claimed = false },
      )
      ∷ [];
  subscribers = (1, 0 ∷ []) ∷ [];
  channels = record { buffer = queued 20 1 ∷ []; closed = false } ∷ [];
}

two_waiting_reached :
    run new_in_mem (enqueues (ticket 1 20) ∷ enqueues (ticket 2 10) ∷ subscribes 1 ∷ [])
    ≡ done two_waiting
unfolding run step new_in_mem enqueue subscribe find store count_pending_locked count_pending
    is_pending
two_waiting_reached = refl

claim_all_or_none_example :
    (((claim two_waiting (1 ∷ 3 ∷ [])).1 ≡ true) ↔ All (IsFree two_waiting) (1 ∷ 3 ∷ []))
    × ((claim two_waiting (1 ∷ 3 ∷ [])).1 ≡ true
        → All (IsTaken (claim two_waiting (1 ∷ 3 ∷ [])).0.tickets) (1 ∷ 3 ∷ []))
    × ((j : ℕ)
        → (Memᴰ j (1 ∷ 3 ∷ []) → ⊥)
        → find j (claim two_waiting (1 ∷ 3 ∷ [])).0.tickets ≡ find j two_waiting.tickets)
    × ((claim two_waiting (1 ∷ 3 ∷ [])).1 ≡ false
        → (claim two_waiting (1 ∷ 3 ∷ [])).0 ≡ two_waiting)
claim_all_or_none_example = claim_all_or_none two_waiting (1 ∷ 3 ∷ [])

-- After the claim the client cancels; a second matchmaker then loses.
abbrev claimed_then_cancelled : InMem ℕ
claimed_then_cancelled = record {
  tickets =
      (
        1,
        record {
          ticket = ticket 1 20;
          latest = failed "cancelled" "ticket was cancelled by the client";
          finished = true;
          claimed = true;
        },
      )
      ∷ (2, record { ticket = ticket 2 10; latest = queued 10 2; finished = false; claimed = true })
      ∷ [];
  subscribers = [];
  channels =
      record {
        buffer = queued 20 1 ∷ failed "cancelled" "ticket was cancelled by the client" ∷ [];
        closed = true;
      }
      ∷ [];
}

claimed_then_cancelled_reached :
    run (claim two_waiting (1 ∷ 2 ∷ [])).0 (cancels 1 ∷ []) ≡ done claimed_then_cancelled
unfolding run step claim claimable mark_claimed cancel publish_locked deliver at_channel try_send
    close is_terminal find store delete
claimed_then_cancelled_reached = refl

claim_won : (claim two_waiting (1 ∷ 2 ∷ [])).1 ≡ true
unfolding claim claimable find
claim_won = refl

claim_once_example : claim claimed_then_cancelled (3 ∷ 2 ∷ []) ≡ (claimed_then_cancelled, false)
claim_once_example =
    claim_once two_waiting claimed_then_cancelled (1 ∷ 2 ∷ []) (3 ∷ 2 ∷ []) (cancels 1 ∷ []) 2
      claim_won claimed_then_cancelled_reached (tail (head refl)) (tail (head refl))

pending-Waiting_example :
    (ts : List (Ticket ℕ)) × Waiting "ranked" two_waiting.tickets ts
    × Permᴰ (pending reverse two_waiting "ranked") ts
    × IsOldestFirst (pending reverse two_waiting "ranked")
    × (depth two_waiting "ranked" ≡ length (pending reverse two_waiting "ranked"))
pending-Waiting_example = pending-Waiting reverse two_waiting "ranked" (λ l. Permᴰ.reverse l)
