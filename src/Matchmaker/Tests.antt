-- ===== src/Matchmaker/Tests.antt =====
-- Runs of the matchmaker in a process that runs alone.
use mathlib.Core.List.Permᴰ
use vfx.Base.Int.{pos}
use vfx.Match.Tests.{whole_points}
use vfx.Matchmaker.Local.{local_intake}
use vfx.Matchmaker.Loop.{Config, new_matchmaker, process_mode}
use vfx.Matchmaker.Turns.{IsDrained, process_mode_ends}
use vfx.Matchmaker.Tickets.{TicketInput, created, IsAdmissible, Waits, create_ticket-Waits}
use vfx.Queue.{done, depth}
use vfx.Base.{
  Option, String, arith, ◌⊎◌, ℕ, ◌≡◌, refl, true, List, [], ◌∷◌, All, some, none, map, ◌==◌, ◌+◌,
  if◌then◌else◌, ltb,
}
use vfx.Match.Ticket.{Ticket}
use vfx.Matchmaker.Assignments.{get, put, get-put}
use vfx.Queue.{
  InMem, Assignment, new_in_mem, enqueue, claim, claimable, find, store, is_pending, count_pending,
  count_pending_locked,
}
use vfx.Queue.Safety.{run-new-Good}
use vfx.Queue.Subscribers.{IsSafe}
use vfx.Queue.{run, step, enqueues}
use vfx.Matchmaker.{value, failure, pair}
use vfx.Matchmaker.Laws.{pair_tells_all}
use vfx.Matchmaker.Local.{World, Outside, local, local-Telling, HasEnded}

abbrev ticket : ℕ → Ticket ℕ
ticket n = record {
  id = n;
  player_id = 100 + n;
  game_mode = "duel";
  rating = none;
  region = none;
  party_members = [];
  attributes = [];
  enqueued_at = n;
}

abbrev duel : List (Ticket ℕ)
duel = ticket 1 ∷ ticket 2 ∷ []

-- Signing works for player 101 alone.
abbrev outside : Outside
outside = record {
  allocate = λ n mode size. value (record { match_id = 7; endpoint = "room" });
  sign_session =
      λ n player m players now ttl. if player == 101 then value "token" else failure "no key";
  now = λ n. n;
}

abbrev queued : InMem ℕ
queued = enqueue (enqueue new_in_mem (ticket 1)) (ticket 2)

queued-IsSafe : IsSafe queued
unfolding run step
queued-IsSafe = run-new-Good (enqueues (ticket 1) ∷ enqueues (ticket 2) ∷ [])

abbrev start : World ℕ
start = record { queue = queued; entries = []; calls = 0; matches = 0; queue_depths = [] }

claimed : ((local outside).claim "duel" (map (λ (t : Ticket ℕ). t.id) duel) start).0 ≡ value true
unfolding enqueue new_in_mem claim claimable find store is_pending count_pending_locked
    count_pending
claimed = refl

pair_tells_all_example :
    All (λ (t : Ticket ℕ). HasEnded t.id (pair (local outside) 60 "duel" duel start).1) duel
pair_tells_all_example =
    pair_tells_all (local outside) (local-Telling outside) 60 "duel" duel start queued-IsSafe
      claimed

abbrev place : Assignment
place = record { match_id = 7; endpoint = "room"; session_token = "token"; expires_at = 60 }

get-put_example :
    (get 61 101 (put 0 101 place 60 [])).0
    ≡ (if 101 == 101 then (if ltb (0 + 60) 61 then none else some place) else (get 61 101 []).0)
get-put_example = get-put 61 0 101 101 place 60 []

abbrev config : Config ℕ
config = record {
  interval = pos 0;
  session_token_ttl = 60;
  players_per_match = pos 0;
  game_modes = "duel" ∷ [];
  base_rating_window = 0;
  rating_window_growth_per_sec = 0;
  region_relax_after = pos 0;
}

abbrev as_it_is : {A : Type 0} → List A → List A
as_it_is l = l

queued-run : run new_in_mem (enqueues (ticket 1) ∷ enqueues (ticket 2) ∷ []) ≡ done queued
unfolding run step
queued-run = refl

queued-depth : depth queued "duel" ≡ 2
unfolding depth count_pending_locked count_pending enqueue new_in_mem find store is_pending
queued-depth = refl

process_mode_ends_example :
    let r =
      process_mode whole_points
        (local outside)
        (local_intake as_it_is)
        (new_matchmaker whole_points config)
        as_it_is
        3
        "duel"
        start in
    (error : Option String) × (r.0 ≡ some error)
    × (error ≡ none → IsDrained whole_points config as_it_is as_it_is "duel" 0 r.1)
process_mode_ends_example =
    process_mode_ends whole_points outside config as_it_is (λ qs. Permᴰ.refl qs) as_it_is
      (λ l. Permᴰ.refl l) (enqueues (ticket 1) ∷ enqueues (ticket 2) ∷ []) start "duel" 3 queued-run
      (omega (arith, queued-depth))

abbrev duo_request : TicketInput ℕ
duo_request = record {
  player_id = 103;
  game_mode = "duel";
  rating = none;
  region = none;
  party_members = 104 ∷ 103 ∷ [];
  attributes = [];
}

fresh : find 3 queued.tickets ≡ none
unfolding enqueue new_in_mem find store
fresh = refl

create_ticket-Waits_example :
    ((e : String) × (created whole_points 2 as_it_is 3 9 duo_request queued ≡ (failure e, queued))
      × ¬ IsAdmissible whole_points 2 as_it_is 3 9 duo_request)
    ⊎ (((created whole_points 2 as_it_is 3 9 duo_request queued).0 ≡ value 3)
        × IsAdmissible whole_points 2 as_it_is 3 9 duo_request
        × Waits whole_points 2 as_it_is 3 9 duo_request queued
            (created whole_points 2 as_it_is 3 9 duo_request queued).1)
create_ticket-Waits_example =
    create_ticket-Waits whole_points 2 as_it_is 3 9 duo_request queued fresh
