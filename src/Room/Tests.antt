-- ===== src/Room/Tests.antt =====
-- A match of two players under a plugin that ends the game on its second tick, and the theorems about
-- internal/usecase/room/match.go at it.
use mathlib.Core.List.{reverse}
use mathlib.Core.List.Permᴰ
use vfx.Base.{
  All, ◌≤◌, ltb, ℕ, ◌+◌, ◌≡◌, refl, List, [], ◌∷◌, ◌++◌, none, some, arith, ◌==◌, map, take,
}
use vfx.Queue.{find, store, delete}
use vfx.Room.Match.{
  Match, Plugin, PlayerAction, send, shut_session, state_delta, system_event, offer, join, leave,
  broadcast, send_to, dispatch_event, dispatch_events, send_delta, close_all_players, tick, turn,
  finalise, request, Call, joins, leaves, submits, ticks, step, run, new_match, max_inputs,
}
use vfx.Room.Sessions.{IsKeyed}
use vfx.Room.Buffers.{request-submits}
use vfx.Room.Manager.{
  Manager, Thread, looking, creating, initialising, inserting, answered, playing, look, insert,
  cleanup, looks, creates, inits, inserts, discards, run_returns, cleans, decrements, Step, calls,
  moves, Reach, start, next,
}
use vfx.Room.Threads.{sum, plays, holds, is_game, present, times, Listed}
use vfx.Room.Games.{Reach-games, Reach-quiet}
use vfx.Room.Sessions.{one_if}
use vfx.Room.Balance.{balance, entries, run-balance}

abbrev two_ticks : Plugin ℕ
two_ticks = record {
  on_tick = λ r n. (
    some (record {
      state_delta = n ∷ [];
      events =
          record { kind = "seen"; payload = []; recipients = none ∷ some 8 ∷ some 9 ∷ [] } ∷ [];
      game_ended = n == 1;
    }),
    n + 1,
  );
  on_game_end = λ t n. (none, n);
  shut = λ n. 100;
}

abbrev game : List Call
game =
    joins 7 70
    ∷ joins 8 80
    ∷ joins 7 71
    ∷ ticks 1
    ∷ leaves 7 "quit"
    ∷ leaves 7 "quit"
    ∷ ticks 2
    ∷ ticks 3
    ∷ []

run-game :
    (run two_ticks reverse game (new_match 0)).output
    ≡ send 80 (state_delta 0 1 (0 ∷ []))
      ∷ send 70 (state_delta 0 1 (0 ∷ []))
      ∷ send 80 (system_event "seen" [])
      ∷ shut_session 70
      ∷ send 80 (state_delta 1 2 (1 ∷ []))
      ∷ send 80 (system_event "seen" [])
      ∷ send 80 (system_event "game_ended" [])
      ∷ shut_session 80
      ∷ []
unfolding run step join leave offer turn tick finalise broadcast dispatch_event dispatch_events
    send_delta send_to close_all_players new_match find store delete
run-game = refl

abbrev new : Match ℕ
unfolding new_match
new = new_match 0

run-balance_example :
    balance 70 (run two_ticks reverse game new)
    ≡ balance 70 new + entries two_ticks reverse 70 game new
unfolding IsKeyed new
run-balance_example = run-balance two_ticks reverse (λ l. Permᴰ.reverse l) game new 70 tt

abbrev act : ℕ → PlayerAction
act t = record { player_id = 7; client_tick = t; payload = [] }

request-submits_example :
    (request 5 (run two_ticks reverse (map submits (act 1 ∷ act 2 ∷ [])) (new_match 0))).actions
    ≡ take max_inputs ([] ++ act 1 ∷ act 2 ∷ [])
unfolding new_match
request-submits_example =
    request-submits two_ticks reverse (act 1 ∷ act 2 ∷ []) (new_match 0) 5 (omega arith)

-- Two calls for one match that both build a plugin; the second one finds the first one's match.
abbrev raced : List Thread
raced = answered (some 0) ∷ answered (some 0) ∷ []

abbrev after_race : Manager
after_race = record { matches = []; active_matches = 0; next_plugin = 2; closed = 0 ∷ 1 ∷ [] }

infixl 5 ◌|>◌
abbrev ◌|>◌ : {ts us : List Thread} {m n : Manager} → Reach ts m → Step ts m us n → Reach us n
r |> s = next r s

abbrev done : Thread
done = answered (some 0)

abbrev created : ℕ → Manager
created n = record { matches = []; active_matches = 0; next_plugin = n; closed = [] }

abbrev running : List ℕ → Manager
running closed = record {
  matches = (5, 0) ∷ [];
  active_matches = 1;
  next_plugin = 2;
  closed = closed;
}

race : Reach raced after_race
unfolding look insert cleanup find store delete
race =
    start
    |> calls 5 [] (created 0)
    |> calls 5 (looking 5 ∷ []) (created 0)
    |> moves [] (looking 5 ∷ []) (looks 5 (created 0))
    |> moves (creating 5 ∷ []) [] (looks 5 (created 0))
    |> moves [] (creating 5 ∷ []) (creates 5 (created 0))
    |> moves (initialising 5 0 ∷ []) [] (creates 5 (created 1))
    |> moves [] (initialising 5 1 ∷ []) (inits 5 0 (created 2))
    |> moves (inserting 5 0 ∷ []) [] (inits 5 1 (created 2))
    |> moves [] (inserting 5 1 ∷ []) (inserts 5 0 (created 2))
    |> moves (done ∷ playing 5 0 ∷ []) [] (inserts 5 1 (running []))
    |> moves (done ∷ playing 5 0 ∷ []) [] (discards 1 (some 0) (running []))
    |> moves (done ∷ []) (done ∷ []) (run_returns 5 0 (running (1 ∷ [])))
    |> moves (done ∷ []) (done ∷ []) (cleans 5 0 (running (0 ∷ 1 ∷ [])))
    |> moves (done ∷ []) (done ∷ []) (decrements (record after_race { active_matches = 1 }))

Reach-games_example :
    ((id : ℕ) → sum (plays id) raced ≤ 1)
    × ((id : ℕ) → sum (plays id) raced ≡ present (find id after_race.matches))
    × All (Listed after_race.matches) raced
    × ((p : ℕ)
        → times p after_race.closed + sum (holds p) raced ≡ one_if (ltb p after_race.next_plugin))
    × (after_race.active_matches ≡ sum is_game raced)
Reach-games_example = Reach-games raced after_race race

Reach-quiet_example :
    (after_race.matches ≡ [])
    × (after_race.active_matches ≡ 0)
    × ((p : ℕ) → times p after_race.closed ≡ one_if (ltb p after_race.next_plugin))
Reach-quiet_example = Reach-quiet raced after_race race (refl, (refl, tt))
