-- ===== src/Rps/Tests.antt =====
-- A match of rock, paper, scissors.
use vfx.Base.{
  ◌≡◌, ◌≢◌, refl, inl, inr, List, [], ◌∷◌, ℕ, Option, some, String, str_eq, eq_iff, false,
}
use vfx.Rps.{
  GameState, PlayerAction, new_game_state, init, ticks, on_tick, apply_actions, apply_action,
  normalize, insert, lookup, resolve_round, decide_round, rock, paper, small_paper,
}
use vfx.Rps.Rules.{IsRoster, IsFair}
use vfx.Rps.Matches.{IsRanked, match-IsFair}

differ : (a b : String) → str_eq a b ≡ false → a ≢ b
differ a b n e = cc (n, (eq_iff a b).1 e)

pair-IsRoster : IsRoster "ann" "bob"
pair-IsRoster = record {
  distinct = differ "ann" "bob" refl;
  named_a = differ "ann" "" refl;
  named_b = differ "bob" "" refl;
  not_draw_a = differ "ann" "draw" refl;
  not_draw_b = differ "bob" "draw" refl;
}

abbrev by : String → ℕ → PlayerAction
by id byte = record { player_id = id; payload = byte ∷ [] }

-- A tie, then two rounds for ann; bob's second choice of a round does not count.
abbrev batches : List (List PlayerAction)
batches =
    (by "ann" rock ∷ by "bob" rock ∷ [])
    ∷ (by "bob" rock ∷ by "bob" paper ∷ [])
    ∷ (by "ann" small_paper ∷ by "bob" rock ∷ by "ann" paper ∷ [])
    ∷ []

abbrev as_json : GameState → Option (List ℕ)
as_json s = some (s.round ∷ [])

abbrev last : GameState
last = ticks as_json batches (init as_json ("ann" ∷ "bob" ∷ []) new_game_state).1

last_winner : last.match_winner ≡ "ann"
unfolding ticks init on_tick apply_actions apply_action normalize insert lookup resolve_round
    decide_round
last_winner = refl

match-IsFair_example : IsFair "ann" "bob" last × (last.match_winner ≢ "" → IsRanked last)
match-IsFair_example = match-IsFair "ann" "bob" pair-IsRoster as_json batches (
  (inl refl, (inr refl, tt)),
  ((inr refl, (inr refl, tt)), ((inl refl, (inr refl, (inl refl, tt))), tt)),
)
