-- ===== src/Rps.antt =====
-- examples/rps/plugin/game.go: the plugin that plays rock, paper, scissors. json.Marshal is outside, as
-- a function of the state, which may fail. A byte is a number below 256.
pub mod Rules
pub mod Rounds
pub mod Plays
pub mod Matches
pub mod Tests
use vfx.Base.{
  ℕ, zero, suc, ◌+◌, Bool, true, false, not, ◌&&◌, ◌||◌, Option, none, some, List, [], ◌∷◌, ◌++◌,
  String, str_eq, ltb, leb, ◌==◌, if◌then◌else◌, length,
}
use vfx.Base.Int.{ℤ, pos, negsuc}

abbrev pub rounds : ℕ
rounds = 3

abbrev pub wins_to_win : ℕ
wins_to_win = 2

-- The bytes of the letters R, P and S, in both cases.
abbrev pub rock : ℕ
rock = 82

abbrev pub paper : ℕ
paper = 80

abbrev pub scissors : ℕ
scissors = 83

abbrev pub small_rock : ℕ
small_rock = 114

abbrev pub small_paper : ℕ
small_paper = 112

abbrev pub small_scissors : ℕ
small_scissors = 115

-- A map whose keys are player ids.
module _ {V : Type 0} where
  unfoldable pub lookup : String → List (String × V) → Option V
  lookup id [] = none
  lookup id ((key, v) ∷ others) =
      let below = lookup id others in if str_eq key id then some v else below

  unfoldable pub insert : String → V → List (String × V) → List (String × V)
  insert id new [] = (id, new) ∷ []
  insert id new ((key, v) ∷ others) =
      let below = insert id new others in
      if str_eq key id then (id, new) ∷ others else (key, v) ∷ below

-- roundResult; a choice is the string of one rune.
pub record RoundResult : Type 0 where
  pub round : ℕ
  pub winner : String
  pub choice_a : List ℕ
  pub choice_b : List ℕ

-- gameState: `shown_winner` is the exported MatchWinner, which is what a client sees.
pub record GameState : Type 0 where
  pub player_a : String
  pub player_b : String
  pub round : ℕ
  pub scores : List (String × ℕ)
  pub choices : List (String × ℕ)
  pub history : List RoundResult
  pub shown_winner : String
  pub score_a : ℕ
  pub score_b : ℕ
  pub match_winner : String

pub record PlayerAction : Type 0 where
  pub player_id : String
  pub payload : List ℕ

pub record PlayerResult : Type 0 where
  pub player_id : String
  pub rank : ℤ
  pub wins : ℕ

pub data GameError : Type 0 where
  not_two_players not_encoded : GameError

pub data Answer (A : Type 0) : Type 0 where
  ok : A → Answer A
  err : GameError → Answer A

pub record InitResponse : Type 0 where
  pub tick_rate_hz : ℕ
  pub initial_snapshot : List ℕ

pub record OnTickResponse : Type 0 where
  pub state_delta : Option (List ℕ)
  pub game_ended : Bool

pub record OnGameEndResponse : Type 0 where
  pub final_state : List ℕ
  pub player_results : List PlayerResult

abbrev pub new_game_state : GameState
new_game_state = record {
  player_a = "";
  player_b = "";
  round = 1;
  scores = [];
  choices = [];
  history = [];
  shown_winner = "";
  score_a = 0;
  score_b = 0;
  match_winner = "";
}

-- 0 is no choice.
unfoldable pub normalize : ℕ → ℕ
normalize c =
    if c == rock || c == small_rock
    then rock
    else if c == paper || c == small_paper
    then paper
    else if c == scissors || c == small_scissors
    then scissors
    else 0

unfoldable pub decide_round : ℕ → ℕ → String → String → String
decide_round a b id_a id_b =
    if a == b
    then ""
    else if (a == rock && b == scissors)
        || (a == paper && b == rock)
        || (a == scissors && b == paper)
    then id_a
    else id_b

-- The value of a key that is not there.
abbrev pub or_zero : Option ℕ → ℕ
or_zero none = 0
or_zero (some c) = c

-- The winner of the match, by the scores after a round; empty when it goes on.
abbrev pub decide_match : ℕ → ℕ → GameState → String
decide_match score_a score_b s =
    if leb wins_to_win score_a
    then s.player_a
    else if leb wins_to_win score_b
    then s.player_b
    else if leb rounds s.round
    then (if ltb score_b score_a
        then s.player_a
        else if ltb score_a score_b
        then s.player_b
        else "draw")
    else s.match_winner

-- The score of each player and the exported scores, once the winner of a round is known.
abbrev pub award : String → GameState → GameState
award winner s =
    if str_eq winner s.player_a
    then record s { score_a = suc s.score_a; scores = insert s.player_a (suc s.score_a) s.scores }
    else if str_eq winner s.player_b
    then record s { score_b = suc s.score_b; scores = insert s.player_b (suc s.score_b) s.scores }
    else s

unfoldable pub resolve_round : GameState → GameState
unfolding decide_round
resolve_round s =
    let a = or_zero (lookup s.player_a s.choices) in
    let b = or_zero (lookup s.player_b s.choices) in
    let winner = decide_round a b s.player_a s.player_b in
    let t = award winner s in
    record t {
      history =
          s.history
          ++ record { round = s.round; winner = winner; choice_a = a ∷ []; choice_b = b ∷ [] } ∷ [];
      match_winner = decide_match t.score_a t.score_b s;
      shown_winner = decide_match t.score_a t.score_b s;
      round = suc s.round;
      choices = [];
    }

-- The state, and whether a round was resolved.
abbrev pub choose : String → ℕ → GameState → GameState × Bool
choose id choice s =
    let chosen = record s { choices = insert id choice s.choices } in
    if choice == 0 then (s, false) else elim (lookup id s.choices) [
      | some already ↦ (s, false)
      | none ↦
          if ltb (length chosen.choices) 2 then (chosen, false) else (resolve_round chosen, true)
    ]

abbrev pub apply_payload : String → List ℕ → GameState → GameState × Bool
apply_payload id [] s = (s, false)
apply_payload id (c ∷ cs) s = choose id (normalize c) s

unfoldable pub apply_action : PlayerAction → GameState → GameState × Bool
unfolding normalize insert lookup
apply_action action s = apply_payload action.player_id action.payload s

-- The loop of OnTick, which ends at the action after which a winner is known.
unfoldable pub apply_actions : List PlayerAction → GameState → Bool → GameState × Bool
apply_actions [] s progressed = (s, progressed)
apply_actions (action ∷ actions) s progressed =
    let r = apply_action action s in
    let rest = apply_actions actions r.0 (progressed || r.1) in
    if not (str_eq s.match_winner "") then (s, progressed) else rest

unfoldable pub rank_of : String → GameState → ℤ
rank_of id s =
    if str_eq s.match_winner "" || str_eq s.match_winner "draw"
    then pos 0
    else if str_eq s.match_winner id
    then pos 1
    else negsuc 0

module _ (encode : GameState → Option (List ℕ)) where
  abbrev pub snapshot_of : GameState → Answer InitResponse × GameState
  snapshot_of s = elim (encode s) [
    | none ↦ (err not_encoded, s)
    | some snapshot ↦ (ok (record { tick_rate_hz = 0; initial_snapshot = snapshot }), s)
  ]

  unfoldable pub init : List String → GameState → Answer InitResponse × GameState
  init (a ∷ b ∷ []) s = snapshot_of (record s { player_a = a; player_b = b })
  init _ s = (err not_two_players, s)

  abbrev pub answer_tick : GameState × Bool → Answer OnTickResponse × GameState
  answer_tick (s, false) =
      (ok (record { state_delta = none; game_ended = not (str_eq s.match_winner "") }), s)
  answer_tick (s, true) = elim (encode s) [
    | none ↦ (err not_encoded, s)
    | some delta ↦
        (ok (record { state_delta = some delta; game_ended = not (str_eq s.match_winner "") }), s)
  ]

  unfoldable pub on_tick : List PlayerAction → GameState → Answer OnTickResponse × GameState
  unfolding apply_actions
  on_tick actions s = answer_tick (apply_actions actions s false)

  unfoldable pub on_game_end : GameState → Answer OnGameEndResponse
  unfolding rank_of
  on_game_end s = elim (encode s) [
    | none ↦ err not_encoded
    | some final ↦ ok (record {
      final_state = final;
      player_results =
          record { player_id = s.player_a; rank = rank_of s.player_a s; wins = s.score_a }
          ∷ record { player_id = s.player_b; rank = rank_of s.player_b s; wins = s.score_b }
          ∷ [];
    })
  ]

  -- Ticks one after another; what they answer goes to the host.
  unfoldable pub ticks : List (List PlayerAction) → GameState → GameState
  ticks [] s = s
  ticks (actions ∷ later) s = ticks later (on_tick actions s).1
