-- ===== src/Room/Match.antt =====
-- internal/usecase/room/match.go: one game, its players and its tick loop. The plugin that runs the rules
-- is outside, as an interface over a state `P`. What goes to the players' sessions is a list of outputs;
-- a send that fails is only logged in the source. A player's uuid and its text are one number.
use vfx.Base.{
  ℕ, ◌+◌, ◌/◌, ◌%◌, ◌^◌, Bool, true, false, Option, none, some, List, [], ◌∷◌, ◌++◌, String,
  if◌then◌else◌, ltb, ◌==◌, length, map,
}
use vfx.Queue.{find, store, delete}

pub record PlayerAction : Type 0 where
  pub player_id : ℕ
  pub client_tick : ℕ
  pub payload : List ℕ

pub data NetworkEvent : Type 0 where
  player_joined : ℕ → NetworkEvent
  player_left : ℕ → String → NetworkEvent

pub record OnTickRequest : Type 0 where
  pub tick : ℕ
  pub timestamp : ℕ
  pub actions : List PlayerAction
  pub network_events : List NetworkEvent

-- A recipient is the uuid that its text parses to, if it does.
pub record OutboundEvent : Type 0 where
  pub kind : String
  pub payload : List ℕ
  pub recipients : List (Option ℕ)

pub record OnTickResponse : Type 0 where
  pub state_delta : List ℕ
  pub events : List OutboundEvent
  pub game_ended : Bool

-- An error is no answer. The answer of OnGameEnd is what marshalling makes of it.
pub record Plugin (P : Type 0) : Type 0 where
  pub on_tick : OnTickRequest → P → Option OnTickResponse × P
  pub on_game_end : ℕ → P → Option (List ℕ) × P
  pub shut : P → P

pub data Frame : Type 0 where
  state_delta : ℕ → ℕ → List ℕ → Frame
  system_event : String → List ℕ → Frame

-- A frame sent over a session, or the session closed.
pub data Output : Type 0 where
  send : ℕ → Frame → Output
  shut_session : ℕ → Output

-- `players` names the session of each player; `output` grows at its end; `is_done` is the closed
-- channel of Run.
pub record Match (P : Type 0) : Type 0 where
  pub players : List (ℕ × ℕ)
  pub current_tick : ℕ
  pub inputs : List PlayerAction
  pub events : List NetworkEvent
  pub output : List Output
  pub plugin : P
  pub is_done : Bool

abbrev pub max_inputs : ℕ
max_inputs = 256

abbrev pub max_events : ℕ
max_events = 32

-- `select { case ch <- x: default: }` on a buffered channel.
unfoldable pub offer : {A : Type 0} → ℕ → A → List A → List A
offer capacity x xs = if ltb (length xs) capacity then xs ++ x ∷ [] else xs

-- The sends of a targeted event: recipients that do not parse or have left are passed over.
unfoldable pub send_to : Frame → List (ℕ × ℕ) → List (Option ℕ) → List Output
send_to frame players [] = []
send_to frame players (none ∷ rs) = send_to frame players rs
send_to frame players (some id ∷ rs) =
    let rest = send_to frame players rs in
    elim (find id players) [ none ↦ rest | some session ↦ send session frame ∷ rest ]

abbrev pub is_empty_list : {A : Type 0} → List A → Bool
is_empty_list [] = true
is_empty_list (x ∷ xs) = false

abbrev pub or_empty : Option (List ℕ) → List ℕ
or_empty none = []
or_empty (some p) = p

module _ {P : Type 0} where
  unfoldable pub new_match : P → Match P
  new_match plugin = record {
    players = [];
    current_tick = 0;
    inputs = [];
    events = [];
    output = [];
    plugin = plugin;
    is_done = false;
  }

  -- The match, and whether the player was let in.
  unfoldable pub join : ℕ → ℕ → Match P → Match P × Bool
  unfolding offer
  join player session m = elim (find player m.players) [
    | some s ↦ (m, false)
    | none ↦ (
      record m {
        players = store player session m.players;
        events = offer max_events (player_joined player) m.events;
      },
      true,
    )
  ]

  unfoldable pub leave : ℕ → String → Match P → Match P
  unfolding offer
  leave player reason m = elim (find player m.players) [
    | none ↦ m
    | some session ↦ record m {
      players = delete player m.players;
      output = m.output ++ shut_session session ∷ [];
      events = offer max_events (player_left player reason) m.events;
    }
  ]

  unfoldable pub submit_input : PlayerAction → Match P → Match P
  unfolding offer
  submit_input action m = record m { inputs = offer max_inputs action m.inputs }

  abbrev pub sessions : Match P → List ℕ
  sessions m = map (λ (x : ℕ × ℕ). x.1) m.players

  unfoldable pub close_all_players : (List (ℕ × ℕ) → List (ℕ × ℕ)) → Match P → Match P
  close_all_players order m = record m {
    output = m.output ++ map (λ (x : ℕ × ℕ). shut_session x.1) (order m.players);
    players = [];
  }

  -- `order` is the order in which the runtime iterates over the map of players.
  unfoldable pub broadcast : (List (ℕ × ℕ) → List (ℕ × ℕ)) → Frame → Match P → Match P
  broadcast order frame m = record m {
    output = m.output ++ map (λ (x : ℕ × ℕ). send x.1 frame) (order m.players);
  }

  unfoldable pub dispatch_event : (List (ℕ × ℕ) → List (ℕ × ℕ)) → OutboundEvent → Match P → Match P
  unfolding broadcast send_to
  dispatch_event order ev m =
      let frame = system_event ev.kind ev.payload in
      if is_empty_list ev.recipients
      then broadcast order frame m
      else record m { output = m.output ++ send_to frame m.players ev.recipients }

  unfoldable pub dispatch_events :
      (List (ℕ × ℕ) → List (ℕ × ℕ)) → List OutboundEvent → Match P → Match P
  dispatch_events order [] m = m
  dispatch_events order (ev ∷ evs) m = dispatch_events order evs (dispatch_event order ev m)

  -- drainActions and drainEvents, and the request that is made of them.
  abbrev pub request : ℕ → Match P → OnTickRequest
  request now m = record {
    tick = m.current_tick;
    timestamp = now;
    actions = m.inputs;
    network_events = m.events;
  }

  abbrev pub drained : P → Match P → Match P
  drained plugin m = record m { inputs = []; events = []; plugin = plugin }

  -- The state delta goes to everybody, when there is one.
  unfoldable pub send_delta : (List (ℕ × ℕ) → List (ℕ × ℕ)) → List ℕ → Match P → Match P
  unfolding broadcast
  send_delta order delta m =
      if is_empty_list delta
      then m
      else broadcast order (state_delta m.current_tick ((m.current_tick + 1) % 2 ^ 32) delta) m

  -- The match after a tick, and whether the game has ended; `none` is an error of the plugin.
  abbrev pub after_tick :
      (List (ℕ × ℕ) → List (ℕ × ℕ)) → Match P → Option OnTickResponse × P → Match P × Option Bool
  after_tick order m (none, p) = (drained p m, none)
  after_tick order m (some r, p) =
      let sent = dispatch_events order r.events (send_delta order r.state_delta (drained p m)) in
      (record sent { current_tick = (sent.current_tick + 1) % 2 ^ 32 }, some r.game_ended)

module _ {P : Type 0} (plugin : Plugin P) (order : List (ℕ × ℕ) → List (ℕ × ℕ)) where
  unfoldable pub tick : ℕ → Match P → Match P × Option Bool
  tick now m = after_tick order m (plugin.on_tick (request now m) m.plugin)

  unfoldable pub finalise : Match P → Match P
  finalise m =
      let r = plugin.on_game_end m.current_tick m.plugin in
      close_all_players order
        (broadcast order (system_event "game_ended" (or_empty r.0)) (record m { plugin = r.1 }))

  -- The deferred calls of Run: the plugin and the channel `done` are closed.
  abbrev pub ended : Match P → Match P
  ended m = record m { plugin = plugin.shut m.plugin; is_done = true }

  abbrev pub after_turn : Match P × Option Bool → Match P
  after_turn (m, none) = ended (close_all_players order m)
  after_turn (m, some true) = ended (finalise m)
  after_turn (m, some false) = m

  -- One turn of the loop of Run: the ticker fired, or the context was cancelled.
  unfoldable pub turn : ℕ → Match P → Match P
  turn now m = after_turn (tick now m)

  unfoldable pub cancel : Match P → Match P
  cancel m = ended (close_all_players order m)

-- What happens to a match. The turns of a loop that has ended do not happen.
pub data Call : Type 0 where
  joins : ℕ → ℕ → Call
  leaves : ℕ → String → Call
  submits : PlayerAction → Call
  ticks : ℕ → Call
  cancels : Call

module _ {P : Type 0} (plugin : Plugin P) (order : List (ℕ × ℕ) → List (ℕ × ℕ)) where
  unfoldable pub step : Call → Match P → Match P
  step (joins player session) m = (join player session m).0
  step (leaves player reason) m = leave player reason m
  step (submits action) m = submit_input action m
  step (ticks now) m = if m.is_done then m else turn plugin order now m
  step cancels m = if m.is_done then m else cancel plugin order m

  unfoldable pub run : List Call → Match P → Match P
  run [] m = m
  run (c ∷ cs) m = run cs (step c m)

-- tickInterval, in nanoseconds.
unfoldable pub tick_interval : ℕ → ℕ
tick_interval rate_hz = if rate_hz == 0 then 50000000 else 1000000000 / rate_hz
