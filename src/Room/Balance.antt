-- ===== src/Room/Balance.antt =====
-- The sessions of internal/usecase/room/match.go over sequences of calls.
use mathlib.Core.List.{Permᴰ}
use vfx.Base.{
  ℕ, ◌+◌, ◌≡◌, refl, sym, ap, ◌∙◌, subst, Bool, true, false, Option, none, some, List, [], ◌∷◌, map,
  String, ◌==◌, arith, if◌then◌else◌, Bool-cases, Option-cases, inl, inr,
}
use vfx.Queue.{find}
use vfx.Room.Match.{
  Match, Plugin, Frame, shut_session, OutboundEvent, OnTickResponse, join, leave, submit_input,
  broadcast, dispatch_event, dispatch_events, system_event, send_delta, close_all_players,
  after_tick, after_turn, tick, turn, cancel, finalise, request, drained, is_empty_list, or_empty,
  Call, joins, leaves, submits, ticks, cancels, step, run,
}
use vfx.Room.Sessions.{
  one_if, closes, holds, IsKeyed, closes-append, closes-sends, closes-send_to, closes-shuts,
  holds-perm, holds-store, holds-delete, IsKeyed-store, IsKeyed-delete,
}

-- An order in which the runtime iterates over the map of players.
abbrev pub Order : Type 0
Order = List (ℕ × ℕ) → List (ℕ × ℕ)

abbrev pub IsPermutation : Order → Type 0
IsPermutation order = (xs : List (ℕ × ℕ)) → Permᴰ (order xs) xs

-- Whether a call lets a session in.
abbrev pub lets_in : {P : Type 0} → ℕ → Call → Match P → ℕ
lets_in s (joins player t) m = elim (find player m.players) [ none ↦ one_if (t == s) | some u ↦ 0 ]
lets_in s (leaves player reason) m = 0
lets_in s (submits a) m = 0
lets_in s (ticks now) m = 0
lets_in s cancels m = 0

module _ {P : Type 0} where
  -- The players are the same, and no session was closed.
  abbrev pub Calm : Match P → Match P → Type 0
  Calm m n = (n.players ≡ m.players) × ((s : ℕ) → closes s n.output ≡ closes s m.output)

  Calm-trans : (m n k : Match P) → Calm m n → Calm n k → Calm m k
  Calm-trans m n k a b = (b.0 ∙ a.0, λ s. b.1 s ∙ a.1 s)

  broadcast-Calm : (order : Order) (f : Frame) (m : Match P) → Calm m (broadcast order f m)
  unfolding broadcast
  broadcast-Calm order f m =
      (refl, λ s. closes-append s m.output _ ∙ omega (arith, closes-sends s f (order m.players)))

  send_delta-Calm : (order : Order) (d : List ℕ) (m : Match P) → Calm m (send_delta order d m)
  unfolding send_delta
  send_delta-Calm order [] m = (refl, λ s. refl)
  send_delta-Calm order (b ∷ d) m = broadcast-Calm order _ m

  dispatch_event-Calm :
      (order : Order) (ev : OutboundEvent) (m : Match P) → Calm m (dispatch_event order ev m)
  unfolding dispatch_event
  dispatch_event-Calm order ev m = elim (Bool-cases (is_empty_list ev.recipients)) [
    | inl e ↦ rw (e, dispatch_event) (broadcast-Calm order (system_event ev.kind ev.payload) m)
    | inr e ↦
        rw (e, dispatch_event)
          (
            refl,
            λ s.
                closes-append s m.output _
                ∙ omega (
                  arith,
                  closes-send_to s (system_event ev.kind ev.payload) m.players ev.recipients,
                ),
          )
  ]

  dispatch_events-Calm :
      (order : Order) (evs : List OutboundEvent) (m : Match P)
      → Calm m (dispatch_events order evs m)
  unfolding dispatch_events
  dispatch_events-Calm order [] m = (refl, λ s. refl)
  dispatch_events-Calm order (ev ∷ evs) m =
      let n = dispatch_event order ev m in
      Calm-trans m n (dispatch_events order evs n) (dispatch_event-Calm order ev m)
        (dispatch_events-Calm order evs n)

  after_tick-Calm :
      (order : Order) (m : Match P) (r : Option OnTickResponse × P)
      → Calm m (after_tick order m r).0
  after_tick-Calm order m (none, p) = (refl, λ s. refl)
  after_tick-Calm order m (some r, p) =
      let n = send_delta order r.state_delta (drained p m) in
      Calm-trans m n (dispatch_events order r.events n)
        (send_delta-Calm order r.state_delta (drained p m)) (dispatch_events-Calm order r.events n)

  -- How often a session was closed or is held.
  abbrev pub balance : ℕ → Match P → ℕ
  balance s m = closes s m.output + holds s m.players

  -- A state that follows one without letting anybody in.
  abbrev Even : Match P → Match P → Type 0
  Even m n = (IsKeyed m.players → IsKeyed n.players) × ((s : ℕ) → balance s n ≡ balance s m)

  Calm-Even : (m n : Match P) → Calm m n → Even m n
  Calm-Even m n c = (λ k. subst IsKeyed (sym c.0) k, λ s. omega (arith, c.1 s, ap (holds s) c.0))

  Even-trans : (m n k : Match P) → Even m n → Even n k → Even m k
  Even-trans m n k a b = (λ h. b.0 (a.0 h), λ s. b.1 s ∙ a.1 s)

  close_all_players-Even :
      (order : Order) → IsPermutation order → (m : Match P) → Even m (close_all_players order m)
  unfolding close_all_players IsKeyed holds
  close_all_players-Even order perm m = (
    λ k. tt,
    λ s. omega (
      arith,
      closes-append s m.output (map (λ (x : ℕ × ℕ). shut_session x.1) (order m.players)),
      closes-shuts s (order m.players),
      holds-perm s (perm m.players),
    ),
  )

module _ {P : Type 0} (plugin : Plugin P) (order : List (ℕ × ℕ) → List (ℕ × ℕ)) where
  -- How often a session is let in over a sequence of calls.
  unfoldable pub entries : ℕ → List Call → Match P → ℕ
  entries s [] m = 0
  entries s (c ∷ cs) m = lets_in s c m + entries s cs (step plugin order c m)

module _ {P : Type 0} (plugin : Plugin P) (order : List (ℕ × ℕ) → List (ℕ × ℕ))
    (perm : IsPermutation order) where
  finalise-Even : (m : Match P) → Even m (finalise plugin order m)
  unfolding finalise
  finalise-Even m =
      let r = plugin.on_game_end m.current_tick m.plugin in
      let frame = system_event "game_ended" (or_empty r.0) in
      let n = broadcast order frame (record m { plugin = r.1 }) in
      Even-trans m n (close_all_players order n)
        (Calm-Even m n (broadcast-Calm order frame (record m { plugin = r.1 })))
        (close_all_players-Even order perm n)

  after_turn-Even :
      (m : Match P) (r : Match P × Option Bool) → Calm m r.0 → Even m (after_turn plugin order r)
  after_turn-Even m (n, none) c =
      Even-trans m n (close_all_players order n) (Calm-Even m n c)
        (close_all_players-Even order perm n)
  after_turn-Even m (n, some true) c =
      Even-trans m n (finalise plugin order n) (Calm-Even m n c) (finalise-Even n)
  after_turn-Even m (n, some false) c = Calm-Even m n c

  join-balance :
      (player t : ℕ) (m : Match P)
      → IsKeyed m.players
      → IsKeyed (join player t m).0.players
        × ((s : ℕ) → balance s (join player t m).0 ≡ balance s m + lets_in s (joins player t) m)
  unfolding join
  join-balance player t m k = elim (Option-cases (find player m.players)) [
    | inl e ↦
        rw (e, join, lets_in)
          (
            IsKeyed-store player t m.players e k,
            λ s. omega (arith, holds-store s player t m.players e),
          )
    | inr (u, e) ↦ rw (e, join, lets_in) (k, λ s. omega arith)
  ]

  leave-Even :
      (player : ℕ) (reason : String) (m : Match P)
      → IsKeyed m.players
      → Even m (leave player reason m)
  unfolding leave closes
  leave-Even player reason m k = elim (Option-cases (find player m.players)) [
    | inl e ↦ rw (e, leave) (λ h. h, λ s. refl)
    | inr (t, e) ↦
        rw (e, leave)
          (
            IsKeyed-delete player m.players,
            λ s. omega (
              arith,
              closes-append s m.output (shut_session t ∷ []),
              holds-delete s player t m.players k e,
            ),
          )
  ]

  turn-Even : (now : ℕ) (m : Match P) → Even m (turn plugin order now m)
  unfolding turn tick
  turn-Even now m =
      let r = plugin.on_tick (request now m) m.plugin in
      after_turn-Even m (after_tick order m r) (after_tick-Calm order m r)

  cancel-Even : (m : Match P) → Even m (cancel plugin order m)
  unfolding cancel
  cancel-Even m = close_all_players-Even order perm m

  if-Even : (b : Bool) (m n : Match P) → Even m n → Even m (if b then m else n)
  if-Even true m n h = (λ k. k, λ s. refl)
  if-Even false m n h = h

  abbrev Balanced : Call → Match P → Type 0
  Balanced c m =
      IsKeyed (step plugin order c m).players
      × ((s : ℕ) → balance s (step plugin order c m) ≡ balance s m + lets_in s c m)

  even :
      (m n : Match P)
      → IsKeyed m.players
      → Even m n
      → IsKeyed n.players × ((s : ℕ) → balance s n ≡ balance s m + 0)
  even m n k h = (h.0 k, λ s. omega (arith, h.1 s))

  step-Balanced : (c : Call) (m : Match P) → IsKeyed m.players → Balanced c m
  unfolding step submit_input
  step-Balanced (joins player t) m k = join-balance player t m k
  step-Balanced (leaves player reason) m k =
      even m (leave player reason m) k (leave-Even player reason m k)
  step-Balanced (submits a) m k = (k, λ s. omega arith)
  step-Balanced (ticks now) m k =
      even m (if m.is_done then m else turn plugin order now m) k
        (if-Even m.is_done m (turn plugin order now m) (turn-Even now m))
  step-Balanced cancels m k =
      even m (if m.is_done then m else cancel plugin order m) k
        (if-Even m.is_done m (cancel plugin order m) (cancel-Even m))

  -- Over any sequence of calls to a match, a session is closed or still held exactly as often as a
  -- player was let in with it: none is closed twice, and none is forgotten. The order in which the
  -- runtime iterates over the players is any permutation.
  pub run-balance :
      (cs : List Call) (m : Match P) (s : ℕ)
      → IsKeyed m.players
      → balance s (run plugin order cs m) ≡ balance s m + entries plugin order s cs m
  unfolding run entries
  run-balance [] m s k = omega arith
  run-balance (c ∷ cs) m s k =
      let b = step-Balanced c m k in
      omega (arith, run-balance cs (step plugin order c m) s b.0, b.1 s)
