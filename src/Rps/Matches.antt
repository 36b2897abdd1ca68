-- ===== src/Rps/Matches.antt =====
-- examples/rps/plugin/game.go: matches, from Init through any ticks.
use vfx.Base.{
  ℕ, ◌<◌, Bool, true, false, Option, List, [], ◌∷◌, ◌≡◌, ◌≢◌, ◌⊎◌, refl, sym, inl, inr, String, All,
  arith, Option-cases,
}
use vfx.Rps.{
  GameState, PlayerAction, new_game_state, lookup, apply_actions, init, on_tick, ticks, rank_of,
  answer_tick, snapshot_of,
}
use vfx.Rps.Rules.{IsRoster, IsFair, wins, str_eq_self, str_eq_ne}
use vfx.Rps.Rounds.{IsRoster-of}
use vfx.Base.Int.{pos, negsuc}
use vfx.Rps.Plays.{Plays, IsOf, apply_actions-Plays}

-- The results of a match that is over: 1 for who won more rounds and -1 for the other, 0 when they
-- won equally many.
abbrev pub IsRanked : GameState → Type 0
IsRanked s =
    let wins_a = wins s.player_a s.history in
    let wins_b = wins s.player_b s.history in
    ((wins_b < wins_a) × (rank_of s.player_a s ≡ pos 1) × (rank_of s.player_b s ≡ negsuc 0))
    ⊎ ((wins_a < wins_b) × (rank_of s.player_a s ≡ negsuc 0) × (rank_of s.player_b s ≡ pos 1))
    ⊎ ((wins_a ≡ wins_b) × (rank_of s.player_a s ≡ pos 0) × (rank_of s.player_b s ≡ pos 0))

module _ (a b : String) (roster : IsRoster a b) where
  IsFair-IsRanked : (s : GameState) → IsFair a b s → s.match_winner ≢ "" → IsRanked s
  unfolding rank_of
  IsFair-IsRanked s f over = elim f.verdict [
    | inl v ↦ absurd (over v.0)
    | inr (inl v) ↦
        let x = str_eq_ne s.player_a "" r.named_a in
        let y = str_eq_ne s.player_a "draw" r.not_draw_a in
        let z = str_eq_ne s.player_a s.player_b r.distinct in
        inl (v.1, rw v.0 (rw (x, y, str_eq_self s.player_a) refl), rw v.0 (rw (x, y, z) refl))
    | inr (inr (inl v)) ↦
        let x = str_eq_ne s.player_b "" r.named_b in
        let y = str_eq_ne s.player_b "draw" r.not_draw_b in
        let z = str_eq_ne s.player_b s.player_a (λ e. r.distinct (sym e)) in
        inr (inl (v.1, rw v.0 (rw (x, y, z) refl), rw v.0 (rw (x, y, str_eq_self s.player_b) refl)))
    | inr (inr (inr v)) ↦ inr (inr (v.1, rw v.0 refl, rw v.0 refl))
  ]
    where
      r : IsRoster s.player_a s.player_b
      r = IsRoster-of a b roster s f

  init-Plays :
      (encode : GameState → Option (List ℕ))
      → Plays a b roster (init encode (a ∷ b ∷ []) new_game_state).1
  unfolding init lookup
  init-Plays encode =
      answered (record new_game_state { player_a = a; player_b = b })
        (
          record {
            a_plays = refl;
            b_plays = refl;
            counted = refl;
            points_a = refl;
            points_b = refl;
            listed_a = refl;
            listed_b = refl;
            shown = refl;
            fair = tt;
            verdict = inl (refl, omega arith, omega arith, omega arith);
          },
          inl refl,
        )
    where
      answered : (s : GameState) → Plays a b roster s → Plays a b roster (snapshot_of encode s).1
      answered s h = elim (Option-cases (encode s)) [
        | inl e ↦ rw (e, snapshot_of) h
        | inr (snapshot, e) ↦ rw (e, snapshot_of) h
      ]

  ticks-Plays :
      (encode : GameState → Option (List ℕ)) (batches : List (List PlayerAction)) (s : GameState)
      → All (λ actions. All (IsOf a b) actions) batches
      → Plays a b roster s
      → Plays a b roster (ticks encode batches s)
  unfolding ticks on_tick
  ticks-Plays encode [] s own h = h
  ticks-Plays encode (actions ∷ batches) s own h = ticks-Plays encode batches _ own.1 (
      answered (apply_actions actions s false)
        (apply_actions-Plays a b roster actions s false own.0 h))
    where
      answered :
          (r : GameState × Bool) → Plays a b roster r.0 → Plays a b roster (answer_tick encode r).1
      answered (t, false) h = h
      answered (t, true) h = elim (Option-cases (encode t)) [
        | inl e ↦ rw (e, answer_tick) h
        | inr (delta, e) ↦ rw (e, answer_tick) h
      ]

  -- Whatever two distinct players do in however many ticks, if their ids are neither empty nor "draw"
  -- and nobody else acts: every round was won by the rules of the game on two legal choices, no more
  -- than three were played, the scores count the rounds won, the match goes on exactly while neither
  -- has two wins and a round is left, its winner won more rounds, and at its end the ranks agree with
  -- the rounds won.
  pub match-IsFair :
      (encode : GameState → Option (List ℕ)) (batches : List (List PlayerAction))
      → All (λ actions. All (IsOf a b) actions) batches
      → let s = ticks encode batches (init encode (a ∷ b ∷ []) new_game_state).1 in
        IsFair a b s × (s.match_winner ≢ "" → IsRanked s)
  match-IsFair encode batches own =
      let h = ticks-Plays encode batches _ own (init-Plays encode) in (h.0, IsFair-IsRanked _ h.0)
