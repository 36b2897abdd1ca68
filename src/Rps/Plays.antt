-- ===== src/Rps/Plays.antt =====
-- examples/rps/plugin/game.go: what the actions of a tick make of a match.
use vfx.Base.{
  ℕ, Bool, true, false, none, some, List, [], ◌∷◌, ◌≡◌, ◌⊎◌, refl, sym, ◌∙◌, inl, inr, String,
  str_eq, eq_iff, ◌==◌, All, arith, Bool-cases,
}
use vfx.Rps.{
  GameState, PlayerAction, lookup, insert, normalize, resolve_round, choose, apply_payload,
  apply_action, apply_actions,
}
use vfx.Rps.Rules.{IsLegal, IsRoster, IsFair, decide_round-Decided, normalize-IsLegal}
use vfx.Rps.Rounds.{played-IsFair}

-- At most one of the players has chosen.
abbrev IsWaiting : GameState → Type 0
IsWaiting s =
    (s.choices ≡ [])
    ⊎ ((id : String) × (c : ℕ) × ((id ≡ s.player_a) ⊎ (id ≡ s.player_b))
        × IsLegal c
        × (s.choices ≡ (id, c) ∷ []))

-- Each action is one of the two players'.
abbrev pub IsOf : String → String → PlayerAction → Type 0
IsOf a b action = (action.player_id ≡ a) ⊎ (action.player_id ≡ b)

module _ (a b : String) (roster : IsRoster a b) where
  resolve_round-IsFair :
      (s : GameState)
      → IsFair a b s
      → s.match_winner ≡ ""
      → (ca cb : ℕ) → IsLegal ca
      → IsLegal cb
      → lookup s.player_a s.choices ≡ some ca
      → lookup s.player_b s.choices ≡ some cb
      → IsFair a b (resolve_round s)
  unfolding resolve_round
  resolve_round-IsFair s f going ca cb legal_a legal_b la lb =
      rw (la, lb)
        (played-IsFair a b roster s f going ca cb legal_a legal_b _
          (decide_round-Decided s.player_a s.player_b ca cb legal_a legal_b))

  with_choices-IsFair :
      (s : GameState) (choices : List (String × ℕ))
      → IsFair a b s
      → IsFair a b (record s { choices = choices })
  with_choices-IsFair s choices f = record {
    a_plays = f.a_plays;
    b_plays = f.b_plays;
    counted = f.counted;
    points_a = f.points_a;
    points_b = f.points_b;
    listed_a = f.listed_a;
    listed_b = f.listed_b;
    shown = f.shown;
    fair = f.fair;
    verdict = f.verdict;
  }

  -- What holds between two actions.
  abbrev pub Plays : GameState → Type 0
  Plays s = IsFair a b s × IsWaiting s

  resolve_round-Plays : (s : GameState) → IsFair a b (resolve_round s) → Plays (resolve_round s)
  unfolding resolve_round
  resolve_round-Plays s f = (f, inl refl)

  -- The second choice of a round.
  second-Plays :
      (s : GameState)
      → IsFair a b s
      → s.match_winner ≡ ""
      → (k id : String) (d c : ℕ) → IsLegal d
      → IsLegal c
      → (k ≡ s.player_a) ⊎ (k ≡ s.player_b)
      → (id ≡ s.player_a) ⊎ (id ≡ s.player_b)
      → str_eq k id ≡ false
      → Plays (resolve_round (record s { choices = (k, d) ∷ (id, c) ∷ [] }))
  unfolding lookup
  second-Plays s f going k id d c ld lc (inl p) (inl q) other =
      cc (other, (eq_iff k id).1 (p ∙ sym q))
  second-Plays s f going k id d c ld lc (inr p) (inr q) other =
      cc (other, (eq_iff k id).1 (p ∙ sym q))
  second-Plays s f going k id d c ld lc (inl p) (inr q) other =
      let t : GameState = record s { choices = (k, d) ∷ (id, c) ∷ [] } in
      let x : str_eq k s.player_a ≡ true = (eq_iff k s.player_a).1 p in
      let y : str_eq k s.player_b ≡ false = rw (← q) other in
      let z : str_eq id s.player_b ≡ true = (eq_iff id s.player_b).1 q in
      resolve_round-Plays t (
        resolve_round-IsFair t (with_choices-IsFair s _ f) going d c ld lc (rw x refl)
          (rw (y, z) refl))
  second-Plays s f going k id d c ld lc (inr p) (inl q) other =
      let t : GameState = record s { choices = (k, d) ∷ (id, c) ∷ [] } in
      let x : str_eq k s.player_b ≡ true = (eq_iff k s.player_b).1 p in
      let y : str_eq k s.player_a ≡ false = rw (← q) other in
      let z : str_eq id s.player_a ≡ true = (eq_iff id s.player_a).1 q in
      resolve_round-Plays t (
        resolve_round-IsFair t (with_choices-IsFair s _ f) going c d lc ld (rw (y, z) refl)
          (rw x refl))

  choose-Plays :
      (s : GameState) (id : String) (c : ℕ)
      → Plays s
      → s.match_winner ≡ ""
      → (id ≡ s.player_a) ⊎ (id ≡ s.player_b)
      → (c ≡ 0) ⊎ IsLegal c
      → Plays (choose id c s).0
  unfolding lookup insert
  choose-Plays s id c h going who legal = elim (Bool-cases (c == 0)) [
    | inl nothing ↦ rw nothing h
    | inr something ↦ elim h.1 [
      | inl empty ↦
          let l : lookup id s.choices ≡ none = rw empty refl in
          let i : insert id c s.choices ≡ (id, c) ∷ [] = rw empty refl in
          rw (something, l, i)
            (with_choices-IsFair s ((id, c) ∷ []) h.0, inr (id, c, who, real something, refl))
      | inr (k, d, first, ld, one) ↦ elim (Bool-cases (str_eq k id)) [
        | inl same ↦
            let l : lookup id s.choices ≡ some d = rw one (rw same refl) in rw (something, l) h
        | inr other ↦
            let l : lookup id s.choices ≡ none = rw one (rw other refl) in
            let i : insert id c s.choices ≡ (k, d) ∷ (id, c) ∷ [] = rw one (rw other refl) in
            rw (something, l, i)
              (second-Plays s h.0 going k id d c ld (real something) first who other)
      ]
    ]
  ]
    where
      real : (c == 0) ≡ false → IsLegal c
      real n = elim legal [ inl z ↦ ground (arith, n, z) | inr l ↦ l ]

  apply_action-Plays :
      (s : GameState) (action : PlayerAction)
      → Plays s
      → s.match_winner ≡ ""
      → IsOf a b action
      → Plays (apply_action action s).0
  unfolding apply_action
  apply_action-Plays s action h going who = go action.payload
    where
      player : (action.player_id ≡ s.player_a) ⊎ (action.player_id ≡ s.player_b)
      player = elim who [ inl e ↦ inl (e ∙ sym h.0.a_plays) | inr e ↦ inr (e ∙ sym h.0.b_plays) ]

      go : (payload : List ℕ) → Plays (apply_payload action.player_id payload s).0
      go [] = h
      go (c ∷ cs) =
          choose-Plays s action.player_id (normalize c) h going player (normalize-IsLegal c)

  pub apply_actions-Plays :
      (actions : List PlayerAction) (s : GameState) (progressed : Bool)
      → All (IsOf a b) actions
      → Plays s
      → Plays (apply_actions actions s progressed).0
  unfolding apply_actions
  apply_actions-Plays [] s progressed own h = h
  apply_actions-Plays (action ∷ actions) s progressed own h =
      elim (Bool-cases (str_eq s.match_winner "")) [
        | inr over ↦ rw over h
        | inl going ↦ rw going (
            apply_actions-Plays actions _ _ own.1
              (apply_action-Plays s action h ((eq_iff s.match_winner "").0 going) own.0))
      ]
