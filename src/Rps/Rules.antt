-- ===== src/Rps/Rules.antt =====
-- examples/rps/plugin/game.go: the rules of the game, as a description of what its state should say.
use vfx.Base.{
  ℕ, suc, ◌+◌, ◌≤◌, ◌<◌, true, false, some, List, [], ◌∷◌, ◌++◌, ◌≡◌, ◌≢◌, ◌⊎◌, refl, sym, subst,
  ◌∙◌, inl, inr, String, str_eq, eq_iff, ltb, leb, if◌then◌else◌, length, keep, All, arith,
  Bool-cases,
}
use vfx.Rps.{
  GameState, RoundResult, rock, paper, scissors, lookup, insert, normalize, decide_round,
  decide_match, or_zero,
}

pub str_eq_self : (a : String) → str_eq a a ≡ true
str_eq_self a = (eq_iff a a).1 refl

pub str_eq_ne : (a b : String) → a ≢ b → str_eq a b ≡ false
str_eq_ne a b n = elim (Bool-cases (str_eq a b)) [
  | inr other ↦ other
  | inl same ↦ absurd (n ((eq_iff a b).0 same))
]

-- The rules of the game.
pub data Beats : ℕ → ℕ → Type 0 where
  rock_blunts : Beats rock scissors
  paper_wraps : Beats paper rock
  scissors_cut : Beats scissors paper

abbrev pub IsLegal : ℕ → Type 0
IsLegal c = (c ≡ rock) ⊎ (c ≡ paper) ⊎ (c ≡ scissors)

-- Who wins a round.
abbrev pub Decided : String → String → ℕ → ℕ → String → Type 0
Decided a b ca cb winner =
    ((ca ≡ cb) × (winner ≡ "")) ⊎ (Beats ca cb × (winner ≡ a)) ⊎ (Beats cb ca × (winner ≡ b))

pub decide_round-Decided :
    (a b : String) (ca cb : ℕ)
    → IsLegal ca
    → IsLegal cb
    → Decided a b ca cb (decide_round ca cb a b)
unfolding decide_round
decide_round-Decided a b ca cb (inl e) (inl f) = rw (e, f) (inl (refl, refl))
decide_round-Decided a b ca cb (inl e) (inr (inl f)) = rw (e, f) (inr (inr (paper_wraps, refl)))
decide_round-Decided a b ca cb (inl e) (inr (inr f)) = rw (e, f) (inr (inl (rock_blunts, refl)))
decide_round-Decided a b ca cb (inr (inl e)) (inl f) = rw (e, f) (inr (inl (paper_wraps, refl)))
decide_round-Decided a b ca cb (inr (inl e)) (inr (inl f)) = rw (e, f) (inl (refl, refl))
decide_round-Decided a b ca cb (inr (inl e)) (inr (inr f)) =
    rw (e, f) (inr (inr (scissors_cut, refl)))
decide_round-Decided a b ca cb (inr (inr e)) (inl f) = rw (e, f) (inr (inr (rock_blunts, refl)))
decide_round-Decided a b ca cb (inr (inr e)) (inr (inl f)) =
    rw (e, f) (inr (inl (scissors_cut, refl)))
decide_round-Decided a b ca cb (inr (inr e)) (inr (inr f)) = rw (e, f) (inl (refl, refl))

pub normalize-IsLegal : (c : ℕ) → (normalize c ≡ 0) ⊎ IsLegal (normalize c)
unfolding normalize
normalize-IsLegal c = ground arith

-- How a match stands after some rounds: it goes on while neither has two wins and a round is left; once
-- one has two or no round is left, who won more rounds has won, and equal players have drawn.
abbrev pub Verdict : String → String → String → ℕ → ℕ → ℕ → Type 0
Verdict a b winner wins_a wins_b played =
    ((winner ≡ "") × (wins_a < 2) × (wins_b < 2) × (played < 3))
    ⊎ ((winner ≡ a) × (wins_b < wins_a) × (played ≤ 3) × ((wins_a ≡ 2) ⊎ (played ≡ 3)))
    ⊎ ((winner ≡ b) × (wins_a < wins_b) × (played ≤ 3) × ((wins_b ≡ 2) ⊎ (played ≡ 3)))
    ⊎ ((winner ≡ "draw") × (wins_a ≡ wins_b) × (played ≡ 3))

pub decide_match-Verdict :
    (s : GameState) (sa sb : ℕ)
    → s.match_winner ≡ ""
    → sa ≤ 2
    → sb ≤ 2
    → sa + sb ≤ 3
    → s.round ≤ 3
    → Verdict s.player_a s.player_b (decide_match sa sb s) sa sb s.round
decide_match-Verdict s sa sb e ha hb hab hr = elim (Bool-cases (leb 2 sa)) [
  | inl x ↦ rw x (inr (inl (refl, ground arith, hr, inl (ground arith))))
  | inr x ↦ elim (Bool-cases (leb 2 sb)) [
    | inl y ↦ rw (x, y) (inr (inr (inl (refl, ground arith, hr, inl (ground arith)))))
    | inr y ↦ elim (Bool-cases (leb 3 s.round)) [
      | inr z ↦ rw (x, y, z) (inl (e, ground arith, ground arith, ground arith))
      | inl z ↦ elim (Bool-cases (ltb sb sa)) [
        | inl u ↦ rw (x, y, z, u) (inr (inl (refl, ground arith, hr, inr (ground arith))))
        | inr u ↦ elim (Bool-cases (ltb sa sb)) [
          | inl v ↦
              rw (x, y, z, u, v) (inr (inr (inl (refl, ground arith, hr, inr (ground arith)))))
          | inr v ↦ rw (x, y, z, u, v) (inr (inr (inr (refl, ground arith, ground arith))))
        ]
      ]
    ]
  ]
]

-- How many rounds of a history a player has won.
abbrev pub wins : String → List RoundResult → ℕ
wins id history = length (keep (λ (r : RoundResult). str_eq r.winner id) history)

pub wins-snoc :
    (id : String) (history : List RoundResult) (r : RoundResult)
    → wins id (history ++ r ∷ []) ≡ wins id history + (if str_eq r.winner id then 1 else 0)
wins-snoc id [] r = ground arith
wins-snoc id (x ∷ history) r = ground (arith, wins-snoc id history r)

pub lookup-insert :
    {V : Type 0} (k j : String) (v : V) (m : List (String × V))
    → lookup j (insert k v m) ≡ (if str_eq k j then some v else lookup j m)
unfolding lookup insert
lookup-insert k j v [] = refl
lookup-insert k j v ((i, w) ∷ m) = elim (Bool-cases (str_eq i k)) [
  | inr other ↦ elim (Bool-cases (str_eq i j)) [
    | inr e ↦ rw (other, e) (lookup-insert k j v m)
    | inl e ↦ rw (other, e) (rw (str_eq_ne k j (λ q. cc (other, ends q e))) refl)
  ]
  | inl same ↦ elim (Bool-cases (str_eq i j)) [
    | inl e ↦ rw (same, e) (rw (met same e) refl)
    | inr e ↦
        rw (same, e) (elim (Bool-cases (str_eq k j)) [ inl t ↦ rw t refl | inr t ↦ rw t refl ])
  ]
]
  where
    ends : k ≡ j → str_eq i j ≡ true → str_eq i k ≡ true
    ends q e = subst (λ x. str_eq i x ≡ true) (sym q) e

    met : str_eq i k ≡ true → str_eq i j ≡ true → str_eq k j ≡ true
    met x y = (eq_iff k j).1 (sym ((eq_iff i k).0 x) ∙ (eq_iff i j).0 y)

-- A round between two legal choices, won by the rules.
abbrev pub IsFairRound : String → String → RoundResult → Type 0
IsFairRound a b r =
    (ca : ℕ) × (cb : ℕ) × IsLegal ca
    × IsLegal cb
    × (r.choice_a ≡ ca ∷ [])
    × (r.choice_b ≡ cb ∷ [])
    × Decided a b ca cb r.winner

-- Two players, of whom neither is called by a word that the source gives a meaning.
pub record IsRoster (a b : String) : Type 0 where
  pub distinct : a ≢ b
  pub named_a : a ≢ ""
  pub named_b : b ≢ ""
  pub not_draw_a : a ≢ "draw"
  pub not_draw_b : b ≢ "draw"

-- The rounds were played by the rules, and scores and winner agree with them.
pub record IsFair (a b : String) (s : GameState) : Type 0 where
  pub a_plays : s.player_a ≡ a
  pub b_plays : s.player_b ≡ b
  pub counted : s.round ≡ suc (length s.history)
  pub points_a : s.score_a ≡ wins s.player_a s.history
  pub points_b : s.score_b ≡ wins s.player_b s.history
  pub listed_a : or_zero (lookup s.player_a s.scores) ≡ s.score_a
  pub listed_b : or_zero (lookup s.player_b s.scores) ≡ s.score_b
  pub shown : s.shown_winner ≡ s.match_winner
  pub fair : All (IsFairRound s.player_a s.player_b) s.history
  pub verdict :
      Verdict s.player_a s.player_b s.match_winner
        (wins s.player_a s.history)
        (wins s.player_b s.history)
        (length s.history)
