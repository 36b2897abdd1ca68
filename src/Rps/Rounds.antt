-- ===== src/Rps/Rounds.antt =====
-- examples/rps/plugin/game.go: what a round makes of a match.
use vfx.Base.{
  ℕ, suc, ◌+◌, ◌≤◌, ◌<◌, [], ◌∷◌, ◌++◌, ◌≡◌, refl, sym, ◌∙◌, inl, inr, String, str_eq,
  if◌then◌else◌, length, length-append, All, All-append, arith,
}
use vfx.Rps.{GameState, RoundResult, decide_match, award}
use vfx.Rps.Rules.{
  IsLegal, Decided, Verdict, wins, IsFairRound, IsRoster, IsFair, str_eq_self, str_eq_ne,
  decide_match-Verdict, wins-snoc, lookup-insert,
}

module _ (a b : String) (roster : IsRoster a b) where
  pub IsRoster-of : (s : GameState) → IsFair a b s → IsRoster s.player_a s.player_b
  IsRoster-of s f = rw (f.a_plays, f.b_plays) roster

  -- A match that goes on.
  going :
      (s : GameState)
      → IsFair a b s
      → s.match_winner ≡ ""
      → (s.score_a < 2) × (s.score_b < 2) × (length s.history < 3)
  going s f e = elim f.verdict [
    | inl v ↦ (rw f.points_a v.1, rw f.points_b v.2, v.3)
    | inr (inl v) ↦ absurd ((IsRoster-of s f).named_a (sym v.0 ∙ e))
    | inr (inr (inl v)) ↦ absurd ((IsRoster-of s f).named_b (sym v.0 ∙ e))
    | inr (inr (inr v)) ↦ cc (v.0, e)
  ]

  -- A round in which both players have chosen keeps the match fair.
  module _ (s : GameState) (f : IsFair a b s) (open_match : s.match_winner ≡ "") (ca cb : ℕ)
      (legal_a : IsLegal ca) (legal_b : IsLegal cb) where
    abbrev entry : String → RoundResult
    entry winner = record {
      round = s.round;
      winner = winner;
      choice_a = ca ∷ [];
      choice_b = cb ∷ [];
    }

    abbrev pub played : String → GameState
    played winner =
        let t = award winner s in
        record t {
          history = s.history ++ entry winner ∷ [];
          match_winner = decide_match t.score_a t.score_b s;
          shown_winner = decide_match t.score_a t.score_b s;
          round = suc s.round;
          choices = [];
        }

    played-Verdict :
        (winner : String) (sa sb : ℕ)
        → sa ≡ wins s.player_a (s.history ++ entry winner ∷ [])
        → sb ≡ wins s.player_b (s.history ++ entry winner ∷ [])
        → sa + sb ≤ suc (s.score_a + s.score_b)
        → sa ≤ 2
        → sb ≤ 2
        → Verdict s.player_a s.player_b
            (decide_match sa sb s)
            (wins s.player_a (s.history ++ entry winner ∷ []))
            (wins s.player_b (s.history ++ entry winner ∷ []))
            (length (s.history ++ entry winner ∷ []))
    played-Verdict winner sa sb ea eb hab ha hb =
        let g = going s f open_match in
        let n : s.round ≡ length (s.history ++ entry winner ∷ []) =
          omega (arith, f.counted, length-append s.history (entry winner ∷ [])) in
        rw (← ea, ← eb, ← n)
          (decide_match-Verdict s sa sb open_match ha hb (omega (arith, hab, g.0, g.1))
            (omega (arith, f.counted, g.2)))

    history-fair :
        (winner : String)
        → Decided s.player_a s.player_b ca cb winner
        → All (IsFairRound s.player_a s.player_b) (s.history ++ entry winner ∷ [])
    history-fair winner d =
        All-append (IsFairRound s.player_a s.player_b) s.history (entry winner ∷ []) f.fair
          ((ca, cb, legal_a, legal_b, refl, refl, d), tt)

    pub played-IsFair :
        (winner : String) → Decided s.player_a s.player_b ca cb winner → IsFair a b (played winner)
    played-IsFair winner d = elim d [
      | inl (same, e) ↦ rw e (tied (inl (same, refl)))
      | inr (inl (beats, e)) ↦ rw e (won_a (inr (inl (beats, refl))))
      | inr (inr (beats, e)) ↦ rw e (won_b (inr (inr (beats, refl))))
    ]
      where
        r : IsRoster s.player_a s.player_b
        r = IsRoster-of s f

        snoc :
            (id w : String)
            → wins id (s.history ++ entry w ∷ [])
              ≡ wins id s.history + (if str_eq w id then 1 else 0)
        snoc id w = wins-snoc id s.history (entry w)

        length_snoc : (w : String) → suc s.round ≡ suc (length (s.history ++ entry w ∷ []))
        length_snoc w = omega (arith, f.counted, length-append s.history (entry w ∷ []))

        tied : Decided s.player_a s.player_b ca cb "" → IsFair a b (played "")
        tied d =
            let x = str_eq_ne "" s.player_a (λ q. r.named_a (sym q)) in
            let y = str_eq_ne "" s.player_b (λ q. r.named_b (sym q)) in
            let g = going s f open_match in
            let pa : s.score_a ≡ wins s.player_a (s.history ++ entry "" ∷ []) =
              omega (arith, f.points_a, rw x at (snoc s.player_a "")) in
            let pb : s.score_b ≡ wins s.player_b (s.history ++ entry "" ∷ []) =
              omega (arith, f.points_b, rw y at (snoc s.player_b "")) in
            rw (x, y)
              (record {
                a_plays = f.a_plays;
                b_plays = f.b_plays;
                counted = length_snoc "";
                points_a = pa;
                points_b = pb;
                listed_a = f.listed_a;
                listed_b = f.listed_b;
                shown = refl;
                fair = history-fair "" d;
                verdict =
                    played-Verdict "" s.score_a s.score_b pa pb (omega arith) (omega (arith, g.0))
                      (omega (arith, g.1));
              })

        won_a : Decided s.player_a s.player_b ca cb s.player_a → IsFair a b (played s.player_a)
        won_a d =
            let x = str_eq_self s.player_a in
            let y = str_eq_ne s.player_a s.player_b r.distinct in
            let g = going s f open_match in
            let pa : suc s.score_a ≡ wins s.player_a (s.history ++ entry s.player_a ∷ []) =
              omega (arith, f.points_a, rw x at (snoc s.player_a s.player_a)) in
            let pb : s.score_b ≡ wins s.player_b (s.history ++ entry s.player_a ∷ []) =
              omega (arith, f.points_b, rw y at (snoc s.player_b s.player_a)) in
            rw x (record {
              a_plays = f.a_plays;
              b_plays = f.b_plays;
              counted = length_snoc s.player_a;
              points_a = pa;
              points_b = pb;
              listed_a = rw (lookup-insert, x) refl;
              listed_b = rw (lookup-insert, y) f.listed_b;
              shown = refl;
              fair = history-fair s.player_a d;
              verdict =
                  played-Verdict s.player_a (suc s.score_a) s.score_b pa pb (omega arith)
                    (omega (arith, g.0)) (omega (arith, g.1));
            })

        won_b : Decided s.player_a s.player_b ca cb s.player_b → IsFair a b (played s.player_b)
        won_b d =
            let x = str_eq_self s.player_b in
            let y = str_eq_ne s.player_b s.player_a (λ q. r.distinct (sym q)) in
            let g = going s f open_match in
            let pa : s.score_a ≡ wins s.player_a (s.history ++ entry s.player_b ∷ []) =
              omega (arith, f.points_a, rw y at (snoc s.player_a s.player_b)) in
            let pb : suc s.score_b ≡ wins s.player_b (s.history ++ entry s.player_b ∷ []) =
              omega (arith, f.points_b, rw x at (snoc s.player_b s.player_b)) in
            rw (y, x)
              (record {
                a_plays = f.a_plays;
                b_plays = f.b_plays;
                counted = length_snoc s.player_b;
                points_a = pa;
                points_b = pb;
                listed_a = rw (lookup-insert, y) f.listed_a;
                listed_b = rw (lookup-insert, x) refl;
                shown = refl;
                fair = history-fair s.player_b d;
                verdict =
                    played-Verdict s.player_b s.score_a (suc s.score_b) pa pb (omega arith)
                      (omega (arith, g.0)) (omega (arith, g.1));
              })
