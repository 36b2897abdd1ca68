-- ===== src/Leaderboard/Best.antt =====
-- The keep-best rule of internal/infra/repository/leaderboard.go, over any submissions to any boards.
use mathlib.Core.List.{Permᴰ, Memᴰ}
use mathlib.Core.List.Memᴰ.{head, tail}
use mathlib.Core.List.Permᴰ
use mathlib.Core.List.Permᴰ.{nil, cons, swap, trans}
use vfx.Base.{
  keep-perm, All, map, keep, ℕ, ◌≡◌, refl, sym, ap, ◌∙◌, subst, Bool, true, false, ◌&&◌, Option,
  none, some, List, [], ◌∷◌, if◌then◌else◌, ◌==◌, ==_iff, arith, Bool-cases, inl, inr,
}
use vfx.Base.Int.{ℤ, pos, negsuc, ◌≤ℤ◌}
use vfx.Leaderboard.{
  SortOrder, descending, ascending, Leaderboard, beats, replaces, Entry, is_entry, upsert_entry,
  find_entry,
}

pub record Submission : Type 0 where
  pub board : ℕ
  pub player : ℕ
  pub score : ℤ
  pub now : ℕ

abbrev pub score : Option Entry → Option ℤ
score none = none
score (some e) = some e.score

unfoldable pub score_of : ℕ → ℕ → List Entry → Option ℤ
score_of board player es = score (find_entry board player es)

-- What the rule promises: the better one of two scores.
unfoldable pub best : SortOrder → Option ℤ → ℤ → Option ℤ
unfolding beats
best order none s = some s
best order (some c) s = if beats order s c then some s else some c

unfoldable pub best_of : SortOrder → Option ℤ → List ℤ → Option ℤ
best_of order cur [] = cur
best_of order cur (s ∷ ss) = best_of order (best order cur s) ss

abbrev is_for : ℕ → ℕ → Submission → Bool
is_for board player c = c.board == board && c.player == player

unfoldable pub scores : ℕ → ℕ → List Submission → List ℤ
scores board player cs = map (λ (c : Submission). c.score) (keep (is_for board player) cs)

-- `order` is the sort order with which each board is defined.
module _ (order : ℕ → SortOrder) where
  abbrev pub board_of : ℕ → Leaderboard
  board_of id = record { id = id; sort_order = order id }

  unfoldable pub apply : List Submission → List Entry → List Entry
  apply [] es = es
  apply (c ∷ cs) es = apply cs (upsert_entry (board_of c.board) c.player c.score c.now es).1

-- The condition of the statements is Beats of internal/domain/leaderboard/leaderboard.go.
replaces-beats : (order : SortOrder) (s t : ℤ) → replaces order s t ≡ beats order s t
unfolding replaces beats
replaces-beats descending s t = refl
replaces-beats ascending s t = refl

score_of-upsert :
    (lb : Leaderboard) (player : ℕ) (s : ℤ) (now : ℕ) (b p : ℕ) (es : List Entry)
    → score_of b p (upsert_entry lb player s now es).1 ≡ (
        if lb.id == b && player == p
        then best lb.sort_order (score_of b p es) s
        else score_of b p es)
unfolding score_of find_entry upsert_entry best
score_of-upsert lb player s now b p [] = ground arith
score_of-upsert lb player s now b p (e ∷ es) = elim (Bool-cases (is_entry lb.id player e)) [
  | inl y ↦ elim (Bool-cases (beats lb.sort_order s e.score)) [
    | inl z ↦
        let w : replaces lb.sort_order s e.score ≡ true =
          replaces-beats lb.sort_order s e.score ∙ z in
        rw (y, w) (ground (arith, y, z))
    | inr z ↦
        let w : replaces lb.sort_order s e.score ≡ false =
          replaces-beats lb.sort_order s e.score ∙ z in
        rw (y, w) (ground (arith, y, z))
  ]
  | inr y ↦ rw y (ground (arith, y, score_of-upsert lb player s now b p es))
]

-- A score that is at least as good: the higher one on a descending board, the lower one on an ascending.
abbrev pub IsNoBetter : SortOrder → ℤ → ℤ → Type 0
IsNoBetter descending s t = s ≤ℤ t
IsNoBetter ascending s t = t ≤ℤ s

abbrev pub candidates : Option ℤ → List ℤ → List ℤ
candidates none ss = ss
candidates (some c) ss = c ∷ ss

-- One of the candidates than which none is better, or none where there is no candidate.
abbrev pub IsBest : SortOrder → List ℤ → Option ℤ → Type 0
IsBest order [] r = r ≡ none
IsBest order (c ∷ cs) r =
    (x : ℤ) × (r ≡ some x) × Memᴰ x (c ∷ cs) × All (λ s. IsNoBetter order s x) (c ∷ cs)

IsNoBetter-self : (order : SortOrder) (s : ℤ) → IsNoBetter order s s
IsNoBetter-self descending s = omega arith
IsNoBetter-self ascending s = omega arith

IsNoBetter-trans :
    (order : SortOrder) (s t u : ℤ)
    → IsNoBetter order s t
    → IsNoBetter order t u
    → IsNoBetter order s u
IsNoBetter-trans descending s t u h k = omega (arith, h, k)
IsNoBetter-trans ascending s t u h k = omega (arith, h, k)

beats-IsNoBetter : (order : SortOrder) (s t : ℤ) → beats order s t ≡ true → IsNoBetter order t s
unfolding beats
beats-IsNoBetter descending s t h = ground (arith, h)
beats-IsNoBetter ascending s t h = ground (arith, h)

unbeaten-IsNoBetter : (order : SortOrder) (s t : ℤ) → beats order s t ≡ false → IsNoBetter order s t
unfolding beats
unbeaten-IsNoBetter descending s t h = ground (arith, h)
unbeaten-IsNoBetter ascending s t h = ground (arith, h)

best_of-IsBest :
    (order : SortOrder) (cur : Option ℤ) (ss : List ℤ)
    → IsBest order (candidates cur ss) (best_of order cur ss)
unfolding best_of best
best_of-IsBest order none [] = refl
best_of-IsBest order (some c) [] = (c, refl, head refl, (IsNoBetter-self order c, tt))
best_of-IsBest order none (s ∷ ss) = best_of-IsBest order (some s) ss
best_of-IsBest order (some c) (s ∷ ss) = elim (Bool-cases (beats order s c)) [
  | inl e ↦
      let (x, eq, m, all) = best_of-IsBest order (some s) ss in
      rw e (x, eq, tail m, (IsNoBetter-trans order c s x (beats-IsNoBetter order s c e) all.0, all))
  | inr e ↦
      let (x, eq, m, all) = best_of-IsBest order (some c) ss in
      rw e (
        x,
        eq,
        skip m,
        (all.0, (IsNoBetter-trans order s c x (unbeaten-IsNoBetter order s c e) all.0, all.1)),
      )
]
  where
    skip : {x : ℤ} → Memᴰ x (c ∷ ss) → Memᴰ x (c ∷ s ∷ ss)
    skip (head e) = head e
    skip (tail m) = tail (tail m)

module _ (order : ℕ → SortOrder) where
  pub apply-best_of :
      (cs : List Submission) (es : List Entry) (b p : ℕ)
      → score_of b p (apply order cs es) ≡ best_of (order b) (score_of b p es) (scores b p cs)
  unfolding apply best_of scores
  apply-best_of [] es b p = refl
  apply-best_of (c ∷ cs) es b p =
      let rest = (upsert_entry (board_of order c.board) c.player c.score c.now es).1 in
      let up = score_of-upsert (board_of order c.board) c.player c.score c.now b p es in
      elim (Bool-cases (is_for b p c)) [
        | inl e ↦
            let same : c.board ≡ b = (==_iff c.board b).0 (ground (arith, e)) in
            let now_best : score_of b p rest ≡ best (order b) (score_of b p es) c.score =
              subst
                (λ t.
                  score_of b p rest
                  ≡ (if t then best (order c.board) (score_of b p es) c.score else score_of b p es))
                e up
              ∙ ap (λ k. best (order k) (score_of b p es) c.score) same in
            rw e
              (apply-best_of cs rest b p ∙ ap (λ x. best_of (order b) x (scores b p cs)) now_best)
        | inr e ↦
            let kept : score_of b p rest ≡ score_of b p es =
              subst
                (λ t.
                  score_of b p rest
                  ≡ (if t then best (order c.board) (score_of b p es) c.score else score_of b p es))
                e up in
            rw e (apply-best_of cs rest b p ∙ ap (λ x. best_of (order b) x (scores b p cs)) kept)
      ]

module _ (order : ℕ → SortOrder) where
  -- After any submissions, to any boards and in the order in which the database applies them, a
  -- player's score on a board is one of the score before and those that he submitted to it, and none of
  -- these is higher on a descending board, or lower on an ascending one; he has no score only if there
  -- was none and he submitted none.
  pub apply-IsBest :
      (cs : List Submission) (es : List Entry) (b p : ℕ)
      → IsBest
          (order b)
          (candidates (score_of b p es) (scores b p cs))
          (score_of b p (apply order cs es))
  apply-IsBest cs es b p =
      subst (IsBest (order b) (candidates (score_of b p es) (scores b p cs)))
        (sym (apply-best_of order cs es b p))
        (best_of-IsBest (order b) (score_of b p es) (scores b p cs))

tie : (order : SortOrder) (s t : ℤ) → beats order s t ≡ false → beats order t s ≡ false → s ≡ t
unfolding beats
tie ascending (pos a) (pos b) h k = ap pos (ground (arith, h, k))
tie ascending (pos a) (negsuc b) h k = absurd (ground (arith, h, k))
tie ascending (negsuc a) (pos b) h k = absurd (ground (arith, h, k))
tie ascending (negsuc a) (negsuc b) h k = ap negsuc (ground (arith, h, k))
tie descending (pos a) (pos b) h k = ap pos (ground (arith, h, k))
tie descending (pos a) (negsuc b) h k = absurd (ground (arith, h, k))
tie descending (negsuc a) (pos b) h k = absurd (ground (arith, h, k))
tie descending (negsuc a) (negsuc b) h k = ap negsuc (ground (arith, h, k))

beats_asym : (order : SortOrder) (s t : ℤ) → beats order s t ≡ true → beats order t s ≡ false
unfolding beats
beats_asym ascending s t h = ground (arith, h)
beats_asym descending s t h = ground (arith, h)

beats_trans :
    (order : SortOrder) (s t u : ℤ)
    → beats order t s ≡ false
    → beats order u t ≡ false
    → beats order u s ≡ false
unfolding beats
beats_trans ascending s t u h k = ground (arith, h, k)
beats_trans descending s t u h k = ground (arith, h, k)

best_first : (order : SortOrder) (s t : ℤ) → best order (some s) t ≡ best order (some t) s
unfolding best
best_first order s t = elim (Bool-cases (beats order t s)) [
  | inl e ↦ rw (e, beats_asym order t s e) refl
  | inr e ↦ elim (Bool-cases (beats order s t)) [
    | inl f ↦ rw (e, f) refl
    | inr f ↦ rw (e, f) (ap some (tie order s t f e))
  ]
]

best_comm :
    (order : SortOrder) (cur : Option ℤ) (s t : ℤ)
    → best order (best order cur s) t ≡ best order (best order cur t) s
unfolding best
best_comm order none s t = best_first order s t
best_comm order (some c) s t = elim (Bool-cases (beats order s c)) [
  | inl e ↦ elim (Bool-cases (beats order t c)) [
    | inl f ↦ rw (e, f) (best_first order s t)
    | inr f ↦ rw (e, f, beats_trans order s c t (beats_asym order s c e) f) rw e refl
  ]
  | inr e ↦ elim (Bool-cases (beats order t c)) [
    | inl f ↦ rw (e, f, beats_trans order t c s (beats_asym order t c f) e) refl
    | inr f ↦ rw (e, f) rw e refl
  ]
]

best_of-perm :
    (order : SortOrder) {ss ts : List ℤ}
    → Permᴰ ss ts
    → (cur : Option ℤ) → best_of order cur ss ≡ best_of order cur ts
unfolding best_of
best_of-perm order nil cur = refl
best_of-perm order (cons {a = a} {b = b} {l₁ = ss} {l₂ = ts} e p) cur =
    best_of-perm order p (best order cur a) ∙ ap (λ x. best_of order (best order cur x) ts) e
best_of-perm order (swap {a = a} {b = b} {a' = c} {b' = d} {l = l} e f) cur =
    ap (λ x. best_of order x l)
      (best_comm order cur a b
        ∙ ap (λ x. best order (best order cur x) a) f
        ∙ ap (λ x. best order (best order cur c) x) e)
best_of-perm order (trans p q) cur = best_of-perm order p cur ∙ best_of-perm order q cur

-- The scores that are kept do not depend on the order in which concurrent submissions are applied.
pub apply-perm :
    (order : ℕ → SortOrder) (cs ds : List Submission) (es : List Entry) (b p : ℕ)
    → Permᴰ cs ds
    → score_of b p (apply order cs es) ≡ score_of b p (apply order ds es)
unfolding scores
apply-perm order cs ds es b p h =
    apply-best_of order cs es b p
    ∙ best_of-perm (order b) (Permᴰ.map (λ (c : Submission). c.score) (keep-perm (is_for b p) h))
        (score_of b p es)
    ∙ sym (apply-best_of order ds es b p)
