-- ===== src/Room/Sessions.antt =====
-- Which sessions of internal/usecase/room/match.go are open, and which were closed.
use mathlib.Core.List.{Permᴰ}
use mathlib.Core.List.Permᴰ.{nil, cons, swap, trans}
use vfx.Base.{
  ℕ, ◌+◌, ◌≡◌, refl, ap, ◌∙◌, subst, Bool, false, Option, none, some, List, [], ◌∷◌, ◌++◌, map,
  ◌==◌, ==_iff, arith, if◌then◌else◌, Bool-cases, Option-cases, inl, inr,
}
use vfx.Queue.{find, store, delete}
use vfx.Queue.Assoc.{find-store, find-delete}
use vfx.Room.Match.{Output, Frame, send, shut_session, send_to}

abbrev pub one_if : Bool → ℕ
one_if b = if b then 1 else 0

-- How often a session was closed, and how many players hold it.
unfoldable pub closes : ℕ → List Output → ℕ
closes s [] = 0
closes s (send t f ∷ out) = closes s out
closes s (shut_session t ∷ out) = one_if (t == s) + closes s out

unfoldable pub holds : ℕ → List (ℕ × ℕ) → ℕ
holds s [] = 0
holds s ((p, t) ∷ players) = one_if (t == s) + holds s players

pub closes-append :
    (s : ℕ) (out more : List Output) → closes s (out ++ more) ≡ closes s out + closes s more
unfolding closes
closes-append s [] more = omega arith
closes-append s (send t f ∷ out) more = closes-append s out more
closes-append s (shut_session t ∷ out) more = omega (arith, closes-append s out more)

pub closes-sends :
    (s : ℕ) (f : Frame) (players : List (ℕ × ℕ))
    → closes s (map (λ (x : ℕ × ℕ). send x.1 f) players) ≡ 0
unfolding closes
closes-sends s f [] = refl
closes-sends s f (x ∷ players) = closes-sends s f players

pub closes-send_to :
    (s : ℕ) (f : Frame) (players : List (ℕ × ℕ)) (rs : List (Option ℕ))
    → closes s (send_to f players rs) ≡ 0
unfolding closes send_to
closes-send_to s f players [] = refl
closes-send_to s f players (none ∷ rs) = closes-send_to s f players rs
closes-send_to s f players (some id ∷ rs) = elim (Option-cases (find id players)) [
  | inl e ↦ rw (e, send_to) (closes-send_to s f players rs)
  | inr (t, e) ↦ rw (e, send_to) (closes-send_to s f players rs)
]

pub closes-shuts :
    (s : ℕ) (players : List (ℕ × ℕ))
    → closes s (map (λ (x : ℕ × ℕ). shut_session x.1) players) ≡ holds s players
unfolding closes holds
closes-shuts s [] = refl
closes-shuts s (x ∷ players) = omega (arith, closes-shuts s players)

pub holds-perm : (s : ℕ) {xs ys : List (ℕ × ℕ)} → Permᴰ xs ys → holds s xs ≡ holds s ys
unfolding holds
holds-perm s nil = refl
holds-perm s (cons e p) = omega (arith, ap (λ (x : ℕ × ℕ). one_if (x.1 == s)) e, holds-perm s p)
holds-perm s (swap e f) =
    omega (arith, ap (λ (x : ℕ × ℕ). one_if (x.1 == s)) e, ap (λ (x : ℕ × ℕ). one_if (x.1 == s)) f)
holds-perm s (trans p q) = holds-perm s p ∙ holds-perm s q

-- No player stands twice in the map.
unfoldable pub IsKeyed : List (ℕ × ℕ) → Type 0
IsKeyed [] = Unit {0}
IsKeyed ((p, s) ∷ players) = (find p players ≡ none) × IsKeyed players

pub holds-store :
    (s p t : ℕ) (players : List (ℕ × ℕ))
    → find p players ≡ none
    → holds s (store p t players) ≡ holds s players + one_if (t == s)
unfolding holds store find
holds-store s p t [] h = ground arith
holds-store s p t ((q, u) ∷ players) h = ground (arith, holds-store s p t players)

pub IsKeyed-store :
    (p t : ℕ) (players : List (ℕ × ℕ))
    → find p players ≡ none
    → IsKeyed players
    → IsKeyed (store p t players)
unfolding IsKeyed store find
IsKeyed-store p t [] h k = (refl, tt)
IsKeyed-store p t ((q, u) ∷ players) h k =
    let apart : (q == p) ≡ false = ground arith in
    let fresh : find p players ≡ none = ground arith in
    rw apart (ground (arith, find-store p q t players, k.0), IsKeyed-store p t players fresh k.1)

delete-absent :
    (p : ℕ) (players : List (ℕ × ℕ)) → find p players ≡ none → delete p players ≡ players
unfolding delete find
delete-absent p [] h = refl
delete-absent p ((q, u) ∷ players) h = ground (arith, delete-absent p players)

pub IsKeyed-delete : (p : ℕ) (players : List (ℕ × ℕ)) → IsKeyed players → IsKeyed (delete p players)
unfolding IsKeyed delete
IsKeyed-delete p [] k = tt
IsKeyed-delete p ((q, u) ∷ players) k = elim (Bool-cases (q == p)) [
  | inl e ↦ rw e (IsKeyed-delete p players k.1)
  | inr e ↦ rw e (ground (arith, find-delete p q players, k.0), IsKeyed-delete p players k.1)
]

pub holds-delete :
    (s p t : ℕ) (players : List (ℕ × ℕ))
    → IsKeyed players
    → find p players ≡ some t
    → holds s (delete p players) + one_if (t == s) ≡ holds s players
unfolding holds delete find IsKeyed
holds-delete s p t [] k h = cc
holds-delete s p t ((q, u) ∷ players) k h = elim (Bool-cases (q == p)) [
  | inl e ↦
      let same : q ≡ p = (==_iff q p).0 e in
      let gone : delete p players ≡ players =
        delete-absent p players (subst (λ x. find x players ≡ none) same k.0) in
      rw e (rw gone (ground (arith, h, e)))
  | inr e ↦ rw e (ground (arith, h, e, holds-delete s p t players k.1))
]
