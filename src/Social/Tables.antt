-- ===== src/Social/Tables.antt =====
-- The laws of the three tables of the friend graph: what a row that is added or removed changes.
use vfx.Base.{
  ℕ, ◌≡◌, refl, Bool, true, false, ◌&&◌, ◌||◌, List, [], ◌∷◌, ◌==◌, arith, if◌then◌else◌,
}
use vfx.Social.Graph.{Edge, edge, is_edge, has, remove}
use vfx.Social.Pairs.{sorted}

pub has-insert :
    (a b c d now : ℕ) (es : List Edge)
    → has a b (edge c d now ∷ es) ≡ (if c == a && d == b then true else has a b es)
unfolding has is_edge
has-insert a b c d now es = refl

pub has-remove :
    (a b c d : ℕ) (es : List Edge)
    → has a b (remove c d es) ≡ (if c == a && d == b then false else has a b es)
unfolding has remove is_edge
has-remove a b c d [] = ground arith
has-remove a b c d (e ∷ es) = ground (arith, has-remove a b c d es)

pub remove-absent : (a b : ℕ) (es : List Edge) → has a b es ≡ false → remove a b es ≡ es
unfolding has remove is_edge
remove-absent a b [] h = refl
remove-absent a b (e ∷ es) h = ground (arith, remove-absent a b es)

-- Friendship of two players, read from the table by the order of their ids.
abbrev pub friends : ℕ → ℕ → List Edge → Bool
friends a b fs = has (sorted a b).0 (sorted a b).1 fs

pub friends_comm : (a b : ℕ) (fs : List Edge) → friends a b fs ≡ friends b a fs
friends_comm a b fs = ground arith

pub friends-insert :
    (a b c d now : ℕ) (fs : List Edge)
    → friends a b (edge (sorted c d).0 (sorted c d).1 now ∷ fs)
      ≡ (if (c == a && d == b) || (c == b && d == a) then true else friends a b fs)
friends-insert a b c d now fs =
    ground (arith, has-insert (sorted a b).0 (sorted a b).1 (sorted c d).0 (sorted c d).1 now fs)

pub friends-remove :
    (a b c d : ℕ) (fs : List Edge)
    → friends a b (remove (sorted c d).0 (sorted c d).1 fs)
      ≡ (if (c == a && d == b) || (c == b && d == a) then false else friends a b fs)
friends-remove a b c d fs =
    ground (arith, has-remove (sorted a b).0 (sorted a b).1 (sorted c d).0 (sorted c d).1 fs)
