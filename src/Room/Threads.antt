-- ===== src/Room/Threads.antt =====
-- The threads of internal/usecase/room/manager.go in every state that they reach.
use vfx.Base.{ℕ, ◌+◌, ◌≤◌, ◌≡◌, Option, none, some, List, [], ◌∷◌, ◌++◌, All, ltb, ◌==◌, arith}
use vfx.Queue.{find, store, delete}
use vfx.Queue.Assoc.{find-store, find-delete}
use vfx.Room.Sessions.{one_if}
use vfx.Room.Manager.{
  Manager, Thread, looking, creating, initialising, inserting, discarding, answered, playing, ended,
  leaving,
}

unfoldable pub sum : (Thread → ℕ) → List Thread → ℕ
sum f [] = 0
sum f (t ∷ ts) = f t + sum f ts

pub sum-append : (f : Thread → ℕ) (xs ys : List Thread) → sum f (xs ++ ys) ≡ sum f xs + sum f ys
unfolding sum
sum-append f [] ys = omega arith
sum-append f (t ∷ xs) ys = omega (arith, sum-append f xs ys)

-- Whether a thread has to close a plugin.
abbrev pub holds : ℕ → Thread → ℕ
holds p (initialising id q) = one_if (q == p)
holds p (inserting id q) = one_if (q == p)
holds p (discarding q answer) = one_if (q == p)
holds p (playing id q) = one_if (q == p)
holds p _ = 0

-- Whether a thread is the game of a match that is not yet cleaned up.
abbrev pub plays : ℕ → Thread → ℕ
plays id (playing i q) = one_if (i == id)
plays id (ended i q) = one_if (i == id)
plays id _ = 0

abbrev pub is_game : Thread → ℕ
is_game (playing i q) = 1
is_game (ended i q) = 1
is_game leaving = 1
is_game _ = 0

unfoldable pub times : ℕ → List ℕ → ℕ
times p [] = 0
times p (q ∷ qs) = one_if (q == p) + times p qs

abbrev pub present : Option ℕ → ℕ
present none = 0
present (some match) = 1

-- A game stands in the map under its id.
abbrev pub Listed : List (ℕ × ℕ) → Thread → Type 0
Listed ms (playing i q) = find i ms ≡ some q
Listed ms (ended i q) = find i ms ≡ some q
Listed ms _ = Unit {0}

pub record IsOrderly (ts : List Thread) (m : Manager) : Type 0 where
  pub listed : All (Listed m.matches) ts
  pub single : (id : ℕ) → sum (plays id) ts ≡ present (find id m.matches)
  pub plugins : (p : ℕ) → times p m.closed + sum (holds p) ts ≡ one_if (ltb p m.next_plugin)
  pub gauge : m.active_matches ≡ sum is_game ts

-- What a move does to the sums, and what it leaves of the other threads.
pub record Fits (t : Thread) (m : Manager) (ts : List Thread) (n : Manager) : Type 0 where
  pub mine : All (Listed n.matches) ts
  pub others :
      (us : List Thread)
      → All (Listed m.matches) us
      → ((id : ℕ) → sum (plays id) us + plays id t ≤ 1)
      → All (Listed n.matches) us
  pub single :
      (id : ℕ)
      → sum (plays id) ts + present (find id m.matches) ≡ plays id t + present (find id n.matches)
  pub plugins :
      (p : ℕ)
      → times p n.closed + sum (holds p) ts + one_if (ltb p m.next_plugin)
        ≡ times p m.closed + holds p t + one_if (ltb p n.next_plugin)
  pub gauge : n.active_matches + is_game t ≡ m.active_matches + sum is_game ts

Listed-store :
    (id q : ℕ) (ms : List (ℕ × ℕ)) (t : Thread)
    → find id ms ≡ none
    → Listed ms t
    → Listed (store id q ms) t
Listed-store id q ms (playing i r) h k = ground (arith, find-store id i q ms, h, k)
Listed-store id q ms (ended i r) h k = ground (arith, find-store id i q ms, h, k)
Listed-store id q ms (looking i) h k = tt
Listed-store id q ms (creating i) h k = tt
Listed-store id q ms (initialising i r) h k = tt
Listed-store id q ms (inserting i r) h k = tt
Listed-store id q ms (discarding r a) h k = tt
Listed-store id q ms (answered a) h k = tt
Listed-store id q ms leaving h k = tt

Listed-delete :
    (id : ℕ) (ms : List (ℕ × ℕ)) (t : Thread)
    → plays id t ≡ 0
    → Listed ms t
    → Listed (delete id ms) t
Listed-delete id ms (playing i r) h k = ground (arith, find-delete id i ms, h, k)
Listed-delete id ms (ended i r) h k = ground (arith, find-delete id i ms, h, k)
Listed-delete id ms (looking i) h k = tt
Listed-delete id ms (creating i) h k = tt
Listed-delete id ms (initialising i r) h k = tt
Listed-delete id ms (inserting i r) h k = tt
Listed-delete id ms (discarding r a) h k = tt
Listed-delete id ms (answered a) h k = tt
Listed-delete id ms leaving h k = tt

pub All_Listed-store :
    (id q : ℕ) (ms : List (ℕ × ℕ)) (ts : List Thread)
    → find id ms ≡ none
    → All (Listed ms) ts
    → All (Listed (store id q ms)) ts
All_Listed-store id q ms [] h k = tt
All_Listed-store id q ms (t ∷ ts) h k =
    (Listed-store id q ms t h k.0, All_Listed-store id q ms ts h k.1)

pub All_Listed-delete :
    (id : ℕ) (ms : List (ℕ × ℕ)) (ts : List Thread)
    → sum (plays id) ts ≡ 0
    → All (Listed ms) ts
    → All (Listed (delete id ms)) ts
unfolding sum
All_Listed-delete id ms [] h k = tt
All_Listed-delete id ms (t ∷ ts) h k = (
  Listed-delete id ms t (omega (arith, h)) k.0,
  All_Listed-delete id ms ts (omega (arith, h)) k.1,
)
