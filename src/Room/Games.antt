-- ===== src/Room/Games.antt =====
-- Plugins, games and the map of internal/usecase/room/manager.go, over all interleavings.
use vfx.Base.{
  ℕ, ◌+◌, ◌-◌, ◌≤◌, ◌≡◌, refl, sym, ap, subst, Bool, true, false, Option, none, some, List, [], ◌∷◌,
  ◌++◌, All, All-append, All-append_left, All-append_right, ltb, ◌==◌, arith, Option-cases, inl,
  inr,
}
use vfx.Queue.{find}
use vfx.Queue.Assoc.{find-store, find-delete}
use vfx.Room.Sessions.{one_if}
use vfx.Room.Manager.{
  Manager, Thread, looking, creating, initialising, inserting, discarding, answered, playing, ended,
  leaving, new_manager, look, insert, cleanup, close_plugin, Move, looks, create_fails, creates,
  init_fails, inits, inserts, discards, run_returns, cleans, decrements, calls, moves, Reach, start,
  next,
}
use vfx.Room.Threads.{
  sum, sum-append, holds, plays, is_game, times, present, Listed, IsOrderly, Fits, All_Listed-store,
  All_Listed-delete,
}

-- A move that leaves the map as it is.
same_map :
    {t : Thread} {ts : List Thread} (m n : Manager)
    → n.matches ≡ m.matches
    → All (Listed n.matches) ts
    → ((id : ℕ) → sum (plays id) ts ≡ plays id t)
    → ((p : ℕ)
        → times p n.closed + sum (holds p) ts + one_if (ltb p m.next_plugin)
          ≡ times p m.closed + holds p t + one_if (ltb p n.next_plugin))
    → n.active_matches + is_game t ≡ m.active_matches + sum is_game ts
    → Fits t m ts n
same_map m n e mine single plugins gauge = record {
  mine = mine;
  others = λ us k h. subst (λ ms. All (Listed ms) us) (sym e) k;
  single = λ id. omega (arith, single id, ap (λ ms. present (find id ms)) e);
  plugins = plugins;
  gauge = gauge;
}

looks-Fits : (id : ℕ) (m : Manager) → Fits (looking id) m (look id m ∷ []) m
unfolding sum look
looks-Fits id m = elim (Option-cases (find id m.matches)) [
  | inl e ↦
      rw (e, look) (same_map m m refl (tt, tt) (λ i. omega arith) (λ p. omega arith) (omega arith))
  | inr (q, e) ↦
      rw (e, look) (same_map m m refl (tt, tt) (λ i. omega arith) (λ p. omega arith) (omega arith))
]

inserts-Fits :
    (id q : ℕ) (m : Manager) → Fits (inserting id q) m (insert id q m).0 (insert id q m).1
unfolding sum insert
inserts-Fits id q m = elim (Option-cases (find id m.matches)) [
  | inl e ↦
      rw (e, insert)
        (record {
          mine = (tt, (ground (arith, find-store id id q m.matches), tt));
          others = λ us k h. All_Listed-store id q m.matches us e k;
          single = λ i. ground (arith, find-store id i q m.matches, e);
          plugins = λ p. omega arith;
          gauge = omega arith;
        })
  | inr (r, e) ↦
      rw (e, insert)
        (same_map m m refl (tt, tt) (λ i. omega arith) (λ p. omega arith) (omega arith))
]

cleans-Fits :
    (id q : ℕ) (m : Manager)
    → find id m.matches ≡ some q
    → Fits (ended id q) m (leaving ∷ []) (cleanup id q m)
unfolding sum cleanup
cleans-Fits id q m e =
    let self : (q == q) ≡ true = ground arith in
    rw (e, cleanup, self)
      (record {
        mine = (tt, tt);
        others = λ us k h. All_Listed-delete id m.matches us (ground (arith, h id)) k;
        single = λ i. ground (arith, find-delete id i m.matches, e);
        plugins = λ p. omega arith;
        gauge = omega arith;
      })

-- A move of a thread that is listed and counted.
Move-Fits :
    {t : Thread} {m : Manager} {ts : List Thread} {n : Manager}
    → Move t m ts n
    → Listed m.matches t
    → is_game t ≤ m.active_matches
    → Fits t m ts n
unfolding sum times
Move-Fits (looks id m) k g = looks-Fits id m
Move-Fits (create_fails id m) k g =
    same_map m m refl (tt, tt) (λ i. omega arith) (λ p. omega arith) (omega arith)
Move-Fits (creates id m) k g =
    same_map m (record m { next_plugin = m.next_plugin + 1 }) refl (tt, tt) (λ i. omega arith)
      (λ p. ground arith) (omega arith)
Move-Fits (init_fails id q m) k g =
    same_map m m refl (tt, tt) (λ i. omega arith) (λ p. omega arith) (omega arith)
Move-Fits (inits id q m) k g =
    same_map m m refl (tt, tt) (λ i. omega arith) (λ p. omega arith) (omega arith)
Move-Fits (inserts id q m) k g = inserts-Fits id q m
Move-Fits (discards q a m) k g =
    same_map m (close_plugin q m) refl (tt, tt) (λ i. omega arith) (λ p. omega arith) (omega arith)
Move-Fits (run_returns id q m) k g =
    same_map m (close_plugin q m) refl (k, tt) (λ i. omega arith) (λ p. omega arith) (omega arith)
Move-Fits (cleans id q m) k g = cleans-Fits id q m k
Move-Fits (decrements m) k g =
    same_map m (record m { active_matches = m.active_matches - 1 }) refl tt (λ i. omega arith)
      (λ p. omega arith) (omega arith)

one_each :
    (ts us : List Thread) (t : Thread) (m : Manager)
    → IsOrderly (ts ++ t ∷ us) m
    → (id : ℕ) → sum (plays id) (ts ++ us) + plays id t ≤ 1
unfolding sum
one_each ts us t m o id =
    let all = o.single id in
    let bound : present (find id m.matches) ≤ 1 = present-le (find id m.matches) in
    omega (arith, all, bound, sum-append (plays id) ts (t ∷ us), sum-append (plays id) ts us)
  where
    present-le : (x : Option ℕ) → present x ≤ 1
    present-le none = omega arith
    present-le (some q) = omega arith

moves-IsOrderly :
    (before after ts : List Thread) (t : Thread) (m n : Manager)
    → Move t m ts n
    → IsOrderly (before ++ t ∷ after) m
    → IsOrderly (before ++ (ts ++ after)) n
unfolding sum
moves-IsOrderly before after ts t m n step o =
    let head = All-append_left (Listed m.matches) before (t ∷ after) o.listed in
    let tail = All-append_right (Listed m.matches) before (t ∷ after) o.listed in
    let split : (f : Thread → ℕ)
        → sum f (before ++ t ∷ after) ≡ sum f before + (f t + sum f after) =
      λ f. sum-append f before (t ∷ after) in
    let joined : (f : Thread → ℕ)
        → sum f (before ++ (ts ++ after)) ≡ sum f before + (sum f ts + sum f after) =
      λ f. omega (arith, sum-append f before (ts ++ after), sum-append f ts after) in
    let playing_here : is_game t ≤ m.active_matches = omega (arith, o.gauge, split is_game) in
    let fits = Move-Fits step tail.0 playing_here in
    let rest =
      fits.others (before ++ after) (All-append (Listed m.matches) before after head tail.1)
        (one_each before after t m o) in
    record {
      listed =
          All-append (Listed n.matches) before (ts ++ after)
            (All-append_left (Listed n.matches) before after rest)
            (All-append (Listed n.matches) ts after fits.mine
              (All-append_right (Listed n.matches) before after rest));
      single =
          λ id. omega (arith, o.single id, fits.single id, split (plays id), joined (plays id));
      plugins = λ p. omega (arith, o.plugins p, fits.plugins p, split (holds p), joined (holds p));
      gauge = omega (arith, o.gauge, fits.gauge, split is_game, joined is_game);
    }

calls-IsOrderly :
    (id : ℕ) (ts : List Thread) (m : Manager) → IsOrderly ts m → IsOrderly (looking id ∷ ts) m
unfolding sum
calls-IsOrderly id ts m o = record {
  listed = (tt, o.listed);
  single = λ i. omega (arith, o.single i);
  plugins = λ p. omega (arith, o.plugins p);
  gauge = omega (arith, o.gauge);
}

new_manager-IsOrderly : IsOrderly [] new_manager
unfolding sum times find
new_manager-IsOrderly = record {
  listed = tt;
  single = λ i. refl;
  plugins = λ p. ground arith;
  gauge = refl;
}

pub Reach-IsOrderly : {ts : List Thread} {m : Manager} → Reach ts m → IsOrderly ts m
Reach-IsOrderly start = new_manager-IsOrderly
Reach-IsOrderly (next r (calls id ts m)) = calls-IsOrderly id ts m (Reach-IsOrderly r)
Reach-IsOrderly (next r (moves before after {t} {ts} {m} {n} step)) =
    moves-IsOrderly before after ts t m n step (Reach-IsOrderly r)

-- In whatever order the calls of FindOrCreate and the games move, at most one game runs under a
-- match id, the map lists just the games that are not cleaned up, each under its id, a plugin that was
-- created is closed once or about to be closed by just one call or game, and the gauge counts the games.
pub Reach-games :
    (ts : List Thread) (m : Manager)
    → Reach ts m
    → ((id : ℕ) → sum (plays id) ts ≤ 1)
      × ((id : ℕ) → sum (plays id) ts ≡ present (find id m.matches))
      × All (Listed m.matches) ts
      × ((p : ℕ) → times p m.closed + sum (holds p) ts ≡ one_if (ltb p m.next_plugin))
      × (m.active_matches ≡ sum is_game ts)
Reach-games ts m r =
    let o = Reach-IsOrderly r in
    (λ id. ground (arith, o.single id), o.single, o.listed, o.plugins, o.gauge)

abbrev pub is_answered : Thread → Bool
is_answered (answered a) = true
is_answered _ = false

answered-sum :
    (f : Thread → ℕ) (ts : List Thread)
    → ((a : Option ℕ) → f (answered a) ≡ 0)
    → All (λ t. is_answered t ≡ true) ts
    → sum f ts ≡ 0
unfolding sum
answered-sum f [] z k = refl
answered-sum f (answered a ∷ ts) z k = omega (arith, z a, answered-sum f ts z k.1)
answered-sum f (looking i ∷ ts) z k = cc (k.0)
answered-sum f (creating i ∷ ts) z k = cc (k.0)
answered-sum f (initialising i q ∷ ts) z k = cc (k.0)
answered-sum f (inserting i q ∷ ts) z k = cc (k.0)
answered-sum f (discarding q a ∷ ts) z k = cc (k.0)
answered-sum f (playing i q ∷ ts) z k = cc (k.0)
answered-sum f (ended i q ∷ ts) z k = cc (k.0)
answered-sum f (leaving ∷ ts) z k = cc (k.0)

no_entries : (ms : List (ℕ × ℕ)) → ((id : ℕ) → present (find id ms) ≡ 0) → ms ≡ []
unfolding find
no_entries [] h = refl
no_entries ((i, q) ∷ ms) h = absurd (ground (arith, h i))

-- Once every call has answered and the goroutines of all games are gone, the map is empty, the gauge is
-- zero, and each plugin that was created has been closed exactly once.
pub Reach-quiet :
    (ts : List Thread) (m : Manager)
    → Reach ts m
    → All (λ t. is_answered t ≡ true) ts
    → (m.matches ≡ [])
      × (m.active_matches ≡ 0)
      × ((p : ℕ) → times p m.closed ≡ one_if (ltb p m.next_plugin))
Reach-quiet ts m r k =
    let o = Reach-IsOrderly r in
    (
      no_entries m.matches
          (λ id. omega (arith, o.single id, answered-sum (plays id) ts (λ a. refl) k)),
      omega (arith, o.gauge, answered-sum is_game ts (λ a. refl) k),
      λ p. omega (arith, o.plugins p, answered-sum (holds p) ts (λ a. refl) k),
    )
