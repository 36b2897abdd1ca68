-- ===== src/Matchmaker/Turns.antt =====
-- internal/usecase/match/matchmaker.go in a process that runs alone: that processMode returns.
use mathlib.Core.List.{Permᴰ}
use vfx.Base.{
  ℕ, zero, suc, ◌<◌, ◌≡◌, refl, ◌⊎◌, true, List, [], ◌∷◌, String, All-of_mem, All-mem, mem-perm,
  length, none, some, Option, Bool-cases, Option-cases, inl, inr, arith, ltb,
}
use vfx.Match.Platform.{Platform}
use vfx.Match.Ticket.{Ticket}
use vfx.Match.Units.{Party}
use vfx.Match.Matcher.{select_group, new_matcher}
use vfx.Match.Matcher.Selection.{select_group-IsFirstGroup, select_group-All}
use vfx.Queue.{InMem, TicketEntry, Call, done, find, is_pending, pending, depth, run, new_in_mem}
use vfx.Queue.Order.{pending-perm, depth-keep}
use vfx.Queue.Keys.{IsKeyed, waiting-free}
use vfx.Queue.Drains.{waits, run-new-IsKeyed}
use vfx.Matchmaker.{pair}
use vfx.Matchmaker.Local.{World, Outside, local, local_intake}
use vfx.Matchmaker.Loop.{
  Matchmaker, Config, new_matchmaker, after_pair, after_group, turns, process_mode,
}
use vfx.Matchmaker.Drain.{AllWait, pair-lt}

new_matchmaker-players :
    (p : Platform) (cfg : Config p.F64) → 0 < (new_matchmaker p cfg).matcher.players_per_match
unfolding new_matchmaker new_matcher
new_matchmaker-players p cfg = ground arith

module _ (p : Platform) (cfg : Config p.F64) (order : List (Party p.F64) → List (Party p.F64))
    (tickets : List (ℕ × TicketEntry p.F64) → List (ℕ × TicketEntry p.F64)) where
  open p use {F64}

  -- No group can be formed in the mode: too few tickets wait, or none of them fit together.
  abbrev pub IsDrained : String → ℕ → World F64 → Type 0
  IsDrained mode now w =
      (length (pending tickets w.queue mode) < (new_matchmaker p cfg).matcher.players_per_match)
      ⊎ (select_group p (new_matchmaker p cfg).matcher order now (pending tickets w.queue mode)
          ≡ none)

module _ (p : Platform) (o : Outside) (cfg : Config p.F64)
    (order : List (Party p.F64) → List (Party p.F64))
    (shuffles : (qs : List (Party p.F64)) → Permᴰ (order qs) qs)
    (tickets : List (ℕ × TicketEntry p.F64) → List (ℕ × TicketEntry p.F64))
    (mixes : (l : List (ℕ × TicketEntry p.F64)) → Permᴰ (tickets l) l) where
  open p use {F64}

  abbrev pub m : Matchmaker F64
  m = new_matchmaker p cfg

  selected-AllWait :
      (mode : String) (now : ℕ) (q : InMem F64) (group : List (Ticket F64))
      → IsKeyed q.tickets
      → select_group p m.matcher order now (pending tickets q mode) ≡ some group
      → AllWait mode q.tickets group
  selected-AllWait mode now q group keyed e =
      select_group-All p m.matcher order
        (λ t. (e : TicketEntry F64) × (find t.id q.tickets ≡ some e) × (is_pending mode e ≡ true))
        now (pending tickets q mode) group shuffles
        (All-of_mem _ (pending tickets q mode) λ t k.
          All-mem _ _ (waiting-free mode q.tickets keyed)
            (mem-perm (pending-perm tickets q mode mixes) k))
        e

  -- What a result of processMode says.
  abbrev pub Ended : String → ℕ → Option (Option String) × World F64 → Type 0
  Ended mode now (none, w) = ⊥
  Ended mode now (some none, w) = IsDrained p cfg order tickets mode now w
  Ended mode now (some (some e), w) = Unit {0}

  module _ (mode : String) (now : ℕ) where
    abbrev pub again : ℕ → World F64 → Option (Option String) × World F64
    again fuel w = turns p (local o) (local_intake tickets) m order fuel mode now w

    group-Ended :
        (fuel : ℕ) (w : World F64)
        → IsKeyed w.queue.tickets
        → ((v : World F64)
            → IsKeyed v.queue.tickets
            → waits mode v.queue.tickets < waits mode w.queue.tickets
            → Ended mode now (again fuel v))
        → (group : List (Ticket F64)) → AllWait mode w.queue.tickets group
        → length group ≡ m.matcher.players_per_match
        → Ended mode now (
            after_group p (local o) (local_intake tickets) m order (again fuel) mode (some group) w)
    group-Ended fuel w keyed ih [] h full =
        absurd (omega (arith, full, new_matchmaker-players p cfg))
    group-Ended fuel w keyed ih (t ∷ ts) h full =
        go (pair (local o) m.session_token_ttl mode (t ∷ ts) w)
          (pair-lt mode o m.session_token_ttl t ts w keyed h)
      where
        go :
            (r : Option String × World F64)
            → IsKeyed r.1.queue.tickets
              × (waits mode r.1.queue.tickets < waits mode w.queue.tickets)
            → Ended mode now (after_pair p (local o) (local_intake tickets) m order (again fuel) r)
        go (some e, v) d = tt
        go (none, v) d = ih v d.0 d.1

    pub turns-Ended :
        (fuel : ℕ) (w : World F64)
        → IsKeyed w.queue.tickets
        → waits mode w.queue.tickets < fuel
        → Ended mode now (again fuel w)
    unfolding turns
    turns-Ended zero w keyed enough = absurd (omega (arith, enough))
    turns-Ended (suc fuel) w keyed enough =
        let ts = pending tickets w.queue mode in
        elim (Bool-cases (ltb (length ts) m.matcher.players_per_match)) [
          | inl few ↦ rw few (inl (ground arith))
          | inr many ↦ elim (Option-cases (select_group p m.matcher order now ts)) [
            | inl nobody ↦ rw (many, nobody) (inr nobody)
            | inr (group, some_group) ↦
                let v : World F64 = (local_intake tickets).set_queue_depth mode (length ts) w in
                let full =
                  (select_group-IsFirstGroup p m.matcher order now ts group
                    some_group).grown.full in
                rw (many, some_group)
                  (group-Ended fuel v keyed
                    (λ u k less. turns-Ended fuel u k (omega (arith, enough, less))) group
                    (selected-AllWait mode now w.queue group keyed some_group) full)
          ]
        ]

  depth-waits : (q : InMem F64) (mode : String) → depth q mode ≡ waits mode q.tickets
  depth-waits q mode = depth-keep q mode

  -- In a process that runs alone, processMode returns after at most one turn more than there are
  -- tickets that wait in the mode, whatever the allocator, the signer and the clock answer and however
  -- the runtime iterates over maps, from any queue that calls have built; and when it returns no error,
  -- no group can be formed from the tickets that still wait.
  pub process_mode_ends :
      (calls : List (Call F64)) (w : World F64) (mode : String) (fuel : ℕ)
      → run new_in_mem calls ≡ done w.queue
      → depth w.queue mode < fuel
      → let r = process_mode p (local o) (local_intake tickets) m order fuel mode w in
        (error : Option String) × (r.0 ≡ some error)
        × (error ≡ none → IsDrained p cfg order tickets mode (o.now w.calls) r.1)
  unfolding process_mode
  process_mode_ends calls w mode fuel ran enough =
      let v = ((local o).now w).1 in
      go (again mode (o.now w.calls) fuel v) (
        turns-Ended mode (o.now w.calls) fuel v (run-new-IsKeyed calls w.queue ran)
          (omega (arith, enough, depth-waits w.queue mode)))
    where
      go :
          (r : Option (Option String) × World F64)
          → Ended mode (o.now w.calls) r
          → (error : Option String) × (r.0 ≡ some error)
            × (error ≡ none → IsDrained p cfg order tickets mode (o.now w.calls) r.1)
      go (none, x) h = elim h [ ]
      go (some none, x) h = (none, refl, λ e. h)
      go (some (some e), x) h = (some e, refl, λ e. cc e)
