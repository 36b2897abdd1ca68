-- ===== src/Matchmaker/Ticks.antt =====
-- internal/usecase/match/matchmaker.go in a process that runs alone: that tick returns.
use mathlib.Core.List.{Permᴰ}
use vfx.Base.{
  ℕ, zero, suc, ◌≤◌, ◌<◌, ◌≡◌, refl, List, [], ◌∷◌, String, length, none, some, Option, Bool-cases,
  Option-cases, inl, inr, arith, ltb, length-keep-le,
}
use vfx.Match.Platform.{Platform}
use vfx.Match.Units.{Party}
use vfx.Match.Matcher.{select_group}
use vfx.Queue.{TicketEntry, Call, done, is_pending, pending, depth, run, new_in_mem}
use vfx.Queue.Keys.{IsKeyed}
use vfx.Queue.Order.{depth-keep}
use vfx.Queue.Drains.{Drains, Drains-refl, Drains-trans, waits, run-new-IsKeyed}
use vfx.Matchmaker.{pair}
use vfx.Matchmaker.Local.{World, Outside, local, local_intake}
use vfx.Matchmaker.Loop.{
  Matchmaker, Config, new_matchmaker, after_pair, after_mode, turns, process_mode, tick_modes, tick,
}
use vfx.Matchmaker.Drain.{pair-Drains}
use vfx.Matchmaker.Turns.{Ended, turns-Ended}

module _ (p : Platform) (o : Outside) (cfg : Config p.F64)
    (order : List (Party p.F64) → List (Party p.F64))
    (shuffles : (qs : List (Party p.F64)) → Permᴰ (order qs) qs)
    (tickets : List (ℕ × TicketEntry p.F64) → List (ℕ × TicketEntry p.F64))
    (mixes : (l : List (ℕ × TicketEntry p.F64)) → Permᴰ (tickets l) l) where
  open p use {F64}

  abbrev matchmaker : Matchmaker F64
  matchmaker = new_matchmaker p cfg

  abbrev again : String → ℕ → ℕ → World F64 → Option (Option String) × World F64
  again mode now fuel w = turns p (local o) (local_intake tickets) matchmaker order fuel mode now w

  abbrev Emptied : World F64 → World F64 → Type 0
  Emptied v w = (mode : String) → Drains mode v.queue.tickets w.queue.tickets

  turns-Emptied :
      (mode : String) (now fuel : ℕ) (w : World F64) → Emptied w (again mode now fuel w).1
  unfolding turns
  turns-Emptied mode now zero w other = Drains-refl other w.queue.tickets
  turns-Emptied mode now (suc fuel) w other =
      let ts = pending tickets w.queue mode in
      elim (Bool-cases (ltb (length ts) matchmaker.matcher.players_per_match)) [
        | inl few ↦ rw few (Drains-refl other w.queue.tickets)
        | inr many ↦ elim (Option-cases (select_group p matchmaker.matcher order now ts)) [
          | inl nobody ↦ rw (many, nobody) (Drains-refl other w.queue.tickets)
          | inr (group, some_group) ↦
              let v : World F64 = (local_intake tickets).set_queue_depth mode (length ts) w in
              rw (many, some_group)
                (go (pair (local o) matchmaker.session_token_ttl mode group v)
                  (pair-Drains other o matchmaker.session_token_ttl mode group v)
                  (λ u. turns-Emptied mode now fuel u other))
        ]
      ]
    where
      after :
          (World F64 → Option (Option String) × World F64)
          → Option String × World F64
          → Option (Option String) × World F64
      after next r = after_pair p (local o) (local_intake tickets) matchmaker order next r

      go :
          (r : Option String × World F64)
          → Drains other w.queue.tickets r.1.queue.tickets
          → ((u : World F64) → Drains other u.queue.tickets (again mode now fuel u).1.queue.tickets)
          → Drains other w.queue.tickets (after (again mode now fuel) r).1.queue.tickets
      go (some e, v) d ih = d
      go (none, v) d ih = Drains-trans other _ _ _ d (ih v)

  -- What the end of the modes says of the world in which they began.
  abbrev Ticked : World F64 → Option (World F64) → Type 0
  Ticked w none = ⊥
  Ticked w (some v) = Emptied w v

  tick_modes-Ticked :
      (fuel : ℕ) (modes : List String) (w : World F64)
      → IsKeyed w.queue.tickets
      → ((mode : String) → waits mode w.queue.tickets < fuel)
      → Ticked w (tick_modes p (local o) (local_intake tickets) matchmaker order fuel modes w)
  unfolding tick_modes process_mode
  tick_modes-Ticked fuel [] w keyed enough = λ mode. Drains-refl mode w.queue.tickets
  tick_modes-Ticked fuel (mode ∷ modes) w keyed enough =
      let v = ((local o).now w).1 in
      go (again mode (o.now w.calls) fuel v)
        (turns-Ended p o cfg order shuffles tickets mixes mode (o.now w.calls) fuel v keyed
          (enough mode))
        (turns-Emptied mode (o.now w.calls) fuel v) (tick_modes-Ticked fuel modes)
    where
      later : (v : World F64) → Emptied w v → (r : Option (World F64)) → Ticked v r → Ticked w r
      later v d none h = h
      later v d (some u) h = λ other. Drains-trans other _ _ _ (d other) (h other)

      go :
          (r : Option (Option String) × World F64)
          → Ended p o cfg order shuffles tickets mixes mode (o.now w.calls) r
          → Emptied w r.1
          → ((v : World F64)
              → IsKeyed v.queue.tickets
              → ((other : String) → waits other v.queue.tickets < fuel)
              → Ticked v
                  (tick_modes p (local o) (local_intake tickets) matchmaker order fuel modes v))
          → Ticked w (
              after_mode p
                (local o)
                (local_intake tickets)
                matchmaker
                order
                (λ t. tick_modes p (local o) (local_intake tickets) matchmaker order fuel modes t)
                r)
      go (none, v) h d ih = elim h [ ]
      go (some e, v) h d ih =
          later v d _
            (ih v (d mode keyed).0 λ other. omega (arith, (d other keyed).1, enough other))

  -- A tick processes every mode and returns, with more fuel than the queue has tickets, whichever
  -- modes report an error; in no mode do more tickets wait after it than before.
  pub tick_ends :
      (calls : List (Call F64)) (w : World F64) (fuel : ℕ)
      → run new_in_mem calls ≡ done w.queue
      → length w.queue.tickets < fuel
      → (v : World F64) × (tick p (local o) (local_intake tickets) matchmaker order fuel w ≡ some v)
        × ((mode : String) → depth v.queue mode ≤ depth w.queue mode)
  unfolding tick
  tick_ends calls w fuel ran enough =
      let keyed = run-new-IsKeyed calls w.queue ran in
      go
        (tick_modes p (local o) (local_intake tickets) matchmaker order fuel
          matchmaker.candidate_modes w)
        (tick_modes-Ticked fuel matchmaker.candidate_modes w keyed
          λ mode. omega (arith, enough, length-keep-le (λ x. is_pending mode x.1) w.queue.tickets))
    where
      go :
          (r : Option (World F64))
          → Ticked w r
          → (v : World F64) × (r ≡ some v)
            × ((mode : String) → depth v.queue mode ≤ depth w.queue mode)
      go none h = elim h [ ]
      go (some v) h = (
        v,
        refl,
        λ mode.
            rw (depth-keep v.queue mode, depth-keep w.queue mode)
              (h mode (run-new-IsKeyed calls w.queue ran)).1,
      )
