-- ===== src/Matchmaker/Drain.antt =====
-- internal/usecase/match/matchmaker.go in a process that runs alone: what a turn of the loop of
-- processMode takes from the queue.
use vfx.Base.{
  ℕ, ◌<◌, ◌≡◌, refl, Bool, true, false, List, [], ◌∷◌, String, All, All-of_mem, map, length, some,
  arith,
}
use vfx.Match.Ticket.{Ticket}
use vfx.Queue.{
  InMem, TicketEntry, Outcome, done, error, panic, find, claim, claimable, is_pending, publish,
  Event,
}
use vfx.Queue.Claims.{IsFree, All-claimable}
use vfx.Queue.Keys.{IsKeyed}
use vfx.Queue.Changes.{Updates, Leaves, publish-Updates, claim-Updates}
use vfx.Queue.Drains.{Updates-Drains, Drains, Drains-refl, Drains-trans, claim-lt, waits}
use vfx.Matchmaker.{value, pair, after_claim}
use vfx.Matchmaker.Laws.{Telling, after_allocate-TellsAll}
use vfx.Matchmaker.Local.{World, Outside, local, published}

module _ {F : Type 0} (mode : String) where
  abbrev Emptier : World F → World F → Type 0
  Emptier v w = Drains mode v.queue.tickets w.queue.tickets

  publish-Emptier :
      (id : ℕ) (event : Event) (w : World F) → Emptier w (published w (publish w.queue id event)).1
  publish-Emptier id event w = go (publish w.queue id event) (publish-Updates w.queue id event)
    where
      go :
          (m : Outcome (InMem F)) → Leaves (Updates w.queue.tickets) m → Emptier w (published w m).1
      go (done q) h = Updates-Drains mode h
      go (error e) h = Drains-refl mode w.queue.tickets
      go panic h = Drains-refl mode w.queue.tickets

  -- Nothing that pair does after its claim lets more tickets wait.
  local-Emptier :
      (o : Outside) → Telling (local o) (λ w. Unit) (λ id w. Unit) (λ id w. Unit) Emptier
  local-Emptier o = record {
    later_refl = λ w. Drains-refl mode w.queue.tickets;
    later_trans = λ u v w d e. Drains-trans mode _ _ _ d e;
    known = λ id l k. tt;
    told = λ id l k. tt;
    claim_known = λ m ids w r h. All-of_mem _ ids (λ x y. tt);
    publish_tells = λ id e w t k. tt;
    publish_later = publish-Emptier;
    allocate_later = λ m n w. Drains-refl mode w.queue.tickets;
    sign_later = λ player m players now ttl w. Drains-refl mode w.queue.tickets;
    put_later = λ player a ttl w. Drains-refl mode w.queue.tickets;
    now_later = λ w. Drains-refl mode w.queue.tickets;
    metrics_later = λ w. Drains-refl mode w.queue.tickets;
  }

  -- The tickets of a group wait in the mode.
  abbrev pub AllWait : List (ℕ × TicketEntry F) → List (Ticket F) → Type 0
  AllWait ts group =
      All
        (λ (t : Ticket F).
          (e : TicketEntry F) × (find t.id ts ≡ some e) × (is_pending mode e ≡ true))
        group

  AllWait-claimable :
      (q : InMem F) (group : List (Ticket F))
      → AllWait q.tickets group
      → claimable q (map (λ (t : Ticket F). t.id) group) ≡ true
  unfolding is_pending
  AllWait-claimable q group h = All-claimable q _ (free group h)
    where
      free :
          (ts : List (Ticket F))
          → AllWait q.tickets ts
          → All (IsFree q) (map (λ (t : Ticket F). t.id) ts)
      free [] h = tt
      free (t ∷ ts) ((e, found, waits), h) = ((e, found, ground arith, ground arith), free ts h)

  -- pair takes a waiting group out of the pool, whatever becomes of it.
  pub pair-lt :
      (o : Outside) (ttl : ℕ) (t : Ticket F) (ts : List (Ticket F)) (w : World F)
      → IsKeyed w.queue.tickets
      → AllWait w.queue.tickets (t ∷ ts)
      → IsKeyed (pair (local o) ttl mode (t ∷ ts) w).1.queue.tickets
        × (waits mode (pair (local o) ttl mode (t ∷ ts) w).1.queue.tickets
            < waits mode w.queue.tickets)
  unfolding pair claim
  pair-lt o ttl t ts w keyed h = go (claim w.queue ids) won taken
    where
      ids : List ℕ
      ids = map (λ (x : Ticket F). x.id) (t ∷ ts)

      won : (claim w.queue ids).1 ≡ true
      won = rw (AllWait-claimable w.queue (t ∷ ts) h) refl

      taken :
          IsKeyed (claim w.queue ids).0.tickets
          × (waits mode (claim w.queue ids).0.tickets < waits mode w.queue.tickets)
      taken =
          claim-lt mode w.queue t.id (map (λ (x : Ticket F). x.id) ts) h.0.0
            (AllWait-claimable w.queue (t ∷ ts) h) h.0.1 h.0.2 keyed

      go :
          (c : InMem F × Bool)
          → c.1 ≡ true
          → IsKeyed c.0.tickets × (waits mode c.0.tickets < waits mode w.queue.tickets)
          → let r = after_claim (local o) ttl mode (t ∷ ts) (value c.1, record w { queue = c.0 }) in
            IsKeyed r.1.queue.tickets × (waits mode r.1.queue.tickets < waits mode w.queue.tickets)
      go (q, false) e d = cc e
      go (q, true) e d =
          let v : World F = record w { queue = q } in
          let after =
            after_allocate-TellsAll (local o) (local-Emptier o) ttl (t ∷ ts) v
              ((local o).allocate mode (length (t ∷ ts)) v) (Drains-refl mode v.queue.tickets)
              (All-of_mem _ (t ∷ ts) (λ x m. tt)) in
          let end = after.0 d.0 in (end.0, omega (arith, end.1, d.1))

  -- pair lets no more tickets of a mode wait, whichever mode it pairs.
  pub pair-Drains :
      (o : Outside) (ttl : ℕ) (paired : String) (ts : List (Ticket F)) (w : World F)
      → Emptier w (pair (local o) ttl paired ts w).1
  unfolding pair
  pair-Drains o ttl paired ts w =
      go (claim w.queue ids) (Updates-Drains mode (claim-Updates w.queue ids))
    where
      ids : List ℕ
      ids = map (λ (x : Ticket F). x.id) ts

      go :
          (c : InMem F × Bool)
          → Drains mode w.queue.tickets c.0.tickets
          → Emptier w (after_claim (local o) ttl paired ts (value c.1, record w { queue = c.0 })).1
      go (q, false) d = d
      go (q, true) d =
          (after_allocate-TellsAll (local o) (local-Emptier o) ttl ts w
            ((local o).allocate paired (length ts) (record w { queue = q })) d
            (All-of_mem _ ts (λ x m. tt))).0
