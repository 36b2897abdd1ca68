-- ===== src/Matchmaker/Local.antt =====
-- The services of a gateway process that runs alone: the queue of internal/infra/matchqueue/inmem.go and
-- the store of internal/infra/assignmentstore/inmem.go. The allocator, the signer and the clock are
-- functions of the number of calls made so far.
use vfx.Base.{
  ℕ, suc, ◌==◌, ==_iff, All-mono, ◌≡◌, refl, sym, ap, subst, ◌∙◌, true, false, List, ◌∷◌, String,
  All, some, Bool-cases, Option-cases, inl, inr, eq_of_some,
}
use vfx.Queue.{
  InMem, TicketEntry, Event, Outcome, done, error, panic, find, store, delete, publish,
  publish_locked, subs_of, is_terminal, claim, step, publishes, claims, pending,
}
use vfx.Queue.Assoc.{find-store}
use vfx.Queue.Channels.{deliver-Delivers}
use vfx.Queue.Claims.{claim_all_or_none}
use vfx.Queue.Safety.{step-Good}
use vfx.Queue.Subscribers.{IsSafe, Good}
use vfx.Matchmaker.{Services, Answer, RoomAllocation, value, failure}
use vfx.Matchmaker.Assignments.{Entry, put}
use vfx.Matchmaker.Laws.{Telling}
use vfx.Matchmaker.Loop.{Intake}

pub record World (F : Type 0) : Type 0 where
  pub queue : InMem F
  pub entries : List (ℕ × Entry)
  pub calls : ℕ
  pub matches : ℕ
  pub queue_depths : List (String × ℕ)

-- What is outside the repository, at each call.
pub record Outside : Type 0 where
  pub allocate : ℕ → String → ℕ → Answer RoomAllocation
  pub sign_session : ℕ → ℕ → ℕ → List ℕ → ℕ → ℕ → Answer String
  pub now : ℕ → ℕ

module _ {F : Type 0} where
  -- A panic, which would end the process, is an error here.
  abbrev pub published : World F → Outcome (InMem F) → Answer (Unit {0}) × World F
  published w (done q) = (value tt, record w { queue = q })
  published w (error e) = (failure "match: ticket not found", w)
  published w panic = (failure "panic", w)

  abbrev pub called : World F → World F
  called w = record w { calls = suc w.calls }

  abbrev pub local : Outside → Services (World F)
  local o = record {
    claim = λ mode ids w. (value (claim w.queue ids).1, record w { queue = (claim w.queue ids).0 });
    publish = λ id e w. published w (publish w.queue id e);
    allocate = λ mode n w. (o.allocate w.calls mode n, called w);
    sign_session =
        λ player m players now ttl w. (o.sign_session w.calls player m players now ttl, called w);
    put = λ player a ttl w.
        (value tt, record (called w) { entries = put (o.now w.calls) player a ttl w.entries });
    now = λ w. (o.now w.calls, called w);
    match_allocated = λ w. record w { matches = suc w.matches };
  }

  -- `order` is the order in which the runtime iterates over the map of tickets.
  abbrev pub local_intake :
      (List (ℕ × TicketEntry F) → List (ℕ × TicketEntry F)) → Intake (World F) F
  local_intake order = record {
    pending = λ mode w. (value (pending order w.queue mode), w);
    set_queue_depth = λ mode n w. record w { queue_depths = (mode, n) ∷ w.queue_depths };
  }

  -- The ticket is in a safe queue, and has ended.
  abbrev pub HasTicket : ℕ → World F → Type 0
  HasTicket id w = IsSafe w.queue × (e : TicketEntry F) × (find id w.queue.tickets ≡ some e)

  abbrev pub HasEnded : ℕ → World F → Type 0
  HasEnded id w =
      IsSafe w.queue
      × (e : TicketEntry F) × (find id w.queue.tickets ≡ some e)
      × (e.finished ≡ true)

  -- Tickets stay, and stay finished.
  abbrev Stay : List (ℕ × TicketEntry F) → List (ℕ × TicketEntry F) → Type 0
  Stay ts us =
      (id : ℕ) (e : TicketEntry F)
      → find id ts ≡ some e
      → (f : TicketEntry F) × (find id us ≡ some f) × (e.finished ≡ true → f.finished ≡ true)

  abbrev pub Later : World F → World F → Type 0
  Later v w = IsSafe v.queue → IsSafe w.queue × Stay v.queue.tickets w.queue.tickets

  Stay-store :
      (ts : List (ℕ × TicketEntry F)) (k : ℕ) (old new : TicketEntry F)
      → find k ts ≡ some old
      → (old.finished ≡ true → new.finished ≡ true)
      → Stay ts (store k new ts)
  Stay-store ts k old new at fin id e found = elim (Bool-cases (k == id)) [
    | inl here ↦
        let same : find id ts ≡ some old = ap (λ j. find j ts) (sym ((==_iff k id).0 here)) ∙ at in
        let eq : e ≡ old = eq_of_some (sym found ∙ same) in
        (
          new,
          find-store k id new ts ∙ rw here,
          λ f. fin (sym (ap (λ (x : TicketEntry F). x.finished) eq) ∙ f),
        )
    | inr other ↦ (e, find-store k id new ts ∙ rw other found, λ f. f)
  ]

  Stay-refl : (ts : List (ℕ × TicketEntry F)) → Stay ts ts
  Stay-refl ts id e found = (e, found, λ f. f)

  -- A publication on a safe queue that has the ticket returns, keeps every ticket, and ends its own
  -- when the event is terminal.
  abbrev Published : InMem F → ℕ → Event → Type 0
  Published q id event =
      (r : InMem F) × (publish q id event ≡ done r)
      × Stay q.tickets r.tickets
      × (is_terminal event ≡ true
          → (f : TicketEntry F) × (find id r.tickets ≡ some f) × (f.finished ≡ true))

  publish-Published :
      (q : InMem F) (id : ℕ) (event : Event) (e : TicketEntry F)
      → IsSafe q
      → find id q.tickets ≡ some e
      → Published q id event
  unfolding publish publish_locked
  publish-Published q id event e s found = elim (Bool-cases (is_terminal event)) [
    | inl t ↦
        let (cs, sent, d) =
          deliver-Delivers event true (subs_of q id) q.channels (s.wired.distinct id)
            (s.wired.live id) in
        let f : TicketEntry F = record e { latest = event; finished = true } in
        let r : InMem F = record {
          tickets = store id f q.tickets;
          subscribers = delete id q.subscribers;
          channels = cs;
        } in
        (
          r,
          rw (found, publish) (rw (found, publish_locked) (rw t (rw sent refl))),
          Stay-store q.tickets id e f found (λ f. refl),
          λ t. (f, find-store id id f q.tickets ∙ rw ((==_iff id id).1 refl), refl),
        )
    | inr t ↦
        let (cs, sent, d) =
          deliver-Delivers event false (subs_of q id) q.channels (s.wired.distinct id)
            (s.wired.live id) in
        let f : TicketEntry F = record e { latest = event } in
        let r : InMem F = record q { tickets = store id f q.tickets; channels = cs } in
        (
          r,
          rw (found, publish) (rw (found, publish_locked) (rw t (rw sent refl))),
          Stay-store q.tickets id e f found (λ f. f),
          λ u. cc (t, u),
        )
  ]

  Later-trans : (u v w : World F) → Later u v → Later v w → Later u w
  Later-trans u v w l m s =
      let a = l s in
      let b = m a.0 in
      (
        b.0,
        λ id e found.
            let (f, at, fin) = a.1 id e found in
            let (g, at', fin') = b.1 id f at in (g, at', λ x. fin' (fin x)),
      )

  publish-IsSafe :
      (q r : InMem F) (id : ℕ) (event : Event) → IsSafe q → publish q id event ≡ done r → IsSafe r
  unfolding step
  publish-IsSafe q r id event s eq = subst Good eq (step-Good q (publishes id event) s)

  claim-IsSafe : (q : InMem F) (ids : List ℕ) → IsSafe q → IsSafe (claim q ids).0
  unfolding step
  claim-IsSafe q ids s = step-Good q (claims ids) s

  publish-Later :
      (id : ℕ) (event : Event) (w : World F) → Later w (published w (publish w.queue id event)).1
  unfolding publish
  publish-Later id event w s = elim (Option-cases (find id w.queue.tickets)) [
    | inl missing ↦ rw (missing, publish) (s, Stay-refl w.queue.tickets)
    | inr (e, found) ↦
        let (r, eq, stay, ends) = publish-Published w.queue id event e s found in
        rw eq (publish-IsSafe w.queue r id event s eq, stay)
  ]

  publish-HasEnded :
      (id : ℕ) (event : Event) (w : World F)
      → is_terminal event ≡ true
      → HasTicket id w
      → HasEnded id (published w (publish w.queue id event)).1
  publish-HasEnded id event w t (s, e, found) =
      let (r, eq, stay, ends) = publish-Published w.queue id event e s found in
      let (f, at, fin) = ends t in rw eq (publish-IsSafe w.queue r id event s eq, f, at, fin)

  claim-HasTicket :
      (o : Outside) (mode : String) (ids : List ℕ) (w : World F)
      → IsSafe w.queue
      → ((local o).claim mode ids w).0 ≡ value true
      → All (λ id. HasTicket id ((local o).claim mode ids w).1) ids
  claim-HasTicket o mode ids w s h =
      let yes : (claim w.queue ids).1 ≡ true = cc h in
      All-mono ids (λ id t. (claim-IsSafe w.queue ids s, t.0, t.1))
        ((claim_all_or_none w.queue ids).1 yes)

  -- The services of a single process keep what the matchmaker relies on.
  pub local-Telling :
      (o : Outside) → Telling (local o) (λ w. IsSafe w.queue) HasTicket HasEnded Later
  local-Telling o = record {
    later_refl = λ w s. (s, Stay-refl w.queue.tickets);
    later_trans = Later-trans;
    known = λ id l k. let a = l k.0 in let (f, at, fin) = a.1 id k.1 k.2 in (a.0, f, at);
    told = λ id l k. let a = l k.0 in let (f, at, fin) = a.1 id k.1 k.2 in (a.0, f, at, fin k.3);
    claim_known = claim-HasTicket o;
    publish_tells = publish-HasEnded;
    publish_later = publish-Later;
    allocate_later = λ mode n w s. (s, Stay-refl w.queue.tickets);
    sign_later = λ player m players now ttl w s. (s, Stay-refl w.queue.tickets);
    put_later = λ player a ttl w s. (s, Stay-refl w.queue.tickets);
    now_later = λ w s. (s, Stay-refl w.queue.tickets);
    metrics_later = λ w s. (s, Stay-refl w.queue.tickets);
  }
