-- ===== src/Queue/Safety.antt =====
-- The channels of internal/infra/matchqueue/inmem.go over sequences of calls: panics, and what stays
-- among the subscribers.
use vfx.Base.{
  ℕ, true, false, some, List, [], ◌∷◌, ◌≡◌, refl, sym, ◌∙◌, ◌==◌, arith, Bool-cases, Option-cases,
  inl, inr,
}
use vfx.Match.Ticket.{Ticket}
use vfx.Queue.{
  InMem, TicketEntry, Channel, Event, Outcome, done, error, panic, find, store, delete, subs_of,
  is_terminal, publish_locked, enqueue, cancel, cancelled, publish, claim, claimable, mark_claimed,
  Call, enqueues, cancels, subscribes, receives, detaches, publishes, claims, step, run, new_in_mem,
}
use vfx.Queue.Assoc.{find-store}
use vfx.Queue.Channels.{Delivered, deliver-Delivers}
use vfx.Queue.Wiring.{IsWired-ext, IsWired-keep, IsWired-shrink}
use vfx.Queue.Subscribers.{
  IsSafe, Good, subs_of-delete, retag_one, retag_open, subscribe-Good, detach-Good, receive-IsSafe,
}

module _ {F : Type 0} where
  enqueue-IsSafe : (q : InMem F) (t : Ticket F) → IsSafe q → IsSafe (enqueue q t)
  unfolding enqueue
  enqueue-IsSafe q t s = elim (Option-cases (find t.id q.tickets)) [
    | inr (e, found) ↦ rw (found, enqueue) s
    | inl fresh ↦ rw (fresh, enqueue) (retag_open q t.id _ s refl)
  ]

  -- A terminal event: the subscribers are told, closed and dropped, and the ticket is finished.
  finish-IsSafe :
      (q : InMem F) (id : ℕ) (e : TicketEntry F) (cs : List Channel)
      → Delivered true (subs_of q id) q.channels cs
      → e.finished ≡ true
      → IsSafe q
      → IsSafe (record {
        tickets = store id e q.tickets;
        subscribers = delete id q.subscribers;
        channels = cs;
      })
  finish-IsSafe q id e cs d fin s = record {
    wired = IsWired-ext (subs_of-delete q id) (
        IsWired-shrink (subs_of q) q.channels cs id [] (λ ch m. elim m [ ]) tt tt d.others
          (d.bounded s.wired.bounded) s.wired);
    quiet = λ j x found was. elim (Bool-cases (id == j)) [
      | inl here ↦ sym (subs_of-delete q id j) ∙ rw here
      | inr other ↦
          sym (subs_of-delete q id j)
          ∙ rw other (s.quiet j x (ground (arith, find-store id j e q.tickets)) was)
    ];
  }

  publish_locked-Good :
      (q : InMem F) (id : ℕ) (event : Event) (e : TicketEntry F)
      → find id q.tickets ≡ some e
      → IsSafe q
      → Good (publish_locked q id event)
  unfolding publish_locked
  publish_locked-Good q id event e found s = elim (Bool-cases (is_terminal event)) [
    | inl t ↦
        let (cs, sent, d) =
          deliver-Delivers event true (subs_of q id) q.channels (s.wired.distinct id)
            (s.wired.live id) in
        rw (found, publish_locked) (rw t (rw sent (finish-IsSafe q id _ cs d refl s)))
    | inr t ↦
        let (cs, sent, d) =
          deliver-Delivers event false (subs_of q id) q.channels (s.wired.distinct id)
            (s.wired.live id) in
        rw (found, publish_locked)
          (rw t (
            rw sent (
              retag_one (record q { channels = cs }) id e _
                (record {
                  wired = IsWired-keep (d.stay_open refl) (d.bounded s.wired.bounded) s.wired;
                  quiet = s.quiet;
                })
                found refl)))
  ]

  cancel-Good : (q : InMem F) (id : ℕ) → IsSafe q → Good (cancel q id)
  unfolding cancel
  cancel-Good q id s = elim (Option-cases (find id q.tickets)) [
    | inl missing ↦ rw (missing, cancel) tt
    | inr (e, found) ↦
        rw (found, cancel)
          (elim (Bool-cases e.finished) [
            | inl f ↦ rw f s
            | inr f ↦ rw f (publish_locked-Good q id cancelled e found s)
          ])
  ]

  publish-Good : (q : InMem F) (id : ℕ) (event : Event) → IsSafe q → Good (publish q id event)
  unfolding publish
  publish-Good q id event s = elim (Option-cases (find id q.tickets)) [
    | inl missing ↦ rw (missing, publish) tt
    | inr (e, found) ↦ rw (found, publish) (publish_locked-Good q id event e found s)
  ]

  mark_claimed-IsSafe :
      (ids : List ℕ) (q : InMem F)
      → IsSafe q
      → IsSafe (record q { tickets = mark_claimed ids q.tickets })
  unfolding mark_claimed
  mark_claimed-IsSafe [] q s = s
  mark_claimed-IsSafe (id ∷ ids) q s = elim (Option-cases (find id q.tickets)) [
    | inl missing ↦ rw (missing, mark_claimed) (mark_claimed-IsSafe ids q s)
    | inr (e, found) ↦
        rw (found, mark_claimed)
          (mark_claimed-IsSafe ids
            (record q { tickets = store id (record e { claimed = true }) q.tickets })
            (retag_one q id e (record e { claimed = true }) s found refl))
  ]

  claim-IsSafe : (q : InMem F) (ids : List ℕ) → IsSafe q → IsSafe (claim q ids).0
  unfolding claim
  claim-IsSafe q ids s = elim (Bool-cases (claimable q ids)) [
    | inl e ↦ rw e (mark_claimed-IsSafe ids q s)
    | inr e ↦ rw e s
  ]

  -- From a safe queue no call panics, and every call that returns leaves the queue safe: open
  -- channels only among the subscribers, each once, none full beyond its capacity, and none on a
  -- finished ticket.
  pub step-Good : (q : InMem F) (c : Call F) → IsSafe q → Good (step q c)
  unfolding step
  step-Good q (enqueues t) s = enqueue-IsSafe q t s
  step-Good q (cancels id) s = cancel-Good q id s
  step-Good q (subscribes id) s = subscribe-Good q id s
  step-Good q (receives ch) s = receive-IsSafe q ch s
  step-Good q (detaches id ch) s = detach-Good q id ch s
  step-Good q (publishes id e) s = publish-Good q id e s
  step-Good q (claims ids) s = claim-IsSafe q ids s

  IsSafe-new : IsSafe {F = F} new_in_mem
  unfolding new_in_mem find
  IsSafe-new = record {
    wired = record {
      live = λ id. tt;
      distinct = λ id. tt;
      apart = λ i j ch m. elim m [ ];
      bounded = record { at = λ ch c e. cc };
    };
    quiet = λ id e found. cc;
  }

  run-Good : (q : InMem F) (cs : List (Call F)) → IsSafe q → Good (run q cs)
  unfolding run
  run-Good q [] s = s
  run-Good q (c ∷ cs) s = go (step q c) (step-Good q c s) (λ q' h. run-Good q' cs h)
    where
      go :
          (r : Outcome (InMem F))
          → Good r
          → ((q' : InMem F) → IsSafe q' → Good (run q' cs))
          → Good (elim r [ done q' ↦ run q' cs | error e ↦ run q cs | panic ↦ panic ])
      go (done q') g ih = ih q' g
      go (error e) g ih = ih q s
      go panic g ih = g

  -- Whatever calls come in whatever order, a new queue never panics.
  pub run-new-Good : (cs : List (Call F)) → Good (run new_in_mem cs)
  run-new-Good cs = run-Good new_in_mem cs IsSafe-new
