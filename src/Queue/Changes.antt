-- ===== src/Queue/Changes.antt =====
-- internal/infra/matchqueue/inmem.go: what its calls do to the map of tickets.
use vfx.Base.{
  ℕ, ◌≡◌, refl, true, none, some, List, [], ◌∷◌, get_elem?, Bool-cases, Option-cases, inl, inr,
}
use vfx.Queue.{
  InMem, TicketEntry, Event, Outcome, done, error, panic, ◌>>=◌, find, store, deliver, at_channel,
  subs_of, is_terminal, publish_locked, enqueue, cancel, cancelled, publish, subscribe, without,
  detach, claim, claimable, mark_claimed, receive, Call, enqueues, cancels, subscribes, receives,
  detaches, publishes, claims, step, run, close,
}

-- Entries are replaced by entries of the unchanged tickets, which stay finished and claimed.
pub data Updates {F : Type 0} : List (ℕ × TicketEntry F) → List (ℕ × TicketEntry F) → Type 0 where
  unchanged : {ts : List (ℕ × TicketEntry F)} → Updates ts ts
  replaced :
      {ts : List (ℕ × TicketEntry F)} (id : ℕ) (e f : TicketEntry F)
      → find id ts ≡ some e
      → f.ticket ≡ e.ticket
      → (e.finished ≡ true → f.finished ≡ true)
      → (e.claimed ≡ true → f.claimed ≡ true)
      → Updates ts (store id f ts)
  next : {ts us vs : List (ℕ × TicketEntry F)} → Updates ts us → Updates us vs → Updates ts vs

-- Beside that, a new ticket is added under its id.
pub data Change {F : Type 0} : List (ℕ × TicketEntry F) → List (ℕ × TicketEntry F) → Type 0 where
  updated : {ts us : List (ℕ × TicketEntry F)} → Updates ts us → Change ts us
  added :
      {ts : List (ℕ × TicketEntry F)} (id : ℕ) (f : TicketEntry F)
      → find id ts ≡ none
      → f.ticket.id ≡ id
      → Change ts (store id f ts)

module _ {F : Type 0} where
  -- What holds of the tickets that a call leaves, when it returns.
  abbrev pub Leaves : (List (ℕ × TicketEntry F) → Type 0) → Outcome (InMem F) → Type 0
  Leaves P (done q) = P q.tickets
  Leaves P (error e) = Unit {0}
  Leaves P panic = Unit {0}

  Leaves-bind :
      (P : List (ℕ × TicketEntry F) → Type 0) {A : Type 0} (m : Outcome A) (f : A → InMem F)
      → ((a : A) → P (f a).tickets)
      → Leaves P (m >>= λ a. done (f a))
  Leaves-bind P (done a) f h = h a
  Leaves-bind P (error e) f h = tt
  Leaves-bind P panic f h = tt

  pub Leaves-mono :
      (P Q : List (ℕ × TicketEntry F) → Type 0) (m : Outcome (InMem F))
      → ((ts : List (ℕ × TicketEntry F)) → P ts → Q ts)
      → Leaves P m
      → Leaves Q m
  Leaves-mono P Q (done q) f h = f q.tickets h
  Leaves-mono P Q (error e) f h = tt
  Leaves-mono P Q panic f h = tt

  publish_locked-Updates :
      (q : InMem F) (id : ℕ) (event : Event)
      → Leaves (Updates q.tickets) (publish_locked q id event)
  unfolding publish_locked
  publish_locked-Updates q id event = elim (Option-cases (find id q.tickets)) [
    | inl missing ↦ rw (missing, publish_locked) tt
    | inr (e, found) ↦
        rw (found, publish_locked)
          (Leaves-bind (Updates q.tickets)
            (deliver event (is_terminal event) (subs_of q id) q.channels) _
            λ cs. elim (Bool-cases (is_terminal event)) [
              | inl t ↦ rw t (replaced id e _ found refl (λ f. refl) (λ c. c))
              | inr t ↦ rw t (replaced id e _ found refl (λ f. f) (λ c. c))
            ])
  ]

  pub publish-Updates :
      (q : InMem F) (id : ℕ) (event : Event) → Leaves (Updates q.tickets) (publish q id event)
  unfolding publish
  publish-Updates q id event = elim (Option-cases (find id q.tickets)) [
    | inl missing ↦ rw (missing, publish) tt
    | inr (e, found) ↦ rw (found, publish) (publish_locked-Updates q id event)
  ]

  cancel-Updates : (q : InMem F) (id : ℕ) → Leaves (Updates q.tickets) (cancel q id)
  unfolding cancel
  cancel-Updates q id = elim (Option-cases (find id q.tickets)) [
    | inl missing ↦ rw (missing, cancel) tt
    | inr (e, found) ↦
        rw (found, cancel)
          (elim (Bool-cases e.finished) [
            | inl f ↦ rw f unchanged
            | inr f ↦ rw f (publish_locked-Updates q id cancelled)
          ])
  ]

  pub mark_claimed-Updates :
      (ids : List ℕ) (ts : List (ℕ × TicketEntry F)) → Updates ts (mark_claimed ids ts)
  unfolding mark_claimed
  mark_claimed-Updates [] ts = unchanged
  mark_claimed-Updates (id ∷ ids) ts = elim (Option-cases (find id ts)) [
    | inl missing ↦ rw (missing, mark_claimed) (mark_claimed-Updates ids ts)
    | inr (e, found) ↦
        rw (found, mark_claimed)
          (next (replaced id e (record e { claimed = true }) found refl (λ f. f) (λ c. refl))
            (mark_claimed-Updates ids (store id (record e { claimed = true }) ts)))
  ]

  pub claim-Updates : (q : InMem F) (ids : List ℕ) → Updates q.tickets (claim q ids).0.tickets
  unfolding claim
  claim-Updates q ids = elim (Bool-cases (claimable q ids)) [
    | inl e ↦ rw e (mark_claimed-Updates ids q.tickets)
    | inr e ↦ rw e unchanged
  ]

  step-Change : (q : InMem F) (c : Call F) → Leaves (Change q.tickets) (step q c)
  unfolding step enqueue subscribe detach receive
  step-Change q (enqueues t) = elim (Option-cases (find t.id q.tickets)) [
    | inr (e, found) ↦ rw (found, enqueue) (updated unchanged)
    | inl missing ↦ rw (missing, enqueue) (added t.id _ missing refl)
  ]
  step-Change q (cancels id) =
      Leaves-mono _ _ (cancel q id) (λ ts u. updated u) (cancel-Updates q id)
  step-Change q (publishes id e) =
      Leaves-mono _ _ (publish q id e) (λ ts u. updated u) (publish-Updates q id e)
  step-Change q (subscribes id) = elim (Option-cases (find id q.tickets)) [
    | inl missing ↦ rw (missing, subscribe) tt
    | inr (e, found) ↦
        rw (found, subscribe)
          (elim (Bool-cases e.finished) [
            | inl f ↦ rw f (updated unchanged)
            | inr f ↦ rw f (updated unchanged)
          ])
  ]
  step-Change q (receives ch) = elim (Option-cases (get_elem? q.channels ch)) [
    | inl missing ↦ rw (missing, receive) (updated unchanged)
    | inr (c, at) ↦ rw (at, receive) (updated unchanged)
  ]
  step-Change q (detaches id target) = elim (Option-cases (without target (subs_of q id))) [
    | inl missing ↦ rw (missing, detach) (updated unchanged)
    | inr (l, found) ↦
        rw (found, detach)
          (Leaves-bind (Change q.tickets) (at_channel close q.channels target) _
            λ cs. updated unchanged)
  ]
  step-Change q (claims ids) = updated (claim-Updates q ids)

  -- What every change of the tickets keeps, every run keeps.
  pub run-Leaves :
      (P : List (ℕ × TicketEntry F) → Type 0)
      → ((ts us : List (ℕ × TicketEntry F)) → Change ts us → P ts → P us)
      → (q : InMem F) (cs : List (Call F)) → P q.tickets
      → Leaves P (run q cs)
  unfolding run
  run-Leaves P keep q [] h = h
  run-Leaves P keep q (c ∷ cs) h =
      go (step q c)
        (Leaves-mono (Change q.tickets) P (step q c) (λ ts d. keep q.tickets ts d h)
          (step-Change q c))
        (λ q' k. run-Leaves P keep q' cs k) (run-Leaves P keep q cs h)
    where
      go :
          (m : Outcome (InMem F))
          → Leaves P m
          → ((q' : InMem F) → P q'.tickets → Leaves P (run q' cs))
          → Leaves P (run q cs)
          → Leaves P (elim m [ done q' ↦ run q' cs | error e ↦ run q cs | panic ↦ panic ])
      go (done q') k ih stays = ih q' k
      go (error e) k ih stays = stays
      go panic k ih stays = tt
