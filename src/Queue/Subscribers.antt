-- ===== src/Queue/Subscribers.antt =====
-- internal/infra/matchqueue/inmem.go: the state of its channels and subscribers, and Subscribe with what
-- its watcher and its client do.
use mathlib.Core.List.{Memᴰ}
use mathlib.Core.List.Memᴰ.{head, tail}
use vfx.Base.{
  ℕ, ◌≤◌, true, false, some, List, [], ◌∷◌, ◌++◌, ◌≡◌, ◌≢◌, refl, sym, ap, subst, ◌∙◌, ◌==◌, ==_iff,
  get_elem?, length, arith, All, All-of_mem, All-mem, Bool-cases, Option-cases, eq_of_some, inl,
  inr,
}
use vfx.Queue.{
  InMem, TicketEntry, Channel, Event, Outcome, done, error, panic, ◌>>=◌, set, capacity, close,
  find, store, delete, or_nil, subs_of, subscribe, without, detach, receive, receive_from,
}
use vfx.Queue.Assoc.{
  find-store, find-delete, get_elem?-set_ne, get_elem?-append_left, get_elem?-snoc_cases,
}
use vfx.Queue.Channels.{
  IsOpen, IsDistinct, IsBounded, set-IsOpen, set-IsBounded, at_channel-some, close_open,
}
use vfx.Queue.Wiring.{
  IsWired, IsWired-ext, IsWired-keep, IsWired-shrink, IsWired-subscribe, update, without-mem,
  without-IsDistinct,
}

IsBounded-snoc :
    (cs : List Channel) (c : Channel)
    → length c.buffer ≤ capacity
    → IsBounded cs
    → IsBounded (cs ++ c ∷ [])
IsBounded-snoc cs c h b = record {
  at = λ ch x e. elim (get_elem?-snoc_cases cs c x ch e) [
    | inl old ↦ b.at ch x old
    | inr new ↦ subst (λ (y : Channel). length y.buffer ≤ capacity) (sym new) h
  ];
}

module _ {F : Type 0} where
  pub record IsSafe (q : InMem F) : Type 0 where
    pub wired : IsWired (subs_of q) q.channels
    pub quiet :
        (id : ℕ) (e : TicketEntry F)
        → find id q.tickets ≡ some e
        → e.finished ≡ true
        → subs_of q id ≡ []

  -- A call that returns leaves a safe state, and no call panics.
  abbrev pub Good : Outcome (InMem F) → Type 0
  Good (done q) = IsSafe q
  Good (error e) = Unit {0}
  Good panic = ⊥

  pub subs_of-store :
      (q : InMem F) (id : ℕ) (l : List ℕ) (j : ℕ)
      → update (subs_of q) id l j ≡ or_nil (find j (store id l q.subscribers))
  subs_of-store q id l j = rw find-store (ground arith)

  pub subs_of-delete :
      (q : InMem F) (id j : ℕ)
      → update (subs_of q) id [] j ≡ or_nil (find j (delete id q.subscribers))
  subs_of-delete q id j = rw find-delete (ground arith)

  -- Entries may change under a safe queue, as long as none becomes finished with subscribers.
  pub retag :
      (q : InMem F) (ts : List (ℕ × TicketEntry F))
      → IsSafe q
      → ((id : ℕ) (e : TicketEntry F) → find id ts ≡ some e → e.finished ≡ true → subs_of q id ≡ [])
      → IsSafe (record q { tickets = ts })
  retag q ts s h = record { wired = s.wired; quiet = h }

  -- One entry replaced by one that is finished only if the old one was.
  pub retag_one :
      (q : InMem F) (k : ℕ) (old new : TicketEntry F)
      → IsSafe q
      → find k q.tickets ≡ some old
      → new.finished ≡ old.finished
      → IsSafe (record q { tickets = store k new q.tickets })
  retag_one q k old new s at same = retag q _ s λ id e found fin. elim (Bool-cases (k == id)) [
    | inr other ↦ s.quiet id e (ground (arith, find-store k id new q.tickets)) fin
    | inl here ↦ s.quiet id old (ground arith) (ground (arith, find-store k id new q.tickets))
  ]

  -- An entry that is not finished may be stored anywhere.
  pub retag_open :
      (q : InMem F) (k : ℕ) (new : TicketEntry F)
      → IsSafe q
      → new.finished ≡ false
      → IsSafe (record q { tickets = store k new q.tickets })
  retag_open q k new s unfinished = retag q _ s λ id e found fin. elim (Bool-cases (k == id)) [
    | inr other ↦ s.quiet id e (ground (arith, find-store k id new q.tickets)) fin
    | inl here ↦
        let same : new ≡ e = ground (arith, find-store k id new q.tickets) in
        cc (ap (λ (x : TicketEntry F). x.finished) same)
  ]

  abbrev pub after_subscribe : Outcome (InMem F × ℕ) → Outcome (InMem F)
  after_subscribe m = m >>= λ r. done r.0

  pub subscribe-Good : (q : InMem F) (id : ℕ) → IsSafe q → Good (after_subscribe (subscribe q id))
  unfolding subscribe
  subscribe-Good q id s = elim (Option-cases (find id q.tickets)) [
    | inl missing ↦ rw (missing, subscribe) tt
    | inr (e, found) ↦
        rw (found, subscribe)
          (elim (Bool-cases e.finished) [
            | inl f ↦ rw f (record {
              wired =
                  IsWired-keep (λ j o. (o.0, get_elem?-append_left q.channels _ j o.0 o.1, o.2))
                    (IsBounded-snoc q.channels _ (omega arith) s.wired.bounded) s.wired;
              quiet = s.quiet;
            })
            | inr f ↦ rw f (record {
              wired = IsWired-ext (subs_of-store q id _) (
                  IsWired-subscribe (subs_of q) q.channels id
                    (record { buffer = e.latest ∷ []; closed = false }) refl
                    (IsBounded-snoc q.channels _ (omega arith) s.wired.bounded) s.wired);
              quiet = λ j x at was. elim (Bool-cases (id == j)) [
                | inl here ↦ cc (
                    ap (λ (y : TicketEntry F). y.finished)
                      (eq_of_some (
                        sym found
                        ∙ subst (λ k. find k q.tickets ≡ some x) (sym ((==_iff id j).0 here)) at)))
                | inr other ↦ sym (subs_of-store q id _ j) ∙ rw other (s.quiet j x at was)
              ];
            })
          ])
  ]

  pub detach-Good : (q : InMem F) (id target : ℕ) → IsSafe q → Good (detach q id target)
  unfolding detach
  detach-Good q id target s = elim (Option-cases (without target (subs_of q id))) [
    | inl missing ↦ rw (missing, detach) s
    | inr (l, found) ↦
        let (mem, sub) = without-mem target (subs_of q id) l found in
        let (d, gone) = without-IsDistinct target (subs_of q id) l found (s.wired.distinct id) in
        let (c, at, op) = All-mem (IsOpen q.channels) (subs_of q id) (s.wired.live id) mem in
        rw (found, detach)
          (rw (at_channel-some close q.channels target c at)
            (rw (close_open c op) (closed l mem sub d gone c at)))
  ]
    where
      closed :
          (l : List ℕ)
          → Memᴰ target (subs_of q id)
          → ((ch : ℕ) → Memᴰ ch l → Memᴰ ch (subs_of q id))
          → IsDistinct l
          → All (λ y. y ≢ target) l
          → (c : Channel) → get_elem? q.channels target ≡ some c
          → IsSafe (record q {
            subscribers = store id l q.subscribers;
            channels = set q.channels target (record c { closed = true });
          })
      closed l mem sub d gone c at = record {
        wired = IsWired-ext (subs_of-store q id l) (
            IsWired-shrink (subs_of q) q.channels _ id l sub d
              (All-of_mem _ l (λ ch m.
                let (x, there, op) =
                  All-mem (IsOpen q.channels) (subs_of q id) (s.wired.live id) (sub ch m) in
                (
                  x,
                  get_elem?-set_ne q.channels {i = target} {j = ch} _
                        (λ e. All-mem (λ y. y ≢ target) l gone m (sym e))
                      ∙ there,
                  op,
                )))
              (λ ch n.
                get_elem?-set_ne q.channels {i = target} {j = ch} _
                  (λ e. n (subst (λ k. Memᴰ k (subs_of q id)) e mem)))
              (set-IsBounded q.channels target c (record c { closed = true }) at
                (s.wired.bounded.at target c at) s.wired.bounded)
              s.wired);
        quiet = λ j x here was. elim (Bool-cases (id == j)) [
          | inr other ↦ sym (subs_of-store q id l j) ∙ rw other (s.quiet j x here was)
          | inl same ↦ elim (none_left (s.quiet j x here was) ((==_iff id j).0 same)) [ ]
        ];
      }
        where
          none_left : {j : ℕ} → subs_of q j ≡ [] → id ≡ j → ⊥
          none_left e same = nothing (subst (λ k. Memᴰ target (subs_of q k)) same mem) e
            where
              nothing : {xs : List ℕ} → Memᴰ target xs → xs ≡ [] → ⊥
              nothing (head q) e = cc
              nothing (tail m) e = cc

  pub receive-IsSafe : (q : InMem F) (ch : ℕ) → IsSafe q → IsSafe (receive q ch)
  unfolding receive
  receive-IsSafe q ch s = elim (Option-cases (get_elem? q.channels ch)) [
    | inl missing ↦ rw (missing, receive) s
    | inr (c, at) ↦
        rw (at, receive)
          (record {
            wired = IsWired-keep (λ j o. read c at j o) (shorter c at) s.wired;
            quiet = s.quiet;
          })
  ]
    where
      read :
          (c : Channel) (at : get_elem? q.channels ch ≡ some c) (j : ℕ)
          → IsOpen q.channels j
          → IsOpen (set q.channels ch (record c { buffer = receive_from c.buffer })) j
      read c at j o = elim (Bool-cases (ch == j)) [
        | inr other ↦
            (o.0, get_elem?-set_ne q.channels {i = ch} {j = j} _ (ground arith) ∙ o.1, o.2)
        | inl here ↦
            let same : c ≡ o.0 = eq_of_some (
              sym at
              ∙ subst (λ k. get_elem? q.channels k ≡ some o.0) (sym ((==_iff ch j).0 here)) o.1) in
            set-IsOpen q.channels ch c _ at (ap (λ (x : Channel). x.closed) same ∙ o.2) j o
      ]

      less : (es : List Event) → length (receive_from es) ≤ length es
      less [] = omega arith
      less (e ∷ es) = omega arith

      shorter :
          (c : Channel)
          → get_elem? q.channels ch ≡ some c
          → IsBounded (set q.channels ch (record c { buffer = receive_from c.buffer }))
      shorter c at =
          set-IsBounded q.channels ch c _ at
            (omega (arith, less c.buffer, s.wired.bounded.at ch c at)) s.wired.bounded
