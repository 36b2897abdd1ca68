-- ===== src/Queue/Order.antt =====
-- Pending and Depth of internal/infra/matchqueue/inmem.go.
use mathlib.Core.List.{Memᴰ, Permᴰ, reverse, reverse-cons, map}
use mathlib.Core.List.Memᴰ.{head, tail}
use mathlib.Core.List.Permᴰ
use vfx.Base.{
  keep-perm, ℕ, suc, ◌≤◌, true, false, List, [], ◌∷◌, ◌++◌, ◌≡◌, refl, sym, ap, subst, ◌∙◌, String,
  append-nil, ltb, length, length-perm, arith, All, All-of_mem, All-mem, All-mono, All-append,
  Bool-cases, mem-perm, inl, inr, keep, eq_iff,
}
use vfx.Match.Ticket.{Ticket}
use vfx.Queue.{
  InMem, TicketEntry, sink, sort_by_enqueued_at, pending, is_pending, depth, count_pending,
  count_pending_locked,
}

tickets_of-perm :
    {F : Type 0} {xs ys : List (ℕ × TicketEntry F)}
    → Permᴰ xs ys
    → Permᴰ
        (map (λ (x : ℕ × TicketEntry F). x.1.ticket) xs)
        (map (λ (x : ℕ × TicketEntry F). x.1.ticket) ys)
tickets_of-perm Permᴰ.nil = Permᴰ.nil
tickets_of-perm (Permᴰ.cons e d) = Permᴰ.cons (ap (λ x. x.1.ticket) e) (tickets_of-perm d)
tickets_of-perm (Permᴰ.swap e f) = Permᴰ.swap (ap (λ x. x.1.ticket) e) (ap (λ x. x.1.ticket) f)
tickets_of-perm (Permᴰ.trans d e) = Permᴰ.trans (tickets_of-perm d) (tickets_of-perm e)

length-map : {A B : Type 0} (f : A → B) (xs : List A) → length (map f xs) ≡ length xs
length-map f [] = refl
length-map f (x ∷ xs) = ap (λ n. suc n) (length-map f xs)

module _ {F : Type 0} where
  -- No ticket is older than one that stands before it.
  abbrev pub IsOldestFirst : List (Ticket F) → Type 0
  IsOldestFirst [] = Unit {0}
  IsOldestFirst (t ∷ ts) =
      All (λ (s : Ticket F). t.enqueued_at ≤ s.enqueued_at) ts × IsOldestFirst ts

  abbrev IsNewestFirst : List (Ticket F) → Type 0
  IsNewestFirst [] = Unit {0}
  IsNewestFirst (t ∷ ts) =
      All (λ (s : Ticket F). s.enqueued_at ≤ t.enqueued_at) ts × IsNewestFirst ts

  sink-perm : (t : Ticket F) (ts : List (Ticket F)) → Permᴰ (sink t ts) (t ∷ ts)
  unfolding sink
  sink-perm t [] = Permᴰ.refl (t ∷ [])
  sink-perm t (s ∷ ts) = elim (Bool-cases (ltb t.enqueued_at s.enqueued_at)) [
    | inl e ↦ rw e (Permᴰ.trans (Permᴰ.cons refl (sink-perm t ts)) (Permᴰ.swap refl refl))
    | inr e ↦ rw e (Permᴰ.refl (t ∷ s ∷ ts))
  ]

  sink-IsNewestFirst :
      (t : Ticket F) (ts : List (Ticket F)) → IsNewestFirst ts → IsNewestFirst (sink t ts)
  unfolding sink
  sink-IsNewestFirst t [] h = (tt, tt)
  sink-IsNewestFirst t (s ∷ ts) h = elim (Bool-cases (ltb t.enqueued_at s.enqueued_at)) [
    | inl e ↦ rw e (
      All-of_mem _ (sink t ts) (λ x m. below e x (mem-perm (sink-perm t ts) m)),
      sink-IsNewestFirst t ts h.1,
    )
    | inr e ↦ rw e ((old e, All-mono ts (λ x k. later e x k) h.0), h)
  ]
    where
      below :
          ltb t.enqueued_at s.enqueued_at ≡ true
          → (x : Ticket F) → Memᴰ x (t ∷ ts)
          → x.enqueued_at ≤ s.enqueued_at
      below e x (head q) =
          subst (λ (y : Ticket F). y.enqueued_at ≤ s.enqueued_at) (sym q) (ground arith)
      below e x (tail m) = All-mem (λ (y : Ticket F). y.enqueued_at ≤ s.enqueued_at) ts h.0 m

      old : ltb t.enqueued_at s.enqueued_at ≡ false → s.enqueued_at ≤ t.enqueued_at
      old e = ground arith

      later :
          ltb t.enqueued_at s.enqueued_at ≡ false
          → (x : Ticket F) → x.enqueued_at ≤ s.enqueued_at
          → x.enqueued_at ≤ t.enqueued_at
      later e x k = ground arith

  IsOldestFirst-snoc :
      (ts : List (Ticket F)) (t : Ticket F)
      → IsOldestFirst ts
      → All (λ (s : Ticket F). s.enqueued_at ≤ t.enqueued_at) ts
      → IsOldestFirst (ts ++ t ∷ [])
  IsOldestFirst-snoc [] t h k = (tt, tt)
  IsOldestFirst-snoc (s ∷ ts) t h k =
      (All-append _ ts (t ∷ []) h.0 (k.0, tt), IsOldestFirst-snoc ts t h.1 k.1)

  IsOldestFirst-reverse : (ts : List (Ticket F)) → IsNewestFirst ts → IsOldestFirst (reverse ts)
  IsOldestFirst-reverse [] h = tt
  IsOldestFirst-reverse (t ∷ ts) h = subst IsOldestFirst (sym (reverse-cons t ts)) (
      IsOldestFirst-snoc (reverse ts) t (IsOldestFirst-reverse ts h.1) (
        All-of_mem _ (reverse ts) (λ x m.
          All-mem (λ (s : Ticket F). s.enqueued_at ≤ t.enqueued_at) ts h.0
            (mem-perm (Permᴰ.reverse ts) m))))

  sort_by_enqueued_at-perm :
      (sorted ts : List (Ticket F)) → Permᴰ (sort_by_enqueued_at sorted ts) (sorted ++ ts)
  unfolding sort_by_enqueued_at
  sort_by_enqueued_at-perm sorted [] =
      Permᴰ.trans (Permᴰ.reverse sorted)
        (subst (Permᴰ sorted) (sym (append-nil sorted)) (Permᴰ.refl sorted))
  sort_by_enqueued_at-perm sorted (t ∷ ts) =
      Permᴰ.trans (sort_by_enqueued_at-perm (sink t sorted) ts) (
        Permᴰ.trans (Permᴰ.append_right ts (sink-perm t sorted))
          (Permᴰ.symm (Permᴰ.middle t sorted ts)))

  sort_by_enqueued_at-IsOldestFirst :
      (sorted ts : List (Ticket F))
      → IsNewestFirst sorted
      → IsOldestFirst (sort_by_enqueued_at sorted ts)
  unfolding sort_by_enqueued_at
  sort_by_enqueued_at-IsOldestFirst sorted [] h = IsOldestFirst-reverse sorted h
  sort_by_enqueued_at-IsOldestFirst sorted (t ∷ ts) h =
      sort_by_enqueued_at-IsOldestFirst (sink t sorted) ts (sink-IsNewestFirst t sorted h)

  pub count_pending-keep :
      (mode : String) (ts : List (ℕ × TicketEntry F))
      → count_pending mode ts ≡ length (keep (λ (x : ℕ × TicketEntry F). is_pending mode x.1) ts)
  unfolding count_pending is_pending
  count_pending-keep mode [] = refl
  count_pending-keep mode ((id, e) ∷ ts) = ground (arith, count_pending-keep mode ts)

  pub depth-keep :
      (q : InMem F) (mode : String)
      → depth q mode ≡ length (keep (λ (x : ℕ × TicketEntry F). is_pending mode x.1) q.tickets)
  unfolding depth count_pending_locked
  depth-keep q mode = count_pending-keep mode q.tickets

  pub pending-perm :
      (order : List (ℕ × TicketEntry F) → List (ℕ × TicketEntry F)) (q : InMem F) (mode : String)
      → ((l : List (ℕ × TicketEntry F)) → Permᴰ (order l) l)
      → Permᴰ (pending order q mode) (
          map
            (λ (x : ℕ × TicketEntry F). x.1.ticket)
            (keep (λ (x : ℕ × TicketEntry F). is_pending mode x.1) q.tickets))
  unfolding pending
  pending-perm order q mode shuffles = Permᴰ.trans (sort_by_enqueued_at-perm [] _) (
      tickets_of-perm
        (keep-perm (λ (x : ℕ × TicketEntry F). is_pending mode x.1) (shuffles q.tickets)))

  -- A ticket that is neither finished nor claimed, of the given mode.
  abbrev pub IsWaiting : String → TicketEntry F → Type 0
  IsWaiting mode e = (e.finished ≡ false) × (e.claimed ≡ false) × (e.ticket.game_mode ≡ mode)

  -- The second list holds the tickets of exactly the entries of the first that wait.
  pub data Waiting (mode : String) : List (ℕ × TicketEntry F) → List (Ticket F) → Type 0 where
    no_entry : Waiting mode [] []
    taken :
        {id : ℕ} {e : TicketEntry F} {entries : List (ℕ × TicketEntry F)} {ts : List (Ticket F)}
        → IsWaiting mode e
        → Waiting mode entries ts
        → Waiting mode ((id, e) ∷ entries) (e.ticket ∷ ts)
    passed :
        {id : ℕ} {e : TicketEntry F} {entries : List (ℕ × TicketEntry F)} {ts : List (Ticket F)}
        → ¬ IsWaiting mode e
        → Waiting mode entries ts
        → Waiting mode ((id, e) ∷ entries) ts

  is_pending-IsWaiting :
      (mode : String) (e : TicketEntry F) → is_pending mode e ≡ true → IsWaiting mode e
  unfolding is_pending
  is_pending-IsWaiting mode e h =
      (ground (arith, h), ground (arith, h), (eq_iff e.ticket.game_mode mode).0 (ground (arith, h)))

  IsWaiting-is_pending :
      (mode : String) (e : TicketEntry F) → IsWaiting mode e → is_pending mode e ≡ true
  unfolding is_pending
  IsWaiting-is_pending mode e h =
      let asked = (eq_iff e.ticket.game_mode mode).1 h.2 in ground (arith, h.0, h.1, asked)

  keep-Waiting :
      (mode : String) (ts : List (ℕ × TicketEntry F))
      → Waiting mode ts (
          map
            (λ (x : ℕ × TicketEntry F). x.1.ticket)
            (keep (λ (x : ℕ × TicketEntry F). is_pending mode x.1) ts))
  keep-Waiting mode [] = no_entry
  keep-Waiting mode ((id, e) ∷ ts) = elim (Bool-cases (is_pending mode e)) [
    | inl y ↦ rw y (taken (is_pending-IsWaiting mode e y) (keep-Waiting mode ts))
    | inr n ↦ rw n (passed (λ h. cc (n, IsWaiting-is_pending mode e h)) (keep-Waiting mode ts))
  ]

  -- Pending returns exactly the tickets of the mode that are neither finished nor claimed, oldest
  -- first, in whatever order the runtime iterates over the map, and Depth is their number.
  pub pending-Waiting :
      (order : List (ℕ × TicketEntry F) → List (ℕ × TicketEntry F)) (q : InMem F) (mode : String)
      → ((l : List (ℕ × TicketEntry F)) → Permᴰ (order l) l)
      → (ts : List (Ticket F)) × Waiting mode q.tickets ts
        × Permᴰ (pending order q mode) ts
        × IsOldestFirst (pending order q mode)
        × (depth q mode ≡ length (pending order q mode))
  unfolding pending
  pending-Waiting order q mode shuffles =
      let all = pending-perm order q mode shuffles in
      (
        _,
        keep-Waiting mode q.tickets,
        all,
        sort_by_enqueued_at-IsOldestFirst [] _ tt,
        depth-keep q mode
            ∙ sym (
                length-perm all
                ∙ length-map _ (keep (λ (x : ℕ × TicketEntry F). is_pending mode x.1) q.tickets)),
      )
