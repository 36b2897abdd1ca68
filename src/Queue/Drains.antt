-- ===== src/Queue/Drains.antt =====
-- internal/infra/matchqueue/inmem.go: how many of its tickets wait, as calls come.
use vfx.Base.{
  ℕ, none, suc, str_eq, eq_iff, ==_iff, ◌+◌, ◌≤◌, ◌<◌, Bool, true, false, some, List, [], ◌∷◌, ◌≡◌,
  refl, sym, ap, subst, ◌∙◌, ◌==◌, if◌then◌else◌, String, length, keep, arith, Bool-cases, inl, inr,
  eq_of_some,
}
use vfx.Match.Ticket.{Ticket}
use vfx.Queue.{
  InMem, TicketEntry, count_pending_locked, depth, queued, done, find, store, is_pending, enqueue,
  claim, claimable, mark_claimed, Call, run, new_in_mem,
}
use vfx.Queue.Assoc.{find-store}
use vfx.Queue.Changes.{
  Updates, unchanged, replaced, next, Change, updated, added, Leaves, run-Leaves,
  mark_claimed-Updates,
}
use vfx.Queue.Order.{depth-keep}
use vfx.Queue.Keys.{IsKeyed, store-IsKeyed, find-IsKeyed}

abbrev one_if : Bool → ℕ
one_if b = if b then 1 else 0

module _ {F : Type 0} where
  -- How many tickets of a map wait in a mode.
  abbrev pub waits : String → List (ℕ × TicketEntry F) → ℕ
  waits mode ts = length (keep (λ (x : ℕ × TicketEntry F). is_pending mode x.1) ts)

  waits-store :
      (mode : String) (id : ℕ) (e f : TicketEntry F) (ts : List (ℕ × TicketEntry F))
      → find id ts ≡ some e
      → waits mode (store id f ts) + one_if (is_pending mode e)
        ≡ waits mode ts + one_if (is_pending mode f)
  unfolding find store
  waits-store mode id e f [] found = cc
  waits-store mode id e f ((k, x) ∷ ts) found = elim (Bool-cases (k == id)) [
    | inl same ↦ let eq : x ≡ e = eq_of_some (rw same at found) in rw same (rw eq (ground arith))
    | inr other ↦ rw other (ground (arith, waits-store mode id e f ts (rw other at found)))
  ]

  waits-insert :
      (mode : String) (id : ℕ) (f : TicketEntry F) (ts : List (ℕ × TicketEntry F))
      → find id ts ≡ none
      → waits mode (store id f ts) ≡ waits mode ts + one_if (is_pending mode f)
  unfolding find store
  waits-insert mode id f [] fresh = ground arith
  waits-insert mode id f ((k, x) ∷ ts) fresh = elim (Bool-cases (k == id)) [
    | inl same ↦ cc (rw same at fresh)
    | inr other ↦ rw other (ground (arith, waits-insert mode id f ts (rw other at fresh)))
  ]

  -- A new ticket waits in its mode.
  pub enqueue-fresh :
      (q : InMem F) (t : Ticket F)
      → find t.id q.tickets ≡ none
      → (depth (enqueue q t) t.game_mode ≡ suc (depth q t.game_mode))
        × (e : TicketEntry F) × (find t.id (enqueue q t).tickets ≡ some e)
        × (e.ticket ≡ t)
        × (is_pending t.game_mode e ≡ true)
  unfolding enqueue is_pending
  enqueue-fresh q t fresh =
      let e : TicketEntry F = record {
        ticket = t;
        latest = queued t.enqueued_at (count_pending_locked q t.game_mode + 1);
        finished = false;
        claimed = false;
      } in
      let same : str_eq t.game_mode t.game_mode ≡ true = (eq_iff t.game_mode t.game_mode).1 refl in
      let more = waits-insert t.game_mode t.id e q.tickets fresh in
      rw (fresh, enqueue)
        (
          depth-keep _ t.game_mode
              ∙ ground (arith, more, same)
              ∙ sym (ap (λ n. suc n) (depth-keep q t.game_mode)),
          e,
          find-store t.id t.id e q.tickets ∙ rw ((==_iff t.id t.id).1 refl) refl,
          refl,
          same,
        )

  -- The tickets after some calls, of which none enqueues.
  abbrev pub Drains : String → List (ℕ × TicketEntry F) → List (ℕ × TicketEntry F) → Type 0
  Drains mode ts us = IsKeyed ts → IsKeyed us × (waits mode us ≤ waits mode ts)

  pub Drains-refl : (mode : String) (ts : List (ℕ × TicketEntry F)) → Drains mode ts ts
  Drains-refl mode ts k = (k, omega arith)

  pub Drains-trans :
      (mode : String) (ts us vs : List (ℕ × TicketEntry F))
      → Drains mode ts us
      → Drains mode us vs
      → Drains mode ts vs
  Drains-trans mode ts us vs d e k = let a = d k in let b = e a.0 in (b.0, omega (arith, a.1, b.1))

  pub store-Drains :
      (mode : String) (id : ℕ) (e f : TicketEntry F) (ts : List (ℕ × TicketEntry F))
      → find id ts ≡ some e
      → f.ticket ≡ e.ticket
      → (is_pending mode f ≡ true → is_pending mode e ≡ true)
      → Drains mode ts (store id f ts)
  store-Drains mode id e f ts found same less k = (
    store-IsKeyed id f ts (ap (λ (t : Ticket F). t.id) same ∙ find-IsKeyed id e ts found k) k,
    ground (arith, waits-store mode id e f ts found, less),
  )

  pub Updates-Drains :
      (mode : String) {ts us : List (ℕ × TicketEntry F)} → Updates ts us → Drains mode ts us
  unfolding is_pending
  Updates-Drains mode unchanged = Drains-refl mode _
  Updates-Drains mode (replaced {ts = ts} id e f found ticket finished claimed) =
      store-Drains mode id e f ts found ticket (waited_before e f ticket finished claimed)
    where
      waited_before :
          (e f : TicketEntry F)
          → f.ticket ≡ e.ticket
          → (e.finished ≡ true → f.finished ≡ true)
          → (e.claimed ≡ true → f.claimed ≡ true)
          → is_pending mode f ≡ true
          → is_pending mode e ≡ true
      waited_before e f ticket finished claimed waits =
          let mode_of = ap (λ (t : Ticket F). t.game_mode) ticket in
          let asked : str_eq f.ticket.game_mode mode ≡ true = ground (arith, waits) in
          let asked' : str_eq e.ticket.game_mode mode ≡ true = rw (← mode_of) asked in
          ground (arith, waits, asked', finished, claimed)
  Updates-Drains mode (next u v) =
      Drains-trans mode _ _ _ (Updates-Drains mode u) (Updates-Drains mode v)

  -- A claim of tickets of which the first waits makes fewer wait.
  pub claim-lt :
      (mode : String) (q : InMem F) (id : ℕ) (ids : List ℕ) (e : TicketEntry F)
      → claimable q (id ∷ ids) ≡ true
      → find id q.tickets ≡ some e
      → is_pending mode e ≡ true
      → IsKeyed q.tickets
      → IsKeyed (claim q (id ∷ ids)).0.tickets
        × (waits mode (claim q (id ∷ ids)).0.tickets < waits mode q.tickets)
  unfolding claim mark_claimed is_pending
  claim-lt mode q id ids e can found free k =
      let f : TicketEntry F = record e { claimed = true } in
      let d = store-Drains mode id e f q.tickets found refl (λ h. free) k in
      let r = Updates-Drains mode (mark_claimed-Updates ids (store id f q.tickets)) d.0 in
      let less = waits-store mode id e f q.tickets found in
      let taken : is_pending mode f ≡ false = ground arith in
      rw (can, found, mark_claimed) (r.0, ground (arith, less, taken, r.1, free))

  Change-IsKeyed : (ts us : List (ℕ × TicketEntry F)) → Change ts us → IsKeyed ts → IsKeyed us
  Change-IsKeyed ts us (updated u) k = (Updates-Drains "" u k).0
  Change-IsKeyed ts us (added id f fresh own) k = store-IsKeyed id f ts own k

  pub run-new-IsKeyed :
      (cs : List (Call F)) (q : InMem F) → run new_in_mem cs ≡ done q → IsKeyed q.tickets
  unfolding new_in_mem
  run-new-IsKeyed cs q ran =
      subst (Leaves IsKeyed) ran (run-Leaves IsKeyed Change-IsKeyed new_in_mem cs tt)
