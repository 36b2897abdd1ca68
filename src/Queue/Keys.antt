-- ===== src/Queue/Keys.antt =====
-- internal/infra/matchqueue/inmem.go: the keys of its map of tickets, and how many of its tickets wait.
use mathlib.Core.List.{Memᴰ, map}
use mathlib.Core.List.Memᴰ.{head, tail}
use vfx.Base.{
  ℕ, Bool, true, false, none, some, List, [], ◌∷◌, ◌≡◌, refl, sym, ap, subst, ◌∙◌, ◌==◌, ==_iff,
  if◌then◌else◌, String, keep, arith, All, All-of_mem, All-mem, All-keep, mem-keep, Bool-cases, inl,
  inr, eq_of_some,
}
use vfx.Match.Ticket.{Ticket}
use vfx.Queue.{TicketEntry, find, store, is_pending}
use vfx.Queue.Assoc.{find-store}

module _ {F : Type 0} where
  -- Each ticket stands under its own id, and under no other.
  abbrev pub IsKeyed : List (ℕ × TicketEntry F) → Type 0
  IsKeyed [] = Unit {0}
  IsKeyed ((k, e) ∷ ts) = (e.ticket.id ≡ k) × (find k ts ≡ none) × IsKeyed ts

  pub store-IsKeyed :
      (id : ℕ) (f : TicketEntry F) (ts : List (ℕ × TicketEntry F))
      → f.ticket.id ≡ id
      → IsKeyed ts
      → IsKeyed (store id f ts)
  unfolding store find
  store-IsKeyed id f [] own h = (own, refl, tt)
  store-IsKeyed id f ((k, e) ∷ ts) own h = elim (Bool-cases (k == id)) [
    | inl same ↦ rw same (own, subst (λ j. find j ts ≡ none) ((==_iff k id).0 same) h.1, h.2)
    | inr other ↦ rw other (h.0, find-store id k f ts ∙ absent other, store-IsKeyed id f ts own h.2)
  ]
    where
      absent : (k == id) ≡ false → (if id == k then some f else find k ts) ≡ none
      absent other = ground (arith, h.1)

  pub find-IsKeyed :
      (id : ℕ) (e : TicketEntry F) (ts : List (ℕ × TicketEntry F))
      → find id ts ≡ some e
      → IsKeyed ts
      → e.ticket.id ≡ id
  unfolding find
  find-IsKeyed id e [] found h = cc
  find-IsKeyed id e ((k, x) ∷ ts) found h = elim (Bool-cases (k == id)) [
    | inl same ↦
        let eq : x ≡ e = eq_of_some (rw same at found) in
        ap (λ (y : TicketEntry F). y.ticket.id) (sym eq) ∙ h.0 ∙ (==_iff k id).0 same
    | inr other ↦ find-IsKeyed id e ts (rw other at found) h.2
  ]

  pub find-mem :
      (x : ℕ × TicketEntry F) (ts : List (ℕ × TicketEntry F))
      → Memᴰ x ts
      → IsKeyed ts
      → find x.0 ts ≡ some x.1
  unfolding find
  find-mem x [] m h = elim m [ ]
  find-mem x ((k, e) ∷ ts) (head q) h =
      subst (λ (y : ℕ × TicketEntry F). find y.0 ((k, e) ∷ ts) ≡ some y.1) (sym q)
        (rw ((==_iff k k).1 refl) refl)
  find-mem x ((k, e) ∷ ts) (tail m) h = elim (Bool-cases (k == x.0)) [
    | inr other ↦ rw other (find-mem x ts m h.2)
    | inl same ↦ cc (find-mem x ts m h.2, subst (λ j. find j ts ≡ none) ((==_iff k x.0).0 same) h.1)
  ]

  -- What a queue reports as waiting in a mode does wait there.
  pub waiting-free :
      (mode : String) (ts : List (ℕ × TicketEntry F))
      → IsKeyed ts
      → All
          (λ (t : Ticket F).
            (e : TicketEntry F) × (find t.id ts ≡ some e) × (is_pending mode e ≡ true))
          (map
            (λ (x : ℕ × TicketEntry F). x.1.ticket)
            (keep (λ (x : ℕ × TicketEntry F). is_pending mode x.1) ts))
  waiting-free mode ts k = All-map _ (keep waits_here ts) (
      All-of_mem _ (keep waits_here ts) λ x m.
        let found = find-mem x ts (mem-keep waits_here ts m) k in
        (
          x.1,
          subst (λ id. find id ts ≡ some x.1) (sym (find-IsKeyed x.0 x.1 ts found k)) found,
          All-mem (λ y. waits_here y ≡ true) _ (All-keep waits_here ts) m,
        ))
    where
      waits_here : ℕ × TicketEntry F → Bool
      waits_here x = is_pending mode x.1

      All-map :
          (P : Ticket F → Type 0) (xs : List (ℕ × TicketEntry F))
          → All (λ (x : ℕ × TicketEntry F). P x.1.ticket) xs
          → All P (map (λ (x : ℕ × TicketEntry F). x.1.ticket) xs)
      All-map P [] h = tt
      All-map P (x ∷ xs) h = (h.0, All-map P xs h.1)
