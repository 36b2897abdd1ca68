-- ===== src/Queue/Claims.antt =====
-- Claim of internal/infra/matchqueue/inmem.go, alone and in a sequence of calls.
use mathlib.Core.List.{Memᴰ}
use mathlib.Core.List.Memᴰ.{head, tail}
use vfx.Base.{
  ℕ, true, false, ◌||◌, some, List, [], ◌∷◌, ◌≡◌, ◌↔◌, refl, sym, ap, subst, ◌∙◌, ◌==◌, ==_iff,
  if◌then◌else◌, arith, All, All-mem, All-mono, Bool-cases, Option-cases, eq_of_some, inl, inr,
}
use vfx.Queue.{InMem, TicketEntry, done, find, store, claim, claimable, mark_claimed, Call, run}
use vfx.Queue.Assoc.{find-store}
use vfx.Queue.Changes.{
  Updates, unchanged, replaced, next, Change, updated, added, Leaves, run-Leaves,
  mark_claimed-Updates,
}

module _ {F : Type 0} where
  -- The ticket waits for a match.
  abbrev pub IsFree : InMem F → ℕ → Type 0
  IsFree q id =
      (e : TicketEntry F) × (find id q.tickets ≡ some e)
      × (e.finished ≡ false)
      × (e.claimed ≡ false)

  -- The ticket has been claimed.
  abbrev pub IsTaken : List (ℕ × TicketEntry F) → ℕ → Type 0
  IsTaken ts id = (e : TicketEntry F) × (find id ts ≡ some e) × (e.claimed ≡ true)

  claimable-All : (q : InMem F) (ids : List ℕ) → claimable q ids ≡ true → All (IsFree q) ids
  unfolding claimable
  claimable-All q [] h = tt
  claimable-All q (id ∷ ids) h = elim (Option-cases (find id q.tickets)) [
    | inl missing ↦ cc (rw (missing, claimable) at h)
    | inr (e, found) ↦ (
      (
        e,
        found,
        first e found (rw (found, claimable) at h),
        second e found (rw (found, claimable) at h),
      ),
      claimable-All q ids (rest e found (rw (found, claimable) at h)),
    )
  ]
    where
      first :
          (e : TicketEntry F)
          → find id q.tickets ≡ some e
          → (if e.finished || e.claimed then false else claimable q ids) ≡ true
          → e.finished ≡ false
      first e found h = ground arith

      second :
          (e : TicketEntry F)
          → find id q.tickets ≡ some e
          → (if e.finished || e.claimed then false else claimable q ids) ≡ true
          → e.claimed ≡ false
      second e found h = ground arith

      rest :
          (e : TicketEntry F)
          → find id q.tickets ≡ some e
          → (if e.finished || e.claimed then false else claimable q ids) ≡ true
          → claimable q ids ≡ true
      rest e found h = ground arith

  pub All-claimable : (q : InMem F) (ids : List ℕ) → All (IsFree q) ids → claimable q ids ≡ true
  unfolding claimable
  All-claimable q [] h = refl
  All-claimable q (id ∷ ids) ((e, found, unfinished, unclaimed), h) =
      rw (found, claimable) (rw (unfinished, unclaimed) (All-claimable q ids h))

  claimable-taken :
      (q : InMem F) (ids : List ℕ) (id : ℕ)
      → IsTaken q.tickets id
      → Memᴰ id ids
      → claimable q ids ≡ false
  claimable-taken q ids id (e, found, taken) m = elim (Bool-cases (claimable q ids)) [
    | inr no_claim ↦ no_claim
    | inl claim ↦
        let (x, at, f, free) = All-mem (IsFree q) ids (claimable-All q ids claim) m in
        cc (ap (λ (y : TicketEntry F). y.claimed) (eq_of_some (sym found ∙ at)))
  ]

  store-IsTaken :
      (k : ℕ) (new : TicketEntry F) (ts : List (ℕ × TicketEntry F)) (j : ℕ)
      → ((k == j) ≡ true → new.claimed ≡ true)
      → IsTaken ts j
      → IsTaken (store k new ts) j
  store-IsTaken k new ts j h (e, found, taken) = elim (Bool-cases (k == j)) [
    | inl same ↦ (new, find-store k j new ts ∙ rw same, h same)
    | inr other ↦ (e, find-store k j new ts ∙ rw other found, taken)
  ]

  -- An entry stored under a key that keeps its mark.
  reinsert-IsTaken :
      (k : ℕ) (old new : TicketEntry F) (ts : List (ℕ × TicketEntry F)) (j : ℕ)
      → find k ts ≡ some old
      → (old.claimed ≡ true → new.claimed ≡ true)
      → IsTaken ts j
      → IsTaken (store k new ts) j
  reinsert-IsTaken k old new ts j at keeps t = store-IsTaken k new ts j held t
    where
      held : (k == j) ≡ true → new.claimed ≡ true
      held same =
          let one : find j ts ≡ some old =
            subst (λ i. find i ts ≡ some old) ((==_iff k j).0 same) at in
          keeps (ap (λ (x : TicketEntry F). x.claimed) (eq_of_some (sym one ∙ t.1)) ∙ t.2)

  Updates-IsTaken :
      (j : ℕ) {ts us : List (ℕ × TicketEntry F)} → Updates ts us → IsTaken ts j → IsTaken us j
  Updates-IsTaken j unchanged t = t
  Updates-IsTaken j (replaced {ts = ts} id e f found ticket finished claimed) t =
      reinsert-IsTaken id e f ts j found claimed t
  Updates-IsTaken j (next u v) t = Updates-IsTaken j v (Updates-IsTaken j u t)

  IsPresent : List (ℕ × TicketEntry F) → ℕ → Type 0
  IsPresent ts id = (e : TicketEntry F) × (find id ts ≡ some e)

  store-IsPresent :
      (k : ℕ) (new : TicketEntry F) (ts : List (ℕ × TicketEntry F)) (j : ℕ)
      → IsPresent ts j
      → IsPresent (store k new ts) j
  unfolding IsPresent
  store-IsPresent k new ts j (e, found) = elim (Bool-cases (k == j)) [
    | inl same ↦ (new, find-store k j new ts ∙ rw same)
    | inr other ↦ (e, find-store k j new ts ∙ rw other found)
  ]

  mark_claimed-All :
      (ids : List ℕ) (ts : List (ℕ × TicketEntry F))
      → All (IsPresent ts) ids
      → All (IsTaken (mark_claimed ids ts)) ids
  unfolding mark_claimed IsPresent
  mark_claimed-All [] ts h = tt
  mark_claimed-All (id ∷ ids) ts ((e, found), h) =
      let marked = store id (record e { claimed = true }) ts in
      let eq : mark_claimed (id ∷ ids) ts ≡ mark_claimed ids marked = rw (found, mark_claimed) in
      subst (λ (r : List (ℕ × TicketEntry F)). All (IsTaken r) (id ∷ ids)) (sym eq)
        (
          Updates-IsTaken id (mark_claimed-Updates ids marked) (
            record e { claimed = true },
            find-store id id _ ts ∙ rw ((==_iff id id).1 refl),
            refl,
          ),
          mark_claimed-All ids marked
              (All-mono ids (λ j p. store-IsPresent id (record e { claimed = true }) ts j p) h),
        )

  mark_claimed-others :
      (ids : List ℕ) (ts : List (ℕ × TicketEntry F)) (j : ℕ)
      → (Memᴰ j ids → ⊥)
      → find j (mark_claimed ids ts) ≡ find j ts
  unfolding mark_claimed
  mark_claimed-others [] ts j n = refl
  mark_claimed-others (id ∷ ids) ts j n = elim (Option-cases (find id ts)) [
    | inl missing ↦ rw (missing, mark_claimed) (mark_claimed-others ids ts j (λ m. n (tail m)))
    | inr (e, found) ↦
        rw (found, mark_claimed)
          (mark_claimed-others ids (store id (record e { claimed = true }) ts) j (λ m. n (tail m))
            ∙ find-store id j _ ts
            ∙ rw different)
  ]
    where
      different : (id == j) ≡ false
      different = elim (Bool-cases (id == j)) [
        | inr other ↦ other
        | inl same ↦ absurd (n (head (sym ((==_iff id j).0 same))))
      ]

  -- Claim succeeds exactly when each of its tickets is there, unfinished and unclaimed; then it marks
  -- all of them and changes no other ticket. Otherwise it changes nothing.
  pub claim_all_or_none :
      (q : InMem F) (ids : List ℕ)
      → (((claim q ids).1 ≡ true) ↔ All (IsFree q) ids)
        × ((claim q ids).1 ≡ true → All (IsTaken (claim q ids).0.tickets) ids)
        × ((j : ℕ) → (Memᴰ j ids → ⊥) → find j (claim q ids).0.tickets ≡ find j q.tickets)
        × ((claim q ids).1 ≡ false → (claim q ids).0 ≡ q)
  unfolding claim IsPresent
  claim_all_or_none q ids = elim (Bool-cases (claimable q ids)) [
    | inl e ↦ rw e (
      (λ t. claimable-All q ids e, λ h. refl),
      λ t.
          mark_claimed-All ids q.tickets
            (All-mono ids (λ id f. (f.0, f.1)) (claimable-All q ids e)),
      λ j n. mark_claimed-others ids q.tickets j n,
      λ t. cc,
    )
    | inr e ↦ rw e ((λ t. cc, λ h. cc (All-claimable q ids h, e)), λ t. cc, λ j n. refl, λ t. refl)
  ]

  Change-IsTaken :
      (j : ℕ) (ts us : List (ℕ × TicketEntry F)) → Change ts us → IsTaken ts j → IsTaken us j
  Change-IsTaken j ts us (updated u) t = Updates-IsTaken j u t
  Change-IsTaken j ts us (added id f fresh own) t =
      store-IsTaken id f ts j
        (λ same. cc (fresh, subst (λ k. find k ts ≡ some t.0) (sym ((==_iff id j).0 same)) t.1)) t

  claim_refused : (q : InMem F) (ids : List ℕ) → claimable q ids ≡ false → claim q ids ≡ (q, false)
  unfolding claim
  claim_refused q ids e = rw e

  -- A ticket that one claim took is never claimed again: whatever calls follow, a later claim that
  -- names it takes nothing.
  pub claim_once :
      (q q' : InMem F) (ids ids' : List ℕ) (cs : List (Call F)) (id : ℕ)
      → (claim q ids).1 ≡ true
      → run (claim q ids).0 cs ≡ done q'
      → Memᴰ id ids
      → Memᴰ id ids'
      → claim q' ids' ≡ (q', false)
  claim_once q q' ids ids' cs id won ran m m' =
      claim_refused q' ids' (claimable-taken q' ids' id taken m')
    where
      taken : IsTaken q'.tickets id
      taken = subst (Leaves (λ ts. IsTaken ts id)) ran (
          run-Leaves (λ ts. IsTaken ts id) (Change-IsTaken id) _ cs
            (All-mem (IsTaken _) ids ((claim_all_or_none q ids).1 won) m))
