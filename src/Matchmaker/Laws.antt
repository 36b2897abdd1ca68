-- ===== src/Matchmaker/Laws.antt =====
-- What the matchmaker relies on of its services, and how it tells the tickets of a group.
use vfx.Base.{
  ℕ, ◌≡◌, refl, Bool, true, false, List, [], ◌∷◌, String, All, All-mono, map, ◌==◌, length,
  Bool-cases, inl, inr,
}
use vfx.Match.Ticket.{Ticket}
use vfx.Queue.{Event, Assignment, is_terminal, failed}
use vfx.Matchmaker.{
  Services, Answer, RoomAllocation, value, failure, fail_all, assign, after_put, assignment_of,
  after_sign, after_allocate, after_claim, serve, serve_all, pair_in, pair,
}

-- `IsKnown` is that the queue has a ticket, `IsTold` that a terminal event reached it; both last.
pub record Telling {S : Type 0} (sv : Services S) (IsReady : S → Type 0)
    (IsKnown IsTold : ℕ → S → Type 0) (Later : S → S → Type 0) : Type 0 where
  pub later_refl : (s : S) → Later s s
  pub later_trans : (s t u : S) → Later s t → Later t u → Later s u
  pub known : {s t : S} → (id : ℕ) → Later s t → IsKnown id s → IsKnown id t
  pub told : {s t : S} → (id : ℕ) → Later s t → IsTold id s → IsTold id t
  pub claim_known :
      (mode : String) (ids : List ℕ) (s : S)
      → IsReady s
      → (sv.claim mode ids s).0 ≡ value true
      → All (λ id. IsKnown id (sv.claim mode ids s).1) ids
  pub publish_tells :
      (id : ℕ) (e : Event) (s : S)
      → is_terminal e ≡ true
      → IsKnown id s
      → IsTold id (sv.publish id e s).1
  pub publish_later : (id : ℕ) (e : Event) (s : S) → Later s (sv.publish id e s).1
  pub allocate_later : (mode : String) (n : ℕ) (s : S) → Later s (sv.allocate mode n s).1
  pub sign_later :
      (player m : ℕ) (players : List ℕ) (now ttl : ℕ) (s : S)
      → Later s (sv.sign_session player m players now ttl s).1
  pub put_later :
      (player : ℕ) (a : Assignment) (ttl : ℕ) (s : S) → Later s (sv.put player a ttl s).1
  pub now_later : (s : S) → Later s (sv.now s).1
  pub metrics_later : (s : S) → Later s (sv.match_allocated s)

module _ {S : Type 0} (sv : Services S) {IsReady : S → Type 0} {IsKnown IsTold : ℕ → S → Type 0}
    {Later : S → S → Type 0} (law : Telling sv IsReady IsKnown IsTold Later) where
  -- A known ticket is told, and nothing that was known or told is lost.
  abbrev Tells : ℕ → S → S → Type 0
  Tells id s t = Later s t × IsTold id t

  publish-Tells :
      (id : ℕ) (e : Event) (s t : S)
      → is_terminal e ≡ true
      → Later s t
      → IsKnown id s
      → Tells id s (sv.publish id e t).1
  publish-Tells id e s t terminal l k = (
    law.later_trans _ _ _ l (law.publish_later id e t),
    law.publish_tells id e t terminal (law.known id l k),
  )

module _ {S : Type 0} (sv : Services S) {IsReady : S → Type 0} {IsKnown IsTold : ℕ → S → Type 0}
    {Later : S → S → Type 0} (law : Telling sv IsReady IsKnown IsTold Later) (ttl : ℕ)
    {F : Type 0} where
  assign-Tells :
      (a : RoomAllocation) (now : ℕ) (t : Ticket F) (token : String) (s₀ s : S)
      → Later s₀ s
      → IsKnown t.id s₀
      → Tells sv law t.id s₀ (assign sv ttl a now t token s).1
  unfolding assign is_terminal
  assign-Tells a now t token s₀ s l k = over _ (law.later_trans _ _ _ l (law.put_later _ _ _ _))
    where
      over :
          (r : Answer (Unit {0}) × S)
          → Later s₀ r.1
          → Tells sv law t.id s₀ (after_put sv ttl (assignment_of ttl a now token) t r).1
      over (failure e, s₁) m = publish-Tells sv law t.id _ s₀ s₁ refl m k
      over (value u, s₁) m = publish-Tells sv law t.id _ s₀ s₁ refl m k

  serve-Tells :
      (a : RoomAllocation) (players : List ℕ) (now : ℕ) (t : Ticket F) (s : S)
      → IsKnown t.id s
      → Tells sv law t.id s (serve sv ttl a players now t s).1
  unfolding serve is_terminal
  serve-Tells a players now t s k = over _ (law.sign_later _ _ _ _ _ _)
    where
      over :
          (r : Answer String × S)
          → Later s r.1
          → Tells sv law t.id s (after_sign sv ttl a now t r).1
      over (failure e, s₁) m = publish-Tells sv law t.id _ s s₁ refl m k
      over (value token, s₁) m = assign-Tells a now t token s s₁ m k

  -- All tickets of a group are told, and nothing that was known or told is lost.
  abbrev pub TellsAll : List (Ticket F) → S → S → Type 0
  TellsAll ts s t = Later s t × All (λ (x : Ticket F). IsTold x.id t) ts

  abbrev pub Known : List (Ticket F) → S → Type 0
  Known ts s = All (λ (x : Ticket F). IsKnown x.id s) ts

  Known-Later : (ts : List (Ticket F)) (s t : S) → Later s t → Known ts s → Known ts t
  Known-Later ts s t l = All-mono ts (λ x. law.known x.id l)

  TellsAll-cons :
      (x : Ticket F) (ts : List (Ticket F)) (s t u : S)
      → Tells sv law x.id s t
      → TellsAll ts t u
      → TellsAll (x ∷ ts) s u
  TellsAll-cons x ts s t u h r = (law.later_trans _ _ _ h.0 r.0, (law.told x.id r.0 h.1, r.1))

  TellsAll-Later :
      (ts : List (Ticket F)) (s t u v : S)
      → Later s t
      → TellsAll ts t u
      → Later u v
      → TellsAll ts s v
  TellsAll-Later ts s t u v l h m = (
    law.later_trans _ _ _ l (law.later_trans _ _ _ h.0 m),
    All-mono ts (λ x. law.told x.id m) h.1,
  )

  fail_all-TellsAll :
      (message : String) (ts : List (Ticket F)) (s : S)
      → Known ts s
      → TellsAll ts s (fail_all sv ttl message ts s)
  unfolding fail_all is_terminal
  fail_all-TellsAll message [] s k = (law.later_refl s, tt)
  fail_all-TellsAll message (t ∷ ts) s k =
      let h =
        publish-Tells sv law t.id (failed "allocator_failed" message) s s refl (law.later_refl s)
          k.0 in
      TellsAll-cons t ts s _ _ h (fail_all-TellsAll message ts _ (Known-Later ts s _ h.0 k.1))

  serve_all-TellsAll :
      (a : RoomAllocation) (players : List ℕ) (now : ℕ) (ts : List (Ticket F)) (paired : ℕ) (s : S)
      → Known ts s
      → TellsAll ts s (serve_all sv ttl a players now ts paired s).1
  unfolding serve_all
  serve_all-TellsAll a players now [] paired s k = (law.later_refl s, tt)
  serve_all-TellsAll a players now (t ∷ ts) paired s k =
      let h = serve-Tells a players now t s k.0 in
      TellsAll-cons t ts s _ _ h
        (serve_all-TellsAll a players now ts _ _ (Known-Later ts s _ h.0 k.1))

  pair_in-TellsAll :
      (a : RoomAllocation) (ts : List (Ticket F)) (s : S)
      → Known ts s
      → TellsAll ts s (pair_in sv ttl a ts s)
  unfolding pair_in
  pair_in-TellsAll a ts s k =
      let players = map (λ (t : Ticket F). t.player_id) ts in
      let clock = law.now_later s in
      let h =
        serve_all-TellsAll a players (sv.now s).0 ts 0 (sv.now s).1 (Known-Later ts s _ clock k) in
      let r = serve_all sv ttl a players (sv.now s).0 ts 0 (sv.now s).1 in
      elim (Bool-cases (r.0 == length ts)) [
        | inl e ↦ rw (e, pair_in) (TellsAll-Later ts s _ _ _ clock h (law.metrics_later r.1))
        | inr e ↦ rw (e, pair_in) (TellsAll-Later ts s _ _ _ clock h (law.later_refl r.1))
      ]

  pub after_allocate-TellsAll :
      (ts : List (Ticket F)) (s : S) (r : Answer RoomAllocation × S)
      → Later s r.1
      → Known ts s
      → TellsAll ts s (after_allocate sv ttl ts r).1
  after_allocate-TellsAll ts s (failure e, s₁) l k =
      TellsAll-Later ts s s₁ _ _ l (fail_all-TellsAll e ts s₁ (Known-Later ts s s₁ l k))
        (law.later_refl _)
  after_allocate-TellsAll ts s (value a, s₁) l k =
      TellsAll-Later ts s s₁ _ _ l (pair_in-TellsAll a ts s₁ (Known-Later ts s s₁ l k))
        (law.later_refl _)

  Known-map :
      (ts : List (Ticket F)) (s : S)
      → All (λ id. IsKnown id s) (map (λ (t : Ticket F). t.id) ts)
      → Known ts s
  Known-map [] s h = tt
  Known-map (t ∷ ts) s h = (h.0, Known-map ts s h.1)

  after_claim-TellsAll :
      (mode : String) (ts : List (Ticket F)) (r : Answer Bool × S)
      → r.0 ≡ value true
      → Known ts r.1
      → All (λ (x : Ticket F). IsTold x.id (after_claim sv ttl mode ts r).1) ts
  after_claim-TellsAll mode ts (failure e, s) h k = cc h
  after_claim-TellsAll mode ts (value false, s) h k = cc h
  after_claim-TellsAll mode ts (value true, s) h k =
      (after_allocate-TellsAll ts s _ (law.allocate_later mode _ s) k).1

  -- Once a group is claimed, each of its tickets is sent a terminal event, whichever of the allocator,
  -- the signer and the store of assignments fail, and for whichever players.
  pub pair_tells_all :
      (mode : String) (ts : List (Ticket F)) (s : S)
      → IsReady s
      → (sv.claim mode (map (λ (t : Ticket F). t.id) ts) s).0 ≡ value true
      → All (λ (x : Ticket F). IsTold x.id (pair sv ttl mode ts s).1) ts
  unfolding pair
  pair_tells_all mode ts s ready h =
      after_claim-TellsAll mode ts _ h (Known-map ts _ (law.claim_known mode _ s ready h))
