-- ===== src/Social/Rules.antt =====
-- What each call of the three repositories does to tables that are known.
use vfx.Base.{
  ℕ, ◌≡◌, refl, sym, subst, ap, ◌∙◌, Bool, true, false, not, ◌||◌, List, [], ◌∷◌, Option, some,
  if◌then◌else◌, ltb, Bool-cases, inl, inr,
}
use vfx.Db.{return, fail, statement, next_fails, ◌>>=◌}
use vfx.Db.Triple.{Triple, at_rule, bind_rule, return_rule, fail_rule, if_rule, fact_rule}
use vfx.Social.Graph.{
  Edge, Graph, SocialError, Work, edge, has, remove, order_pair, request_not_found, not_friends,
}
use vfx.Social.Pairs.{IsUuid, sorted, order_pair_lem}
use vfx.Social.Tables.{remove-absent, friends}
use vfx.Social.FriendRequests
use vfx.Social.Friendships
use vfx.Social.Blocks
use vfx.Social.Usecase.{tolerate, is_not_friends, is_request_not_found}

-- Work on the tables `s` that ends with the tables `t`, when it succeeds.
abbrev pub Takes : Graph → Work (Unit {0}) → Graph → Type 0
Takes s m t = Triple (λ u. u ≡ s) m (λ r u. u ≡ t)

-- Work on the tables `s` that leaves them and answers `x`.
abbrev pub Answers : Graph → Work Bool → Bool → Type 0
Answers s m x = Triple (λ u. u ≡ s) m (λ y u. (u ≡ s) × (y ≡ x))

-- A question, and what follows with its answer.
pub ask_rule :
    {A : Type 0}
    → {Q : A → Graph → Type 0} → (s : Graph) → (x : Bool) → (m : Work Bool) → (f : Bool → Work A)
    → Answers s m x
    → Triple (λ u. u ≡ s) (f x) Q
    → Triple (λ u. u ≡ s) (m >>= f) Q
ask_rule {Q} s x m f hm hf = bind_rule m f hm λ y. fact_rule (f y) λ t p.
    subst (λ z. Triple (λ u. u ≡ t) (f z) Q) (sym p.1)
      (subst (λ z. Triple (λ u. u ≡ z) (f x) Q) (sym p.0) hf)

-- A question that is asked only when a guard lets it.
pub guard_rule :
    {A : Type 0}
    → {Q : A → Graph → Type 0} → (s : Graph) → (b x : Bool) → (e : SocialError) → (m : Work Bool)
    → (f : Bool → Work A) → Answers s m x
    → (b ≡ false → Triple (λ u. u ≡ s) (f x) Q)
    → Triple (λ u. u ≡ s) ((if b then fail e else m) >>= f) Q
guard_rule s true x e m f hm hf = record { ends = λ c p. tt }
guard_rule s false x e m f hm hf = ask_rule s x m f hm (hf refl)

pub request-exists :
    (s : Graph) (a b : ℕ) → Answers s (FriendRequests.exists a b) (has a b s.requests)
unfolding FriendRequests.exists
request-exists s a b = at_rule s _ (refl, refl)

pub request-save :
    (s : Graph) (now a b : ℕ)
    → Takes s (FriendRequests.save now a b) (record s { requests = edge a b now ∷ s.requests })
unfolding FriendRequests.save
request-save s now a b = at_rule s _ (elim (Bool-cases (has a b s.requests)) [
  | inl e ↦ rw (e, FriendRequests.insert_request) tt
  | inr e ↦ rw (e, FriendRequests.insert_request) refl
])

-- The end of both Delete methods: an error when no row was affected.
affected_rule :
    (e : SocialError) (t : Graph) (x : Bool)
    → (y : Bool)
    → Triple
        (λ u. (u ≡ t) × (y ≡ x))
        (if y then return tt else fail e)
        (λ r u. (u ≡ t) × (x ≡ true))
affected_rule e t x y =
    if_rule y _ _ (λ h. return_rule tt λ u p. (p.0, sym p.1 ∙ h)) (λ h. fail_rule e)

pub request-delete :
    (s : Graph) (a b : ℕ)
    → Triple
        (λ u. u ≡ s)
        (FriendRequests.delete a b)
        (λ r u. (u ≡ record s { requests = remove a b s.requests }) × (has a b s.requests ≡ true))
unfolding FriendRequests.delete
request-delete s a b =
    bind_rule (statement (FriendRequests.delete_request a b)) _
      (at_rule {Q = λ x u. (u ≡ _) × (x ≡ _)} s _ (refl, refl))
      (affected_rule request_not_found _ _)

pub friendship-exists :
    (s : Graph) (a b : ℕ)
    → IsUuid a
    → IsUuid b
    → Answers s (Friendships.exists a b) (friends a b s.friendships)
unfolding Friendships.exists
friendship-exists s a b ha hb = at_rule s _ (refl, rw (order_pair_lem a b ha hb) refl)

pub friendship-save :
    (s : Graph) (now a b : ℕ)
    → IsUuid a
    → IsUuid b
    → Takes s
        (Friendships.save now a b)
        (record s { friendships = edge (sorted a b).0 (sorted a b).1 now ∷ s.friendships })
unfolding Friendships.save
friendship-save s now a b ha hb = at_rule s _ (
    rw (order_pair_lem a b ha hb)
      (elim (Bool-cases (
        has (sorted a b).0 (sorted a b).1 s.friendships
        || not (ltb (sorted a b).0 (sorted a b).1))) [
          | inl e ↦ rw (e, Friendships.insert_friendship) tt
          | inr e ↦ rw (e, Friendships.insert_friendship) refl
        ]))

pub friendship-delete :
    (s : Graph) (a b : ℕ)
    → IsUuid a
    → IsUuid b
    → Triple
        (λ u. u ≡ s)
        (Friendships.delete a b)
        (λ r u.
          (u ≡ record s { friendships = remove (sorted a b).0 (sorted a b).1 s.friendships })
          × (friends a b s.friendships ≡ true))
unfolding Friendships.delete
friendship-delete s a b ha hb =
    bind_rule (statement (Friendships.delete_friendship (order_pair a b))) _
      (at_rule {Q = λ x u. (u ≡ _) × (x ≡ friends a b s.friendships)} s _
        (rw (order_pair_lem a b ha hb) (refl, refl)))
      (affected_rule not_friends _ _)

pub blocked-is :
    (s : Graph) (a b : ℕ) → Answers s (Blocks.is_blocked a b) (has a b s.blocks || has b a s.blocks)
unfolding Blocks.is_blocked
blocked-is s a b = at_rule s _ (refl, refl)

pub block-delete :
    (s : Graph) (a b : ℕ) → Takes s (Blocks.delete a b) (record s { blocks = remove a b s.blocks })
unfolding Blocks.delete
block-delete s a b = at_rule s _ refl

abbrev pub with_block : ℕ → ℕ → ℕ → List Edge → List Edge
with_block now a b es = if has a b es then es else edge a b now ∷ es

pub block-save :
    (s : Graph) (now a b : ℕ)
    → Takes s (Blocks.save now a b) (record s { blocks = with_block now a b s.blocks })
unfolding Blocks.save
block-save s now a b = at_rule s _ (elim (Bool-cases (has a b s.blocks)) [
  | inl e ↦ rw (e, Blocks.insert_block, with_block) refl
  | inr e ↦ rw (e, Blocks.insert_block, with_block) refl
])

-- A deletion whose error for a missing row is tolerated: what it says is deleted, or was not there.
tolerate_rule :
    {Q : Unit {0} → Graph → Type 0}
    → (expected : SocialError → Bool) → (e : SocialError) → expected e ≡ true
    → (s t : Graph) → (x : Bool) → (f : Graph → Option (Bool × Graph)) → f s ≡ some (x, t)
    → (x ≡ false → s ≡ t)
    → (rest : Work (Unit {0})) → Triple (λ u. u ≡ t) rest Q
    → Triple
        (λ u. u ≡ s)
        (tolerate expected (statement f >>= λ y. if y then return tt else fail e) rest)
        Q
unfolding statement
tolerate_rule {Q} expected e known s t x f at same rest h = record {
  ends = λ c p. elim (Bool-cases (next_fails c.faults)) [
    | inl bad ↦ rw (bad, tolerate, statement) tt
    | inr good ↦
        let here : f c.tables ≡ some (x, t) = rw p at in
        elim (Bool-cases x) [
          | inl y ↦ rw (good, here, y, tolerate, statement) (h.ends _ refl)
          | inr y ↦ rw (good, here, y, known, tolerate, statement) (h.ends _ (p ∙ same y))
        ]
  ];
}

pub request-delete_tolerated :
    {Q : Unit {0} → Graph → Type 0}
    → (s : Graph) → (a b : ℕ) → (rest : Work (Unit {0}))
    → Triple (λ u. u ≡ record s { requests = remove a b s.requests }) rest Q
    → Triple (λ u. u ≡ s) (tolerate is_request_not_found (FriendRequests.delete a b) rest) Q
unfolding FriendRequests.delete
request-delete_tolerated s a b rest h =
    tolerate_rule is_request_not_found request_not_found refl s _ (has a b s.requests)
      (FriendRequests.delete_request a b) refl
      (λ n. ap (λ es. record s { requests = es }) (sym (remove-absent a b s.requests n))) rest h

pub friendship-delete_tolerated :
    {Q : Unit {0} → Graph → Type 0}
    → (s : Graph) → (a b : ℕ) → IsUuid a
    → IsUuid b
    → (rest : Work (Unit {0}))
    → Triple
        (λ u. u ≡ record s { friendships = remove (sorted a b).0 (sorted a b).1 s.friendships })
        rest
        Q
    → Triple (λ u. u ≡ s) (tolerate is_not_friends (Friendships.delete a b) rest) Q
unfolding Friendships.delete
friendship-delete_tolerated s a b ha hb rest h =
    tolerate_rule is_not_friends not_friends refl s _ (friends a b s.friendships)
      (Friendships.delete_friendship (order_pair a b)) (rw (order_pair_lem a b ha hb) refl)
      (λ n.
        ap (λ es. record s { friendships = es })
          (sym (remove-absent (sorted a b).0 (sorted a b).1 s.friendships n)))
      rest h

-- The same deletion where no statement fails.
pub tolerate-run :
    (expected : SocialError → Bool) (e : SocialError)
    → expected e ≡ true
    → (s t : Graph) → (x : Bool) → (f : Graph → Option (Bool × Graph)) → f s ≡ some (x, t)
    → (x ≡ false → s ≡ t)
    → (rest : Work (Unit {0}))
    → tolerate expected
        (statement f >>= λ y. if y then return tt else fail e)
        rest
        (record { tables = s; faults = [] })
      ≡ rest (record { tables = t; faults = [] })
unfolding statement
tolerate-run expected e known s t x f at same rest = elim (Bool-cases x) [
  | inl y ↦ rw (at, y, tolerate, statement) refl
  | inr y ↦
      rw (at, y, known, tolerate, statement)
        (ap (λ u. rest (record { tables = u; faults = [] })) (same y))
]
