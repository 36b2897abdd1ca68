-- ===== src/Social/Preserve.antt =====
-- The transactions of internal/usecase/social/social.go on a consistent friend graph.
use vfx.Base.{
  ℕ, ◌≡◌, ◌≢◌, sym, subst, ◌∙◌, true, false, ◌||◌, arith, if◌then◌else◌, Bool-cases, inl, inr,
}
use vfx.Db.{return, fail, ◌>>◌}
use vfx.Db.Triple.{
  Triple, bind_rule, return_rule, fail_rule, if_rule, fact_rule, consequence, given,
}
use vfx.Social.Graph.{Graph, Work, has, remove, blocked, already_friends, already_requested}
use vfx.Social.Pairs.{IsUuid}
use vfx.Social.Tables.{has-remove, friends, friends_comm}
use vfx.Social.Rules.{
  ask_rule, guard_rule, request-exists, request-save, request-delete, friendship-exists,
  friendship-save, friendship-delete, blocked-is, block-delete,
}
use vfx.Social.Invariant.{
  IsConsistent, IsApart, request-added, request-removed, friendship-added, friendship-removed,
  block-removed,
}
use vfx.Social.FriendRequests
use vfx.Social.Friendships
use vfx.Social.Blocks
use vfx.Social.Usecase.{accept_work, send_work}

abbrev pub Keeps : {A : Type 0} → Work A → Type 0
Keeps m = Triple IsConsistent m (λ r u. IsConsistent u)

pub request-delete-Keeps : (a b : ℕ) → Keeps (FriendRequests.delete a b)
request-delete-Keeps a b = fact_rule _ λ s k.
    consequence _ (request-delete s a b)
      λ r t p. subst IsConsistent (sym p.0) (request-removed s a b k)

pub friendship-delete-Keeps : (a b : ℕ) → IsUuid a → IsUuid b → Keeps (Friendships.delete a b)
friendship-delete-Keeps a b ha hb = fact_rule _ λ s k.
    consequence _ (friendship-delete s a b ha hb)
      λ r t p. subst IsConsistent (sym p.0) (friendship-removed s a b k)

pub block-delete-Keeps : (a b : ℕ) → Keeps (Blocks.delete a b)
block-delete-Keeps a b = fact_rule _ λ s k.
    consequence _ (block-delete s a b) λ r t p. subst IsConsistent (sym p) (block-removed s a b k)

-- Taking a pending request away leaves its two players with no relation.
pub request-taken :
    (s : Graph) (a b : ℕ)
    → IsConsistent s
    → has a b s.requests ≡ true
    → IsApart (record s { requests = remove a b s.requests }) a b
request-taken s a b k h = record {
  unrequested =
      ground (arith, has-remove a b a b s.requests, has-remove b a a b s.requests, k.one_way a b h);
  unfriended = elim (Bool-cases (friends a b s.friendships)) [
    | inl y ↦ ground (arith, k.settled a b y, h)
    | inr n ↦ n
  ];
  unblocked = (
    elim (Bool-cases (has a b s.blocks)) [ inl y ↦ ground (arith, k.severed a b y, h) | inr n ↦ n ],
    elim (Bool-cases (has b a s.blocks)) [ inl y ↦ ground (arith, k.severed b a y, h) | inr n ↦ n ],
  );
  distinct = λ e. ground (arith, h, e, k.one_way a b h);
}

pub IsApart-comm : (s : Graph) (a b : ℕ) → IsApart s a b → IsApart s b a
IsApart-comm s a b p = record {
  unrequested = (p.unrequested.1, p.unrequested.0);
  unfriended = friends_comm b a s.friendships ∙ p.unfriended;
  unblocked = (p.unblocked.1, p.unblocked.0);
  distinct = λ e. p.distinct (sym e);
}

-- A transaction's state between the deletion of a request and the friendship that replaces it.
abbrev IsFree : ℕ → ℕ → Graph → Type 0
IsFree a b s = IsConsistent s × IsApart s a b

request-delete-IsFree :
    (a b : ℕ) → Triple IsConsistent (FriendRequests.delete a b) (λ r u. IsFree a b u)
request-delete-IsFree a b = fact_rule _ λ s k.
    consequence _ (request-delete s a b)
      λ r t p. subst (IsFree a b) (sym p.0) (request-removed s a b k, request-taken s a b k p.1)

friendship-save-Keeps :
    (now a b : ℕ)
    → IsUuid a
    → IsUuid b
    → Triple (IsFree a b) (Friendships.save now a b) (λ r u. IsConsistent u)
friendship-save-Keeps now a b ha hb = fact_rule _ λ s k.
    consequence _ (friendship-save s now a b ha hb)
      λ r t p. subst IsConsistent (sym p) (friendship-added s a b now k.0 k.1)

pub accept_work-Keeps :
    (now me requester : ℕ) → IsUuid me → IsUuid requester → Keeps (accept_work now me requester)
unfolding accept_work
accept_work-Keeps now me requester hm hr =
    bind_rule (FriendRequests.delete requester me) _ (request-delete-IsFree requester me)
      λ r. friendship-save-Keeps now requester me hr hm

request-save-Keeps :
    (now a b : ℕ) → Triple (IsFree a b) (FriendRequests.save now a b) (λ r u. IsConsistent u)
request-save-Keeps now a b = fact_rule _ λ s k.
    consequence _ (request-save s now a b)
      λ r t p. subst IsConsistent (sym p) (request-added s a b now k.0 k.1)

-- The transaction when the addressee has asked first.
mutual-Keeps :
    (now me addressee : ℕ)
    → IsUuid me
    → IsUuid addressee
    → Keeps (do FriendRequests.delete addressee me; Friendships.save now me addressee; return true)
mutual-Keeps now me addressee hm ha =
    bind_rule (FriendRequests.delete addressee me) _ (request-delete-IsFree addressee me) λ r.
      bind_rule (Friendships.save now me addressee) _
        (fact_rule _ λ s k. consequence _ (friendship-save s now me addressee hm ha) λ r t p.
          subst IsConsistent (sym p)
            (friendship-added s me addressee now k.0 (IsApart-comm s addressee me k.1)))
        λ r. return_rule true λ t k. k

-- The transaction when neither has asked.
fresh-Keeps :
    (s : Graph) (now me addressee : ℕ)
    → IsConsistent s
    → me ≢ addressee
    → has me addressee s.blocks || has addressee me s.blocks ≡ false
    → friends me addressee s.friendships ≡ false
    → has addressee me s.requests ≡ false
    → Triple
        (λ u. u ≡ s)
        (do
          (if has me addressee s.requests
              then fail already_requested
              else FriendRequests.save now me addressee)
          return false)
        (λ r u. IsConsistent u)
fresh-Keeps s now me addressee k distinct unblocked unfriended unasked =
    bind_rule _ _
      (if_rule (has me addressee s.requests) _ _ (λ asked. fail_rule already_requested)
        (λ free.
          given _ s
            (
              k,
              record {
                unrequested = (free, unasked);
                unfriended = unfriended;
                unblocked = ground (arith, unblocked);
                distinct = distinct;
              },
            )
            (request-save-Keeps now me addressee)))
      λ r. return_rule false λ t h. h

pub send_work-Keeps :
    (now me addressee : ℕ)
    → IsUuid me
    → IsUuid addressee
    → me ≢ addressee
    → Keeps (send_work now me addressee)
unfolding send_work
send_work-Keeps now me addressee hm ha distinct = fact_rule _ λ s k.
    ask_rule s _ _ _ (blocked-is s me addressee) (
      guard_rule s _ _ blocked _ _ (friendship-exists s me addressee hm ha) λ unblocked.
        guard_rule s _ _ already_friends _ _ (request-exists s addressee me) λ unfriended.
          if_rule (has addressee me s.requests) _ _
            (λ reverse. given _ s k (mutual-Keeps now me addressee hm ha))
            (λ unasked.
              ask_rule s _ _ _ (request-exists s me addressee)
                (fresh-Keeps s now me addressee k distinct unblocked unfriended unasked)))
