-- ===== src/Social/Effects.antt =====
-- What the calls of internal/usecase/social/social.go do when no statement fails.
use vfx.Base.{
  ℕ, ◌≡◌, refl, sym, ap, ◌∙◌, Bool, true, false, [], ◌∷◌, arith, some, if◌then◌else◌, Bool-cases,
  inl, inr, ltb,
}
use vfx.Db.{ok, return, fail, statement, rw_tx, ◌>>◌}
use vfx.Db.Quiet.{quiet, statement-run, bind-run, rw_tx-run}
use vfx.Social.Graph.{Graph, Work, edge, has, remove, order_pair, request_not_found, not_friends}
use vfx.Social.Pairs.{IsUuid, sorted, order_pair_lem}
use vfx.Social.Tables.{remove-absent, friends, friends_comm}
use vfx.Social.Rules.{with_block, tolerate-run}
use vfx.Social.Invariant.{IsConsistent, IsApart}
use vfx.Social.Preserve.{request-taken, IsApart-comm}
use vfx.Social.Sever.{severed}
use vfx.Social.FriendRequests
use vfx.Social.Friendships
use vfx.Social.Blocks
use vfx.Social.Usecase.{
  tolerate, is_not_friends, is_request_not_found, send_work, accept_work, block_work,
  accept_friend_request,
}

with_block-insert :
    (now a b : ℕ) (s : Graph)
    → Blocks.insert_block now a b s ≡ some (tt, record s { blocks = with_block now a b s.blocks })
with_block-insert now a b s = elim (Bool-cases (has a b s.blocks)) [
  | inl e ↦ rw (e, Blocks.insert_block, with_block) refl
  | inr e ↦ rw (e, Blocks.insert_block, with_block) refl
]

withdrawn-run :
    (a b : ℕ) (s : Graph) (rest : Work (Unit {0}))
    → tolerate is_request_not_found (FriendRequests.delete a b) rest (quiet s)
      ≡ rest (quiet (record s { requests = remove a b s.requests }))
unfolding FriendRequests.delete
withdrawn-run a b s rest =
    tolerate-run is_request_not_found request_not_found refl s
      (record s { requests = remove a b s.requests }) (has a b s.requests)
      (FriendRequests.delete_request a b) refl
      (λ n. ap (λ es. record s { requests = es }) (sym (remove-absent a b s.requests n))) rest

unfriended-run :
    (a b : ℕ) (s : Graph) (rest : Work (Unit {0}))
    → IsUuid a
    → IsUuid b
    → tolerate is_not_friends (Friendships.delete a b) rest (quiet s)
      ≡ rest (quiet (record s { friendships = remove (sorted a b).0 (sorted a b).1 s.friendships }))
unfolding Friendships.delete
unfriended-run a b s rest ha hb =
    tolerate-run is_not_friends not_friends refl s
      (record s { friendships = remove (sorted a b).0 (sorted a b).1 s.friendships })
      (friends a b s.friendships) (Friendships.delete_friendship (order_pair a b))
      (rw (order_pair_lem a b ha hb) refl)
      (λ n.
        ap (λ es. record s { friendships = es })
          (sym (remove-absent (sorted a b).0 (sorted a b).1 s.friendships n)))
      rest

pub block_work-run :
    (now a b : ℕ) (s : Graph)
    → IsUuid a
    → IsUuid b
    → block_work now a b (quiet s) ≡ ok (tt, quiet (severed now a b s))
unfolding block_work Blocks.save
block_work-run now a b s ha hb =
    let s1 : Graph = record s { blocks = with_block now a b s.blocks } in
    let s2 : Graph = record s1 {
      friendships = remove (sorted a b).0 (sorted a b).1 s.friendships;
    } in
    let s3 : Graph = record s2 { requests = remove a b s.requests } in
    let last : Work (Unit {0}) = λ c. return tt c in
    let fourth : Work (Unit {0}) =
      λ c. tolerate is_request_not_found (FriendRequests.delete b a) last c in
    let third : Work (Unit {0}) =
      λ c. tolerate is_request_not_found (FriendRequests.delete a b) fourth c in
    let second : Work (Unit {0}) = λ c. tolerate is_not_friends (Friendships.delete a b) third c in
    bind-run (Blocks.save now a b) (λ u c. second c) (quiet s) (quiet s1) tt
      (statement-run (Blocks.insert_block now a b) s s1 tt (with_block-insert now a b s))
    ∙ unfriended-run a b s1 third ha hb
    ∙ withdrawn-run a b s2 fourth
    ∙ withdrawn-run b a s3 last

friendship-save-run :
    (now a b : ℕ) (s : Graph)
    → IsUuid a
    → IsUuid b
    → IsApart s a b
    → Friendships.save now a b (quiet s)
      ≡ ok (
        tt,
        quiet (record s { friendships = edge (sorted a b).0 (sorted a b).1 now ∷ s.friendships }),
      )
unfolding Friendships.save
friendship-save-run now a b s ha hb p =
    let low : ltb (sorted a b).0 (sorted a b).1 ≡ true = ground (arith, p.distinct) in
    statement-run (Friendships.insert_friendship now (order_pair a b)) s _ tt
      (rw (order_pair_lem a b ha hb, p.unfriended, low, Friendships.insert_friendship) refl)

request-delete-run :
    (a b : ℕ) (s : Graph)
    → has a b s.requests ≡ true
    → FriendRequests.delete a b (quiet s)
      ≡ ok (tt, quiet (record s { requests = remove a b s.requests }))
unfolding FriendRequests.delete
request-delete-run a b s h =
    let t : Graph = record s { requests = remove a b s.requests } in
    let next : Bool → Work (Unit {0}) =
      λ y c. (if y then return tt else fail request_not_found) c in
    bind-run (statement (FriendRequests.delete_request a b)) next (quiet s) (quiet t)
      (has a b s.requests) (statement-run (FriendRequests.delete_request a b) s t _ refl)
    ∙ ap (λ y. next y (quiet t)) h

-- The graph after the request from `a` to `b` is accepted.
abbrev pub befriended : ℕ → ℕ → ℕ → Graph → Graph
befriended now a b s = record s {
  requests = remove a b s.requests;
  friendships = edge (sorted a b).0 (sorted a b).1 now ∷ s.friendships;
}

pub accept_friend_request-run :
    (now me requester : ℕ) (g : Graph)
    → IsUuid me
    → IsUuid requester
    → IsConsistent g
    → has requester me g.requests ≡ true
    → accept_friend_request now me requester [] g ≡ (ok tt, befriended now requester me g)
unfolding accept_friend_request accept_work rw_tx
accept_friend_request-run now me requester g hm hr k h =
    let t : Graph = record g { requests = remove requester me g.requests } in
    rw_tx-run g (befriended now requester me g) (accept_work now me requester) tt (
      bind-run (FriendRequests.delete requester me) (λ u c. Friendships.save now requester me c)
        (quiet g) (quiet t) tt (request-delete-run requester me g h)
      ∙ friendship-save-run now requester me t hr hm (request-taken g requester me k h))

sorted_comm : (a b : ℕ) → sorted a b ≡ sorted b a
sorted_comm a b = ground arith

mutual-run :
    (now me addressee : ℕ) (g : Graph)
    → IsUuid me
    → IsUuid addressee
    → IsConsistent g
    → has addressee me g.requests ≡ true
    → (FriendRequests.delete addressee me >> (Friendships.save now me addressee >> return true))
        (quiet g)
      ≡ ok (true, quiet (befriended now addressee me g))
mutual-run now me addressee g hm ha k h =
    let t : Graph = record g { requests = remove addressee me g.requests } in
    let p = IsApart-comm t addressee me (request-taken g addressee me k h) in
    let last : Work Bool = λ c. return true c in
    bind-run (FriendRequests.delete addressee me) (λ u. Friendships.save now me addressee >> last)
      (quiet g) (quiet t) tt (request-delete-run addressee me g h)
    ∙ bind-run (Friendships.save now me addressee) (λ u. last) (quiet t) _ tt
        (friendship-save-run now me addressee t hm ha p)
    ∙ rw (sorted_comm me addressee) refl

pub send_work-mutual :
    (now me addressee : ℕ) (g : Graph)
    → IsUuid me
    → IsUuid addressee
    → IsConsistent g
    → has addressee me g.requests ≡ true
    → send_work now me addressee (quiet g) ≡ ok (true, quiet (befriended now addressee me g))
unfolding send_work Blocks.is_blocked Friendships.exists FriendRequests.exists statement
send_work-mutual now me addressee g hm ha k h =
    let p = request-taken g addressee me k h in
    let unfriended : friends me addressee g.friendships ≡ false =
      friends_comm me addressee g.friendships ∙ p.unfriended in
    rw (p.unblocked.0, p.unblocked.1, order_pair_lem me addressee hm ha, unfriended, h)
      (mutual-run now me addressee g hm ha k h)
