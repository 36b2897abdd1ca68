-- ===== src/Social/Outcomes.antt =====
-- What the calls of internal/usecase/social/social.go promise to their callers.
use vfx.Base.{ℕ, ◌≡◌, ◌≢◌, refl, true, false, [], ◌==◌, arith}
use vfx.Db.{ok}
use vfx.Db.Quiet.{rw_tx-run}
use vfx.Social.Graph.{Graph, has}
use vfx.Social.Pairs.{IsUuid, order_pair_lem}
use vfx.Social.Tables.{has-insert, friends-insert}
use vfx.Social.Rules.{with_block}
use vfx.Social.Invariant.{IsConsistent}
use vfx.Social.Preserve.{request-taken}
use vfx.Social.Sever.{without_block-unrequested, without_block-unfriended, severed}
use vfx.Social.Friendships
use vfx.Social.Usecase.{
  send_work, block_work, send_friend_request, accept_friend_request, block_player,
}
use vfx.Social.Effects.{block_work-run, befriended, accept_friend_request-run, send_work-mutual}

-- In a consistent friend graph, a request to a player who has asked first does what accepting that
-- player's request does, and reports it as accepted, if the two have uuids and no statement fails.
pub send_friend_request-mutual :
    (now me addressee : ℕ) (g : Graph)
    → IsUuid me
    → IsUuid addressee
    → IsConsistent g
    → has addressee me g.requests ≡ true
    → send_friend_request now me addressee [] g
      ≡ (ok true, (accept_friend_request now me addressee [] g).1)
unfolding send_friend_request
send_friend_request-mutual now me addressee g hm ha k h =
    let other : (me == addressee) ≡ false =
      ground (arith, (request-taken g addressee me k h).distinct) in
    rw (other, accept_friend_request-run now me addressee g hm ha k h)
      (rw_tx-run g (befriended now addressee me g) (send_work now me addressee) true
        (send_work-mutual now me addressee g hm ha k h))

-- In a consistent friend graph, accepting a pending request succeeds when the two players have uuids
-- and no statement fails: no constraint of the tables stands in the way. Then the two are friends,
-- and neither has a request to the other.
pub accept_friend_request-befriends :
    (now me requester : ℕ) (g : Graph)
    → IsUuid me
    → IsUuid requester
    → IsConsistent g
    → has requester me g.requests ≡ true
    → ((accept_friend_request now me requester [] g).0 ≡ ok tt)
      × (Friendships.are_friends me requester (accept_friend_request now me requester [] g).1
          ≡ true)
      × (has requester me (accept_friend_request now me requester [] g).1.requests ≡ false)
      × (has me requester (accept_friend_request now me requester [] g).1.requests ≡ false)
accept_friend_request-befriends now me requester g hm hr k h =
    let p = request-taken g requester me k h in
    rw
      (
        accept_friend_request-run now me requester g hm hr k h,
        order_pair_lem me requester hm hr,
        Friendships.are_friends,
      )
      (
        refl,
        ground (arith, friends-insert me requester requester me now g.friendships),
        p.unrequested.0,
        p.unrequested.1,
      )

-- Blocking another player succeeds when both have uuids and no statement fails, whatever the friend
-- graph is. Then the player is blocked, and the two are not friends and have no request to each other.
pub block_player-severs :
    (now me target : ℕ) (g : Graph)
    → IsUuid me
    → IsUuid target
    → me ≢ target
    → ((block_player now me target [] g).0 ≡ ok tt)
      × (has me target (block_player now me target [] g).1.blocks ≡ true)
      × (Friendships.are_friends me target (block_player now me target [] g).1 ≡ false)
      × (has me target (block_player now me target [] g).1.requests ≡ false)
      × (has target me (block_player now me target [] g).1.requests ≡ false)
unfolding block_player
block_player-severs now me target g hm ht distinct =
    let other : (me == target) ≡ false = ground (arith, distinct) in
    let p = without_block-unrequested g me target in
    let blocks : has me target (with_block now me target g.blocks) ≡ true =
      ground (arith, has-insert me target me target now g.blocks) in
    rw
      (
        other,
        rw_tx-run g (severed now me target g) (block_work now me target) tt
            (block_work-run now me target g hm ht),
        order_pair_lem me target hm ht,
        Friendships.are_friends,
      )
      (refl, blocks, without_block-unfriended g me target, p.0, p.1)
