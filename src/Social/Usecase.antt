-- ===== src/Social/Usecase.antt =====
-- internal/usecase/social/social.go. `now` is the time that the database gives a new row; `faults` says
-- which statements of the call's transaction fail.
use vfx.Base.{ℕ, Bool, true, false, List, [], ◌∷◌, if◌then◌else◌, ◌==◌}
use vfx.Db.{Reply, ok, err, db, domain, return, fail, rw_tx, later_faults, ◌>>=◌, ◌>>◌}
use vfx.Social.Graph.{
  Graph, SocialError, Work, self_friend, self_block, already_friends, already_requested,
  request_not_found, not_friends, blocked,
}
use vfx.Social.FriendRequests
use vfx.Social.Friendships
use vfx.Social.Blocks

-- `if err != nil && !errors.Is(err, e)`: the one domain error that a step of one statement may end
-- in. The statement has then run, and deleted nothing.
abbrev pub tolerate : (SocialError → Bool) → Work (Unit {0}) → Work (Unit {0}) → Work (Unit {0})
tolerate expected m rest c = elim (m c) [
  | ok (u, d) ↦ rest d
  | err db ↦ err db
  | err (domain e) ↦
      if expected e then rest (record c { faults = later_faults c.faults }) else err (domain e)
]

abbrev pub is_not_friends : SocialError → Bool
is_not_friends not_friends = true
is_not_friends _ = false

abbrev pub is_request_not_found : SocialError → Bool
is_request_not_found request_not_found = true
is_request_not_found _ = false

unfoldable pub send_work : ℕ → ℕ → ℕ → Work Bool
send_work now me addressee = do
  is_blocked ← Blocks.is_blocked me addressee
  friends ← if is_blocked then fail blocked else Friendships.exists me addressee
  reverse ← if friends then fail already_friends else FriendRequests.exists addressee me
  if reverse
      then (do FriendRequests.delete addressee me; Friendships.save now me addressee; return true)
      else (do
        forward ← FriendRequests.exists me addressee
        if forward then fail already_requested else FriendRequests.save now me addressee
        return false)

-- On an error the source also returns `accepted`, which its caller then does not read.
unfoldable pub send_friend_request : ℕ → ℕ → ℕ → List Bool → Graph → Reply SocialError Bool × Graph
send_friend_request now me addressee faults g =
    if me == addressee
    then (err (domain self_friend), g)
    else rw_tx faults g (send_work now me addressee)

unfoldable pub accept_work : ℕ → ℕ → ℕ → Work (Unit {0})
accept_work now me requester = do
  FriendRequests.delete requester me
  Friendships.save now requester me

unfoldable pub accept_friend_request :
    ℕ → ℕ → ℕ → List Bool → Graph → Reply SocialError (Unit {0}) × Graph
accept_friend_request now me requester faults g = rw_tx faults g (accept_work now me requester)

unfoldable pub decline_friend_request :
    ℕ → ℕ → List Bool → Graph → Reply SocialError (Unit {0}) × Graph
decline_friend_request me requester faults g = rw_tx faults g (FriendRequests.delete requester me)

unfoldable pub cancel_friend_request :
    ℕ → ℕ → List Bool → Graph → Reply SocialError (Unit {0}) × Graph
cancel_friend_request me addressee faults g = rw_tx faults g (FriendRequests.delete me addressee)

unfoldable pub remove_friend : ℕ → ℕ → List Bool → Graph → Reply SocialError (Unit {0}) × Graph
remove_friend me friend faults g = rw_tx faults g (Friendships.delete me friend)

unfoldable pub block_work : ℕ → ℕ → ℕ → Work (Unit {0})
block_work now me target =
    Blocks.save now me target
    >> tolerate is_not_friends (Friendships.delete me target) (
        tolerate is_request_not_found (FriendRequests.delete me target)
          (tolerate is_request_not_found (FriendRequests.delete target me) (return tt)))

unfoldable pub block_player : ℕ → ℕ → ℕ → List Bool → Graph → Reply SocialError (Unit {0}) × Graph
block_player now me target faults g =
    if me == target then (err (domain self_block), g) else rw_tx faults g (block_work now me target)

unfoldable pub unblock_player : ℕ → ℕ → List Bool → Graph → Reply SocialError (Unit {0}) × Graph
unblock_player me target faults g = rw_tx faults g (Blocks.delete me target)

-- The calls of the service that change the graph.
pub data Call : Type 0 where
  sends accepts blocks : ℕ → ℕ → ℕ → Call
  declines cancels removes unblocks : ℕ → ℕ → Call

abbrev pub dropped : {A : Type 0} → Reply SocialError A → Reply SocialError (Unit {0})
dropped (ok a) = ok tt
dropped (err e) = err e

unfoldable pub step : Call → List Bool → Graph → Reply SocialError (Unit {0}) × Graph
step (sends now me addressee) faults g =
    let r = send_friend_request now me addressee faults g in (dropped r.0, r.1)
step (accepts now me requester) faults g = accept_friend_request now me requester faults g
step (blocks now me target) faults g = block_player now me target faults g
step (declines me requester) faults g = decline_friend_request me requester faults g
step (cancels me addressee) faults g = cancel_friend_request me addressee faults g
step (removes me friend) faults g = remove_friend me friend faults g
step (unblocks me target) faults g = unblock_player me target faults g

-- Calls one after another, each with what fails in it.
unfoldable pub run : List (Call × List Bool) → Graph → Graph
run [] g = g
run ((c, faults) ∷ cs) g = run cs (step c faults g).1
