-- ===== src/Social/Tests.antt =====
-- Runs of the friend graph, and the theorems about it at concrete players.
use vfx.Base.{ℕ, ◌≡◌, refl, Bool, true, false, List, [], ◌∷◌, subst, arith, min, max}
use vfx.Db.{ok}
use vfx.Social.Graph.{Graph, edge, has, remove, is_edge, order_pair, order_from, byte}
use vfx.Social.Pairs.{order_pair_canonical}
use vfx.Social.Invariant.{IsConsistent, new_graph, new_graph-IsConsistent}
use vfx.Social.Runs.{run-IsConsistent}
use vfx.Social.Outcomes.{
  send_friend_request-mutual, accept_friend_request-befriends, block_player-severs,
}
use vfx.Social.FriendRequests
use vfx.Social.Friendships
use vfx.Social.Blocks
use vfx.Db.{statement, rw_tx}
use vfx.Social.Usecase.{
  Call, sends, blocks, step, run, send_friend_request, accept_friend_request, block_player,
  send_work, block_work,
}

abbrev ada : ℕ
ada = 7

abbrev bob : ℕ
bob = 256

-- Ada asks, Bob asks back, then Ada blocks Bob.
abbrev day : List (Call × List Bool)
day = (sends 1 ada bob, []) ∷ (sends 2 bob ada, []) ∷ (blocks 3 ada bob, []) ∷ []

abbrev asked : Graph
asked = record { requests = edge ada bob 1 ∷ []; friendships = []; blocks = [] }

run-day :
    run day new_graph ≡ record { requests = []; friendships = []; blocks = edge ada bob 3 ∷ [] }
unfolding run step send_friend_request block_player send_work block_work Blocks.is_blocked
    Friendships.exists FriendRequests.exists FriendRequests.delete FriendRequests.save
    Friendships.save Friendships.delete Blocks.save statement rw_tx has remove is_edge order_pair
    order_from byte
run-day = refl

run-asked : run ((sends 1 ada bob, []) ∷ []) new_graph ≡ asked
unfolding run step send_friend_request send_work Blocks.is_blocked Friendships.exists
    FriendRequests.exists FriendRequests.save statement rw_tx has is_edge order_pair order_from byte
run-asked = refl

order_pair_canonical_example : order_pair bob ada ≡ (min bob ada, max bob ada)
order_pair_canonical_example = order_pair_canonical bob ada (ground arith) (ground arith)

asked-IsConsistent : IsConsistent asked
asked-IsConsistent = subst IsConsistent run-asked (
    run-IsConsistent ((sends 1 ada bob, []) ∷ []) new_graph (((ground arith, ground arith), tt))
      new_graph-IsConsistent)

asked-has : has ada bob asked.requests ≡ true
unfolding has is_edge
asked-has = refl

run-IsConsistent_example : IsConsistent (run day new_graph)
run-IsConsistent_example =
    run-IsConsistent day new_graph
      (
        (ground arith, ground arith),
        ((ground arith, ground arith), ((ground arith, ground arith), tt)),
      )
      new_graph-IsConsistent

send_friend_request-mutual_example :
    send_friend_request 2 bob ada [] asked ≡ (ok true, (accept_friend_request 2 bob ada [] asked).1)
send_friend_request-mutual_example =
    send_friend_request-mutual 2 bob ada asked (ground arith) (ground arith) asked-IsConsistent
      asked-has

accept_friend_request-befriends_example :
    ((accept_friend_request 2 bob ada [] asked).0 ≡ ok tt)
    × (Friendships.are_friends bob ada (accept_friend_request 2 bob ada [] asked).1 ≡ true)
    × (has ada bob (accept_friend_request 2 bob ada [] asked).1.requests ≡ false)
    × (has bob ada (accept_friend_request 2 bob ada [] asked).1.requests ≡ false)
accept_friend_request-befriends_example =
    accept_friend_request-befriends 2 bob ada asked (ground arith) (ground arith) asked-IsConsistent
      asked-has

block_player-severs_example :
    ((block_player 3 ada bob [] asked).0 ≡ ok tt)
    × (has ada bob (block_player 3 ada bob [] asked).1.blocks ≡ true)
    × (Friendships.are_friends ada bob (block_player 3 ada bob [] asked).1 ≡ false)
    × (has ada bob (block_player 3 ada bob [] asked).1.requests ≡ false)
    × (has bob ada (block_player 3 ada bob [] asked).1.requests ≡ false)
block_player-severs_example =
    block_player-severs 3 ada bob asked (ground arith) (ground arith) (λ e. ground (arith, e))
