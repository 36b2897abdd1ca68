-- ===== src/Social/Runs.antt =====
-- Sequences of calls of the social service.
use vfx.Base.{Bool, List, [], ◌∷◌, ◌==◌, arith, All, Bool-cases, inl, inr}
use vfx.Db.Triple.{rw_tx_rule}
use vfx.Social.Graph.{Graph}
use vfx.Social.Pairs.{IsUuid}
use vfx.Social.Invariant.{IsConsistent}
use vfx.Social.Preserve.{
  request-delete-Keeps, friendship-delete-Keeps, block-delete-Keeps, accept_work-Keeps,
  send_work-Keeps,
}
use vfx.Social.Sever.{block_work-Keeps}
use vfx.Social.Usecase.{
  Call, sends, accepts, blocks, declines, cancels, removes, unblocks, step, run,
  send_friend_request, accept_friend_request, decline_friend_request, cancel_friend_request,
  remove_friend, block_player, unblock_player,
}

-- The two players that a call names have uuids.
abbrev pub IsValid : Call → Type 0
IsValid (sends now a b) = IsUuid a × IsUuid b
IsValid (accepts now a b) = IsUuid a × IsUuid b
IsValid (blocks now a b) = IsUuid a × IsUuid b
IsValid (declines a b) = IsUuid a × IsUuid b
IsValid (cancels a b) = IsUuid a × IsUuid b
IsValid (removes a b) = IsUuid a × IsUuid b
IsValid (unblocks a b) = IsUuid a × IsUuid b

step-IsConsistent :
    (c : Call) (faults : List Bool) (g : Graph)
    → IsValid c
    → IsConsistent g
    → IsConsistent (step c faults g).1
unfolding step send_friend_request accept_friend_request decline_friend_request
    cancel_friend_request remove_friend block_player unblock_player
step-IsConsistent (sends now a b) faults g v k = elim (Bool-cases (a == b)) [
  | inl e ↦ rw (e, send_friend_request) k
  | inr e ↦
      rw (e, send_friend_request)
        (rw_tx_rule faults g _ k (send_work-Keeps now a b v.0 v.1 (λ h. ground (arith, h, e))))
]
step-IsConsistent (blocks now a b) faults g v k = elim (Bool-cases (a == b)) [
  | inl e ↦ rw (e, block_player) k
  | inr e ↦
      rw (e, block_player)
        (rw_tx_rule faults g _ k (block_work-Keeps now a b v.0 v.1 (λ h. ground (arith, h, e))))
]
step-IsConsistent (accepts now a b) faults g v k =
    rw_tx_rule faults g _ k (accept_work-Keeps now a b v.0 v.1)
step-IsConsistent (declines a b) faults g v k = rw_tx_rule faults g _ k (request-delete-Keeps b a)
step-IsConsistent (cancels a b) faults g v k = rw_tx_rule faults g _ k (request-delete-Keeps a b)
step-IsConsistent (removes a b) faults g v k =
    rw_tx_rule faults g _ k (friendship-delete-Keeps a b v.0 v.1)
step-IsConsistent (unblocks a b) faults g v k = rw_tx_rule faults g _ k (block-delete-Keeps a b)

-- Whatever calls are made and whichever statements fail, a consistent friend graph stays consistent
-- when the players that the calls name have uuids.
pub run-IsConsistent :
    (cs : List (Call × List Bool)) (g : Graph)
    → All (λ c. IsValid c.0) cs
    → IsConsistent g
    → IsConsistent (run cs g)
unfolding run
run-IsConsistent [] g v k = k
run-IsConsistent ((c, faults) ∷ cs) g v k =
    run-IsConsistent cs _ v.1 (step-IsConsistent c faults g v.0 k)
