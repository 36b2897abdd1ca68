-- ===== src/Social/Sever.antt =====
-- BlockPlayer of internal/usecase/social/social.go: the graph that it leaves.
use vfx.Base.{ℕ, ◌≡◌, ◌≢◌, sym, subst, false, arith, Bool-cases, inl, inr}
use vfx.Db.Triple.{bind_rule, return_rule, fact_rule}
use vfx.Social.Graph.{Graph, has, remove}
use vfx.Social.Pairs.{IsUuid, sorted}
use vfx.Social.Tables.{has-remove, friends, friends-remove}
use vfx.Social.Rules.{block-save, with_block, request-delete_tolerated, friendship-delete_tolerated}
use vfx.Social.Invariant.{IsConsistent, request-removed, friendship-removed, block-added}
use vfx.Social.Blocks
use vfx.Social.Usecase.{block_work}
use vfx.Social.Preserve.{Keeps}

-- What a block leaves of the graph.
abbrev pub without_block : ℕ → ℕ → Graph → Graph
without_block a b s = record s {
  requests = remove b a (remove a b s.requests);
  friendships = remove (sorted a b).0 (sorted a b).1 s.friendships;
}

pub without_block-unrequested :
    (s : Graph) (a b : ℕ)
    → (has a b (without_block a b s).requests ≡ false)
      × (has b a (without_block a b s).requests ≡ false)
without_block-unrequested s a b =
    let once = remove a b s.requests in
    (
      ground (arith, has-remove a b b a once, has-remove a b a b s.requests),
      ground (arith, has-remove b a b a once),
    )

pub without_block-unfriended :
    (s : Graph) (a b : ℕ) → friends a b (without_block a b s).friendships ≡ false
without_block-unfriended s a b = ground (arith, friends-remove a b a b s.friendships)

abbrev pub severed : ℕ → ℕ → ℕ → Graph → Graph
severed now a b s = record (without_block a b s) { blocks = with_block now a b s.blocks }

without_block-IsConsistent :
    (s : Graph) (a b : ℕ) → IsConsistent s → IsConsistent (without_block a b s)
without_block-IsConsistent s a b k =
    request-removed _ b a (request-removed _ a b (friendship-removed s a b k))

severed-IsConsistent :
    (s : Graph) (now a b : ℕ) → IsConsistent s → a ≢ b → IsConsistent (severed now a b s)
severed-IsConsistent s now a b k distinct =
    let old = without_block-IsConsistent s a b k in
    elim (Bool-cases (has a b s.blocks)) [
      | inl e ↦ rw (e, with_block) old
      | inr e ↦
          rw (e, with_block)
            (block-added (without_block a b s) a b now old (without_block-unrequested s a b)
              (without_block-unfriended s a b) distinct)
    ]

pub block_work-Keeps :
    (now me target : ℕ) → IsUuid me → IsUuid target → me ≢ target → Keeps (block_work now me target)
unfolding block_work
block_work-Keeps now me target hm ht distinct = fact_rule _ λ s k.
    bind_rule (Blocks.save now me target) _ (block-save s now me target) λ r.
      friendship-delete_tolerated _ me target hm ht _ (
        request-delete_tolerated _ me target _ (
          request-delete_tolerated _ target me _ (
            return_rule tt
              λ t p. subst IsConsistent (sym p) (severed-IsConsistent s now me target k distinct))))
