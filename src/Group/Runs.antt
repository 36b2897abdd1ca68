-- ===== src/Group/Runs.antt =====
-- Sequences of calls of the group service, and who may disband a group.
use vfx.Base.{
  ℕ, ◌≡◌, refl, ◌∙◌, Bool, true, false, not, List, [], ◌∷◌, none, some, ◌==◌, arith, if◌then◌else◌,
  Option-cases, inl, inr,
}
use vfx.Base.Texts.{Text}
use vfx.Db.{ok, err, domain, fail}
use vfx.Db.Triple.{rw_tx_rule}
use vfx.Db.Quiet.{quiet, rw_tx-run, rw_tx-fail, bind-run}
use vfx.Db.Steps.{query_one-run, exec-run}
use vfx.Group.{
  Group, Tables, Work, find_group, has_member, new_group, create_group, delete_work, delete_group,
  join_group, leave_group, delete_group_row, find, delete, not_owner, not_found,
}
use vfx.Group.Laws.{find_group-delete, has_member-cascade}
use vfx.Group.Invariant.{
  IsSound, create_work-Keeps, delete_work-Keeps, join_work-Keeps, leave_work-Keeps,
}

-- The calls of the service that change the tables; `creates` carries the new group's id.
pub data Call : Type 0 where
  creates : ℕ → ℕ → ℕ → Text → Call
  deletes leaves : ℕ → ℕ → Call
  joins : ℕ → ℕ → ℕ → Call

unfoldable pub step : Call → List Bool → Tables → Tables
step (creates now id owner name) faults s = (create_group now id owner name faults s).1
step (deletes me id) faults s = (delete_group me id faults s).1
step (leaves me id) faults s = (leave_group me id faults s).1
step (joins now me id) faults s = (join_group now me id faults s).1

unfoldable pub run : List (Call × List Bool) → Tables → Tables
run [] s = s
run ((c, faults) ∷ cs) s = run cs (step c faults s)

create_group-IsSound :
    (now id owner : ℕ) (name : Text) (faults : List Bool) (s : Tables)
    → IsSound s
    → IsSound (create_group now id owner name faults s).1
unfolding create_group
create_group-IsSound now id owner name faults s k =
    elim (Option-cases (new_group id owner name now)) [
      | inl e ↦ rw (e, create_group) k
      | inr (g, e) ↦ rw (e, create_group) (rw_tx_rule faults s _ k (create_work-Keeps now g))
    ]

step-IsSound : (c : Call) (faults : List Bool) (s : Tables) → IsSound s → IsSound (step c faults s)
unfolding step delete_group leave_group join_group
step-IsSound (creates now id owner name) faults s k =
    create_group-IsSound now id owner name faults s k
step-IsSound (deletes me id) faults s k = rw_tx_rule faults s _ k (delete_work-Keeps me id)
step-IsSound (leaves me id) faults s k = rw_tx_rule faults s _ k (leave_work-Keeps me id)
step-IsSound (joins now me id) faults s k = rw_tx_rule faults s _ k (join_work-Keeps now me id)

-- Whatever calls are made and whichever statements fail, every member's group stays there and every
-- owner stays a member of the group that he owns.
pub run-IsSound : (cs : List (Call × List Bool)) (s : Tables) → IsSound s → IsSound (run cs s)
unfolding run
run-IsSound [] s k = k
run-IsSound ((c, faults) ∷ cs) s k = run-IsSound cs _ (step-IsSound c faults s k)

delete_work-owner :
    (me id : ℕ) (s : Tables) (g : Group)
    → find_group id s.groups ≡ some g
    → g.owner_id ≡ me
    → delete_work me id (quiet s) ≡ ok (tt, quiet (delete_group_row id s))
unfolding delete_work find delete
delete_work-owner me id s g found mine =
    let next : Group → Work (Unit {0}) =
      λ h c. (if not (h.owner_id == me) then fail not_owner else delete id) c in
    let is_mine : (g.owner_id == me) ≡ true = ground (arith, mine) in
    bind-run (find id) next (quiet s) (quiet s) g (query_one-run s _ not_found g found)
    ∙ rw is_mine (exec-run s (delete_group_row id))

delete_work-other :
    (me id : ℕ) (s : Tables) (g : Group)
    → find_group id s.groups ≡ some g
    → (g.owner_id ≡ me → ⊥)
    → delete_work me id (quiet s) ≡ err (domain not_owner)
unfolding delete_work find
delete_work-other me id s g found other =
    let next : Group → Work (Unit {0}) =
      λ h c. (if not (h.owner_id == me) then fail not_owner else delete id) c in
    let is_other : (g.owner_id == me) ≡ false = ground (arith, other) in
    bind-run (find id) next (quiet s) (quiet s) g (query_one-run s _ not_found g found)
    ∙ rw is_other refl

-- When no statement fails, DeleteGroup by the owner succeeds: then the group and its memberships are
-- gone, and the other groups and their memberships are as they were. Anybody else is refused, and
-- nothing changes.
pub delete_group_owner :
    (me id : ℕ) (s : Tables) (g : Group)
    → find_group id s.groups ≡ some g
    → (g.owner_id ≡ me
        → ((delete_group me id [] s).0 ≡ ok tt)
          × ((other : ℕ)
              → find_group other (delete_group me id [] s).1.groups
                ≡ (if id == other then none else find_group other s.groups))
          × ((other p : ℕ)
              → has_member other p (delete_group me id [] s).1.members
                ≡ (if id == other then false else has_member other p s.members)))
      × ((g.owner_id ≡ me → ⊥) → delete_group me id [] s ≡ (err (domain not_owner), s))
unfolding delete_group delete_group_row
delete_group_owner me id s g found = (
  λ mine.
      rw
        (rw_tx-run s (delete_group_row id s) (delete_work me id) tt
          (delete_work-owner me id s g found mine))
        (refl, λ k. find_group-delete k id s.groups, λ k p. has_member-cascade k p id s.members),
  λ other. rw_tx-fail s (delete_work me id) _ (delete_work-other me id s g found other),
)
