-- ===== src/Group/Invariant.antt =====
-- When the groups and their members fit together, and the transactions of
-- internal/usecase/group/group.go on such tables.
use vfx.Base.{
  ℕ, ◌≡◌, refl, sym, subst, true, false, not, ◌||◌, [], some, ◌==◌, arith, Bool-cases, Option-cases,
  inl, inr,
}
use vfx.Db.Triple.{Triple, at_rule, fail_rule, if_rule, fact_rule, consequence}
use vfx.Db.Steps.{Leads, then_rule, query_one_rule, exec_rule, exec_rows_rule}
use vfx.Group.{
  Group, Membership, Tables, Work, find_group, has_member, upsert_group, delete_group_row,
  remove_group_member, is_found, find, save, delete, save_membership, delete_membership, membership,
  create_work, delete_work, join_work, leave_work, not_owner, owner_must_delete, not_member,
}
use vfx.Group.Laws.{
  put, enrolled, has_member-enrolled, add_group_member-eq, find_group-put, find_group-delete,
  has_member-remove, has_member-cascade,
}

-- A member belongs to a group that is there, and an owner to his own group.
pub record IsSound (s : Tables) : Type 0 where
  pub housed :
      (id p : ℕ) → has_member id p s.members ≡ true → is_found (find_group id s.groups) ≡ true
  pub owned :
      (id : ℕ) (g : Group)
      → find_group id s.groups ≡ some g
      → has_member id g.owner_id s.members ≡ true

abbrev pub no_groups : Tables
no_groups = record { groups = []; members = [] }

pub no_groups-IsSound : IsSound no_groups
unfolding has_member find_group
no_groups-IsSound = record { housed = λ id p h. cc; owned = λ id g h. cc }

save_membership_rule :
    (s : Tables) (m : Membership)
    → Leads s (save_membership m) (enrolled m s) (λ u.
      (has_member m.group_id m.player_id s.members || is_found (find_group m.group_id s.groups))
      ≡ true)
unfolding save_membership
save_membership_rule s m =
    at_rule s _
      (elim (Bool-cases (
        has_member m.group_id m.player_id s.members || is_found (find_group m.group_id s.groups))) [
          | inl e ↦ rw (add_group_member-eq m s, e) (refl, refl)
          | inr e ↦ rw (add_group_member-eq m s, e) tt
        ])

enrolled-IsSound :
    (s : Tables) (m : Membership)
    → IsSound s
    → (has_member m.group_id m.player_id s.members || is_found (find_group m.group_id s.groups))
      ≡ true
    → IsSound (enrolled m s)
enrolled-IsSound s m k h = record {
  housed = λ id p e.
      ground (arith, has_member-enrolled id p m s, k.housed id p, k.housed m.group_id m.player_id);
  owned = λ id g e. ground (arith, has_member-enrolled id g.owner_id m s, k.owned id g e);
}

-- A group that is put, with its owner as a member.
founded-IsSound :
    (s : Tables) (g : Group) (now : ℕ)
    → IsSound s
    → IsSound (enrolled (membership g.id g.owner_id now) (record s { groups = put g s.groups }))
founded-IsSound s g now k =
    let t : Tables = record s { groups = put g s.groups } in
    let m = membership g.id g.owner_id now in
    record {
      housed = λ id p e.
          ground (arith, has_member-enrolled id p m t, find_group-put id g s.groups, k.housed id p);
      owned = λ id h e. elim (Option-cases (find_group id s.groups)) [
        | inl fresh ↦
            ground (arith, has_member-enrolled id h.owner_id m t, find_group-put id g s.groups)
        | inr (old, found) ↦ ground (
          arith,
          has_member-enrolled id h.owner_id m t,
          find_group-put id g s.groups,
          k.owned id old found,
        )
      ];
    }

leave-IsSound :
    (s : Tables) (id me : ℕ) (g : Group)
    → IsSound s
    → find_group id s.groups ≡ some g
    → (g.owner_id == me) ≡ false
    → IsSound (remove_group_member id me s)
unfolding remove_group_member
leave-IsSound s id me g k found other = record {
  housed = λ a p e. ground (arith, has_member-remove a p id me s.members, k.housed a p);
  owned = λ a h e. ground (arith, has_member-remove a h.owner_id id me s.members, k.owned a h e);
}

disband-IsSound : (s : Tables) (id : ℕ) → IsSound s → IsSound (delete_group_row id s)
unfolding delete_group_row
disband-IsSound s id k = record {
  housed = λ a p e.
      ground
        (arith, has_member-cascade a p id s.members, find_group-delete a id s.groups, k.housed a p);
  owned = λ a h e. ground (
    arith,
    has_member-cascade a h.owner_id id s.members,
    find_group-delete a id s.groups,
    k.owned a h,
  );
}

abbrev pub Keeps : {A : Type 0} → Work A → Type 0
Keeps m = Triple IsSound m (λ r u. IsSound u)

find_rule : (s : Tables) (id : ℕ) → Leads s (find id) s (λ g. find_group id s.groups ≡ some g)
unfolding find
find_rule s id = query_one_rule s _ _

pub create_work-Keeps : (now : ℕ) (g : Group) → Keeps (create_work now g)
unfolding create_work save upsert_group
create_work-Keeps now g = fact_rule _ λ s k.
    then_rule s _ _ _ _ (exec_rule s (upsert_group g)) λ u p.
      consequence _ (save_membership_rule _ (membership g.id g.owner_id now))
        λ r t q. subst IsSound (sym q.0) (founded-IsSound s g now k)

pub delete_work-Keeps : (me id : ℕ) → Keeps (delete_work me id)
unfolding delete_work delete
delete_work-Keeps me id = fact_rule _ λ s k. then_rule s s _ _ _ (find_rule s id) λ g found.
    if_rule (not (g.owner_id == me)) _ _ (λ e. fail_rule not_owner)
      (λ e.
        consequence _ (exec_rule s (delete_group_row id))
          λ r t q. subst IsSound (sym q.0) (disband-IsSound s id k))

pub join_work-Keeps : (now me id : ℕ) → Keeps (join_work now me id)
unfolding join_work
join_work-Keeps now me id = fact_rule _ λ s k. then_rule s s _ _ _ (find_rule s id) λ g found.
    consequence _ (save_membership_rule s (membership id me now))
      λ r t q. subst IsSound (sym q.0) (enrolled-IsSound s _ k q.1)

pub leave_work-Keeps : (me id : ℕ) → Keeps (leave_work me id)
unfolding leave_work delete_membership
leave_work-Keeps me id = fact_rule _ λ s k. then_rule s s _ _ _ (find_rule s id) λ g found.
    if_rule (g.owner_id == me) _ _ (λ e. fail_rule owner_must_delete)
      (λ e.
        consequence _ (exec_rows_rule s _ (remove_group_member id me) not_member)
          λ r t q. subst IsSound (sym q.0) (leave-IsSound s id me g k found e))
