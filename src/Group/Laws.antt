-- ===== src/Group/Laws.antt =====
-- The two tables of groups: what each write changes about each read.
use vfx.Base.{
  ℕ, ◌≡◌, refl, true, false, ◌&&◌, ◌||◌, List, [], ◌∷◌, Option, none, some, ◌==◌, arith,
  if◌then◌else◌, Bool-cases, inl, inr,
}
use vfx.Db.Rows.{select, upsert, delete_where}
use vfx.Group.{
  Group, Membership, Tables, has_id, links, find_group, has_member, add_group_member, is_found,
}

-- The group that a name is put on: the old one renamed, or the new one.
abbrev pub renamed : Group → Option Group → Group
renamed g none = g
renamed g (some old) = record old { name = g.name }

abbrev pub put : Group → List Group → List Group
put g gs = upsert (has_id g.id) (λ old. record old { name = g.name }) g gs

pub find_group-put :
    (id : ℕ) (g : Group) (gs : List Group)
    → find_group id (put g gs)
      ≡ (if g.id == id then some (renamed g (find_group id gs)) else find_group id gs)
unfolding find_group upsert select
find_group-put id g [] = ground arith
find_group-put id g (h ∷ gs) = ground (arith, find_group-put id g gs)

pub find_group-delete :
    (id k : ℕ) (gs : List Group)
    → find_group id (delete_where (has_id k) gs) ≡ (if k == id then none else find_group id gs)
unfolding find_group delete_where select
find_group-delete id k [] = ground arith
find_group-delete id k (g ∷ gs) = ground (arith, find_group-delete id k gs)

pub find_group-id : (id : ℕ) (gs : List Group) (g : Group) → find_group id gs ≡ some g → g.id ≡ id
unfolding find_group select
find_group-id id [] g h = cc
find_group-id id (x ∷ gs) g h = ground (arith, find_group-id id gs g)

pub has_member-cons :
    (a b : ℕ) (m : Membership) (ms : List Membership)
    → has_member a b (m ∷ ms)
      ≡ (if m.group_id == a && m.player_id == b then true else has_member a b ms)
unfolding has_member
has_member-cons a b m ms = refl

pub has_member-remove :
    (a b c d : ℕ) (ms : List Membership)
    → has_member a b (delete_where (links c d) ms)
      ≡ (if c == a && d == b then false else has_member a b ms)
unfolding has_member delete_where
has_member-remove a b c d [] = ground arith
has_member-remove a b c d (m ∷ ms) = ground (arith, has_member-remove a b c d ms)

pub has_member-cascade :
    (a b c : ℕ) (ms : List Membership)
    → has_member a b (delete_where (λ (m : Membership). m.group_id == c) ms)
      ≡ (if c == a then false else has_member a b ms)
unfolding has_member delete_where
has_member-cascade a b c [] = ground arith
has_member-cascade a b c (m ∷ ms) = ground (arith, has_member-cascade a b c ms)

-- The members with one more, who may be there already.
abbrev pub enrolled : Membership → Tables → Tables
enrolled m s = record s {
  members = if has_member m.group_id m.player_id s.members then s.members else m ∷ s.members;
}

pub has_member-enrolled :
    (a b : ℕ) (m : Membership) (s : Tables)
    → has_member a b (enrolled m s).members
      ≡ (if m.group_id == a && m.player_id == b then true else has_member a b s.members)
has_member-enrolled a b m s = ground (arith, has_member-cons a b m s.members)

pub add_group_member-eq :
    (m : Membership) (s : Tables)
    → add_group_member m s ≡ (
        if has_member m.group_id m.player_id s.members || is_found (find_group m.group_id s.groups)
        then some (tt, enrolled m s)
        else none)
unfolding add_group_member
add_group_member-eq m s = elim (Bool-cases (has_member m.group_id m.player_id s.members)) [
  | inl e ↦ rw (e, add_group_member) refl
  | inr e ↦ elim (Bool-cases (is_found (find_group m.group_id s.groups))) [
    | inl f ↦ rw (e, f, add_group_member) refl
    | inr f ↦ rw (e, f, add_group_member) refl
  ]
]
