-- ===== src/Group.antt =====
-- Player groups: internal/domain/group, internal/usecase/group/group.go and the two repositories of
-- internal/infra/repository (group.go, membership.go) over schema/db/queries/group.sql. The rows' own
-- ids, the players' names and the foreign keys to players are not modelled.
pub mod Laws
pub mod Invariant
pub mod Runs
pub mod Tests
use vfx.Base.{
  ℕ, Bool, true, false, not, ◌&&◌, ◌||◌, Option, none, some, List, [], ◌∷◌, ◌++◌, if◌then◌else◌,
  ◌==◌, ltb, leb, any, keep, sort,
}
use vfx.Base.Texts.{Text, trim_space, rune_count}
use vfx.Db.{
  Tx, Reply, ok, err, domain, return, fail, statement, query, query_one, exec, exec_rows, rw_tx,
  ◌>>=◌, ◌>>◌,
}
use vfx.Db.Rows.{select, upsert, delete_where}

pub data GroupError : Type 0 where
  invalid_name not_found not_owner owner_must_delete not_member : GroupError

pub record Group : Type 0 where
  pub id : ℕ
  pub name : Text
  pub owner_id : ℕ
  pub founded_at : ℕ

pub record Membership : Type 0 where
  pub group_id : ℕ
  pub player_id : ℕ
  pub joined_at : ℕ

pub record Tables : Type 0 where
  pub groups : List Group
  pub members : List Membership

abbrev pub Work : Type 0 → Type 0
Work A = Tx GroupError Tables A

abbrev pub max_name_length : ℕ
max_name_length = 64

-- New
unfoldable pub new_group : ℕ → ℕ → Text → ℕ → Option Group
new_group id owner_id name now =
    let trimmed = trim_space name in
    if rune_count trimmed == 0 || ltb max_name_length (rune_count trimmed)
    then none
    else some (record { id = id; name = trimmed; owner_id = owner_id; founded_at = now })

abbrev pub has_id : ℕ → Group → Bool
has_id id g = g.id == id

abbrev pub links : ℕ → ℕ → Membership → Bool
links group_id player_id m = m.group_id == group_id && m.player_id == player_id

unfoldable pub find_group : ℕ → List Group → Option Group
unfolding select
find_group id gs = select (has_id id) gs

unfoldable pub has_member : ℕ → ℕ → List Membership → Bool
has_member group_id player_id ms = any (links group_id player_id) ms

-- UpsertGroup: ON CONFLICT (id) DO UPDATE SET name
unfoldable pub upsert_group : Group → Tables → Tables
unfolding upsert
upsert_group g s = record s {
  groups = upsert (has_id g.id) (λ old. record old { name = g.name }) g s.groups;
}

-- DeleteGroup: the memberships go with it, ON DELETE CASCADE
unfoldable pub delete_group_row : ℕ → Tables → Tables
unfolding delete_where
delete_group_row id s = record {
  groups = delete_where (has_id id) s.groups;
  members = delete_where (λ (m : Membership). m.group_id == id) s.members;
}

abbrev pub is_found : Option Group → Bool
is_found none = false
is_found (some g) = true

-- AddGroupMember: a foreign key wants the group, ON CONFLICT (group_id, player_id) DO NOTHING
unfoldable pub add_group_member : Membership → Tables → Option (Unit {0} × Tables)
unfolding find_group has_member
add_group_member m s =
    if has_member m.group_id m.player_id s.members
    then some (tt, s)
    else if is_found (find_group m.group_id s.groups)
    then some (tt, record s { members = m ∷ s.members })
    else none

unfoldable pub remove_group_member : ℕ → ℕ → Tables → Tables
unfolding delete_where
remove_group_member group_id player_id s = record s {
  members = delete_where (links group_id player_id) s.members;
}

-- The two repositories.
unfoldable pub find : ℕ → Work Group
find id = query_one (λ s. find_group id s.groups) not_found

unfoldable pub save : Group → Work (Unit {0})
save g = exec (upsert_group g)

unfoldable pub delete : ℕ → Work (Unit {0})
delete id = exec (delete_group_row id)

unfoldable pub save_membership : Membership → Work (Unit {0})
save_membership m = statement (add_group_member m)

unfoldable pub delete_membership : ℕ → ℕ → Work (Unit {0})
delete_membership group_id player_id =
    exec_rows (λ s. has_member group_id player_id s.members)
      (remove_group_member group_id player_id) not_member

unfoldable pub is_member : ℕ → ℕ → Work Bool
is_member group_id player_id = query (λ s. has_member group_id player_id s.members)

-- ORDER BY joined_at ASC; what a read of one group's members lists.
abbrev pub joined_before : Membership → Membership → Bool
joined_before m n = ltb m.joined_at n.joined_at

unfoldable pub list_group_members : ℕ → Work (List Membership)
list_group_members group_id =
    query (λ s. sort joined_before (keep (λ (m : Membership). m.group_id == group_id) s.members))

abbrev pub membership : ℕ → ℕ → ℕ → Membership
membership group_id player_id now = record {
  group_id = group_id;
  player_id = player_id;
  joined_at = now;
}

-- The usecases. `id` is the id that uuid.New gives a new group.
unfoldable pub create_work : ℕ → Group → Work (Unit {0})
create_work now g = save g >> save_membership (membership g.id g.owner_id now)

abbrev pub with_group : Group → Reply GroupError (Unit {0}) → Reply GroupError Group
with_group g (ok u) = ok g
with_group g (err e) = err e

unfoldable pub create_group :
    ℕ → ℕ → ℕ → Text → List Bool → Tables → Reply GroupError Group × Tables
create_group now id owner name faults s = elim (new_group id owner name now) [
  | none ↦ (err (domain invalid_name), s)
  | some g ↦ let r = rw_tx faults s (create_work now g) in (with_group g r.0, r.1)
]

unfoldable pub delete_work : ℕ → ℕ → Work (Unit {0})
delete_work me group_id = find group_id >>= λ (g : Group).
    if not (g.owner_id == me) then fail not_owner else delete group_id

unfoldable pub delete_group : ℕ → ℕ → List Bool → Tables → Reply GroupError (Unit {0}) × Tables
delete_group me group_id faults s = rw_tx faults s (delete_work me group_id)

unfoldable pub join_work : ℕ → ℕ → ℕ → Work (Unit {0})
join_work now me group_id =
    find group_id >>= λ (g : Group). save_membership (membership group_id me now)

unfoldable pub join_group : ℕ → ℕ → ℕ → List Bool → Tables → Reply GroupError (Unit {0}) × Tables
join_group now me group_id faults s = rw_tx faults s (join_work now me group_id)

unfoldable pub leave_work : ℕ → ℕ → Work (Unit {0})
leave_work me group_id = find group_id >>= λ (g : Group).
    if g.owner_id == me then fail owner_must_delete else delete_membership group_id me

unfoldable pub leave_group : ℕ → ℕ → List Bool → Tables → Reply GroupError (Unit {0}) × Tables
leave_group me group_id faults s = rw_tx faults s (leave_work me group_id)

-- RO: the same transaction, which writes nothing.
unfoldable pub list_members_work : ℕ → ℕ → Work (List Membership)
list_members_work me group_id = is_member group_id me >>= λ member.
    if not member then fail not_member else list_group_members group_id

unfoldable pub list_members :
    ℕ → ℕ → List Bool → Tables → Reply GroupError (List Membership) × Tables
list_members me group_id faults s = rw_tx faults s (list_members_work me group_id)
