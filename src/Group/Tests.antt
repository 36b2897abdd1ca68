-- ===== src/Group/Tests.antt =====
-- A guild and its members, and the theorems about groups at them.
use vfx.Base.{ℕ, ◌≡◌, refl, Bool, List, [], ◌∷◌, none, some, if◌then◌else◌, ◌==◌, false}
use vfx.Base.Texts.{ascii, trim_space, is_space}
use vfx.Db.{ok, err, domain, rw_tx, statement, exec, query_one}
use vfx.Db.Rows.{select, upsert}
use vfx.Group.{
  Group, Tables, find_group, has_member, delete_group, new_group, create_group, create_work,
  join_group, join_work, leave_group, leave_work, save, save_membership, find, upsert_group,
  add_group_member, not_owner,
}
use vfx.Group.Invariant.{IsSound, no_groups, no_groups-IsSound}
use vfx.Group.Runs.{Call, creates, leaves, joins, step, run, run-IsSound, delete_group_owner}

-- " Clan "
abbrev clan : List ℕ
clan = 0x20 ∷ b'C' ∷ b'l' ∷ b'a' ∷ b'n' ∷ 0x20 ∷ []

abbrev season : List (Call × List Bool)
season = (creates 1 50 7 (ascii clan), []) ∷ (joins 2 8 50, []) ∷ (leaves 7 50, []) ∷ []

abbrev guild : Group
guild = record {
  id = 50;
  name = ascii (b'C' ∷ b'l' ∷ b'a' ∷ b'n' ∷ []);
  owner_id = 7;
  founded_at = 1;
}

abbrev after_season : Tables
after_season = record {
  groups = guild ∷ [];
  members =
      record { group_id = 50; player_id = 8; joined_at = 2 }
      ∷ record { group_id = 50; player_id = 7; joined_at = 1 }
      ∷ [];
}

run-season : run season no_groups ≡ after_season
unfolding run step create_group new_group trim_space is_space create_work save save_membership
    upsert_group add_group_member join_group join_work leave_group leave_work find rw_tx statement
    exec query_one find_group has_member upsert select
run-season = refl

run-IsSound_example : IsSound (run season no_groups)
run-IsSound_example = run-IsSound season no_groups no_groups-IsSound

find-guild : find_group 50 after_season.groups ≡ some guild
unfolding find_group select
find-guild = refl

delete_group_owner_example :
    (guild.owner_id ≡ 7
      → ((delete_group 7 50 [] after_season).0 ≡ ok tt)
        × ((other : ℕ)
            → find_group other (delete_group 7 50 [] after_season).1.groups
              ≡ (if 50 == other then none else find_group other after_season.groups))
        × ((other p : ℕ)
            → has_member other p (delete_group 7 50 [] after_season).1.members
              ≡ (if 50 == other then false else has_member other p after_season.members)))
    × ((guild.owner_id ≡ 7 → ⊥)
        → delete_group 7 50 [] after_season ≡ (err (domain not_owner), after_season))
delete_group_owner_example = delete_group_owner 7 50 after_season guild find-guild
