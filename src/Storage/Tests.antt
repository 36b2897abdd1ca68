-- ===== src/Storage/Tests.antt =====
-- A player's files under small limits, and the theorems about storage at them.
use vfx.Base.{ℕ, ◌≡◌, refl, [], ◌∷◌, some, arith, ◌+◌}
use vfx.Base.Texts.{Text, ascii, trim_space, is_space, is_control, text_eq}
use vfx.Base.Paths.{path_join, clean}
use vfx.Db.{rw_tx, statement, exec, query}
use vfx.Storage.{
  valid_filename, valid_size, new_file, upsert_player_file, find_player_file, total_size,
  file_count, save_file, usage,
}
use vfx.Storage.Usecase.{
  BlobStore, object, Config, World, check_quota, commit_work, commit_player_file, player_key,
}
use vfx.Storage.Quota.{IsWithin}
use vfx.Storage.Runs.{commits, step, run, run-IsWithin}

-- A store whose objects all have one size, which an upload sets.
abbrev one_size : BlobStore ℕ
one_size = record {
  sign_upload = λ key ttl b. some key;
  sign_download = λ key ttl b. some key;
  upload = λ key bytes content b. some b;
  stat = λ key b. object b [];
  remove = λ key b. b;
}

abbrev id_text : ℕ → Text
id_text id = ascii ((b'0' + id) ∷ [])

abbrev limits : Config
limits = record {
  player_data_prefix = ascii (b'p' ∷ b'/' ∷ []);
  title_prefix = ascii (b't' ∷ []);
  url_ttl = 60;
  max_bytes_per_player = 100;
  max_files_per_player = 2;
}

abbrev save_slot : Text
save_slot = ascii (b's' ∷ b'1' ∷ [])

abbrev empty_world : World ℕ
empty_world = record { tables = record { player_files = []; title_files = [] }; blobs = 0 }

abbrev first_save : World ℕ
first_save = record {
  tables = record {
    player_files =
        record {
          owner_id = 5;
          file = record { filename = save_slot; size = 60; hash = []; modified_at = 1 };
        }
        ∷ [];
    title_files = [];
  };
  blobs = 60;
}

run-save :
    run one_size id_text limits (((λ b. 60), commits 1 5 save_slot, []) ∷ []) empty_world
    ≡ first_save
unfolding run step commit_player_file valid_filename valid_size trim_space is_space is_control
    text_eq new_file commit_work check_quota usage save_file rw_tx statement exec query total_size
    file_count find_player_file upsert_player_file
run-save = refl

key-save :
    player_key one_size id_text limits 5 save_slot
    ≡ ascii (b'p' ∷ b'/' ∷ b'5' ∷ b'/' ∷ b's' ∷ b'1' ∷ [])
unfolding player_key path_join clean text_eq
key-save = refl

empty-IsWithin : IsWithin limits empty_world.tables
unfolding total_size file_count
empty-IsWithin = record { bytes = λ o. omega arith; files = λ o. omega arith }

run-IsWithin_example :
    IsWithin limits
      (run one_size id_text limits
        (((λ b. 60), commits 1 5 save_slot, []) ∷ ((λ b. 90), commits 2 5 save_slot, []) ∷ [])
        empty_world).tables
run-IsWithin_example =
    run-IsWithin one_size id_text limits
      (((λ b. 60), commits 1 5 save_slot, []) ∷ ((λ b. 90), commits 2 5 save_slot, []) ∷ [])
      empty_world (omega arith) empty-IsWithin
