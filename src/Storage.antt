-- ===== src/Storage.antt =====
-- File storage: internal/domain/storage/file.go, internal/usecase/storage/storage.go and
-- internal/infra/repository/storage.go over schema/db/queries/storage.sql. The blob store is outside, as
-- an interface over a state `B`. The rows' own ids and the listings, whose order is the database's
-- collation, are not modelled.
pub mod Usecase
pub mod Laws
pub mod Quota
pub mod Runs
pub mod Tests
use vfx.Base.{
  ℕ, ◌+◌, ◌-◌, ◌*◌, ◌%◌, ◌^◌, Bool, true, false, not, ◌&&◌, ◌||◌, Option, none, some, List, [], ◌∷◌,
  if◌then◌else◌, ◌==◌, ltb, any, length,
}
use vfx.Base.Texts.{
  Text, Rune, point, rune_eq, text_eq, trim_space, rune_count, valid_string, is_control,
}
use vfx.Base.Paths.{path_join, is_slash, dot, dot_dot, is_empty}
use vfx.Db.{Tx, Reply, ok, err, domain, return, fail, query, query_one, exec, rw_tx, ◌>>=◌, ◌>>◌}
use vfx.Db.Rows.{select, upsert, delete_where}

-- `blob_store` stands for an error of the blob store that is passed on.
pub data StorageError : Type 0 where
  invalid_filename file_too_large file_not_found quota_exceeded upload_incomplete blob_store :
      StorageError

pub record File : Type 0 where
  pub filename : Text
  pub size : ℕ
  pub hash : Text
  pub modified_at : ℕ

abbrev pub max_filename_length : ℕ
max_filename_length = 256

-- 25 << 20
abbrev pub max_file_size : ℕ
max_file_size = 26214400

abbrev pub is_backslash : Rune → Bool
is_backslash r = rune_eq r (point 0x5c)

abbrev pub is_banned : Rune → Bool
is_banned r = is_slash r || is_backslash r || is_control r

unfoldable pub valid_filename : Text → Bool
valid_filename name =
    if is_empty name || ltb max_filename_length (rune_count name)
    then false
    else if not (valid_string name)
    then false
    else if text_eq name dot || text_eq name dot_dot
    then false
    else if not (text_eq (trim_space name) name)
    then false
    else not (any is_banned name)

unfoldable pub valid_size : ℕ → Bool
valid_size size = not (ltb max_file_size size)

unfoldable pub new_file : Text → ℕ → Text → ℕ → Reply StorageError File
new_file filename size hash modified_at =
    if not (valid_filename filename)
    then err (domain invalid_filename)
    else if not (valid_size size)
    then err (domain file_too_large)
    else ok (record { filename = filename; size = size; hash = hash; modified_at = modified_at })

pub record PlayerRow : Type 0 where
  pub owner_id : ℕ
  pub file : File

pub record TitleRow : Type 0 where
  pub title : File
  pub tags : List Text

pub record Tables : Type 0 where
  pub player_files : List PlayerRow
  pub title_files : List TitleRow

abbrev pub Work : Type 0 → Type 0
Work A = Tx StorageError Tables A

abbrev pub is_row : ℕ → Text → PlayerRow → Bool
is_row owner_id filename r = r.owner_id == owner_id && text_eq r.file.filename filename

abbrev pub is_title : Text → TitleRow → Bool
is_title filename r = text_eq r.title.filename filename

-- The columns that an upsert overwrites.
abbrev pub overwrite : File → File → File
overwrite new old = record old { size = new.size; hash = new.hash; modified_at = new.modified_at }

unfoldable pub upsert_player_file : ℕ → File → List PlayerRow → List PlayerRow
unfolding upsert
upsert_player_file owner_id f rows =
    upsert (is_row owner_id f.filename) (λ r. record r { file = overwrite f r.file })
      (record { owner_id = owner_id; file = f }) rows

unfoldable pub find_player_file : ℕ → Text → List PlayerRow → Option PlayerRow
unfolding select
find_player_file owner_id filename rows = select (is_row owner_id filename) rows

-- PlayerStorageUsage: SUM(size) and COUNT(*)
unfoldable pub total_size : ℕ → List PlayerRow → ℕ
total_size owner_id [] = 0
total_size owner_id (r ∷ rs) =
    let rest = total_size owner_id rs in if r.owner_id == owner_id then r.file.size + rest else rest

unfoldable pub file_count : ℕ → List PlayerRow → ℕ
file_count owner_id [] = 0
file_count owner_id (r ∷ rs) =
    let rest = file_count owner_id rs in if r.owner_id == owner_id then 1 + rest else rest

-- The repositories.
unfoldable pub get_file : ℕ → Text → Work File
get_file owner_id filename =
    query_one (λ s. find_player_file owner_id filename s.player_files) file_not_found
    >>= λ (r : PlayerRow). return r.file

unfoldable pub save_file : ℕ → File → Work (Unit {0})
save_file owner_id f =
    exec (λ s. record s { player_files = upsert_player_file owner_id f s.player_files })

unfoldable pub delete_file : ℕ → Text → Work (Unit {0})
delete_file owner_id filename =
    exec (λ s. record s { player_files = delete_where (is_row owner_id filename) s.player_files })

unfoldable pub usage : ℕ → Work (ℕ × ℕ)
usage owner_id =
    query (λ s. (total_size owner_id s.player_files, file_count owner_id s.player_files))

unfoldable pub get_title : Text → Work File
get_title filename =
    query_one (λ s. select (is_title filename) s.title_files) file_not_found >>= λ (r : TitleRow).
    return r.title

unfoldable pub save_title : File → List Text → Work (Unit {0})
save_title f tags = exec (λ s. record s {
  title_files =
      upsert (is_title f.filename) (λ r. record r { title = overwrite f r.title; tags = tags })
        (record { title = f; tags = tags }) s.title_files;
})

unfoldable pub delete_title : Text → Work (Unit {0})
delete_title filename =
    exec (λ s. record s { title_files = delete_where (is_title filename) s.title_files })
