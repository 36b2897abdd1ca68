-- ===== src/Storage/Usecase.antt =====
-- internal/usecase/storage/storage.go. A world is the tables and the state of the blob store. Sizes are
-- uint64, whose arithmetic wraps around.
use vfx.Base.{
  ℕ, ◌+◌, ◌-◌, ◌%◌, ◌^◌, Bool, not, ◌||◌, Option, none, some, List, [], ◌∷◌, if◌then◌else◌, ltb,
  length,
}
use vfx.Base.Texts.{Text}
use vfx.Base.Paths.{path_join}
use vfx.Db.{Reply, ok, err, domain, return, fail, query, rw_tx, ◌>>=◌, ◌>>◌}
use vfx.Storage.{
  StorageError, invalid_filename, file_too_large, quota_exceeded, upload_incomplete, blob_store,
  File, PlayerRow, Tables, Work, valid_filename, valid_size, new_file, find_player_file, get_file,
  save_file, delete_file, usage, get_title, save_title, delete_title,
}

-- What BlobStore.Stat answers.
pub data Stat : Type 0 where
  object : ℕ → Text → Stat
  missing unavailable : Stat

pub record BlobStore (B : Type 0) : Type 0 where
  pub sign_upload : Text → ℕ → B → Option Text
  pub sign_download : Text → ℕ → B → Option Text
  pub upload : Text → List ℕ → Text → B → Option B
  pub stat : Text → B → Stat
  pub remove : Text → B → B

pub record Config : Type 0 where
  pub player_data_prefix : Text
  pub title_prefix : Text
  pub url_ttl : ℕ
  pub max_bytes_per_player : ℕ
  pub max_files_per_player : ℕ

pub record World (B : Type 0) : Type 0 where
  pub tables : Tables
  pub blobs : B

abbrev pub u64 : ℕ
u64 = 2 ^ 64

-- The total without the file that is overwritten, and the count with the file that is new.
abbrev pub after_existing : Option PlayerRow → ℕ × ℕ → ℕ × ℕ
after_existing none (total, count) = (total, count + 1)
after_existing (some r) (total, count) = ((total + u64 - r.file.size) % u64, count)

abbrev pub within_quota : Config → ℕ → ℕ × ℕ → Bool
within_quota cfg size (total, count) =
    not (ltb cfg.max_bytes_per_player ((total + size) % u64) || ltb cfg.max_files_per_player count)

unfoldable pub check_quota : Config → ℕ → Text → ℕ → Work (Unit {0})
check_quota cfg owner_id filename size = usage owner_id >>= λ totals.
    query (λ s. find_player_file owner_id filename s.player_files) >>= λ existing.
    if within_quota cfg size (after_existing existing totals)
    then return tt
    else fail quota_exceeded

unfoldable pub commit_work : Config → ℕ → File → Work File
commit_work cfg owner_id f =
    check_quota cfg owner_id f.filename f.size >> (save_file owner_id f >> return f)

-- `uuid_text` is String of a uuid.
module _ {B : Type 0} (store : BlobStore B) (uuid_text : ℕ → Text) (cfg : Config) where
  unfoldable pub player_key : ℕ → Text → Text
  player_key owner_id filename =
      path_join (cfg.player_data_prefix ∷ uuid_text owner_id ∷ filename ∷ [])

  unfoldable pub title_key : Text → Text
  title_key filename = path_join (cfg.title_prefix ∷ filename ∷ [])

  abbrev pub Answer : Type 0 → Type 0
  Answer A = Reply StorageError A × World B

  -- A transaction on the tables of the world.
  abbrev pub in_tx : {A : Type 0} → List Bool → World B → Work A → Answer A
  in_tx faults w m = let r = rw_tx faults w.tables m in (r.0, record w { tables = r.1 })

  -- The URL that follows when the transaction has succeeded.
  abbrev pub signed : {A : Type 0} → Option Text → Answer A → Answer (A × Text)
  signed url (err e, w) = (err e, w)
  signed none (ok a, w) = (err (domain blob_store), w)
  signed (some url) (ok a, w) = (ok (a, url), w)

  unfoldable pub read_player_file : ℕ → Text → List Bool → World B → Answer (File × Text)
  read_player_file owner_id filename faults w =
      if not (valid_filename filename)
      then (err (domain invalid_filename), w)
      else signed (store.sign_download (player_key owner_id filename) cfg.url_ttl w.blobs)
          (in_tx faults w (get_file owner_id filename))

  unfoldable pub write_player_file : ℕ → Text → ℕ → List Bool → World B → Answer (Unit {0} × Text)
  write_player_file owner_id filename size faults w =
      if not (valid_filename filename)
      then (err (domain invalid_filename), w)
      else if not (valid_size size)
      then (err (domain file_too_large), w)
      else signed (store.sign_upload (player_key owner_id filename) cfg.url_ttl w.blobs)
          (in_tx faults w (check_quota cfg owner_id filename size))

  abbrev pub commit_file : ℕ → List Bool → World B → Reply StorageError File → Answer File
  commit_file owner_id faults w (err e) = (err e, w)
  commit_file owner_id faults w (ok f) = in_tx faults w (commit_work cfg owner_id f)

  abbrev pub after_stat : ℕ → ℕ → Text → List Bool → World B → Stat → Answer File
  after_stat now owner_id filename faults w (object size hash) =
      commit_file owner_id faults w (new_file filename size hash now)
  after_stat now owner_id filename faults w missing = (err (domain upload_incomplete), w)
  after_stat now owner_id filename faults w unavailable = (err (domain blob_store), w)

  unfoldable pub commit_player_file : ℕ → ℕ → Text → List Bool → World B → Answer File
  commit_player_file now owner_id filename faults w =
      if not (valid_filename filename)
      then (err (domain invalid_filename), w)
      else after_stat now owner_id filename faults w
          (store.stat (player_key owner_id filename) w.blobs)

  -- The blob goes once the row is gone; an error of the blob store is dropped.
  abbrev pub drop_blob : {A : Type 0} → Text → Answer A → Answer A
  drop_blob key (err e, w) = (err e, w)
  drop_blob key (ok a, w) = (ok a, record w { blobs = store.remove key w.blobs })

  unfoldable pub delete_player_file : ℕ → Text → List Bool → World B → Answer (Unit {0})
  delete_player_file owner_id filename faults w =
      if not (valid_filename filename)
      then (err (domain invalid_filename), w)
      else drop_blob (player_key owner_id filename)
          (in_tx faults w (get_file owner_id filename >>= λ f. delete_file owner_id filename))

  abbrev pub save_published :
      List Text → List Bool → World B → Reply StorageError File → Answer File
  save_published tags faults w (err e) = (err e, w)
  save_published tags faults w (ok f) = in_tx faults w (save_title f tags >> return f)

  abbrev pub stat_published : ℕ → Text → List Text → List Bool → World B → Stat → Answer File
  stat_published now filename tags faults w (object size hash) =
      save_published tags faults w (new_file filename size hash now)
  stat_published now filename tags faults w missing = (err (domain blob_store), w)
  stat_published now filename tags faults w unavailable = (err (domain blob_store), w)

  abbrev pub after_upload : ℕ → Text → List Text → List Bool → World B → Option B → Answer File
  after_upload now filename tags faults w none = (err (domain blob_store), w)
  after_upload now filename tags faults w (some b) =
      stat_published now filename tags faults (record w { blobs = b })
        (store.stat (title_key filename) b)

  unfoldable pub publish_title_file :
      ℕ → Text → List Text → List ℕ → Text → List Bool → World B → Answer File
  publish_title_file now filename tags bytes content_type faults w =
      if not (valid_filename filename)
      then (err (domain invalid_filename), w)
      else if not (valid_size (length bytes))
      then (err (domain file_too_large), w)
      else after_upload now filename tags faults w
          (store.upload (title_key filename) bytes content_type w.blobs)

  unfoldable pub delete_title_file : Text → List Bool → World B → Answer (Unit {0})
  delete_title_file filename faults w =
      if not (valid_filename filename)
      then (err (domain invalid_filename), w)
      else drop_blob (title_key filename)
          (in_tx faults w (get_title filename >>= λ f. delete_title filename))

  unfoldable pub read_title_file : Text → List Bool → World B → Answer (File × Text)
  read_title_file filename faults w =
      if not (valid_filename filename)
      then (err (domain invalid_filename), w)
      else signed (store.sign_download (title_key filename) cfg.url_ttl w.blobs)
          (in_tx faults w (get_title filename))
