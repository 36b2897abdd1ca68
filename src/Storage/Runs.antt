-- ===== src/Storage/Runs.antt =====
-- Sequences of calls of the storage service, over any blob store.
use vfx.Base.{
  ℕ, ◌≤◌, ◌≡◌, refl, Bool, true, false, not, List, [], ◌∷◌, Option, none, some, arith, length,
  if◌then◌else◌,
}
use vfx.Base.Texts.{Text}
use vfx.Db.{Reply, ok, err}
use vfx.Db.Triple.{rw_tx_rule}
use vfx.Storage.{File, Work, StorageError, max_file_size, valid_filename, valid_size, new_file}
use vfx.Storage.Usecase.{
  BlobStore, Config, World, Stat, object, missing, unavailable, read_player_file, write_player_file,
  commit_player_file, delete_player_file, publish_title_file, delete_title_file, read_title_file,
  in_tx, signed, drop_blob, commit_file, after_stat, save_published, stat_published, after_upload,
}
use vfx.Storage.Quota.{
  IsWithin, HasRoom, Keeps, commit_work-Keeps, delete_work-Keeps, save_title-Keeps,
  delete_title-Keeps, get_file-Keeps, get_title-Keeps, check_quota-Keeps,
}

pub data Call : Type 0 where
  reads : ℕ → Text → Call
  writes : ℕ → Text → ℕ → Call
  commits : ℕ → ℕ → Text → Call
  deletes : ℕ → Text → Call
  publishes : ℕ → Text → List Text → List ℕ → Text → Call
  unpublishes read_titles : Text → Call

module _ {B : Type 0} (store : BlobStore B) (uuid_text : ℕ → Text) (cfg : Config) where
  -- Between the calls a client uploads over the URLs that it was given: `uploads` changes the blobs.
  unfoldable pub step : Call → List Bool → World B → World B
  step (reads o name) faults w = (read_player_file store uuid_text cfg o name faults w).1
  step (writes o name size) faults w =
      (write_player_file store uuid_text cfg o name size faults w).1
  step (commits now o name) faults w =
      (commit_player_file store uuid_text cfg now o name faults w).1
  step (deletes o name) faults w = (delete_player_file store uuid_text cfg o name faults w).1
  step (publishes now name tags bytes content) faults w =
      (publish_title_file store uuid_text cfg now name tags bytes content faults w).1
  step (unpublishes name) faults w = (delete_title_file store uuid_text cfg name faults w).1
  step (read_titles name) faults w = (read_title_file store uuid_text cfg name faults w).1

  unfoldable pub run : List ((B → B) × Call × List Bool) → World B → World B
  run [] w = w
  run ((uploads, c, faults) ∷ cs) w = run cs (step c faults (record w { blobs = uploads w.blobs }))

  abbrev Within : World B → Type 0
  Within w = IsWithin cfg w.tables

  in_tx-Within :
      {A : Type 0}
      → (faults : List Bool) → (w : World B) → (m : Work A) → Within w
      → Keeps cfg m
      → Within (in_tx store uuid_text cfg faults w m).1
  in_tx-Within faults w m k h = rw_tx_rule faults w.tables m k h

  signed-Within :
      {A : Type 0}
      → (url : Option Text) → (r : Reply StorageError A × World B) → Within r.1
      → Within (signed store uuid_text cfg url r).1
  signed-Within url (err e, w) k = k
  signed-Within none (ok a, w) k = k
  signed-Within (some u) (ok a, w) k = k

  drop_blob-Within :
      {A : Type 0}
      → (key : Text) → (r : Reply StorageError A × World B) → Within r.1
      → Within (drop_blob store uuid_text cfg key r).1
  drop_blob-Within key (err e, w) k = k
  drop_blob-Within key (ok a, w) k = k

  -- The branches that an invalid name or size cuts off.
  guard-Within :
      {A : Type 0}
      → (b : Bool) → (r t : Reply StorageError A × World B) → Within r.1
      → Within t.1
      → Within (if b then r else t).1
  guard-Within true r t h k = h
  guard-Within false r t h k = k

  new_file-size :
      (name : Text) (size : ℕ) (hash : Text) (now : ℕ) (f : File)
      → new_file name size hash now ≡ ok f
      → f.size ≤ max_file_size
  unfolding new_file valid_size
  new_file-size name size hash now f h = ground arith

  commit_file-Within :
      (o : ℕ) (faults : List Bool) (w : World B) (r : Reply StorageError File)
      → HasRoom cfg
      → ((f : File) → r ≡ ok f → f.size ≤ max_file_size)
      → Within w
      → Within (commit_file store uuid_text cfg o faults w r).1
  commit_file-Within o faults w (err e) room small k = k
  commit_file-Within o faults w (ok f) room small k =
      in_tx-Within faults w _ k (commit_work-Keeps cfg o f room (small f refl))

  after_stat-Within :
      (now o : ℕ) (name : Text) (faults : List Bool) (w : World B) (a : Stat)
      → HasRoom cfg
      → Within w
      → Within (after_stat store uuid_text cfg now o name faults w a).1
  after_stat-Within now o name faults w (object size hash) room k =
      commit_file-Within o faults w _ room (new_file-size name size hash now) k
  after_stat-Within now o name faults w missing room k = k
  after_stat-Within now o name faults w unavailable room k = k

  save_published-Within :
      (tags : List Text) (faults : List Bool) (w : World B) (r : Reply StorageError File)
      → Within w
      → Within (save_published store uuid_text cfg tags faults w r).1
  save_published-Within tags faults w (err e) k = k
  save_published-Within tags faults w (ok f) k =
      in_tx-Within faults w _ k (save_title-Keeps cfg f tags)

  stat_published-Within :
      (now : ℕ) (name : Text) (tags : List Text) (faults : List Bool) (w : World B) (a : Stat)
      → Within w
      → Within (stat_published store uuid_text cfg now name tags faults w a).1
  stat_published-Within now name tags faults w (object size hash) k =
      save_published-Within tags faults w _ k
  stat_published-Within now name tags faults w missing k = k
  stat_published-Within now name tags faults w unavailable k = k

  after_upload-Within :
      (now : ℕ) (name : Text) (tags : List Text) (faults : List Bool) (w : World B) (b : Option B)
      → Within w
      → Within (after_upload store uuid_text cfg now name tags faults w b).1
  after_upload-Within now name tags faults w none k = k
  after_upload-Within now name tags faults w (some b) k =
      stat_published-Within now name tags faults (record w { blobs = b }) _ k

  step-Within :
      (c : Call) (faults : List Bool) (w : World B)
      → HasRoom cfg
      → Within w
      → Within (step c faults w)
  unfolding step read_player_file write_player_file commit_player_file delete_player_file
      publish_title_file delete_title_file read_title_file
  step-Within (reads o name) faults w room k =
      guard-Within (not (valid_filename name)) _ _ k
        (signed-Within _ _ (in_tx-Within faults w _ k (get_file-Keeps cfg o name)))
  step-Within (writes o name size) faults w room k =
      guard-Within (not (valid_filename name)) _ _ k (
        guard-Within (not (valid_size size)) _ _ k
          (signed-Within _ _ (in_tx-Within faults w _ k (check_quota-Keeps cfg o name size))))
  step-Within (commits now o name) faults w room k =
      guard-Within (not (valid_filename name)) _ _ k
        (after_stat-Within now o name faults w _ room k)
  step-Within (deletes o name) faults w room k =
      guard-Within (not (valid_filename name)) _ _ k
        (drop_blob-Within _ _ (in_tx-Within faults w _ k (delete_work-Keeps cfg o name)))
  step-Within (publishes now name tags bytes content) faults w room k =
      guard-Within (not (valid_filename name)) _ _ k (
        guard-Within (not (valid_size (length bytes))) _ _ k
          (after_upload-Within now name tags faults w _ k))
  step-Within (unpublishes name) faults w room k =
      guard-Within (not (valid_filename name)) _ _ k
        (drop_blob-Within _ _ (in_tx-Within faults w _ k (delete_title-Keeps cfg name)))
  step-Within (read_titles name) faults w room k =
      guard-Within (not (valid_filename name)) _ _ k
        (signed-Within _ _ (in_tx-Within faults w _ k (get_title-Keeps cfg name)))

  -- Whatever calls are made, whatever is uploaded in between and whichever statements fail, every
  -- player's files stay within the byte limit and the file limit, if the byte limit and one more file
  -- fit in a uint64.
  pub run-IsWithin :
      (cs : List ((B → B) × Call × List Bool)) (w : World B)
      → HasRoom cfg
      → IsWithin cfg w.tables
      → IsWithin cfg (run cs w).tables
  unfolding run
  run-IsWithin [] w room k = k
  run-IsWithin ((uploads, c, faults) ∷ cs) w room k =
      run-IsWithin cs _ room (step-Within c faults (record w { blobs = uploads w.blobs }) room k)
