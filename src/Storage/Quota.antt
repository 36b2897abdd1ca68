-- ===== src/Storage/Quota.antt =====
-- checkQuota of internal/usecase/storage/storage.go, and what the usecases keep of each owner's usage.
use vfx.Base.{
  ℕ, ◌+◌, ◌≤◌, ◌<◌, ◌≡◌, refl, sym, subst, true, List, Option, none, some, ◌==◌, arith, Bool-cases,
  inl, inr,
}
use vfx.Base.Texts.{Text}
use vfx.Db.{return, ◌>>=◌, ◌>>◌}
use vfx.Db.Triple.{Triple, return_rule, fail_rule, if_rule, fact_rule, consequence}
use vfx.Db.Steps.{Leads, then_rule, query_rule, query_one_rule, exec_rule}
use vfx.Storage.{
  File, PlayerRow, Tables, Work, quota_exceeded, max_file_size, find_player_file, total_size,
  file_count, upsert_player_file, usage, get_file, save_file, delete_file, get_title, save_title,
  delete_title,
}
use vfx.Storage.Usecase.{Config, check_quota, after_existing, within_quota, u64, commit_work}
use vfx.Storage.Laws.{
  size_of, one_if_new, total_size-upsert, file_count-upsert, size_of-le, total_size-delete-le,
  file_count-delete-le,
}

-- Every owner is within the limits.
pub record IsWithin (cfg : Config) (s : Tables) : Type 0 where
  pub bytes : (o : ℕ) → total_size o s.player_files ≤ cfg.max_bytes_per_player
  pub files : (o : ℕ) → file_count o s.player_files ≤ cfg.max_files_per_player

-- The byte limit and one more file fit in a uint64.
abbrev pub HasRoom : Config → Type 0
HasRoom cfg = cfg.max_bytes_per_player + max_file_size < u64

-- The uint64 arithmetic of checkQuota does not wrap around.
within_quota_lem :
    (cfg : Config) (size total count : ℕ) (existing : Option PlayerRow)
    → HasRoom cfg
    → size ≤ max_file_size
    → total ≤ cfg.max_bytes_per_player
    → size_of existing ≤ total
    → within_quota cfg size (after_existing existing (total, count)) ≡ true
    → (total + size ≤ cfg.max_bytes_per_player + size_of existing)
      × (count + one_if_new existing ≤ cfg.max_files_per_player)
within_quota_lem cfg size total count none room small under part h = ground arith
within_quota_lem cfg size total count (some r) room small under part h = ground arith

saved-IsWithin :
    (cfg : Config) (s : Tables) (o : ℕ) (f : File)
    → HasRoom cfg
    → f.size ≤ max_file_size
    → IsWithin cfg s
    → within_quota cfg f.size (
        after_existing
          (find_player_file o f.filename s.player_files)
          (total_size o s.player_files, file_count o s.player_files))
      ≡ true
    → IsWithin cfg (record s { player_files = upsert_player_file o f s.player_files })
saved-IsWithin cfg s o f room small k h =
    let rows = s.player_files in
    let existing = find_player_file o f.filename rows in
    let fits =
      within_quota_lem cfg f.size (total_size o rows) (file_count o rows) existing room small
        (k.bytes o) (size_of-le o f.filename rows) h in
    record {
      bytes = λ p. elim (Bool-cases (o == p)) [
        | inl e ↦ ground (arith, fits, total_size-upsert p o f rows, k.bytes p)
        | inr e ↦ ground (arith, total_size-upsert p o f rows, k.bytes p)
      ];
      files = λ p. elim (Bool-cases (o == p)) [
        | inl e ↦ ground (arith, fits, file_count-upsert p o f rows, k.files p)
        | inr e ↦ ground (arith, file_count-upsert p o f rows, k.files p)
      ];
    }

pub check_quota_rule :
    (cfg : Config) (s : Tables) (o : ℕ) (name : Text) (size : ℕ)
    → Leads s (check_quota cfg o name size) s (λ u.
      within_quota cfg size (
        after_existing
          (find_player_file o name s.player_files)
          (total_size o s.player_files, file_count o s.player_files))
      ≡ true)
unfolding check_quota usage
check_quota_rule cfg s o name size = then_rule s s _ _ _ (query_rule s _) λ totals p.
    then_rule s s _ _ _ (query_rule s _) λ existing q.
      if_rule (within_quota cfg size (after_existing existing totals)) _ _
        (λ h. return_rule tt λ t e. (e, rw (sym p, sym q) h)) (λ h. fail_rule quota_exceeded)

abbrev pub Keeps : {A : Type 0} → Config → Work A → Type 0
Keeps cfg m = Triple (IsWithin cfg) m (λ r u. IsWithin cfg u)

pub commit_work-Keeps :
    (cfg : Config) (o : ℕ) (f : File)
    → HasRoom cfg
    → f.size ≤ max_file_size
    → Keeps cfg (commit_work cfg o f)
unfolding commit_work save_file
commit_work-Keeps cfg o f room small = fact_rule _ λ s k.
    then_rule s s _ _ _ (check_quota_rule cfg s o f.filename f.size) λ u h.
      then_rule s _ _ _ _ (exec_rule s _) λ v p.
        return_rule f λ t e. subst (IsWithin cfg) (sym e) (saved-IsWithin cfg s o f room small k h)

get_file_rule : (s : Tables) (o : ℕ) (name : Text) → Leads s (get_file o name) s (λ f. Unit {0})
unfolding get_file
get_file_rule s o name =
    then_rule s s _ _ _ (query_one_rule s _ _) λ r p. return_rule r.file λ t e. (e, tt)

get_title_rule : (s : Tables) (name : Text) → Leads s (get_title name) s (λ f. Unit {0})
unfolding get_title
get_title_rule s name =
    then_rule s s _ _ _ (query_one_rule s _ _) λ r p. return_rule r.title λ t e. (e, tt)

pub delete_work-Keeps :
    (cfg : Config) (o : ℕ) (name : Text) → Keeps cfg (get_file o name >>= λ f. delete_file o name)
unfolding delete_file
delete_work-Keeps cfg o name = fact_rule _ λ s k.
    then_rule s s _ _ _ (get_file_rule s o name) λ f p. consequence _ (exec_rule s _) λ u t q.
      subst (IsWithin cfg) (sym q.0) (record {
        bytes = λ x. omega (arith, total_size-delete-le x o name s.player_files, k.bytes x);
        files = λ x. omega (arith, file_count-delete-le x o name s.player_files, k.files x);
      })

-- Title files are counted against nobody.
title-IsWithin :
    (cfg : Config) (s t : Tables)
    → s.player_files ≡ t.player_files
    → IsWithin cfg s
    → IsWithin cfg t
title-IsWithin cfg s t e k = record {
  bytes = λ x. subst (λ rows. total_size x rows ≤ cfg.max_bytes_per_player) e (k.bytes x);
  files = λ x. subst (λ rows. file_count x rows ≤ cfg.max_files_per_player) e (k.files x);
}

pub save_title-Keeps :
    (cfg : Config) (f : File) (tags : List Text) → Keeps cfg (save_title f tags >> return f)
unfolding save_title
save_title-Keeps cfg f tags = fact_rule _ λ s k.
    then_rule s _ _ _ _ (exec_rule s _)
      λ u p. return_rule f λ t e. subst (IsWithin cfg) (sym e) (title-IsWithin cfg s _ refl k)

pub delete_title-Keeps :
    (cfg : Config) (name : Text) → Keeps cfg (get_title name >>= λ f. delete_title name)
unfolding delete_title
delete_title-Keeps cfg name = fact_rule _ λ s k. then_rule s s _ _ _ (get_title_rule s name) λ f p.
    consequence _ (exec_rule s _)
      λ u t q. subst (IsWithin cfg) (sym q.0) (title-IsWithin cfg s _ refl k)

-- Work that only reads.
pub get_file-Keeps : (cfg : Config) (o : ℕ) (name : Text) → Keeps cfg (get_file o name)
get_file-Keeps cfg o name =
    fact_rule _
      λ s k. consequence _ (get_file_rule s o name) λ f t q. subst (IsWithin cfg) (sym q.0) k

pub get_title-Keeps : (cfg : Config) (name : Text) → Keeps cfg (get_title name)
get_title-Keeps cfg name =
    fact_rule _
      λ s k. consequence _ (get_title_rule s name) λ f t q. subst (IsWithin cfg) (sym q.0) k

pub check_quota-Keeps :
    (cfg : Config) (o : ℕ) (name : Text) (size : ℕ) → Keeps cfg (check_quota cfg o name size)
check_quota-Keeps cfg o name size = fact_rule _ λ s k.
    consequence _ (check_quota_rule cfg s o name size) λ f t q. subst (IsWithin cfg) (sym q.0) k
