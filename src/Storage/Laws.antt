-- ===== src/Storage/Laws.antt =====
-- The table of player files: what a write changes about an owner's usage.
use vfx.Base.{ℕ, ◌+◌, ◌≤◌, ◌≡◌, List, [], ◌∷◌, Option, none, some, ◌==◌, arith, if◌then◌else◌}
use vfx.Base.Texts.{Text}
use vfx.Db.Rows.{select, upsert, delete_where}
use vfx.Storage.{
  File, PlayerRow, is_row, upsert_player_file, find_player_file, total_size, file_count,
}

abbrev pub size_of : Option PlayerRow → ℕ
size_of none = 0
size_of (some r) = r.file.size

abbrev pub one_if_new : Option PlayerRow → ℕ
one_if_new none = 1
one_if_new (some r) = 0

pub total_size-upsert :
    (o k : ℕ) (f : File) (rows : List PlayerRow)
    → total_size o (upsert_player_file k f rows)
        + (if k == o then size_of (find_player_file k f.filename rows) else 0)
      ≡ total_size o rows + (if k == o then f.size else 0)
unfolding total_size upsert_player_file find_player_file upsert select
total_size-upsert o k f [] = ground arith
total_size-upsert o k f (r ∷ rows) = ground (arith, total_size-upsert o k f rows)

pub file_count-upsert :
    (o k : ℕ) (f : File) (rows : List PlayerRow)
    → file_count o (upsert_player_file k f rows)
      ≡ file_count o rows + (if k == o then one_if_new (find_player_file k f.filename rows) else 0)
unfolding file_count upsert_player_file find_player_file upsert select
file_count-upsert o k f [] = ground arith
file_count-upsert o k f (r ∷ rows) = ground (arith, file_count-upsert o k f rows)

pub size_of-le :
    (o : ℕ) (name : Text) (rows : List PlayerRow)
    → size_of (find_player_file o name rows) ≤ total_size o rows
unfolding total_size find_player_file select
size_of-le o name [] = ground arith
size_of-le o name (r ∷ rows) = ground (arith, size_of-le o name rows)

pub total_size-delete-le :
    (o k : ℕ) (name : Text) (rows : List PlayerRow)
    → total_size o (delete_where (is_row k name) rows) ≤ total_size o rows
unfolding total_size delete_where
total_size-delete-le o k name [] = ground arith
total_size-delete-le o k name (r ∷ rows) = ground (arith, total_size-delete-le o k name rows)

pub file_count-delete-le :
    (o k : ℕ) (name : Text) (rows : List PlayerRow)
    → file_count o (delete_where (is_row k name) rows) ≤ file_count o rows
unfolding file_count delete_where
file_count-delete-le o k name [] = ground arith
file_count-delete-le o k name (r ∷ rows) = ground (arith, file_count-delete-le o k name rows)
