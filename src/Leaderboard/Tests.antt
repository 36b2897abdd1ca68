-- ===== src/Leaderboard/Tests.antt =====
-- A race board on which the lower time is better, and the theorems about leaderboards at it.
use mathlib.Core.List.{Permᴰ, reverse}
use mathlib.Core.List.Memᴰ.{head, tail}
use mathlib.Core.List.Permᴰ
use vfx.Base.{ℕ, ◌≡◌, refl, ap, false, some, List, [], ◌∷◌, get_elem?}
use vfx.Base.Int.{pos}
use vfx.Db.{ok, rw_tx, statement, query_one, query}
use vfx.Db.Rows.{select}
use vfx.Queue.{find}
use vfx.Leaderboard.{
  SortOrder, ascending, Leaderboard, beats, Entry, RankedEntry, Config, Defs, ahead, rank_in,
  find_entry, upsert_entry, number_from, top_entries, rank_of, top_ranks, clamp_radius, look_up,
  around_work, submit, submit_score, get_player_rank, list_ranks_around_player,
}
use vfx.Leaderboard.Best.{
  Submission, score_of, scores, apply, apply-IsBest, IsBest, candidates, apply-perm,
}
use vfx.Leaderboard.Ranks.{IsAlone}
use vfx.Leaderboard.Pages.{list_ranks_around_player-get_player_rank}

abbrev entry : ℕ → ℕ → ℕ → Entry
entry player time now = record {
  leaderboard_id = 1;
  player_id = player;
  score = pos time;
  achieved_at = now;
}

abbrev times : List Entry
times = entry 7 50 1 ∷ entry 8 40 2 ∷ entry 9 50 3 ∷ []

abbrev boards : Defs
boards = (1, ascending) ∷ []

abbrev limits : Config
limits = record { default_limit = 10; max_limit = 20; max_radius = 1 }

abbrev races : Leaderboard
races = record { id = 1; sort_order = ascending }

around-seven : list_ranks_around_player boards limits reverse 1 7 (pos 5) [] times ≡ (
  ok (
      record { rank = 1; entry = entry 8 40 2 }
      ∷ record { rank = 2; entry = entry 7 50 1 }
      ∷ record { rank = 3; entry = entry 9 50 3 }
      ∷ []),
  times,
)
unfolding list_ranks_around_player look_up find around_work rank_of top_ranks clamp_radius rank_in
    find_entry select top_entries number_from ahead beats rw_tx statement query_one query
around-seven = refl

submit-worse :
    (submit_score boards limits reverse 1 7 (pos 60) 9 (λ es. es) [] [] times).0
    ≡ ok (record { rank = 2; entry = entry 7 50 1 }, false)
unfolding submit_score look_up find submit upsert_entry rank_of rank_in find_entry select ahead
    beats rw_tx statement query_one query
submit-worse = refl

seven-IsAlone : IsAlone ascending (entry 7 50 1) times
unfolding ahead beats
seven-IsAlone x (head q) on h k = q
seven-IsAlone x (tail (head q)) on h k =
    absurd (cc (h, ap (λ z. ahead ascending z (entry 7 50 1)) q))
seven-IsAlone x (tail (tail (head q))) on h k =
    absurd (cc (k, ap (λ z. ahead ascending (entry 7 50 1) z) q))
seven-IsAlone x (tail (tail (tail m))) on h k = elim m [ ]

look_up-races : look_up boards 1 ≡ some races
unfolding look_up find
look_up-races = refl

find-seven : find_entry races.id 7 times ≡ some (entry 7 50 1)
unfolding find_entry select
find-seven = refl

list_ranks_around_player-get_player_rank_example :
    (self : RankedEntry) × (page : List RankedEntry) × (i : ℕ) × (get_player_rank boards limits
        reverse 1 7 [] times
      ≡ (ok self, times))
    × (list_ranks_around_player boards limits reverse 1 7 (pos 5) [] times ≡ (ok page, times))
    × (get_elem? page i ≡ some self)
list_ranks_around_player-get_player_rank_example =
    list_ranks_around_player-get_player_rank boards limits reverse (λ l. Permᴰ.reverse l) 1 7
      (pos 5) times races (entry 7 50 1) look_up-races find-seven seven-IsAlone

abbrev slow : Submission
slow = record { board = 1; player = 7; score = pos 60; now = 4 }

abbrev fast : Submission
fast = record { board = 1; player = 7; score = pos 30; now = 5 }

abbrev all_races : ℕ → SortOrder
all_races id = ascending

apply-IsBest_example :
    IsBest ascending
      (candidates (score_of 1 7 times) (scores 1 7 (slow ∷ fast ∷ [])))
      (score_of 1 7 (apply all_races (slow ∷ fast ∷ []) times))
apply-IsBest_example = apply-IsBest all_races (slow ∷ fast ∷ []) times 1 7

apply-perm_example :
    score_of 1 7 (apply all_races (slow ∷ fast ∷ []) times)
    ≡ score_of 1 7 (apply all_races (fast ∷ slow ∷ []) times)
apply-perm_example =
    apply-perm all_races (slow ∷ fast ∷ []) (fast ∷ slow ∷ []) times 1 7 (Permᴰ.swap refl refl)

-- Two entries that tie in score and time: the database counts none ahead of either of them, and the
-- pages list one of them second.
abbrev tied : List Entry
tied = entry 7 50 1 ∷ entry 8 50 1 ∷ []

rank-tied :
    (rank_in ascending (entry 7 50 1) tied ≡ 1)
    × (rank_in ascending (entry 8 50 1) tied ≡ 1)
    × (top_entries reverse races 1 1 tied ≡ record { rank = 2; entry = entry 7 50 1 } ∷ [])
unfolding rank_in top_entries number_from ahead beats
rank-tied = (refl, refl, refl)
