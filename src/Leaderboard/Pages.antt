-- ===== src/Leaderboard/Pages.antt =====
-- What internal/usecase/leaderboard/leaderboard.go answers about one player.
use mathlib.Core.List.{Memᴰ, Permᴰ}
use mathlib.Core.List.Memᴰ.{head, tail}
use vfx.Base.{
  eq_of_some, ℕ, ◌+◌, ◌-◌, ◌*◌, ◌≡◌, sym, ap, ◌∙◌, subst, some, List, [], ◌∷◌, get_elem?,
  if◌then◌else◌, ==_iff, arith, Bool-cases, inl, inr,
}
use vfx.Base.Int.{ℤ}
use vfx.Db.{ok}
use vfx.Db.Quiet.{quiet, rw_tx-run, bind-run}
use vfx.Db.Steps.{query-run, query_one-run}
use vfx.Leaderboard.{
  Leaderboard, Entry, RankedEntry, Config, Defs, is_entry, rank_in, ranked_in, find_entry,
  top_entries, rank_of, top_ranks, clamp_radius, look_up, around_work, get_player_rank,
  list_ranks_around_player, entry_not_found,
}
use vfx.Leaderboard.Ranks.{IsAlone, page-rank}

find_entry-mem :
    (board player : ℕ) (es : List Entry) (e : Entry)
    → find_entry board player es ≡ some e
    → Memᴰ e es × (e.leaderboard_id ≡ board)
unfolding find_entry
find_entry-mem board player [] e h = cc
find_entry-mem board player (x ∷ es) e h = elim (Bool-cases (is_entry board player x)) [
  | inl y ↦
      let same : x ≡ e =
        eq_of_some (subst (λ b. (if b then some x else find_entry board player es) ≡ some e) y h) in
      let on : x.leaderboard_id ≡ board = (==_iff x.leaderboard_id board).0 (ground (arith, y)) in
      (head (sym same), subst (λ (z : Entry). z.leaderboard_id ≡ board) same on)
  | inr y ↦
      let rest =
        find_entry-mem board player es e
          (subst (λ b. (if b then some x else find_entry board player es) ≡ some e) y h) in
      (tail rest.0, rest.1)
]

rank_of-run :
    (lb : Leaderboard) (player : ℕ) (es : List Entry) (e : Entry)
    → find_entry lb.id player es ≡ some e
    → rank_of lb player (quiet es)
      ≡ ok (record { rank = rank_in lb.sort_order e es; entry = e }, quiet es)
unfolding rank_of
rank_of-run lb player es e h =
    query_one-run es _ entry_not_found (record { rank = rank_in lb.sort_order e es; entry = e })
      (ap (ranked_in lb.sort_order es) h)

around_work-run :
    (scan : List Entry → List Entry) (lb : Leaderboard) (player radius : ℕ) (es : List Entry)
    (e : Entry)
    → find_entry lb.id player es ≡ some e
    → around_work scan lb player radius (quiet es)
      ≡ ok (
        top_entries scan lb (rank_in lb.sort_order e es - 1 - radius) (2 * radius + 1) es,
        quiet es,
      )
unfolding around_work top_ranks
around_work-run scan lb player radius es e h =
    bind-run (rank_of lb player)
      (λ (self : RankedEntry). top_ranks scan lb (self.rank - 1 - radius) (2 * radius + 1))
      (quiet es) (quiet es) (record { rank = rank_in lb.sort_order e es; entry = e })
      (rank_of-run lb player es e h)
    ∙ query-run es _

module _ (defs : Defs) (cfg : Config) (scan : List Entry → List Entry)
    (perm : (xs : List Entry) → Permᴰ (scan xs) xs) where
  -- When no statement fails, a player whose entry ties with no other on its board is listed by
  -- ListRanksAroundPlayer with the rank that GetPlayerRank answers, for any radius and whichever way
  -- the database reads the rows.
  pub list_ranks_around_player-get_player_rank :
      (board player : ℕ) (radius : ℤ) (es : List Entry) (lb : Leaderboard) (e : Entry)
      → look_up defs board ≡ some lb
      → find_entry lb.id player es ≡ some e
      → IsAlone lb.sort_order e es
      → (self : RankedEntry) × (page : List RankedEntry) × (i : ℕ) × (get_player_rank defs cfg scan
            board player [] es
          ≡ (ok self, es))
        × (list_ranks_around_player defs cfg scan board player radius [] es ≡ (ok page, es))
        × (get_elem? page i ≡ some self)
  unfolding get_player_rank list_ranks_around_player rank_in
  list_ranks_around_player-get_player_rank board player radius es lb e known found alone =
      let rank = rank_in lb.sort_order e es in
      let r = clamp_radius cfg radius in
      let m = find_entry-mem lb.id player es e found in
      (
        record { rank = rank; entry = e },
        top_entries scan lb (rank - 1 - r) (2 * r + 1) es,
        rank - 1 - (rank - 1 - r),
        rw (known, get_player_rank)
            (rw_tx-run es es (rank_of lb player) _ (rank_of-run lb player es e found)),
        rw (known, list_ranks_around_player)
            (rw_tx-run es es (around_work scan lb player r) _
              (around_work-run scan lb player r es e found)),
        page-rank scan perm lb e es (rank - 1 - r) (2 * r + 1) m.0 m.1 alone (omega arith)
            (omega arith),
      )
