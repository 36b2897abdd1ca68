-- ===== src/Leaderboard.antt =====
-- Leaderboards: internal/domain/leaderboard, internal/usecase/leaderboard/leaderboard.go and the repository
-- internal/infra/repository/leaderboard.go over schema/db/queries/leaderboard.sql. A board's id is a number;
-- the players' names are not modelled. Among entries that rank alike the database lists them as it
-- reads them: `scan` is the order in which it reads the rows. Offsets and limits fit in an int32, as the
-- RPC's do.
pub mod Best
pub mod Ranks
pub mod Pages
pub mod Tests
use vfx.Base.{
  ℕ, ◌+◌, ◌-◌, ◌*◌, Bool, true, false, ◌&&◌, ◌||◌, not, Option, none, some, List, [], ◌∷◌,
  if◌then◌else◌, ◌==◌, ltb, length, keep, take, drop, sort,
}
use vfx.Base.Int.{ℤ, pos, negsuc, pos_part, neg_part, ltb_ℤ}
use vfx.Db.{Tx, Reply, ok, err, domain, return, statement, query, query_one, rw_tx, ◌>>=◌}
use vfx.Db.Rows.{select}
use vfx.Queue.{find}

pub data LeaderboardError : Type 0 where
  leaderboard_not_found entry_not_found : LeaderboardError

pub data SortOrder : Type 0 where
  descending ascending : SortOrder

pub record Leaderboard : Type 0 where
  pub id : ℕ
  pub sort_order : SortOrder

-- Beats
unfoldable pub beats : SortOrder → ℤ → ℤ → Bool
beats ascending a b = ltb_ℤ a b
beats descending a b = ltb_ℤ b a

pub record Entry : Type 0 where
  pub leaderboard_id : ℕ
  pub player_id : ℕ
  pub score : ℤ
  pub achieved_at : ℕ

pub record RankedEntry : Type 0 where
  pub rank : ℕ
  pub entry : Entry

abbrev pub Work : Type 0 → Type 0
Work A = Tx LeaderboardError (List Entry) A

abbrev pub is_on : ℕ → Entry → Bool
is_on board e = e.leaderboard_id == board

abbrev pub is_entry : ℕ → ℕ → Entry → Bool
is_entry board player e = e.leaderboard_id == board && e.player_id == player

-- EXCLUDED.score > leaderboard_entries.score, and < in the ascending statement.
unfoldable pub replaces : SortOrder → ℤ → ℤ → Bool
replaces descending new old = ltb_ℤ old new
replaces ascending new old = ltb_ℤ new old

-- UpsertLeaderboardEntryDesc and UpsertLeaderboardEntryAsc: whether a row was affected, and the rows.
unfoldable pub upsert_entry : Leaderboard → ℕ → ℤ → ℕ → List Entry → Bool × List Entry
unfolding replaces
upsert_entry lb player score now [] = (
  true,
  record { leaderboard_id = lb.id; player_id = player; score = score; achieved_at = now } ∷ [],
)
upsert_entry lb player score now (e ∷ es) =
    let rest = upsert_entry lb player score now es in
    if is_entry lb.id player e
    then if replaces lb.sort_order score e.score
      then (true, record e { score = score; achieved_at = now } ∷ es)
      else (false, e ∷ es)
    else (rest.0, e ∷ rest.1)

abbrev pub same_score : ℤ → ℤ → Bool
same_score a b = pos_part a + neg_part b == pos_part b + neg_part a

-- A better score, or the same one reached earlier.
unfoldable pub ahead : SortOrder → Entry → Entry → Bool
unfolding beats
ahead order o e =
    beats order o.score e.score || (same_score o.score e.score && ltb o.achieved_at e.achieved_at)

-- RankOfDesc and RankOfAsc
unfoldable pub rank_in : SortOrder → Entry → List Entry → ℕ
unfolding ahead
rank_in order e es = 1 + length (keep (λ o. is_on e.leaderboard_id o && ahead order o e) es)

abbrev pub ranked_in : SortOrder → List Entry → Option Entry → Option RankedEntry
ranked_in order es none = none
ranked_in order es (some e) = some (record { rank = rank_in order e es; entry = e })

unfoldable pub find_entry : ℕ → ℕ → List Entry → Option Entry
unfolding select
find_entry board player es = select (is_entry board player) es

unfoldable pub number_from : ℕ → List Entry → List RankedEntry
number_from rank [] = []
number_from rank (e ∷ es) = record { rank = rank; entry = e } ∷ number_from (rank + 1) es

-- TopRanksDesc and TopRanksAsc, with the ranks that the repository adds.
unfoldable pub top_entries :
    (List Entry → List Entry) → Leaderboard → ℕ → ℕ → List Entry → List RankedEntry
unfolding ahead number_from
top_entries scan lb offset limit es =
    number_from (offset + 1)
      (take limit (drop offset (sort (ahead lb.sort_order) (keep (is_on lb.id) (scan es)))))

-- The repository.
unfoldable pub submit : Leaderboard → ℕ → ℤ → ℕ → Work Bool
submit lb player score now = statement (λ es. some (upsert_entry lb player score now es))

unfoldable pub rank_of : Leaderboard → ℕ → Work RankedEntry
rank_of lb player =
    query_one (λ es. ranked_in lb.sort_order es (find_entry lb.id player es)) entry_not_found

module _ (scan : List Entry → List Entry) where
  unfoldable pub top_ranks : Leaderboard → ℕ → ℕ → Work (List RankedEntry)
  top_ranks lb offset limit = query (λ es. top_entries scan lb offset limit es)

pub record Config : Type 0 where
  pub default_limit : ℕ
  pub max_limit : ℕ
  pub max_radius : ℕ

-- A limit or an offset of a request may be negative.
unfoldable pub clamp_limit : Config → ℤ → ℕ
clamp_limit cfg (negsuc n) = cfg.default_limit
clamp_limit cfg (pos n) =
    if n == 0 then cfg.default_limit else if ltb cfg.max_limit n then cfg.max_limit else n

unfoldable pub clamp_radius : Config → ℤ → ℕ
clamp_radius cfg radius =
    if ltb cfg.max_radius (pos_part radius) then cfg.max_radius else pos_part radius

abbrev pub Defs : Type 0
Defs = List (ℕ × SortOrder)

-- lookup
unfoldable pub look_up : Defs → ℕ → Option Leaderboard
look_up defs id = elim (find id defs) [
  | none ↦ none
  | some order ↦ some (record { id = id; sort_order = order })
]

unfoldable pub around_work :
    (List Entry → List Entry) → Leaderboard → ℕ → ℕ → Work (List RankedEntry)
around_work scan lb player radius = rank_of lb player >>= λ (self : RankedEntry).
    top_ranks scan lb (self.rank - 1 - radius) (2 * radius + 1)

-- The usecases: what is answered, and the rows.
module _ (defs : Defs) (cfg : Config) (scan : List Entry → List Entry) where
  abbrev pub Answer : Type 0 → Type 0
  Answer A = Reply LeaderboardError A × List Entry

  unfoldable pub get_player_rank : ℕ → ℕ → List Bool → List Entry → Answer RankedEntry
  get_player_rank board player faults es = elim (look_up defs board) [
    | none ↦ (err (domain leaderboard_not_found), es)
    | some lb ↦ rw_tx faults es (rank_of lb player)
  ]

  -- The rank is read in a transaction of its own, after what others commit in between.
  abbrev pub after_submit :
      Leaderboard
      → ℕ
      → (List Entry → List Entry)
      → List Bool
      → Answer Bool
      → Answer (RankedEntry × Bool)
  after_submit lb player others faults (err e, es) = (err e, es)
  after_submit lb player others faults (ok improved, es) =
      rw_tx faults (others es) (rank_of lb player >>= λ ranked. return (ranked, improved))

  unfoldable pub submit_score :
      ℕ
      → ℕ
      → ℤ
      → ℕ
      → (List Entry → List Entry)
      → List Bool
      → List Bool
      → List Entry
      → Answer (RankedEntry × Bool)
  submit_score board player score now others faults later es = elim (look_up defs board) [
    | none ↦ (err (domain leaderboard_not_found), es)
    | some lb ↦ after_submit lb player others later (rw_tx faults es (submit lb player score now))
  ]

  unfoldable pub list_ranks : ℕ → ℤ → ℤ → List Bool → List Entry → Answer (List RankedEntry)
  list_ranks board offset limit faults es = elim (look_up defs board) [
    | none ↦ (err (domain leaderboard_not_found), es)
    | some lb ↦ rw_tx faults es (top_ranks scan lb (pos_part offset) (clamp_limit cfg limit))
  ]

  unfoldable pub list_ranks_around_player :
      ℕ → ℕ → ℤ → List Bool → List Entry → Answer (List RankedEntry)
  list_ranks_around_player board player radius faults es = elim (look_up defs board) [
    | none ↦ (err (domain leaderboard_not_found), es)
    | some lb ↦ rw_tx faults es (around_work scan lb player (clamp_radius cfg radius))
  ]
