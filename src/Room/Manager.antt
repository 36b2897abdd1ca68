-- ===== src/Room/Manager.antt =====
-- internal/usecase/room/manager.go: calls of FindOrCreate and the goroutines of the games, which interleave
-- between the sections that hold the lock. The plugin factory is outside: Create and Init succeed or
-- fail in any order, and a game's Run returns at any time. A match is named by its plugin, which
-- are numbered as they are created.
use vfx.Base.{ℕ, ◌+◌, ◌-◌, Option, none, some, List, [], ◌∷◌, ◌++◌, if◌then◌else◌, ◌==◌, length}
use vfx.Queue.{find, store, delete}

pub record Manager : Type 0 where
  pub matches : List (ℕ × ℕ)
  pub active_matches : ℕ
  pub next_plugin : ℕ
  pub closed : List ℕ

-- Where a call of FindOrCreate or the goroutine of a game is.
pub data Thread : Type 0 where
  looking creating : ℕ → Thread
  initialising inserting : ℕ → ℕ → Thread
  discarding : ℕ → Option ℕ → Thread
  answered : Option ℕ → Thread
  playing ended : ℕ → ℕ → Thread
  leaving : Thread

abbrev pub new_manager : Manager
new_manager = record { matches = []; active_matches = 0; next_plugin = 0; closed = [] }

unfoldable pub get : ℕ → Manager → Option ℕ
get id m = find id m.matches

unfoldable pub count : Manager → ℕ
count m = length m.matches

-- The first section of FindOrCreate that holds the lock.
unfoldable pub look : ℕ → Manager → Thread
look id m = elim (find id m.matches) [ some match ↦ answered (some match) | none ↦ creating id ]

abbrev pub close_plugin : ℕ → Manager → Manager
close_plugin plugin m = record m { closed = plugin ∷ m.closed }

-- The second one: a match that came first is kept, or the new one is stored and its goroutine started.
unfoldable pub insert : ℕ → ℕ → Manager → List Thread × Manager
insert id match m = elim (find id m.matches) [
  | some existing ↦ (discarding match (some existing) ∷ [], m)
  | none ↦ (
    answered (some match) ∷ playing id match ∷ [],
    record m { matches = store id match m.matches; active_matches = m.active_matches + 1 },
  )
]

unfoldable pub cleanup : ℕ → ℕ → Manager → Manager
cleanup id self m = elim (find id m.matches) [
  | none ↦ m
  | some match ↦ if match == self then record m { matches = delete id m.matches } else m
]

-- What one thread does next: the threads that it becomes, and the manager after it.
pub data Move : Thread → Manager → List Thread → Manager → Type 0 where
  looks : (id : ℕ) (m : Manager) → Move (looking id) m (look id m ∷ []) m
  create_fails : (id : ℕ) (m : Manager) → Move (creating id) m (answered none ∷ []) m
  creates :
      (id : ℕ) (m : Manager)
      → Move
          (creating id)
          m
          (initialising id m.next_plugin ∷ [])
          (record m { next_plugin = m.next_plugin + 1 })
  init_fails :
      (id plugin : ℕ) (m : Manager)
      → Move (initialising id plugin) m (discarding plugin none ∷ []) m
  inits :
      (id plugin : ℕ) (m : Manager) → Move (initialising id plugin) m (inserting id plugin ∷ []) m
  inserts :
      (id plugin : ℕ) (m : Manager)
      → Move (inserting id plugin) m (insert id plugin m).0 (insert id plugin m).1
  discards :
      (plugin : ℕ) (answer : Option ℕ) (m : Manager)
      → Move (discarding plugin answer) m (answered answer ∷ []) (close_plugin plugin m)
  run_returns :
      (id plugin : ℕ) (m : Manager)
      → Move (playing id plugin) m (ended id plugin ∷ []) (close_plugin plugin m)
  cleans :
      (id plugin : ℕ) (m : Manager) → Move (ended id plugin) m (leaving ∷ []) (cleanup id plugin m)
  decrements :
      (m : Manager) → Move leaving m [] (record m { active_matches = m.active_matches - 1 })

-- A call comes in, or any of the threads moves.
pub data Step : List Thread → Manager → List Thread → Manager → Type 0 where
  calls : (id : ℕ) (ts : List Thread) (m : Manager) → Step ts m (looking id ∷ ts) m
  moves :
      (before after : List Thread) {t : Thread} {ts : List Thread} {m n : Manager}
      → Move t m ts n
      → Step (before ++ t ∷ after) m (before ++ (ts ++ after)) n

pub data Reach : List Thread → Manager → Type 0 where
  start : Reach [] new_manager
  next : {ts us : List Thread} {m n : Manager} → Reach ts m → Step ts m us n → Reach us n
