-- ===== src/Social/Blocks.antt =====
-- The Blocks repository of internal/infra/repository/social.go.
use vfx.Base.{ℕ, Bool, ◌||◌, Option, some, ◌∷◌, if◌then◌else◌}
use vfx.Db.{statement}
use vfx.Social.Graph.{Graph, Work, edge, has, remove}

-- ON CONFLICT (blocker_id, blocked_id) DO NOTHING
abbrev pub insert_block : ℕ → ℕ → ℕ → Graph → Option (Unit {0} × Graph)
insert_block now a b g =
    if has a b g.blocks
    then some (tt, g)
    else some (tt, record g { blocks = edge a b now ∷ g.blocks })

unfoldable pub save : ℕ → ℕ → ℕ → Work (Unit {0})
save now blocker blocked = statement (insert_block now blocker blocked)

unfoldable pub delete : ℕ → ℕ → Work (Unit {0})
delete blocker blocked =
    statement (λ g. some (tt, record g { blocks = remove blocker blocked g.blocks }))

abbrev pub either_blocked : ℕ → ℕ → Graph → Bool
either_blocked a b g = has a b g.blocks || has b a g.blocks

unfoldable pub is_blocked : ℕ → ℕ → Work Bool
is_blocked a b = statement (λ g. some (either_blocked a b g, g))
