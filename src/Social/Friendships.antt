-- ===== src/Social/Friendships.antt =====
-- The Friendships repository of internal/infra/repository/social.go.
use vfx.Base.{ℕ, Bool, not, ◌||◌, Option, none, some, ◌∷◌, if◌then◌else◌, ltb}
use vfx.Db.{return, fail, statement, ◌>>=◌}
use vfx.Social.Graph.{Graph, Work, edge, has, remove, order_pair, not_friends}

-- UNIQUE (player_low, player_high), CHECK (player_low < player_high)
abbrev pub insert_friendship : ℕ → ℕ × ℕ → Graph → Option (Unit {0} × Graph)
insert_friendship now pair g =
    if has pair.0 pair.1 g.friendships || not (ltb pair.0 pair.1)
    then none
    else some (tt, record g { friendships = edge pair.0 pair.1 now ∷ g.friendships })

-- Save of NewFriendship(a, b), which puts the pair in order.
unfoldable pub save : ℕ → ℕ → ℕ → Work (Unit {0})
save now a b = statement (insert_friendship now (order_pair a b))

abbrev pub delete_friendship : ℕ × ℕ → Graph → Option (Bool × Graph)
delete_friendship pair g =
    some (
      has pair.0 pair.1 g.friendships,
      record g { friendships = remove pair.0 pair.1 g.friendships },
    )

unfoldable pub delete : ℕ → ℕ → Work (Unit {0})
delete a b = do
  affected ← statement (delete_friendship (order_pair a b))
  if affected then return tt else fail not_friends

abbrev pub are_friends : ℕ → ℕ → Graph → Bool
are_friends a b g = has (order_pair a b).0 (order_pair a b).1 g.friendships

unfoldable pub exists : ℕ → ℕ → Work Bool
exists a b = statement (λ g. some (are_friends a b g, g))
