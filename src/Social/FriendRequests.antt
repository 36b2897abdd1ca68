-- ===== src/Social/FriendRequests.antt =====
-- The FriendRequests repository of internal/infra/repository/social.go.
use vfx.Base.{ℕ, Bool, Option, none, some, ◌∷◌, if◌then◌else◌}
use vfx.Db.{return, fail, statement, ◌>>=◌}
use vfx.Social.Graph.{Graph, Work, edge, has, remove, request_not_found}

-- UNIQUE (requester_id, addressee_id)
abbrev pub insert_request : ℕ → ℕ → ℕ → Graph → Option (Unit {0} × Graph)
insert_request now a b g =
    if has a b g.requests
    then none
    else some (tt, record g { requests = edge a b now ∷ g.requests })

unfoldable pub save : ℕ → ℕ → ℕ → Work (Unit {0})
save now requester addressee = statement (insert_request now requester addressee)

-- Whether a row was affected, and the table without it.
abbrev pub delete_request : ℕ → ℕ → Graph → Option (Bool × Graph)
delete_request a b g = some (has a b g.requests, record g { requests = remove a b g.requests })

unfoldable pub delete : ℕ → ℕ → Work (Unit {0})
delete requester addressee = do
  affected ← statement (delete_request requester addressee)
  if affected then return tt else fail request_not_found

unfoldable pub exists : ℕ → ℕ → Work Bool
exists requester addressee = statement (λ g. some (has requester addressee g.requests, g))
