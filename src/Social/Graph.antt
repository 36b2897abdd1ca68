-- ===== src/Social/Graph.antt =====
-- internal/domain/social/social.go and the tables of schema/db/queries/social.sql. The rows' ids and
-- the players' names are not modelled.
use vfx.Base.{
  ℕ, suc, ◌-◌, ◌/◌, ◌%◌, ◌^◌, zero, Bool, not, ◌&&◌, List, ◌==◌, if◌then◌else◌, ltb, any, keep,
}
use vfx.Db.{Tx}

pub data SocialError : Type 0 where
  self_friend self_block already_friends already_requested request_not_found not_friends blocked :
      SocialError

-- A row of one of the three tables: requester and addressee, low and high, blocker and blocked.
pub record Edge : Type 0 where
  pub source : ℕ
  pub target : ℕ
  pub created_at : ℕ

pub record Graph : Type 0 where
  pub requests : List Edge
  pub friendships : List Edge
  pub blocks : List Edge

-- Byte `i` of a uuid, the first byte being the most significant.
unfoldable pub byte : ℕ → ℕ → ℕ
byte a i = a / 256 ^ (15 - i) % 256

-- The loop of OrderPair with `left` bytes to go.
unfoldable pub order_from : ℕ → ℕ → ℕ → ℕ × ℕ
unfolding byte
order_from zero a b = (a, b)
order_from (suc left) a b =
    let rest = order_from left a b in
    if ltb (byte a (15 - left)) (byte b (15 - left))
    then (a, b)
    else if ltb (byte b (15 - left)) (byte a (15 - left))
    then (b, a)
    else rest

unfoldable pub order_pair : ℕ → ℕ → ℕ × ℕ
order_pair a b = order_from 16 a b

unfoldable pub is_edge : ℕ → ℕ → Edge → Bool
is_edge a b e = e.source == a && e.target == b

-- SELECT EXISTS (... WHERE source = $1 AND target = $2)
unfoldable pub has : ℕ → ℕ → List Edge → Bool
unfolding is_edge
has a b es = any (is_edge a b) es

-- DELETE ... WHERE source = $1 AND target = $2
unfoldable pub remove : ℕ → ℕ → List Edge → List Edge
unfolding is_edge
remove a b es = keep (λ e. not (is_edge a b e)) es

abbrev pub Work : Type 0 → Type 0
Work A = Tx SocialError Graph A

abbrev pub edge : ℕ → ℕ → ℕ → Edge
edge a b now = record { source = a; target = b; created_at = now }
