-- ===== src/Auth.antt =====
-- Players, their identities and refresh tokens: internal/domain/player and the repositories player.go,
-- identity.go and refresh_token.go of internal/infra/repository, over schema/db/queries/player.sql and
-- refresh_token.sql. A token's hash is a number. The database keeps microseconds, which is not modelled.
pub mod Usecase
pub mod Stable
pub mod Runs
pub mod Rotation
pub mod Logouts
pub mod Credentials
pub mod Logins
pub mod Accounts
pub mod Tests
use vfx.Base.{
  ℕ, Bool, true, false, not, ◌&&◌, ◌||◌, Option, none, some, List, [], ◌∷◌, if◌then◌else◌, ◌==◌,
  ltb, any, map,
}
use vfx.Base.Texts.{Text, trim_space, rune_count, text_eq}
use vfx.Base.Paths.{is_empty}
use vfx.Db.{Tx, Reply, ok, err, return, fail, statement, query, query_one, exec, exec_rows, ◌>>=◌}
use vfx.Db.Rows.{select, upsert}

-- `issuer` is an error of the token issuer.
pub data AuthError : Type 0 where
  invalid_credential invalid_nickname player_not_found identity_already_linked refresh_token_invalid
        issuer :
      AuthError

pub data Provider : Type 0 where
  anonymous google apple : Provider

abbrev pub provider_eq : Provider → Provider → Bool
provider_eq anonymous anonymous = true
provider_eq google google = true
provider_eq apple apple = true
provider_eq _ _ = false

pub record Player : Type 0 where
  pub id : ℕ
  pub nickname : Option Text
  pub registered_at : ℕ

pub record Identity : Type 0 where
  pub id : ℕ
  pub player_id : ℕ
  pub provider : Provider
  pub provider_uid : Text

pub record RefreshToken : Type 0 where
  pub id : ℕ
  pub player_id : ℕ
  pub hash : ℕ
  pub expires_at : ℕ
  pub revoked_at : Option ℕ

pub record Tables : Type 0 where
  pub players : List Player
  pub identities : List Identity
  pub tokens : List RefreshToken

abbrev pub Work : Type 0 → Type 0
Work A = Tx AuthError Tables A

abbrev pub max_nickname_length : ℕ
max_nickname_length = 32

-- validateNickname
unfoldable pub valid_nickname : Option Text → Bool
valid_nickname none = true
valid_nickname (some name) =
    not (is_empty (trim_space name)) && not (ltb max_nickname_length (rune_count name))

-- New
unfoldable pub new_player : ℕ → Option Text → ℕ → Option Player
new_player id nickname now =
    if valid_nickname nickname
    then some (record { id = id; nickname = nickname; registered_at = now })
    else none

-- SetNickname
unfoldable pub set_nickname : Option Text → Player → Option Player
set_nickname nickname p =
    if valid_nickname nickname then some (record p { nickname = nickname }) else none

abbrev pub is_revoked : Option ℕ → Bool
is_revoked none = false
is_revoked (some t) = true

unfoldable pub is_active : ℕ → RefreshToken → Bool
is_active now t = not (is_revoked t.revoked_at) && ltb now t.expires_at

abbrev pub has_player_id : ℕ → Player → Bool
has_player_id id p = p.id == id

abbrev pub is_identity : Provider → Text → Identity → Bool
is_identity provider uid i = provider_eq i.provider provider && text_eq i.provider_uid uid

abbrev pub has_hash : ℕ → RefreshToken → Bool
has_hash hash t = t.hash == hash

-- The statements.
unfoldable pub get_player : ℕ → List Player → Option Player
unfolding select
get_player id ps = select (has_player_id id) ps

unfoldable pub has_player : ℕ → List Player → Bool
has_player id ps = any (has_player_id id) ps

unfoldable pub upsert_player : Player → Tables → Tables
unfolding upsert
upsert_player p s = record s {
  players = upsert (has_player_id p.id) (λ old. record old { nickname = p.nickname }) p s.players;
}

unfoldable pub find_identity : Provider → Text → List Identity → Option Identity
unfolding select
find_identity provider uid is = select (is_identity provider uid) is

-- The primary key and the unique index on (provider, provider_uid).
abbrev pub collides : Identity → Identity → Bool
collides new i = i.id == new.id || is_identity new.provider new.provider_uid i

-- CreatePlayerIdentity: whether a unique index is violated, and the tables. A foreign key wants the
-- player.
unfoldable pub create_identity : Identity → Tables → Option (Bool × Tables)
unfolding has_player
create_identity i s =
    if any (collides i) s.identities
    then some (true, s)
    else if has_player i.player_id s.players
    then some (false, record s { identities = i ∷ s.identities })
    else none

-- CreateRefreshToken: the primary key, the unique index on the hash, and a foreign key to the player.
unfoldable pub create_token : RefreshToken → Tables → Option (Unit {0} × Tables)
unfolding has_player
create_token t s =
    if any (λ (u : RefreshToken). u.id == t.id || has_hash t.hash u) s.tokens
    then none
    else if has_player t.player_id s.players
    then some (tt, record s { tokens = t ∷ s.tokens })
    else none

abbrev pub is_usable : ℕ → ℕ → RefreshToken → Bool
is_usable hash now t = has_hash hash t && (not (is_revoked t.revoked_at) && ltb now t.expires_at)

unfoldable pub find_token : ℕ → ℕ → List RefreshToken → Option RefreshToken
unfolding select
find_token hash now ts = select (is_usable hash now) ts

abbrev pub revoked : ℕ → RefreshToken → RefreshToken
revoked now t = record t { revoked_at = some now }

-- UPDATE ... SET revoked_at WHERE ... AND revoked_at IS NULL
unfoldable pub revoke_where : (RefreshToken → Bool) → ℕ → List RefreshToken → List RefreshToken
revoke_where p now ts =
    map (λ (t : RefreshToken). if p t && not (is_revoked t.revoked_at) then revoked now t else t) ts

abbrev pub has_token_id : ℕ → RefreshToken → Bool
has_token_id id t = t.id == id

abbrev pub belongs_to : ℕ → RefreshToken → Bool
belongs_to player_id t = t.player_id == player_id

-- The three repositories.
unfoldable pub get_by_id : ℕ → Work Player
get_by_id id = query_one (λ s. get_player id s.players) player_not_found

unfoldable pub save_player : Player → Work (Unit {0})
save_player p = exec (upsert_player p)

-- Find, with `none` for ErrIdentityNotFound.
unfoldable pub lookup_identity : Provider → Text → Work (Option Identity)
lookup_identity provider uid = query (λ s. find_identity provider uid s.identities)

unfoldable pub save_identity : Identity → Work (Unit {0})
save_identity i = statement (create_identity i) >>= λ violated.
    if violated then fail identity_already_linked else return tt

unfoldable pub save_token : RefreshToken → Work (Unit {0})
save_token t = statement (create_token t)

unfoldable pub find_by_hash : ℕ → ℕ → Work RefreshToken
find_by_hash hash now = query_one (λ s. find_token hash now s.tokens) refresh_token_invalid

unfoldable pub revoke : ℕ → ℕ → Work (Unit {0})
unfolding revoke_where
revoke id now =
    exec_rows
      (λ s. any (λ (t : RefreshToken). has_token_id id t && not (is_revoked t.revoked_at)) s.tokens)
      (λ s. record s { tokens = revoke_where (has_token_id id) now s.tokens }) refresh_token_invalid

unfoldable pub revoke_all_for_player : ℕ → ℕ → Work (Unit {0})
unfolding revoke_where
revoke_all_for_player player_id now =
    exec (λ s. record s { tokens = revoke_where (belongs_to player_id) now s.tokens })
