-- ===== src/Auth/Usecase.antt =====
-- internal/usecase/auth/auth.go. The token issuer and the OIDC verifier are outside. While a login is
-- under way other first logins commit: what they register becomes visible after its lookup. What uuid.New
-- and NewRefresh give is drawn anew for each attempt.
use vfx.Base.{
  ℕ, ◌+◌, Bool, true, false, not, ◌||◌, Option, none, some, List, [], ◌∷◌, if◌then◌else◌, ◌==◌, ltb,
  any,
}
use vfx.Base.Texts.{Text, trim_space, rune_count}
use vfx.Base.Paths.{is_empty}
use vfx.Db.{Reply, ok, err, domain, return, fail, rw_tx, ◌>>=◌, ◌>>◌}
use vfx.Auth.{
  AuthError, invalid_credential, invalid_nickname, identity_already_linked, refresh_token_invalid,
  issuer, Provider, anonymous, Player, Identity, RefreshToken, Tables, Work, max_nickname_length,
  new_player, set_nickname, is_active, collides, upsert_player, get_by_id, save_player,
  lookup_identity, save_identity, save_token, find_by_hash, revoke, revoke_all_for_player,
}

pub record TokenIssuer : Type 0 where
  pub sign_access : ℕ → ℕ → ℕ → Option Text
  pub hash_refresh : Text → ℕ

pub record VerifiedIdentity : Type 0 where
  pub subject : Text
  pub name : Text

-- What one attempt draws: the ids of a new player, identity and token, an ephemeral provider uid, and
-- a raw refresh token, unless the source of randomness fails.
pub record Fresh : Type 0 where
  pub player_id : ℕ
  pub identity_id : ℕ
  pub token_id : ℕ
  pub provider_uid : Text
  pub refresh : Option Text

pub record LoginResult : Type 0 where
  pub access_token : Text
  pub refresh_token : Text
  pub player : Player

-- A first login of somebody else that commits; the unique indexes refuse one that collides.
unfoldable pub register : Player × Identity → Tables → Tables
register (p, i) s =
    if any (collides i) s.identities || not (i.player_id == p.id)
    then s
    else let t = upsert_player p s in record t { identities = i ∷ s.identities }

unfoldable pub register_all : List (Player × Identity) → Tables → Tables
register_all [] s = s
register_all (x ∷ xs) s = register_all xs (register x s)

abbrev pub meanwhile : List (Player × Identity) → Work (Unit {0})
meanwhile arrivals c = ok (tt, record c { tables = register_all arrivals c.tables })

-- One attempt at a login: what it draws, which statements fail, and who arrives.
pub record Attempt : Type 0 where
  pub fresh : Fresh
  pub faults : List Bool
  pub arrivals : List (Player × Identity)

module _ {A : Type 0} where
  abbrev pub or_fail : AuthError → Option A → Work A
  or_fail e none = fail e
  or_fail e (some a) = return a

unfoldable pub create_player : Provider → Text → Option Text → ℕ → Fresh → Work Player
create_player provider uid nickname now fresh =
    or_fail invalid_nickname (new_player fresh.player_id nickname now) >>= λ (p : Player).
    save_player p
    >> save_identity (record {
      id = fresh.identity_id;
      player_id = p.id;
      provider = provider;
      provider_uid = uid;
    })
    >> return p

abbrev pub found_or_create :
    Provider → Text → Option Text → ℕ → Fresh → Option Identity → Work Player
found_or_create provider uid nickname now fresh (some i) = get_by_id i.player_id
found_or_create provider uid nickname now fresh none = create_player provider uid nickname now fresh

unfoldable pub find_or_create_by_identity :
    Provider → Text → Option Text → ℕ → Fresh → List (Player × Identity) → Work Player
find_or_create_by_identity provider uid nickname now fresh arrivals =
    lookup_identity provider uid >>= λ found.
    meanwhile arrivals >> found_or_create provider uid nickname now fresh found

-- A nil device id makes a player that no later login finds.
unfoldable pub find_or_create_player :
    Option Text → Option Text → ℕ → Fresh → List (Player × Identity) → Work Player
find_or_create_player (some device_id) nickname now fresh arrivals =
    find_or_create_by_identity anonymous device_id nickname now fresh arrivals
find_or_create_player none nickname now fresh arrivals =
    meanwhile arrivals >> create_player anonymous fresh.provider_uid nickname now fresh

unfoldable pub nickname_or_nil : Text → Option Text
nickname_or_nil name =
    let trimmed = trim_space name in
    if is_empty trimmed || ltb max_nickname_length (rune_count trimmed) then none else some trimmed

-- runLoginTx with the tables after it: an attempt that fails rolls back, and leaves who has arrived.
abbrev pub rolled_back :
    {A : Type 0}
    → List (Player × Identity)
    → Tables
    → Reply AuthError A × Tables
    → Reply AuthError A × Tables
rolled_back arrivals s (err e, t) = (err e, register_all arrivals s)
rolled_back arrivals s (ok a, t) = (ok a, t)

abbrev pub is_already_linked : {A : Type 0} → Reply AuthError A → Bool
is_already_linked (err (domain identity_already_linked)) = true
is_already_linked _ = false

unfoldable pub attempt :
    {A : Type 0}
    → (Fresh → List (Player × Identity) → Work A)
    → Attempt
    → Tables
    → Reply AuthError A × Tables
attempt work x s = rolled_back x.arrivals s (rw_tx x.faults s (work x.fresh x.arrivals))

unfoldable pub run_login_tx :
    {A : Type 0}
    → (Fresh → List (Player × Identity) → Work A)
    → Attempt
    → Attempt
    → Tables
    → Reply AuthError A × Tables
run_login_tx work first second s =
    let r = attempt work first s in if is_already_linked r.0 then attempt work second r.1 else r

module _ (tokens : TokenIssuer) (access_ttl refresh_ttl : ℕ) where
  unfoldable pub issue_tokens : Player → ℕ → Fresh → Work LoginResult
  issue_tokens p now fresh = or_fail issuer (tokens.sign_access p.id now access_ttl) >>= λ access.
      or_fail issuer fresh.refresh >>= λ raw.
      save_token (record {
        id = fresh.token_id;
        player_id = p.id;
        hash = tokens.hash_refresh raw;
        expires_at = now + refresh_ttl;
        revoked_at = none;
      })
      >> return (record { access_token = access; refresh_token = raw; player = p })

  unfoldable pub anonymous_work :
      Option Text → Option Text → ℕ → Fresh → List (Player × Identity) → Work LoginResult
  anonymous_work device_id nickname now fresh arrivals =
      find_or_create_player device_id nickname now fresh arrivals >>= λ p. issue_tokens p now fresh

  unfoldable pub login_anonymous :
      Option Text
      → Option Text
      → ℕ
      → Attempt
      → Attempt
      → Tables
      → Reply AuthError LoginResult × Tables
  login_anonymous device_id nickname now first second s =
      run_login_tx (anonymous_work device_id nickname now) first second s

  unfoldable pub oidc_work :
      Provider → VerifiedIdentity → ℕ → Fresh → List (Player × Identity) → Work LoginResult
  oidc_work provider v now fresh arrivals =
      find_or_create_by_identity provider v.subject (nickname_or_nil v.name) now fresh arrivals
      >>= λ p. issue_tokens p now fresh

  -- `none` is a token that the verifier refuses.
  unfoldable pub login_oidc :
      Provider
      → Option VerifiedIdentity
      → ℕ
      → Attempt
      → Attempt
      → Tables
      → Reply AuthError LoginResult × Tables
  login_oidc provider none now first second s = (err (domain invalid_credential), s)
  login_oidc provider (some v) now first second s =
      run_login_tx (oidc_work provider v now) first second s

  unfoldable pub refresh_work : Text → ℕ → Fresh → Work LoginResult
  refresh_work raw now fresh = find_by_hash (tokens.hash_refresh raw) now >>= λ (t : RefreshToken).
      if not (is_active now t)
      then fail refresh_token_invalid
      else revoke t.id now >> get_by_id t.player_id >>= λ p. issue_tokens p now fresh

  unfoldable pub refresh :
      Text → ℕ → Fresh → List Bool → Tables → Reply AuthError LoginResult × Tables
  refresh raw now fresh faults s = rw_tx faults s (refresh_work raw now fresh)

abbrev pub link_found : ℕ → Provider → Text → ℕ → Option Identity → Work Player
link_found player_id provider uid id (some owner) =
    if not (owner.player_id == player_id) then fail identity_already_linked else get_by_id player_id
link_found player_id provider uid id none = get_by_id player_id >>= λ (me : Player).
    save_identity
      (record { id = id; player_id = player_id; provider = provider; provider_uid = uid })
    >> return me

unfoldable pub link_work : ℕ → Provider → Text → ℕ → Work Player
link_work player_id provider uid id =
    lookup_identity provider uid >>= λ found. link_found player_id provider uid id found

unfoldable pub link_identity :
    ℕ
    → Provider
    → Option VerifiedIdentity
    → ℕ
    → List Bool
    → Tables
    → Reply AuthError Player × Tables
link_identity player_id provider none id faults s = (err (domain invalid_credential), s)
link_identity player_id provider (some v) id faults s =
    rw_tx faults s (link_work player_id provider v.subject id)

unfoldable pub logout : ℕ → ℕ → List Bool → Tables → Reply AuthError (Unit {0}) × Tables
logout player_id now faults s = rw_tx faults s (revoke_all_for_player player_id now)

abbrev pub renamed : Option Text → Player → Work Player
renamed none p = return p
renamed (some name) p = or_fail invalid_nickname (set_nickname (some name) p)

unfoldable pub update_work : ℕ → Option Text → Work Player
update_work player_id nickname =
    get_by_id player_id >>= λ p. renamed nickname p >>= λ q. save_player q >> return q

unfoldable pub update_profile :
    ℕ → Option Text → List Bool → Tables → Reply AuthError Player × Tables
update_profile player_id nickname faults s = rw_tx faults s (update_work player_id nickname)
