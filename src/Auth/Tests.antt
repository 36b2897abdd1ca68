-- ===== src/Auth/Tests.antt =====
-- A first login that loses a race, a refresh and a link, and the theorems about accounts at them.
use mathlib.Core.List.Memᴰ.{head}
use vfx.Base.{ap, sym, subst, ℕ, ◌≡◌, refl, not, keep, [], ◌∷◌, none, some}
use vfx.Base.Texts.{Text, ascii, text_eq, point}
use vfx.Db.{Reply, ok, rw_tx, statement, exec, query_one, query, exec_rows}
use vfx.Db.Rows.{select, upsert}
use vfx.Auth.{
  AuthError, anonymous, google, Player, Identity, RefreshToken, Tables, valid_nickname, new_player,
  has_player, get_player, upsert_player, find_identity, create_identity, create_token, find_token,
  revoke_where, get_by_id, save_player, lookup_identity, save_identity, save_token, find_by_hash,
  revoke, is_active, belongs_to, revoke_all_for_player,
}
use vfx.Auth.Usecase.{
  TokenIssuer, VerifiedIdentity, Fresh, Attempt, LoginResult, register, register_all, create_player,
  find_or_create_by_identity, find_or_create_player, attempt, run_login_tx, issue_tokens,
  anonymous_work, login_anonymous, oidc_work, login_oidc, nickname_or_nil, refresh_work, refresh,
  link_work, link_identity, logout,
}
use vfx.Auth.Runs.{refreshes, run}
use vfx.Auth.Rotation.{IsUnique, refresh_once}
use vfx.Auth.Logouts.{logout_ends}
use vfx.Auth.Accounts.{login_anonymous_same, login_oidc-link_identity}

abbrev text_hash : Text → ℕ
text_hash [] = 0
text_hash (point c ∷ t) = c
text_hash (x ∷ t) = 0

abbrev tokens : TokenIssuer
tokens = record { sign_access = λ p now ttl. some (ascii (b'a' ∷ [])); hash_refresh = text_hash }

abbrev device : Text
device = ascii (b'd' ∷ [])

abbrev raw : ℕ → Text
raw c = ascii (c ∷ [])

abbrev draw : ℕ → Fresh
draw n = record {
  player_id = n;
  identity_id = n;
  token_id = n;
  provider_uid = [];
  refresh = some (raw n);
}

abbrev winner : Player × Identity
winner = (
  record { id = 7; nickname = none; registered_at = 1 },
  record { id = 70; player_id = 7; provider = anonymous; provider_uid = device },
)

abbrev no_one : Tables
no_one = record { players = []; identities = []; tokens = [] }

-- The winner registers between the lookup and the insertion of the first attempt.
abbrev beaten : Attempt
beaten = record { fresh = draw 20; faults = []; arrivals = winner ∷ [] }

abbrev calm : ℕ → Attempt
calm n = record { fresh = draw n; faults = []; arrivals = [] }

abbrev signed_in : ℕ → LoginResult
signed_in n = record { access_token = ascii (b'a' ∷ []); refresh_token = raw n; player = winner.0 }

abbrev token : ℕ → ℕ → RefreshToken
token n until = record { id = n; player_id = 7; hash = n; expires_at = until; revoked_at = none }

abbrev after_race : Tables
after_race = record {
  players = winner.0 ∷ [];
  identities = winner.1 ∷ [];
  tokens = token 21 101 ∷ [];
}

login-race :
    login_anonymous tokens 10 100 (some device) none 1 beaten (calm 21) no_one
    ≡ (ok (signed_in 21), after_race)
unfolding login_anonymous run_login_tx attempt anonymous_work find_or_create_player
    find_or_create_by_identity register_all register create_player new_player valid_nickname
    upsert_player upsert create_identity create_token get_player find_identity select has_player
    text_eq get_by_id save_player lookup_identity save_identity save_token issue_tokens rw_tx
    statement exec query_one query
login-race = refl

login-again :
    (login_anonymous tokens 10 100 (some device) none 5 (calm 30) (calm 31) after_race).0
    ≡ ok (signed_in 30)
unfolding login_anonymous run_login_tx attempt anonymous_work find_or_create_player
    find_or_create_by_identity register_all create_token get_player find_identity select has_player
    text_eq get_by_id lookup_identity save_token issue_tokens rw_tx statement exec query_one query
login-again = refl

refresh-race : (refresh tokens 10 100 (raw 21) 5 (draw 40) [] after_race).0 ≡ ok (signed_in 40)
unfolding refresh refresh_work find_by_hash find_token revoke revoke_where is_active create_token
    get_player select has_player get_by_id save_token issue_tokens rw_tx statement exec exec_rows
    query_one query
refresh-race = refl

login_anonymous_same_example : (signed_in 30).player.id ≡ (signed_in 21).player.id
unfolding run
login_anonymous_same_example =
    login_anonymous_same tokens 10 100 device none none 1 5 beaten (calm 21) (calm 30) (calm 31)
      no_one (signed_in 21) (signed_in 30) []
      (ap (λ (x : Reply AuthError LoginResult × Tables). x.0) login-race)
      (subst
        (λ (x : Reply AuthError LoginResult × Tables).
          (login_anonymous tokens 10 100 (some device) none 5 (calm 30) (calm 31) x.1).0
          ≡ ok (signed_in 30))
        (sym login-race) login-again)

race-IsUnique : IsUnique after_race.tokens
unfolding IsUnique
race-IsUnique = (refl, tt)

refresh_once_example : ¬ (
    (refresh tokens 10 100 (raw 21) 6 (draw 41) [] (
      run tokens 10 100
        (refreshes (raw 40) 6 (draw 42) [] ∷ [])
        (refresh tokens 10 100 (raw 21) 5 (draw 40) [] after_race).1)).0
    ≡ ok (signed_in 41))
refresh_once_example =
    refresh_once tokens 10 100 (raw 21) 5 6 (draw 40) (draw 41) [] [] after_race (signed_in 40)
      (signed_in 41) (refreshes (raw 40) 6 (draw 42) [] ∷ []) race-IsUnique refresh-race

logout-race : (logout 7 5 [] after_race).0 ≡ ok tt
unfolding logout revoke_all_for_player rw_tx exec statement
logout-race = refl

logout_ends_example :
    ¬ (
      (refresh tokens 10 100
        (raw 21)
        8
        (draw 41)
        []
        (run tokens 10 100 (refreshes (raw 40) 6 (draw 42) [] ∷ []) (logout 7 5 [] after_race).1)).0
      ≡ ok (signed_in 41))
    × (keep (λ u. not (belongs_to 7 u)) (logout 7 5 [] after_race).1.tokens
        ≡ keep (λ u. not (belongs_to 7 u)) after_race.tokens)
logout_ends_example =
    logout_ends tokens 10 100 7 5 8 (raw 21) (draw 41) [] [] after_race (token 21 101)
      (signed_in 41) (refreshes (raw 40) 6 (draw 42) [] ∷ []) race-IsUnique (head refl) refl refl
      logout-race

abbrev account : VerifiedIdentity
account = record { subject = ascii (b'g' ∷ []); name = ascii (b'J' ∷ []) }

link-account : (link_identity 7 google (some account) 80 [] after_race).0 ≡ ok winner.0
unfolding link_identity link_work lookup_identity find_identity select get_by_id get_player
    save_identity create_identity has_player text_eq rw_tx statement query_one query
link-account = refl

login-account :
    (login_oidc tokens 10 100 google
      (some account)
      6
      (calm 43)
      (calm 44)
      (run tokens 10 100 [] (link_identity 7 google (some account) 80 [] after_race).1)).0
    ≡ ok (signed_in 43)
unfolding run link_identity link_work lookup_identity find_identity select get_by_id get_player
    save_identity create_identity has_player text_eq rw_tx statement query_one query login_oidc
    oidc_work run_login_tx attempt find_or_create_by_identity register_all create_token save_token
    issue_tokens exec nickname_or_nil
login-account = refl

login_oidc-link_identity_example : (signed_in 43).player.id ≡ 7
login_oidc-link_identity_example =
    login_oidc-link_identity tokens 10 100 7 google account account 80 [] after_race winner.0 [] 6
      (calm 43) (calm 44) (signed_in 43) refl link-account login-account
