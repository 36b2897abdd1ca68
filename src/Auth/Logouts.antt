-- ===== src/Auth/Logouts.antt =====
-- Logout of internal/usecase/auth/auth.go, and what becomes of the refresh tokens of the player.
use mathlib.Core.List.{Memᴰ}
use mathlib.Core.List.Memᴰ.{head, tail}
use vfx.Base.{
  ℕ, ◌≡◌, refl, sym, subst, ap, ◌∙◌, Bool, true, false, not, List, [], ◌∷◌, any, keep, ◌==◌, ==_iff,
  arith, Bool-cases, inl, inr,
}
use vfx.Base.Texts.{Text}
use vfx.Db.{ok}
use vfx.Db.Triple.{rw_tx_ok}
use vfx.Db.Steps.{exec_rule}
use vfx.Auth.{RefreshToken, Tables, has_hash, belongs_to, revoke_where, revoke_all_for_player}
use vfx.Auth.Usecase.{TokenIssuer, Fresh, LoginResult, logout, refresh}
use vfx.Auth.Stable.{revoke_tokens}
use vfx.Auth.Runs.{Call, run, run-Stable}
use vfx.Auth.Rotation.{
  IsSpent, IsSpent-Stable, IsUnique, is_open, any_hash-revoke, closed-absent, any_open-revoke,
  unique_head, refresh_work-refused,
}

mem-hash : (t : RefreshToken) (ts : List RefreshToken) → Memᴰ t ts → any (has_hash t.hash) ts ≡ true
mem-hash t [] m = elim m [ ]
mem-hash t (u ∷ ts) (head e) =
    let same : (u.hash == t.hash) ≡ true =
      (==_iff u.hash t.hash).1 (ap (λ (x : RefreshToken). x.hash) (sym e)) in
    rw same refl
mem-hash t (u ∷ ts) (tail m) = ground (arith, mem-hash t ts m)

-- With distinct hashes, the hash of a token of the player is that of revoked tokens only.
revoke-closed :
    (me now : ℕ) (t : RefreshToken) (ts : List RefreshToken)
    → IsUnique ts
    → t.player_id ≡ me
    → Memᴰ t ts
    → any (is_open t.hash) (revoke_where (belongs_to me) now ts) ≡ false
unfolding IsUnique revoke_where
revoke-closed me now t [] k mine m = elim m [ ]
revoke-closed me now t (u ∷ ts) k mine (head e) =
    let whose : (u.player_id == me) ≡ true =
      (==_iff u.player_id me).1 (ap (λ (x : RefreshToken). x.player_id) (sym e) ∙ mine) in
    let same : (u.hash == t.hash) ≡ true =
      (==_iff u.hash t.hash).1 (ap (λ (x : RefreshToken). x.hash) (sym e)) in
    let rest =
      any_open-revoke t.hash (belongs_to me) now ts
        (closed-absent t.hash ts (unique_head t.hash u ts k.0 same)) in
    ground (arith, whose, same, rest)
revoke-closed me now t (u ∷ ts) k mine (tail m) =
    let rest = revoke-closed me now t ts k.1 mine m in
    elim (Bool-cases (u.hash == t.hash)) [
      | inl y ↦ cc (mem-hash t ts m, unique_head t.hash u ts k.0 y)
      | inr y ↦ ground (arith, y, rest)
    ]

revoke-others :
    (me now : ℕ) (ts : List RefreshToken)
    → keep (λ t. not (belongs_to me t)) (revoke_where (belongs_to me) now ts)
      ≡ keep (λ t. not (belongs_to me t)) ts
unfolding revoke_where
revoke-others me now [] = refl
revoke-others me now (t ∷ ts) = elim (Bool-cases (t.player_id == me)) [
  | inl y ↦ ground (arith, y, revoke-others me now ts)
  | inr n ↦ ground (arith, n, revoke-others me now ts)
]

logout-revokes :
    (me now : ℕ) (faults : List Bool) (s : Tables)
    → (logout me now faults s).0 ≡ ok tt
    → (logout me now faults s).1 ≡ revoke_tokens (belongs_to me) now s
unfolding logout revoke_all_for_player
logout-revokes me now faults s h =
    (rw_tx_ok faults s (revoke_all_for_player me now) tt refl
      (exec_rule s (revoke_tokens (belongs_to me) now)) h).0

module _ (tokens : TokenIssuer) (access_ttl refresh_ttl : ℕ) where
  -- Once Logout has answered without an error, no refresh token that the player had been issued is good
  -- for a refresh, at whatever time, whatever calls come between and whichever statements fail, if no
  -- two tokens had one hash; and the tokens of the other players are as they were.
  pub logout_ends :
      (me now later : ℕ) (raw : Text) (again : Fresh) (faults failures : List Bool) (s : Tables)
      (t : RefreshToken) (q : LoginResult) (cs : List Call)
      → IsUnique s.tokens
      → Memᴰ t s.tokens
      → t.player_id ≡ me
      → tokens.hash_refresh raw ≡ t.hash
      → (logout me now faults s).0 ≡ ok tt
      → ¬ (
          (refresh tokens access_ttl refresh_ttl raw later again failures
            (run tokens access_ttl refresh_ttl cs (logout me now faults s).1)).0
          ≡ ok q)
        × (keep (λ u. not (belongs_to me u)) (logout me now faults s).1.tokens
            ≡ keep (λ u. not (belongs_to me u)) s.tokens)
  unfolding refresh
  logout_ends me now later raw again faults failures s t q cs k m mine same h =
      let hash = tokens.hash_refresh raw in
      let after = logout-revokes me now faults s h in
      let revoked : IsSpent hash (revoke_tokens (belongs_to me) now s) =
        subst (λ x. IsSpent x (revoke_tokens (belongs_to me) now s)) (sym same)
          (record {
            issued = any_hash-revoke t.hash (belongs_to me) now s.tokens ∙ mem-hash t s.tokens m;
            closed = revoke-closed me now t s.tokens k mine m;
          }) in
      let spent : IsSpent hash (logout me now faults s).1 =
        subst (IsSpent hash) (sym after) revoked in
      let u = run tokens access_ttl refresh_ttl cs (logout me now faults s).1 in
      let kept : IsSpent hash u =
        run-Stable (IsSpent hash) (IsSpent-Stable hash) tokens access_ttl refresh_ttl cs _ spent in
      (
        rw_tx_ok failures u _ q refl
            (refresh_work-refused tokens access_ttl refresh_ttl raw later again u kept),
        ap (λ (x : Tables). keep (λ v. not (belongs_to me v)) x.tokens) after
            ∙ revoke-others me now s.tokens,
      )
