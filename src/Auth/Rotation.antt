-- ===== src/Auth/Rotation.antt =====
-- Refresh of internal/usecase/auth/auth.go, and what becomes of the token that it was given.
use vfx.Base.{
  ℕ, ◌≡◌, refl, subst, ◌∙◌, Bool, true, false, not, ◌&&◌, List, [], ◌∷◌, none, some, eq_of_some,
  any, ◌==◌, ==_iff, arith, if◌then◌else◌, Bool-cases, inl, inr,
}
use vfx.Base.Texts.{Text}
use vfx.Db.{ok, rw_tx}
use vfx.Db.Triple.{Triple, bind_rule, fail_rule, if_rule, rw_tx_ok, given}
use vfx.Db.Steps.{then_rule, query_one_rule, exec_rows_rule}
use vfx.Auth.{
  RefreshToken, Tables, has_hash, is_revoked, is_usable, find_token, revoke_where, has_token_id,
  is_active, refresh_token_invalid, upsert_player, find_by_hash, revoke, get_by_id,
}
use vfx.Auth.Usecase.{TokenIssuer, Fresh, LoginResult, refresh, refresh_work}
use vfx.Auth.Stable.{Stable, same_token, revoke_tokens, get_by_id-Keeps}
use vfx.Auth.Runs.{Call, run, run-Stable, issue_tokens-Keeps}

abbrev pub is_open : ℕ → RefreshToken → Bool
is_open hash t = has_hash hash t && not (is_revoked t.revoked_at)

-- A token with this hash was issued, and none is left to be used.
pub record IsSpent (hash : ℕ) (s : Tables) : Type 0 where
  pub issued : any (has_hash hash) s.tokens ≡ true
  pub closed : any (is_open hash) s.tokens ≡ false

hash-same_token :
    (hash : ℕ) (t : RefreshToken) (ts : List RefreshToken)
    → any (has_hash hash) ts ≡ true
    → any (same_token t) ts ≡ false
    → (t.hash == hash) ≡ false
hash-same_token hash t [] h k = cc
hash-same_token hash t (u ∷ ts) h k = ground (arith, hash-same_token hash t ts)

pub any_hash-revoke :
    (hash : ℕ) (p : RefreshToken → Bool) (now : ℕ) (ts : List RefreshToken)
    → any (has_hash hash) (revoke_where p now ts) ≡ any (has_hash hash) ts
unfolding revoke_where
any_hash-revoke hash p now [] = refl
any_hash-revoke hash p now (t ∷ ts) = ground (arith, any_hash-revoke hash p now ts)

pub any_open-revoke :
    (hash : ℕ) (p : RefreshToken → Bool) (now : ℕ) (ts : List RefreshToken)
    → any (is_open hash) ts ≡ false
    → any (is_open hash) (revoke_where p now ts) ≡ false
unfolding revoke_where
any_open-revoke hash p now [] h = refl
any_open-revoke hash p now (t ∷ ts) h = ground (arith, any_open-revoke hash p now ts)

pub IsSpent-Stable : (hash : ℕ) → Stable (IsSpent hash)
unfolding upsert_player
IsSpent-Stable hash = record {
  players = λ p s k. record { issued = k.issued; closed = k.closed };
  identity = λ i s k fresh there. record { issued = k.issued; closed = k.closed };
  token = λ t s k fresh there. record {
    issued = ground (arith, k.issued);
    closed = ground (arith, k.closed, hash-same_token hash t s.tokens k.issued fresh);
  };
  revokes = λ p now s k. record {
    issued = any_hash-revoke hash p now s.tokens ∙ k.issued;
    closed = any_open-revoke hash p now s.tokens k.closed;
  };
}

-- No two tokens have one hash: the unique index of the table.
unfoldable pub IsUnique : List RefreshToken → Type 0
IsUnique [] = Unit {0}
IsUnique (t ∷ ts) = (any (has_hash t.hash) ts ≡ false) × IsUnique ts

find_token-hash :
    (hash now : ℕ) (ts : List RefreshToken) (t : RefreshToken)
    → find_token hash now ts ≡ some t
    → any (has_hash hash) ts ≡ true
unfolding find_token
find_token-hash hash now [] t h = cc
find_token-hash hash now (u ∷ ts) t h = ground (arith, find_token-hash hash now ts t)

pub closed-absent :
    (hash : ℕ) (ts : List RefreshToken)
    → any (has_hash hash) ts ≡ false
    → any (is_open hash) ts ≡ false
closed-absent hash [] h = refl
closed-absent hash (t ∷ ts) h = ground (arith, closed-absent hash ts)

pub unique_head :
    (hash : ℕ) (u : RefreshToken) (ts : List RefreshToken)
    → any (has_hash u.hash) ts ≡ false
    → (u.hash == hash) ≡ true
    → any (has_hash hash) ts ≡ false
unique_head hash u ts k h = subst (λ x. any (has_hash x) ts ≡ false) ((==_iff u.hash hash).0 h) k

find_token-spent :
    (hash now later : ℕ) (ts : List RefreshToken) (t : RefreshToken)
    → IsUnique ts
    → find_token hash now ts ≡ some t
    → any (is_open hash) (revoke_where (has_token_id t.id) later ts) ≡ false
unfolding find_token revoke_where IsUnique
find_token-spent hash now later [] t k h = cc
find_token-spent hash now later (u ∷ ts) t k h = elim (Bool-cases (is_usable hash now u)) [
  | inl e ↦
      let same : u ≡ t =
        eq_of_some (subst (λ b. (if b then some u else find_token hash now ts) ≡ some t) e h) in
      let mine : (u.hash == hash) ≡ true = ground (arith, e) in
      let rest =
        any_open-revoke hash (has_token_id u.id) later ts
          (closed-absent hash ts (unique_head hash u ts k.0 mine)) in
      subst
        (λ (x : RefreshToken).
          any (is_open hash) (revoke_where (has_token_id x.id) later (u ∷ ts)) ≡ false)
        same (ground (arith, e, rest))
  | inr e ↦
      let found : find_token hash now ts ≡ some t =
        subst (λ b. (if b then some u else find_token hash now ts) ≡ some t) e h in
      let there = find_token-hash hash now ts t found in
      let rest = find_token-spent hash now later ts t k.1 found in
      elim (Bool-cases (u.hash == hash)) [
        | inl y ↦ cc (there, unique_head hash u ts k.0 y)
        | inr y ↦ ground (arith, y, rest)
      ]
]

open-usable :
    (hash now : ℕ) (ts : List RefreshToken)
    → any (is_open hash) ts ≡ false
    → find_token hash now ts ≡ none
unfolding find_token
open-usable hash now [] h = refl
open-usable hash now (t ∷ ts) h = ground (arith, open-usable hash now ts)

refresh_work-spends :
    (tokens : TokenIssuer) (access_ttl refresh_ttl : ℕ) (raw : Text) (now : ℕ) (fresh : Fresh)
    (s : Tables)
    → IsUnique s.tokens
    → Triple
        (λ u. u ≡ s)
        (refresh_work tokens access_ttl refresh_ttl raw now fresh)
        (λ r u. IsSpent (tokens.hash_refresh raw) u)
unfolding refresh_work find_by_hash revoke
refresh_work-spends tokens access_ttl refresh_ttl raw now fresh s k =
    let hash = tokens.hash_refresh raw in
    then_rule s s _ _ _ (query_one_rule s (λ u. find_token hash now u.tokens) refresh_token_invalid)
      λ t found.
        if_rule (not (is_active now t)) _ _ (λ e. fail_rule refresh_token_invalid)
          (λ e.
            bind_rule _ _
              (then_rule s (revoke_tokens (has_token_id t.id) now s) _ _ _
                (exec_rows_rule s _ (revoke_tokens (has_token_id t.id) now) refresh_token_invalid)
                λ u done. revoked-IsSpent t hash found)
              λ p.
                issue_tokens-Keeps (IsSpent hash) (IsSpent-Stable hash) tokens access_ttl
                  refresh_ttl p now fresh)
  where
    revoked-IsSpent :
        (t : RefreshToken) (hash : ℕ)
        → find_token hash now s.tokens ≡ some t
        → Triple
            (λ u. u ≡ revoke_tokens (has_token_id t.id) now s)
            (get_by_id t.player_id)
            (λ p u. IsSpent hash u)
    revoked-IsSpent t hash found =
        given _ (revoke_tokens (has_token_id t.id) now s)
          (record {
            issued =
                any_hash-revoke hash (has_token_id t.id) now s.tokens
                ∙ find_token-hash hash now s.tokens t found;
            closed = find_token-spent hash now now s.tokens t k found;
          })
          (get_by_id-Keeps (IsSpent hash) (IsSpent-Stable hash) t.player_id)

-- A refresh token with this hash is refused.
pub refresh_work-refused :
    (tokens : TokenIssuer) (access_ttl refresh_ttl : ℕ) (raw : Text) (now : ℕ) (fresh : Fresh)
    (s : Tables)
    → IsSpent (tokens.hash_refresh raw) s
    → Triple (λ u. u ≡ s) (refresh_work tokens access_ttl refresh_ttl raw now fresh) (λ r u. ⊥)
unfolding refresh_work find_by_hash
refresh_work-refused tokens access_ttl refresh_ttl raw now fresh s k =
    let hash = tokens.hash_refresh raw in
    then_rule s s _ _ _ (query_one_rule s (λ u. find_token hash now u.tokens) refresh_token_invalid)
      λ t found. absurd (cc (found, open-usable hash now s.tokens k.closed))

module _ (tokens : TokenIssuer) (access_ttl refresh_ttl : ℕ) where
  -- A refresh token is spent by the refresh that it is good for: once Refresh has answered with a new
  -- pair, the same raw token never does again, at whatever time, whatever calls come between and
  -- whichever statements fail, if no two tokens had one hash.
  pub refresh_once :
      (raw : Text) (now later : ℕ) (fresh again : Fresh) (faults failures : List Bool) (s : Tables)
      (r q : LoginResult) (cs : List Call)
      → IsUnique s.tokens
      → (refresh tokens access_ttl refresh_ttl raw now fresh faults s).0 ≡ ok r
      → ¬ (
          (refresh tokens access_ttl refresh_ttl raw later again failures (
            run tokens access_ttl refresh_ttl cs
              (refresh tokens access_ttl refresh_ttl raw now fresh faults s).1)).0
          ≡ ok q)
  unfolding refresh
  refresh_once raw now later fresh again faults failures s r q cs k h =
      let hash = tokens.hash_refresh raw in
      let spent =
        rw_tx_ok faults s _ r refl
          (refresh_work-spends tokens access_ttl refresh_ttl raw now fresh s k) h in
      let t =
        run tokens access_ttl refresh_ttl cs
          (rw_tx faults s (refresh_work tokens access_ttl refresh_ttl raw now fresh)).1 in
      let kept : IsSpent hash t =
        run-Stable (IsSpent hash) (IsSpent-Stable hash) tokens access_ttl refresh_ttl cs _ spent in
      rw_tx_ok failures t _ q refl
        (refresh_work-refused tokens access_ttl refresh_ttl raw later again t kept)
