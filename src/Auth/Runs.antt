-- ===== src/Auth/Runs.antt =====
-- Sequences of calls of internal/usecase/auth/auth.go.
use vfx.Base.{ℕ, Bool, not, List, [], ◌∷◌, Option, none, some, ◌==◌, Bool-cases, inl, inr}
use vfx.Base.Texts.{Text}
use vfx.Db.{Reply, ok, err}
use vfx.Db.Triple.{bind_rule, return_rule, fail_rule, if_rule, rw_tx_rule}
use vfx.Auth.{
  AuthError, Provider, anonymous, Player, Identity, Tables, Work, new_player, set_nickname,
  is_active, refresh_token_invalid, invalid_nickname, identity_already_linked, issuer,
}
use vfx.Auth.Usecase.{
  TokenIssuer, VerifiedIdentity, Fresh, Attempt, create_player, found_or_create,
  find_or_create_by_identity, find_or_create_player, attempt, rolled_back, run_login_tx,
  is_already_linked, issue_tokens, anonymous_work, login_anonymous, oidc_work, login_oidc,
  refresh_work, refresh, link_found, link_work, link_identity, logout, renamed, update_work,
  update_profile, nickname_or_nil,
}
use vfx.Auth.Stable.{
  Stable, Keeps, register_all-Stable, meanwhile-Keeps, or_fail-Keeps, get_by_id-Keeps,
  lookup_identity-Keeps, find_by_hash-Keeps, save_player-Keeps, save_identity-Keeps,
  save_token-Keeps, revoke-Keeps, revoke_all-Keeps,
}

-- The calls of the service, with what they draw and who arrives meanwhile.
pub data Call : Type 0 where
  logs_in : Option Text → Option Text → ℕ → Attempt → Attempt → Call
  logs_in_oidc : Provider → Option VerifiedIdentity → ℕ → Attempt → Attempt → Call
  links : ℕ → Provider → Option VerifiedIdentity → ℕ → List Bool → Call
  refreshes : Text → ℕ → Fresh → List Bool → Call
  logs_out : ℕ → ℕ → List Bool → Call
  updates : ℕ → Option Text → List Bool → Call

module _ (tokens : TokenIssuer) (access_ttl refresh_ttl : ℕ) where
  unfoldable pub step : Call → Tables → Tables
  step (logs_in device_id nickname now first second) s =
      (login_anonymous tokens access_ttl refresh_ttl device_id nickname now first second s).1
  step (logs_in_oidc provider v now first second) s =
      (login_oidc tokens access_ttl refresh_ttl provider v now first second s).1
  step (links player_id provider v id faults) s = (link_identity player_id provider v id faults s).1
  step (refreshes raw now fresh faults) s =
      (refresh tokens access_ttl refresh_ttl raw now fresh faults s).1
  step (logs_out player_id now faults) s = (logout player_id now faults s).1
  step (updates player_id nickname faults) s = (update_profile player_id nickname faults s).1

  unfoldable pub run : List Call → Tables → Tables
  run [] s = s
  run (c ∷ cs) s = run cs (step c s)

module _ (P : Tables → Type 0) (h : Stable P) where
  pub create_player-Keeps :
      (pr : Provider) (uid : Text) (nickname : Option Text) (now : ℕ) (fresh : Fresh)
      → Keeps P h (create_player pr uid nickname now fresh)
  unfolding create_player
  create_player-Keeps pr uid nickname now fresh =
      bind_rule _ _ (or_fail-Keeps P h invalid_nickname (new_player fresh.player_id nickname now))
        λ p.
          bind_rule _ _ (bind_rule _ _ (save_player-Keeps P h p) λ u. save_identity-Keeps P h _)
            λ u. return_rule p λ s k. k

  found_or_create-Keeps :
      (pr : Provider) (uid : Text) (nickname : Option Text) (now : ℕ) (fresh : Fresh)
      (o : Option Identity)
      → Keeps P h (found_or_create pr uid nickname now fresh o)
  found_or_create-Keeps pr uid nickname now fresh (some i) = get_by_id-Keeps P h i.player_id
  found_or_create-Keeps pr uid nickname now fresh none =
      create_player-Keeps pr uid nickname now fresh

  pub find_or_create_by_identity-Keeps :
      (pr : Provider) (uid : Text) (nickname : Option Text) (now : ℕ) (fresh : Fresh)
      (xs : List (Player × Identity))
      → Keeps P h (find_or_create_by_identity pr uid nickname now fresh xs)
  unfolding find_or_create_by_identity
  find_or_create_by_identity-Keeps pr uid nickname now fresh xs =
      bind_rule _ _ (lookup_identity-Keeps P h pr uid) λ o.
        bind_rule _ _ (meanwhile-Keeps P h xs)
          λ u. found_or_create-Keeps pr uid nickname now fresh o

  find_or_create_player-Keeps :
      (d : Option Text) (nickname : Option Text) (now : ℕ) (fresh : Fresh)
      (xs : List (Player × Identity))
      → Keeps P h (find_or_create_player d nickname now fresh xs)
  unfolding find_or_create_player
  find_or_create_player-Keeps (some d) nickname now fresh xs =
      find_or_create_by_identity-Keeps _ d nickname now fresh xs
  find_or_create_player-Keeps none nickname now fresh xs =
      bind_rule _ _ (meanwhile-Keeps P h xs)
        λ u. create_player-Keeps anonymous fresh.provider_uid nickname now fresh

  attempt-Stable :
      {A : Type 0}
      → (work : Fresh → List (Player × Identity) → Work A)
      → ((f : Fresh) → (xs : List (Player × Identity)) → Keeps P h (work f xs))
      → (x : Attempt) → (s : Tables) → P s
      → P (attempt work x s).1
  unfolding attempt
  attempt-Stable {A} work keeps x s k =
      after _ (rw_tx_rule x.faults s _ k (keeps x.fresh x.arrivals))
    where
      after : (r : Reply AuthError A × Tables) → P r.1 → P (rolled_back x.arrivals s r).1
      after (err e, t) q = register_all-Stable P h x.arrivals s k
      after (ok a, t) q = q

  pub run_login_tx-Stable :
      {A : Type 0}
      → (work : Fresh → List (Player × Identity) → Work A)
      → ((f : Fresh) → (xs : List (Player × Identity)) → Keeps P h (work f xs))
      → (first second : Attempt) → (s : Tables) → P s
      → P (run_login_tx work first second s).1
  unfolding run_login_tx
  run_login_tx-Stable work keeps first second s k =
      let k1 = attempt-Stable work keeps first s k in
      elim (Bool-cases (is_already_linked (attempt work first s).0)) [
        | inl e ↦
            rw (e, run_login_tx) (attempt-Stable work keeps second (attempt work first s).1 k1)
        | inr e ↦ rw (e, run_login_tx) k1
      ]

  link_found-Keeps :
      (me : ℕ) (pr : Provider) (uid : Text) (id : ℕ) (o : Option Identity)
      → Keeps P h (link_found me pr uid id o)
  link_found-Keeps me pr uid id (some i) =
      if_rule (not (i.player_id == me)) _ _ (λ e. fail_rule identity_already_linked)
        (λ e. get_by_id-Keeps P h me)
  link_found-Keeps me pr uid id none =
      bind_rule _ _ (get_by_id-Keeps P h me)
        λ p. bind_rule _ _ (save_identity-Keeps P h _) λ u. return_rule p λ s k. k

  link_work-Keeps :
      (me : ℕ) (pr : Provider) (uid : Text) (id : ℕ) → Keeps P h (link_work me pr uid id)
  unfolding link_work
  link_work-Keeps me pr uid id =
      bind_rule _ _ (lookup_identity-Keeps P h pr uid) λ o. link_found-Keeps me pr uid id o

  renamed-Keeps : (o : Option Text) (p : Player) → Keeps P h (renamed o p)
  renamed-Keeps none p = return_rule p λ s k. k
  renamed-Keeps (some name) p = or_fail-Keeps P h invalid_nickname (set_nickname (some name) p)

  update_work-Keeps : (me : ℕ) (o : Option Text) → Keeps P h (update_work me o)
  unfolding update_work
  update_work-Keeps me o = bind_rule _ _ (get_by_id-Keeps P h me) λ p.
      bind_rule _ _ (renamed-Keeps o p)
        λ q. bind_rule _ _ (save_player-Keeps P h q) λ u. return_rule q λ s k. k

module _ (P : Tables → Type 0) (h : Stable P) (tokens : TokenIssuer)
    (access_ttl refresh_ttl : ℕ) where
  pub issue_tokens-Keeps :
      (p : Player) (now : ℕ) (fresh : Fresh)
      → Keeps P h (issue_tokens tokens access_ttl refresh_ttl p now fresh)
  unfolding issue_tokens
  issue_tokens-Keeps p now fresh =
      bind_rule _ _ (or_fail-Keeps P h issuer (tokens.sign_access p.id now access_ttl)) λ access.
        bind_rule _ _ (or_fail-Keeps P h issuer fresh.refresh)
          λ raw. bind_rule _ _ (save_token-Keeps P h _) λ u. return_rule _ λ s k. k

  refresh_work-Keeps :
      (raw : Text) (now : ℕ) (fresh : Fresh)
      → Keeps P h (refresh_work tokens access_ttl refresh_ttl raw now fresh)
  unfolding refresh_work
  refresh_work-Keeps raw now fresh =
      bind_rule _ _ (find_by_hash-Keeps P h (tokens.hash_refresh raw) now) λ t.
        if_rule (not (is_active now t)) _ _ (λ e. fail_rule refresh_token_invalid)
          (λ e.
            bind_rule _ _
              (bind_rule _ _ (revoke-Keeps P h t.id now) λ u. get_by_id-Keeps P h t.player_id)
              λ p. issue_tokens-Keeps p now fresh)

  anonymous_work-Keeps :
      (d nickname : Option Text) (now : ℕ) (fresh : Fresh) (xs : List (Player × Identity))
      → Keeps P h (anonymous_work tokens access_ttl refresh_ttl d nickname now fresh xs)
  unfolding anonymous_work
  anonymous_work-Keeps d nickname now fresh xs =
      bind_rule _ _ (find_or_create_player-Keeps P h d nickname now fresh xs)
        λ p. issue_tokens-Keeps p now fresh

  oidc_work-Keeps :
      (pr : Provider) (v : VerifiedIdentity) (now : ℕ) (fresh : Fresh)
      (xs : List (Player × Identity))
      → Keeps P h (oidc_work tokens access_ttl refresh_ttl pr v now fresh xs)
  unfolding oidc_work
  oidc_work-Keeps pr v now fresh xs =
      bind_rule _ _
        (find_or_create_by_identity-Keeps P h pr v.subject (nickname_or_nil v.name) now fresh xs)
        λ p. issue_tokens-Keeps p now fresh

  pub step-Stable : (c : Call) (s : Tables) → P s → P (step tokens access_ttl refresh_ttl c s)
  unfolding step login_anonymous login_oidc link_identity refresh logout update_profile
  step-Stable (logs_in d nickname now first second) s k =
      run_login_tx-Stable P h _ (anonymous_work-Keeps d nickname now) first second s k
  step-Stable (logs_in_oidc pr none now first second) s k = k
  step-Stable (logs_in_oidc pr (some v) now first second) s k =
      run_login_tx-Stable P h _ (oidc_work-Keeps pr v now) first second s k
  step-Stable (links me pr none id faults) s k = k
  step-Stable (links me pr (some v) id faults) s k =
      rw_tx_rule faults s _ k (link_work-Keeps P h me pr v.subject id)
  step-Stable (refreshes raw now fresh faults) s k =
      rw_tx_rule faults s _ k (refresh_work-Keeps raw now fresh)
  step-Stable (logs_out me now faults) s k = rw_tx_rule faults s _ k (revoke_all-Keeps P h me now)
  step-Stable (updates me o faults) s k = rw_tx_rule faults s _ k (update_work-Keeps P h me o)

  pub run-Stable : (cs : List Call) (s : Tables) → P s → P (run tokens access_ttl refresh_ttl cs s)
  unfolding run
  run-Stable [] s k = k
  run-Stable (c ∷ cs) s k =
      run-Stable cs (step tokens access_ttl refresh_ttl c s) (step-Stable c s k)
