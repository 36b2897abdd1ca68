-- ===== src/Auth/Logins.antt =====
-- Which player a login of internal/usecase/auth/auth.go answers with.
use vfx.Base.{
  ℕ, ◌≡◌, refl, sym, ap, subst, ◌∙◌, List, Option, none, some, eq_of_some, Bool-cases, inl, inr,
}
use vfx.Base.Texts.{Text}
use vfx.Db.{Reply, ok, err, ◌>>◌}
use vfx.Db.Triple.{
  Triple, bind_rule, return_rule, fact_rule, consequence, rw_tx_ok, any_rule, given,
}
use vfx.Db.Steps.{then_rule, query_rule, query_one_rule}
use vfx.Auth.{
  Provider, anonymous, Player, Identity, Tables, invalid_nickname, issuer, new_player, save_player,
  Work, AuthError, find_identity, get_player, lookup_identity, get_by_id, player_not_found,
}
use vfx.Auth.Usecase.{
  TokenIssuer, VerifiedIdentity, Fresh, Attempt, or_fail, meanwhile, create_player, found_or_create,
  find_or_create_by_identity, find_or_create_player, nickname_or_nil, issue_tokens, anonymous_work,
  oidc_work, attempt, rolled_back, is_already_linked, run_login_tx,
}
use vfx.Auth.Stable.{meanwhile-Keeps, or_fail-Keeps, save_token-Keeps}
use vfx.Auth.Credentials.{
  Names, Names-Stable, BelongsTo, BelongsTo-Stable, get_player-id, save_identity-Names,
}

get_by_id-owner :
    (pr : Provider) (uid : Text) (i : Identity)
    → Triple (Names pr uid i) (get_by_id i.player_id) (λ p s. BelongsTo pr uid p s)
unfolding get_by_id
get_by_id-owner pr uid i = fact_rule _ λ s k.
    consequence _ (query_one_rule s (λ u. get_player i.player_id u.players) player_not_found)
      λ p u q. record {
        identity = i;
        names = subst (Names pr uid i) (sym q.0) k;
        owner = sym (get_player-id i.player_id s.players p q.1);
      }

create_player-BelongsTo :
    (pr : Provider) (uid : Text) (nickname : Option Text) (now : ℕ) (fresh : Fresh)
    → Triple (λ u. Unit {0}) (create_player pr uid nickname now fresh) (λ p s. BelongsTo pr uid p s)
unfolding create_player
create_player-BelongsTo pr uid nickname now fresh =
    bind_rule _ _ (any_rule (or_fail invalid_nickname (new_player fresh.player_id nickname now)))
      λ p.
        let i : Identity = record {
          id = fresh.identity_id;
          player_id = p.id;
          provider = pr;
          provider_uid = uid;
        } in
        bind_rule _ _ (bind_rule _ _ (any_rule (save_player p)) λ u. save_identity-Names i)
          λ u. return_rule p λ s k. record { identity = i; names = k; owner = refl }

found_or_create-BelongsTo :
    (pr : Provider) (uid : Text) (nickname : Option Text) (now : ℕ) (fresh : Fresh) (s : Tables)
    (xs : List (Player × Identity)) (o : Option Identity)
    → o ≡ find_identity pr uid s.identities
    → Triple
        (λ u. u ≡ s)
        (meanwhile xs >> found_or_create pr uid nickname now fresh o)
        (λ p u. BelongsTo pr uid p u)
found_or_create-BelongsTo pr uid nickname now fresh s xs none e =
    bind_rule _ _ (any_rule (meanwhile xs)) λ u. create_player-BelongsTo pr uid nickname now fresh
found_or_create-BelongsTo pr uid nickname now fresh s xs (some i) e = given _ s (sym e) (
    bind_rule _ _ (meanwhile-Keeps (Names pr uid i) (Names-Stable pr uid i) xs)
      λ u. get_by_id-owner pr uid i)

find_or_create-BelongsTo :
    (pr : Provider) (uid : Text) (nickname : Option Text) (now : ℕ) (fresh : Fresh)
    (xs : List (Player × Identity))
    → Triple
        (λ u. Unit {0})
        (find_or_create_by_identity pr uid nickname now fresh xs)
        (λ p u. BelongsTo pr uid p u)
unfolding find_or_create_by_identity lookup_identity
find_or_create-BelongsTo pr uid nickname now fresh xs = fact_rule _ λ s k.
    then_rule s s _ _ _ (query_rule s (λ u. find_identity pr uid u.identities))
      λ o e. found_or_create-BelongsTo pr uid nickname now fresh s xs o e

module _ (tokens : TokenIssuer) (access_ttl refresh_ttl : ℕ) where
  issue_tokens-BelongsTo :
      (pr : Provider) (uid : Text) (p : Player) (now : ℕ) (fresh : Fresh)
      → Triple
          (BelongsTo pr uid p)
          (issue_tokens tokens access_ttl refresh_ttl p now fresh)
          (λ r u. BelongsTo pr uid r.player u)
  unfolding issue_tokens
  issue_tokens-BelongsTo pr uid p now fresh =
      let K = BelongsTo-Stable pr uid p in
      bind_rule _ _ (or_fail-Keeps _ K issuer (tokens.sign_access p.id now access_ttl)) λ access.
        bind_rule _ _ (or_fail-Keeps _ K issuer fresh.refresh)
          λ raw. bind_rule _ _ (save_token-Keeps _ K _) λ u. return_rule _ λ s k. k

  pub anonymous_work-BelongsTo :
      (d : Text) (nickname : Option Text) (now : ℕ) (fresh : Fresh) (xs : List (Player × Identity))
      → Triple
          (λ u. Unit {0})
          (anonymous_work tokens access_ttl refresh_ttl (some d) nickname now fresh xs)
          (λ r u. BelongsTo anonymous d r.player u)
  unfolding anonymous_work find_or_create_player
  anonymous_work-BelongsTo d nickname now fresh xs =
      bind_rule _ _ (find_or_create-BelongsTo anonymous d nickname now fresh xs)
        λ p. issue_tokens-BelongsTo anonymous d p now fresh

  pub oidc_work-BelongsTo :
      (pr : Provider) (v : VerifiedIdentity) (now : ℕ) (fresh : Fresh)
      (xs : List (Player × Identity))
      → Triple
          (λ u. Unit {0})
          (oidc_work tokens access_ttl refresh_ttl pr v now fresh xs)
          (λ r u. BelongsTo pr v.subject r.player u)
  unfolding oidc_work
  oidc_work-BelongsTo pr v now fresh xs =
      bind_rule _ _ (find_or_create-BelongsTo pr v.subject (nickname_or_nil v.name) now fresh xs)
        λ p. issue_tokens-BelongsTo pr v.subject p now fresh

attempt-ok :
    {A : Type 0} {Q : A → Tables → Type 0}
    → (work : Fresh → List (Player × Identity) → Work A)
    → ((f : Fresh) → (xs : List (Player × Identity)) → Triple (λ u. Unit {0}) (work f xs) Q)
    → (x : Attempt) → (s : Tables) → (a : A) → (attempt work x s).0 ≡ ok a
    → Q a (attempt work x s).1
unfolding attempt
attempt-ok {A} {Q} work h x s a =
    after _ (λ y. rw_tx_ok x.faults s (work x.fresh x.arrivals) a tt (h x.fresh x.arrivals) y)
  where
    after :
        (r : Reply AuthError A × Tables)
        → (r.0 ≡ ok a → Q a r.1)
        → (rolled_back x.arrivals s r).0 ≡ ok a
        → Q a (rolled_back x.arrivals s r).1
    after (err e, t) k y = cc y
    after (ok b, t) k y = k y

-- What a login that succeeds has established, at its first attempt or its second.
pub run_login_tx-ok :
    {A : Type 0} {Q : A → Tables → Type 0}
    → (work : Fresh → List (Player × Identity) → Work A)
    → ((f : Fresh) → (xs : List (Player × Identity)) → Triple (λ u. Unit {0}) (work f xs) Q)
    → (first second : Attempt) → (s : Tables) → (a : A)
    → (run_login_tx work first second s).0 ≡ ok a
    → Q a (run_login_tx work first second s).1
unfolding run_login_tx
run_login_tx-ok work h first second s a =
    elim (Bool-cases (is_already_linked (attempt work first s).0)) [
      | inl e ↦ rw (e, run_login_tx) (attempt-ok work h second (attempt work first s).1 a)
      | inr e ↦ rw (e, run_login_tx) (attempt-ok work h first s a)
    ]

pub BelongsTo-eq :
    (pr : Provider) (uid : Text) (i : Identity) (p : Player) (s : Tables)
    → Names pr uid i s
    → BelongsTo pr uid p s
    → p.id ≡ i.player_id
BelongsTo-eq pr uid i p s k b =
    let same : b.identity ≡ i = eq_of_some (sym b.names ∙ k) in
    sym (ap (λ (x : Identity). x.player_id) (sym same) ∙ b.owner)
