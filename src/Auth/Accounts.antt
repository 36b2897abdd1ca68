-- ===== src/Auth/Accounts.antt =====
-- A credential and the account that it opens, over sequences of calls of internal/usecase/auth/auth.go.
use vfx.Base.{
  ℕ, ◌≡◌, refl, sym, subst, ◌∙◌, Bool, not, List, Option, none, some, ◌==◌, ==_iff, arith,
}
use vfx.Base.Texts.{Text}
use vfx.Db.{ok}
use vfx.Db.Triple.{
  Triple, bind_rule, return_rule, fail_rule, if_rule, fact_rule, consequence, rw_tx_ok, given,
}
use vfx.Db.Steps.{then_rule, query_rule, query_one_rule}
use vfx.Auth.{
  Provider, anonymous, Player, Identity, Tables, find_identity, get_player, get_by_id,
  lookup_identity, player_not_found, identity_already_linked,
}
use vfx.Auth.Usecase.{
  TokenIssuer, VerifiedIdentity, Attempt, LoginResult, login_anonymous, login_oidc, link_found,
  link_work, link_identity,
}
use vfx.Auth.Stable.{Stable}
use vfx.Auth.Runs.{Call, logs_in, logs_in_oidc, step, step-Stable, run, run-Stable}
use vfx.Auth.Credentials.{Names-Stable, BelongsTo, get_player-id, save_identity-Names}
use vfx.Auth.Logins.{BelongsTo-eq, anonymous_work-BelongsTo, oidc_work-BelongsTo, run_login_tx-ok}

get_by_id-id :
    {P : Tables → Type 0} → Stable P → (id : ℕ) → Triple P (get_by_id id) (λ p s. P s × (p.id ≡ id))
unfolding get_by_id
get_by_id-id {P} h id = fact_rule _ λ s k.
    consequence _ (query_one_rule s (λ u. get_player id u.players) player_not_found)
      λ p u q. (subst P (sym q.0) k, get_player-id id s.players p q.1)

link_found-BelongsTo :
    (me : ℕ) (pr : Provider) (uid : Text) (id : ℕ) (s : Tables) (o : Option Identity)
    → o ≡ find_identity pr uid s.identities
    → Triple (λ u. u ≡ s) (link_found me pr uid id o) (λ p u. BelongsTo pr uid p u × (p.id ≡ me))
unfolding get_by_id
link_found-BelongsTo me pr uid id s (some i) e =
    if_rule (not (i.player_id == me)) _ _ (λ y. fail_rule identity_already_linked)
      (λ y.
        let mine : i.player_id ≡ me = (==_iff i.player_id me).0 (ground (arith, y)) in
        given _ s (sym e) (
          consequence _ (get_by_id-id (Names-Stable pr uid i) me)
            λ p u q. (record { identity = i; names = q.0; owner = mine ∙ sym q.1 }, q.1)))
link_found-BelongsTo me pr uid id s none e =
    let i : Identity = record { id = id; player_id = me; provider = pr; provider_uid = uid } in
    then_rule s s _ _ _ (query_one_rule s (λ u. get_player me u.players) player_not_found)
      λ p found.
        let mine = get_player-id me s.players p found in
        bind_rule _ _ (save_identity-Names i)
          λ x. return_rule p λ u k. (record { identity = i; names = k; owner = sym mine }, mine)

link_work-BelongsTo :
    (me : ℕ) (pr : Provider) (uid : Text) (id : ℕ) (s : Tables)
    → Triple (λ u. u ≡ s) (link_work me pr uid id) (λ p u. BelongsTo pr uid p u × (p.id ≡ me))
unfolding link_work lookup_identity
link_work-BelongsTo me pr uid id s =
    then_rule s s _ _ _ (query_rule s (λ u. find_identity pr uid u.identities))
      λ o e. link_found-BelongsTo me pr uid id s o e

module _ (tokens : TokenIssuer) (access_ttl refresh_ttl : ℕ) where
  login_anonymous-BelongsTo :
      (d : Text) (nickname : Option Text) (now : ℕ) (first second : Attempt) (s : Tables)
      (r : LoginResult)
      → (login_anonymous tokens access_ttl refresh_ttl (some d) nickname now first second s).0
        ≡ ok r
      → BelongsTo anonymous d r.player
          (login_anonymous tokens access_ttl refresh_ttl (some d) nickname now first second s).1
  unfolding login_anonymous
  login_anonymous-BelongsTo d nickname now first second s r =
      run_login_tx-ok {Q = λ q u. BelongsTo anonymous d q.player u} _
        (anonymous_work-BelongsTo tokens access_ttl refresh_ttl d nickname now) first second s r

  login_oidc-BelongsTo :
      (pr : Provider) (v : VerifiedIdentity) (now : ℕ) (first second : Attempt) (s : Tables)
      (r : LoginResult)
      → (login_oidc tokens access_ttl refresh_ttl pr (some v) now first second s).0 ≡ ok r
      → BelongsTo pr v.subject r.player
          (login_oidc tokens access_ttl refresh_ttl pr (some v) now first second s).1
  unfolding login_oidc
  login_oidc-BelongsTo pr v now first second s r =
      run_login_tx-ok {Q = λ q u. BelongsTo pr v.subject q.player u} _
        (oidc_work-BelongsTo tokens access_ttl refresh_ttl pr v now) first second s r

  -- The same device opens the same account: of two successful anonymous logins with one device id, the
  -- later one answers with the player of the earlier one, whatever calls come between, whichever
  -- statements fail and whoever arrives meanwhile.
  pub login_anonymous_same :
      (d : Text) (nickname rename : Option Text) (now later : ℕ) (x y z w : Attempt) (s : Tables)
      (r q : LoginResult) (cs : List Call)
      → (login_anonymous tokens access_ttl refresh_ttl (some d) nickname now x y s).0 ≡ ok r
      → (login_anonymous tokens access_ttl refresh_ttl (some d) rename later z w (
          run tokens access_ttl refresh_ttl cs
            (login_anonymous tokens access_ttl refresh_ttl (some d) nickname now x y s).1)).0
        ≡ ok q
      → q.player.id ≡ r.player.id
  unfolding step
  login_anonymous_same d nickname rename now later x y z w s r q cs h k =
      let b = login_anonymous-BelongsTo d nickname now x y s r h in
      let keep = Names-Stable anonymous d b.identity in
      let t =
        run tokens access_ttl refresh_ttl cs
          (login_anonymous tokens access_ttl refresh_ttl (some d) nickname now x y s).1 in
      let kept = run-Stable _ keep tokens access_ttl refresh_ttl cs _ b.names in
      let last =
        step-Stable _ keep tokens access_ttl refresh_ttl (logs_in (some d) rename later z w) t
          kept in
      BelongsTo-eq anonymous d b.identity q.player _ last
        (login_anonymous-BelongsTo d rename later z w t q k)
      ∙ b.owner

  -- Once LinkIdentity has attached an identity to a player, a successful login with it answers with
  -- this player, whatever calls come between, whichever statements fail and whoever arrives meanwhile.
  pub login_oidc-link_identity :
      (me : ℕ) (pr : Provider) (v u : VerifiedIdentity) (id : ℕ) (faults : List Bool) (s : Tables)
      (p : Player) (cs : List Call) (later : ℕ) (z w : Attempt) (q : LoginResult)
      → v.subject ≡ u.subject
      → (link_identity me pr (some v) id faults s).0 ≡ ok p
      → (login_oidc tokens access_ttl refresh_ttl pr
          (some u)
          later
          z
          w
          (run tokens access_ttl refresh_ttl cs (link_identity me pr (some v) id faults s).1)).0
        ≡ ok q
      → q.player.id ≡ me
  unfolding step link_identity
  login_oidc-link_identity me pr v u id faults s p cs later z w q same h k =
      let linked = rw_tx_ok faults s _ p refl (link_work-BelongsTo me pr v.subject id s) h in
      let b = linked.0 in
      let keep = Names-Stable pr v.subject b.identity in
      let t = run tokens access_ttl refresh_ttl cs (link_identity me pr (some v) id faults s).1 in
      let kept = run-Stable _ keep tokens access_ttl refresh_ttl cs _ b.names in
      let last =
        step-Stable _ keep tokens access_ttl refresh_ttl (logs_in_oidc pr (some u) later z w) t
          kept in
      let c = login_oidc-BelongsTo pr u later z w t q k in
      let end = (login_oidc tokens access_ttl refresh_ttl pr (some u) later z w t).1 in
      BelongsTo-eq pr v.subject b.identity q.player end last
        (subst (λ x. BelongsTo pr x q.player end) (sym same) c)
      ∙ b.owner
      ∙ linked.1
