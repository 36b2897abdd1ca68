-- ===== src/Auth/Stable.antt =====
-- What every transaction of internal/usecase/auth/auth.go keeps: a predicate that no write of the three
-- repositories breaks.
use vfx.Base.{
  eq_of_some, ap, ◌⊎◌, ℕ, ◌≡◌, refl, sym, subst, Bool, true, false, not, ◌||◌, List, [], ◌∷◌,
  Option, none, some, any, ◌==◌, arith, Bool-cases, inl, inr,
}
use vfx.Base.Texts.{Text}
use vfx.Db.Triple.{Triple, statement_rule, bind_rule, return_rule, fail_rule, if_rule}
use vfx.Db.Steps.{keep_rule, query_rule, query_one_rule, exec_rule, exec_rows_rule}
use vfx.Db.Rows.{upsert}
use vfx.Auth.{
  get_player, find_identity, find_token, player_not_found, AuthError, Provider, Player, Identity,
  RefreshToken, Tables, Work, has_player, has_hash, has_player_id, collides, upsert_player,
  create_identity, create_token, revoke_where, has_token_id, belongs_to, get_by_id, save_player,
  lookup_identity, save_identity, save_token, find_by_hash, revoke, revoke_all_for_player,
  refresh_token_invalid, identity_already_linked,
}
use vfx.Auth.Usecase.{register, register_all, meanwhile, or_fail}

abbrev pub add_identity : Identity → Tables → Tables
add_identity i s = record s { identities = i ∷ s.identities }

abbrev pub add_token : RefreshToken → Tables → Tables
add_token t s = record s { tokens = t ∷ s.tokens }

abbrev pub same_token : RefreshToken → RefreshToken → Bool
same_token t u = u.id == t.id || has_hash t.hash u

abbrev pub revoke_tokens : (RefreshToken → Bool) → ℕ → Tables → Tables
revoke_tokens p now s = record s { tokens = revoke_where p now s.tokens }

pub record Stable (P : Tables → Type 0) : Type 0 where
  pub players : (p : Player) (s : Tables) → P s → P (upsert_player p s)
  pub identity :
      (i : Identity) (s : Tables)
      → P s
      → any (collides i) s.identities ≡ false
      → has_player i.player_id s.players ≡ true
      → P (add_identity i s)
  pub token :
      (t : RefreshToken) (s : Tables)
      → P s
      → any (same_token t) s.tokens ≡ false
      → has_player t.player_id s.players ≡ true
      → P (add_token t s)
  pub revokes : (p : RefreshToken → Bool) (now : ℕ) (s : Tables) → P s → P (revoke_tokens p now s)

has_player-upsert :
    (id : ℕ) (p : Player) (ps : List Player)
    → id ≡ p.id
    → has_player id
        (upsert (has_player_id p.id) (λ (old : Player). record old { nickname = p.nickname }) p ps)
      ≡ true
unfolding has_player upsert
has_player-upsert id p [] h = ground (arith, h)
has_player-upsert id p (q ∷ ps) h = ground (arith, h, has_player-upsert id p ps h)

pub has_player-stored :
    (p : Player) (s : Tables) → has_player p.id (upsert_player p s).players ≡ true
unfolding upsert_player
has_player-stored p s = has_player-upsert p.id p s.players refl

-- What the two insertions do.
abbrev pub Created : Identity → Tables → Bool → Tables → Type 0
Created i s b t =
    ((b ≡ true) × (t ≡ s))
    ⊎ ((b ≡ false)
        × (t ≡ add_identity i s)
        × (any (collides i) s.identities ≡ false)
        × (has_player i.player_id s.players ≡ true))

pub create_identity-cases :
    (i : Identity) (s : Tables) (b : Bool) (t : Tables)
    → create_identity i s ≡ some (b, t)
    → Created i s b t
unfolding create_identity
create_identity-cases i s b t = elim (Bool-cases (any (collides i) s.identities)) [
  | inl e ↦
      rw (e, create_identity)
        (λ y. inl (
          ap (λ (x : Bool × Tables). x.0) (eq_of_some (sym y)),
          ap (λ (x : Bool × Tables). x.1) (eq_of_some (sym y)),
        ))
  | inr e ↦ elim (Bool-cases (has_player i.player_id s.players)) [
    | inl f ↦
        rw (e, f, create_identity)
          (λ y. inr (
            ap (λ (x : Bool × Tables). x.0) (eq_of_some (sym y)),
            ap (λ (x : Bool × Tables). x.1) (eq_of_some (sym y)),
            refl,
            refl,
          ))
    | inr f ↦ rw (e, f, create_identity) (λ y. cc y)
  ]
]

pub create_token-cases :
    (r : RefreshToken) (s : Tables) (u : Unit {0}) (t : Tables)
    → create_token r s ≡ some (u, t)
    → (t ≡ add_token r s)
      × (any (same_token r) s.tokens ≡ false)
      × (has_player r.player_id s.players ≡ true)
unfolding create_token
create_token-cases r s u t = elim (Bool-cases (any (same_token r) s.tokens)) [
  | inl e ↦ rw (e, create_token) (λ y. cc y)
  | inr e ↦ elim (Bool-cases (has_player r.player_id s.players)) [
    | inl f ↦
        rw (e, f, create_token)
          (λ y. (ap (λ (x : Unit {0} × Tables). x.1) (eq_of_some (sym y)), refl, refl))
    | inr f ↦ rw (e, f, create_token) (λ y. cc y)
  ]
]

module _ (P : Tables → Type 0) (h : Stable P) where
  pub register-Stable : (x : Player × Identity) (s : Tables) → P s → P (register x s)
  unfolding register upsert_player
  register-Stable (p, i) s k =
      elim (Bool-cases (any (collides i) s.identities || not (i.player_id == p.id))) [
        | inl e ↦ rw (e, register) k
        | inr e ↦
            rw (e, register)
              (h.identity i (upsert_player p s) (h.players p s k) (ground arith)
                (has_player-upsert i.player_id p s.players (ground arith)))
      ]

  pub register_all-Stable :
      (xs : List (Player × Identity)) (s : Tables) → P s → P (register_all xs s)
  unfolding register_all
  register_all-Stable [] s k = k
  register_all-Stable (x ∷ xs) s k = register_all-Stable xs (register x s) (register-Stable x s k)

  abbrev pub Keeps : {A : Type 0} → Work A → Type 0
  Keeps m = Triple P m (λ r u. P u)

  pub meanwhile-Keeps : (xs : List (Player × Identity)) → Keeps (meanwhile xs)
  meanwhile-Keeps xs = record { ends = λ c k. register_all-Stable xs c.tables k }

  pub or_fail-Keeps : {A : Type 0} (e : AuthError) (o : Option A) → Keeps (or_fail e o)
  or_fail-Keeps e none = fail_rule e
  or_fail-Keeps e (some a) = return_rule a λ s k. k

  pub get_by_id-Keeps : (id : ℕ) → Keeps (get_by_id id)
  unfolding get_by_id
  get_by_id-Keeps id =
      keep_rule _ (λ s. s) (λ s a. get_player id s.players ≡ some a)
        (λ s. query_one_rule s (λ u. get_player id u.players) player_not_found) λ s a k e. k

  pub lookup_identity-Keeps : (pr : Provider) (uid : Text) → Keeps (lookup_identity pr uid)
  unfolding lookup_identity
  lookup_identity-Keeps pr uid =
      keep_rule _ (λ s. s) (λ s a. a ≡ find_identity pr uid s.identities)
        (λ s. query_rule s (λ u. find_identity pr uid u.identities)) λ s a k e. k

  pub find_by_hash-Keeps : (hash now : ℕ) → Keeps (find_by_hash hash now)
  unfolding find_by_hash
  find_by_hash-Keeps hash now =
      keep_rule _ (λ s. s) (λ s a. find_token hash now s.tokens ≡ some a)
        (λ s. query_one_rule s (λ u. find_token hash now u.tokens) refresh_token_invalid)
        λ s a k e. k

  pub save_player-Keeps : (p : Player) → Keeps (save_player p)
  unfolding save_player
  save_player-Keeps p =
      keep_rule _ (upsert_player p) (λ s a. Unit {0}) (λ s. exec_rule s (upsert_player p))
        λ s a k e. h.players p s k

  pub save_identity-Keeps : (i : Identity) → Keeps (save_identity i)
  unfolding save_identity
  save_identity-Keeps i =
      bind_rule _ _
        (statement_rule {Q = λ b u. P u} _
          (λ s k b t e. created i s b t k (create_identity-cases i s b t e)))
        λ b. if_rule b _ _ (λ e. fail_rule identity_already_linked) (λ e. return_rule tt λ s k. k)
    where
      created : (i : Identity) (s : Tables) (b : Bool) (t : Tables) → P s → Created i s b t → P t
      created i s b t k (inl (e, f)) = subst P (sym f) k
      created i s b t k (inr (e, f, fresh, there)) = subst P (sym f) (h.identity i s k fresh there)

  pub save_token-Keeps : (t : RefreshToken) → Keeps (save_token t)
  unfolding save_token
  save_token-Keeps t =
      statement_rule _ λ s k a u e.
        let c = create_token-cases t s a u e in subst P (sym c.0) (h.token t s k c.1 c.2)

  pub revoke-Keeps : (id now : ℕ) → Keeps (revoke id now)
  unfolding revoke
  revoke-Keeps id now =
      keep_rule _ (revoke_tokens (has_token_id id) now) _
        (λ s. exec_rows_rule s _ (revoke_tokens (has_token_id id) now) refresh_token_invalid)
        λ s a k e. h.revokes (has_token_id id) now s k

  pub revoke_all-Keeps : (player_id now : ℕ) → Keeps (revoke_all_for_player player_id now)
  unfolding revoke_all_for_player
  revoke_all-Keeps player_id now =
      keep_rule _ (revoke_tokens (belongs_to player_id) now) (λ s a. Unit {0})
        (λ s. exec_rule s (revoke_tokens (belongs_to player_id) now))
        λ s a k e. h.revokes (belongs_to player_id) now s k
