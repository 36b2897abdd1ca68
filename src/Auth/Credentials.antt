-- ===== src/Auth/Credentials.antt =====
-- Which player a credential belongs to: the rows of internal/infra/repository/identity.go.
use vfx.Base.{
  ℕ, ◌≡◌, refl, sym, subst, Bool, true, false, List, [], ◌∷◌, some, any, arith, Bool-cases, inl,
  inr,
}
use vfx.Base.Texts.{Text, text_eq_iff}
use vfx.Db.Triple.{Triple, bind_rule, return_rule, fail_rule, if_rule, statement_rule}
use vfx.Db.Rows.{select}
use vfx.Auth.{
  Provider, anonymous, google, apple, provider_eq, Player, Identity, Tables, is_identity,
  save_identity, create_identity, identity_already_linked, collides, find_identity, get_player,
  upsert_player,
}
use vfx.Auth.Stable.{Stable, Created, create_identity-cases}

-- The identity that a credential belongs to.
abbrev pub Names : Provider → Text → Identity → Tables → Type 0
Names pr uid i s = find_identity pr uid s.identities ≡ some i

provider_eq_iff : (a b : Provider) → provider_eq a b ≡ true → a ≡ b
provider_eq_iff anonymous anonymous h = refl
provider_eq_iff google google h = refl
provider_eq_iff apple apple h = refl
provider_eq_iff anonymous google h = cc h
provider_eq_iff anonymous apple h = cc h
provider_eq_iff google anonymous h = cc h
provider_eq_iff google apple h = cc h
provider_eq_iff apple anonymous h = cc h
provider_eq_iff apple google h = cc h

collides-named :
    (j : Identity) (is : List Identity) (i : Identity)
    → find_identity j.provider j.provider_uid is ≡ some i
    → any (collides j) is ≡ true
unfolding find_identity
collides-named j [] i k = cc
collides-named j (x ∷ is) i k = ground (arith, collides-named j is i)

named-apart :
    (pr : Provider) (uid : Text) (j i : Identity) (is : List Identity)
    → find_identity pr uid is ≡ some i
    → any (collides j) is ≡ false
    → is_identity pr uid j ≡ false
named-apart pr uid j i is h k = elim (Bool-cases (is_identity pr uid j)) [
  | inr e ↦ e
  | inl e ↦
      let same_provider : j.provider ≡ pr = provider_eq_iff j.provider pr (ground (arith, e)) in
      let same_uid : j.provider_uid ≡ uid =
        (text_eq_iff j.provider_uid uid).0 (ground (arith, e)) in
      let found : find_identity j.provider j.provider_uid is ≡ some i =
        rw (same_provider, same_uid) h in
      cc (k, collides-named j is i found)
]

pub Names-Stable : (pr : Provider) (uid : Text) (i : Identity) → Stable (Names pr uid i)
unfolding upsert_player find_identity select
Names-Stable pr uid i = record {
  players = λ p s k. k;
  identity = λ j s k fresh there. rw (named-apart pr uid j i s.identities k fresh) k;
  token = λ t s k fresh there. k;
  revokes = λ p now s k. k;
}

-- The credential belongs to the player.
pub record BelongsTo (pr : Provider) (uid : Text) (p : Player) (s : Tables) : Type 0 where
  pub identity : Identity
  pub names : Names pr uid identity s
  pub owner : identity.player_id ≡ p.id

pub BelongsTo-Stable : (pr : Provider) (uid : Text) (p : Player) → Stable (BelongsTo pr uid p)
BelongsTo-Stable pr uid p = record {
  players = λ q s k. record {
    identity = k.identity;
    names = (Names-Stable pr uid k.identity).players q s k.names;
    owner = k.owner;
  };
  identity = λ j s k fresh there. record {
    identity = k.identity;
    names = (Names-Stable pr uid k.identity).identity j s k.names fresh there;
    owner = k.owner;
  };
  token = λ t s k fresh there. record {
    identity = k.identity;
    names = (Names-Stable pr uid k.identity).token t s k.names fresh there;
    owner = k.owner;
  };
  revokes = λ f now s k. record {
    identity = k.identity;
    names = (Names-Stable pr uid k.identity).revokes f now s k.names;
    owner = k.owner;
  };
}

pub get_player-id : (id : ℕ) (ps : List Player) (p : Player) → get_player id ps ≡ some p → p.id ≡ id
unfolding get_player
get_player-id id [] p h = cc
get_player-id id (q ∷ ps) p h = ground (arith, get_player-id id ps p)

is_identity_self : (i : Identity) → is_identity i.provider i.provider_uid i ≡ true
is_identity_self i =
    ground (arith, provider_eq_self i.provider, (text_eq_iff i.provider_uid i.provider_uid).1 refl)
  where
    provider_eq_self : (a : Provider) → provider_eq a a ≡ true
    provider_eq_self anonymous = refl
    provider_eq_self google = refl
    provider_eq_self apple = refl

pub save_identity-Names :
    {P : Tables → Type 0}
    → (i : Identity) → Triple P (save_identity i) (λ u s. Names i.provider i.provider_uid i s)
unfolding save_identity find_identity
save_identity-Names {P} i =
    bind_rule _ _
      (statement_rule {Q = λ b s. b ≡ false → Names i.provider i.provider_uid i s} _ created)
      λ b. if_rule b _ _ (λ e. fail_rule identity_already_linked) (λ e. return_rule tt λ s k. k e)
  where
    put :
        (s : Tables) (b : Bool) (t : Tables)
        → Created i s b t
        → b ≡ false
        → Names i.provider i.provider_uid i t
    put s b t (inl (e, f)) h = cc (e, h)
    put s b t (inr (e, f, fresh, there)) h =
        subst (Names i.provider i.provider_uid i) (sym f) (rw (is_identity_self i) refl)

    created :
        (s : Tables)
        → P s
        → (b : Bool) → (t : Tables) → create_identity i s ≡ some (b, t)
        → b ≡ false
        → Names i.provider i.provider_uid i t
    created s k b t e = put s b t (create_identity-cases i s b t e)
