-- ===== src/Valkey/Claims.antt =====
-- internal/infra/matchqueue/valkey.go: claims of replicas that send commands to one server, in any order.
use mathlib.Core.List.{Memᴰ}
use mathlib.Core.List.Memᴰ.{head, tail}
use vfx.Base.{
  ℕ, arith, ◌==◌, ==_iff, true, false, none, List, [], ◌∷◌, ◌≡◌, ◌⊎◌, refl, ap, subst, String, map,
  All, Bool-cases, Option-cases, inl, inr,
}
use vfx.Matchmaker.{value, failure}
use vfx.Valkey.{Codec, Server, Key, pending_key}
use vfx.Valkey.Operations.{all_there, remove_all, claim_script, claim}

-- The commands that replicas send, apart from scripts, and the scripts of Claim.
pub data Command (F Str : Type 0) : Type 0 where
  sets_nx sets : Key → Str → ℕ → Command F Str
  gets zcards zranges : Key → Command F Str
  zadds : Key → F → Str → Command F Str
  zrems xadds : Key → Str → Command F Str
  expires : Key → ℕ → Command F Str

pub data Step (F Str : Type 0) : Type 0 where
  sends : Command F Str → Step F Str
  claims : String → List ℕ → Step F Str

-- A step that puts a member into a sorted set.
abbrev pub Adds : {F Str : Type 0} → Key → Str → Step F Str → Type 0
Adds k m (sends (zadds j x n)) = (k ≡ j) × (m ≡ n)
Adds k m _ = ⊥

module _ {S F Str : Type 0} (c : Codec F Str) (sv : Server S F Str) where
  abbrev pub sent : Command F Str → S → S
  sent (sets_nx k v ttl) s = (sv.set_nx k v ttl s).1
  sent (sets k v ttl) s = (sv.set k v ttl s).1
  sent (gets k) s = (sv.get k s).1
  sent (zcards k) s = (sv.zcard k s).1
  sent (zranges k) s = (sv.zrange k s).1
  sent (zadds k x m) s = (sv.zadd k x m s).1
  sent (zrems k m) s = (sv.zrem k m s).1
  sent (xadds k v) s = (sv.xadd k v s).1
  sent (expires k ttl) s = (sv.expire k ttl s).1

  unfoldable pub run : List (Step F Str) → S → S
  run [] s = s
  run (sends command ∷ steps) s = run steps (sent command s)
  run (claims mode ids ∷ steps) s = run steps (claim c sv mode ids s).1

  -- What a Valkey server documents: a member is missing after its removal, only ZADD puts it back, and
  -- a script runs whole, or not at all when the call fails, or its answer is lost.
  pub record IsSorted : Type 0 where
    pub removed : (k : Key) (m : Str) (s : S) → sv.zscore k m (sv.zrem_now k m s) ≡ none
    pub removes_only :
        (k j : Key) (m n : Str) (s : S)
        → sv.zscore k m s ≡ none
        → sv.zscore k m (sv.zrem_now j n s) ≡ none
    pub adds_only :
        (k : Key) (m : Str) (command : Command F Str) (s : S)
        → ¬ Adds k m (sends command)
        → sv.zscore k m s ≡ none
        → sv.zscore k m (sent command s) ≡ none
    pub atomic :
        (f : S → ℕ × S) (s : S)
        → (sv.eval f s ≡ (value (f s).0, (f s).1))
          ⊎ ((e : String) × (sv.eval f s ≡ (failure e, s)))
          ⊎ ((e : String) × (sv.eval f s ≡ (failure e, (f s).1)))

  module _ (law : IsSorted) where
    remove_all-keeps :
        (k j : Key) (m : Str) (ms : List Str) (s : S)
        → sv.zscore k m s ≡ none
        → sv.zscore k m (remove_all sv j ms s) ≡ none
    unfolding remove_all
    remove_all-keeps k j m [] s h = h
    remove_all-keeps k j m (n ∷ ms) s h = remove_all-keeps k j m ms _ (law.removes_only k j m n s h)

    remove_all-removes :
        (k : Key) (m : Str) (ms : List Str) (s : S)
        → Memᴰ m ms
        → sv.zscore k m (remove_all sv k ms s) ≡ none
    unfolding remove_all
    remove_all-removes k m [] s i = elim i [ ]
    remove_all-removes k m (n ∷ ms) s (head e) =
        remove_all-keeps k k m ms _
          (subst (λ x. sv.zscore k m (sv.zrem_now k x s) ≡ none) e (law.removed k m s))
    remove_all-removes k m (n ∷ ms) s (tail i) = remove_all-removes k m ms _ i

    all_there-missing :
        (k : Key) (m : Str) (ms : List Str) (s : S)
        → Memᴰ m ms
        → sv.zscore k m s ≡ none
        → all_there sv k ms s ≡ false
    unfolding all_there
    all_there-missing k m [] s i h = elim i [ ]
    all_there-missing k m (n ∷ ms) s (head e) h =
        rw (subst (λ x. sv.zscore k x s ≡ none) e h, all_there) refl
    all_there-missing k m (n ∷ ms) s (tail i) h = elim (Option-cases (sv.zscore k n s)) [
      | inl none_there ↦ rw (none_there, all_there) refl
      | inr (x, there) ↦ rw (there, all_there) (all_there-missing k m ms s i h)
    ]

    script_won :
        (k : Key) (ms : List Str) (s : S)
        → (claim_script sv k ms s).0 ≡ 1
        → (claim_script sv k ms s).1 ≡ remove_all sv k ms s
    unfolding claim_script
    script_won k ms s won = elim (Bool-cases (all_there sv k ms s)) [
      | inl all ↦ rw all refl
      | inr lost ↦ absurd (omega (arith, rw lost at won))
    ]

    script_lost :
        (k : Key) (ms : List Str) (s : S)
        → all_there sv k ms s ≡ false
        → claim_script sv k ms s ≡ (0, s)
    unfolding claim_script
    script_lost k ms s lost = rw lost refl

    -- A claim that is told that it won has removed its members.
    claim-won :
        (mode : String) (ids : List ℕ) (s : S)
        → (claim c sv mode ids s).0 ≡ value true
        → (claim c sv mode ids s).1 ≡ remove_all sv (pending_key mode) (map c.uuid_text ids) s
    unfolding claim
    claim-won mode ids s won = elim (law.atomic script s) [
      | inl ran ↦
          let told : ((script s).0 == 1) ≡ true = cc (rw ran at won) in
          rw ran
            (script_won (pending_key mode) (map c.uuid_text ids) s ((==_iff (script s).0 1).0 told))
      | inr (inl (e, not_run)) ↦ cc (rw not_run at won)
      | inr (inr (e, unheard)) ↦ cc (rw unheard at won)
    ]
      where
        script : S → ℕ × S
        script = claim_script sv (pending_key mode) (map c.uuid_text ids)

    abbrev pub Loses : String → List ℕ → S → Type 0
    Loses mode ids s =
        (claim c sv mode ids s ≡ (value false, s))
        ⊎ ((e : String) × (claim c sv mode ids s ≡ (failure e, s)))

    claim-lost :
        (mode : String) (ids : List ℕ) (s : S)
        → all_there sv (pending_key mode) (map c.uuid_text ids) s ≡ false
        → Loses mode ids s
    unfolding claim
    claim-lost mode ids s lost =
        let out = script_lost (pending_key mode) (map c.uuid_text ids) s lost in
        elim (law.atomic (claim_script sv (pending_key mode) (map c.uuid_text ids)) s) [
          | inl ran ↦ inl (rw ran (rw out refl))
          | inr (inl (e, not_run)) ↦ inr (e, rw not_run refl)
          | inr (inr (e, unheard)) ↦ inr (e, rw unheard (rw out refl))
        ]

    claim-keeps :
        (k : Key) (m : Str) (mode : String) (ids : List ℕ) (s : S)
        → sv.zscore k m s ≡ none
        → sv.zscore k m (claim c sv mode ids s).1 ≡ none
    unfolding claim
    claim-keeps k m mode ids s h =
        elim (law.atomic (claim_script sv (pending_key mode) (map c.uuid_text ids)) s) [
          | inl ran ↦ rw ran (kept (pending_key mode) (map c.uuid_text ids))
          | inr (inl (e, not_run)) ↦ rw not_run h
          | inr (inr (e, unheard)) ↦ rw unheard (kept (pending_key mode) (map c.uuid_text ids))
        ]
      where
        kept : (j : Key) (ms : List Str) → sv.zscore k m (claim_script sv j ms s).1 ≡ none
        kept j ms = elim (Bool-cases (all_there sv j ms s)) [
          | inl all ↦ rw (all, claim_script) (remove_all-keeps k j m ms s h)
          | inr lost ↦ rw (lost, claim_script) h
        ]

    run-keeps :
        (k : Key) (m : Str) (steps : List (Step F Str)) (s : S)
        → All (λ step. ¬ Adds k m step) steps
        → sv.zscore k m s ≡ none
        → sv.zscore k m (run steps s) ≡ none
    unfolding run
    run-keeps k m [] s own h = h
    run-keeps k m (sends command ∷ steps) s own h =
        run-keeps k m steps _ own.1 (law.adds_only k m command s own.0 h)
    run-keeps k m (claims mode ids ∷ steps) s own h =
        run-keeps k m steps _ own.1 (claim-keeps k m mode ids s h)

    mem-map : (id : ℕ) (ids : List ℕ) → Memᴰ id ids → Memᴰ (c.uuid_text id) (map c.uuid_text ids)
    mem-map id [] i = elim i [ ]
    mem-map id (x ∷ ids) (head e) = head (ap c.uuid_text e)
    mem-map id (x ∷ ids) (tail i) = tail (mem-map id ids i)

    -- Whatever commands and claims the replicas send to a server that keeps its documented laws after a
    -- Claim that won, in whatever order, as long as none of them puts a ticket of that Claim back into
    -- the pool, a Claim that names the ticket does not win, and changes nothing.
    pub claim-Loses :
        (mode : String) (ids ids' : List ℕ) (s : S) (steps : List (Step F Str)) (id : ℕ)
        → (claim c sv mode ids s).0 ≡ value true
        → All (λ step. ¬ Adds (pending_key mode) (c.uuid_text id) step) steps
        → Memᴰ id ids
        → Memᴰ id ids'
        → Loses mode ids' (run steps (claim c sv mode ids s).1)
    claim-Loses mode ids ids' s steps id won own i i' =
        let k = pending_key mode in
        let m = c.uuid_text id in
        let gone : sv.zscore k m (claim c sv mode ids s).1 ≡ none =
          rw (claim-won mode ids s won)
            (remove_all-removes k m (map c.uuid_text ids) s (mem-map id ids i)) in
        claim-lost mode ids' _ (
          all_there-missing k m (map c.uuid_text ids') _ (mem-map id ids' i')
            (run-keeps k m steps _ own gone))
