-- ===== src/Queue/Channels.antt =====
-- What publishLocked and detach do to the channels, when they are open and not listed twice.
use mathlib.Core.List.{Memᴰ}
use mathlib.Core.List.Memᴰ.{head, tail}
use vfx.Base.{
  ℕ, ◌≤◌, Bool, true, false, some, List, [], ◌∷◌, ◌++◌, ◌≡◌, ◌≢◌, refl, sym, subst, ◌∙◌, ◌==◌,
  if◌then◌else◌, ltb, get_elem?, length, length-append, arith, All, All-mem, Bool-cases, eq_of_some,
  inl, inr,
}
use vfx.Queue.{
  Channel, Event, Outcome, done, ◌>>=◌, set, capacity, try_send, close, at_channel, deliver,
}
use vfx.Queue.Assoc.{get_elem?-set_self, get_elem?-set_ne}

abbrev pub IsOpen : List Channel → ℕ → Type 0
IsOpen cs ch = (c : Channel) × (get_elem? cs ch ≡ some c) × (c.closed ≡ false)

abbrev pub IsShut : List Channel → ℕ → Type 0
IsShut cs ch = (c : Channel) × (get_elem? cs ch ≡ some c) × (c.closed ≡ true)

abbrev pub IsDistinct : List ℕ → Type 0
IsDistinct [] = Unit {0}
IsDistinct (x ∷ xs) = All (λ y. x ≢ y) xs × IsDistinct xs

-- No buffer holds more than its capacity.
pub record IsBounded (cs : List Channel) : Type 0 where
  pub at : (ch : ℕ) (c : Channel) → get_elem? cs ch ≡ some c → length c.buffer ≤ capacity

-- A write of one channel.
module _ (cs : List Channel) (ch : ℕ) (c d : Channel) (at : get_elem? cs ch ≡ some c) where
  pub set-IsOpen : d.closed ≡ false → (j : ℕ) → IsOpen cs j → IsOpen (set cs ch d) j
  set-IsOpen h j o = elim (Bool-cases (ch == j)) [
    | inl e ↦ (
      d,
      subst (λ k. get_elem? (set cs ch d) k ≡ some d) (ground arith)
          (get_elem?-set_self cs ch d c at),
      h,
    )
    | inr e ↦ (o.0, get_elem?-set_ne cs {i = ch} {j = j} d (ground arith) ∙ o.1, o.2)
  ]

  pub set-IsBounded : length d.buffer ≤ capacity → IsBounded cs → IsBounded (set cs ch d)
  set-IsBounded h b = record {
    at = λ j x e. elim (Bool-cases (ch == j)) [
      | inl same ↦
          let self = get_elem?-set_self cs ch d c at in
          let here : ch ≡ j = ground arith in
          let eq : d ≡ x =
            eq_of_some (sym self ∙ subst (λ k. get_elem? (set cs ch d) k ≡ some x) (sym here) e) in
          subst (λ (y : Channel). length y.buffer ≤ capacity) eq h
      | inr other ↦ b.at j x (sym (get_elem?-set_ne cs {i = ch} {j = j} d (ground arith)) ∙ e)
    ];
  }

-- The channel after an event has been offered to it.
abbrev pub offered : Event → Channel → Channel
offered e c = if ltb (length c.buffer) capacity then record c { buffer = c.buffer ++ e ∷ [] } else c

offered-closed : (e : Event) (c : Channel) → (offered e c).closed ≡ c.closed
offered-closed e c = ground arith

offered-le :
    (e : Event) (c : Channel) → length c.buffer ≤ capacity → length (offered e c).buffer ≤ capacity
offered-le e c h = elim (Bool-cases (ltb (length c.buffer) capacity)) [
  | inl t ↦ rw t (let more = length-append c.buffer (e ∷ []) in ground arith)
  | inr t ↦ rw t h
]

-- What the delivery of an event does: it reaches open channels only, leaves the others alone, and
-- closes its own exactly when the event is terminal.
pub record Delivered (terminal : Bool) (subs : List ℕ) (cs cs' : List Channel) : Type 0 where
  pub others : (j : ℕ) → (Memᴰ j subs → ⊥) → get_elem? cs' j ≡ get_elem? cs j
  pub stay_open : terminal ≡ false → (j : ℕ) → IsOpen cs j → IsOpen cs' j
  pub shut : terminal ≡ true → All (IsShut cs') subs
  pub bounded : IsBounded cs → IsBounded cs'

abbrev pub Delivers : Event → Bool → List ℕ → List Channel → Type 0
Delivers e terminal subs cs =
    (cs' : List Channel) × (deliver e terminal subs cs ≡ done cs') × Delivered terminal subs cs cs'

abbrev shut_after : Event → Channel → Channel
shut_after e c = record (offered e c) { closed = true }

pub at_channel-some :
    (f : Channel → Outcome Channel) (cs : List Channel) (ch : ℕ) (c : Channel)
    → get_elem? cs ch ≡ some c
    → at_channel f cs ch ≡ (f c >>= λ c'. done (set cs ch c'))
unfolding at_channel
at_channel-some f cs ch c at = rw (at, at_channel)

send_open : (e : Event) (c : Channel) → c.closed ≡ false → try_send e c ≡ done (offered e c)
unfolding try_send
send_open e c h = rw h

pub close_open : (c : Channel) → c.closed ≡ false → close c ≡ done (record c { closed = true })
unfolding close
close_open c h = rw h

deliver_open :
    (e : Event) (ch : ℕ) (subs : List ℕ) (cs : List Channel) (c : Channel)
    → get_elem? cs ch ≡ some c
    → c.closed ≡ false
    → deliver e false (ch ∷ subs) cs ≡ deliver e false subs (set cs ch (offered e c))
unfolding deliver
deliver_open e ch subs cs c at h = rw (at_channel-some (try_send e) cs ch c at, send_open e c h)

deliver_shut :
    (e : Event) (ch : ℕ) (subs : List ℕ) (cs : List Channel) (c : Channel)
    → get_elem? cs ch ≡ some c
    → c.closed ≡ false
    → deliver e true (ch ∷ subs) cs
      ≡ deliver e true subs (set (set cs ch (offered e c)) ch (shut_after e c))
unfolding deliver
deliver_shut e ch subs cs c at h = rw (
  at_channel-some (try_send e) cs ch c at,
  send_open e c h,
  at_channel-some close (set cs ch (offered e c)) ch (offered e c)
      (get_elem?-set_self cs ch (offered e c) c at),
  close_open (offered e c) (offered-closed e c ∙ h),
)

pub not-mem : (x : ℕ) (xs : List ℕ) → All (λ y. x ≢ y) xs → Memᴰ x xs → ⊥
not-mem x xs h m = All-mem _ xs h m refl

module _ (e : Event) (ch : ℕ) (subs : List ℕ) (cs : List Channel) (c : Channel)
    (at : get_elem? cs ch ≡ some c) (fresh : All (λ y. ch ≢ y) subs) where
  ne_of_not-mem : (j : ℕ) → (Memᴰ j (ch ∷ subs) → ⊥) → ch ≢ j
  ne_of_not-mem j n same = n (head (sym same))

  open_case :
      c.closed ≡ false
      → Delivers e false subs (set cs ch (offered e c))
      → Delivers e false (ch ∷ subs) cs
  open_case h (cs', eq, d) = (
    cs',
    deliver_open e ch subs cs c at h ∙ eq,
    record {
      others = λ j n.
          d.others j (λ m. n (tail m))
          ∙ get_elem?-set_ne cs {i = ch} {j = j} (offered e c) (ne_of_not-mem j n);
      stay_open = λ t j o.
          d.stay_open t j (set-IsOpen cs ch c (offered e c) at (offered-closed e c ∙ h) j o);
      shut = λ t. cc;
      bounded =
          λ b. d.bounded (set-IsBounded cs ch c (offered e c) at (offered-le e c (b.at ch c at)) b);
    },
  )

  shut_case :
      c.closed ≡ false
      → Delivers e true subs (set (set cs ch (offered e c)) ch (shut_after e c))
      → Delivers e true (ch ∷ subs) cs
  shut_case h (cs', eq, d) = (
    cs',
    deliver_shut e ch subs cs c at h ∙ eq,
    record {
      others = λ j n.
          d.others j (λ m. n (tail m))
          ∙ get_elem?-set_ne (set cs ch (offered e c)) {i = ch} {j = j} (shut_after e c)
              (ne_of_not-mem j n)
          ∙ get_elem?-set_ne cs {i = ch} {j = j} (offered e c) (ne_of_not-mem j n);
      stay_open = λ t. cc;
      shut = λ t. (
        (
          shut_after e c,
          d.others ch (not-mem ch subs fresh)
              ∙ get_elem?-set_self (set cs ch (offered e c)) ch (shut_after e c) (offered e c)
                  there,
          refl,
        ),
        d.shut t,
      );
      bounded = λ b. d.bounded (
          set-IsBounded (set cs ch (offered e c)) ch (offered e c) (shut_after e c) there
            (offered-le e c (b.at ch c at))
            (set-IsBounded cs ch c (offered e c) at (offered-le e c (b.at ch c at)) b));
    },
  )
    where
      there : get_elem? (set cs ch (offered e c)) ch ≡ some (offered e c)
      there = get_elem?-set_self cs ch (offered e c) c at

-- A write of one channel leaves the others open.
set-All-IsOpen :
    (ch : ℕ) (subs : List ℕ) (cs : List Channel) (d : Channel)
    → All (λ y. ch ≢ y) subs
    → All (IsOpen cs) subs
    → All (IsOpen (set cs ch d)) subs
set-All-IsOpen ch [] cs d f o = tt
set-All-IsOpen ch (y ∷ subs) cs d f o = (
  (o.0.0, get_elem?-set_ne cs {i = ch} {j = y} d f.0 ∙ o.0.1, o.0.2),
  set-All-IsOpen ch subs cs d f.1 o.1,
)

-- Delivery to distinct open channels never panics.
pub deliver-Delivers :
    (e : Event) (terminal : Bool) (subs : List ℕ) (cs : List Channel)
    → IsDistinct subs
    → All (IsOpen cs) subs
    → Delivers e terminal subs cs
unfolding deliver
deliver-Delivers e terminal [] cs d o = (
  cs,
  refl,
  record { others = λ j n. refl; stay_open = λ t j k. k; shut = λ t. tt; bounded = λ b. b },
)
deliver-Delivers e false (ch ∷ subs) cs d o = open_case e ch subs cs o.0.0 o.0.1 d.0 o.0.2 (
    deliver-Delivers e false subs (set cs ch (offered e o.0.0)) d.1
      (set-All-IsOpen ch subs cs _ d.0 o.1))
deliver-Delivers e true (ch ∷ subs) cs d o = shut_case e ch subs cs o.0.0 o.0.1 d.0 o.0.2 (
    deliver-Delivers e true subs (set (set cs ch (offered e o.0.0)) ch (shut_after e o.0.0)) d.1
      (set-All-IsOpen ch subs _ _ d.0 (set-All-IsOpen ch subs cs _ d.0 o.1)))
