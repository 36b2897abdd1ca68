-- ===== src/Valkey/Tests.antt =====
-- A sample server with sorted sets, a sample codec, and runs of claims and subscriptions.
use mathlib.Core.List.Memᴰ.{head, tail}
use vfx.Base.{
  ℕ, ◌≡◌, refl, sym, ap, ◌∙◌, Bool, true, false, not, ◌&&◌, Option, none, some, List, [], ◌∷◌,
  String, str_eq, eq_iff, ◌==◌, ==_iff, if◌then◌else◌, keep, any, length, arith, inl, inr, take,
  Bool-cases, eq_of_some,
}
use vfx.Queue.{Event, queued, failed}
use vfx.Matchmaker.{value}
use vfx.Valkey.{
  Codec, Server, Key, pending_key, ticket_key, event_key, stream_key, EventDto, MatchDto,
  marshal_event,
}
use vfx.Valkey.Operations.{claim, claim_script, all_there, remove_all}
use vfx.Valkey.Claims.{
  Command, Step, sends, claims, zadds, sets_nx, sets, gets, zcards, zranges, zrems, xadds, expires,
  Adds, sent, run, IsSorted, Loses, claim-Loses,
}
use vfx.Valkey.Follows.{follow-upto_terminal}
use vfx.Valkey.Streams.{
  timed_out, answered, follow, texts_of, reached, upto_terminal, Texts, nothing, appended,
  IsFaithful,
}

data Sample : Type 0 where
  id_text : ℕ → Sample
  plain : String → ℕ → ℕ → String → String → Sample
  assigned : String → ℕ → ℕ → String → String → ℕ → String → String → ℕ → Sample

abbrev id_of : Sample → Option ℕ
id_of (id_text id) = some id
id_of _ = none

abbrev assigned_text : EventDto Sample → MatchDto Sample → Sample → Option Sample
assigned_text dto m (id_text id) = some (
    assigned dto.kind dto.queued_at dto.queue_depth dto.reason dto.message id m.endpoint
      m.session_token m.expires_at)
assigned_text dto m _ = none

abbrev event_text : EventDto Sample → Option (MatchDto Sample) → Option Sample
event_text dto none = some (plain dto.kind dto.queued_at dto.queue_depth dto.reason dto.message)
event_text dto (some m) = assigned_text dto m m.match_id

abbrev event_in : Sample → Option (EventDto Sample)
event_in (id_text id) = none
event_in (plain kind at depth reason message) = some (record {
  kind = kind;
  queued_at = at;
  queue_depth = depth;
  assignment = none;
  reason = reason;
  message = message;
})
event_in (assigned kind at depth reason message id endpoint token expires_at) = some (record {
  kind = kind;
  queued_at = at;
  queue_depth = depth;
  assignment = some (record {
    match_id = id_text id;
    endpoint = endpoint;
    session_token = token;
    expires_at = expires_at;
  });
  reason = reason;
  message = message;
})

abbrev sample_codec : Codec ℕ Sample
sample_codec = record {
  uuid_text = id_text;
  uuid_parse = id_of;
  ticket_json = λ dto. none;
  ticket_of_json = λ text. none;
  event_json = λ dto. event_text dto dto.assignment;
  event_of_json = event_in;
  float = λ n. n;
}

assigned_text-reads :
    (dto : EventDto Sample) (m : MatchDto Sample) (id text : Sample)
    → dto.assignment ≡ some m
    → m.match_id ≡ id
    → assigned_text dto m id ≡ some text
    → event_in text ≡ some dto
assigned_text-reads dto m (id_text id) text a b e =
    ap event_in (sym (eq_of_some e))
    ∙ ap (λ x. some (record dto { assignment = some (record m { match_id = x }) })) (sym b)
    ∙ ap (λ x. some (record dto { assignment = x })) (sym a)
assigned_text-reads dto m (plain k at depth r t) text a b e = cc e
assigned_text-reads dto m (assigned k at depth r t id n tok x) text a b e = cc e

event_text-reads :
    (dto : EventDto Sample) (m : Option (MatchDto Sample)) (text : Sample)
    → dto.assignment ≡ m
    → event_text dto m ≡ some text
    → event_in text ≡ some dto
event_text-reads dto none text a e =
    ap event_in (sym (eq_of_some e)) ∙ ap (λ x. some (record dto { assignment = x })) (sym a)
event_text-reads dto (some m) text a e = assigned_text-reads dto m m.match_id text a refl e

sample-IsFaithful : IsFaithful sample_codec
sample-IsFaithful = record {
  uuids = λ id. refl;
  events = λ dto text e. event_text-reads dto dto.assignment text refl e;
}

-- A server of which only the sorted sets matter: keys with their members.
abbrev Store : Type 0
Store = List (Key × ℕ)

abbrev key_eq : Key → Key → Bool
key_eq (pending_key a) (pending_key b) = str_eq a b
key_eq (ticket_key a) (ticket_key b) = a == b
key_eq (event_key a) (event_key b) = a == b
key_eq (stream_key a) (stream_key b) = a == b
key_eq _ _ = false

key_eq-eq : (k j : Key) → key_eq k j ≡ true → k ≡ j
key_eq-eq (pending_key a) (pending_key b) h = ap pending_key ((eq_iff a b).0 h)
key_eq-eq (ticket_key a) (ticket_key b) h = ap ticket_key ((==_iff a b).0 h)
key_eq-eq (event_key a) (event_key b) h = ap event_key ((==_iff a b).0 h)
key_eq-eq (stream_key a) (stream_key b) h = ap stream_key ((==_iff a b).0 h)
key_eq-eq (pending_key a) (ticket_key b) h = cc h
key_eq-eq (pending_key a) (event_key b) h = cc h
key_eq-eq (pending_key a) (stream_key b) h = cc h
key_eq-eq (ticket_key a) (pending_key b) h = cc h
key_eq-eq (ticket_key a) (event_key b) h = cc h
key_eq-eq (ticket_key a) (stream_key b) h = cc h
key_eq-eq (event_key a) (pending_key b) h = cc h
key_eq-eq (event_key a) (ticket_key b) h = cc h
key_eq-eq (event_key a) (stream_key b) h = cc h
key_eq-eq (stream_key a) (pending_key b) h = cc h
key_eq-eq (stream_key a) (ticket_key b) h = cc h
key_eq-eq (stream_key a) (event_key b) h = cc h

abbrev is_at : Key → ℕ → Key × ℕ → Bool
is_at k m x = key_eq k x.0 && m == x.1

abbrev removed_from : Key → ℕ → Store → Store
removed_from k m s = keep (λ x. not (is_at k m x)) s

abbrev server : Server Store ℕ ℕ
server = record {
  set_nx = λ k v ttl s. (value true, s);
  set = λ k v ttl s. (value tt, s);
  get = λ k s. (value none, s);
  zcard = λ k s. (value (length s), s);
  zadd = λ k x m s. (value tt, (k, m) ∷ s);
  zrem = λ k m s. (value tt, removed_from k m s);
  zrange = λ k s. (value [], s);
  xadd = λ k v s. (value tt, s);
  expire = λ k ttl s. (value tt, s);
  eval = λ f s. (value (f s).0, (f s).1);
  zscore = λ k m s. if any (is_at k m) s then some 0 else none;
  zrem_now = removed_from;
}

abbrev codec : Codec ℕ ℕ
codec = record {
  uuid_text = λ n. n;
  uuid_parse = λ n. some n;
  ticket_json = λ dto. none;
  ticket_of_json = λ text. none;
  event_json = λ dto. none;
  event_of_json = λ text. none;
  float = λ n. n;
}

absent : (k : Key) (m : ℕ) (s : Store) → server.zscore k m s ≡ none → any (is_at k m) s ≡ false
absent k m s h = elim (Bool-cases (any (is_at k m) s)) [ inl y ↦ cc (rw y at h) | inr n ↦ n ]

any-keep : {A : Type 0} (p q : A → Bool) (s : List A) → any p s ≡ false → any p (keep q s) ≡ false
any-keep p q [] h = refl
any-keep p q (x ∷ s) h = ground (arith, any-keep p q s)

any-keep_others : {A : Type 0} (p : A → Bool) (s : List A) → any p (keep (λ x. not (p x)) s) ≡ false
any-keep_others p [] = refl
any-keep_others p (x ∷ s) = elim (Bool-cases (p x)) [
  | inl y ↦ rw y (any-keep_others p s)
  | inr n ↦ rw (n, n) (any-keep_others p s)
]

sent-absent :
    (k : Key) (m : ℕ) (command : Command ℕ ℕ) (s : Store)
    → ¬ Adds k m (sends command)
    → any (is_at k m) s ≡ false
    → any (is_at k m) (sent codec server command s) ≡ false
sent-absent k m (sets_nx j v ttl) s other h = h
sent-absent k m (sets j v ttl) s other h = h
sent-absent k m (gets j) s other h = h
sent-absent k m (zcards j) s other h = h
sent-absent k m (zranges j) s other h = h
sent-absent k m (zadds j x n) s other h = elim (Bool-cases (is_at k m (j, n))) [
  | inr away ↦ rw away h
  | inl here ↦ absurd (other (key_eq-eq k j (ground (arith, here)), ground (arith, here)))
]
sent-absent k m (zrems j n) s other h = any-keep (is_at k m) (λ x. not (is_at j n x)) s h
sent-absent k m (xadds j v) s other h = h
sent-absent k m (expires j ttl) s other h = h

server-IsSorted : IsSorted codec server
server-IsSorted = record {
  removed = λ k m s. rw (any-keep_others (is_at k m) s) refl;
  removes_only =
      λ k j m n s h. rw (any-keep (is_at k m) (λ x. not (is_at j n x)) s (absent k m s h)) refl;
  adds_only = λ k m command s other h. rw (sent-absent k m command s other (absent k m s h)) refl;
  atomic = λ f s. inl refl;
}

abbrev pool : Store
pool = (pending_key "duel", 1) ∷ (pending_key "duel", 2) ∷ (pending_key "duel", 3) ∷ []

abbrev others : List (Step ℕ ℕ)
others = sends (zadds (pending_key "duel") 9 4) ∷ claims "duel" (3 ∷ 4 ∷ []) ∷ []

pool_won : (claim codec server "duel" (1 ∷ 2 ∷ []) pool).0 ≡ value true
unfolding claim claim_script all_there remove_all
pool_won = refl

claim-Loses_example :
    Loses codec server server-IsSorted "duel"
      (2 ∷ 3 ∷ [])
      (run codec server others (claim codec server "duel" (1 ∷ 2 ∷ []) pool).1)
claim-Loses_example =
    claim-Loses codec server server-IsSorted "duel" (1 ∷ 2 ∷ []) (2 ∷ 3 ∷ []) pool others 2 pool_won
      (λ a. absurd (omega (arith, a.1)), (λ a. a, tt)) (tail (head refl)) (head refl)

-- A ticket that waits, is matched, and whose client is told no more.
abbrev told : List Event
told = queued 1 1 ∷ failed "cancelled" "by the client" ∷ queued 2 2 ∷ []

abbrev entries : List (ℕ × Sample)
entries =
    (1, plain "queued" 1 1 "" "")
    ∷ (2, plain "failed" 0 0 "cancelled" "by the client")
    ∷ (5, plain "queued" 2 2 "" "")
    ∷ []

entries-Texts : Texts sample_codec told (texts_of entries)
unfolding marshal_event
entries-Texts = appended refl (appended refl (appended refl nothing))

follow-upto_terminal_example :
    follow sample_codec (answered 1 ∷ timed_out ∷ answered 2 ∷ []) entries
    ≡ upto_terminal (take (reached (answered 1 ∷ timed_out ∷ answered 2 ∷ [])) told)
follow-upto_terminal_example =
    follow-upto_terminal sample_codec sample-IsFaithful (answered 1 ∷ timed_out ∷ answered 2 ∷ [])
      told entries (omega arith, (omega arith, (omega arith, tt))) entries-Texts
