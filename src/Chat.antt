-- ===== src/Chat.antt =====
-- Direct messages and channels: internal/domain/chat/chat.go, internal/usecase/chat/chat.go and the repository
-- internal/infra/repository/chat.go over schema/db/queries/chat.sql. Channels are groups, whose members
-- stand in the table of the group service. The broker is outside, as what a push does to a state `B`.
-- A time that is written to the database, or compared there, is first given to the driver, which keeps what
-- a column of type timestamptz holds of it: `kept` is that part, a parameter, since the driver is outside.
-- Foreign keys are not modelled, and `scan` is the order in which the database reads the rows.
pub mod History
pub mod Channels
pub mod Pages
pub mod Tests
use vfx.Base.{
  ℕ, Bool, true, false, not, ◌&&◌, ◌||◌, Option, none, some, List, [], ◌∷◌, if◌then◌else◌, ◌==◌,
  ltb, any, keep, take, map, sort,
}
use vfx.Base.Int.{ℤ, pos, negsuc}
use vfx.Base.Texts.{Text, trim_space, rune_count}
use vfx.Base.Paths.{is_empty}
use vfx.Db.{Tx, Reply, ok, err, domain, return, fail, statement, query, rw_tx, ◌>>=◌}
use vfx.Group.{Membership, has_member}
use vfx.Social.Graph.{order_pair}

pub data ChatError : Type 0 where
  self_message invalid_body not_channel_member : ChatError

abbrev pub max_body_length : ℕ
max_body_length = 2000

pub record Message : Type 0 where
  pub id : ℕ
  pub sender_id : ℕ
  pub recipient_id : ℕ
  pub body : Text
  pub sent_at : ℕ

pub record ChannelMessage : Type 0 where
  pub id : ℕ
  pub channel_id : ℕ
  pub sender_id : ℕ
  pub body : Text
  pub sent_at : ℕ

unfoldable pub valid_body : Text → Bool
valid_body body = not (is_empty (trim_space body) || ltb max_body_length (rune_count body))

unfoldable pub new_message : ℕ → ℕ → ℕ → Text → ℕ → Reply ChatError Message
new_message id sender recipient body now =
    if sender == recipient
    then err (domain self_message)
    else if not (valid_body body)
    then err (domain invalid_body)
    else ok (record {
      id = id;
      sender_id = sender;
      recipient_id = recipient;
      body = body;
      sent_at = now;
    })

unfoldable pub new_channel_message : ℕ → ℕ → ℕ → Text → ℕ → Reply ChatError ChannelMessage
new_channel_message id channel sender body now =
    if not (valid_body body)
    then err (domain invalid_body)
    else ok
        (record { id = id; channel_id = channel; sender_id = sender; body = body; sent_at = now })

-- Conversation compares the ids byte by byte, as OrderPair of the social graph does.
unfoldable pub conversation : ℕ → ℕ → ℕ × ℕ
conversation a b = order_pair a b

pub record DirectRow : Type 0 where
  pub id : ℕ
  pub player_low : ℕ
  pub player_high : ℕ
  pub sender_id : ℕ
  pub body : Text
  pub created_at : ℕ

pub record Tables : Type 0 where
  pub direct_messages : List DirectRow
  pub channel_messages : List ChannelMessage
  pub members : List Membership

abbrev pub Work : Type 0 → Type 0
Work A = Tx ChatError Tables A

-- The year 9999.
abbrev pub far_future : ℕ
far_future = 315506361600000000000

-- The zero time stands for no cursor.
abbrev pub bound_of : ℕ → ℕ
bound_of before = if before == 0 then far_future else before

abbrev pub row_of : (ℕ → ℕ) → Message → DirectRow
row_of kept m =
    let pair = conversation m.sender_id m.recipient_id in
    record {
      id = m.id;
      player_low = pair.0;
      player_high = pair.1;
      sender_id = m.sender_id;
      body = m.body;
      created_at = kept m.sent_at;
    }

-- The recipient is whichever participant is not the sender.
abbrev pub message_of : DirectRow → Message
message_of r = record {
  id = r.id;
  sender_id = r.sender_id;
  recipient_id = if r.sender_id == r.player_high then r.player_low else r.player_high;
  body = r.body;
  sent_at = r.created_at;
}

-- The checks of the table.
abbrev pub is_canonical : DirectRow → Bool
is_canonical r =
    ltb r.player_low r.player_high && (r.sender_id == r.player_low || r.sender_id == r.player_high)

-- InsertDirectMessage and InsertChannelMessage, with the primary key.
unfoldable pub insert_direct : DirectRow → Tables → Option (Unit {0} × Tables)
insert_direct r s =
    if any (λ (q : DirectRow). q.id == r.id) s.direct_messages || not (is_canonical r)
    then none
    else some (tt, record s { direct_messages = r ∷ s.direct_messages })

unfoldable pub insert_channel : ChannelMessage → Tables → Option (Unit {0} × Tables)
insert_channel m s =
    if any (λ (q : ChannelMessage). q.id == m.id) s.channel_messages
    then none
    else some (tt, record s { channel_messages = m ∷ s.channel_messages })

abbrev pub newer : DirectRow → DirectRow → Bool
newer a b = ltb b.created_at a.created_at

abbrev pub newer_message : ChannelMessage → ChannelMessage → Bool
newer_message a b = ltb b.sent_at a.sent_at

abbrev pub is_between : ℕ × ℕ → ℕ → DirectRow → Bool
is_between pair before r =
    (r.player_low == pair.0 && r.player_high == pair.1) && ltb r.created_at before

-- The repository.
unfoldable pub save : (ℕ → ℕ) → Message → Work (Unit {0})
save kept m = statement (insert_direct (row_of kept m))

unfoldable pub save_channel_message : (ℕ → ℕ) → ChannelMessage → Work (Unit {0})
save_channel_message kept m = statement (insert_channel (record m { sent_at = kept m.sent_at }))

unfoldable pub list_conversation :
    (ℕ → ℕ) → (List DirectRow → List DirectRow) → ℕ → ℕ → ℕ → ℕ → Work (List Message)
list_conversation kept scan a b before limit = query (λ s. map message_of (
    take limit (
      sort newer
        (keep (is_between (conversation a b) (kept (bound_of before))) (scan s.direct_messages)))))

unfoldable pub list_channel :
    (ℕ → ℕ) → (List ChannelMessage → List ChannelMessage) → ℕ → ℕ → ℕ → Work (List ChannelMessage)
list_channel kept scan channel before limit = query (λ s. take limit (
    sort newer_message (
      keep
        (λ (m : ChannelMessage). m.channel_id == channel && ltb m.sent_at (kept (bound_of before)))
        (scan s.channel_messages))))

pub record Config : Type 0 where
  pub default_limit : ℕ
  pub max_limit : ℕ

unfoldable pub clamp_limit : Config → ℤ → ℕ
clamp_limit cfg (negsuc n) = cfg.default_limit
clamp_limit cfg (pos n) =
    if n == 0 then cfg.default_limit else if ltb cfg.max_limit n then cfg.max_limit else n

-- The usecases. `id` is what uuid.New gives.
abbrev pub with_message :
    {A : Type 0} → A → Reply ChatError (Unit {0}) × Tables → Reply ChatError A × Tables
with_message m (ok u, s) = (ok m, s)
with_message m (err e, s) = (err e, s)

abbrev pub save_new :
    (ℕ → ℕ) → List Bool → Tables → Reply ChatError Message → Reply ChatError Message × Tables
save_new kept faults s (err e) = (err e, s)
save_new kept faults s (ok m) = with_message m (rw_tx faults s (save kept m))

unfoldable pub send_direct_message :
    (ℕ → ℕ) → ℕ → ℕ → ℕ → ℕ → Text → List Bool → Tables → Reply ChatError Message × Tables
send_direct_message kept now id sender recipient body faults s =
    save_new kept faults s (new_message id sender recipient body now)

unfoldable pub list_direct_messages :
    (ℕ → ℕ)
    → (List DirectRow → List DirectRow)
    → Config
    → ℕ
    → ℕ
    → ℕ
    → ℤ
    → List Bool
    → Tables
    → Reply ChatError (List Message) × Tables
list_direct_messages kept scan cfg me other before limit faults s =
    rw_tx faults s (list_conversation kept scan me other before (clamp_limit cfg limit))

unfoldable pub is_member : ℕ → ℕ → Work Bool
is_member channel player = query (λ s. has_member channel player s.members)

unfoldable pub send_channel_work : (ℕ → ℕ) → ChannelMessage → Work (Unit {0})
send_channel_work kept m = is_member m.channel_id m.sender_id >>= λ member.
    if not member then fail not_channel_member else save_channel_message kept m

-- The push comes after the commit, and its error is dropped.
abbrev pub pushed :
    {B : Type 0}
    → (ChannelMessage → B → B)
    → ChannelMessage
    → B
    → Reply ChatError (Unit {0}) × Tables
    → Reply ChatError ChannelMessage × Tables × B
pushed publish m b (ok u, s) = (ok m, s, publish m b)
pushed publish m b (err e, s) = (err e, s, b)

abbrev pub post :
    {B : Type 0}
    → (ℕ → ℕ)
    → (ChannelMessage → B → B)
    → List Bool
    → Tables
    → B
    → Reply ChatError ChannelMessage
    → Reply ChatError ChannelMessage × Tables × B
post kept publish faults s b (err e) = (err e, s, b)
post kept publish faults s b (ok m) = pushed publish m b (rw_tx faults s (send_channel_work kept m))

unfoldable pub send_channel_message :
    {B : Type 0}
    → (ℕ → ℕ)
    → (ChannelMessage → B → B)
    → ℕ
    → ℕ
    → ℕ
    → ℕ
    → Text
    → List Bool
    → Tables
    → B
    → Reply ChatError ChannelMessage × Tables × B
send_channel_message kept publish now id sender channel body faults s b =
    post kept publish faults s b (new_channel_message id channel sender body now)

unfoldable pub list_channel_work :
    (ℕ → ℕ)
    → (List ChannelMessage → List ChannelMessage)
    → ℕ
    → ℕ
    → ℕ
    → ℕ
    → Work (List ChannelMessage)
list_channel_work kept scan me channel before limit = is_member channel me >>= λ member.
    if not member then fail not_channel_member else list_channel kept scan channel before limit

unfoldable pub list_channel_messages :
    (ℕ → ℕ)
    → (List ChannelMessage → List ChannelMessage)
    → Config
    → ℕ
    → ℕ
    → ℕ
    → ℤ
    → List Bool
    → Tables
    → Reply ChatError (List ChannelMessage) × Tables
list_channel_messages kept scan cfg me channel before limit faults s =
    rw_tx faults s (list_channel_work kept scan me channel before (clamp_limit cfg limit))
