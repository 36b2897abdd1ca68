-- ===== src/Chat/Tests.antt =====
-- Messages between two players and in a channel, and the theorems about them at these.
use mathlib.Core.List.{reverse}
use mathlib.Core.List.Permᴰ
use vfx.Base.{ℕ, ◌/◌, ◌*◌, ◌≡◌, refl, List, [], ◌∷◌, arith, true}
use vfx.Base.Int.{pos}
use vfx.Base.Texts.{Text, ascii, trim_space, trim_left, is_space}
use vfx.Db.{ok, rw_tx, query, statement}
use vfx.Group.{has_member}
use vfx.Chat.{
  list_channel_messages, list_channel_work, list_channel, Message, ChannelMessage, Tables,
  send_channel_message, new_channel_message, send_channel_work, is_member, save_channel_message,
  insert_channel, Config, valid_body, conversation, clamp_limit, send_direct_message,
  list_direct_messages,
}
use vfx.Chat.Channels.{Answered, send_channel_message-Answered}
use vfx.Chat.History.{sent, list_direct_messages-send_direct_message}

abbrev silence : Tables
silence = record { direct_messages = []; channel_messages = []; members = [] }

abbrev pages : Config
pages = record { default_limit = 50; max_limit = 200 }

abbrev hello : Text
hello = ascii (b'h' ∷ b'i' ∷ [])

hello_valid : valid_body hello ≡ true
unfolding valid_body trim_space trim_left is_space
hello_valid = refl

page_size : clamp_limit pages (pos 10) ≡ 10
unfolding clamp_limit
page_size = refl

-- A column keeps whole microseconds.
abbrev micros : ℕ → ℕ
micros t = t / 1000 * 1000

list_direct_messages-send_direct_message_example :
    ((send_direct_message micros 5678 1 8 7 hello [] silence).0 ≡ ok (sent 1 8 7 hello 5678))
    × ((me other : ℕ)
        → conversation me other ≡ conversation 8 7
        → (rest : List Message) × ((list_direct_messages micros reverse pages me other 0
              (pos 10)
              []
              (send_direct_message micros 5678 1 8 7 hello [] silence).1).0
            ≡ ok (sent 1 8 7 hello 5000 ∷ rest)))
    × (conversation 7 8 ≡ conversation 8 7)
list_direct_messages-send_direct_message_example =
    list_direct_messages-send_direct_message micros reverse (λ l. Permᴰ.reverse l) pages 5678 1 8 7
      hello (pos 10) silence (omega arith) (omega arith) (λ e. omega (arith, e)) hello_valid refl
      (omega arith) (omega (arith, page_size)) (λ r n h. elim n [ ])

-- The player 7 is a member of the channel 3.
abbrev channel : Tables
channel = record {
  direct_messages = [];
  channel_messages = [];
  members = record { group_id = 3; player_id = 7; joined_at = 1 } ∷ [];
}

-- A broker that keeps what is pushed to it.
abbrev push : ChannelMessage → List ChannelMessage → List ChannelMessage
push m ms = m ∷ ms

abbrev posted : ℕ → ChannelMessage
posted at = record { id = 1; channel_id = 3; sender_id = 7; body = hello; sent_at = at }

channel-posted :
    send_channel_message micros push 5678 1 7 3 hello [] channel []
    ≡ (ok (posted 5678), record channel { channel_messages = posted 5000 ∷ [] }, posted 5678 ∷ [])
unfolding send_channel_message new_channel_message send_channel_work is_member has_member
    save_channel_message insert_channel valid_body trim_space trim_left is_space rw_tx query
    statement
channel-posted = refl

send_channel_message-Answered_example :
    Answered micros push 5678 1 7 3 hello channel []
      (send_channel_message micros push 5678 1 7 3 hello [] channel [])
send_channel_message-Answered_example =
    send_channel_message-Answered micros push 5678 1 7 3 hello [] channel []

-- Two messages of the channel 3 and one of another.
abbrev busy : Tables
busy = record channel {
  channel_messages =
      posted 1000
      ∷ record { id = 2; channel_id = 4; sender_id = 7; body = hello; sent_at = 2000 }
      ∷ record { id = 3; channel_id = 3; sender_id = 8; body = hello; sent_at = 3000 }
      ∷ [];
}

-- The newest message comes first.
list_channel_messages-busy : list_channel_messages micros reverse pages 7 3 5000 (pos 1) [] busy ≡ (
  ok (record { id = 3; channel_id = 3; sender_id = 8; body = hello; sent_at = 3000 } ∷ []),
  busy,
)
unfolding list_channel_messages list_channel_work list_channel is_member has_member clamp_limit
    rw_tx query statement
list_channel_messages-busy = refl
