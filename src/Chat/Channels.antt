-- ===== src/Chat/Channels.antt =====
-- What a channel message does to the tables and to the broker, in internal/usecase/chat/chat.go.
use vfx.Base.{
  ℕ, ◌≡◌, refl, sym, ap, ◌∙◌, Bool, true, not, List, ◌∷◌, some, any, ◌==◌, arith, Bool-cases, inl,
  inr, eq_of_some,
}
use vfx.Base.Texts.{Text}
use vfx.Db.{Reply, ok, err, rw_tx}
use vfx.Db.Triple.{Triple, statement_rule, fail_rule, if_rule, rw_tx_ok}
use vfx.Db.Steps.{then_rule, query_rule}
use vfx.Group.{has_member}
use vfx.Chat.{
  ChatError, ChannelMessage, Tables, valid_body, new_channel_message, not_channel_member,
  insert_channel, save_channel_message, is_member, send_channel_work, send_channel_message, pushed,
}

abbrev pub with_row : ChannelMessage → Tables → Tables
with_row m s = record s { channel_messages = m ∷ s.channel_messages }

insert_channel-row :
    (m : ChannelMessage) (s t : Tables) (a : Unit {0})
    → insert_channel m s ≡ some (a, t)
    → t ≡ with_row m s
unfolding insert_channel
insert_channel-row m s t a =
    elim (Bool-cases (any (λ (q : ChannelMessage). q.id == m.id) s.channel_messages)) [
      | inl y ↦ rw y (λ h. cc h)
      | inr n ↦ rw n (λ h. ap (λ (x : Unit {0} × Tables). x.1) (sym (eq_of_some h)))
    ]

module _ (kept : ℕ → ℕ) where
  -- What a committed message leaves.
  abbrev pub IsStored : ChannelMessage → Tables → Tables → Type 0
  IsStored m s t =
      (has_member m.channel_id m.sender_id s.members ≡ true)
      × (t ≡ with_row (record m { sent_at = kept m.sent_at }) s)

  send_channel_work-IsStored :
      (m : ChannelMessage) (s : Tables)
      → Triple (λ u. u ≡ s) (send_channel_work kept m) (λ a t. IsStored m s t)
  unfolding send_channel_work is_member save_channel_message
  send_channel_work-IsStored m s =
      then_rule s s _ _ _ (query_rule s (λ u. has_member m.channel_id m.sender_id u.members))
        λ member found.
          if_rule (not member) _ _ (λ e. fail_rule not_channel_member)
            (λ e. statement_rule _ λ u p a t h. (
              ground (arith, found, e),
              insert_channel-row _ u t a h
                  ∙ ap (with_row (record m { sent_at = kept m.sent_at })) p,
            ))

  module _ {B : Type 0} (publish : ChannelMessage → B → B) where
    -- What an answer to the sender says.
    abbrev pub Answered :
        ℕ → ℕ → ℕ → ℕ → Text → Tables → B → Reply ChatError ChannelMessage × Tables × B → Type 0
    Answered now id sender channel body s b (ok m, t, c) =
        (m ≡ record {
          id = id;
          channel_id = channel;
          sender_id = sender;
          body = body;
          sent_at = now;
        })
        × (valid_body body ≡ true)
        × IsStored m s t
        × (c ≡ publish m b)
    Answered now id sender channel body s b (err e, t, c) = c ≡ b

    pushed-Answered :
        (now id sender channel : ℕ) (body : Text) (m : ChannelMessage) (s : Tables) (b : B)
        → (r : Reply ChatError (Unit {0}) × Tables)
        → m
          ≡ record { id = id; channel_id = channel; sender_id = sender; body = body; sent_at = now }
        → valid_body body ≡ true
        → (r.0 ≡ ok tt → IsStored m s r.1)
        → Answered now id sender channel body s b (pushed publish m b r)
    pushed-Answered now id sender channel body m s b (ok tt, t) e v h = (e, v, h refl, refl)
    pushed-Answered now id sender channel body m s b (err x, t) e v h = refl

    -- When a channel message is answered without an error, its body is valid and its sender was a member
    -- of the channel, its row is in the tables, with the time that the database keeps, nothing else in
    -- them has changed, and it has been pushed to the broker; when there is an error, wherever it comes
    -- from, nothing has been pushed.
    pub send_channel_message-Answered :
        (now id sender channel : ℕ) (body : Text) (faults : List Bool) (s : Tables) (b : B)
        → Answered now id sender channel body s b
            (send_channel_message kept publish now id sender channel body faults s b)
    unfolding send_channel_message new_channel_message
    send_channel_message-Answered now id sender channel body faults s b =
        elim (Bool-cases (valid_body body)) [
          | inr n ↦ rw n refl
          | inl y ↦
              let m : ChannelMessage = record {
                id = id;
                channel_id = channel;
                sender_id = sender;
                body = body;
                sent_at = now;
              } in
              rw y (
                pushed-Answered now id sender channel body m s b
                  (rw_tx faults s (send_channel_work kept m)) refl y
                  (λ h. rw_tx_ok faults s _ tt refl (send_channel_work-IsStored m s) h))
        ]
