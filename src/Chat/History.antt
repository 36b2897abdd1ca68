-- ===== src/Chat/History.antt =====
-- What the two players of a conversation read in its history, in internal/usecase/chat/chat.go.
use mathlib.Core.List.{Memᴰ, Permᴰ}
use mathlib.Core.List.Memᴰ.{head, tail}
use mathlib.Core.List.Permᴰ
use vfx.Base.{
  keep-member, All-keep, min, max, ◌||◌, ℕ, zero, suc, ◌≤◌, ◌<◌, ◌≡◌, refl, sym, ap, ◌∙◌, subst,
  Bool, true, false, List, [], ◌∷◌, some, any, keep, take, map, sort, All-mem, IsSorted, IsOrder,
  sort-perm, sort-IsSorted, mem-perm, mem-keep, if◌then◌else◌, ◌==◌, ltb, arith, inl, inr, ◌⊎◌,
}
use vfx.Base.Int.{ℤ}
use vfx.Base.Texts.{Text}
use vfx.Db.{Reply, ok}
use vfx.Db.Quiet.{rw_tx-run, statement-run}
use vfx.Db.Steps.{query-run}
use vfx.Social.Pairs.{IsUuid, order_pair_canonical}
use vfx.Chat.{
  ChatError, Message, DirectRow, Tables, Config, valid_body, new_message, conversation, far_future,
  row_of, message_of, insert_direct, newer, is_between, save, list_conversation, clamp_limit,
  send_direct_message, list_direct_messages, with_message, save_new,
}

newer-IsOrder : IsOrder newer
newer-IsOrder = record {
  asym = λ x y h. ground (arith, h);
  le_trans = λ x y z h k. ground (arith, h, k);
}

-- What is less than all others comes first.
sort-first :
    {A : Type 0} (less : A → A → Bool) (o : IsOrder less) (m : A) (xs : List A)
    → Memᴰ m xs
    → ((x : A) → Memᴰ x xs → (x ≡ m) ⊎ (less m x ≡ true))
    → (rest : List A) × (sort less xs ≡ m ∷ rest)
sort-first {A} less o m xs there first =
    found (sort less xs) (sort-IsSorted less o xs) (mem-perm (Permᴰ.symm (sort-perm less xs)) there)
      (λ x n. first x (mem-perm (sort-perm less xs) n))
  where
    found :
        (ys : List A)
        → IsSorted less ys
        → Memᴰ m ys
        → ((x : A) → Memᴰ x ys → (x ≡ m) ⊎ (less m x ≡ true))
        → (rest : List A) × (ys ≡ m ∷ rest)
    found [] h n f = elim n [ ]
    found (y ∷ ys) h (head q) f = (ys, ap (λ z. z ∷ ys) (sym q))
    found (y ∷ ys) h (tail n) f = elim (f y (head refl)) [
      | inl e ↦ (ys, ap (λ z. z ∷ ys) e)
      | inr e ↦ absurd (cc (e, All-mem (λ z. less z y ≡ false) ys h.0 n))
    ]

conversation_lem : (a b : ℕ) → IsUuid a → IsUuid b → conversation a b ≡ (min a b, max a b)
unfolding conversation
conversation_lem a b u v = order_pair_canonical a b u v

abbrev pub sent : ℕ → ℕ → ℕ → Text → ℕ → Message
sent id sender recipient body now = record {
  id = id;
  sender_id = sender;
  recipient_id = recipient;
  body = body;
  sent_at = now;
}

-- The row of a message between two players.
abbrev pub placed : Message → DirectRow
placed m = record {
  id = m.id;
  player_low = min m.sender_id m.recipient_id;
  player_high = max m.sender_id m.recipient_id;
  sender_id = m.sender_id;
  body = m.body;
  created_at = m.sent_at;
}

row_of_lem :
    (kept : ℕ → ℕ) (m : Message)
    → IsUuid m.sender_id
    → IsUuid m.recipient_id
    → row_of kept m ≡ placed (record m { sent_at = kept m.sent_at })
row_of_lem kept m u v =
    ap
      (λ (pair : ℕ × ℕ). record {
        id = m.id;
        player_low = pair.0;
        player_high = pair.1;
        sender_id = m.sender_id;
        body = m.body;
        created_at = kept m.sent_at;
      })
      (conversation_lem m.sender_id m.recipient_id u v)

message_of-placed : (m : Message) → message_of (placed m) ≡ m
message_of-placed m =
    let other : (if m.sender_id == max m.sender_id m.recipient_id
          then min m.sender_id m.recipient_id
          else max m.sender_id m.recipient_id)
        ≡ m.recipient_id =
      ground arith in
    ap (λ r. record m { recipient_id = r }) other

insert_direct-placed :
    (m : Message) (s : Tables)
    → (m.sender_id ≡ m.recipient_id → ⊥)
    → any (λ (q : DirectRow). q.id == m.id) s.direct_messages ≡ false
    → insert_direct (placed m) s
      ≡ some (tt, record s { direct_messages = placed m ∷ s.direct_messages })
unfolding insert_direct
insert_direct-placed m s apart fresh =
    let pair : ltb (min m.sender_id m.recipient_id) (max m.sender_id m.recipient_id) ≡ true =
      ground (arith, apart) in
    let whose : (m.sender_id == min m.sender_id m.recipient_id
          || m.sender_id == max m.sender_id m.recipient_id)
        ≡ true =
      ground arith in
    rw (fresh, pair, whose) refl

new_message_lem :
    (id sender recipient : ℕ) (body : Text) (now : ℕ)
    → (sender ≡ recipient → ⊥)
    → valid_body body ≡ true
    → new_message id sender recipient body now ≡ ok (sent id sender recipient body now)
unfolding new_message
new_message_lem id sender recipient body now apart valid =
    let other : (sender == recipient) ≡ false = ground (arith, apart) in rw (other, valid) refl

history-first :
    (scan : List DirectRow → List DirectRow)
    → ((xs : List DirectRow) → Permᴰ (scan xs) xs)
    → (far : ℕ) (m : Message) (rows : List DirectRow) (limit : ℕ) (pair : ℕ × ℕ)
    → pair ≡ (min m.sender_id m.recipient_id, max m.sender_id m.recipient_id)
    → m.sent_at < far
    → 1 ≤ limit
    → ((r : DirectRow) → Memᴰ r rows → is_between pair far r ≡ true → r.created_at < m.sent_at)
    → (rest : List Message) × (map message_of
          (take limit (sort newer (keep (is_between pair far) (scan (placed m ∷ rows)))))
        ≡ m ∷ rest)
history-first scan perm far m rows zero pair same early some_limit older = absurd (omega arith)
history-first scan perm far m rows (suc limit) pair same early some_limit older =
    let p = is_between pair far in
    let rows_now = keep p (scan (placed m ∷ rows)) in
    let mine : p (placed m) ≡ true =
      subst (λ q. is_between q far (placed m) ≡ true) (sym same) (ground arith) in
    let there : Memᴰ (placed m) rows_now =
      keep-member p (placed m) (scan (placed m ∷ rows))
        (mem-perm (Permᴰ.symm (perm (placed m ∷ rows))) (head refl)) mine in
    let top = sort-first newer newer-IsOrder (placed m) rows_now there (λ x n.
      before x (mem-perm (perm (placed m ∷ rows)) (mem-keep p (scan (placed m ∷ rows)) n))
        (All-mem _ rows_now (All-keep p (scan (placed m ∷ rows))) n)) in
    (
      map message_of (take limit top.0),
      ap (λ ys. map message_of (take (suc limit) ys)) top.1
          ∙ ap (λ y. y ∷ map message_of (take limit top.0)) (message_of-placed m),
    )
  where
    before :
        (x : DirectRow)
        → Memᴰ x (placed m ∷ rows)
        → is_between pair far x ≡ true
        → (x ≡ placed m) ⊎ (newer (placed m) x ≡ true)
    before x (head q) h = inl q
    before x (tail n) h = inr (ground (arith, older x n h))

module _ (kept : ℕ → ℕ) (scan : List DirectRow → List DirectRow)
    (perm : (xs : List DirectRow) → Permᴰ (scan xs) xs) (cfg : Config) where
  -- When no statement fails, a message with a fresh id and a valid body between two players with uuids is
  -- sent, and it stands first in the history that either of them then reads from the latest on, with the
  -- time that the database keeps of the one at which it was sent, if the page is not empty, the times
  -- kept of the earlier messages of the conversation are less, and the time is before that kept of the
  -- year 9999.
  pub list_direct_messages-send_direct_message :
      (now id sender recipient : ℕ) (body : Text) (limit : ℤ) (s : Tables)
      → IsUuid sender
      → IsUuid recipient
      → (sender ≡ recipient → ⊥)
      → valid_body body ≡ true
      → any (λ (q : DirectRow). q.id == id) s.direct_messages ≡ false
      → kept now < kept far_future
      → 1 ≤ clamp_limit cfg limit
      → ((r : DirectRow)
          → Memᴰ r s.direct_messages
          → is_between (conversation sender recipient) (kept far_future) r ≡ true
          → r.created_at < kept now)
      → ((send_direct_message kept now id sender recipient body [] s).0
          ≡ ok (sent id sender recipient body now))
        × ((me other : ℕ)
            → conversation me other ≡ conversation sender recipient
            → (rest : List Message) × ((list_direct_messages kept scan cfg me other 0 limit []
                  (send_direct_message kept now id sender recipient body [] s).1).0
                ≡ ok (sent id sender recipient body (kept now) ∷ rest)))
        × (conversation recipient sender ≡ conversation sender recipient)
  unfolding send_direct_message list_direct_messages save list_conversation
  list_direct_messages-send_direct_message now id sender recipient body limit s us ur apart valid
        fresh early page older =
      let m = sent id sender recipient body (kept now) in
      let t : Tables = record s { direct_messages = placed m ∷ s.direct_messages } in
      let created = new_message_lem id sender recipient body now apart valid in
      let m' = sent id sender recipient body now in
      let saved : insert_direct (row_of kept m') s ≡ some (tt, t) =
        ap (λ r. insert_direct r s) (row_of_lem kept m' us ur)
        ∙ insert_direct-placed m s apart fresh in
      let done : send_direct_message kept now id sender recipient body [] s ≡ (ok m', t) =
        ap (save_new kept [] s) created
        ∙ ap (with_message m') (rw_tx-run s t (save kept m') tt (statement-run _ s t tt saved)) in
      (
        ap (λ (x : Reply ChatError Message × Tables). x.0) done,
        (λ me other same.
            let first =
              history-first scan perm (kept far_future) m s.direct_messages (clamp_limit cfg limit)
                (conversation me other) (same ∙ conversation_lem sender recipient us ur) early page
                (λ r n h.
                  older r n (subst (λ q. is_between q (kept far_future) r ≡ true) same h)) in
            (
              first.0,
              ap
                    (λ (x : Reply ChatError Message × Tables).
                      (list_direct_messages kept scan cfg me other 0 limit [] x.1).0)
                    done
                  ∙ ap (λ (x : Reply ChatError (List Message) × Tables). x.0)
                      (rw_tx-run t t
                        (list_conversation kept scan me other 0 (clamp_limit cfg limit)) _
                        (query-run t _))
                  ∙ ap ok first.1,
            )),
        conversation_lem recipient sender ur us
            ∙ sym (conversation_lem sender recipient us ur ∙ swapped),
      )
    where
      low : min sender recipient ≡ min recipient sender
      low = ground arith

      high : max sender recipient ≡ max recipient sender
      high = ground arith

      swapped :
          ◌≡◌ {A = ℕ × ℕ}
            (min sender recipient, max sender recipient)
            (min recipient sender, max recipient sender)
      swapped =
          ap (λ (x : ℕ). (x, max sender recipient)) low
          ∙ ap (λ (x : ℕ). (min recipient sender, x)) high
