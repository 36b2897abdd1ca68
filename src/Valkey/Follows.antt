-- ===== src/Valkey/Follows.antt =====
-- What the goroutine of Subscribe in internal/infra/matchqueue/valkey.go sends to its subscriber.
use vfx.Base.{
  ℕ, zero, suc, ◌+◌, keep, min, Bool, true, false, some, List, [], ◌∷◌, ◌++◌, ◌≡◌, refl, sym, ap,
  subst, ◌∙◌, if◌then◌else◌, take, drop, arith, Bool-cases, inl, inr,
}
use vfx.Queue.{Event, queued, matched, failed, is_terminal}
use vfx.Valkey.{Codec, decoded, dto_of, event_of, marshal_event, unmarshal_event}
use vfx.Valkey.Streams.{
  Read, timed_out, stopped, answered, batch, start_id, above, texts_of, xread, seen, deliver_reply,
  follow_from, follow, IsFaithful, reached, upto_terminal, Texts, nothing, appended,
}
use vfx.Valkey.Entries.{
  take-add, IsAppended, texts_of-take, texts_of-drop, seen-le, IsAppended-drop, keep-all, keep-seen,
  keep-above,
}

module _ {F Str : Type 0} (c : Codec F Str) (law : IsFaithful c) where
  dto_of-event_of : (e : Event) → event_of c (dto_of c e) ≡ decoded e
  dto_of-event_of (queued at depth) = refl
  dto_of-event_of (matched a) = rw law.uuids refl
  dto_of-event_of (failed reason message) = refl

  unmarshal_event-marshal_event :
      (e : Event) (text : Str) → marshal_event c e ≡ some text → unmarshal_event c text ≡ decoded e
  unfolding marshal_event unmarshal_event
  unmarshal_event-marshal_event e text m =
      rw (law.events (dto_of c e) text m, unmarshal_event) (dto_of-event_of e)

  -- A list of events with a terminal one, which ends what a subscriber hears.
  abbrev ends : List Event → Bool
  ends [] = false
  ends (e ∷ es) = if is_terminal e then true else ends es

  deliver_reply-upto_terminal :
      {es : List Event} {texts : List Str}
      → Texts c es texts
      → deliver_reply c texts ≡ (upto_terminal es, ends es)
  unfolding deliver_reply
  deliver_reply-upto_terminal nothing = refl
  deliver_reply-upto_terminal (appended {e = e} {es = es} {text = text} {texts = texts} m ts) =
      let rest = deliver_reply-upto_terminal ts in
      rw (unmarshal_event-marshal_event e text m, rest)
        (elim (Bool-cases (is_terminal e)) [ inl t ↦ rw t refl | inr t ↦ rw t refl ])

  Texts-take :
      (n : ℕ) {es : List Event} {texts : List Str}
      → Texts c es texts
      → Texts c (take n es) (take n texts)
  Texts-take zero ts = nothing
  Texts-take (suc n) nothing = nothing
  Texts-take (suc n) (appended m ts) = appended m (Texts-take n ts)

  Texts-drop :
      (n : ℕ) {es : List Event} {texts : List Str}
      → Texts c es texts
      → Texts c (drop n es) (drop n texts)
  Texts-drop zero ts = ts
  Texts-drop (suc n) nothing = nothing
  Texts-drop (suc n) (appended m ts) = Texts-drop n ts

  ends-append :
      (es fs : List Event)
      → upto_terminal (es ++ fs)
        ≡ (if ends es then upto_terminal es else upto_terminal es ++ upto_terminal fs)
  ends-append [] fs = refl
  ends-append (e ∷ es) fs = elim (Bool-cases (is_terminal e)) [
    | inl t ↦ rw t refl
    | inr t ↦ rw t (ap (λ l. e ∷ l) (ends-append es fs) ∙ inside (ends es))
  ]
    where
      inside :
          (b : Bool)
          → e ∷ (if b then upto_terminal es else upto_terminal es ++ upto_terminal fs)
            ≡ (if b then e ∷ upto_terminal es else (e ∷ upto_terminal es) ++ upto_terminal fs)
      inside true = refl
      inside false = refl

  follow_from-upto_terminal :
      (reads : List Read) (last_id : ℕ) (es : List Event) (stream left : List (ℕ × Str))
      → keep (above last_id) stream ≡ left
      → IsAppended last_id left
      → Texts c es (texts_of left)
      → follow_from c reads last_id stream ≡ upto_terminal (take (reached reads) es)
  unfolding follow_from xread
  follow_from-upto_terminal [] l es stream left at up ts = refl
  follow_from-upto_terminal (stopped ∷ reads) l es stream left at up ts = refl
  follow_from-upto_terminal (timed_out ∷ reads) l es stream left at up ts =
      follow_from-upto_terminal reads l es stream left at up ts
  follow_from-upto_terminal (answered n ∷ reads) l es stream left at up ts =
      let k = min n batch in
      let last_id = seen l (take k left) in
      let reply =
        deliver_reply-upto_terminal
          (subst (Texts c (take k es)) (sym (texts_of-take k left)) (Texts-take k ts)) in
      let later =
        follow_from-upto_terminal reads last_id (drop k es) stream (drop k left)
          (keep-above l last_id stream (seen-le k l left up)
            ∙ ap (keep (above last_id)) at
            ∙ keep-seen k l left up)
          (IsAppended-drop k l left up)
          (subst (Texts c (drop k es)) (sym (texts_of-drop k left)) (Texts-drop k ts)) in
      let split : upto_terminal (take (k + reached reads) es) ≡ (
          if ends (take k es)
          then upto_terminal (take k es)
          else upto_terminal (take k es) ++ upto_terminal (take (reached reads) (drop k es))) =
        ap upto_terminal (take-add k (reached reads) _ es refl)
        ∙ ends-append (take k es) (take (reached reads) (drop k es)) in
      rw (at, reply, later) (sym split)

  -- A subscriber who attaches at any time hears exactly the events that were published for the ticket,
  -- in their order, from the first one up to the first terminal one or as far as the stream was read,
  -- however the reads split the stream and whichever of them time out, if the texts of events read
  -- back and the entries of the stream have ascending ids above 0.
  pub follow-upto_terminal :
      (reads : List Read) (es : List Event) (stream : List (ℕ × Str))
      → IsAppended 0 stream
      → Texts c es (texts_of stream)
      → follow c reads stream ≡ upto_terminal (take (reached reads) es)
  unfolding follow
  follow-upto_terminal reads es stream up ts =
      follow_from-upto_terminal reads start_id es stream stream
        (keep-all 0 0 stream (omega arith) up) up ts
