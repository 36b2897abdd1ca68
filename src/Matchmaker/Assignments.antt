-- ===== src/Matchmaker/Assignments.antt =====
-- internal/infra/assignmentstore/inmem.go, where a player who comes back finds his match.
use vfx.Base.{
  ℕ, ◌+◌, ◌==◌, ◌≡◌, refl, List, Option, some, none, if◌then◌else◌, ltb, ◌∙◌, Bool-cases,
  Option-cases, inl, inr, ap, sym,
}
use vfx.Queue.{Assignment, find, store, delete}
use vfx.Queue.Assoc.{find-store}

pub record Entry : Type 0 where
  pub assignment : Assignment
  pub expires_at : ℕ

-- The store of internal/infra/assignmentstore/inmem.go at a time.
unfoldable pub put : ℕ → ℕ → Assignment → ℕ → List (ℕ × Entry) → List (ℕ × Entry)
put now player_id a ttl entries =
    store player_id (record { assignment = a; expires_at = now + ttl }) entries

unfoldable pub get : ℕ → ℕ → List (ℕ × Entry) → Option Assignment × List (ℕ × Entry)
get now player_id entries = elim (find player_id entries) [
  | none ↦ (none, entries)
  | some e ↦
      if ltb e.expires_at now
      then (none, delete player_id entries)
      else (some e.assignment, entries)
]

-- What Get answers for an entry of the map.
abbrev read : ℕ → Option Entry → Option Assignment
read t none = none
read t (some e) = if ltb e.expires_at t then none else some e.assignment

get-read :
    (t player : ℕ) (entries : List (ℕ × Entry))
    → (get t player entries).0 ≡ read t (find player entries)
unfolding get
get-read t player entries = elim (Option-cases (find player entries)) [
  | inl missing ↦ rw (missing, get) refl
  | inr (e, found) ↦
      rw (found, get)
        (elim (Bool-cases (ltb e.expires_at t)) [
          | inl late ↦ rw late refl
          | inr soon ↦ rw soon refl
        ])
]

-- A player finds the assignment that was put for him last until its time to live is over, and none
-- afterwards; what another player finds is as it was.
pub get-put :
    (t now player other : ℕ) (a : Assignment) (ttl : ℕ) (entries : List (ℕ × Entry))
    → (get t other (put now player a ttl entries)).0 ≡ (
        if player == other
        then (if ltb (now + ttl) t then none else some a)
        else (get t other entries).0)
unfolding get put
get-put t now player other a ttl entries =
    let e : Entry = record { assignment = a; expires_at = now + ttl } in
    get-read t other (store player e entries)
    ∙ ap (read t) (find-store player other e entries)
    ∙ elim (Bool-cases (player == other)) [
      | inl same ↦ rw (same, read) refl
      | inr different ↦ rw different (sym (get-read t other entries))
    ]
