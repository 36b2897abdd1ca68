-- ===== src/Chat/Pages.antt =====
-- Pages of the history of a channel, in internal/usecase/chat/chat.go and internal/infra/repository/chat.go.
use mathlib.Core.List.{Permᴰ}
use vfx.Base.{ℕ, ◌≤◌, ◌<◌, ◌≡◌, ◌⊎◌, List, [], ◌∷◌, ◌++◌, length, All}
use vfx.Chat.{ChannelMessage}

-- The second list holds exactly those elements of the first of which the predicate holds.
pub data Selected {A : Type 0} (P : A → Type 0) : List A → List A → Type 0 where
  no_more : Selected P [] []
  selected : {x : A} {xs ys : List A} → P x → Selected P xs ys → Selected P (x ∷ xs) (x ∷ ys)
  left_out : {x : A} {xs ys : List A} → ¬ P x → Selected P xs ys → Selected P (x ∷ xs) ys

-- The messages of a channel that were sent before a time.
abbrev pub IsOf : ℕ → ℕ → ChannelMessage → Type 0
IsOf channel bound m = (m.channel_id ≡ channel) × (m.sent_at < bound)

abbrev pub IsNewestFirst : List ChannelMessage → Type 0
IsNewestFirst [] = Unit {0}
IsNewestFirst (m ∷ ms) = All (λ (x : ChannelMessage). x.sent_at ≤ m.sent_at) ms × IsNewestFirst ms

-- The newest messages of some, at most so many: none is left out that is newer than one on the page, and
-- none at all if the page is not full.
abbrev pub IsPage : ℕ → List ChannelMessage → List ChannelMessage → Type 0
IsPage limit all page =
    (rest : List ChannelMessage) × Permᴰ (page ++ rest) all
    × IsNewestFirst (page ++ rest)
    × (length page ≤ limit)
    × ((rest ≡ []) ⊎ (length page ≡ limit))
