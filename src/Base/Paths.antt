-- ===== src/Base/Paths.antt =====
-- Join and Clean of Go's package path, on texts.
use mathlib.Core.Bool.{Bool, true, false, not, ◌||◌}
use mathlib.Core.List.{List, [], ◌∷◌, ◌++◌, reverse}
use vfx.Base.Tests.{◌==◌, if◌then◌else◌}
use vfx.Base.Lists.{keep}
use vfx.Base.Texts.{Text, Rune, point, bad_byte, text_eq}

abbrev pub slash : Rune
slash = point b'/'

abbrev pub is_slash : Rune → Bool
is_slash (point c) = c == b'/'
is_slash (bad_byte b) = false

abbrev pub dot : Text
dot = point b'.' ∷ []

abbrev pub dot_dot : Text
dot_dot = point b'.' ∷ point b'.' ∷ []

abbrev pub is_empty : Text → Bool
is_empty [] = true
is_empty (r ∷ rs) = false

abbrev add_rune : Rune → List Text → List Text
add_rune r [] = (r ∷ []) ∷ []
add_rune r (s ∷ ss) = (r ∷ s) ∷ ss

-- The segments between slashes.
unfoldable pub split : Text → List Text
split [] = [] ∷ []
split (r ∷ rs) = let rest = split rs in if is_slash r then [] ∷ rest else add_rune r rest

unfoldable pub join_segments : List Text → Text
join_segments [] = []
join_segments (s ∷ []) = s
join_segments (s ∷ t ∷ ss) = s ++ slash ∷ join_segments (t ∷ ss)

-- A ".." takes back the segment before it; at the root it goes nowhere.
abbrev pub back : Bool → List Text → List Text
back rooted [] = if rooted then [] else dot_dot ∷ []
back rooted (s ∷ ss) = if text_eq s dot_dot then dot_dot ∷ s ∷ ss else ss

abbrev pub push : Bool → Text → List Text → List Text
push rooted s stack =
    if is_empty s || text_eq s dot
    then stack
    else if text_eq s dot_dot
    then back rooted stack
    else s ∷ stack

-- The segments read, last one first.
unfoldable pub clean_segments : Bool → List Text → List Text → List Text
clean_segments rooted stack [] = stack
clean_segments rooted stack (s ∷ ss) = clean_segments rooted (push rooted s stack) ss

abbrev pub is_rooted : Text → Bool
is_rooted [] = false
is_rooted (r ∷ rs) = is_slash r

unfoldable pub clean : Text → Text
unfolding split join_segments clean_segments
clean t =
    let body = join_segments (reverse (clean_segments (is_rooted t) [] (split t))) in
    if is_rooted t then slash ∷ body else if is_empty body then dot else body

-- path.Join: the empty elements are left out.
unfoldable pub path_join : List Text → Text
unfolding clean join_segments
path_join elems =
    let present = keep (λ e. not (is_empty e)) elems in
    if is_empty (join_segments present) then [] else clean (join_segments present)
