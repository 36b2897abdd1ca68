-- ===== src/Leaderboard/Ranks.antt =====
-- The rank that the database counts and the place on the pages that it lists, in
-- internal/infra/repository/leaderboard.go.
use mathlib.Core.List.{Memᴰ, Permᴰ}
use mathlib.Core.List.Memᴰ.{head, tail}
use mathlib.Core.List.Permᴰ
use vfx.Base.{
  keep-perm, keep-member, All-keep, mem-keep, eq_of_some, ℕ, zero, suc, ◌+◌, ◌-◌, ◌≤◌, ◌<◌, ◌≡◌,
  refl, sym, ap, ◌∙◌, subst, Bool, true, false, ◌&&◌, some, List, [], ◌∷◌, length, get_elem?, keep,
  take, drop, sort, All, All-mem, All-mono, length-perm, IsSorted, IsOrder, sort-perm,
  sort-IsSorted, mem-perm, arith, Bool-cases, inl, inr,
}
use vfx.Leaderboard.{
  SortOrder, descending, ascending, Leaderboard, beats, ahead, Entry, is_on, rank_in, number_from,
  top_entries,
}

ahead-IsOrder : (order : SortOrder) → IsOrder (ahead order)
unfolding ahead beats
ahead-IsOrder descending = record {
  asym = λ x y h. ground (arith, h);
  le_trans = λ x y z h k. ground (arith, h, k);
}
ahead-IsOrder ascending = record {
  asym = λ x y h. ground (arith, h);
  le_trans = λ x y z h k. ground (arith, h, k);
}

module _ {A : Type 0} where
  get_elem?-drop : (k i : ℕ) (xs : List A) → get_elem? (drop k xs) i ≡ get_elem? xs (k + i)
  get_elem?-drop zero i xs = let e : i ≡ 0 + i = omega arith in ap (get_elem? xs) e
  get_elem?-drop (suc k) i [] = let e : suc (k + i) ≡ suc k + i = omega arith in ap (get_elem? []) e
  get_elem?-drop (suc k) i (x ∷ xs) =
      let e : suc (k + i) ≡ suc k + i = omega arith in
      get_elem?-drop k i xs ∙ ap (get_elem? (x ∷ xs)) e

  get_elem?-take : (n i : ℕ) (xs : List A) → i < n → get_elem? (take n xs) i ≡ get_elem? xs i
  get_elem?-take zero i xs h = absurd (omega arith)
  get_elem?-take (suc n) i [] h = refl
  get_elem?-take (suc n) zero (x ∷ xs) h = refl
  get_elem?-take (suc n) (suc i) (x ∷ xs) h = get_elem?-take n i xs (omega arith)

  keep-keep :
      (p q : A → Bool) (xs : List A)
      → length (keep (λ x. p x && q x) xs) ≡ length (keep q (keep p xs))
  keep-keep p q [] = refl
  keep-keep p q (x ∷ xs) = ground (arith, keep-keep p q xs)

  keep_none : (p : A → Bool) (xs : List A) → All (λ x. p x ≡ false) xs → length (keep p xs) ≡ 0
  keep_none p [] h = refl
  keep_none p (x ∷ xs) h = rw h.0 (keep_none p xs h.1)

get_elem?-number :
    (r i : ℕ) (xs : List Entry) (e : Entry)
    → get_elem? xs i ≡ some e
    → get_elem? (number_from r xs) i ≡ some (record { rank = r + i; entry = e })
unfolding number_from
get_elem?-number r i [] e h = cc
get_elem?-number r zero (x ∷ xs) e h =
    let y : r ≡ r + 0 = omega arith in
    ap (λ n. some (record { rank = n; entry = x })) y
    ∙ ap (λ y. some (record { rank = r + 0; entry = y })) (eq_of_some h)
get_elem?-number r (suc i) (x ∷ xs) e h =
    let y : r + 1 + i ≡ r + suc i = omega arith in
    get_elem?-number (r + 1) i xs e h ∙ ap (λ n. some (record { rank = n; entry = e })) y

-- The element with as many others before it as are less than it, where none but itself ties with it.
module _ {A : Type 0} (less : A → A → Bool) (o : IsOrder less) where
  get_elem?-less :
      (e : A) (xs : List A)
      → IsSorted less xs
      → Memᴰ e xs
      → ((x : A) → Memᴰ x xs → less x e ≡ false → less e x ≡ false → x ≡ e)
      → get_elem? xs (length (keep (λ x. less x e) xs)) ≡ some e
  get_elem?-less e [] h m alone = elim m [ ]
  get_elem?-less e (x ∷ xs) h m alone = elim (Bool-cases (less x e)) [
    | inl y ↦ rw y (get_elem?-less e xs h.1 (later y m) (λ z n. alone z (tail n)))
    | inr n ↦
        let none_less : All (λ z. less z e ≡ false) xs =
          All-mono xs (λ z k. o.le_trans e x z n k) h.0 in
        rw (n, keep_none (λ z. less z e) xs none_less) (ap some (alone x (head refl) n (first n m)))
  ]
    where
      later : less x e ≡ true → Memᴰ e (x ∷ xs) → Memᴰ e xs
      later y (head q) =
          let x_lt : less x x ≡ true = subst (λ z. less x z ≡ true) q y in
          absurd (cc (x_lt, o.asym x x x_lt))
      later y (tail m) = m

      first : less x e ≡ false → Memᴰ e (x ∷ xs) → less e x ≡ false
      first n (head q) = subst (λ z. less z x ≡ false) (sym q) (subst (λ z. less x z ≡ false) q n)
      first n (tail m) = All-mem _ xs h.0 m

-- None but the entry itself ties with it on its board.
abbrev pub IsAlone : SortOrder → Entry → List Entry → Type 0
IsAlone order e es =
    (x : Entry)
    → Memᴰ x es
    → is_on e.leaderboard_id x ≡ true
    → ahead order x e ≡ false
    → ahead order e x ≡ false
    → x ≡ e

-- The place on the board of an entry that ties with no other is the rank that the database counts,
-- whichever way it reads the rows.
board-rank :
    (scan : List Entry → List Entry)
    → ((xs : List Entry) → Permᴰ (scan xs) xs)
    → (order : SortOrder) (e : Entry) (es : List Entry) → Memᴰ e es
    → IsAlone order e es
    → get_elem?
        (sort (ahead order) (keep (is_on e.leaderboard_id) (scan es)))
        (rank_in order e es - 1)
      ≡ some e
unfolding rank_in
board-rank scan perm order e es m alone =
    let on = is_on e.leaderboard_id in
    let rows = keep on (scan es) in
    let sorted = sort (ahead order) rows in
    let o = ahead-IsOrder order in
    let mine : on e ≡ true = ground arith in
    let there : Memᴰ e sorted =
      mem-perm (Permᴰ.symm (sort-perm (ahead order) rows))
        (keep-member on e (scan es) (mem-perm (Permᴰ.symm (perm es)) m) mine) in
    let back : (x : Entry) → Memᴰ x sorted → Memᴰ x rows =
      λ x n. mem-perm (sort-perm (ahead order) rows) n in
    let counted : length (keep (λ x. ahead order x e) sorted)
        ≡ length (keep (λ x. on x && ahead order x e) es) =
      length-perm (keep-perm (λ x. ahead order x e) (sort-perm (ahead order) rows))
      ∙ sym (keep-keep on (λ x. ahead order x e) (scan es))
      ∙ length-perm (keep-perm (λ x. on x && ahead order x e) (perm es)) in
    let place : length (keep (λ x. ahead order x e) sorted)
        ≡ 1 + length (keep (λ x. on x && ahead order x e) es) - 1 =
      omega (arith, counted) in
    sym (ap (get_elem? sorted) place)
    ∙ get_elem?-less (ahead order) o e sorted (sort-IsSorted (ahead order) o rows) there (λ x n.
      alone x (mem-perm (perm es) (mem-keep on (scan es) (back x n)))
        (All-mem _ rows (All-keep on (scan es)) (back x n)))

-- A page that reaches over the place of an entry lists it with the rank that the database counts.
pub page-rank :
    (scan : List Entry → List Entry)
    → ((xs : List Entry) → Permᴰ (scan xs) xs)
    → (lb : Leaderboard) (e : Entry) (es : List Entry) (offset limit : ℕ) → Memᴰ e es
    → e.leaderboard_id ≡ lb.id
    → IsAlone lb.sort_order e es
    → offset + 1 ≤ rank_in lb.sort_order e es
    → rank_in lb.sort_order e es ≤ offset + limit
    → get_elem? (top_entries scan lb offset limit es) (rank_in lb.sort_order e es - 1 - offset)
      ≡ some (record { rank = rank_in lb.sort_order e es; entry = e })
unfolding top_entries
page-rank scan perm lb e es offset limit m on alone low high =
    let rank = rank_in lb.sort_order e es in
    let sorted = sort (ahead lb.sort_order) (keep (is_on lb.id) (scan es)) in
    let i = rank - 1 - offset in
    let placed : get_elem? sorted (rank - 1) ≡ some e =
      subst
        (λ b. get_elem? (sort (ahead lb.sort_order) (keep (is_on b) (scan es))) (rank - 1) ≡ some e)
        on (board-rank scan perm lb.sort_order e es m alone) in
    let there : rank - 1 ≡ offset + i = omega (arith, low) in
    let numbered : offset + 1 + i ≡ rank = omega (arith, low) in
    let short : i < limit = omega (arith, low, high) in
    let shown : get_elem? (take limit (drop offset sorted)) i ≡ some e =
      get_elem?-take limit i (drop offset sorted) short
      ∙ get_elem?-drop offset i sorted
      ∙ sym (ap (get_elem? sorted) there)
      ∙ placed in
    get_elem?-number (offset + 1) i _ e shown
    ∙ ap (λ n. some (record { rank = n; entry = e })) numbered
