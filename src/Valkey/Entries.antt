-- ===== src/Valkey/Entries.antt =====
-- The entries of a stream in internal/infra/matchqueue/valkey.go: what stands above the last one seen.
use vfx.Base.{
  ℕ, zero, suc, ◌+◌, ◌≤◌, ◌<◌, ltb, keep, true, false, List, [], ◌∷◌, ◌++◌, ◌≡◌, refl, ap, take,
  drop, arith, Bool-cases, inl, inr,
}
use vfx.Valkey.Streams.{above, texts_of, seen}

take-nil : {A : Type 0} (k : ℕ) → [] ≡ take {A = A} k []
take-nil zero = refl
take-nil (suc k) = refl

pub take-add :
    {A : Type 0} (n k j : ℕ) (xs : List A) → j ≡ n + k → take j xs ≡ take n xs ++ take k (drop n xs)
take-add zero k j xs e = let same : j ≡ k = omega (arith, e) in rw same refl
take-add (suc n) k zero xs e = absurd (omega (arith, e))
take-add (suc n) k (suc j) [] e = take-nil k
take-add (suc n) k (suc j) (x ∷ xs) e =
    let less : j ≡ n + k = omega (arith, e) in ap (λ l. x ∷ l) (take-add n k j xs less)

-- The entries of a stream as XADD appends them: each id is above the one before.
abbrev pub IsAppended : {Str : Type 0} → ℕ → List (ℕ × Str) → Type 0
IsAppended l [] = Unit {0}
IsAppended l ((id, text) ∷ entries) = (l < id) × IsAppended id entries

module _ {Str : Type 0} where
  pub texts_of-take : (k : ℕ) (xs : List (ℕ × Str)) → texts_of (take k xs) ≡ take k (texts_of xs)
  texts_of-take zero xs = refl
  texts_of-take (suc k) [] = refl
  texts_of-take (suc k) (x ∷ xs) = ap (λ l. x.1 ∷ l) (texts_of-take k xs)

  pub texts_of-drop : (k : ℕ) (xs : List (ℕ × Str)) → texts_of (drop k xs) ≡ drop k (texts_of xs)
  texts_of-drop zero xs = refl
  texts_of-drop (suc k) [] = refl
  texts_of-drop (suc k) (x ∷ xs) = texts_of-drop k xs

  pub seen-le : (k l : ℕ) (xs : List (ℕ × Str)) → IsAppended l xs → l ≤ seen l (take k xs)
  unfolding seen
  seen-le zero l xs up = omega arith
  seen-le (suc k) l [] up = omega arith
  seen-le (suc k) l ((id, text) ∷ xs) up = omega (arith, up.0, seen-le k id xs up.1)

  pub IsAppended-drop :
      (k l : ℕ) (xs : List (ℕ × Str))
      → IsAppended l xs
      → IsAppended (seen l (take k xs)) (drop k xs)
  unfolding seen
  IsAppended-drop zero l xs up = up
  IsAppended-drop (suc k) l [] up = tt
  IsAppended-drop (suc k) l ((id, text) ∷ xs) up = IsAppended-drop k id xs up.1

  pub keep-all : (m l : ℕ) (xs : List (ℕ × Str)) → m ≤ l → IsAppended l xs → keep (above m) xs ≡ xs
  keep-all m l [] h up = refl
  keep-all m l ((id, text) ∷ xs) h up =
      let y : ltb m id ≡ true = ground (arith, h, up.0) in
      rw y (ap (λ r. (id, text) ∷ r) (keep-all m id xs (omega (arith, h, up.0)) up.1))

  pub keep-seen :
      (k l : ℕ) (xs : List (ℕ × Str))
      → IsAppended l xs
      → keep (above (seen l (take k xs))) xs ≡ drop k xs
  unfolding seen
  keep-seen zero l xs up = keep-all l l xs (omega arith) up
  keep-seen (suc k) l [] up = refl
  keep-seen (suc k) l ((id, text) ∷ xs) up =
      let n : ltb (seen id (take k xs)) id ≡ false = ground (arith, seen-le k id xs up.1) in
      rw n (keep-seen k id xs up.1)

  pub keep-above :
      (l m : ℕ) (xs : List (ℕ × Str))
      → l ≤ m
      → keep (above m) xs ≡ keep (above m) (keep (above l) xs)
  keep-above l m [] h = refl
  keep-above l m ((id, text) ∷ xs) h = elim (Bool-cases (ltb m id)) [
    | inl y ↦
        let z : ltb l id ≡ true = ground (arith, h, y) in
        rw (y, z) rw y (ap (λ r. (id, text) ∷ r) (keep-above l m xs h))
    | inr n ↦ elim (Bool-cases (ltb l id)) [
      | inl z ↦ rw (n, z) rw n (keep-above l m xs h)
      | inr z ↦ rw (n, z) (keep-above l m xs h)
    ]
  ]
