-- ===== src/Social/Pairs.antt =====
-- OrderPair of internal/domain/social/social.go, which compares 16 bytes, most significant first.
use vfx.Base.{
  ℕ, zero, suc, ◌+◌, ◌-◌, ◌*◌, ◌/◌, ◌%◌, ◌^◌, ◌≤◌, ◌<◌, ◌≡◌, refl, sym, ap, ◌∙◌, false, ltb, arith,
  min, max, if◌then◌else◌,
}
use native.Mathlib.Omega.{by_contra}
use native.Mathlib.Nat.{
  div-eq_of_lt, mul-div-le, lt-mul-div-succ, lt_of_mul-lt-mul_left, div-zero, div-one, div-add-mod,
  div-div-eq-div-mul, pow-suc,
}
use vfx.Social.Graph.{byte, order_from, order_pair}

abbrev pub IsUuid : ℕ → Type 0
IsUuid a = a < 256 ^ 16

abbrev pub sorted : ℕ → ℕ → ℕ × ℕ
sorted a b = if ltb b a then (b, a) else (a, b)

-- The bytes before byte 15 - left are those of the quotient by 256 ^ suc left.
div-pow : (a k : ℕ) → a / 256 ^ k ≡ 256 * (a / 256 ^ suc k) + a / 256 ^ k % 256
div-pow a k =
    let d : a / 256 ^ k / 256 ≡ a / 256 ^ suc k =
      div-div-eq-div-mul a (256 ^ k) 256 ∙ ap (λ n. a / n) (sym (pow-suc 256 k)) in
    omega (arith, div-add-mod (a / 256 ^ k) 256, d)

lt_of_div-lt : (a b m : ℕ) → a / m < b / m → a < b
lt_of_div-lt a b zero h = omega (arith, h, div-zero a, div-zero b)
lt_of_div-lt a b (suc m) h = by_contra (suc a) b λ le.
    let up : suc m * (b / suc m) < suc m * (a / suc m + 1) =
      omega (arith, mul-div-le b (suc m), lt-mul-div-succ a {b = suc m} (omega arith)) in
    omega (arith, h, lt_of_mul-lt-mul_left (suc m) up)

ltb_irrefl : (b : ℕ) → ltb b b ≡ false
ltb_irrefl b = ground arith

decide :
    (x y a b : ℕ) (rest : ℕ × ℕ)
    → (x < y → a < b)
    → (y < x → b < a)
    → (x ≡ y → rest ≡ sorted a b)
    → (if ltb x y then (a, b) else if ltb y x then (b, a) else rest) ≡ sorted a b
decide x y a b rest l r e = ground arith

order_from-sorted :
    (left a b : ℕ) → left ≤ 16 → a / 256 ^ left ≡ b / 256 ^ left → order_from left a b ≡ sorted a b
unfolding order_from byte
order_from-sorted zero a b le same =
    let e : a ≡ b = omega (arith, div-one a, div-one b, same) in rw (e, ltb_irrefl b) refl
order_from-sorted (suc left) a b le same =
    let index : 15 - (15 - left) ≡ left = omega (arith, le) in
    let da = div-pow a left in
    let db = div-pow b left in
    let la = lt_of_div-lt a b (256 ^ left) in
    let lb = lt_of_div-lt b a (256 ^ left) in
    let rest = order_from-sorted left a b (omega arith) in
    let ba : byte a (15 - left) ≡ a / 256 ^ left % 256 = rw (index, byte) refl in
    let bb : byte b (15 - left) ≡ b / 256 ^ left % 256 = rw (index, byte) refl in
    decide (byte a (15 - left)) (byte b (15 - left)) a b _ (λ h. la (omega arith))
      (λ h. lb (omega arith)) (λ h. rest (omega arith))

pub order_pair_lem : (a b : ℕ) → IsUuid a → IsUuid b → order_pair a b ≡ sorted a b
unfolding order_pair
order_pair_lem a b ha hb =
    order_from-sorted 16 a b (omega arith) (div-eq_of_lt ha ∙ sym (div-eq_of_lt hb))

-- Of two uuids, OrderPair puts the smaller one first, in whichever order they are given.
pub order_pair_canonical : (a b : ℕ) → IsUuid a → IsUuid b → order_pair a b ≡ (min a b, max a b)
order_pair_canonical a b ha hb = order_pair_lem a b ha hb ∙ ground arith
