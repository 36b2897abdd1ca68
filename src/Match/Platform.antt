-- ===== src/Match/Platform.antt =====
-- What internal/domain/match takes from outside the repository: float64 arithmetic, and the
-- order of uuids by their text. Times are nanoseconds since Go's zero time, uuids are numbers.
use vfx.Base.{ℕ, Bool, true, false, ◌≡◌, ◌⊎◌, inl, inr, Bool-cases}
use vfx.Base.Int.{ℤ}

pub record Platform : Type 1 where
  -- float64, its operations and the number that an integer constant stands for
  pub F64 : Type 0
  pub of_ℕ : ℕ → F64
  pub add : F64 → F64 → F64
  pub sub : F64 → F64 → F64
  pub mul : F64 → F64 → F64
  pub abs : F64 → F64
  pub gt : F64 → F64 → Bool
  pub eq : F64 → F64 → Bool
  -- time.Duration.Seconds
  pub seconds : ℤ → F64
  -- a.String() < b.String() for uuids a and b
  pub id_before : ℕ → ℕ → Bool

-- The texts of uuids are ordered strictly and totally.
pub record IsIdOrder (before : ℕ → ℕ → Bool) : Type 0 where
  pub irrefl : (a : ℕ) → before a a ≡ false
  pub trans : (a b c : ℕ) → before a b ≡ true → before b c ≡ true → before a c ≡ true
  pub total : (a b : ℕ) → (before a b ≡ true) ⊎ (before b a ≡ true) ⊎ (a ≡ b)

module _ {before : ℕ → ℕ → Bool} (ids : IsIdOrder before) where
  pub id_le_trans : (a b c : ℕ) → before b a ≡ false → before c b ≡ false → before c a ≡ false
  id_le_trans a b c h k = elim (Bool-cases (before c a)) [
    | inr e ↦ e
    | inl e ↦ elim (ids.total a b) [
      | inl ab ↦ cc (ids.trans c a b e ab)
      | inr (inl ba) ↦ cc
      | inr (inr ab) ↦ cc
    ]
  ]

  pub id_asym : (a b : ℕ) → before a b ≡ true → before b a ≡ false
  id_asym a b h = elim (Bool-cases (before b a)) [
    | inr e ↦ e
    | inl e ↦ cc (ids.trans a b a h e, ids.irrefl a)
  ]
