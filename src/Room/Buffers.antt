-- ===== src/Room/Buffers.antt =====
-- The bounded buffers of internal/usecase/room/match.go, and what the plugin is handed of them.
use vfx.Base.{
  ℕ, zero, suc, ◌≤◌, ◌≡◌, refl, sym, ap, ◌∙◌, List, [], ◌∷◌, ◌++◌, append-nil, append_assoc, map,
  length, length-append, take, ltb, arith, Bool-cases, inl, inr,
}
use vfx.Room.Match.{
  Match, Plugin, PlayerAction, offer, max_inputs, submit_input, request, submits, step, run,
}

module _ {A : Type 0} where
  pub length-offer : (n : ℕ) (x : A) (xs : List A) → length xs ≤ n → length (offer n x xs) ≤ n
  unfolding offer
  length-offer n x xs h = ground (arith, length-append xs (x ∷ []))

  take_all : (n : ℕ) (xs : List A) → length xs ≤ n → take n xs ≡ xs
  take_all zero [] h = refl
  take_all zero (x ∷ xs) h = absurd (omega arith)
  take_all (suc n) [] h = refl
  take_all (suc n) (x ∷ xs) h = ap (λ ys. x ∷ ys) (take_all n xs (omega arith))

  take-append_full : (n : ℕ) (xs ys : List A) → length xs ≡ n → take n (xs ++ ys) ≡ xs
  take-append_full zero [] ys h = refl
  take-append_full zero (x ∷ xs) ys h = absurd (omega arith)
  take-append_full (suc n) [] ys h = absurd (omega arith)
  take-append_full (suc n) (x ∷ xs) ys h =
      ap (λ zs. x ∷ zs) (take-append_full n xs ys (omega arith))

  abbrev pub offer_all : ℕ → List A → List A → List A
  offer_all n [] xs = xs
  offer_all n (y ∷ ys) xs = offer_all n ys (offer n y xs)

  -- A bounded buffer keeps what came first, in order.
  offer_all-take : (n : ℕ) (ys xs : List A) → length xs ≤ n → offer_all n ys xs ≡ take n (xs ++ ys)
  unfolding offer
  offer_all-take n [] xs h = sym (ap (take n) (append-nil xs) ∙ take_all n xs h)
  offer_all-take n (y ∷ ys) xs h = elim (Bool-cases (ltb (length xs) n)) [
    | inl e ↦ rw e (
        offer_all-take n ys (xs ++ y ∷ []) (ground (arith, length-append xs (y ∷ [])))
        ∙ ap (take n) (append_assoc xs (y ∷ []) ys))
    | inr e ↦
        let full : length xs ≡ n = ground arith in
        rw e (
          offer_all-take n ys xs h
          ∙ take-append_full n xs ys full
          ∙ sym (take-append_full n xs (y ∷ ys) full))
  ]

module _ {P : Type 0} (plugin : Plugin P) (order : List (ℕ × ℕ) → List (ℕ × ℕ)) where
  submits-inputs :
      (acts : List PlayerAction) (m : Match P)
      → (run plugin order (map submits acts) m).inputs ≡ offer_all max_inputs acts m.inputs
  unfolding run step submit_input
  submits-inputs [] m = refl
  submits-inputs (a ∷ acts) m = submits-inputs acts _

  -- Whatever is submitted between two ticks, the plugin is handed the first 256 of the buffered and
  -- the submitted inputs, in the order in which they came.
  pub request-submits :
      (acts : List PlayerAction) (m : Match P) (now : ℕ)
      → length m.inputs ≤ max_inputs
      → (request now (run plugin order (map submits acts) m)).actions
        ≡ take max_inputs (m.inputs ++ acts)
  request-submits acts m now h = submits-inputs acts m ∙ offer_all-take max_inputs acts m.inputs h
