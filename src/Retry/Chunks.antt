-- ===== src/Retry/Chunks.antt =====
-- `chunkArray`.
use backend_task_orchestrati.Prelude.{
  ℕ, zero, suc, ◌≤◌, ◌<◌, ◌≡◌, refl, ap, ◌∙◌, List, [], ◌∷◌, ◌++◌, true, ltb, All, length, take,
  drop, arith, length-take, ◌-◌,
}
use backend_task_orchestrati.Retry.{chunk_array}

module _ {A : Type 0} where
  -- The chunks, joined.
  pub flatten : List (List A) → List A
  flatten [] = []
  flatten (c ∷ cs) = c ++ flatten cs

  take-drop : (n : ℕ) (xs : List A) → take n xs ++ drop n xs ≡ xs
  take-drop zero xs = refl
  take-drop (suc n) [] = refl
  take-drop (suc n) (x ∷ xs) = ap (◌∷◌ x) (take-drop n xs)

  length-drop : (n : ℕ) (xs : List A) → length (drop n xs) ≡ length xs - n
  length-drop zero xs = omega arith
  length-drop (suc n) [] = omega arith
  length-drop (suc n) (x ∷ xs) = length-drop n xs ∙ omega arith

  -- A chunk is not empty, and no longer than the size.
  abbrev pub IsChunk : ℕ → List A → Type 0
  IsChunk size c = (0 < length c) × (length c ≤ size)

  -- For a size above 0, and fuel for as many chunks as there are elements, the chunks hold the
  -- elements in their order, and each has at least one and at most `size` of them.
  pub chunk_array_correct :
      (fuel : ℕ) (array : List A) (size : ℕ)
      → 0 < size
      → length array ≤ fuel
      → (flatten (chunk_array fuel array size) ≡ array)
        × All (IsChunk size) (chunk_array fuel array size)
  unfolding chunk_array flatten
  chunk_array_correct zero [] size h k = (refl, tt)
  chunk_array_correct zero (x ∷ array) size h k = absurd (omega arith)
  chunk_array_correct (suc fuel) [] size h k = (refl, tt)
  chunk_array_correct (suc fuel) (x ∷ array) size h k =
      let (same, sized) =
        chunk_array_correct fuel (drop size (x ∷ array)) size h
          (omega (arith, length-drop size (x ∷ array))) in
      let more : ltb 0 (length (x ∷ array)) ≡ true = ground arith in
      rw more (
        ap (◌++◌ (take size (x ∷ array))) same ∙ take-drop size (x ∷ array),
        (
          (
            omega (arith, length-take size (x ∷ array)),
            omega (arith, length-take size (x ∷ array)),
          ),
          sized,
        ),
      )
