-- ===== src/Prelude/Arrays.antt =====
-- Reads and writes of an array in range: an exchange of two entries, and reads after a write.
use mathlib.Core.List.Perm
use backend_task_orchestrati.Prelude.Tests.{if◌then◌else◌}
use backend_task_orchestrati.Prelude.Eq.{◌==◌, nat_eq}
use Prim.Native.Nat.{ℕ, zero, suc, ◌<◌}
use mathlib.Core.Path.{◌≡◌, refl, ap}
use mathlib.Core.List.{List, [], ◌∷◌, ◌++◌, Perm}
use mathlib.Core.Option.{none, some}
use native.Mathlib.Omega.{arith}
use backend_task_orchestrati.Prelude.Lists.{length, get_elem?, get_or, set, take, length-set}

module _ {ℓ} {A : Type ℓ} where
  -- `[xs[i], xs[j]] = [xs[j], xs[i]]`, for indices in range.
  unfoldable pub swap : List A → ℕ → ℕ → List A
  swap xs i j = elim (get_elem? xs i) [
    | none ↦ xs
    | some x ↦ elim (get_elem? xs j) [ none ↦ xs | some y ↦ set (set xs i y) j x ]
  ]

  pub get_elem?-get_or :
      (xs : List A) (i : ℕ) (d : A) → i < length xs → get_elem? xs i ≡ some (get_or xs i d)
  unfolding get_or
  get_elem?-get_or [] i d h = absurd (omega arith)
  get_elem?-get_or (x ∷ xs) zero d h = refl
  get_elem?-get_or (x ∷ xs) (suc i) d h = get_elem?-get_or xs i d (omega arith)

  pub get_or-set :
      (xs : List A) (i j : ℕ) (v d : A)
      → i < length xs
      → get_or (set xs i v) j d ≡ (if i == j then v else get_or xs j d)
  unfolding get_or
  get_or-set [] i j v d h = absurd (omega arith)
  get_or-set (x ∷ xs) zero zero v d h = refl
  get_or-set (x ∷ xs) (suc i) (suc j) v d h = ground (arith, get_or-set xs i j v d)
  get_or-set (x ∷ xs) i j v d h = ground arith

  pub get_or-append :
      (xs ys : List A) (i : ℕ) (d : A) → i < length xs → get_or (xs ++ ys) i d ≡ get_or xs i d
  unfolding get_or
  get_or-append [] ys i d h = absurd (omega arith)
  get_or-append (x ∷ xs) ys zero d h = refl
  get_or-append (x ∷ xs) ys (suc i) d h = get_or-append xs ys i d (omega arith)

  pub get_or-take :
      (n : ℕ) (xs : List A) (i : ℕ) (d : A) → i < n → get_or (take n xs) i d ≡ get_or xs i d
  unfolding get_or
  get_or-take zero xs i d h = absurd (omega arith)
  get_or-take (suc n) [] i d h = refl
  get_or-take (suc n) (x ∷ xs) zero d h = refl
  get_or-take (suc n) (x ∷ xs) (suc i) d h = get_or-take n xs i d (omega arith)

  pub take-append-get_or :
      (n : ℕ) (xs : List A) (d : A) → length xs ≡ suc n → take n xs ++ get_or xs n d ∷ [] ≡ xs
  unfolding get_or
  take-append-get_or zero (x ∷ []) d h = refl
  take-append-get_or (suc n) (x ∷ xs) d h = ap (◌∷◌ x) (take-append-get_or n xs d (omega arith))
  take-append-get_or n xs d h = absurd (omega arith)

  -- A write trades the old entry for the new one.
  pub set-perm :
      (xs : List A) (i : ℕ) (v d : A) → i < length xs → Perm (get_or xs i d ∷ set xs i v) (v ∷ xs)
  unfolding get_or
  set-perm [] i v d h = absurd (omega arith)
  set-perm (x ∷ xs) zero v d h = Perm.swap v x xs
  set-perm (x ∷ xs) (suc i) v d h =
      let inner = Perm.cons x (set-perm xs i v d (omega arith)) in
      Perm.trans (Perm.swap x _ _) (Perm.trans inner (Perm.swap v x xs))

  module _ (xs : List A) (i j : ℕ) (d : A) (hi : i < length xs) (hj : j < length xs) where
    pub swap_lem : swap xs i j ≡ set (set xs i (get_or xs j d)) j (get_or xs i d)
    unfolding swap
    swap_lem = rw (get_elem?-get_or xs i d hi, get_elem?-get_or xs j d hj, swap)

    pub length-swap : length (swap xs i j) ≡ length xs
    length-swap = rw swap_lem (simp length-set)

    pub get_or-swap :
        (c : ℕ)
        → get_or (swap xs i j) c d
          ≡ (if j == c then get_or xs i d else if i == c then get_or xs j d else get_or xs c d)
    get_or-swap c = rw (
      swap_lem,
      get_or-set (set xs i (get_or xs j d)) j c (get_or xs i d) d (rw length-set hj),
      get_or-set xs i c (get_or xs j d) d hi,
    )

    pub swap-perm : Perm (swap xs i j) xs
    swap-perm =
        let ys = set xs i (get_or xs j d) in
        let kept : get_or ys j d ≡ get_or xs j d =
          ground (arith, get_or-set xs i j (get_or xs j d) d) in
        let put_back = rw kept at (set-perm ys j (get_or xs i d) d (rw length-set hj)) in
        rw swap_lem (Perm.cons_inv (Perm.trans put_back (set-perm xs i (get_or xs j d) d hi)))
