-- ===== src/Prelude/Keys.antt =====
-- Lists of entries that carry a key, no two the same: rows under a primary key.
use mathlib.Core.Path.{◌≡◌, refl, sym, ap, ◌∙◌, subst}
use mathlib.Core.Bool.{Bool, Bool-set, true, false}
use mathlib.Core.Logic.{inl, inr, ∥∥₁_elim}
use mathlib.Core.List.{List, [], ◌∷◌, map, Perm, Permᴰ}
use mathlib.Core.List.Perm
use Prim.Native.Nat.{ℕ, zero, suc}
use native.Mathlib.Omega.{arith}
use backend_task_orchestrati.Prelude.Tests.{Bool-cases}
use backend_task_orchestrati.Prelude.Lists.{All, All_map, All_map₂, take, filter}
use backend_task_orchestrati.Prelude.Eq.{Eq, ◌==◌, elem, ==_refl}

module _ {K : Type 0} ⦃e : Eq K⦄ where
  abbrev pub IsUnique : List K → Type 0
  IsUnique [] = Unit
  IsUnique (k ∷ ks) = (elem k ks ≡ false) × IsUnique ks

  IsUnique-prop : (ks : List K) → IsProp (IsUnique ks)
  IsUnique-prop [] = hlevel
  IsUnique-prop (k ∷ ks) = hlevel (IsUnique-prop ks, Bool-set)

  Permᴰ-elem : (k : K) {xs ys : List K} → Permᴰ xs ys → elem k xs ≡ elem k ys
  unfolding elem
  Permᴰ-elem k Permᴰ.nil = refl
  Permᴰ-elem k (Permᴰ.cons same p) = ground (arith, same, Permᴰ-elem k p)
  Permᴰ-elem k (Permᴰ.swap first second) = ground (arith, first, second)
  Permᴰ-elem k (Permᴰ.trans p q) = Permᴰ-elem k p ∙ Permᴰ-elem k q

  pub elem-perm : (k : K) {xs ys : List K} → Perm xs ys → elem k xs ≡ elem k ys
  elem-perm k p = ∥∥₁_elim p (Bool-set _ _) (Permᴰ-elem k)

  Permᴰ-IsUnique : {xs ys : List K} → Permᴰ xs ys → IsUnique xs → IsUnique ys
  unfolding elem
  Permᴰ-IsUnique Permᴰ.nil u = u
  Permᴰ-IsUnique (Permᴰ.cons {a = x} same p) u =
      (rw (← same) (sym (Permᴰ-elem x p) ∙ u.0), Permᴰ-IsUnique p u.1)
  Permᴰ-IsUnique (Permᴰ.swap {a = x} {b = y} first second) u =
      ground (arith, first, second, e.equal_iff x y, e.equal_iff y x)
  Permᴰ-IsUnique (Permᴰ.trans p q) u = Permᴰ-IsUnique q (Permᴰ-IsUnique p u)

  pub IsUnique-perm : {xs ys : List K} → Perm xs ys → IsUnique xs → IsUnique ys
  IsUnique-perm {ys} p u = ∥∥₁_elim p (IsUnique-prop ys) (λ q. Permᴰ-IsUnique q u)

module _ {A : Type 0} where
  filter-swap :
      (p : A → Bool) (x y : A) (l : List A) → Perm (filter p (x ∷ y ∷ l)) (filter p (y ∷ x ∷ l))
  unfolding filter
  filter-swap p x y l = elim (Bool-cases (p x)) [
    | inl t ↦ elim (Bool-cases (p y)) [
      | inl u ↦ rw (t, u) (Perm.swap y x (filter p l))
      | inr g ↦ rw (t, g) (Perm.refl _)
    ]
    | inr f ↦ elim (Bool-cases (p y)) [
      | inl u ↦ rw (f, u) (Perm.refl _)
      | inr g ↦ rw (f, g) (Perm.refl _)
    ]
  ]

  Permᴰ-filter : (p : A → Bool) {xs ys : List A} → Permᴰ xs ys → Perm (filter p xs) (filter p ys)
  unfolding filter
  Permᴰ-filter p Permᴰ.nil = Perm.refl []
  Permᴰ-filter p (Permᴰ.cons {a = x} same q) =
      rw (← same) (ground (arith, Permᴰ-filter p q, Perm.cons x (Permᴰ-filter p q)))
  Permᴰ-filter p (Permᴰ.swap {a = x} {b = y} {a' = u} {l = l} first second) =
      subst (λ x'. Perm (filter p (x ∷ y ∷ l)) (filter p (u ∷ x' ∷ l))) first
        (subst (λ y'. Perm (filter p (x ∷ y ∷ l)) (filter p (y' ∷ x ∷ l))) second
          (filter-swap p x y l))
  Permᴰ-filter p (Permᴰ.trans q r) = Perm.trans (Permᴰ-filter p q) (Permᴰ-filter p r)

  pub filter-perm : (p : A → Bool) {xs ys : List A} → Perm xs ys → Perm (filter p xs) (filter p ys)
  filter-perm p q = ∥∥₁_elim q squash₁ (Permᴰ-filter p)

  pub filter_ext :
      (p q : A → Bool) (xs : List A) → All (λ x. p x ≡ q x) xs → filter p xs ≡ filter q xs
  unfolding filter
  filter_ext p q [] h = refl
  filter_ext p q (x ∷ xs) h = ground (arith, filter_ext p q xs)

  pub filter-filter :
      (p q : A → Bool) (xs : List A)
      → All (λ x. p x ≡ false → q x ≡ false) xs
      → filter q (filter p xs) ≡ filter q xs
  unfolding filter
  filter-filter p q [] h = refl
  filter-filter p q (x ∷ xs) h = ground (arith, filter-filter p q xs, h.0)

module _ {A K : Type 0} ⦃e : Eq K⦄ (key : A → K) where
  -- Whether the key of an entry is among those of the list.
  abbrev pub has_key : List A → A → Bool
  has_key xs x = elem (key x) (map key xs)

  -- An entry that the test leaves out has its key no longer.
  pub has_key-filter :
      (p : A → Bool) (k : K) (xs : List A)
      → elem k (map key xs) ≡ false
      → elem k (map key (filter p xs)) ≡ false
  unfolding elem filter
  has_key-filter p k [] h = refl
  has_key-filter p k (x ∷ xs) h = ground (arith, has_key-filter p k xs)

  pub IsUnique-filter :
      (p : A → Bool) (xs : List A) → IsUnique (map key xs) → IsUnique (map key (filter p xs))
  unfolding filter
  IsUnique-filter p [] u = u
  IsUnique-filter p (x ∷ xs) u = ground (arith, has_key-filter p (key x) xs, IsUnique-filter p xs)

  has_key-take :
      (n : ℕ) (k : K) (xs : List A)
      → elem k (map key xs) ≡ false
      → elem k (map key (take n xs)) ≡ false
  unfolding elem
  has_key-take zero k xs h = refl
  has_key-take (suc n) k [] h = refl
  has_key-take (suc n) k (x ∷ xs) h = ground (arith, has_key-take n k xs)

  keys_ne : (k : K) (xs : List A) → elem k (map key xs) ≡ false → All (λ x. (k == key x) ≡ false) xs
  unfolding elem
  keys_ne k [] h = tt
  keys_ne k (x ∷ xs) h =
      (ground (arith, e.equal_iff k (key x), e.equal_iff (key x) k), keys_ne k xs (ground arith))

  -- Among entries with distinct keys, one that the test leaves out takes its key with it.
  pub has_key_left_out :
      (p : A → Bool) (xs : List A)
      → IsUnique (map key xs)
      → All (λ x. p x ≡ false → has_key (filter p xs) x ≡ false) xs
  unfolding elem filter
  has_key_left_out p [] u = tt
  has_key_left_out p (x ∷ xs) u = (
    λ out. ground (arith, has_key-filter p (key x) xs),
    All_map₂ xs (has_key_left_out p xs u.1) (keys_ne (key x) xs u.0)
        (λ z left ne out. ground (arith, left out)),
  )

  -- The entries whose keys are among the first `n` are the first `n`.
  pub filter-has_key-take :
      (n : ℕ) (xs : List A) → IsUnique (map key xs) → filter (has_key (take n xs)) xs ≡ take n xs
  unfolding elem filter
  filter-has_key-take zero xs u = filter_none xs
    where
      filter_none : (ys : List A) → filter (λ y. false) ys ≡ []
      filter_none [] = refl
      filter_none (y ∷ ys) = filter_none ys
  filter-has_key-take (suc n) [] u = refl
  filter-has_key-take (suc n) (x ∷ xs) u = rw (==_refl (key x)) (
      ap (◌∷◌ x) (
        filter_ext (has_key (x ∷ take n xs)) (has_key (take n xs)) xs
          (All_map xs (keys_ne (key x) xs u.0) (λ z ne. rw ne))
        ∙ filter-has_key-take n xs u.1))

  -- `ORDER BY … LIMIT n` over the rows that pass the test, as a selection by key.
  pub select_by_key :
      (n : ℕ) (p : A → Bool) (rows ranked : List A)
      → IsUnique (map key rows)
      → Perm ranked (filter p rows)
      → Perm (filter (has_key (take n ranked)) rows) (take n ranked)
  select_by_key n p rows ranked u same =
      let unique : IsUnique (map key ranked) =
        IsUnique-perm (Perm.map key (Perm.symm same)) (IsUnique-filter p rows u) in
      let q = has_key (take n ranked) in
      let absent : All (λ x. p x ≡ false → q x ≡ false) rows =
        All_map rows (has_key_left_out p rows u) (λ x left out.
          has_key-take n (key x) ranked (elem-perm (key x) (Perm.map key same) ∙ left out)) in
      Perm.trans (rw (filter-filter p q rows absent) at (filter-perm q (Perm.symm same)))
        (rw (filter-has_key-take n ranked unique) (Perm.refl _))

  -- Each entry has its key.
  pub has_key_self : (xs : List A) → All (λ x. has_key xs x ≡ true) xs
  unfolding elem
  has_key_self [] = tt
  has_key_self (x ∷ xs) =
      (ground (arith, ==_refl (key x)), All_map xs (has_key_self xs) (λ y h. ground arith))

  -- A key that the test refuses is not among the keys of what it picks.
  pub not-has_key-filter :
      (s : K → Bool) (k : K) (xs : List A)
      → s k ≡ false
      → elem k (map key (filter (λ x. s (key x)) xs)) ≡ false
  unfolding elem filter
  not-has_key-filter s k [] h = refl
  not-has_key-filter s k (x ∷ xs) h =
      ground (arith, e.equal_iff (key x) k, not-has_key-filter s k xs)
