-- ===== src/Prelude/Lists.antt =====
-- Lists as arrays, under native indices.
use Prim.Native.Nat.{ℕ, zero, suc, ◌+◌, ◌<◌, min}
use mathlib.Core.Path.{◌≡◌, refl, sym, ap, ◌∙◌, subst}
use mathlib.Core.Bool.{Bool, true, false≢true}
use mathlib.Core.Logic.{inl, inr, ∥∥₁_elim}
use mathlib.Core.List.{List, [], ◌∷◌, ◌++◌, map, Perm, Permᴰ, perm_middle, append-nil}
use mathlib.Core.HLevel.{×_prop}
use mathlib.Core.Option.{Option, none, some}
use native.Mathlib.Nat.{ℕ_set}
use native.Mathlib.Omega.{arith}
use backend_task_orchestrati.Prelude.Tests.{if◌then◌else◌, Bool-cases}

module _ {ℓ} {A : Type ℓ} where
  abbrev pub length : List A → ℕ
  length [] = 0
  length (x ∷ xs) = suc (length xs)

  abbrev pub get_elem? : List A → ℕ → Option A
  get_elem? [] i = none
  get_elem? (x ∷ xs) zero = some x
  get_elem? (x ∷ xs) (suc i) = get_elem? xs i

  unfoldable pub get_or : List A → ℕ → A → A
  get_or [] i d = d
  get_or (x ∷ xs) zero d = x
  get_or (x ∷ xs) (suc i) d = get_or xs i d

  abbrev pub set : List A → ℕ → A → List A
  set [] i v = []
  set (x ∷ xs) zero v = v ∷ xs
  set (x ∷ xs) (suc i) v = x ∷ set xs i v

  abbrev pub take : ℕ → List A → List A
  take zero xs = []
  take (suc n) [] = []
  take (suc n) (x ∷ xs) = x ∷ take n xs

  abbrev pub drop : ℕ → List A → List A
  drop zero xs = xs
  drop (suc n) [] = []
  drop (suc n) (x ∷ xs) = drop n xs

  -- `xs.filter(p)`
  unfoldable pub filter : (A → Bool) → List A → List A
  filter p [] = []
  filter p (x ∷ xs) = if p x then x ∷ filter p xs else filter p xs

  pub length-append : (xs ys : List A) → length (xs ++ ys) ≡ length xs + length ys
  length-append [] ys = omega arith
  length-append (x ∷ xs) ys = omega (arith, length-append xs ys)

  pub length-set : (xs : List A) (i : ℕ) (v : A) → length (set xs i v) ≡ length xs
  length-set [] i v = refl
  length-set (x ∷ xs) zero v = refl
  length-set (x ∷ xs) (suc i) v = ap suc (length-set xs i v)

  Permᴰ-length : {before after : List A} → Permᴰ before after → length before ≡ length after
  Permᴰ-length (Permᴰ.trans first second) = Permᴰ-length first ∙ Permᴰ-length second
  Permᴰ-length (Permᴰ.swap _ _) = refl
  Permᴰ-length (Permᴰ.cons _ rest) = ap suc (Permᴰ-length rest)
  Permᴰ-length Permᴰ.nil = refl

  pub length-perm : {xs ys : List A} → Perm xs ys → length xs ≡ length ys
  length-perm p = ∥∥₁_elim p (ℕ_set _ _) Permᴰ-length

  pub concat-perm : (xs : List A) (x : A) → Perm (xs ++ x ∷ []) (x ∷ xs)
  concat-perm xs x = rw (append-nil xs) at (perm_middle {a = x} xs [])

module _ {ℓ κ} {A : Type ℓ} where
  -- Every entry satisfies `P`. It computes to a tuple, which the tactics read and build.
  abbrev pub All : (A → Type κ) → List A → Type κ
  All P [] = Unit
  All P (x ∷ xs) = P x × All P xs

  pub All-get_or :
      (P : A → Type κ) (d : A) (xs : List A)
      → ((i : ℕ) → i < length xs → P (get_or xs i d))
      → All P xs
  unfolding get_or
  All-get_or P d [] h = tt
  All-get_or P d (x ∷ xs) h =
      (h 0 (omega arith), All-get_or P d xs (λ i p. h (suc i) (omega arith)))

module _ {ℓ} {A : Type ℓ} where
  pub All_map {κ μ} :
      {P : A → Type κ} {Q : A → Type μ} (xs : List A) → All P xs → ((x : A) → P x → Q x) → All Q xs
  All_map [] h f = tt
  All_map (x ∷ xs) h f = (f x h.0, All_map xs h.1 f)

  pub All_map₂ {κ μ ν} :
      {P : A → Type κ} {Q : A → Type μ} {R : A → Type ν} (xs : List A)
      → All P xs
      → All Q xs
      → ((x : A) → P x → Q x → R x)
      → All R xs
  All_map₂ [] h k f = tt
  All_map₂ (x ∷ xs) h k f = (f x h.0 k.0, All_map₂ xs h.1 k.1 f)

  pub All_pure {κ} : (P : A → Type κ) (xs : List A) → ((x : A) → P x) → All P xs
  All_pure P [] f = tt
  All_pure P (x ∷ xs) f = (f x, All_pure P xs f)

  pub All_filter {κ} :
      (P : A → Type κ) (p : A → Bool) (xs : List A)
      → All P (filter p xs)
      → All (λ x. p x ≡ true → P x) xs
  unfolding filter
  All_filter P p [] h = tt
  All_filter P p (x ∷ xs) h = elim (Bool-cases (p x)) [
    | inl t ↦ let h' = rw t at h in (λ _. h'.0, All_filter P p xs h'.1)
    | inr f ↦ let h' = rw f at h in ((λ e. absurd (false≢true (sym f ∙ e))), All_filter P p xs h')
  ]

  pub filter-All : (p : A → Bool) (xs : List A) → All (λ x. p x ≡ true) (filter p xs)
  unfolding filter
  filter-All p [] = tt
  filter-All p (x ∷ xs) = elim (Bool-cases (p x)) [
    | inl t ↦ rw t (t, filter-All p xs)
    | inr f ↦ rw f (filter-All p xs)
  ]

  pub All_take {κ} : (P : A → Type κ) (n : ℕ) (xs : List A) → All P xs → All P (take n xs)
  All_take P zero xs h = tt
  All_take P (suc n) [] h = tt
  All_take P (suc n) (x ∷ xs) h = (h.0, All_take P n xs h.1)

  pub All_take_drop {κ} :
      (P : A → Type κ) (n : ℕ) (xs : List A) → All P (take n xs) → All P (drop n xs) → All P xs
  All_take_drop P zero xs h k = k
  All_take_drop P (suc n) [] h k = tt
  All_take_drop P (suc n) (x ∷ xs) h k = (h.0, All_take_drop P n xs h.1 k)

  pub length-take : (n : ℕ) (xs : List A) → length (take n xs) ≡ min n (length xs)
  length-take zero xs = omega arith
  length-take (suc n) [] = omega arith
  length-take (suc n) (x ∷ xs) = omega (arith, length-take n xs)

  pub length-map {κ} : {B : Type κ} (f : A → B) (xs : List A) → length (map f xs) ≡ length xs
  length-map f [] = refl
  length-map f (x ∷ xs) = ap suc (length-map f xs)

  pub All-prop {κ} : {P : A → Type κ} → ((x : A) → IsProp (P x)) → (xs : List A) → IsProp (All P xs)
  All-prop h [] = hlevel
  All-prop h (x ∷ xs) = ×_prop (h x) (All-prop h xs)

  Permᴰ-All {κ} : (P : A → Type κ) {xs ys : List A} → Permᴰ xs ys → All P xs → All P ys
  Permᴰ-All P Permᴰ.nil h = h
  Permᴰ-All P (Permᴰ.cons same p) h = (subst P same h.0, Permᴰ-All P p h.1)
  Permᴰ-All P (Permᴰ.swap first second) h = (subst P second h.1.0, (subst P first h.0, h.1.1))
  Permᴰ-All P (Permᴰ.trans p q) h = Permᴰ-All P q (Permᴰ-All P p h)

  pub All-perm {κ} :
      (P : A → Type κ) {xs ys : List A}
      → ((x : A) → IsProp (P x))
      → Perm xs ys
      → All P xs
      → All P ys
  All-perm P {ys} prop p h = ∥∥₁_elim p (All-prop prop ys) (λ q. Permᴰ-All P q h)

  pub All_of_filter {κ} :
      (P : A → Type κ) (p : A → Bool) (xs : List A) → All P xs → All P (filter p xs)
  unfolding filter
  All_of_filter P p [] h = tt
  All_of_filter P p (x ∷ xs) h = elim (Bool-cases (p x)) [
    | inl t ↦ rw t (h.0, All_of_filter P p xs h.1)
    | inr f ↦ rw f (All_of_filter P p xs h.1)
  ]

  pub map-All {κ μ} :
      {B : Type κ} (P : B → Type μ) (f : A → B) (xs : List A)
      → All (λ x. P (f x)) xs
      → All P (map f xs)
  map-All P f [] h = tt
  map-All P f (x ∷ xs) h = (h.0, map-All P f xs h.1)

  pub All_snoc {κ} : (P : A → Type κ) (xs : List A) (x : A) → All P xs → P x → All P (xs ++ x ∷ [])
  All_snoc P [] x h p = (p, tt)
  All_snoc P (y ∷ xs) x h p = (h.0, All_snoc P xs x h.1 p)

  pub All_get {κ} :
      (P : A → Type κ) (xs : List A) (i : ℕ) (x : A) → All P xs → get_elem? xs i ≡ some x → P x
  All_get P [] i x h e = absurd (ground arith)
  All_get P (y ∷ xs) zero x h e = subst P (cc) h.0
  All_get P (y ∷ xs) (suc i) x h e = All_get P xs i x h.1 e

  pub get_elem?-lt : (xs : List A) (i : ℕ) → i < length xs → (x : A) × (get_elem? xs i ≡ some x)
  get_elem?-lt [] i h = absurd (omega arith)
  get_elem?-lt (x ∷ xs) zero h = (x, refl)
  get_elem?-lt (x ∷ xs) (suc i) h = get_elem?-lt xs i (omega arith)
