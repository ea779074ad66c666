-- ===== src/Prelude/Sort.antt =====
-- A stable sort by a strict order that is given as a test: `Array.prototype.sort` with a comparator,
-- and ORDER BY.
use mathlib.Core.Path.{◌≡◌, refl, ap, ◌∙◌}
use mathlib.Core.Bool.{Bool, true, false}
use mathlib.Core.Logic.{inl, inr}
use mathlib.Core.List.{List, [], ◌∷◌, Perm}
use mathlib.Core.List.Perm
use Prim.Native.Nat.{ℕ, zero, suc}
use native.Mathlib.Omega.{arith}
use backend_task_orchestrati.Prelude.Tests.{if◌then◌else◌, Bool-cases}
use backend_task_orchestrati.Prelude.Lists.{All, take, drop}

module _ {A : Type 0} (less : A → A → Bool) where
  -- An entry goes before the first that is not below it.
  unfoldable pub insert_by : A → List A → List A
  insert_by a [] = a ∷ []
  insert_by a (b ∷ rest) = if less b a then b ∷ insert_by a rest else a ∷ b ∷ rest

  unfoldable pub sort_by : List A → List A
  sort_by [] = []
  sort_by (a ∷ rest) = insert_by a (sort_by rest)

  -- No entry is below one that stands in front of it.
  abbrev pub IsSortedBy : List A → Type 0
  IsSortedBy [] = Unit
  IsSortedBy (a ∷ rest) = All (λ b. less b a ≡ false) rest × IsSortedBy rest

  insert_by-perm : (a : A) (l : List A) → Perm (insert_by a l) (a ∷ l)
  unfolding insert_by
  insert_by-perm a [] = Perm.refl _
  insert_by-perm a (b ∷ l) = elim (Bool-cases (less b a)) [
    | inl e ↦ rw e (Perm.trans (Perm.cons b (insert_by-perm a l)) (Perm.swap a b l))
    | inr e ↦ rw e (Perm.refl _)
  ]

  pub sort_by-perm : (l : List A) → Perm (sort_by l) l
  unfolding sort_by
  sort_by-perm [] = Perm.refl []
  sort_by-perm (a ∷ l) = Perm.trans (insert_by-perm a (sort_by l)) (Perm.cons a (sort_by-perm l))

  -- The laws of a strict weak order.
  pub record StrictOrder : Type 0 where
    pub asym : (a b : A) → less a b ≡ true → less b a ≡ false
    pub not_trans : (a b c : A) → less b a ≡ false → less c b ≡ false → less c a ≡ false

  module _ (order : StrictOrder) where
    insert_by-All :
        (x a : A) (l : List A)
        → less a x ≡ false
        → All (λ b. less b x ≡ false) l
        → All (λ b. less b x ≡ false) (insert_by a l)
    unfolding insert_by
    insert_by-All x a [] h k = (h, tt)
    insert_by-All x a (b ∷ l) h k = ground (arith, insert_by-All x a l)

    All-not_trans :
        (x a : A) (l : List A)
        → less a x ≡ false
        → All (λ b. less b a ≡ false) l
        → All (λ b. less b x ≡ false) l
    All-not_trans x a [] h k = tt
    All-not_trans x a (b ∷ l) h k = (order.not_trans x a b h k.0, All-not_trans x a l h k.1)

    insert_by-IsSortedBy : (a : A) (l : List A) → IsSortedBy l → IsSortedBy (insert_by a l)
    unfolding insert_by
    insert_by-IsSortedBy a [] s = (tt, tt)
    insert_by-IsSortedBy a (b ∷ l) s = elim (Bool-cases (less b a)) [
      | inl e ↦ rw e (insert_by-All b a l (order.asym b a e) s.0, insert_by-IsSortedBy a l s.1)
      | inr e ↦ rw e ((e, All-not_trans a b l e s.0), s)
    ]

    pub sort_by-IsSortedBy : (l : List A) → IsSortedBy (sort_by l)
    unfolding sort_by
    sort_by-IsSortedBy [] = tt
    sort_by-IsSortedBy (a ∷ l) = insert_by-IsSortedBy a (sort_by l) (sort_by-IsSortedBy l)

  insert_by-All_of : (P : A → Type 0) (a : A) (l : List A) → P a → All P l → All P (insert_by a l)
  unfolding insert_by
  insert_by-All_of P a [] h k = (h, tt)
  insert_by-All_of P a (b ∷ l) h k = elim (Bool-cases (less b a)) [
    | inl e ↦ rw e (k.0, insert_by-All_of P a l h k.1)
    | inr e ↦ rw e (h, k)
  ]

  pub sort_by-All : (P : A → Type 0) (l : List A) → All P l → All P (sort_by l)
  unfolding sort_by
  sort_by-All P [] h = tt
  sort_by-All P (a ∷ l) h = insert_by-All_of P a (sort_by l) h.0 (sort_by-All P l h.1)

  All-drop : (P : A → Type 0) (n : ℕ) (l : List A) → All P l → All P (drop n l)
  All-drop P zero l h = h
  All-drop P (suc n) [] h = h
  All-drop P (suc n) (x ∷ l) h = All-drop P n l h.1

  -- What the first `n` entries leave is not below any of them.
  pub take_first :
      (n : ℕ) (l : List A)
      → IsSortedBy l
      → All (λ c. All (λ u. less u c ≡ false) (drop n l)) (take n l)
  take_first zero l s = tt
  take_first (suc n) [] s = tt
  take_first (suc n) (x ∷ l) s = (All-drop (λ u. less u x ≡ false) n l s.0, take_first n l s.1)

-- Two orders that agree on each pair of a list sort it alike.
module _ {A : Type 0} (less below : A → A → Bool) where
  -- Each entry with each of those after it.
  abbrev pub Agree : List A → Type 0
  Agree [] = Unit {0}
  Agree (a ∷ rest) = All (λ b. less b a ≡ below b a) rest × Agree rest

  insert_by_same :
      (a : A) (l : List A)
      → All (λ b. less b a ≡ below b a) l
      → insert_by less a l ≡ insert_by below a l
  unfolding insert_by
  insert_by_same a [] h = refl
  insert_by_same a (b ∷ l) h = rw (h.0, insert_by_same a l h.1) refl

  pub sort_by-Agree : (l : List A) → Agree l → sort_by less l ≡ sort_by below l
  unfolding sort_by
  sort_by-Agree [] h = refl
  sort_by-Agree (a ∷ l) h =
      ap (insert_by less a) (sort_by-Agree l h.1)
      ∙ insert_by_same a (sort_by below l) (sort_by-All below _ l h.0)
