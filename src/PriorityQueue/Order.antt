-- ===== src/PriorityQueue/Order.antt =====
-- The order of `compareFn`: by score, then by scheduled time, then by creation time.
use backend_task_orchestrati.Prelude.{◌<◌, ◌≤◌, ◌≡◌, ◌⊎◌, Bool, true, false, arith}
use backend_task_orchestrati.Prelude.Int.{is_negative}
use backend_task_orchestrati.PriorityQueue.{PriorityItem, compare_fn}

module _ {T : Type 0} where
  -- `a` goes before `b`.
  abbrev pub before : PriorityItem T → PriorityItem T → Bool
  before a b = is_negative (compare_fn a b)

  pub before_irrefl : (a : PriorityItem T) → before a a ≡ false
  unfolding compare_fn
  before_irrefl a = ground arith

  pub before_asym : (a b : PriorityItem T) → before a b ≡ true → before b a ≡ false
  unfolding compare_fn
  before_asym a b h = ground arith

  -- The lexicographic order of the three keys.
  abbrev Le : PriorityItem T → PriorityItem T → Type 0
  Le a b =
      (a.score < b.score)
      ⊎ (a.score ≡ b.score)
        × ((a.scheduled_at < b.scheduled_at)
            ⊎ (a.scheduled_at ≡ b.scheduled_at) × (a.created_at ≤ b.created_at))

  Le_of_not_before : (a b : PriorityItem T) → before b a ≡ false → Le a b
  unfolding compare_fn
  Le_of_not_before a b h = grind arith

  not_before_of_Le : (a b : PriorityItem T) → Le a b → before b a ≡ false
  unfolding compare_fn
  not_before_of_Le a b h = ground arith

  Le_trans : (a b c : PriorityItem T) → Le a b → Le b c → Le a c
  Le_trans a b c h k = grind arith

  -- Not to go before is transitive, since the order is total.
  pub not_before_trans :
      (a b c : PriorityItem T) → before b a ≡ false → before c b ≡ false → before c a ≡ false
  not_before_trans a b c h k =
      not_before_of_Le a c (Le_trans a b c (Le_of_not_before a b h) (Le_of_not_before b c k))
