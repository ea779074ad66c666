-- ===== src/Prelude/Text.antt =====
-- Texts: what JavaScript makes of a number, the characters of a text, and `slice(0, n)`.
use Prim.Native.Nat.{ℕ, zero, suc, ◌+◌, ◌-◌, ◌/◌, ◌%◌, ◌≤◌, compare, Ordering}
use Prim.Native.Char.{Char, code}
use Prim.Native.String.{String, [], ◌∷◌, ◌++◌, slice}
use mathlib.Core.Path.{◌≡◌, refl}
use mathlib.Core.Option.{Option, none, some}
use text.Mathlib.TextLemmas.{nil-append, cons-append}
use mathlib.Core.Bool.{Bool, false, ◌||◌}
use native.Mathlib.Omega.{arith}
use backend_task_orchestrati.Prelude.Tests.{ltb, nat_beq, if◌then◌else◌, Bool-cases}
use mathlib.Core.Logic.{inl, inr}

abbrev digit : ℕ → String
digit d = slice "0123456789" d (d + 1)

-- The decimal digits of a number, on fuel for as many.
abbrev digits : ℕ → ℕ → String
digits zero n = ""
digits (suc fuel) n = elim (compare n 10) [
  | Ordering.lt ↦ digit n
  | _ ↦ digits fuel (n / 10) ++ digit (n % 10)
]

abbrev pub show : ℕ → String
show n = digits (n + 1) n

unfoldable pub has_char : Char → String → Bool
has_char c [] = false
has_char c (d ∷ s) = nat_beq (code d) (code c) || has_char c s

-- Whether the text holds one of the characters.
unfoldable pub has_any : String → String → Bool
has_any chars [] = false
has_any chars (c ∷ s) = has_char c chars || has_any chars s

-- The length of a text in JavaScript: its units of UTF-16.
abbrev units : Char → ℕ
units c = if ltb 65535 (code c) then 2 else 1

unfoldable pub unit_length : String → ℕ
unit_length [] = 0
unit_length (c ∷ s) = units c + unit_length s

-- `s.slice(0, n)`, where a character that the end would cut is left out.
unfoldable pub take_units : ℕ → String → String
take_units n [] = []
take_units n (c ∷ s) =
    let rest = take_units (n - units c) s in if ltb n (units c) then [] else c ∷ rest

le_of_not_ltb : (a b : ℕ) → ltb a b ≡ false → b ≤ a
le_of_not_ltb a b h = ground arith

pub unit_length-take_units : (n : ℕ) (s : String) → unit_length (take_units n s) ≤ n
unfolding unit_length take_units
unit_length-take_units n [] = omega arith
unit_length-take_units n (c ∷ s) = elim (Bool-cases (ltb n (units c))) [
  | inl cut ↦ rw cut (omega arith)
  | inr fits ↦ rw fits (
      let rest = unit_length-take_units (n - units c) s in
      let room : units c ≤ n = le_of_not_ltb n (units c) fits in omega (arith, rest, room))
]

-- `s.startsWith(p)` with `s.slice(p.length)`: the rest, where the text starts so.
unfoldable pub strip_prefix : String → String → Option String
strip_prefix [] s = some s
strip_prefix (c ∷ p) [] = none
strip_prefix (c ∷ p) (d ∷ s) =
    let rest = strip_prefix p s in if nat_beq (code c) (code d) then rest else none

pub strip_prefix-append : (p s : String) → strip_prefix p (p ++ s) ≡ some s
unfolding strip_prefix
strip_prefix-append [] s = rw (nil-append s) refl
strip_prefix-append (c ∷ p) s = rw (cons-append c p s) (ground (arith, strip_prefix-append p s))
