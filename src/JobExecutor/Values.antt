-- ===== src/JobExecutor/Values.antt =====
-- What src/workers/JobExecutor.ts does with the values of a payload.
use backend_task_orchestrati.Prelude.{
  ℕ, Bool, true, false, not, String, Option, none, some, if◌then◌else◌,
}
use Prim.Native.String.{◌++◌}
use backend_task_orchestrati.Prelude.Eq.{◌==◌, string_eq, nat_eq}
use backend_task_orchestrati.Prelude.Text.{show}
use backend_task_orchestrati.Models.Json.{
  Json, null, bool, num, str, arr, obj, Items, nil, cons, Fields, end, field,
}

-- `fields[key]`, with `undefined` as `none`.
unfoldable pub get : String → Fields → Option Json
get key end = none
get key (field k v rest) = if k == key then some v else get key rest

-- `fields[key] = value`
unfoldable pub put : String → Json → Fields → Fields
put key value end = field key value end
put key value (field k v rest) =
    let others = put key value rest in if k == key then field k value rest else field k v others

-- `{ ...base, ...more }`
unfoldable pub merge : Fields → Fields → Fields
merge base end = base
merge base (field k v rest) = merge (put k v base) rest

-- `{ ...base, ...more }` for a value that the source takes as an object; a value of another kind has
-- no properties of its own.
abbrev pub spread : Fields → Option Json → Fields
spread base (some (obj more)) = merge base more
spread base _ = base

-- A property that is `undefined` is not there.
abbrev pub optional : String → Option Json → Fields → Fields
optional key none rest = rest
optional key (some v) rest = field key v rest

-- `!!value`
abbrev pub truthy : Json → Bool
truthy null = false
truthy (bool b) = b
truthy (num n) = not (n == 0)
truthy (str s) = not (s == "")
truthy (arr items) = true
truthy (obj fields) = true

abbrev pub present : Option Json → Bool
present none = false
present (some v) = truthy v

abbrev unless_null : Json → String → String
unless_null null text = ""
unless_null _ text = text

unfoldable mutual
  -- `String(value)`
  pub to_text : Json → String
  to_text null = "null"
  to_text (bool b) = if b then "true" else "false"
  to_text (num n) = show n
  to_text (str s) = s
  to_text (arr items) = joined items
  to_text (obj fields) = "[object Object]"

  -- `array.join(',')`
  joined : Items → String
  joined nil = ""
  joined (cons v nil) = unless_null v (to_text v)
  joined (cons v (cons w rest)) = unless_null v (to_text v) ++ "," ++ joined (cons w rest)

-- `${value}`
abbrev pub shown : Option Json → String
shown none = "undefined"
shown (some v) = to_text v

unfoldable pub items_length : Items → ℕ
items_length nil = 0
items_length (cons v rest) = Prim.Native.Nat.suc (items_length rest)
