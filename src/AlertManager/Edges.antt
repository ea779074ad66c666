-- ===== src/AlertManager/Edges.antt =====
-- src/monitoring/AlertManager.ts: an alert is sent when its rule starts to fire.
use backend_task_orchestrati.Prelude.{
  ℕ, ◌+◌, ◌≡◌, refl, ap, ◌∙◌, subst, Bool, true, false, not, ◌&&◌, String, Option, none, some, List,
  [], ◌∷◌, ◌++◌, map, arith, Bool-cases, Option-cases, inl, inr, if◌then◌else◌,
}
use backend_task_orchestrati.Prelude.Eq.{◌==◌, string_eq, elem}
use backend_task_orchestrati.Prelude.Keys.{IsUnique}
use backend_task_orchestrati.Prelude.Maps.{lookup, lookup-insert}
use backend_task_orchestrati.AlertManager.{
  AlertState, States, Readings, AlertRule, fired, resolved, state_of, settle, evaluate_rule,
  evaluate,
}

-- The notifications for a rule.
unfoldable pub sent_for : String → List String → ℕ
sent_for name [] = 0
sent_for name (n ∷ sent) = (if n == name then 1 else 0) + sent_for name sent

sent_for-snoc :
    (name n : String) (sent : List String)
    → sent_for name (sent ++ n ∷ []) ≡ (if n == name then 1 else 0) + sent_for name sent
unfolding sent_for
sent_for-snoc name n [] = refl
sent_for-snoc name n (m ∷ sent) = omega (arith, sent_for-snoc name n sent)

-- Each rule was sent as often as its state counts.
abbrev pub IsCounted : States × List String → Type 0
IsCounted (states, sent) =
    (name : String) → sent_for name sent ≡ (state_of name states).firing_count

settle-IsCounted :
    (now : ℕ) (name : String) (firing : Bool) (m : States × List String)
    → IsCounted m
    → IsCounted (settle now name firing m)
settle-IsCounted now name firing (states, sent) h n = ground (
  arith,
  h n,
  h name,
  sent_for-snoc n name sent,
  lookup-insert name n (fired now (state_of name states)) states,
  lookup-insert name n (resolved now (state_of name states)) states,
  string_eq.equal_iff name n,
)

evaluate_rule-IsCounted :
    (now : ℕ) (readings : Readings) (rule : AlertRule) (m : States × List String)
    → IsCounted m
    → IsCounted (evaluate_rule now readings rule m)
unfolding evaluate_rule
evaluate_rule-IsCounted now readings rule m h = elim (Option-cases (rule.evaluate readings)) [
  | inl throws ↦ rw (throws, evaluate_rule) h
  | inr (firing, found) ↦ rw (found, evaluate_rule) (settle-IsCounted now rule.name firing m h)
]

evaluate-IsCounted :
    (now : ℕ) (readings : Readings) (rules : List AlertRule) (m : States × List String)
    → IsCounted m
    → IsCounted (evaluate now readings rules m)
unfolding evaluate
evaluate-IsCounted now readings [] m h = h
evaluate-IsCounted now readings (rule ∷ rules) m h =
    evaluate-IsCounted now readings rules _ (evaluate_rule-IsCounted now readings rule m h)

-- The state that an evaluation makes of one.
abbrev pub next_state : ℕ → Option Bool → AlertState → AlertState
next_state now none prev = prev
next_state now (some firing) prev =
    if firing && not prev.firing
    then fired now prev
    else if not firing && prev.firing
    then resolved now prev
    else prev

settle-state :
    (now : ℕ) (name n : String) (firing : Bool) (m : States × List String)
    → state_of n (settle now name firing m).0
      ≡ (if name == n then next_state now (some firing) (state_of n m.0) else state_of n m.0)
settle-state now name n firing (states, sent) = ground (
  arith,
  lookup-insert name n (fired now (state_of name states)) states,
  lookup-insert name n (resolved now (state_of name states)) states,
  string_eq.equal_iff name n,
)

evaluate_rule-state :
    (now : ℕ) (readings : Readings) (rule : AlertRule) (n : String) (m : States × List String)
    → state_of n (evaluate_rule now readings rule m).0 ≡ (
        if rule.name == n
        then next_state now (rule.evaluate readings) (state_of n m.0)
        else state_of n m.0)
unfolding evaluate_rule
evaluate_rule-state now readings rule n m = elim (Option-cases (rule.evaluate readings)) [
  | inl throws ↦ rw (throws, evaluate_rule) (ground arith)
  | inr (firing, found) ↦ rw (found, evaluate_rule) (settle-state now rule.name n firing m)
]

-- What the rules find of a name; a name that no rule has finds nothing.
unfoldable pub reading_of : String → Readings → List AlertRule → Option Bool
reading_of name readings [] = none
reading_of name readings (rule ∷ rules) =
    if rule.name == name then rule.evaluate readings else reading_of name readings rules

abbrev pub names_of : List AlertRule → List String
names_of rules = map (λ (r : AlertRule). r.name) rules

no_reading :
    (name : String) (readings : Readings) (rules : List AlertRule)
    → elem name (names_of rules) ≡ false
    → reading_of name readings rules ≡ none
unfolding reading_of elem
no_reading name readings [] h = refl
no_reading name readings (rule ∷ rules) h = ground (arith, h, no_reading name readings rules)

evaluate-state :
    (now : ℕ) (readings : Readings) (rules : List AlertRule) (n : String) (m : States × List String)
    → IsUnique (names_of rules)
    → state_of n (evaluate now readings rules m).0
      ≡ next_state now (reading_of n readings rules) (state_of n m.0)
unfolding evaluate reading_of
evaluate-state now readings [] n m u = refl
evaluate-state now readings (rule ∷ rules) n m u =
    evaluate-state now readings rules n (evaluate_rule now readings rule m) u.1
    ∙ elim (Bool-cases (rule.name == n)) [
      | inl is ↦
          let last = no_reading n readings rules (
            subst (λ x. elem x (names_of rules) ≡ false) ((string_eq.equal_iff rule.name n).0 is)
              u.0) in
          rw (last, is) (evaluate_rule-state now readings rule n m ∙ rw is refl)
      | inr other ↦ rw other (
          ap (next_state now (reading_of n readings rules))
            (evaluate_rule-state now readings rule n m ∙ rw other refl))
    ]

-- A run of evaluations, the first of them first.
unfoldable pub evaluate_all :
    List AlertRule → List (ℕ × Readings) → States × List String → States × List String
evaluate_all rules [] m = m
evaluate_all rules ((now, readings) ∷ later) m =
    evaluate_all rules later (evaluate now readings rules m)

-- How often a rule starts to fire along the readings, from firing or not.
unfoldable pub rises : Bool → List (Option Bool) → ℕ
rises firing [] = 0
rises firing (none ∷ later) = rises firing later
rises firing (some true ∷ later) = (if firing then 0 else 1) + rises true later
rises firing (some false ∷ later) = rises false later

unfoldable pub last_reading : Bool → List (Option Bool) → Bool
last_reading firing [] = firing
last_reading firing (none ∷ later) = last_reading firing later
last_reading firing (some now ∷ later) = last_reading now later

abbrev pub readings_of : String → List AlertRule → List (ℕ × Readings) → List (Option Bool)
readings_of name rules [] = []
readings_of name rules ((now, readings) ∷ later) =
    reading_of name readings rules ∷ readings_of name rules later

evaluate_all-IsCounted :
    (rules : List AlertRule) (evaluations : List (ℕ × Readings)) (m : States × List String)
    → IsCounted m
    → IsCounted (evaluate_all rules evaluations m)
unfolding evaluate_all
evaluate_all-IsCounted rules [] m h = h
evaluate_all-IsCounted rules ((now, readings) ∷ later) m h =
    evaluate_all-IsCounted rules later _ (evaluate-IsCounted now readings rules m h)

abbrev Tracks : AlertState → List (Option Bool) → AlertState → Type 0
Tracks before readings after =
    (after.firing ≡ last_reading before.firing readings)
    × (after.firing_count ≡ before.firing_count + rises before.firing readings)

next_state-Tracks :
    (now : ℕ) (r : Option Bool) (later : List (Option Bool)) (before after : AlertState)
    → Tracks (next_state now r before) later after
    → Tracks before (r ∷ later) after
unfolding rises last_reading
next_state-Tracks now none later before after h = h
next_state-Tracks now (some true) later before after h = elim (Bool-cases before.firing) [
  | inl on ↦ let h' = rw on at h in rw on (h'.0, h'.1 ∙ omega arith)
  | inr off ↦ let h' = rw off at h in rw off (h'.0, h'.1 ∙ omega arith)
]
next_state-Tracks now (some false) later before after h = elim (Bool-cases before.firing) [
  | inl on ↦ let h' = rw on at h in h'
  | inr off ↦ let h' = rw off at h in h'
]

evaluate_all-Tracks :
    (rules : List AlertRule) (evaluations : List (ℕ × Readings)) (n : String)
    (m : States × List String)
    → IsUnique (names_of rules)
    → Tracks
        (state_of n m.0)
        (readings_of n rules evaluations)
        (state_of n (evaluate_all rules evaluations m).0)
unfolding evaluate_all rises last_reading
evaluate_all-Tracks rules [] n m u = (refl, omega arith)
evaluate_all-Tracks rules ((now, readings) ∷ later) n m u =
    next_state-Tracks now (reading_of n readings rules) (readings_of n rules later) (state_of n m.0)
      (state_of n (evaluate_all rules later (evaluate now readings rules m)).0)
      (subst
        (λ s.
          Tracks s (readings_of n rules later)
            (state_of n (evaluate_all rules later (evaluate now readings rules m)).0))
        (evaluate-state now readings rules n m u)
        (evaluate_all-Tracks rules later n (evaluate now readings rules m) u))

-- For rules with distinct names, after any evaluations from the start: a rule fires exactly as its last
-- query that returned found it, and it was sent as often as it started to fire along those queries.
pub evaluate_correct :
    (rules : List AlertRule) (evaluations : List (ℕ × Readings)) (name : String)
    → IsUnique (names_of rules)
    → let after = evaluate_all rules evaluations ([], []) in
      ((state_of name after.0).firing ≡ last_reading false (readings_of name rules evaluations))
      × (sent_for name after.1 ≡ rises false (readings_of name rules evaluations))
unfolding sent_for lookup
evaluate_correct rules evaluations name u =
    let tracks = evaluate_all-Tracks rules evaluations name ([], []) u in
    let counted = evaluate_all-IsCounted rules evaluations ([], []) (λ n. refl) name in
    (tracks.0, counted ∙ tracks.1 ∙ omega arith)
