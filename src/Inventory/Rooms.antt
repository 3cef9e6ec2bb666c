-- ===== src/Inventory/Rooms.antt =====
-- The first loops of `Acquire` of Shared/Inventory.h throw nothing and count the room there is: no sum of 64
-- bits wraps around.
use action_rpgserver.Common.{
  suc, some, [], ◌∷◌, true, false, inl, inr, refl, ℕ, List, if◌then◌else◌, Bool, ◌≡◌, ◌≤◌, ◌-◌, ◌+◌,
  length, arith, ◌*◌, ◌^◌, ◌<◌, ◌∙◌, ltb, ap, ◌%◌, Bool-cases, ◌==◌, set,
}
use action_rpgserver.Common.Text.{text_eq, Text, text_beq, text_beq_iff}
use action_rpgserver.Inventory.{survey, add_free, is_existing, sub32}
use action_rpgserver.Inventory.Stacks.{Stack, Catalog, Definition, tab_capacity}
use action_rpgserver.Inventory.Tally.{tally, Every}
use action_rpgserver.Inventory.Valid.{IsStack, IsDefinition}
use action_rpgserver.Common.Map.{find}
use action_rpgserver.Inventory.Marks.{marked}
use action_rpgserver.Common.Outcome.{returns}

-- The room that a stack has for items of a definition.
abbrev pub room : Text → Definition → Stack → ℕ
room id d a = if is_existing d.category id a then d.max_stack - a.count else 0

abbrev pub free_slots : List Bool → ℕ
free_slots [] = 0
free_slots (taken ∷ rest) = (if taken then 0 else 1) + free_slots rest

module _ (catalog : Catalog) (character level : ℕ) (id : Text) (d : Definition)
    (w : IsDefinition d) where
  pub sub32_room :
      (a : Stack)
      → find id catalog ≡ some d
      → IsStack catalog character level a
      → a.definition_id ≡ id
      → (a.count ≤ d.max_stack) × (sub32 d.max_stack a.count ≡ d.max_stack - a.count)
  sub32_room a known s e =
      let known' : find a.definition_id catalog ≡ some d = rw e known in
      let same : s.definition ≡ d = ground (arith, s.known) in
      let le : a.count ≤ d.max_stack = ground (arith, s.fits) in
      (le, omega (arith, le, w.stacks_fit))

  pub survey-marked :
      find id catalog ≡ some d
      → (items : List Stack) (capacity : ℕ) (occupied : List Bool)
      → Every (IsStack catalog character level) items
      → capacity + length items * 2 ^ 32 < 2 ^ 64
      → survey d.category id d.max_stack items capacity occupied
        ≡ returns (capacity + tally (room id d) items, marked d.category items occupied)
  unfolding survey marked tally Every
  survey-marked known [] capacity occupied h le =
      let z : capacity + 0 ≡ capacity = omega arith in rw z refl
  survey-marked known (a ∷ items) capacity occupied h le =
      let inside : ltb a.slot tab_capacity ≡ true = ground (arith, h.0.in_tab) in
      elim (Bool-cases (a.container == d.category)) [
        | inr other ↦
            let z : 0 + tally (room id d) items ≡ tally (room id d) items = omega arith in
            rw (other, z) (survey-marked known items capacity occupied h.1 (omega arith))
        | inl same ↦ elim (Bool-cases (text_beq a.definition_id id)) [
          | inr other ↦
              let z : 0 + tally (room id d) items ≡ tally (room id d) items = omega arith in
              rw (same, inside, other, z)
                (survey-marked known items capacity (set occupied a.slot true) h.1 (omega arith))
          | inl its ↦
              let r = sub32_room a known h.0 ((text_beq_iff a.definition_id id).0 its) in
              let sum : (capacity + sub32 d.max_stack a.count) % 2 ^ 64
                  ≡ capacity + (d.max_stack - a.count) =
                (let e = r.1 in rw e (omega (arith, w.stacks_fit))) in
              let later =
                survey-marked known items (capacity + (d.max_stack - a.count))
                  (set occupied a.slot true) h.1 (omega (arith, w.stacks_fit)) in
              let z : capacity + ((d.max_stack - a.count) + tally (room id d) items)
                  ≡ capacity + (d.max_stack - a.count) + tally (room id d) items =
                omega arith in
              rw (same, inside, its, sum, z) later
        ]
      ]

  pub add_free-free_slots :
      (occupied : List Bool) (capacity : ℕ)
      → capacity + length occupied * 2 ^ 32 < 2 ^ 64
      → add_free d.max_stack occupied capacity ≡ capacity + d.max_stack * free_slots occupied
  unfolding add_free
  add_free-free_slots [] capacity le = omega arith
  add_free-free_slots (true ∷ rest) capacity le =
      add_free-free_slots rest capacity (omega arith)
      ∙ ap (λ n. capacity + d.max_stack * n) (omega arith)
  add_free-free_slots (false ∷ rest) capacity le =
      let fits : (capacity + d.max_stack) % 2 ^ 64 ≡ capacity + d.max_stack =
        omega (arith, w.stacks_fit) in
      let later = add_free-free_slots rest (capacity + d.max_stack) (omega (arith, w.stacks_fit)) in
      rw fits (later ∙ grind arith)

pub room-bound :
    (id : Text) (d : Definition) (items : List Stack)
    → tally (room id d) items ≤ length items * d.max_stack
unfolding tally
room-bound id d [] = omega arith
room-bound id d (a ∷ items) =
    let here : room id d a ≤ d.max_stack = ground arith in
    let z : suc (length items) * d.max_stack ≡ d.max_stack + length items * d.max_stack =
      grind arith in
    omega (arith, here, room-bound id d items, z)
