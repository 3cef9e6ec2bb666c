-- ===== src/Quests/TurnIn.antt =====
-- `Held` of Shared/QuestState.h against `Consume` of Shared/Inventory.h: a quest can take what it finds.
use action_rpgserver.Common.{
  [], ◌∷◌, true, false, inl, inr, ◌↔◌, ◌<◌, List, ℕ, ◌+◌, ◌^◌, length, ◌≤◌, ◌*◌, ◌≡◌, arith, ◌%◌,
  Bool-cases, ◌&&◌, ltb,
}
use action_rpgserver.Common.Text.{text_eq, Text, text_beq}
use action_rpgserver.Inventory.{consume_items, succeeded, is_available}
use action_rpgserver.Inventory.Stacks.{Stack, Catalog}
use action_rpgserver.Inventory.Tally.{tally, Every, Every-map}
use action_rpgserver.Inventory.Valid.{IsStack, IsInventory, IsCatalog}
use action_rpgserver.Inventory.Drains.{held}
use action_rpgserver.Quests.{count_held, held_items}
use action_rpgserver.Inventory.Takes.{consume_items-bag}
use action_rpgserver.Inventory.Swaps.{is_definition}

-- A small enough stack in a tab or on equipment.
abbrev IsKept : Stack → Type 0
IsKept a = (a.count < 2 ^ 32) × (a.container ≤ 4)

count_held-held :
    (id : Text) (items : List Stack) (count : ℕ)
    → Every IsKept items
    → count + length items * 2 ^ 32 < 2 ^ 64
    → count_held id items count ≡ count + held id items
unfolding count_held tally Every
count_held-held id [] count h le = omega arith
count_held-held id (a ∷ items) count h le =
    let small : a.count < 2 ^ 32 = h.0.0 in
    let sum : (count + a.count) % 2 ^ 64 ≡ count + a.count = omega (arith, small) in
    let skip = count_held-held id items count h.1 (omega arith) in
    let add = count_held-held id items (count + a.count) h.1 (omega (arith, small)) in
    elim (Bool-cases (is_available id a)) [
      | inl yes' ↦
          let here : (text_beq a.definition_id id && ltb a.container 4) ≡ true =
            ground (arith, h.0.1) in
          rw (here, yes', sum) (omega (arith, add))
      | inr no' ↦
          let here : (text_beq a.definition_id id && ltb a.container 4) ≡ false =
            ground (arith, h.0.1) in
          rw (here, no') (omega (arith, skip))
    ]

-- On a valid inventory over a valid catalog, and for a quantity of one or more in 32 bits: a quest finds that many
-- items on the character exactly when `Consume` would take them.
pub held_items_iff :
    {catalog : Catalog} {character level : ℕ} {items : List Stack}
    → IsCatalog catalog
    → IsInventory catalog character level items
    → (id : Text) (n : ℕ) → 0 < n
    → n < 2 ^ 32
    → (n ≤ held_items items id) ↔ ((consume_items id n items).1 ≡ succeeded)
unfolding held_items
held_items_iff {catalog} {character} {level} {items} c v id n pos small =
    let count =
      count_held-held id items 0
        (Every-map (IsStack catalog character level) IsKept items v.stacks (λ a s.
          let w = is_definition catalog c a.definition_id s.definition s.known in
          (omega (arith, s.fits, w.stacks_fit), ground (arith, s.placed, w.tab))))
        (omega (arith, v.few)) in
    elim (consume_items-bag c v id n) [
      | inl (_, enough, good, _) ↦ (λ _. good, λ _. omega (arith, count))
      | inr (inl (nothing, _)) ↦ absurd (omega (arith, nothing))
      | inr (inr (less, e)) ↦
          (λ h. absurd (omega (arith, count)), λ h. absurd (let q = (rw e at h) in cc))
    ]
