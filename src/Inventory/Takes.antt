-- ===== src/Inventory/Takes.antt =====
-- `Consume` of Shared/Inventory.h: when it takes the items, what is left then, and what a refusal leaves.
use action_rpgserver.Common.{
  inl, inr, refl, List, ℕ, ◌≡◌, ◌≤◌, if-cases, ◌<◌, ◌==◌, ◌^◌, arith, ltb, ◌+◌, ◌∙◌, if◌then◌else◌,
  ◌⊎◌, Bool-cases,
}
use action_rpgserver.Common.Text.{text_eq, Text, text_beq}
use action_rpgserver.Inventory.{
  Status, succeeded, invalid_quantity, insufficient_quantity, drain, drop_empty, available,
  is_available, positions, sort_by, smaller, consume_items,
}
use action_rpgserver.Inventory.Stacks.{Stack, Catalog}
use action_rpgserver.Inventory.Drains.{
  held, drop_empty-IsStack, available-held, tally-drop_empty_le, tally-drop_empty, tally-drain,
  length-drop_empty, length-drain,
}
use action_rpgserver.Inventory.Tally.{Every-map}
use action_rpgserver.Inventory.Valid.{
  IsLoose, IsStack, IsInventory, IsCatalog, bag, lies, units, named,
}
use action_rpgserver.Inventory.Positions.{
  AllOf, total, once, of_stack, total-sort_by, once-positions, total-positions, AllOf-sort_by,
  AllOf-positions,
}
use action_rpgserver.Inventory.Consumes.{drain-IsLoose, drain-bag, IsSource}
use action_rpgserver.Inventory.Swaps.{is_definition}

module _ {catalog : Catalog} {character level : ℕ} {items : List Stack} (c : IsCatalog catalog)
    (v : IsInventory catalog character level items) where
  available-here : (id : Text) → available id items 0 ≡ held id items
  available-here id = ground (
    arith,
    available-held id items 0
        (Every-map (IsStack catalog character level) (λ a. a.count < 2 ^ 32) items v.stacks
          λ a s. omega (
            arith,
            s.fits,
            (is_definition catalog c a.definition_id s.definition s.known).stacks_fit,
          ))
        (omega (arith, v.few)),
  )

  module _ (id : Text) (n : ℕ) where
    abbrev order : List ℕ
    order = sort_by smaller items (positions (is_available id) 0 items)

    order-IsSource : AllOf (IsSource id items) order
    order-IsSource =
        AllOf-sort_by smaller items (IsSource id items) (positions (is_available id) 0 items) (
          AllOf-positions (is_available id) (IsSource id items) 0 items
            (λ i a e q. let z : 0 + i ≡ i = omega arith in rw z (a, e, q)))

    order-once : (j : ℕ) → total (once j) order ≤ 1
    order-once j = ground (
      arith,
      total-sort_by smaller items (once j) (positions (is_available id) 0 items),
      once-positions (is_available id) j 0 items,
    )

    total-order : total (of_stack (λ a. a.count) items) order ≡ held id items
    total-order =
        total-sort_by smaller items (of_stack (λ a. a.count) items)
          (positions (is_available id) 0 items)
        ∙ total-positions (is_available id) (of_stack (λ a. a.count) items) (λ a. a.count) 0 items
            (λ i a e. let z : 0 + i ≡ i = omega arith in rw (z, e, of_stack) refl)

    taken-bag :
        n ≤ held id items
        → (d : Text)
        → bag (drop_empty (drain order n items)) d + (if text_beq id d then n else 0) ≡ bag items d
    taken-bag enough d =
        let drained =
          drain-bag id order n items order-IsSource order-once (rw total-order enough) d in
        rw (tally-drop_empty (units d) (λ a e. rw e (ground arith)) (drain order n items)) drained

    taken-IsInventory : IsInventory catalog character level (drop_empty (drain order n items))
    taken-IsInventory = record {
      stacks = drop_empty-IsStack catalog character level (drain order n items) (
          drain-IsLoose id catalog character level order n items (
            Every-map (IsStack catalog character level) (IsLoose catalog character level) items
              v.stacks (λ a s. (a.count, s, omega arith))));
      places = λ l. omega (
        arith,
        v.places l,
        tally-drop_empty_le (lies l) (drain order n items),
        tally-drain (lies l) (λ a m. refl) order n items,
      );
      identities = λ d. omega (
        arith,
        v.identities d,
        tally-drop_empty_le (named d) (drain order n items),
        tally-drain (named d) (λ a m. refl) order n items,
      );
      few =
          omega (arith, v.few, length-drop_empty (drain order n items), length-drain order n items);
    }

    pub consume_items-IsInventory : IsInventory catalog character level (consume_items id n items).0
    unfolding consume_items
    consume_items-IsInventory =
        if-cases (λ (r : List Stack × Status). IsInventory catalog character level r.0) (n == 0)
          (λ _. v)
          λ _.
            if-cases (λ (r : List Stack × Status). IsInventory catalog character level r.0)
              (ltb (available id items 0) n) (λ _. v) (λ _. taken-IsInventory)

    -- On a valid inventory over a valid catalog, `Consume` succeeds exactly when at least one
    -- item is asked for and the tabs hold as many; the bag then has so many less of the
    -- definition, and as many of every other. Else it answers which of the two fails and leaves
    -- the inventory as it is.
    pub consume_items-bag :
        ((0 < n)
          × (n ≤ held id items)
          × ((consume_items id n items).1 ≡ succeeded)
          × ((d : Text)
              → bag (consume_items id n items).0 d + (if text_beq id d then n else 0)
                ≡ bag items d))
        ⊎ (((n ≡ 0) × (consume_items id n items ≡ (items, invalid_quantity)))
            ⊎ ((held id items < n) × (consume_items id n items ≡ (items, insufficient_quantity))))
    unfolding consume_items
    consume_items-bag = elim (Bool-cases (n == 0)) [
      | inl yes' ↦ inr (inl (ground arith, rw yes' refl))
      | inr some' ↦ elim (Bool-cases (ltb (available id items 0) n)) [
        | inl less ↦ inr (inr (ground (arith, available-here id), rw (some', less) refl))
        | inr enough ↦
            let le : n ≤ held id items = ground (arith, available-here id) in
            inl (ground arith, le, rw (some', enough) refl, rw (some', enough) (taken-bag le))
      ]
    ]
