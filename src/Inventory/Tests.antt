-- ===== src/Inventory/Tests.antt =====
-- Runs of the inventory's operations: a stack of potions, a sword in its tab and a sword that is worn.
use action_rpgserver.Common.{refl, ℕ, ◌+◌, ◌≡◌, ◌≤◌, none, ◌<◌, ◌⊎◌, if◌then◌else◌, some}
use action_rpgserver.Common.Text.{text_eq, Text, text_beq}
use action_rpgserver.Common.Outcome.{Returns, IfReturns, returns}
use action_rpgserver.Inventory.{
  acquire, remove, succeeded, item_equipped, survey, add_free, propose, positions, sort_by,
  insert_by, fill, place, item_not_found, equip, unequip, unknown_item, consume_items,
  invalid_quantity, insufficient_quantity, inventory_full,
}
use action_rpgserver.Inventory.Stacks.{Stack, Definition, find_if, is_hex_id, get}
use action_rpgserver.Inventory.Valid.{IsInventory, named, bag}
use action_rpgserver.Common.Map.{find}
use action_rpgserver.Inventory.Tally.{tally}
use action_rpgserver.Inventory.Operations.{perform, consuming, perform-IsInventory, removing}
use action_rpgserver.Inventory.Refusals.{IsAllOrNothing, perform_refused}
use action_rpgserver.Inventory.Drains.{held}
use action_rpgserver.Inventory.Equips.{equip-keeps, unequip-keeps}
use action_rpgserver.Inventory.Acquires.{spare, AfterRoom, acquire-bag}
use action_rpgserver.Inventory.Takes.{consume_items-bag}
use action_rpgserver.Inventory.Removes.{Taken, remove-bag}
use action_rpgserver.Inventory.Samples.{
  stacks, potion, repeat, definitions, text_size, stacks-IsInventory, definitions-IsCatalog, fresh,
}

abbrev seven : ℕ
seven = 7

abbrev five : ℕ
five = 5

-- Seven more potions fill the stack and make a new one.
acquires : Returns (λ r. r.1 ≡ succeeded) (acquire definitions text_size fresh potion 7 stacks)
unfolding acquire survey add_free propose positions sort_by insert_by fill place find is_hex_id
acquires = refl

refuses_to_remove : remove (repeat 32 50) 1 stacks ≡ (stacks, item_equipped)
unfolding remove find_if
refuses_to_remove = refl

perform-IsInventory_example :
    Returns
      (λ r. IsInventory definitions 7 9 r.0)
      (perform definitions text_size fresh 7 9 (consuming potion 5) stacks)
perform-IsInventory_example =
    perform-IsInventory definitions text_size fresh 7 9 definitions-IsCatalog (consuming potion 5)
      stacks stacks-IsInventory

perform_refused_example :
    IfReturns
      (IsAllOrNothing stacks)
      (perform definitions text_size fresh 7 9 (removing (repeat 32 50) 1) stacks)
perform_refused_example =
    perform_refused definitions text_size fresh 7 9 (removing (repeat 32 50) 1) stacks

acquire-bag_example :
    ((find potion definitions ≡ none)
      × (acquire definitions text_size fresh potion 7 stacks ≡ returns (stacks, unknown_item)))
    ⊎ ((seven ≡ 0)
        × (acquire definitions text_size fresh potion 7 stacks
            ≡ returns (stacks, invalid_quantity)))
    ⊎ ((d : Definition) × (find potion definitions ≡ some d)
        × (spare potion d stacks < 7)
        × (acquire definitions text_size fresh potion 7 stacks ≡ returns (stacks, inventory_full)))
    ⊎ ((d : Definition) × (find potion definitions ≡ some d)
        × (0 < 7)
        × (7 ≤ spare potion d stacks)
        × AfterRoom definitions-IsCatalog stacks-IsInventory fresh text_size potion 7 d)
acquire-bag_example = acquire-bag definitions-IsCatalog stacks-IsInventory fresh text_size potion 7

consume_items-bag_example :
    ((0 < 5)
      × (5 ≤ held potion stacks)
      × ((consume_items potion 5 stacks).1 ≡ succeeded)
      × ((d : Text)
          → bag (consume_items potion 5 stacks).0 d + (if text_beq potion d then 5 else 0)
            ≡ bag stacks d))
    ⊎ (((five ≡ 0) × (consume_items potion 5 stacks ≡ (stacks, invalid_quantity)))
        ⊎ ((held potion stacks < 5)
            × (consume_items potion 5 stacks ≡ (stacks, insufficient_quantity))))
consume_items-bag_example = consume_items-bag definitions-IsCatalog stacks-IsInventory potion 5

remove-bag_example :
    ((tally (named (repeat 32 48)) stacks ≡ 0)
      × (remove (repeat 32 48) 3 stacks ≡ (stacks, item_not_found)))
    ⊎ ((k : ℕ) × (a : Stack) × (get stacks k ≡ some a)
        × (a.instance_id ≡ repeat 32 48)
        × Taken stacks-IsInventory (repeat 32 48) 3 a)
remove-bag_example = remove-bag stacks-IsInventory (repeat 32 48) 3

equip-keeps_example :
    Returns
      (λ r. IsInventory definitions 7 9 r.0 × ((d : Text) → bag r.0 d ≡ bag stacks d))
      (equip definitions (repeat 32 49) 7 9 stacks)
equip-keeps_example = equip-keeps definitions-IsCatalog stacks-IsInventory (repeat 32 49)

unequip-keeps_example :
    Returns
      (λ r. IsInventory definitions 7 9 r.0 × ((d : Text) → bag r.0 d ≡ bag stacks d))
      (unequip (repeat 32 50) stacks)
unequip-keeps_example = unequip-keeps definitions-IsCatalog stacks-IsInventory (repeat 32 50)
