-- ===== src/Quests/Tests.antt =====
-- A quest that asks for potions.
use action_rpgserver.Common.{refl, ◌↔◌, ◌≡◌, ◌≤◌, arith}
use action_rpgserver.Inventory.{consume_items, succeeded}
use action_rpgserver.Inventory.Samples.{potion, stacks, definitions-IsCatalog, stacks-IsInventory}
use action_rpgserver.Quests.{held_items, count_held}
use action_rpgserver.Quests.TurnIn.{held_items_iff}

finds : held_items stacks potion ≡ 8
unfolding held_items count_held
finds = refl

held_items_iff_example :
    (8 ≤ held_items stacks potion) ↔ ((consume_items potion 8 stacks).1 ≡ succeeded)
held_items_iff_example =
    held_items_iff definitions-IsCatalog stacks-IsInventory potion 8 (omega arith) (omega arith)
