-- ===== src/Inventory/Bags.antt =====
-- Shared/Inventory.h: what an inventory promises about its bag of items, and that the operations keep the promise.
use action_rpgserver.Common.{ℕ, List, ◌≡◌, ◌+◌, ◌⊎◌, ◌≤◌, if◌then◌else◌, none, ◌<◌, some}
use action_rpgserver.Common.Map.{find}
use action_rpgserver.Common.Text.{text_eq, Text, text_beq}
use action_rpgserver.Common.Outcome.{Outcome}
use action_rpgserver.Inventory.{
  unknown_item, invalid_quantity, inventory_full, identity_conflict, Status, succeeded,
}
use action_rpgserver.Inventory.Operations.{
  Operation, acquiring, removing, consuming, equipping, unequipping,
}
use action_rpgserver.Inventory.Stacks.{Definition, equipped_container, Stack, Catalog, get}
use action_rpgserver.Inventory.Valid.{bag}
use action_rpgserver.Inventory.Gear.{
  IsUnknown, NotWearable, NotRemovable, IsDenied, IsWorn, IsTakenOff,
}
use action_rpgserver.Inventory.Acquires.{spare}
use action_rpgserver.Inventory.Drains.{held}

-- The promise: how the stacks change when an operation succeeds, in terms of the bag, the number of
-- items of each definition.
abbrev pub Changes : Catalog → ℕ → ℕ → Operation → List Stack → List Stack → Type 0
Changes catalog character level (acquiring id n) items after =
    (d : Text) → bag after d ≡ bag items d + (if text_beq id d then n else 0)
Changes catalog character level (removing instance n) items after =
    (k : ℕ) × (a : Stack) × (get items k ≡ some a)
    × (a.instance_id ≡ instance)
    × (n ≤ a.count)
    × ((d : Text) → bag after d + (if text_beq a.definition_id d then n else 0) ≡ bag items d)
Changes catalog character level (consuming id n) items after =
    (d : Text) → bag after d + (if text_beq id d then n else 0) ≡ bag items d
Changes catalog character level (equipping instance) items after =
    ((d : Text) → bag after d ≡ bag items d) × IsWorn catalog character level instance items after
Changes catalog character level (unequipping instance) items after =
    ((d : Text) → bag after d ≡ bag items d) × IsTakenOff instance items after

-- Why an operation may be refused, with the answer of `Acquire`, which tests the fresh identities and
-- the stored text when there is room.
abbrev pub Excuses : Catalog → ℕ → ℕ → Operation → List Stack → Status → Type 0
Excuses catalog character level (acquiring id n) items s =
    ((s ≡ unknown_item) × (find id catalog ≡ none))
    ⊎ ((s ≡ invalid_quantity) × (n ≡ 0))
    ⊎ ((d : Definition) × (find id catalog ≡ some d)
        × (((s ≡ inventory_full) × (spare id d items < n))
            ⊎ ((n ≤ spare id d items) × ((s ≡ identity_conflict) ⊎ (s ≡ inventory_full)))))
Excuses catalog character level (removing instance n) items s =
    IsUnknown instance items
    ⊎ ((k : ℕ) × (a : Stack) × (get items k ≡ some a)
        × (a.instance_id ≡ instance)
        × ((a.container ≡ equipped_container) ⊎ (n ≡ 0) ⊎ (a.count < n)))
Excuses catalog character level (consuming id n) items s = (n ≡ 0) ⊎ (held id items < n)
Excuses catalog character level (equipping instance) items s =
    NotWearable catalog character level instance items
Excuses catalog character level (unequipping instance) items s = NotRemovable instance items

-- A success that changes the stacks as promised, or another answer, for a reason, and the same stacks.
abbrev pub IsAsPromised : Catalog → ℕ → ℕ → Operation → List Stack → List Stack × Status → Type 0
IsAsPromised catalog character level operation items r =
    ((r.1 ≡ succeeded) × Changes catalog character level operation items r.0)
    ⊎ (IsDenied items r × Excuses catalog character level operation items r.1)
