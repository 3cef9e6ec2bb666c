-- ===== src/Inventory/Valid.antt =====
-- What `Inventory::Parse` checks of the stacks, and the bag of items that an inventory stands for.
use action_rpgserver.Common.{
  ℕ, List, ◌<◌, ◌*◌, ◌≡◌, if◌then◌else◌, ◌^◌, ◌⊎◌, some, ◌==◌, ◌≤◌, ◌+◌, length, true,
}
use action_rpgserver.Inventory.Stacks.{
  Definition, Stack, Catalog, tab_capacity, equipped_container, is_hex_id, can_equip,
}
use action_rpgserver.Common.Text.{text_eq, Text, text_beq}
use action_rpgserver.Common.Map.{IfSome, find}
use action_rpgserver.Inventory.Tally.{Every, tally}

-- What `Catalog::Parse` checks of a definition.
pub record IsDefinition (d : Definition) : Type 0 where
  pub stacks : 0 < d.max_stack
  pub stacks_fit : d.max_stack < 2 ^ 32
  pub tab : d.category < equipped_container
  pub wears : d.equipment_slot < 7

abbrev pub IsCatalog : Catalog → Type 0
IsCatalog catalog = (id : Text) → IfSome IsDefinition (find id catalog)

abbrev pub location : Stack → ℕ
location a = a.container * tab_capacity + a.slot

-- Where a stack may lie: in the tab of its category, or equipped on its slot by who may wear it.
abbrev pub IsPlaced : ℕ → ℕ → Definition → Stack → Type 0
IsPlaced character level d a =
    (a.container ≡ d.category)
    ⊎ ((a.container ≡ equipped_container)
        × (d.category ≡ 0)
        × (a.slot ≡ d.equipment_slot)
        × (can_equip d character level ≡ true))

pub record IsStack (catalog : Catalog) (character level : ℕ) (a : Stack) : Type 0 where
  pub definition : Definition
  pub known : find a.definition_id catalog ≡ some definition
  pub some_items : 0 < a.count
  pub fits : a.count ≤ definition.max_stack
  pub in_tab : a.slot < tab_capacity
  pub placed : IsPlaced character level definition a
  pub identity : is_hex_id a.instance_id 32 ≡ true

abbrev pub lies : ℕ → Stack → ℕ
lies l a = if location a == l then 1 else 0

abbrev pub named : Text → Stack → ℕ
named id a = if text_beq a.instance_id id then 1 else 0

-- How many items of a definition a stack holds.
abbrev pub units : Text → Stack → ℕ
units id a = if text_beq a.definition_id id then a.count else 0

-- The bound of 32768 bytes on the stored text, which the JSON library writes, is left out here.
pub record IsInventory (catalog : Catalog) (character level : ℕ) (items : List Stack) : Type 0 where
  pub stacks : Every (IsStack catalog character level) items
  pub places : (l : ℕ) → tally (lies l) items ≤ 1
  pub identities : (id : Text) → tally (named id) items ≤ 1
  pub few : length items ≤ 167

-- The bag of items: how many there are of each definition.
abbrev pub bag : List Stack → Text → ℕ
bag items id = tally (units id) items

-- A stack that may have lost items, all of them perhaps.
abbrev pub IsLoose : Catalog → ℕ → ℕ → Stack → Type 0
IsLoose catalog character level a =
    (n : ℕ) × IsStack catalog character level (record a { count = n }) × (a.count ≤ n)
