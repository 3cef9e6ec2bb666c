-- ===== src/Inventory.antt =====
-- Shared/Inventory.h: the stacks of items that a character holds, in four tabs of forty slots and on
-- seven slots of equipment. Counts are 32-bit numbers and sums of them 64-bit numbers. A position
-- in `items` stands for an iterator, a pointer or an index; `at` out of range throws. The JSON library
-- gives the size of the stored text, `dump_size`; `new_identity k` is what the k-th call of
-- `inNewIdentity` returns.
pub mod Stacks
pub mod Tally
pub mod Valid
pub mod Changes
pub mod Marks
pub mod Removes
pub mod Swaps
pub mod Few
pub mod Equips
pub mod Positions
pub mod Consumes
pub mod Drains
pub mod Takes
pub mod Rooms
pub mod Fills
pub mod Places
pub mod Acquires
pub mod Operations
pub mod Refusals
pub mod Gear
pub mod Unequips
pub mod Bags
pub mod Samples
mod Tests
use Stacks.{
  Definition, Stack, Catalog, tab_capacity, equipped_container, is_hex_id, can_equip, find_if, get,
  erase_at,
}
use action_rpgserver.Common.{
  ℕ, ◌+◌, ◌-◌, ◌%◌, ◌^◌, min, Bool, true, false, not, ◌&&◌, ◌||◌, Option, none, some, List, [], ◌∷◌,
  ◌++◌, ◌==◌, ltb, leb, if◌then◌else◌, set, nat_eq, suc, zero,
}
use action_rpgserver.Common.Map.{find}
use action_rpgserver.Common.Text.{Text, text_beq, text_less, text_eq}
use action_rpgserver.Common.Outcome.{Outcome, returns, throws, ◌>>=◌}

-- What an operation answers.
pub data Status : Type 0 where
  succeeded unknown_item invalid_quantity inventory_full identity_conflict item_not_found : Status
  item_equipped insufficient_quantity invalid_equipment equipment_requirements : Status

-- Subtraction of 32-bit numbers.
abbrev pub sub32 : ℕ → ℕ → ℕ
sub32 a b = (a + 2 ^ 32 - b) % 2 ^ 32

abbrev pub no_slot_taken : ℕ → List Bool
no_slot_taken zero = []
no_slot_taken (suc n) = false ∷ no_slot_taken n

-- The stacks of a definition that lie in its tab.
abbrev pub is_existing : ℕ → Text → Stack → Bool
is_existing category id item = item.container == category && text_beq item.definition_id id

-- The first loop of `Acquire`: the room of the stacks that are there, and the slots of the tab that are
-- taken.
unfoldable pub survey : ℕ → Text → ℕ → List Stack → ℕ → List Bool → Outcome (ℕ × List Bool)
survey category id max_stack [] capacity occupied = returns (capacity, occupied)
survey category id max_stack (item ∷ items) capacity occupied =
    let room = (capacity + sub32 max_stack item.count) % 2 ^ 64 in
    let skipped = survey category id max_stack items capacity occupied in
    let taken =
      survey category id max_stack items (if text_beq item.definition_id id then room else capacity)
        (set occupied item.slot true) in
    if not (item.container == category)
    then skipped
    else if ltb item.slot tab_capacity
    then taken
    else throws

-- The second loop: every free slot holds a whole stack.
unfoldable pub add_free : ℕ → List Bool → ℕ → ℕ
add_free max_stack [] capacity = capacity
add_free max_stack (taken ∷ rest) capacity =
    add_free max_stack rest (if taken then capacity else (capacity + max_stack) % 2 ^ 64)

-- The positions of the stacks that pass a test.
unfoldable pub positions : (Stack → Bool) → ℕ → List Stack → List ℕ
positions p k [] = []
positions p k (item ∷ items) =
    let rest = positions p (k + 1) items in if p item then k ∷ rest else rest

-- std::sort of positions by an order on the stacks there.
unfoldable pub insert_by : (Stack → Stack → Bool) → List Stack → ℕ → List ℕ → List ℕ
insert_by less items k [] = k ∷ []
insert_by less items k (j ∷ js) =
    let rest = insert_by less items k js in
    elim (get items k) [
      | none ↦ j ∷ rest
      | some a ↦ elim (get items j) [
        | none ↦ j ∷ rest
        | some b ↦ if less a b then k ∷ j ∷ js else j ∷ rest
      ]
    ]

unfoldable pub sort_by : (Stack → Stack → Bool) → List Stack → List ℕ → List ℕ
sort_by less items [] = []
sort_by less items (k ∷ ks) = insert_by less items k (sort_by less items ks)

-- The loop that fills the stacks that are there; what remains comes second.
unfoldable pub fill : ℕ → List ℕ → ℕ → List Stack → List Stack × ℕ
fill max_stack [] remaining items = (items, remaining)
fill max_stack (k ∷ ks) remaining items = elim (get items k) [
  | none ↦ fill max_stack ks remaining items
  | some item ↦
      let added = min remaining (sub32 max_stack item.count) in
      fill max_stack ks (remaining - added)
        (set items k (record item { count = (item.count + added) % 2 ^ 32 }))
]

abbrev pub has_identity : Text → List Stack → Bool
has_identity id [] = false
has_identity id (item ∷ items) = text_beq item.instance_id id || has_identity id items

-- The loop over the slots that makes new stacks, and `none` on a conflict of identities. `call` counts
-- the calls of `inNewIdentity`.
unfoldable pub place :
    (ℕ → Text) → Text → ℕ → ℕ → List Bool → ℕ → ℕ → ℕ → List Stack → Option (List Stack)
place new_identity id max_stack category [] slot call remaining items = some items
place new_identity id max_stack category (taken ∷ rest) slot call remaining items =
    let count = min remaining max_stack in
    let fresh = new_identity call in
    let skipped = place new_identity id max_stack category rest (slot + 1) call remaining items in
    let placed =
      place new_identity id max_stack category rest (slot + 1) (call + 1) (remaining - count) (
        items
        ++ record {
          instance_id = fresh;
          definition_id = id;
          count = count;
          container = category;
          slot = slot;
        }
          ∷ []) in
    if remaining == 0
    then some items
    else if taken
    then skipped
    else if not (is_hex_id fresh 32) || has_identity fresh items
    then none
    else placed

abbrev pub slot_less : Stack → Stack → Bool
slot_less a b = ltb a.slot b.slot

-- The part of `Acquire` that changes the proposed inventory.
unfoldable pub propose :
    (ℕ → Text) → Text → Definition → ℕ → List Bool → List Stack → Option (List Stack)
propose new_identity id d n occupied items =
    let existing = sort_by slot_less items (positions (is_existing d.category id) 0 items) in
    let (filled, remaining) = fill d.max_stack existing n items in
    place new_identity id d.max_stack d.category occupied 0 0 remaining filled

unfoldable pub acquire :
    Catalog → (List Stack → ℕ) → (ℕ → Text) → Text → ℕ → List Stack → Outcome (List Stack × Status)
acquire catalog dump_size new_identity id n items = elim (find id catalog) [
  | none ↦ returns (items, unknown_item)
  | some d ↦ if n == 0 then returns (items, invalid_quantity) else do
    (capacity, occupied) ← survey d.category id d.max_stack items 0 (no_slot_taken tab_capacity)
    returns (
        if ltb (add_free d.max_stack occupied capacity) n
        then (items, inventory_full)
        else elim (propose new_identity id d n occupied items) [
          | none ↦ (items, identity_conflict)
          | some proposed ↦
              if ltb 32768 (dump_size proposed)
              then (items, inventory_full)
              else (proposed, succeeded)
        ])
]

unfoldable pub remove : Text → ℕ → List Stack → List Stack × Status
remove id n items = elim (find_if (λ a. text_beq a.instance_id id) items) [
  | none ↦ (items, item_not_found)
  | some (k, a) ↦
      if a.container == equipped_container
      then (items, item_equipped)
      else if n == 0 || ltb a.count n
      then (items, invalid_quantity)
      else if a.count - n == 0
      then (erase_at k items, succeeded)
      else (set items k (record a { count = a.count - n }), succeeded)
]

-- The stacks of a definition that `Consume` may take from.
abbrev pub is_available : Text → Stack → Bool
is_available id a = text_beq a.definition_id id && not (a.container == equipped_container)

unfoldable pub available : Text → List Stack → ℕ → ℕ
available id [] sum = sum
available id (a ∷ items) sum =
    available id items (if is_available id a then (sum + a.count) % 2 ^ 64 else sum)

abbrev pub smaller : Stack → Stack → Bool
smaller a b =
    if not (a.count == b.count) then ltb a.count b.count else text_less a.instance_id b.instance_id

-- The loop that takes from the stacks in order, until nothing is left to take.
unfoldable pub drain : List ℕ → ℕ → List Stack → List Stack
drain [] n items = items
drain (k ∷ ks) n items = elim (get items k) [
  | none ↦ drain ks n items
  | some a ↦
      let removed = min n a.count in
      let items' = set items k (record a { count = a.count - removed }) in
      let rest = drain ks (n - removed) items' in if n - removed == 0 then items' else rest
]

-- std::erase_if
unfoldable pub drop_empty : List Stack → List Stack
drop_empty [] = []
drop_empty (a ∷ items) = let rest = drop_empty items in if a.count == 0 then rest else a ∷ rest

unfoldable pub consume_items : Text → ℕ → List Stack → List Stack × Status
consume_items id n items =
    if n == 0
    then (items, invalid_quantity)
    else if ltb (available id items 0) n
    then (items, insufficient_quantity)
    else (
      drop_empty (drain (sort_by smaller items (positions (is_available id) 0 items)) n items),
      succeeded,
    )

unfoldable pub equip : Catalog → Text → ℕ → ℕ → List Stack → Outcome (List Stack × Status)
equip catalog id character level items = elim (find_if (λ a. text_beq a.instance_id id) items) [
  | none ↦ returns (items, item_not_found)
  | some (k, a) ↦ elim (find a.definition_id catalog) [
    | none ↦ throws
    | some d ↦ returns (
        if not (a.container == 0) || not (d.category == 0)
        then (items, invalid_equipment)
        else if not (can_equip d character level)
        then (items, equipment_requirements)
        else (
          set
              (elim (find_if
                (λ b. b.container == equipped_container && (b.slot == d.equipment_slot)) items) [
                  | none ↦ items
                  | some (j, b) ↦ set items j (record b { container = 0; slot = a.slot })
                ])
              k (record a { container = equipped_container; slot = d.equipment_slot }),
          succeeded,
        ))
  ]
]

-- The slots of the first tab that are taken.
unfoldable pub taken_slots : List Stack → List Bool → Outcome (List Bool)
taken_slots [] occupied = returns occupied
taken_slots (a ∷ items) occupied =
    let skipped = taken_slots items occupied in
    let marked = taken_slots items (set occupied a.slot true) in
    if not (a.container == 0) then skipped else if ltb a.slot tab_capacity then marked else throws

-- std::find of `false`.
unfoldable pub first_free : List Bool → Option ℕ
first_free [] = none
first_free (false ∷ rest) = some 0
first_free (true ∷ rest) = elim (first_free rest) [ none ↦ none | some k ↦ some (suc k) ]

unfoldable pub unequip : Text → List Stack → Outcome (List Stack × Status)
unequip id items = elim (find_if (λ a. text_beq a.instance_id id) items) [
  | none ↦ returns (items, item_not_found)
  | some (k, a) ↦
      if not (a.container == equipped_container) then returns (items, invalid_equipment) else do
        occupied ← taken_slots items (no_slot_taken tab_capacity)
        returns (elim (first_free occupied) [
          | none ↦ (items, inventory_full)
          | some free ↦ (set items k (record a { container = 0; slot = free }), succeeded)
        ])
]
