-- ===== src/Inventory/Stacks.antt =====
-- Shared/Inventory.h: item definitions, stacks, and positions in a vector of stacks. Of a definition, the
-- parts that the inventory reads; what an item does when it is used stands elsewhere.
use action_rpgserver.Common.{
  ℕ, List, Bool, true, length, false, leb, ◌∷◌, Option, ◌==◌, ◌&&◌, none, suc, ◌||◌, some,
  if◌then◌else◌, [], [], zero, zero,
}
use action_rpgserver.Common.Map.{Map}
use action_rpgserver.Common.Text.{Text}

abbrev pub tab_capacity : ℕ
tab_capacity = 40

abbrev pub equipped_container : ℕ
equipped_container = 4

pub record Definition : Type 0 where
  pub category : ℕ
  pub max_stack : ℕ
  pub equipment_slot : ℕ
  pub required_level : ℕ
  pub character_ids : List ℕ

abbrev pub Catalog : Type 0
Catalog = Map Text Definition

pub record Stack : Type 0 where
  pub instance_id : Text
  pub definition_id : Text
  pub count : ℕ
  pub container : ℕ
  pub slot : ℕ

abbrev hex_char : ℕ → Bool
hex_char c = leb 48 c && leb c 57 || (leb 97 c && leb c 102)

abbrev all_hex_chars : Text → Bool
all_hex_chars [] = true
all_hex_chars (c ∷ cs) = hex_char c && all_hex_chars cs

unfoldable pub is_hex_id : Text → ℕ → Bool
is_hex_id value n = length value == n && all_hex_chars value

abbrev contains_id : ℕ → List ℕ → Bool
contains_id id [] = false
contains_id id (x ∷ xs) = x == id || contains_id id xs

unfoldable pub can_equip : Definition → ℕ → ℕ → Bool
can_equip d character level =
    leb d.required_level level
    && (length d.character_ids == 0 || contains_id character d.character_ids)

-- items[k]
abbrev pub get : List Stack → ℕ → Option Stack
get [] k = none
get (a ∷ items) zero = some a
get (a ∷ items) (suc k) = get items k

-- items.erase
abbrev pub erase_at : ℕ → List Stack → List Stack
erase_at k [] = []
erase_at zero (a ∷ items) = items
erase_at (suc k) (a ∷ items) = a ∷ erase_at k items

-- std::find_if, with the position and what stands there.
unfoldable pub find_if : (Stack → Bool) → List Stack → Option (ℕ × Stack)
find_if p [] = none
find_if p (a ∷ items) =
    let rest = find_if p items in
    if p a then some (0, a) else elim rest [ none ↦ none | some (k, b) ↦ some (suc k, b) ]
