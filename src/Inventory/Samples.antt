-- ===== src/Inventory/Samples.antt =====
-- A catalog and an inventory for the runs: a stack of potions, a sword in its tab and a sword that is worn.
use action_rpgserver.Common.{
  zero, suc, [], ◌∷◌, inl, inr, refl, ℕ, List, ◌+◌, length, if-cases, ◌*◌, ◌≤◌, arith, Bool-cases,
  sym,
}
use action_rpgserver.Common.Text.{text_eq, Text, text_beq, text_beq_iff}
use action_rpgserver.Inventory.Stacks.{Stack, Catalog, Definition, is_hex_id, can_equip}
use action_rpgserver.Inventory.Valid.{IsCatalog, IsInventory, IsDefinition}
use action_rpgserver.Common.Map.{find, IfSome}
use action_rpgserver.Inventory.Tally.{tally, Every}

abbrev pub repeat : ℕ → ℕ → Text
repeat zero c = []
repeat (suc n) c = c ∷ repeat n c

abbrev pub potion : Text
potion = 112 ∷ []

abbrev pub sword : Text
sword = 115 ∷ []

abbrev pub potion_definition : Definition
potion_definition = record {
  category = 1;
  max_stack = 10;
  equipment_slot = 0;
  required_level = 0;
  character_ids = [];
}

abbrev pub sword_definition : Definition
sword_definition = record {
  category = 0;
  max_stack = 1;
  equipment_slot = 3;
  required_level = 5;
  character_ids = 7 ∷ [];
}

abbrev pub definitions : Catalog
definitions = (potion, potion_definition) ∷ (sword, sword_definition) ∷ []

abbrev pub potions : Stack
potions = record {
  instance_id = repeat 32 48;
  definition_id = potion;
  count = 8;
  container = 1;
  slot = 2;
}

abbrev pub spare_sword : Stack
spare_sword = record {
  instance_id = repeat 32 49;
  definition_id = sword;
  count = 1;
  container = 0;
  slot = 4;
}

abbrev pub worn_sword : Stack
worn_sword = record {
  instance_id = repeat 32 50;
  definition_id = sword;
  count = 1;
  container = 4;
  slot = 3;
}

abbrev pub stacks : List Stack
stacks = potions ∷ spare_sword ∷ worn_sword ∷ []

abbrev pub fresh : ℕ → Text
fresh k = repeat 32 (97 + k)

abbrev pub text_size : List Stack → ℕ
text_size xs = 12 + 100 * length xs

pub definitions-IsCatalog : IsCatalog definitions
unfolding find
definitions-IsCatalog id =
    if-cases (IfSome IsDefinition) (text_beq potion id)
      (λ _. record {
        stacks = omega arith;
        stacks_fit = omega arith;
        tab = omega arith;
        wears = omega arith;
      })
      λ _.
        if-cases (IfSome IsDefinition) (text_beq sword id)
          (λ _. record {
            stacks = omega arith;
            stacks_fit = omega arith;
            tab = omega arith;
            wears = omega arith;
          })
          (λ _. tt)

pub stacks-IsInventory : IsInventory definitions 7 9 stacks
unfolding tally Every find is_hex_id can_equip
stacks-IsInventory = record {
  stacks = (
    record {
      definition = potion_definition;
      known = refl;
      some_items = omega arith;
      fits = omega arith;
      in_tab = omega arith;
      placed = inl refl;
      identity = refl;
    },
    (
      record {
        definition = sword_definition;
        known = refl;
        some_items = omega arith;
        fits = omega arith;
        in_tab = omega arith;
        placed = inl refl;
        identity = refl;
      },
      (
        record {
          definition = sword_definition;
          known = refl;
          some_items = omega arith;
          fits = omega arith;
          in_tab = omega arith;
          placed = inr (refl, refl, refl, refl);
          identity = refl;
        },
        tt,
      ),
    ),
  );
  places = λ l. ground arith;
  identities = λ id. elim (Bool-cases (text_beq (repeat 32 48) id)) [
    | inl same ↦ (let e = (text_beq_iff (repeat 32 48) id).0 same in rw (sym e) (omega arith))
    | inr other ↦ elim (Bool-cases (text_beq (repeat 32 49) id)) [
      | inl same ↦ (let e = (text_beq_iff (repeat 32 49) id).0 same in rw (sym e) (omega arith))
      | inr other' ↦
          rw (other, other')
            (if-cases (λ (n : ℕ). 0 + (0 + (n + 0)) ≤ 1) (text_beq (repeat 32 50) id)
              (λ _. omega arith) (λ _. omega arith))
    ]
  ];
  few = omega arith;
}
