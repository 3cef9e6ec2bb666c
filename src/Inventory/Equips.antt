-- ===== src/Inventory/Equips.antt =====
-- `Equip` and `Unequip` of Shared/Inventory.h keep an inventory valid, and throw nothing.
use action_rpgserver.Common.{
  ℕ, refl, List, ◌≡◌, inl, inr, sym, arith, ◌==◌, ◌&&◌, Option-cases, if-cases, not, ◌||◌, ◌<◌,
}
use action_rpgserver.Common.Text.{text_eq, Text, text_beq}
use action_rpgserver.Inventory.Stacks.{
  Catalog, Stack, Definition, equipped_container, can_equip, find_if, tab_capacity,
}
use action_rpgserver.Inventory.Valid.{IsInventory, IsCatalog, bag}
use action_rpgserver.Inventory.Tally.{find_if-found}
use action_rpgserver.Inventory.Changes.{stack_here, move-IsInventory}
use action_rpgserver.Inventory.{equip, unequip, Status, no_slot_taken, first_free}
use action_rpgserver.Common.Outcome.{Returns, ◌>>=◌}
use action_rpgserver.Inventory.Marks.{
  taken_slots-marked, marked, first_free-is_free, is_free-lt, length-marked, marked-free,
}
use action_rpgserver.Inventory.Swaps.{
  swap-IsInventory, worn_free, bag_moved, bag_swapped, is_definition,
}

module _ {catalog : Catalog} {character level : ℕ} {items : List Stack} (c : IsCatalog catalog)
    (v : IsInventory catalog character level items) where
  -- On a valid inventory over a valid catalog, `Equip` throws nothing and leaves a valid
  -- inventory with the same bag of items, whether it equips, trades places with what is worn, or
  -- refuses.
  pub equip-keeps :
      (id : Text)
      → Returns
          (λ r. IsInventory catalog character level r.0 × ((d : Text) → bag r.0 d ≡ bag items d))
          (equip catalog id character level items)
  unfolding equip
  equip-keeps id = elim (Option-cases (find_if (λ a. text_beq a.instance_id id) items)) [
    | inl none' ↦ rw (none', equip, Returns) (v, λ d. refl)
    | inr ((k, a), found) ↦
        let here = (find_if-found (λ a. text_beq a.instance_id id) items k a found).0 in
        let s = stack_here v k a here in
        let d : Definition = s.definition in
        let w = is_definition catalog c a.definition_id d s.known in
        rw (found, equip, Returns)
          (rw (s.known, Returns)
            (if-cases
              (λ (r : List Stack × Status).
                IsInventory catalog character level r.0 × ((d : Text) → bag r.0 d ≡ bag items d))
              (not (a.container == 0) || not (d.category == 0)) (λ _. (v, λ d. refl))
              λ wearable.
                if-cases
                  (λ (r : List Stack × Status).
                    IsInventory catalog character level r.0
                    × ((d : Text) → bag r.0 d ≡ bag items d))
                  (not (can_equip d character level)) (λ _. (v, λ d. refl))
                  λ may.
                    elim (Option-cases (
                      find_if
                        (λ b. b.container == equipped_container && (b.slot == d.equipment_slot))
                        items)) [
                          | inl bare ↦ rw bare (
                            move-IsInventory v k a here equipped_container d.equipment_slot
                                (omega (arith, w.wears))
                                (λ e known.
                                  (let same : d ≡ e = ground (arith, s.known, known) in
                                    rw (sym same) (inr (refl, ground arith, refl, ground arith))))
                                (worn_free c v d w bare),
                            λ id'. bag_moved items k a equipped_container d.equipment_slot id' here,
                          )
                          | inr ((j, b), worn) ↦
                              let there =
                                find_if-found
                                  (λ b.
                                    b.container == equipped_container
                                    && (b.slot == d.equipment_slot))
                                  items j b worn in
                              rw worn (
                                swap-IsInventory c v j k a b d here there.0 s.known (ground arith)
                                    (ground (arith, there.1)) (ground (arith, there.1))
                                    (ground arith) w (ground arith),
                                λ id'.
                                    bag_swapped items j k a b d.equipment_slot id' here there.0
                                      (ground arith) (ground (arith, there.1)),
                              )
                        ]))
  ]

  -- On a valid inventory over a valid catalog, `Unequip` throws nothing and leaves a valid
  -- inventory with the same bag of items.
  pub unequip-keeps :
      (id : Text)
      → Returns
          (λ r. IsInventory catalog character level r.0 × ((d : Text) → bag r.0 d ≡ bag items d))
          (unequip id items)
  unfolding unequip
  unequip-keeps id = elim (Option-cases (find_if (λ a. text_beq a.instance_id id) items)) [
    | inl none' ↦ rw (none', unequip, Returns) (v, λ d. refl)
    | inr ((k, a), found) ↦
        let here = (find_if-found (λ a. text_beq a.instance_id id) items k a found).0 in
        let s = stack_here v k a here in
        let w = is_definition catalog c a.definition_id s.definition s.known in
        let array =
          taken_slots-marked catalog character level 0 items (no_slot_taken tab_capacity)
            v.stacks in
        rw (found, unequip, Returns)
          (if-cases
            (Returns (λ (r : List Stack × Status).
              IsInventory catalog character level r.0 × ((d : Text) → bag r.0 d ≡ bag items d)))
            (not (a.container == equipped_container)) (λ _. (v, λ d. refl))
            λ worn.
              rw (array, ◌>>=◌, Returns)
                (elim (Option-cases (first_free (marked 0 items (no_slot_taken tab_capacity)))) [
                  | inl full ↦ rw full (v, λ d. refl)
                  | inr (slot, e) ↦
                      let free =
                        first_free-is_free (marked 0 items (no_slot_taken tab_capacity)) slot e in
                      let inside : slot < tab_capacity = omega (
                        arith,
                        is_free-lt slot (marked 0 items (no_slot_taken tab_capacity)) free,
                        length-marked 0 items (no_slot_taken tab_capacity),
                      ) in
                      rw e (
                        move-IsInventory v k a here 0 slot inside
                            (λ d known.
                              let same : s.definition ≡ d = ground (arith, s.known, known) in
                              rw (sym same) (inl (ground (arith, s.placed, w.tab))))
                            (marked-free catalog character level 0 items
                              (no_slot_taken tab_capacity) slot v.stacks inside free).1,
                        λ d. bag_moved items k a 0 slot d here,
                      )
                ]))
  ]
