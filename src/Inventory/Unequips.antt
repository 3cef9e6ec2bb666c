-- ===== src/Inventory/Unequips.antt =====
-- `Unequip` of Shared/Inventory.h: which stack it moves, and why it may refuse.
use action_rpgserver.Common.{
  ℕ, refl, List, ◌≡◌, inl, inr, arith, ◌==◌, if-cases, not, nat_eq, none, elim-cases, ◌+◌, ◌*◌, ◌<◌,
}
use action_rpgserver.Common.Text.{text_eq, Text, text_beq, text_beq_iff}
use action_rpgserver.Common.Outcome.{IfReturns, ◌>>=◌}
use action_rpgserver.Inventory.{unequip, no_slot_taken, first_free}
use action_rpgserver.Inventory.Stacks.{Stack, Catalog, find_if, equipped_container, tab_capacity}
use action_rpgserver.Inventory.Tally.{find_if-found, get-set, Every, tally, find_if-none}
use action_rpgserver.Inventory.Swaps.{get-set_ne}
use action_rpgserver.Inventory.Valid.{IsStack, lies}
use action_rpgserver.Inventory.Marks.{
  marked, taken_slots-marked, marked-taken, first_free-none, is_free-no_slot_taken,
}
use action_rpgserver.Inventory.Gear.{IsDone, IsTakenOff, NotRemovable}

module _ (items : List Stack) where
  full_tab :
      first_free (marked 0 items (no_slot_taken tab_capacity)) ≡ none
      → (slot : ℕ) → slot < tab_capacity
      → 0 < tally (lies slot) items
  full_tab full slot inside =
      let place : 0 * tab_capacity + slot ≡ slot = omega arith in
      elim (marked-taken 0 items (no_slot_taken tab_capacity) slot
        (first_free-none (marked 0 items (no_slot_taken tab_capacity)) slot full)) [
          | inl taken ↦ absurd (ground (arith, is_free-no_slot_taken tab_capacity slot inside))
          | inr there ↦ (let h = there in rw place at h)
        ]

  pub unequip_lem :
      (catalog : Catalog) (instance : Text) (character level : ℕ)
      → Every (IsStack catalog character level) items
      → IfReturns
          (IsDone items (IsTakenOff instance items) (NotRemovable instance items))
          (unequip instance items)
  unfolding unequip
  unequip_lem catalog instance character level stacks =
      let P = IsTakenOff instance items in
      let E = NotRemovable instance items in
      let array =
        taken_slots-marked catalog character level 0 items (no_slot_taken tab_capacity) stacks in
      elim-cases (IfReturns (IsDone items P E))
        (find_if (λ a. text_beq a.instance_id instance) items)
        (λ none'. inr (
          ((λ e. cc), refl),
          inl (find_if-none (λ a. text_beq a.instance_id instance) items none'),
        ))
        λ (k, a) found.
          let here = find_if-found (λ a. text_beq a.instance_id instance) items k a found in
          let same : a.instance_id ≡ instance = (text_beq_iff a.instance_id instance).0 here.1 in
          if-cases (IfReturns (IsDone items P E)) (not (a.container == equipped_container))
            (λ loose. inr (((λ e. cc), refl), inr (inl (k, a, here.0, same, ground arith))))
            λ worn.
              rw (array, ◌>>=◌, IfReturns)
                (elim-cases (IsDone items P E)
                  (first_free (marked 0 items (no_slot_taken tab_capacity)))
                  (λ full. inr (((λ e. cc), refl), inr (inr (full_tab full))))
                  (λ free _. inl (
                    refl,
                    (
                      k,
                      a,
                      free,
                      here.0,
                      same,
                      ground arith,
                      get-set items k a _ here.0,
                      λ j ne. get-set_ne items k j _ ne,
                    ),
                  )))
