-- ===== src/Inventory/Refusals.antt =====
-- Shared/Inventory.h: an operation that is refused changes nothing.
use action_rpgserver.Common.{
  true, false, inl, inr, refl, List, ◌≡◌, Bool, elim-cases, ℕ, ◌⊎◌, if◌then◌else◌, ◌==◌, ltb, not,
  if-cases, ◌||◌, ◌-◌,
}
use action_rpgserver.Common.Text.{text_eq, Text, text_beq}
use action_rpgserver.Common.Outcome.{IfReturns, IfReturns-bind}
use action_rpgserver.Inventory.{
  acquire, remove, consume_items, equip, unequip, Status, succeeded, available, taken_slots, survey,
  no_slot_taken, first_free, add_free, propose,
}
use action_rpgserver.Inventory.Operations.{
  Operation, acquiring, removing, consuming, equipping, unequipping, perform,
}
use action_rpgserver.Inventory.Stacks.{
  Stack, Catalog, find_if, equipped_container, can_equip, tab_capacity,
}
use action_rpgserver.Common.Map.{find}

module _ (items : List Stack) where
  -- It succeeds, or leaves the stacks as they are.
  abbrev pub IsAllOrNothing : List Stack × Status → Type 0
  IsAllOrNothing r = (r.1 ≡ succeeded) ⊎ (r.0 ≡ items)

  kept :
      (p : Bool) (s : Status) (r : List Stack × Status)
      → IsAllOrNothing r
      → IsAllOrNothing (if p then (items, s) else r)
  kept true s r h = inr refl
  kept false s r h = h

  remove_refused : (id : Text) (n : ℕ) → IsAllOrNothing (remove id n items)
  unfolding remove
  remove_refused id n =
      elim-cases IsAllOrNothing (find_if (λ a. text_beq a.instance_id id) items) (λ _. inr refl)
        λ (k, a) _. kept (a.container == equipped_container) _ _ (
          kept (n == 0 || ltb a.count n) _ _
            (if-cases IsAllOrNothing (a.count - n == 0) (λ _. inl refl) (λ _. inl refl)))

  consume_items_refused : (id : Text) (n : ℕ) → IsAllOrNothing (consume_items id n items)
  unfolding consume_items
  consume_items_refused id n =
      kept (n == 0) _ _ (kept (ltb (available id items 0) n) _ _ (inl refl))

  equip_refused :
      (catalog : Catalog) (id : Text) (character level : ℕ)
      → IfReturns IsAllOrNothing (equip catalog id character level items)
  unfolding equip
  equip_refused catalog id character level =
      elim-cases (IfReturns IsAllOrNothing) (find_if (λ a. text_beq a.instance_id id) items)
        (λ _. inr refl)
        λ (k, a) _.
          elim-cases (IfReturns IsAllOrNothing) (find a.definition_id catalog) (λ _. tt)
            λ d _.
              kept (not (a.container == 0) || not (d.category == 0)) _ _
                (kept (not (can_equip d character level)) _ _ (inl refl))

  unequip_refused : (id : Text) → IfReturns IsAllOrNothing (unequip id items)
  unfolding unequip
  unequip_refused id =
      elim-cases (IfReturns IsAllOrNothing) (find_if (λ a. text_beq a.instance_id id) items)
        (λ _. inr refl)
        λ (k, a) _.
          if-cases (IfReturns IsAllOrNothing) (not (a.container == equipped_container))
            (λ _. inr refl)
            λ _.
              IfReturns-bind IsAllOrNothing (taken_slots items (no_slot_taken tab_capacity)) _
                λ occupied.
                  elim-cases IsAllOrNothing (first_free occupied) (λ _. inr refl)
                    (λ free _. inl refl)

  acquire_refused :
      (catalog : Catalog) (dump_size : List Stack → ℕ) (new_identity : ℕ → Text) (id : Text) (n : ℕ)
      → IfReturns IsAllOrNothing (acquire catalog dump_size new_identity id n items)
  unfolding acquire
  acquire_refused catalog dump_size new_identity id n =
      elim-cases (IfReturns IsAllOrNothing) (find id catalog) (λ _. inr refl)
        λ d _.
          if-cases (IfReturns IsAllOrNothing) (n == 0) (λ _. inr refl)
            λ _.
              IfReturns-bind IsAllOrNothing
                (survey d.category id d.max_stack items 0 (no_slot_taken tab_capacity)) _
                λ (capacity, occupied). kept (ltb (add_free d.max_stack occupied capacity) n) _ _ (
                  elim-cases IsAllOrNothing (propose new_identity id d n occupied items)
                    (λ _. inr refl)
                    (λ proposed _. kept (ltb 32768 (dump_size proposed)) _ _ (inl refl)))

-- An operation that returns has succeeded or has left the stacks as they are, whatever the
-- stacks, the catalog and the identities are.
pub perform_refused :
    (catalog : Catalog) (dump_size : List Stack → ℕ) (new_identity : ℕ → Text) (character level : ℕ)
    (operation : Operation) (items : List Stack)
    → IfReturns
        (IsAllOrNothing items)
        (perform catalog dump_size new_identity character level operation items)
unfolding perform
perform_refused catalog dump_size new_identity character level (acquiring id n) items =
    acquire_refused items catalog dump_size new_identity id n
perform_refused catalog dump_size new_identity character level (removing id n) items =
    remove_refused items id n
perform_refused catalog dump_size new_identity character level (consuming id n) items =
    consume_items_refused items id n
perform_refused catalog dump_size new_identity character level (equipping id) items =
    equip_refused items catalog id character level
perform_refused catalog dump_size new_identity character level (unequipping id) items =
    unequip_refused items id
