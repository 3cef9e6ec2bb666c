-- ===== src/Inventory/Operations.antt =====
-- The operations of Shared/Inventory.h together: what any one of them does to an inventory and to its bag.
use action_rpgserver.Common.{inl, inr, ℕ, List}
use action_rpgserver.Common.Text.{text_eq, Text}
use action_rpgserver.Common.Outcome.{Outcome, returns, Returns, Returns-map}
use action_rpgserver.Inventory.{acquire, remove, consume_items, equip, unequip, Status}
use action_rpgserver.Inventory.Stacks.{Stack, Catalog}
use action_rpgserver.Inventory.Valid.{IsCatalog, IsInventory}
use action_rpgserver.Inventory.Acquires.{acquire-bag}
use action_rpgserver.Inventory.Removes.{remove-IsInventory}
use action_rpgserver.Inventory.Takes.{consume_items-IsInventory}
use action_rpgserver.Inventory.Equips.{equip-keeps, unequip-keeps}

pub data Operation : Type 0 where
  acquiring removing consuming : Text → ℕ → Operation
  equipping unequipping : Text → Operation

module _ (catalog : Catalog) (dump_size : List Stack → ℕ) (new_identity : ℕ → Text)
    (character level : ℕ) where
  unfoldable pub perform : Operation → List Stack → Outcome (List Stack × Status)
  perform (acquiring id n) items = acquire catalog dump_size new_identity id n items
  perform (removing id n) items = returns (remove id n items)
  perform (consuming id n) items = returns (consume_items id n items)
  perform (equipping id) items = equip catalog id character level items
  perform (unequipping id) items = unequip id items

  -- Over a valid catalog, and however long the stored text of a list of stacks is, no operation of
  -- the inventory throws on a valid inventory, and each leaves a valid one: known definitions,
  -- counts within the stack limit, each stack in its tab or worn by who may wear it, no two in one
  -- place, no two of one identity, and no more than 167 stacks.
  pub perform-IsInventory :
      IsCatalog catalog
      → (operation : Operation) (items : List Stack) → IsInventory catalog character level items
      → Returns (λ r. IsInventory catalog character level r.0) (perform operation items)
  unfolding perform
  perform-IsInventory c (acquiring id n) items v =
      elim (acquire-bag c v new_identity dump_size id n) [
        | inl (_, e) ↦ rw e v
        | inr (inl (_, e)) ↦ rw e v
        | inr (inr (inl (d, _, _, e))) ↦ rw e v
        | inr (inr (inr (d, _, _, _, inl e))) ↦ rw e v
        | inr (inr (inr (d, _, _, _, inr (inl e)))) ↦ rw e v
        | inr (inr (inr (d, _, _, _, inr (inr (r, e, a))))) ↦ rw e a.0
      ]
  perform-IsInventory c (removing id n) items v = remove-IsInventory v id n
  perform-IsInventory c (consuming id n) items v = consume_items-IsInventory c v id n
  perform-IsInventory c (equipping id) items v =
      Returns-map _ _ (equip catalog id character level items) (equip-keeps c v id) (λ r q. q.0)
  perform-IsInventory c (unequipping id) items v =
      Returns-map _ _ (unequip id items) (unequip-keeps c v id) (λ r q. q.0)
