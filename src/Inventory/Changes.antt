-- ===== src/Inventory/Changes.antt =====
-- How the changes that the operations make keep an inventory valid: a stack that shrinks, and a stack
-- that leaves.
use action_rpgserver.Common.{
  ℕ, [], ◌∷◌, List, length, ◌≤◌, ◌≡◌, arith, some, ◌<◌, suc, zero, set, ◌*◌, length-set, ◌+◌,
  Bool-cases, ◌==◌, inl, inr,
}
use action_rpgserver.Common.Text.{text_eq}
use action_rpgserver.Inventory.Stacks.{Catalog, Stack, erase_at, get, Definition, tab_capacity}
use action_rpgserver.Inventory.Valid.{IsInventory, IsStack, named, IsPlaced, lies}
use action_rpgserver.Inventory.Tally.{
  Every-erase, Every-get, tally-erase, Every-set, tally, tally-set,
}
use action_rpgserver.Common.Map.{find}

length-erase : (items : List Stack) (k : ℕ) → length (erase_at k items) ≤ length items
length-erase [] k = omega arith
length-erase (x ∷ items) zero = omega arith
length-erase (x ∷ items) (suc k) = omega (arith, length-erase items k)

module _ {catalog : Catalog} {character level : ℕ} {items : List Stack}
    (v : IsInventory catalog character level items) (k : ℕ) (a : Stack)
    (here : get items k ≡ some a) where
  pub stack_here : IsStack catalog character level a
  stack_here = Every-get (IsStack catalog character level) items k a v.stacks here

  pub erase-IsInventory : IsInventory catalog character level (erase_at k items)
  erase-IsInventory = record {
    stacks = Every-erase (IsStack catalog character level) items k v.stacks;
    places = λ l. omega (arith, v.places l, tally-erase (lies l) items k a here);
    identities = λ id. omega (arith, v.identities id, tally-erase (named id) items k a here);
    few = omega (arith, v.few, length-erase items k);
  }

  -- A stack with another count, within its bounds.
  pub recount-IsInventory :
      (n : ℕ)
      → 0 < n
      → ((d : Definition) → find a.definition_id catalog ≡ some d → n ≤ d.max_stack)
      → IsInventory catalog character level (set items k (record a { count = n }))
  recount-IsInventory n pos fits =
      let b : Stack = record a { count = n } in
      let s = stack_here in
      record {
        stacks = Every-set (IsStack catalog character level) items k b v.stacks (record {
          definition = s.definition;
          known = s.known;
          some_items = pos;
          fits = fits s.definition s.known;
          in_tab = s.in_tab;
          placed = s.placed;
          identity = s.identity;
        });
        places = λ l. ground (arith, v.places l, tally-set (lies l) items k a b here);
        identities = λ id. ground (arith, v.identities id, tally-set (named id) items k a b here);
        few = omega (arith, v.few, length-set items k b);
      }

  -- A stack in another place, which no other stack takes.
  pub move-IsInventory :
      (container slot : ℕ)
      → slot < tab_capacity
      → ((d : Definition)
          → find a.definition_id catalog ≡ some d
          → IsPlaced character level d (record a { container = container; slot = slot }))
      → tally (lies (container * tab_capacity + slot)) items ≡ 0
      → IsInventory catalog character level
          (set items k (record a { container = container; slot = slot }))
  move-IsInventory container slot inside placed free =
      let b : Stack = record a { container = container; slot = slot } in
      let s = stack_here in
      record {
        stacks = Every-set (IsStack catalog character level) items k b v.stacks (record {
          definition = s.definition;
          known = s.known;
          some_items = s.some_items;
          fits = s.fits;
          in_tab = inside;
          placed = placed s.definition s.known;
          identity = s.identity;
        });
        places = λ l. elim (Bool-cases (container * tab_capacity + slot == l)) [
          | inl here' ↦
              (let e : container * tab_capacity + slot ≡ l = ground arith in
                let none' : tally (lies l) items ≡ 0 = rw e at free in
                ground (arith, tally-set (lies l) items k a b here, none'))
          | inr there ↦ ground (arith, v.places l, tally-set (lies l) items k a b here)
        ];
        identities = λ id. ground (arith, v.identities id, tally-set (named id) items k a b here);
        few = omega (arith, v.few, length-set items k b);
      }
