-- ===== src/Inventory/Swaps.antt =====
-- Stacks that move between the first tab and the equipment, as in `Equip` of Shared/Inventory.h.
use action_rpgserver.Common.{
  zero, suc, ℕ, refl, [], ◌∷◌, List, ◌≢◌, set, ◌≡◌, some, inl, inr, true, sym, arith, ◌∙◌,
  length-set, ap, ◌==◌, ◌&&◌, none, ◌*◌, ◌+◌,
}
use action_rpgserver.Common.Text.{text_eq, Text}
use action_rpgserver.Inventory.Stacks.{
  Catalog, Stack, get, Definition, equipped_container, can_equip, find_if, tab_capacity,
}
use action_rpgserver.Inventory.Valid.{
  IsInventory, IsDefinition, IsStack, lies, named, IsCatalog, bag, units,
}
use action_rpgserver.Common.Map.{find}
use action_rpgserver.Inventory.Tally.{Every-set, tally-set, tally, tally-zero, find_if-none}
use action_rpgserver.Inventory.Changes.{stack_here}

pub get-set_ne :
    (items : List Stack) (j k : ℕ) (b : Stack) → j ≢ k → get (set items j b) k ≡ get items k
get-set_ne [] j k b ne = refl
get-set_ne (x ∷ items) zero zero b ne = absurd (ne refl)
get-set_ne (x ∷ items) zero (suc k) b ne = refl
get-set_ne (x ∷ items) (suc j) zero b ne = refl
get-set_ne (x ∷ items) (suc j) (suc k) b ne = get-set_ne items j k b (λ e. ne (ap suc e))

pub is_definition :
    (catalog : Catalog)
    → IsCatalog catalog
    → (id : Text) (d : Definition) → find id catalog ≡ some d
    → IsDefinition d
is_definition catalog c id d known = let h = c id in rw known at h

module _ {catalog : Catalog} {character level : ℕ} {items : List Stack} (c : IsCatalog catalog)
    (v : IsInventory catalog character level items) where
  -- A stack of the first tab and the one that is equipped in its place change places.
  pub swap-IsInventory :
      (j k : ℕ) (a b : Stack) (d : Definition)
      → get items k ≡ some a
      → get items j ≡ some b
      → find a.definition_id catalog ≡ some d
      → a.container ≡ 0
      → b.container ≡ equipped_container
      → b.slot ≡ d.equipment_slot
      → d.category ≡ 0
      → IsDefinition d
      → can_equip d character level ≡ true
      → IsInventory catalog character level (
          set
            (set items j (record b { container = 0; slot = a.slot }))
            k
            (record a { container = equipped_container; slot = d.equipment_slot }))
  swap-IsInventory j k a b d at_k at_j known tab worn same_slot wearable w may =
      let b' : Stack = record b { container = 0; slot = a.slot } in
      let a' : Stack = record a { container = equipped_container; slot = d.equipment_slot } in
      let ne : j ≢ k = (λ e.
        let same : b ≡ a =
          (let h = at_j in let h' : get items k ≡ some b = rw (sym e) h in ground (arith, h')) in
        ground arith) in
      let s = stack_here v k a at_k in
      let t = stack_here v j b at_j in
      let still : get (set items j b') k ≡ some a = get-set_ne items j k b' ne ∙ at_k in
      record {
        stacks =
            Every-set (IsStack catalog character level) (set items j b') k a'
              (Every-set (IsStack catalog character level) items j b' v.stacks (record {
                definition = t.definition;
                known = t.known;
                some_items = t.some_items;
                fits = t.fits;
                in_tab = s.in_tab;
                placed = inl (
                    ground (
                      arith,
                      t.placed,
                      (is_definition catalog c b.definition_id t.definition t.known).tab,
                    ));
                identity = t.identity;
              }))
              (record {
                definition = d;
                known = known;
                some_items = s.some_items;
                fits =
                    (let e : s.definition ≡ d = ground (arith, s.known) in ground (arith, s.fits));
                in_tab = omega (arith, w.wears);
                placed = inr (refl, wearable, refl, may);
                identity = s.identity;
              });
        places = λ l. ground (
          arith,
          v.places l,
          tally-set (lies l) items j b b' at_j,
          tally-set (lies l) (set items j b') k a a' still,
        );
        identities = λ id. ground (
          arith,
          v.identities id,
          tally-set (named id) items j b b' at_j,
          tally-set (named id) (set items j b') k a a' still,
        );
        few = omega (arith, v.few, length-set items j b', length-set (set items j b') k a');
      }

  -- The slot of the equipment is free when no stack is found on it.
  pub worn_free :
      (d : Definition)
      → IsDefinition d
      → find_if (λ b. b.container == equipped_container && (b.slot == d.equipment_slot)) items
        ≡ none
      → tally (lies (equipped_container * tab_capacity + d.equipment_slot)) items ≡ 0
  worn_free d w e =
      tally-zero (IsStack catalog character level) _ _ items v.stacks
        (find_if-none (λ b. b.container == equipped_container && (b.slot == d.equipment_slot)) items
          e)
        (λ b s. ground (
          arith,
          s.in_tab,
          w.wears,
          s.placed,
          (is_definition catalog c b.definition_id s.definition s.known).tab,
        ))

-- Each update keeps the bag.
pub bag_moved :
    (xs : List Stack) (k : ℕ) (a : Stack) (container slot : ℕ) (id : Text)
    → get xs k ≡ some a
    → bag (set xs k (record a { container = container; slot = slot })) id ≡ bag xs id
bag_moved xs k a container slot id here =
    ground
      (arith, tally-set (units id) xs k a (record a { container = container; slot = slot }) here)

apart :
    (items : List Stack) (j k : ℕ) (a b : Stack)
    → get items k ≡ some a
    → get items j ≡ some b
    → a.container ≡ 0
    → b.container ≡ equipped_container
    → j ≢ k
apart items j k a b at_k at_j tab worn e =
    let same : get items k ≡ some b = rw (sym e) at_j in
    let ab : a ≡ b = ground arith in ground arith

pub bag_swapped :
    (items : List Stack) (j k : ℕ) (a b : Stack) (slot : ℕ) (id : Text)
    → get items k ≡ some a
    → get items j ≡ some b
    → a.container ≡ 0
    → b.container ≡ equipped_container
    → bag
        (set
          (set items j (record b { container = 0; slot = a.slot }))
          k
          (record a { container = equipped_container; slot = slot }))
        id
      ≡ bag items id
bag_swapped items j k a b slot id at_k at_j tab worn =
    bag_moved (set items j (record b { container = 0; slot = a.slot })) k a equipped_container slot
      id
      (get-set_ne items j k (record b { container = 0; slot = a.slot })
          (apart items j k a b at_k at_j tab worn)
        ∙ at_k)
    ∙ bag_moved items j b 0 a.slot id at_j
