-- ===== src/Inventory/Acquires.antt =====
-- `Acquire` of Shared/Inventory.h: what it answers, and what it leaves.
use action_rpgserver.Common.{
  none, some, false, inl, inr, refl, List, ℕ, Bool, ◌+◌, ◌*◌, ◌≡◌, length, arith, ◌≤◌, ◌<◌, ◌∙◌,
  if◌then◌else◌, ◌==◌, ◌⊎◌, ltb, Option-cases, Bool-cases,
}
use action_rpgserver.Common.Text.{text_eq, Text, text_beq}
use action_rpgserver.Inventory.{
  acquire, propose, fill, survey, add_free, positions, sort_by, slot_less, is_existing,
  no_slot_taken, Status, succeeded, unknown_item, invalid_quantity, inventory_full,
  identity_conflict,
}
use action_rpgserver.Inventory.Stacks.{Stack, Catalog, Definition, tab_capacity}
use action_rpgserver.Inventory.Tally.{tally, tally-same}
use action_rpgserver.Inventory.Valid.{IsDefinition, IsCatalog, IsInventory, lies, named, bag}
use action_rpgserver.Inventory.Rooms.{
  free_slots, room, room-bound, survey-marked, add_free-free_slots,
}
use action_rpgserver.Inventory.Fills.{IsPacked, fill-IsStack, IsTarget, tally-fill, fill-bag}
use action_rpgserver.Inventory.Places.{AreFree, Placed, place-IsPacked}
use action_rpgserver.Inventory.Marks.{marked, length-marked, is_free-lt, marked-free}
use action_rpgserver.Common.Map.{find, IfSome, IfSome-map, IfSome-of}
use action_rpgserver.Inventory.Swaps.{is_definition}
use action_rpgserver.Inventory.Positions.{
  AllOf, total, once, of_stack, AllOf-sort_by, total-sort_by, AllOf-positions, once-positions,
  total-positions,
}
use action_rpgserver.Common.Outcome.{returns, Outcome, ◌>>=◌}
use action_rpgserver.Inventory.Few.{length-places}

-- The room for items of a definition: on stacks that are there, and on free slots of the tab.
abbrev pub taken : Definition → List Stack → List Bool
taken d items = marked d.category items (no_slot_taken tab_capacity)

abbrev pub spare : Text → Definition → List Stack → ℕ
spare id d items = tally (room id d) items + d.max_stack * free_slots (taken d items)

module _ {catalog : Catalog} {character level : ℕ} {items : List Stack} (c : IsCatalog catalog)
    (v : IsInventory catalog character level items) (new_identity : ℕ → Text) where
  module _ (id : Text) (d : Definition) (known : find id catalog ≡ some d) (n : ℕ) where
    w : IsDefinition d
    w = is_definition catalog c id d known

    abbrev order : List ℕ
    order = sort_by slot_less items (positions (is_existing d.category id) 0 items)

    order-IsTarget : AllOf (IsTarget catalog id d w known character level items) order
    order-IsTarget =
        AllOf-sort_by slot_less items (IsTarget catalog id d w known character level items)
          (positions (is_existing d.category id) 0 items)
          (AllOf-positions (is_existing d.category id)
            (IsTarget catalog id d w known character level items) 0 items
            (λ i a e q. let z : 0 + i ≡ i = omega arith in rw z (a, e, q)))

    order-once : (j : ℕ) → total (once j) order ≤ 1
    order-once j = ground (
      arith,
      total-sort_by slot_less items (once j) (positions (is_existing d.category id) 0 items),
      once-positions (is_existing d.category id) j 0 items,
    )

    total-order : total (of_stack (room id d) items) order ≡ tally (room id d) items
    total-order =
        total-sort_by slot_less items (of_stack (room id d) items)
          (positions (is_existing d.category id) 0 items)
        ∙ total-positions (is_existing d.category id) (of_stack (room id d) items) (room id d) 0
            items (λ i a e. let z : 0 + i ≡ i = omega arith in rw (z, e, of_stack) refl)
        ∙ tally-same (λ a. if is_existing d.category id a then room id d a else 0) (room id d) items
            (λ a. ground arith)

    abbrev filled : List Stack × ℕ
    filled = fill d.max_stack order n items

    filled-IsPacked : IsPacked catalog character level filled.0
    filled-IsPacked = (
      fill-IsStack catalog id d w known character level order n items order-IsTarget v.stacks,
      (λ l. omega (
        arith,
        v.places l,
        tally-fill catalog id d w known character level (lies l) (λ a m. refl) order n items,
      )),
      (λ name. omega (
        arith,
        v.identities name,
        tally-fill catalog id d w known character level (named name) (λ a m. refl) order n items,
      )),
    )

    length-taken : length (taken d items) ≡ tab_capacity
    length-taken = length-marked d.category items (no_slot_taken tab_capacity)

    filled-AreFree :
        AreFree catalog character level id d w known new_identity 0 (taken d items) filled.0
    filled-AreFree s free =
        let z : 0 + s ≡ s = omega arith in
        let inside : s < tab_capacity =
          omega (arith, is_free-lt s (taken d items) free, length-taken) in
        let empty' =
          (marked-free catalog character level d.category items (no_slot_taken tab_capacity) s
            v.stacks inside free).1 in
        let same =
          tally-fill catalog id d w known character level (lies (d.category * tab_capacity + s))
            (λ a m. refl) order n items in
        rw z (same ∙ empty')

    propose-IsPacked :
        n ≤ spare id d items
        → IfSome
            (Placed catalog character level id d w known new_identity items n)
            (propose new_identity id d n (taken d items) items)
    unfolding propose
    propose-IsPacked enough =
        let bags =
          fill-bag catalog id d w known character level order n items order-IsTarget order-once
            v.stacks in
        IfSome-map (Placed catalog character level id d w known new_identity filled.0 filled.1)
          (Placed catalog character level id d w known new_identity items n) _
          (λ r q. (q.0, λ e. ground (arith, q.1 e, bags.1 e)))
          (place-IsPacked catalog character level id d w known new_identity (taken d items) 0 0
            filled.1 filled.0 filled-IsPacked filled-AreFree (omega (arith, length-taken))
            (omega (arith, bags.0, total-order)))

    -- The loops before the first guard, together.
    surveyed :
        (survey d.category id d.max_stack items 0 (no_slot_taken tab_capacity)
          ≡ returns (tally (room id d) items, taken d items))
        × (add_free d.max_stack (taken d items) (tally (room id d) items) ≡ spare id d items)
    surveyed =
        let z : 0 + tally (room id d) items ≡ tally (room id d) items = omega arith in
        let few = v.few in
        let some_room : tally (room id d) items ≤ 32768 * d.max_stack =
          grind (arith, room-bound id d items, few) in
        let h =
          survey-marked catalog character level id d w known items 0 (no_slot_taken tab_capacity)
            v.stacks (omega (arith, few)) in
        (
          (rw z at h),
          add_free-free_slots catalog character level id d w (taken d items)
              (tally (room id d) items) (omega (arith, some_room, w.stacks_fit, length-taken)),
        )

  -- An operation that is refused by its status and leaves the inventory, or succeeds and adds the items.
  abbrev pub Added : Text → ℕ → List Stack → Type 0
  Added id n r =
      IsInventory catalog character level r
      × ((e : Text) → bag r e ≡ bag items e + (if text_beq id e then n else 0))

  module _ (dump_size : List Stack → ℕ) (id : Text) (n : ℕ) where
    abbrev pub answer : Outcome (List Stack × Status)
    answer = acquire catalog dump_size new_identity id n items

    abbrev pub AfterRoom : Definition → Type 0
    AfterRoom d =
        (answer ≡ returns (items, identity_conflict))
        ⊎ (answer ≡ returns (items, inventory_full))
        ⊎ ((r : List Stack) × (answer ≡ returns (r, succeeded)) × Added id n r)

    acquired :
        (d : Definition)
        → find id catalog ≡ some d
        → (n == 0) ≡ false
        → (ltb (spare id d items) n) ≡ false
        → AfterRoom d
    unfolding acquire
    acquired d known pos room' =
        let s = surveyed id d known n in
        elim (Option-cases (propose new_identity id d n (taken d items) items)) [
          | inl conflict ↦ inl (rw (known, acquire, pos, s.0, ◌>>=◌, s.1, room', conflict) refl)
          | inr (r, e) ↦
              let q =
                IfSome-of
                  (Placed catalog character level id d (w id d known n) known new_identity items n)
                  _ r e (propose-IsPacked id d known n (ground arith)) in
              elim (Bool-cases (ltb 32768 (dump_size r))) [
                | inl long ↦
                    inr (inl (rw (known, acquire, pos, s.0, ◌>>=◌, s.1, room', e, long) refl))
                | inr fits ↦ inr (
                    inr (
                      r,
                      rw (known, acquire, pos, s.0, ◌>>=◌, s.1, room', e, fits) refl,
                      (
                        record {
                          stacks = q.0.0;
                          places = q.0.1;
                          identities = q.0.2;
                          few = length-places catalog character level c r q.0.0 q.0.1;
                        },
                        q.1,
                      ),
                    ))
              ]
        ]

    -- On a valid inventory over a valid catalog, `Acquire` throws nothing, however long the stored
    -- text of a list of stacks is. It refuses an unknown item, a quantity of nothing and one that
    -- there is no room for on the item's stacks and the free slots of its tab. Else it adds all of
    -- the items and leaves a valid inventory, with the bag grown by just these items, unless it
    -- answers that an identity is in conflict or that the stored text is too long. Whatever it refuses, it leaves the inventory as it is.
    pub acquire-bag :
        ((find id catalog ≡ none) × (answer ≡ returns (items, unknown_item)))
        ⊎ ((n ≡ 0) × (answer ≡ returns (items, invalid_quantity)))
        ⊎ ((d : Definition) × (find id catalog ≡ some d)
            × (spare id d items < n)
            × (answer ≡ returns (items, inventory_full)))
        ⊎ ((d : Definition) × (find id catalog ≡ some d)
            × (0 < n)
            × (n ≤ spare id d items)
            × AfterRoom d)
    unfolding acquire
    acquire-bag = elim (Option-cases (find id catalog)) [
      | inl none' ↦ inl (none', rw (none', acquire) refl)
      | inr (d, known) ↦ elim (Bool-cases (n == 0)) [
        | inl zero' ↦ inr (inl (ground arith, rw (known, acquire, zero') refl))
        | inr pos ↦ elim (Bool-cases (ltb (spare id d items) n)) [
          | inl full ↦
              let s = surveyed id d known n in
              inr (
                inr (
                  inl
                    (d, known, ground arith, rw (known, acquire, pos, s.0, ◌>>=◌, s.1, full) refl)))
          | inr room' ↦
              inr (inr (inr (d, known, ground arith, ground arith, acquired d known pos room')))
        ]
      ]
    ]
