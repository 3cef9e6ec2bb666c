-- ===== src/Inventory/Removes.antt =====
-- `Remove` of Shared/Inventory.h: what it leaves valid, and what it takes.
use action_rpgserver.Common.{
  some, refl, ℕ, List, ◌≡◌, Option-cases, inl, inr, if-cases, arith, ◌==◌, ◌||◌, ltb, ◌-◌, ◌⊎◌, ◌<◌,
  ◌≤◌, Bool-cases, ◌+◌, if◌then◌else◌,
}
use action_rpgserver.Common.Text.{text_eq, Text, text_beq, text_beq_iff}
use action_rpgserver.Inventory.Stacks.{Catalog, Stack, find_if, equipped_container, get}
use action_rpgserver.Inventory.Valid.{IsInventory, named, bag, units}
use action_rpgserver.Inventory.{
  remove, Status, succeeded, item_equipped, invalid_quantity, item_not_found,
}
use action_rpgserver.Inventory.Tally.{find_if-found, tally, tally-set, tally-erase, find_if-none}
use action_rpgserver.Inventory.Changes.{stack_here, erase-IsInventory, recount-IsInventory}

module _ {catalog : Catalog} {character level : ℕ} {items : List Stack}
    (v : IsInventory catalog character level items) where
  pub remove-IsInventory :
      (id : Text) (n : ℕ) → IsInventory catalog character level (remove id n items).0
  unfolding remove
  remove-IsInventory id n = elim (Option-cases (find_if (λ a. text_beq a.instance_id id) items)) [
    | inl none' ↦ rw (none', remove) v
    | inr ((k, a), found) ↦
        let here = (find_if-found (λ a. text_beq a.instance_id id) items k a found).0 in
        let s = stack_here v k a here in
        rw (found, remove)
          (if-cases (λ (r : List Stack × Status). IsInventory catalog character level r.0)
            (a.container == equipped_container) (λ _. v)
            λ _.
              if-cases (λ (r : List Stack × Status). IsInventory catalog character level r.0)
                (n == 0 || ltb a.count n) (λ _. v)
                λ some_left.
                  if-cases (λ (r : List Stack × Status). IsInventory catalog character level r.0)
                    (a.count - n == 0) (λ _. erase-IsInventory v k a here)
                    (λ some_stay.
                      recount-IsInventory v k a here (a.count - n) (ground arith) (λ d known.
                        let e : s.definition ≡ d = ground (arith, s.known) in
                        ground (arith, s.fits))))
  ]

  -- What `Remove` answers for the stack that it finds.
  abbrev pub Taken : Text → ℕ → Stack → Type 0
  Taken id n a =
      ((a.container ≡ equipped_container) × (remove id n items ≡ (items, item_equipped)))
      ⊎ (((n ≡ 0) ⊎ (a.count < n)) × (remove id n items ≡ (items, invalid_quantity)))
      ⊎ ((0 < n)
          × (n ≤ a.count)
          × ((remove id n items).1 ≡ succeeded)
          × ((d : Text)
              → bag (remove id n items).0 d + (if text_beq a.definition_id d then n else 0)
                ≡ bag items d))

  -- On a valid inventory, `Remove` leaves the stacks as they are when none has the identity. Else
  -- there is a stack of that identity: if it is worn, or the quantity is zero or more than it
  -- holds, the call is refused and changes nothing; if not, the bag has just so many items less
  -- of that stack's definition, and as many of every other.
  pub remove-bag :
      (id : Text) (n : ℕ)
      → ((tally (named id) items ≡ 0) × (remove id n items ≡ (items, item_not_found)))
        ⊎ ((k : ℕ) × (a : Stack) × (get items k ≡ some a) × (a.instance_id ≡ id) × Taken id n a)
  unfolding remove
  remove-bag id n = elim (Option-cases (find_if (λ a. text_beq a.instance_id id) items)) [
    | inl none' ↦
        inl (find_if-none (λ a. text_beq a.instance_id id) items none', rw (none', remove) refl)
    | inr ((k, a), found) ↦
        let here = find_if-found (λ a. text_beq a.instance_id id) items k a found in
        inr (
          k,
          a,
          here.0,
          (text_beq_iff a.instance_id id).0 here.1,
          elim (Bool-cases (a.container == equipped_container)) [
            | inl worn ↦ inl (ground arith, rw (found, remove, worn) refl)
            | inr loose ↦ elim (Bool-cases (n == 0 || ltb a.count n)) [
              | inl wrong ↦ inr (inl (ground arith, rw (found, remove, loose, wrong) refl))
              | inr right ↦ elim (Bool-cases (a.count - n == 0)) [
                | inl all ↦ inr (
                    inr (
                      ground arith,
                      ground arith,
                      rw (found, remove, loose, right, all) refl,
                      λ d.
                          rw (found, remove, loose, right, all)
                            (ground (arith, tally-erase (units d) items k a here.0)),
                    ))
                | inr part ↦ inr (
                    inr (
                      ground arith,
                      ground arith,
                      rw (found, remove, loose, right, part) refl,
                      λ d.
                          rw (found, remove, loose, right, part)
                            (ground (
                              arith,
                              tally-set (units d) items k a (record a { count = a.count - n })
                                  here.0,
                            )),
                    ))
              ]
            ]
          ],
        )
  ]
