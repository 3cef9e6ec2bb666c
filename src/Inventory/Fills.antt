-- ===== src/Inventory/Fills.antt =====
-- The loop of `Acquire` of Shared/Inventory.h that fills the stacks that are there.
use action_rpgserver.Common.{
  some, [], ◌∷◌, true, inl, inr, refl, ℕ, List, ◌≡◌, set, elim-cases, ◌≤◌, Bool-cases, min, arith,
  ◌-◌, ◌==◌, ◌+◌, sym, ◌%◌, if◌then◌else◌, ◌^◌, ◌∙◌,
}
use action_rpgserver.Common.Text.{text_eq, Text, text_beq, text_beq_iff}
use action_rpgserver.Inventory.{fill, is_existing, sub32}
use action_rpgserver.Inventory.Stacks.{Stack, Catalog, Definition, get}
use action_rpgserver.Inventory.Tally.{tally, Every, Every-get, get-set, Every-set, tally-set}
use action_rpgserver.Inventory.Valid.{IsStack, IsDefinition, lies, named, units, bag}
use action_rpgserver.Inventory.Rooms.{room, sub32_room}
use action_rpgserver.Inventory.Positions.{total, AllOf, once, of_stack, total-set, AllOf-map}
use action_rpgserver.Common.Map.{find}
use action_rpgserver.Inventory.Swaps.{get-set_ne}

-- What the checks ask of the stacks, whatever their number.
abbrev pub IsPacked : Catalog → ℕ → ℕ → List Stack → Type 0
IsPacked catalog character level items =
    Every (IsStack catalog character level) items
    × ((l : ℕ) → tally (lies l) items ≤ 1)
    × ((id : Text) → tally (named id) items ≤ 1)

module _ (catalog : Catalog) (id : Text) (d : Definition) (w : IsDefinition d)
    (known : find id catalog ≡ some d) (character level : ℕ) where
  -- A position of a stack of the definition in its tab.
  abbrev pub IsTarget : List Stack → ℕ → Type 0
  IsTarget items k = (a : Stack) × (get items k ≡ some a) × (is_existing d.category id a ≡ true)

  IsTarget-set :
      (items : List Stack) (k j n : ℕ) (a : Stack)
      → get items k ≡ some a
      → is_existing d.category id a ≡ true
      → IsTarget items j
      → IsTarget (set items k (record a { count = n })) j
  IsTarget-set items k j n a here q (b, e, r) = elim (Bool-cases (k == j)) [
    | inl same ↦
        let at_j : k ≡ j = ground arith in
        (
          record a { count = n },
          (rw (sym at_j) (get-set items k a (record a { count = n }) here)),
          q,
        )
    | inr ne ↦ (b, get-set_ne items k j (record a { count = n }) (ground arith) ∙ e, r)
  ]

  -- One step of the loop.
  filled-IsStack :
      (a : Stack) (n : ℕ)
      → IsStack catalog character level a
      → a.definition_id ≡ id
      → a.count ≤ n
      → n ≤ d.max_stack
      → IsStack catalog character level (record a { count = n })
  filled-IsStack a n s e le fits = record {
    definition = s.definition;
    known = s.known;
    some_items = omega (arith, s.some_items);
    fits =
        (let known' : find a.definition_id catalog ≡ some d = rw e known in
          let same : s.definition ≡ d = ground (arith, s.known) in ground arith);
    in_tab = s.in_tab;
    placed = s.placed;
    identity = s.identity;
  }

  fill_step :
      (k : ℕ) (ks : List ℕ) (n : ℕ) (items : List Stack) (a : Stack)
      → get items k ≡ some a
      → (let added = min n (sub32 d.max_stack a.count) in
          fill d.max_stack (k ∷ ks) n items
          ≡ fill d.max_stack ks
              (n - added)
              (set items k (record a { count = (a.count + added) % 2 ^ 32 })))
  unfolding fill
  fill_step k ks n items a here = rw (here, fill) refl

  -- The stacks keep their places, their names and their number.
  pub tally-fill :
      (u : Stack → ℕ)
      → ((a : Stack) (n : ℕ) → u (record a { count = n }) ≡ u a)
      → (ks : List ℕ) (n : ℕ) (items : List Stack)
      → tally u (fill d.max_stack ks n items).0 ≡ tally u items
  unfolding fill
  tally-fill u same [] n items = refl
  tally-fill u same (k ∷ ks) n items =
      elim-cases (λ (r : List Stack × ℕ). tally u r.0 ≡ tally u items) (get items k)
        (λ _. tally-fill u same ks n items)
        λ a here.
          let added = min n (sub32 d.max_stack a.count) in
          let b : Stack = record a { count = (a.count + added) % 2 ^ 32 } in
          tally-fill u same ks (n - added) (set items k b)
          ∙ omega (arith, tally-set u items k a b here, same a ((a.count + added) % 2 ^ 32))

  pub fill-IsStack :
      (ks : List ℕ) (n : ℕ) (items : List Stack)
      → AllOf (IsTarget items) ks
      → Every (IsStack catalog character level) items
      → Every (IsStack catalog character level) (fill d.max_stack ks n items).0
  unfolding fill
  fill-IsStack [] n items h s = s
  fill-IsStack (k ∷ ks) n items ((a, here, q), h) s =
      let t = Every-get (IsStack catalog character level) items k a s here in
      let e : a.definition_id ≡ id = (text_beq_iff a.definition_id id).0 (ground arith) in
      let r = sub32_room catalog character level id d w a known t e in
      let added = min n (sub32 d.max_stack a.count) in
      let m = (a.count + added) % 2 ^ 32 in
      let b : Stack = record a { count = m } in
      let count' : m ≡ a.count + added = omega (arith, r.0, r.1, w.stacks_fit) in
      rw (fill_step k ks n items a here) (
        fill-IsStack ks (n - added) (set items k b)
          (AllOf-map (IsTarget items) (IsTarget (set items k b)) ks
            (λ j x. IsTarget-set items k j m a here q x) h)
          (Every-set (IsStack catalog character level) items k b s
            (filled-IsStack a m t e (omega (arith, count')) (omega (arith, count', r.0, r.1)))))

  -- The loop adds items as long as there is room, and what remains is what there is no room for.
  pub fill-bag :
      (ks : List ℕ) (n : ℕ) (items : List Stack)
      → AllOf (IsTarget items) ks
      → ((j : ℕ) → total (once j) ks ≤ 1)
      → Every (IsStack catalog character level) items
      → ((fill d.max_stack ks n items).1 ≡ n - total (of_stack (room id d) items) ks)
        × ((e : Text)
            → bag (fill d.max_stack ks n items).0 e
                + (if text_beq id e then (fill d.max_stack ks n items).1 else 0)
              ≡ bag items e + (if text_beq id e then n else 0))
  unfolding fill total
  fill-bag [] n items h distinct s = (omega arith, λ e. refl)
  fill-bag (k ∷ ks) n items ((a, here, q), h) distinct s =
      let t = Every-get (IsStack catalog character level) items k a s here in
      let same : a.definition_id ≡ id = (text_beq_iff a.definition_id id).0 (ground arith) in
      let r = sub32_room catalog character level id d w a known t same in
      let added = min n (sub32 d.max_stack a.count) in
      let m = (a.count + added) % 2 ^ 32 in
      let b : Stack = record a { count = m } in
      let count' : m ≡ a.count + added = omega (arith, r.0, r.1, w.stacks_fit) in
      let apart : total (once k) ks ≡ 0 = ground (arith, distinct k) in
      let sums = total-set (room id d) items k b ks apart in
      let here' : of_stack (room id d) items k ≡ d.max_stack - a.count =
        rw (here, of_stack, q) refl in
      let later =
        fill-bag ks (n - added) (set items k b)
          (AllOf-map (IsTarget items) (IsTarget (set items k b)) ks
            (λ j x. IsTarget-set items k j m a here q x) h)
          (λ j. ground (arith, distinct j))
          (Every-set (IsStack catalog character level) items k b s (
            filled-IsStack a m t same (omega (arith, count')) (omega (arith, count', r.0, r.1)))) in
      rw (fill_step k ks n items a here) (
        omega (arith, later.0, sums, here', r.1),
        λ e.
            let one = tally-set (units e) items k a b here in
            let units_a : units e a ≡ (if text_beq id e then a.count else 0) = rw same refl in
            let units_b : units e b ≡ (if text_beq id e then m else 0) = rw same refl in
            ground (arith, one, later.1 e, units_a, units_b, count', r.1),
      )
