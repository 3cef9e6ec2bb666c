-- ===== src/Inventory/Consumes.antt =====
-- `Consume` of Shared/Inventory.h takes just the items that are asked for.
use action_rpgserver.Common.{
  ℕ, refl, [], ◌∷◌, true, List, ◌≡◌, some, ◌≤◌, set, Bool-cases, ◌+◌, ◌==◌, if◌then◌else◌, inl,
  arith, sym, inr, ◌∙◌, min, elim-cases, ◌-◌, if-cases,
}
use action_rpgserver.Common.Text.{text_eq, Text, text_beq, text_beq_iff}
use action_rpgserver.Inventory.{drain, is_available}
use action_rpgserver.Inventory.Stacks.{Stack, Catalog, get}
use action_rpgserver.Inventory.Positions.{total, AllOf, once, of_stack, total-set, AllOf-map}
use action_rpgserver.Inventory.Tally.{Every, get-set, Every-get, tally-set, Every-set}
use action_rpgserver.Inventory.Valid.{IsLoose, bag, units}
use action_rpgserver.Inventory.Swaps.{get-set_ne}

module _ (id : Text) where
  -- A position at which the loop may take items.
  abbrev pub IsSource : List Stack → ℕ → Type 0
  IsSource items k = (a : Stack) × (get items k ≡ some a) × (is_available id a ≡ true)

  IsSource-set :
      (items : List Stack) (k j n : ℕ) (a : Stack)
      → get items k ≡ some a
      → is_available id a ≡ true
      → IsSource items j
      → IsSource (set items k (record a { count = n })) j
  IsSource-set items k j n a here q (b, e, r) = elim (Bool-cases (k == j)) [
    | inl same ↦
        let at_j : k ≡ j = ground arith in
        (
          record a { count = n },
          (rw (sym at_j) (get-set items k a (record a { count = n }) here)),
          q,
        )
    | inr ne ↦ (b, get-set_ne items k j (record a { count = n }) (ground arith) ∙ e, r)
  ]

  -- Enough items at distinct positions: the loop takes what is asked for, and nothing else.
  pub drain-bag :
      (ks : List ℕ) (n : ℕ) (items : List Stack)
      → AllOf (IsSource items) ks
      → ((j : ℕ) → total (once j) ks ≤ 1)
      → n ≤ total (of_stack (λ a. a.count) items) ks
      → (d : Text) → bag (drain ks n items) d + (if text_beq id d then n else 0) ≡ bag items d
  unfolding drain total
  drain-bag [] n items h distinct enough d = ground arith
  drain-bag (k ∷ ks) n items ((a, here, q), h) distinct enough d =
      let removed = min n a.count in
      let b : Stack = record a { count = a.count - removed } in
      let apart : total (once k) ks ≡ 0 = ground (arith, distinct k) in
      let sums = total-set (λ x. x.count) items k b ks apart in
      let one = tally-set (units d) items k a b here in
      let later =
        drain-bag ks (n - removed) (set items k b)
          (AllOf-map (IsSource items) (IsSource (set items k b)) ks
            (λ j s. IsSource-set items k j (a.count - removed) a here q s) h)
          (λ j. ground (arith, distinct j)) (ground (arith, sums)) d in
      let same : a.definition_id ≡ id = (text_beq_iff a.definition_id id).0 (ground arith) in
      let units_a : units d a ≡ (if text_beq id d then a.count else 0) = rw same refl in
      let units_b : units d b ≡ (if text_beq id d then a.count - removed else 0) = rw same refl in
      ground (arith, one, later, units_a, units_b)

  -- What the loop takes from is as it was but for its count, which is no larger.
  pub drain-IsLoose :
      (catalog : Catalog) (character level : ℕ) (ks : List ℕ) (n : ℕ) (items : List Stack)
      → Every (IsLoose catalog character level) items
      → Every (IsLoose catalog character level) (drain ks n items)
  unfolding drain
  drain-IsLoose catalog character level [] n items h = h
  drain-IsLoose catalog character level (k ∷ ks) n items h =
      elim-cases (Every (IsLoose catalog character level)) (get items k)
        (λ _. drain-IsLoose catalog character level ks n items h)
        λ a here.
          let b : Stack = record a { count = a.count - min n a.count } in
          let (top, s, le) = Every-get (IsLoose catalog character level) items k a h here in
          let h' =
            Every-set (IsLoose catalog character level) items k b h (top, s, omega (arith, le)) in
          if-cases (Every (IsLoose catalog character level)) (n - min n a.count == 0) (λ _. h')
            (λ _. drain-IsLoose catalog character level ks (n - min n a.count) (set items k b) h')
