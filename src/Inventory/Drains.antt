-- ===== src/Inventory/Drains.antt =====
-- What the loops of `Consume` of Shared/Inventory.h leave as it is, and what the sum of 64 bits counts.
use action_rpgserver.Common.{
  [], ◌∷◌, inl, inr, refl, List, ℕ, if◌then◌else◌, ◌<◌, ◌≤◌, ◌≡◌, length, if-cases, ◌^◌, Bool-cases,
  elim-cases, arith, ◌==◌, ◌+◌, ◌-◌, ◌*◌, min, set, length-set, ◌∙◌, ◌%◌,
}
use action_rpgserver.Common.Text.{text_eq, Text}
use action_rpgserver.Inventory.{drain, drop_empty, available, is_available}
use action_rpgserver.Inventory.Stacks.{Stack, Catalog, get}
use action_rpgserver.Inventory.Tally.{tally, Every, tally-set}
use action_rpgserver.Inventory.Valid.{IsLoose, IsStack}

-- The items of a definition that lie in a tab.
abbrev pub held : Text → List Stack → ℕ
held id items = tally (λ a. if is_available id a then a.count else 0) items

module _ (id : Text) where
  -- The sum does not wrap around.
  pub available-held :
      (items : List Stack) (sum : ℕ)
      → Every (λ a. a.count < 2 ^ 32) items
      → sum + length items * 2 ^ 32 < 2 ^ 64
      → available id items sum ≡ sum + held id items
  unfolding available tally Every
  available-held [] sum h le = omega arith
  available-held (a ∷ items) sum h le =
      let fits : (sum + a.count) % 2 ^ 64 ≡ sum + a.count = omega (arith, h.0) in
      let skip = available-held items sum h.1 (omega arith) in
      let add = available-held items (sum + a.count) h.1 (omega (arith, h.0)) in
      elim (Bool-cases (is_available id a)) [
        | inl yes' ↦ rw yes' (rw fits (omega (arith, add)))
        | inr no' ↦ rw no' (omega (arith, skip))
      ]

module _ (w : Stack → ℕ) where
  -- A quantity that does not depend on the count.
  pub tally-drain :
      ((a : Stack) (n : ℕ) → w (record a { count = n }) ≡ w a)
      → (ks : List ℕ) (n : ℕ) (items : List Stack) → tally w (drain ks n items) ≡ tally w items
  unfolding drain
  tally-drain same [] n items = refl
  tally-drain same (k ∷ ks) n items =
      elim-cases (λ (r : List Stack). tally w r ≡ tally w items) (get items k)
        (λ _. tally-drain same ks n items)
        λ a here.
          let b : Stack = record a { count = a.count - min n a.count } in
          let e : tally w (set items k b) ≡ tally w items =
            omega (arith, tally-set w items k a b here, same a (a.count - min n a.count)) in
          if-cases (λ (r : List Stack). tally w r ≡ tally w items) (n - min n a.count == 0) (λ _. e)
            (λ _. tally-drain same ks (n - min n a.count) (set items k b) ∙ e)

  pub tally-drop_empty_le : (items : List Stack) → tally w (drop_empty items) ≤ tally w items
  unfolding drop_empty tally
  tally-drop_empty_le [] = omega arith
  tally-drop_empty_le (a ∷ items) = ground (arith, tally-drop_empty_le items)

  pub tally-drop_empty :
      ((a : Stack) → a.count ≡ 0 → w a ≡ 0)
      → (items : List Stack) → tally w (drop_empty items) ≡ tally w items
  unfolding drop_empty tally
  tally-drop_empty none' [] = refl
  tally-drop_empty none' (a ∷ items) = elim (Bool-cases (a.count == 0)) [
    | inl empty' ↦ rw empty' (omega (arith, none' a (ground arith), tally-drop_empty none' items))
    | inr ne ↦ rw ne (omega (arith, tally-drop_empty none' items))
  ]

pub length-drain :
    (ks : List ℕ) (n : ℕ) (items : List Stack) → length (drain ks n items) ≡ length items
unfolding drain
length-drain [] n items = refl
length-drain (k ∷ ks) n items =
    elim-cases (λ (r : List Stack). length r ≡ length items) (get items k)
      (λ _. length-drain ks n items)
      λ a here.
        let b : Stack = record a { count = a.count - min n a.count } in
        let e = length-set items k b in
        if-cases (λ (r : List Stack). length r ≡ length items) (n - min n a.count == 0) (λ _. e)
          (λ _. length-drain ks (n - min n a.count) (set items k b) ∙ e)

pub length-drop_empty : (items : List Stack) → length (drop_empty items) ≤ length items
unfolding drop_empty
length-drop_empty [] = omega arith
length-drop_empty (a ∷ items) = ground (arith, length-drop_empty items)

-- What is left is as the checks ask.
pub drop_empty-IsStack :
    (catalog : Catalog) (character level : ℕ) (items : List Stack)
    → Every (IsLoose catalog character level) items
    → Every (IsStack catalog character level) (drop_empty items)
unfolding drop_empty Every
drop_empty-IsStack catalog character level [] h = tt
drop_empty-IsStack catalog character level (a ∷ items) ((n, s, le), h) =
    if-cases (Every (IsStack catalog character level)) (a.count == 0)
      (λ _. drop_empty-IsStack catalog character level items h)
      (λ some_left. (
        record {
          definition = s.definition;
          known = s.known;
          some_items = ground arith;
          fits = omega (arith, s.fits, le);
          in_tab = s.in_tab;
          placed = s.placed;
          identity = s.identity;
        },
        drop_empty-IsStack catalog character level items h,
      ))
