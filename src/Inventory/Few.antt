-- ===== src/Inventory/Few.antt =====
-- `Inventory::Parse` of Shared/Inventory.h refuses more than 167 stacks; no two stacks in one place
-- leave no room for more.
use action_rpgserver.Common.{
  ℕ, zero, suc, List, [], ◌∷◌, ◌≡◌, ◌≤◌, ◌<◌, ◌+◌, refl, arith, length, ltb, if◌then◌else◌, nat_eq,
}
use action_rpgserver.Inventory.Stacks.{Stack, Catalog}
use action_rpgserver.Inventory.Valid.{IsCatalog, IsStack, lies, location}
use action_rpgserver.Inventory.Tally.{Every, tally, Every-map}
use action_rpgserver.Inventory.Swaps.{is_definition}

-- The stacks that lie in the first places.
unfoldable spread : ℕ → List Stack → ℕ
spread zero items = 0
spread (suc n) items = tally (lies n) items + spread n items

spread-le :
    (items : List Stack) → ((l : ℕ) → tally (lies l) items ≤ 1) → (n : ℕ) → spread n items ≤ n
unfolding spread
spread-le items once zero = omega arith
spread-le items once (suc n) = omega (arith, once n, spread-le items once n)

spread-nil : (n : ℕ) → spread n [] ≡ 0
unfolding spread tally
spread-nil zero = refl
spread-nil (suc n) = omega (arith, spread-nil n)

spread-cons :
    (n : ℕ) (a : Stack) (items : List Stack)
    → spread n (a ∷ items) ≡ spread n items + (if ltb (location a) n then 1 else 0)
unfolding spread tally
spread-cons zero a items = ground arith
spread-cons (suc n) a items = ground (arith, spread-cons n a items)

length-spread :
    (n : ℕ) (items : List Stack) → Every (λ a. location a < n) items → length items ≡ spread n items
unfolding Every
length-spread n [] e = omega (arith, spread-nil n)
length-spread n (a ∷ items) e = ground (arith, spread-cons n a items, length-spread n items e.1)

location-lt :
    {catalog : Catalog} {character level : ℕ}
    → IsCatalog catalog
    → (a : Stack) → IsStack catalog character level a
    → location a < 167
location-lt {catalog} c a s =
    let w = is_definition catalog c a.definition_id s.definition s.known in
    ground (arith, s.placed, s.in_tab, w.tab, w.wears)

pub length-places :
    (catalog : Catalog) (character level : ℕ)
    → IsCatalog catalog
    → (items : List Stack) → Every (IsStack catalog character level) items
    → ((l : ℕ) → tally (lies l) items ≤ 1)
    → length items ≤ 167
length-places catalog character level c items stacks places = omega (
  arith,
  length-spread 167 items (
      Every-map (IsStack catalog character level) (λ a. location a < 167) items stacks
        (location-lt c)),
  spread-le items places 167,
)
