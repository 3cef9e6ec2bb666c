-- ===== src/Party/Seats.antt =====
-- The slots of a party: `std::array<std::optional<PlayerId>, MAX_PARTY_MEMBERS>`.
pub mod Laws
pub mod Counts
use action_rpgserver.Common.{
  ℕ, suc, Bool, false, ◌||◌, Option, none, some, List, [], ◌∷◌, ◌==◌, if◌then◌else◌,
}

abbrev pub Slots : Type 0
Slots = List (Option ℕ)

abbrev pub empty_slots : Slots
empty_slots = none ∷ none ∷ none ∷ none ∷ none ∷ none ∷ none ∷ none ∷ []

-- The loop of `FindEmptySlot`.
unfoldable pub find_empty_slot : Slots → Option ℕ
find_empty_slot [] = none
find_empty_slot (none ∷ xs) = some 0
find_empty_slot (some p ∷ xs) = elim (find_empty_slot xs) [ none ↦ none | some i ↦ some (suc i) ]

-- std::find_if for the first slot that holds a player.
unfoldable pub first_member : Slots → Option ℕ
first_member [] = none
first_member (none ∷ xs) = first_member xs
first_member (some p ∷ xs) = some p

-- The loop that empties the first slot of a player.
unfoldable pub reset : ℕ → Slots → Slots
reset p [] = []
reset p (none ∷ xs) = none ∷ reset p xs
reset p (some q ∷ xs) = if q == p then none ∷ xs else some q ∷ reset p xs

-- The loop of `MakeView`: the players with the indices of their slots.
unfoldable pub member_slots : ℕ → Slots → List (ℕ × ℕ)
member_slots i [] = []
member_slots i (none ∷ xs) = member_slots (suc i) xs
member_slots i (some p ∷ xs) = (p, i) ∷ member_slots (suc i) xs

-- Whether a player stands in a slot.
unfoldable pub has : ℕ → Slots → Bool
has p [] = false
has p (none ∷ xs) = has p xs
has p (some q ∷ xs) = (q == p) || has p xs
