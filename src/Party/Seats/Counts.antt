-- ===== src/Party/Seats/Counts.antt =====
-- The slots of a party one by one, independent of the loops that search them.
use action_rpgserver.Common.{
  ℕ, zero, suc, ◌≡◌, refl, true, false, none, some, [], ◌∷◌, arith, ◌==◌, Option, length, inl, inr,
  ltb, ◌<◌, Option-cases, nat_eq, ◌+◌,
}
use action_rpgserver.Common.Map.{is_some, unless}
use action_rpgserver.Party.Seats.{Slots, find_empty_slot, first_member, reset, has}
use action_rpgserver.Party.Seats.Laws.{Distinct}

-- How many players have a slot.
unfoldable pub headcount : Slots → ℕ
headcount [] = 0
headcount (none ∷ xs) = headcount xs
headcount (some p ∷ xs) = suc (headcount xs)

-- Who has the slot of an index.
unfoldable pub occupant : ℕ → Slots → Option ℕ
occupant k [] = none
occupant zero (x ∷ xs) = x
occupant (suc k) (x ∷ xs) = occupant k xs

-- The player is in the slots, and every slot before its own is empty.
abbrev pub IsFirst : ℕ → Slots → Type 0
IsFirst l xs = (k : ℕ) × (occupant k xs ≡ some l) × ((j : ℕ) → j < k → occupant j xs ≡ none)

headcount-length : (xs : Slots) → headcount xs < suc (length xs)
unfolding headcount
headcount-length [] = omega arith
headcount-length (none ∷ xs) = omega (arith, headcount-length xs)
headcount-length (some q ∷ xs) = omega (arith, headcount-length xs)

pub find_empty_slot-headcount :
    (xs : Slots) → is_some (find_empty_slot xs) ≡ ltb (headcount xs) (length xs)
unfolding find_empty_slot headcount
find_empty_slot-headcount [] = refl
find_empty_slot-headcount (none ∷ xs) = ground (arith, headcount-length xs)
find_empty_slot-headcount (some p ∷ xs) = elim (Option-cases (find_empty_slot xs)) [
  | inl e ↦ ground (arith, e, find_empty_slot-headcount xs)
  | inr (j, e) ↦ ground (arith, e, find_empty_slot-headcount xs)
]

pub first_member-headcount : (xs : Slots) → is_some (first_member xs) ≡ ltb 0 (headcount xs)
unfolding first_member headcount
first_member-headcount [] = refl
first_member-headcount (none ∷ xs) = first_member-headcount xs
first_member-headcount (some p ∷ xs) = ground arith

pub headcount-reset :
    (xs : Slots) (p : ℕ) → has p xs ≡ true → headcount (reset p xs) + 1 ≡ headcount xs
unfolding headcount reset has
headcount-reset [] p h = cc
headcount-reset (none ∷ xs) p h = headcount-reset xs p h
headcount-reset (some q ∷ xs) p h = ground (arith, headcount-reset xs p)

-- Who is in no slot is taken out of none.
pub unless-occupant :
    (k p : ℕ) (xs : Slots) → has p xs ≡ false → unless (λ q. q == p) (occupant k xs) ≡ occupant k xs
unfolding occupant has
unless-occupant k p [] h = refl
unless-occupant zero p (none ∷ xs) h = refl
unless-occupant zero p (some q ∷ xs) h = ground arith
unless-occupant (suc k) p (none ∷ xs) h = unless-occupant k p xs h
unless-occupant (suc k) p (some q ∷ xs) h = unless-occupant k p xs (ground arith)

pub occupant-reset :
    (k p : ℕ) (xs : Slots)
    → Distinct xs
    → occupant k (reset p xs) ≡ unless (λ q. q == p) (occupant k xs)
unfolding occupant reset
occupant-reset k p [] d = refl
occupant-reset zero p (none ∷ xs) d = refl
occupant-reset zero p (some q ∷ xs) d = ground arith
occupant-reset (suc k) p (none ∷ xs) d = occupant-reset k p xs d
occupant-reset (suc k) p (some q ∷ xs) d =
    ground (arith, occupant-reset k p xs d.1, unless-occupant k p xs)

pub occupant-first_none : (k : ℕ) (xs : Slots) → first_member xs ≡ none → occupant k xs ≡ none
unfolding occupant first_member
occupant-first_none k [] e = refl
occupant-first_none zero (none ∷ xs) e = refl
occupant-first_none (suc k) (none ∷ xs) e = occupant-first_none k xs e
occupant-first_none k (some q ∷ xs) e = cc

later-none :
    (xs : Slots) (k : ℕ)
    → ((j : ℕ) → j < k → occupant j xs ≡ none)
    → (j : ℕ) → j < suc k
    → occupant j (none ∷ xs) ≡ none
unfolding occupant
later-none xs k before zero h = refl
later-none xs k before (suc j) h = before j (omega arith)

pub first_member-IsFirst : (xs : Slots) (l : ℕ) → first_member xs ≡ some l → IsFirst l xs
unfolding occupant first_member
first_member-IsFirst [] l e = cc
first_member-IsFirst (none ∷ xs) l e =
    let (k, here, before) = first_member-IsFirst xs l e in (suc k, here, later-none xs k before)
first_member-IsFirst (some q ∷ xs) l e = (0, e, λ j h. absurd (omega arith))
