-- ===== src/Party/Seats/Laws.antt =====
-- What the loops over the slots of a party do to the set of its members.
use action_rpgserver.Common.{
  ℕ, zero, suc, ◌≡◌, refl, true, false, ◌||◌, none, some, [], ◌∷◌, arith, ◌==◌, if◌then◌else◌,
  length, set, Option-cases, inl, inr,
}
use action_rpgserver.Party.Seats.{Slots, find_empty_slot, first_member, reset, has}

-- No player stands in two slots.
abbrev pub Distinct : Slots → Type 0
Distinct [] = Unit
Distinct (none ∷ xs) = Distinct xs
Distinct (some p ∷ xs) = (has p xs ≡ false) × Distinct xs

pub has-set :
    (xs : Slots) (i p q : ℕ)
    → find_empty_slot xs ≡ some i
    → has q (set xs i (some p)) ≡ ((p == q) || has q xs)
unfolding find_empty_slot has
has-set [] i p q h = cc
has-set (none ∷ xs) zero p q h = refl
has-set (none ∷ xs) (suc i) p q h = ground arith
has-set (some r ∷ xs) zero p q h = elim (Option-cases (find_empty_slot xs)) [
  | inl e ↦ ground (arith, e)
  | inr (j, e) ↦ ground (arith, e)
]
has-set (some r ∷ xs) (suc i) p q h = elim (Option-cases (find_empty_slot xs)) [
  | inl e ↦ ground (arith, e)
  | inr (j, e) ↦ ground (arith, e, has-set xs i p q)
]

pub set-Distinct :
    (xs : Slots) (i p : ℕ)
    → find_empty_slot xs ≡ some i
    → has p xs ≡ false
    → Distinct xs
    → Distinct (set xs i (some p))
unfolding find_empty_slot has
set-Distinct [] i p h f d = tt
set-Distinct (none ∷ xs) zero p h f d = (f, d)
set-Distinct (none ∷ xs) (suc i) p h f d = ground arith
set-Distinct (some r ∷ xs) zero p h f d = ground arith
set-Distinct (some r ∷ xs) (suc i) p h f d =
    ground (arith, has-set xs i p r, set-Distinct xs i p, Option-cases (find_empty_slot xs))

pub has-reset :
    (xs : Slots) (p q : ℕ) → Distinct xs → has q (reset p xs) ≡ (if p == q then false else has q xs)
unfolding reset has
has-reset [] p q d = ground arith
has-reset (none ∷ xs) p q d = has-reset xs p q d
has-reset (some r ∷ xs) p q d = ground (arith, has-reset xs p q d.1)

pub reset-Distinct : (xs : Slots) (p : ℕ) → Distinct xs → Distinct (reset p xs)
unfolding reset has
reset-Distinct [] p d = tt
reset-Distinct (none ∷ xs) p d = reset-Distinct xs p d
reset-Distinct (some r ∷ xs) p d = ground (arith, has-reset xs p r d.1, reset-Distinct xs p d.1)

pub length-reset : (xs : Slots) (p : ℕ) → length (reset p xs) ≡ length xs
unfolding reset
length-reset [] p = refl
length-reset (none ∷ xs) p = omega (arith, length-reset xs p)
length-reset (some r ∷ xs) p = ground (arith, length-reset xs p)

-- Without a first member there is none.
pub has-first_none : (xs : Slots) (q : ℕ) → first_member xs ≡ none → has q xs ≡ false
unfolding first_member has
has-first_none [] q h = refl
has-first_none (none ∷ xs) q h = has-first_none xs q h
has-first_none (some r ∷ xs) q h = cc

pub has-first_some : (xs : Slots) (l : ℕ) → first_member xs ≡ some l → has l xs ≡ true
unfolding first_member has
has-first_some [] l h = cc
has-first_some (none ∷ xs) l h = has-first_some xs l h
has-first_some (some r ∷ xs) l h = ground arith
