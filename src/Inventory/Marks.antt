-- ===== src/Inventory/Marks.antt =====
-- The array of the slots of a tab that are taken: a slot that is free in it holds no stack.
use action_rpgserver.Common.{
  zero, suc, ℕ, refl, [], ◌∷◌, true, false, List, Bool, if◌then◌else◌, not, set, ◌≡◌, length, ◌==◌,
  ◌<◌, ◌≢◌, some, ◌∙◌, arith, if-cases, Option-cases, length-set, ltb, ◌*◌, Bool-cases, inl, ◌+◌,
  inr, ap, sym, none, ◌⊎◌, nat_eq,
}
use action_rpgserver.Common.Text.{text_eq}
use action_rpgserver.Inventory.{first_free, taken_slots, no_slot_taken}
use action_rpgserver.Inventory.Stacks.{Catalog, Stack, tab_capacity}
use action_rpgserver.Inventory.Tally.{Every, tally}
use action_rpgserver.Inventory.Valid.{IsStack, lies}
use action_rpgserver.Common.Outcome.{returns}

-- The array after the loop over the stacks of a tab.
unfoldable pub marked : ℕ → List Stack → List Bool → List Bool
marked category [] occupied = occupied
marked category (a ∷ items) occupied =
    marked category items (if a.container == category then set occupied a.slot true else occupied)

unfoldable pub is_free : ℕ → List Bool → Bool
is_free s [] = false
is_free zero (taken ∷ rest) = not taken
is_free (suc s) (taken ∷ rest) = is_free s rest

pub is_free-lt : (s : ℕ) (occupied : List Bool) → is_free s occupied ≡ true → s < length occupied
unfolding is_free
is_free-lt s [] h = cc
is_free-lt zero (taken ∷ rest) h = omega arith
is_free-lt (suc s) (taken ∷ rest) h = omega (arith, is_free-lt s rest h)

is_free-set :
    (s t : ℕ) (occupied : List Bool)
    → is_free s (set occupied t true) ≡ true
    → (is_free s occupied ≡ true) × (s ≢ t)
unfolding is_free
is_free-set s t [] h = cc
is_free-set zero zero (taken ∷ rest) h = cc
is_free-set zero (suc t) (taken ∷ rest) h = (h, omega arith)
is_free-set (suc s) zero (taken ∷ rest) h = (h, omega arith)
is_free-set (suc s) (suc t) (taken ∷ rest) h =
    let r = is_free-set s t rest h in (r.0, omega (arith, r.1))

is_free-set_ne :
    (s t : ℕ) (occupied : List Bool) → s ≢ t → is_free s (set occupied t true) ≡ is_free s occupied
unfolding is_free
is_free-set_ne s t [] ne = refl
is_free-set_ne zero zero (taken ∷ rest) ne = absurd (ne refl)
is_free-set_ne zero (suc t) (taken ∷ rest) ne = refl
is_free-set_ne (suc s) zero (taken ∷ rest) ne = refl
is_free-set_ne (suc s) (suc t) (taken ∷ rest) ne = is_free-set_ne s t rest (λ e. ne (ap suc e))

pub first_free-none :
    (occupied : List Bool) (s : ℕ) → first_free occupied ≡ none → is_free s occupied ≡ false
unfolding first_free is_free
first_free-none [] s h = refl
first_free-none (false ∷ rest) s h = cc
first_free-none (true ∷ rest) zero h = refl
first_free-none (true ∷ rest) (suc s) h = elim (Option-cases (first_free rest)) [
  | inl none' ↦ first_free-none rest s none'
  | inr (k, found) ↦ absurd (ground arith)
]

pub is_free-no_slot_taken : (n s : ℕ) → s < n → is_free s (no_slot_taken n) ≡ true
unfolding is_free
is_free-no_slot_taken zero s h = absurd (omega arith)
is_free-no_slot_taken (suc n) zero h = refl
is_free-no_slot_taken (suc n) (suc s) h = is_free-no_slot_taken n s (omega arith)

pub first_free-is_free :
    (occupied : List Bool) (s : ℕ) → first_free occupied ≡ some s → is_free s occupied ≡ true
unfolding first_free is_free
first_free-is_free [] s h = cc
first_free-is_free (false ∷ rest) s h = (let e : s ≡ 0 = ground arith in rw e refl)
first_free-is_free (true ∷ rest) s h = elim (Option-cases (first_free rest)) [
  | inl none' ↦ absurd (ground arith)
  | inr (k, found) ↦ (let e : s ≡ suc k = ground arith in rw e (first_free-is_free rest k found))
]

pub length-marked :
    (category : ℕ) (items : List Stack) (occupied : List Bool)
    → length (marked category items occupied) ≡ length occupied
unfolding marked
length-marked category [] occupied = refl
length-marked category (a ∷ items) occupied =
    length-marked category items _
    ∙ if-cases (λ (o : List Bool). length o ≡ length occupied) (a.container == category)
        (λ _. length-set occupied a.slot true) (λ _. refl)

-- Of the slots that are not free, one was taken before, or a stack lies there.
pub marked-taken :
    (category : ℕ) (items : List Stack) (occupied : List Bool) (s : ℕ)
    → is_free s (marked category items occupied) ≡ false
    → (is_free s occupied ≡ false) ⊎ (0 < tally (lies (category * tab_capacity + s)) items)
unfolding marked tally
marked-taken category [] occupied s taken = inl taken
marked-taken category (a ∷ items) occupied s taken = elim (Bool-cases (a.container == category)) [
  | inl same ↦
      elim (marked-taken category items (set occupied a.slot true) s
        (let f = taken in rw same at f)) [
          | inl before ↦ elim (Bool-cases (s == a.slot)) [
            | inl here ↦ inr (ground arith)
            | inr off ↦ inl (sym (is_free-set_ne s a.slot occupied (ground arith)) ∙ before)
          ]
          | inr there ↦ inr (omega arith)
        ]
  | inr other ↦ elim (marked-taken category items occupied s (let f = taken in rw other at f)) [
    | inl before ↦ inl before
    | inr there ↦ inr (omega arith)
  ]
]

module _ (catalog : Catalog) (character level : ℕ) (category : ℕ) where
  pub marked-free :
      (items : List Stack) (occupied : List Bool) (s : ℕ)
      → Every (IsStack catalog character level) items
      → s < tab_capacity
      → is_free s (marked category items occupied) ≡ true
      → (is_free s occupied ≡ true) × (tally (lies (category * tab_capacity + s)) items ≡ 0)
  unfolding marked Every tally
  marked-free [] occupied s h small free = (free, refl)
  marked-free (a ∷ items) occupied s h small free =
      let r =
        marked-free items (if a.container == category then set occupied a.slot true else occupied) s
          h.1 small free in
      let inside : a.slot < tab_capacity = h.0.in_tab in
      elim (Bool-cases (a.container == category)) [
        | inl same ↦
            let q = is_free-set s a.slot occupied (let f = r.0 in rw same at f) in
            (q.0, ground (arith, r.1, q.1))
        | inr other ↦ ((let f = r.0 in rw other at f), ground (arith, r.1))
      ]

  pub taken_slots-marked :
      (items : List Stack) (occupied : List Bool)
      → Every (IsStack catalog character level) items
      → taken_slots items occupied ≡ returns (marked 0 items occupied)
  unfolding marked Every taken_slots
  taken_slots-marked [] occupied h = refl
  taken_slots-marked (a ∷ items) occupied h =
      let inside : ltb a.slot tab_capacity ≡ true = ground (arith, h.0.in_tab) in
      elim (Bool-cases (a.container == 0)) [
        | inl same ↦ rw (same, inside) (taken_slots-marked items (set occupied a.slot true) h.1)
        | inr other ↦ rw other (taken_slots-marked items occupied h.1)
      ]
