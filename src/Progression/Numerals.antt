-- ===== src/Progression/Numerals.antt =====
-- `ExperienceValue` of Shared/CharacterProgression.h reads what `std::to_string` writes of an experience.
use action_rpgserver.Common.{
  zero, suc, none, some, [], ◌∷◌, true, false, inl, inr, refl, List, Option, ℕ, ◌*◌, Bool,
  if◌then◌else◌, ◌<◌, leb, ◌+◌, length, ◌^◌, ◌&&◌, ◌-◌, ◌==◌, ◌≡◌, ltb, ◌||◌, arith, not,
  Bool-cases, ◌/◌, ◌≤◌, ◌%◌, ◌∙◌,
}
use action_rpgserver.Common.Outcome.{Outcome, returns, throws}
use action_rpgserver.Common.Decimal.{to_string, digits_onto}

abbrev pub is_digit : ℕ → Bool
is_digit c = leb 48 c && leb c 57

-- std::from_chars of a 64-bit number, up to the end of the text; `none` where it stops before, or overflows.
unfoldable pub from_chars : List ℕ → ℕ → Option ℕ
from_chars [] value = some value
from_chars (c ∷ cs) value =
    let rest = from_chars cs (value * 10 + (c - 48)) in
    if is_digit c && ltb (value * 10 + (c - 48)) (2 ^ 64) then rest else none

-- Not empty, and no zero in front of other digits; a text that starts with a sign does not start with a digit.
abbrev pub is_numeral : List ℕ → Bool
is_numeral [] = false
is_numeral (c ∷ cs) = (length cs == 0 || not (c == 48)) && is_digit c

-- A JSON value that is no string is `none`.
unfoldable pub experience_value : Option (List ℕ) → Outcome ℕ
experience_value none = throws
experience_value (some text) = elim (from_chars text 0) [
  | none ↦ throws
  | some value ↦ if is_numeral text then returns value else throws
]

last_digit : (n : ℕ) (acc : List ℕ) → n < 10 → from_chars ((48 + n) ∷ acc) 0 ≡ from_chars acc n
unfolding from_chars
last_digit n acc one =
    let good : (is_digit (48 + n) && ltb (0 * 10 + (48 + n - 48)) (2 ^ 64)) ≡ true = ground arith in
    let same : 0 * 10 + (48 + n - 48) ≡ n = omega arith in rw good (rw same refl)

from_chars-digits_onto :
    (f n : ℕ) (acc : List ℕ)
    → n < 10 ^ suc f
    → n < 2 ^ 64
    → from_chars (digits_onto (suc f) n acc) 0 ≡ from_chars acc n
unfolding from_chars digits_onto
from_chars-digits_onto zero n acc few small =
    let one : n < 10 = ground arith in
    let yes' : ltb n 10 ≡ true = ground arith in rw yes' (last_digit n acc one)
from_chars-digits_onto (suc f) n acc few small = elim (Bool-cases (ltb n 10)) [
  | inl yes' ↦ rw yes' (last_digit n acc (ground arith))
  | inr no' ↦
      let power : 10 ^ suc (suc f) ≡ 10 * 10 ^ suc f = grind arith in
      let less : n / 10 < 10 ^ suc f = omega (arith, power) in
      let later = from_chars-digits_onto f (n / 10) ((48 + n % 10) ∷ acc) less (omega arith) in
      let good : (is_digit (48 + n % 10) && ltb (n / 10 * 10 + (48 + n % 10 - 48)) (2 ^ 64))
          ≡ true =
        ground arith in
      let same : n / 10 * 10 + (48 + n % 10 - 48) ≡ n = omega arith in
      rw no' (later ∙ rw good (rw same refl))
]

is_numeral-digits_onto :
    (f n : ℕ) (acc : List ℕ)
    → 0 < n
    → n < 10 ^ suc f
    → is_numeral (digits_onto (suc f) n acc) ≡ true
unfolding digits_onto
is_numeral-digits_onto zero n acc pos few =
    let one : n < 10 = ground arith in
    let yes' : ltb n 10 ≡ true = ground arith in rw yes' (ground arith)
is_numeral-digits_onto (suc f) n acc pos few = elim (Bool-cases (ltb n 10)) [
  | inl yes' ↦ (let one : n < 10 = ground arith in rw yes' (ground arith))
  | inr no' ↦
      let power : 10 ^ suc (suc f) ≡ 10 * 10 ^ suc f = grind arith in
      let ten : 10 ≤ n = ground arith in
      rw no' (
        is_numeral-digits_onto f (n / 10) ((48 + n % 10) ∷ acc) (omega (arith, ten))
          (omega (arith, power)))
]

is_numeral-to_string : (n : ℕ) → n < 2 ^ 64 → is_numeral (to_string n) ≡ true
unfolding to_string digits_onto
is_numeral-to_string zero small = refl
is_numeral-to_string (suc n) small =
    is_numeral-digits_onto 19 (suc n) [] (omega arith) (omega arith)

from_chars-to_string : (n : ℕ) → n < 2 ^ 64 → from_chars (to_string n) 0 ≡ some n
unfolding to_string from_chars
from_chars-to_string n small = from_chars-digits_onto 19 n [] (omega arith) small

-- Every experience, a 64-bit number, is read back from its decimal text.
pub experience_value-to_string :
    (n : ℕ) → n < 2 ^ 64 → experience_value (some (to_string n)) ≡ returns n
unfolding experience_value
experience_value-to_string n small =
    rw (from_chars-to_string n small, is_numeral-to_string n small, experience_value) refl
