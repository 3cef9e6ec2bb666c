-- ===== src/Common/Text.antt =====
-- A string as the list of its bytes: equality, and the lexicographic order of `std::string`.
use mathlib.Core.Logic.{◌↔◌}
use action_rpgserver.Common.{
  ℕ, List, ◌≡◌, Eq, Bool, true, false, ◌∷◌, ltb, ◌||◌, ◌==◌, ◌&&◌, [], arith,
}

abbrev pub Text : Type 0
Text = List ℕ

abbrev pub text_beq : Text → Text → Bool
text_beq [] [] = true
text_beq [] (b ∷ ys) = false
text_beq (a ∷ xs) [] = false
text_beq (a ∷ xs) (b ∷ ys) = (a == b) && text_beq xs ys

pub text_beq_iff : (s t : Text) → (text_beq s t ≡ true) ↔ (s ≡ t)
text_beq_iff [] [] = ground arith
text_beq_iff [] (b ∷ ys) = ground arith
text_beq_iff (a ∷ xs) [] = ground arith
text_beq_iff (a ∷ xs) (b ∷ ys) = ground (arith, text_beq_iff xs ys)

instance abbrev pub text_eq : Eq Text
text_eq = record { beq = text_beq; beq_iff = text_beq_iff }

abbrev pub text_less : Text → Text → Bool
text_less s [] = false
text_less [] (b ∷ ys) = true
text_less (a ∷ xs) (b ∷ ys) = ltb a b || ((a == b) && text_less xs ys)
