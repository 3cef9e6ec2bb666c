-- ===== src/Progression/Tests.antt =====
-- A character that passes its last two levels.
use action_rpgserver.Common.{arith, [], ◌≡◌, true, refl, ◌+◌, some, ◌∷◌}
use action_rpgserver.Progression.{
  ProgressionPolicy, CharacterProgression, add_experience, new_progression, normalized,
  add_normalized, required_experience, search_levels, award, cost, advance_level,
}
use action_rpgserver.Progression.Climb.{IsPolicy, climb}
use action_rpgserver.Common.Outcome.{returns, Returns, throws}
use action_rpgserver.Progression.Experience.{add_experience-climb}
use action_rpgserver.Progression.Awards.{IsCharacter, add_experience-IsCharacter}
use action_rpgserver.Progression.Splits.{add_experience-split}
use action_rpgserver.Progression.Advance.{advance_level_lem}
use action_rpgserver.Progression.Numerals.{experience_value, from_chars, experience_value-to_string}
use action_rpgserver.Common.Decimal.{to_string, digits_onto}

abbrev policy : ProgressionPolicy
policy = record {
  initial_level = 1;
  initial_skill_points = 1;
  skill_points_per_level = 2;
  experience_base = 100;
  experience_per_level = 50;
}

policy-IsPolicy : IsPolicy policy
policy-IsPolicy = record {
  positive = omega arith;
  base_fits = omega arith;
  curve_fits = omega arith;
  points_fit = omega arith;
}

abbrev veteran : CharacterProgression
veteran = record { level = 999_998; skill_points = 5; skill_levels = []; experience = 10 }

add_experience-climb_example :
    add_experience policy veteran 99_999_950
    ≡ returns (record veteran { level = 1_000_000; skill_points = 9; experience = 0 }, true)
unfolding climb
add_experience-climb_example =
    add_experience-climb policy veteran 99_999_950 policy-IsPolicy (omega arith) (omega arith)
      (omega arith) (omega arith) (omega arith)

-- From level 1: 100 for the second level, 150 for the third, and 10 are left.
abbrev novice : CharacterProgression
novice = new_progression policy

two_levels :
    add_experience policy novice 260
    ≡ returns (record novice { level = 3; skill_points = 5; experience = 10 }, true)
unfolding add_experience normalized add_normalized required_experience new_progression search_levels
    award cost
two_levels = refl

veteran-IsCharacter : IsCharacter policy veteran
veteran-IsCharacter = record {
  begun = omega arith;
  bounded = omega arith;
  points = omega arith;
  at_cap = λ h. absurd (omega arith);
  below_cap = λ h. omega arith;
}

add_experience-IsCharacter_example :
    Returns (λ r. IsCharacter policy r.0) (add_experience policy veteran 60_000_000)
add_experience-IsCharacter_example =
    add_experience-IsCharacter policy veteran 60_000_000 policy-IsPolicy veteran-IsCharacter

abbrev capped : CharacterProgression
capped = record veteran { level = 1_000_000; skill_points = 9; experience = 0 }

whole : add_experience policy veteran (60_000_000 + 39_999_950) ≡ returns (capped, true)
unfolding climb
whole =
    add_experience-climb policy veteran 99_999_950 policy-IsPolicy (omega arith) (omega arith)
      (omega arith) (omega arith) (omega arith)

add_experience-split_example :
    (middle : CharacterProgression) × (add_experience policy veteran 60_000_000
      ≡ returns (middle, true))
    × (add_experience policy middle 39_999_950 ≡ returns (capped, true))
add_experience-split_example =
    add_experience-split policy veteran capped 60_000_000 39_999_950 policy-IsPolicy
      veteran-IsCharacter whole

advance_level_lem_example :
    (advance_level policy veteran 1_000_000 ≡ (capped, true))
    × IsCharacter policy (advance_level policy veteran 1_000_000).0
advance_level_lem_example =
    advance_level_lem policy-IsPolicy veteran-IsCharacter 1_000_000 (omega arith)

experience_value-to_string_example :
    experience_value (some (to_string 18_446_744_073_709_551_615))
    ≡ returns 18_446_744_073_709_551_615
experience_value-to_string_example =
    experience_value-to_string 18_446_744_073_709_551_615 (omega arith)

-- No leading zero, no number beyond 64 bits, no other text.
refuses_zeros : experience_value (some (48 ∷ 49 ∷ [])) ≡ throws
unfolding experience_value from_chars
refuses_zeros = refl

refuses_overflow : experience_value (some (to_string 18_446_744_073_709_551_616)) ≡ throws
unfolding experience_value from_chars to_string digits_onto
refuses_overflow = refl
