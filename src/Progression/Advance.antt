-- ===== src/Progression/Advance.antt =====
-- `AdvanceLevel` of Shared/CharacterProgression.h.
use native.Mathlib.Nat.{mul-le-mul}
use action_rpgserver.Common.{
  ℕ, ◌+◌, if◌then◌else◌, ◌<◌, ◌-◌, ◌==◌, ◌≤◌, ◌^◌, ◌*◌, ◌≡◌, arith, ltb, ◌&&◌, leb, true, false,
  ◌%◌, if-cases, Bool,
}
use action_rpgserver.Progression.{
  ProgressionPolicy, CharacterProgression, advance_level, max_character_level, u32_max,
}
use action_rpgserver.Progression.Climb.{IsPolicy}
use action_rpgserver.Progression.Awards.{IsCharacter}

module _ {policy : ProgressionPolicy} {p : CharacterProgression} (v : IsPolicy policy)
    (c : IsCharacter policy p) (level : ℕ) where
  abbrev rewarded : ℕ
  rewarded = p.skill_points + (level - p.level) * policy.skill_points_per_level

  abbrev advanced : CharacterProgression
  advanced = record p {
    level = level;
    skill_points = rewarded;
    experience = if level == max_character_level then 0 else p.experience;
  }

  -- No wrap-around: the three tests, on exact sums.
  advance_level-exact :
      level < 2 ^ 32
      → advance_level policy p level ≡ (
          if ltb p.level level && leb level max_character_level && leb rewarded u32_max
          then (advanced, true)
          else (p, false))
  unfolding advance_level
  advance_level-exact small =
      let few =
        mul-le-mul {n₁ = level - p.level} {m₁ = policy.skill_points_per_level} {n₂ = 2 ^ 32}
          {m₂ = 1_000_000} (omega arith) v.points_fit in
      let unwrapped : (p.skill_points + (level - p.level) * policy.skill_points_per_level % 2 ^ 64)
            % 2 ^ 64
          ≡ rewarded =
        omega (arith, few, c.points) in
      rw unwrapped (ground arith)

  -- A level up keeps the balance, and a later level costs no less.
  advanced-IsCharacter :
      p.level < level
      → level ≤ max_character_level
      → rewarded < 2 ^ 32
      → IsCharacter policy advanced
  advanced-IsCharacter up low few = record {
    begun = omega arith;
    bounded = low;
    points = few;
    at_cap = λ h. ground arith;
    below_cap = λ h.
        let dearer =
          mul-le-mul {n₁ = p.level - 1} {m₁ = policy.experience_per_level} {n₂ = level - 1}
            {m₂ = policy.experience_per_level} (omega arith) (omega arith) in
        ground (arith, dearer, c.below_cap (omega arith));
  }

  -- For a policy within the bounds of `Load` and a character within those of `IsCharacter`,
  -- advancing to a 32-bit level succeeds exactly when the level is above the present one, within
  -- the cap, and the skill points with the reward of each level gained fit in 32 bits; then the
  -- character has that level and those points, and at the cap no experience; otherwise nothing
  -- changes. Either way the character satisfies `IsCharacter`.
  pub advance_level_lem :
      level < 2 ^ 32
      → (advance_level policy p level ≡ (
          if ltb p.level level && leb level max_character_level && leb rewarded u32_max
          then (advanced, true)
          else (p, false)))
        × IsCharacter policy (advance_level policy p level).0
  advance_level_lem small = (
    advance_level-exact small,
    rw (advance_level-exact small) (
        if-cases (λ (r : CharacterProgression × Bool). IsCharacter policy r.0)
          (ltb p.level level && leb level max_character_level && leb rewarded u32_max)
          (λ h. advanced-IsCharacter (ground arith) (ground arith) (ground arith)) (λ _. c)),
  )
