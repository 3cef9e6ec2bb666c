-- ===== src/Progression.antt =====
-- Shared/CharacterProgression.h: a character's level, skill points and experience, and the policy by
-- which it gains them. Levels and skill points are 32-bit numbers and experience is a 64-bit number;
-- every wrap-around is written out. A failed `Require` throws. The JSON readers and writers of the
-- header stand outside this file.
pub mod Costs
pub mod Search
pub mod Climb
pub mod Experience
pub mod Awards
pub mod Splits
pub mod Advance
pub mod Numerals
mod Tests
use action_rpgserver.Common.{
  string_eq, ℕ, ◌^◌, String, [], Option, Bool, ◌-◌, ◌*◌, ◌+◌, if◌then◌else◌, suc, leb, ◌/◌, ◌%◌,
  ◌==◌, ◌&&◌, ◌||◌, some, ltb, true, false, none, zero, not,
}
use action_rpgserver.Common.Map.{Map, find, is_some}
use action_rpgserver.Common.Outcome.{Outcome, ◌>>=◌, returns, throws}

abbrev pub max_character_level : ℕ
max_character_level = 1_000_000

abbrev pub u32_max : ℕ
u32_max = 2 ^ 32 - 1

abbrev pub u64_max : ℕ
u64_max = 2 ^ 64 - 1

-- Subtraction of 64-bit numbers.
abbrev pub sub64 : ℕ → ℕ → ℕ
sub64 a b = (a + 2 ^ 64 - b) % 2 ^ 64

pub record CharacterProgression : Type 0 where
  pub level : ℕ
  pub skill_points : ℕ
  pub skill_levels : Map String ℕ
  pub experience : ℕ

pub record ProgressionPolicy : Type 0 where
  pub initial_level : ℕ
  pub initial_skill_points : ℕ
  pub skill_points_per_level : ℕ
  pub experience_base : ℕ
  pub experience_per_level : ℕ

unfoldable pub get_skill_level : CharacterProgression → String → ℕ
get_skill_level p id = elim (find id p.skill_levels) [ none ↦ 0 | some rank ↦ rank ]

-- `ProgressionPolicy::Create`.
pub new_progression : ProgressionPolicy → CharacterProgression
new_progression policy = record {
  level = policy.initial_level;
  skill_points = policy.initial_skill_points;
  skill_levels = [];
  experience = 0;
}

pub required_experience : ProgressionPolicy → ℕ → Outcome ℕ
required_experience policy level =
    if leb 1 level && leb level max_character_level
    then returns (
        if level == max_character_level
        then 0
        else (policy.experience_base + (level - 1) * policy.experience_per_level % 2 ^ 64) % 2 ^ 64)
    else throws

pub normalized : ProgressionPolicy → CharacterProgression → Outcome Bool
normalized policy p =
    if p.level == max_character_level
    then returns (p.experience == 0)
    else (required_experience policy p.level >>= λ needed. returns (ltb p.experience needed))

pub advance_level : ProgressionPolicy → CharacterProgression → ℕ → CharacterProgression × Bool
advance_level policy p level =
    let reward = (level - p.level) * policy.skill_points_per_level % 2 ^ 64 in
    let points = (p.skill_points + reward) % 2 ^ 64 in
    if leb level p.level || ltb max_character_level level
    then (p, false)
    else if ltb u32_max points
    then (p, false)
    else (
      record p {
        level = level;
        skill_points = points;
        experience = if level == max_character_level then 0 else p.experience;
      },
      true,
    )

-- The λ `cost` of `AddExperience`: what `count` levels cost from one whose next level costs `first`,
-- or `none` when the balance `available` does not pay for them.
pub cost : ℕ → ℕ → ℕ → ℕ → Option ℕ
cost first per_level available count =
    let paid = first * count % 2 ^ 64 in
    let triangle = count * (count - 1) % 2 ^ 64 / 2 in
    if count == 0
    then some 0
    else if ltb (available / count) first
    then none
    else if not (triangle == 0) && ltb (sub64 available paid / triangle) per_level
    then none
    else some ((paid + triangle * per_level % 2 ^ 64) % 2 ^ 64)

-- The loop of the binary search over the levels gained. Twenty rounds are enough for a million levels.
pub search_levels : (ℕ → Bool) → ℕ → ℕ → ℕ → ℕ
search_levels affordable zero low high = low
search_levels affordable (suc rounds) low high =
    let middle = low + (high - low + 1) / 2 in
    elim (ltb low high) [
      | true ↦ elim (affordable middle) [
        | true ↦ search_levels affordable rounds middle high
        | false ↦ search_levels affordable rounds low (middle - 1)
      ]
      | false ↦ low
    ]

-- The end of `AddExperience`: the award of the levels that the search has found.
pub award : ProgressionPolicy → CharacterProgression → ℕ → ℕ → ℕ → CharacterProgression × Bool
award policy p first available gained =
    let points = (p.skill_points + gained * policy.skill_points_per_level % 2 ^ 64) % 2 ^ 64 in
    let level = (p.level + gained) % 2 ^ 32 in
    if ltb u32_max points
    then (p, false)
    else elim (cost first policy.experience_per_level available gained) [
      | none ↦ (p, false)
      | some spent ↦ (
        record p {
          level = level;
          skill_points = points;
          experience = if level == max_character_level then 0 else sub64 available spent;
        },
        true,
      )
    ]

-- `AddExperience` once the progression is known to be normalized.
pub add_normalized :
    ProgressionPolicy → CharacterProgression → ℕ → Outcome (CharacterProgression × Bool)
add_normalized policy p amount =
    if p.level == max_character_level
    then returns (p, true)
    else if ltb (u64_max - p.experience) amount
    then returns (p, false)
    else (required_experience policy p.level >>= λ first.
        let available = (p.experience + amount) % 2 ^ 64 in
        let affordable = λ (n : ℕ). is_some (cost first policy.experience_per_level available n) in
        returns (
          award policy p first available
            (search_levels affordable 20 0 (max_character_level - p.level))))

pub add_experience :
    ProgressionPolicy → CharacterProgression → ℕ → Outcome (CharacterProgression × Bool)
add_experience policy p amount =
    normalized policy p >>= λ ok. if ok then add_normalized policy p amount else returns (p, false)
