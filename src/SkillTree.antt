-- ===== src/SkillTree.antt =====
-- Shared/SkillTreeCatalog.h: what a skill costs and asks for, and what a character learns. `at` of a missing
-- key throws. Of the JSON of a node and of a skill, the fields that the methods read, with the types that
-- `Parse` leaves them with; a null `maxSkillLevel` and a missing `damage` are `none`.
pub mod Learns
pub mod Valid
pub mod Bounds
mod Tests
use action_rpgserver.Common.{
  ℕ, ◌+◌, ◌-◌, ◌*◌, ◌%◌, ◌^◌, min, Bool, true, false, not, ◌&&◌, ◌||◌, Option, none, some, List, [],
  ◌∷◌, ◌++◌, ◌==◌, ltb, leb, if◌then◌else◌, String, string_eq,
}
use action_rpgserver.Common.Map.{Map, find, put, contains}
use action_rpgserver.Common.Text.{Text, text_eq}
use action_rpgserver.Common.Outcome.{Outcome, returns, throws, ◌>>=◌}
use action_rpgserver.Common.Decimal.{to_string}
use action_rpgserver.Progression.{CharacterProgression, get_skill_level, u32_max}

pub record Node : Type 0 where
  pub required_level : ℕ
  pub sp_cost : ℕ
  pub max_skill_level : Option ℕ
  pub prerequisites : List (String × ℕ)
  pub damage_per_level : ℕ

-- A skill of `PlayerSkills::Catalog`.
pub record Skill : Type 0 where
  pub character : Text
  pub damage : Option ℕ

pub record SkillCatalog : Type 0 where
  pub skills : Map String Skill
  pub character_ids : Map Text ℕ

pub record SkillTreeCatalog : Type 0 where
  pub nodes : Map String Node
  pub skill_level_interval : ℕ

pub data LearnStatus : Type 0 where
  unknown_skill wrong_character stale_skill_level maximum_skill_level required_level : LearnStatus
  prerequisite insufficient_sp succeeded : LearnStatus

-- std::unordered_map::at
abbrev pub must {ℓ} : {A : Type ℓ} → Option A → Outcome A
must none = throws
must (some a) = returns a

unfoldable pub level_for : SkillTreeCatalog → Node → ℕ → ℕ
level_for tree node skill_level =
    min
      ((node.required_level + (skill_level + 2 ^ 32 - 1) % 2 ^ 32 * tree.skill_level_interval)
        % 2 ^ 64)
      u32_max

unfoldable pub required_level_of : SkillTreeCatalog → String → ℕ → Outcome ℕ
required_level_of tree id skill_level = do
  node ← must (find id tree.nodes)
  returns (level_for tree node skill_level)

unfoldable pub damage_of : SkillTreeCatalog → SkillCatalog → String → ℕ → Outcome ℕ
damage_of tree catalog id skill_level = do
  skill ← must (find id catalog.skills)
  elim skill.damage [
    | none ↦ returns 0
    | some base ↦ if skill_level == 0 then returns 0 else do
      node ← must (find id tree.nodes)
      returns (
          min ((base + (skill_level + 2 ^ 32 - 1) % 2 ^ 32 * node.damage_per_level) % 2 ^ 64)
            u32_max)
  ]

-- A prerequisite that the character has not reached.
abbrev pub unmet : CharacterProgression → List (String × ℕ) → Bool
unmet p [] = false
unmet p ((id, rank) ∷ rest) = ltb (get_skill_level p id) rank || unmet p rest

-- A maximum that is not null, and that a rank reaches.
abbrev pub reaches : Option ℕ → ℕ → Bool
reaches none rank = false
reaches (some most) rank = leb most rank

unfoldable pub can_learn :
    SkillTreeCatalog → SkillCatalog → CharacterProgression → ℕ → String → ℕ → Outcome LearnStatus
can_learn tree catalog p character id expected = elim (find id tree.nodes) [
  | none ↦ returns unknown_skill
  | some node ↦ do
    skill ← must (find id catalog.skills)
    owner ← must (find skill.character catalog.character_ids)
    returns (
        let current = get_skill_level p id in
        if not (owner == character)
        then wrong_character
        else if not (current == expected)
        then stale_skill_level
        else if leb 1_000_000 current || reaches node.max_skill_level current
        then maximum_skill_level
        else if ltb p.level (level_for tree node (current + 1))
        then required_level
        else if unmet p node.prerequisites
        then prerequisite
        else if ltb p.skill_points node.sp_cost
        then insufficient_sp
        else succeeded)
]

abbrev pub is_success : LearnStatus → Bool
is_success unknown_skill = false
is_success wrong_character = false
is_success stale_skill_level = false
is_success maximum_skill_level = false
is_success required_level = false
is_success prerequisite = false
is_success insufficient_sp = false
is_success succeeded = true

unfoldable pub learn :
    SkillTreeCatalog
    → SkillCatalog
    → CharacterProgression
    → ℕ
    → String
    → ℕ
    → Outcome (CharacterProgression × LearnStatus)
learn tree catalog p character id expected = do
  result ← can_learn tree catalog p character id expected
  if not (is_success result) then returns (p, result) else do
    node ← must (find id tree.nodes)
    returns (
      record p {
        skill_levels = put id ((expected + 1) % 2 ^ 32) p.skill_levels;
        skill_points = (p.skill_points + 2 ^ 32 - node.sp_cost) % 2 ^ 32;
      },
      result,
    )

-- A failed `Require` throws.
abbrev pub require : Bool → Outcome {0} Unit
require true = returns tt
require false = throws

abbrev pub exceeds : Option ℕ → ℕ → Bool
exceeds none rank = false
exceeds (some most) rank = ltb most rank

-- The loop of `ValidateProgression`.
unfoldable pub validate_skills :
    SkillTreeCatalog → SkillCatalog → CharacterProgression → ℕ → Map String ℕ → Outcome {0} Unit
validate_skills tree catalog p character [] = returns tt
validate_skills tree catalog p character ((id, rank) ∷ rest) = do
  node ← must (find id tree.nodes)
  skill ← must (find id catalog.skills)
  owner ← must (find skill.character catalog.character_ids)
  _ ← require ((owner == character) && leb (level_for tree node rank) p.level)
  _ ← require (not (exceeds node.max_skill_level rank))
  _ ← require (not (unmet p node.prerequisites))
  validate_skills tree catalog p character rest

-- "Character" and the number.
abbrev pub character_name : ℕ → Text
character_name character =
    (67 ∷ 104 ∷ 97 ∷ 114 ∷ 97 ∷ 99 ∷ 116 ∷ 101 ∷ 114 ∷ []) ++ to_string character

unfoldable pub validate_progression :
    SkillTreeCatalog → SkillCatalog → CharacterProgression → ℕ → Outcome {0} Unit
validate_progression tree catalog p character = do
  _ ← require (contains (character_name character) catalog.character_ids)
  validate_skills tree catalog p character p.skill_levels
