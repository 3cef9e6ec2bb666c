-- ===== src/SkillTree/Tests.antt =====
-- A tree of two skills: the second rank of a slash, and what it opens.
use action_rpgserver.Common.{
  none, some, [], ◌∷◌, refl, string_eq, ◌≡◌, String, min, if◌then◌else◌, arith, ◌+◌, ◌-◌, ◌*◌, ◌≤◌,
}
use action_rpgserver.Common.Text.{text_eq}
use action_rpgserver.Common.Outcome.{returns}
use action_rpgserver.Progression.{CharacterProgression, get_skill_level, u32_max}
use action_rpgserver.SkillTree.{
  SkillTreeCatalog, SkillCatalog, Node, learn, can_learn, succeeded, prerequisite,
  stale_skill_level, level_for, damage_of, validate_progression, character_name, validate_skills,
}
use action_rpgserver.SkillTree.Bounds.{level_for_lem}
use action_rpgserver.Common.Map.{find, put}
use action_rpgserver.Common.Decimal.{to_string, digits_onto}
use action_rpgserver.SkillTree.Learns.{learn-learn, learn_lem}
use action_rpgserver.SkillTree.Valid.{validate_progression-learn}

abbrev slash : Node
slash = record {
  required_level = 1;
  sp_cost = 2;
  max_skill_level = none;
  prerequisites = [];
  damage_per_level = 5;
}

abbrev burst : Node
burst = record {
  required_level = 4;
  sp_cost = 3;
  max_skill_level = some 1;
  prerequisites = ("slash", 2) ∷ [];
  damage_per_level = 0;
}

abbrev two_skills : SkillTreeCatalog
two_skills = record { nodes = ("slash", slash) ∷ ("burst", burst) ∷ []; skill_level_interval = 3 }

abbrev known_skills : SkillCatalog
known_skills = record {
  skills =
      ("slash", record { character = character_name 1; damage = some 20 })
      ∷ ("burst", record { character = character_name 1; damage = none })
      ∷ [];
  character_ids = (character_name 1, 1) ∷ [];
}

abbrev beginner : CharacterProgression
beginner = record { level = 4; skill_points = 5; skill_levels = ("slash", 1) ∷ []; experience = 0 }

abbrev trained : CharacterProgression
trained = record { level = 4; skill_points = 3; skill_levels = ("slash", 2) ∷ []; experience = 0 }

learns : learn two_skills known_skills beginner 1 "slash" 1 ≡ returns (trained, succeeded)
unfolding learn can_learn level_for get_skill_level find put to_string digits_onto
learns = refl

too_early : learn two_skills known_skills beginner 1 "burst" 0 ≡ returns (beginner, prerequisite)
unfolding learn can_learn level_for get_skill_level find put to_string digits_onto
too_early = refl

damages : damage_of two_skills known_skills "slash" 3 ≡ returns 30
unfolding damage_of find
damages = refl

validates : validate_progression two_skills known_skills beginner 1 ≡ returns tt
unfolding validate_progression validate_skills level_for get_skill_level find to_string digits_onto
validates = refl

slash_known : find "slash" two_skills.nodes ≡ some slash
unfolding find
slash_known = refl

learn_lem_example :
    (get_skill_level beginner "slash" ≡ 1)
    × ((j : String)
        → get_skill_level trained j
          ≡ (if string_eq.beq "slash" j then 1 + 1 else get_skill_level beginner j))
    × (trained.skill_points + slash.sp_cost ≡ beginner.skill_points)
    × (trained.level ≡ beginner.level)
    × (trained.experience ≡ beginner.experience)
learn_lem_example =
    learn_lem two_skills known_skills beginner 1 "slash" 1 (omega arith) trained slash learns
      slash_known

learn-learn_example :
    learn two_skills known_skills trained 1 "slash" 1 ≡ returns (trained, stale_skill_level)
learn-learn_example =
    learn-learn two_skills known_skills beginner 1 "slash" 1 (omega arith) trained learns

validate_progression-learn_example :
    validate_progression two_skills known_skills trained 1 ≡ returns tt
validate_progression-learn_example =
    validate_progression-learn two_skills known_skills beginner trained 1 "slash" 1 (omega arith)
      validates learns

level_for_lem_example :
    (level_for two_skills burst 1
      ≡ min (burst.required_level + (1 - 1) * two_skills.skill_level_interval) u32_max)
    × (level_for two_skills burst 1 ≤ level_for two_skills burst 2)
level_for_lem_example =
    level_for_lem two_skills burst
      (record { level_fits = omega arith; interval_fits = omega arith }) 1 2 (omega arith)
      (omega arith) (omega arith)
