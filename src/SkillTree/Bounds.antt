-- ===== src/SkillTree/Bounds.antt =====
-- `RequiredLevel` of Shared/SkillTreeCatalog.h in 32 and 64 bits.
use native.Mathlib.Nat.{mul-le-mul}
use action_rpgserver.Common.{refl, ◌≤◌, ℕ, ◌<◌, ◌^◌, ◌≡◌, min, ◌+◌, ◌-◌, ◌*◌, ◌%◌, arith}
use action_rpgserver.Progression.{u32_max}
use action_rpgserver.SkillTree.{SkillTreeCatalog, Node, level_for}

-- What `SkillTreeCatalog::Parse` checks of the numbers that the level is made of.
pub record IsNode (tree : SkillTreeCatalog) (node : Node) : Type 0 where
  pub level_fits : node.required_level ≤ 1_000_000
  pub interval_fits : tree.skill_level_interval ≤ 1_000_000

module _ (tree : SkillTreeCatalog) (node : Node) (w : IsNode tree node) where
  level_for-exact :
      (rank : ℕ)
      → 0 < rank
      → rank < 2 ^ 32
      → level_for tree node rank
        ≡ min (node.required_level + (rank - 1) * tree.skill_level_interval) u32_max
  unfolding level_for
  level_for-exact rank pos small =
      let before : (rank + 2 ^ 32 - 1) % 2 ^ 32 ≡ rank - 1 = omega arith in
      let few =
        mul-le-mul {n₁ = rank - 1} {m₁ = tree.skill_level_interval} {n₂ = 2 ^ 32} {m₂ = 1_000_000}
          (omega arith) w.interval_fits in
      let fits : (node.required_level + (rank - 1) * tree.skill_level_interval) % 2 ^ 64
          ≡ node.required_level + (rank - 1) * tree.skill_level_interval =
        omega (arith, few, w.level_fits) in
      rw (before, fits) refl

  -- For a node within the bounds that `Parse` checks, and ranks from 1 on in 32 bits: the sum in 64 bits does not
  -- wrap around, so that the level is the node's own and the interval for each rank above the first, at most the
  -- largest 32-bit number; and a higher rank asks for no lower level.
  pub level_for_lem :
      (rank later : ℕ)
      → 0 < rank
      → rank ≤ later
      → later < 2 ^ 32
      → (level_for tree node rank
          ≡ min (node.required_level + (rank - 1) * tree.skill_level_interval) u32_max)
        × (level_for tree node rank ≤ level_for tree node later)
  level_for_lem rank later pos le small =
      let one = level_for-exact rank pos (omega arith) in
      let two = level_for-exact later (omega arith) small in
      let more =
        mul-le-mul {n₁ = rank - 1} {m₁ = tree.skill_level_interval} {n₂ = later - 1}
          {m₂ = tree.skill_level_interval} (omega arith) (omega arith) in
      (one, omega (arith, one, two, more))
