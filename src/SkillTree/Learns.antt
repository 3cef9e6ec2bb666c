-- ===== src/SkillTree/Learns.antt =====
-- What `CanLearn` and `Learn` of Shared/SkillTreeCatalog.h ask for and do.
use action_rpgserver.Common.{
  none, some, some, false, inl, inr, string_eq, ℕ, String, ◌≡◌, ◌<◌, Option-cases, ◌+◌, arith, ◌≤◌,
  sym, if◌then◌else◌, ◌^◌, ◌-◌, true, if-cases, refl, Option, Bool-cases, ◌∙◌, ap, ◌==◌, ◌%◌,
}
use action_rpgserver.Common.Text.{text_eq}
use action_rpgserver.Common.Outcome.{returns, bind-returns, ◌>>=◌}
use action_rpgserver.Progression.{CharacterProgression, get_skill_level}
use action_rpgserver.SkillTree.{
  SkillTreeCatalog, SkillCatalog, Node, Skill, can_learn, succeeded, level_for, unmet, reaches,
  LearnStatus, is_success, learn, stale_skill_level, unknown_skill, wrong_character,
  maximum_skill_level, required_level, prerequisite, insufficient_sp,
}
use action_rpgserver.Common.Map.{find, put, find-put}

-- What a success of `CanLearn` says.
pub record IsLearnable (tree : SkillTreeCatalog) (catalog : SkillCatalog) (p : CharacterProgression)
    (character : ℕ) (id : String) (expected : ℕ) : Type 0 where
  pub node : Node
  pub skill : Skill
  pub in_tree : find id tree.nodes ≡ some node
  pub known : find id catalog.skills ≡ some skill
  pub owned : find skill.character catalog.character_ids ≡ some character
  pub fresh : get_skill_level p id ≡ expected
  pub bounded : expected < 1_000_000
  pub rising : reaches node.max_skill_level expected ≡ false
  pub level_reached : level_for tree node (expected + 1) ≤ p.level
  pub prerequisites_met : unmet p node.prerequisites ≡ false
  pub affordable : node.sp_cost ≤ p.skill_points

module _ (tree : SkillTreeCatalog) (catalog : SkillCatalog) (p : CharacterProgression)
    (character : ℕ) (id : String) (expected : ℕ) where
  can_learn-IsLearnable :
      can_learn tree catalog p character id expected ≡ returns succeeded
      → IsLearnable tree catalog p character id expected
  unfolding can_learn
  can_learn-IsLearnable h = elim (Option-cases (find id tree.nodes)) [
    | inl none' ↦ absurd (let q = (rw (none', can_learn) at h) in cc)
    | inr (node, in_tree) ↦ elim (Option-cases (find id catalog.skills)) [
      | inl none' ↦ absurd (let q = (rw (in_tree, can_learn, none') at h) in cc)
      | inr (skill, known) ↦ elim (Option-cases (find skill.character catalog.character_ids)) [
        | inl none' ↦ absurd (let q = (rw (in_tree, can_learn, known, none') at h) in cc)
        | inr (owner, owned) ↦
            let q = (rw (in_tree, can_learn, known, owned) at h) in
            let same : owner ≡ character = ground arith in
            record {
              node = node;
              skill = skill;
              in_tree = in_tree;
              known = known;
              owned = rw (sym same) owned;
              fresh = ground arith;
              bounded = ground arith;
              rising = ground arith;
              level_reached = ground arith;
              prerequisites_met = ground arith;
              affordable = ground arith;
            }
      ]
    ]
  ]

-- The character after the purchase of a rank.
abbrev pub bought : CharacterProgression → Node → String → ℕ → CharacterProgression
bought p node id expected = record p {
  skill_levels = put id (expected + 1) p.skill_levels;
  skill_points = p.skill_points - node.sp_cost;
}

match_success : (result : LearnStatus) → is_success result ≡ true → result ≡ succeeded
match_success unknown_skill h = cc
match_success wrong_character h = cc
match_success stale_skill_level h = cc
match_success maximum_skill_level h = cc
match_success required_level h = cc
match_success prerequisite h = cc
match_success insufficient_sp h = cc
match_success succeeded h = refl

pub rank_bought :
    (p : CharacterProgression) (node : Node) (id : String) (expected : ℕ) (j : String)
    → get_skill_level (bought p node id expected) j
      ≡ (if string_eq.beq id j then expected + 1 else get_skill_level p j)
unfolding get_skill_level
rank_bought p node id expected j =
    rw (find-put id j (expected + 1) p.skill_levels, get_skill_level)
      (if-cases
        (λ (o : Option ℕ). elim o [ none ↦ 0 | some rank ↦ rank ] ≡ (
          if string_eq.beq id j
          then expected + 1
          else elim (find j p.skill_levels) [ none ↦ 0 | some rank ↦ rank ]))
        (string_eq.beq id j) (λ y. rw y refl) (λ n. rw n refl))

module _ (tree : SkillTreeCatalog) (catalog : SkillCatalog) (p : CharacterProgression)
    (character : ℕ) (id : String) (expected : ℕ) (points : p.skill_points < 2 ^ 32) where
  pub learn-bought :
      (p' : CharacterProgression)
      → learn tree catalog p character id expected ≡ returns (p', succeeded)
      → (w : IsLearnable tree catalog p character id expected) × (p' ≡ bought p w.node id expected)
  unfolding learn
  learn-bought p' h =
      let (result, asked, rest) = bind-returns _ _ h in
      elim (Bool-cases (is_success result)) [
        | inr failed ↦ absurd (
            let q = (rw failed at rest) in
            let e : result ≡ succeeded = ground arith in ground arith)
        | inl good ↦
            let e : result ≡ succeeded = (match_success result good) in
            let w =
              can_learn-IsLearnable tree catalog p character id expected (asked ∙ ap returns e) in
            let found = w.in_tree in
            let q = (rw (good, found) at rest) in
            let small : (expected + 1) % 2 ^ 32 ≡ expected + 1 = omega (arith, w.bounded) in
            let spent : (p.skill_points + 2 ^ 32 - w.node.sp_cost) % 2 ^ 32
                ≡ p.skill_points - w.node.sp_cost =
              omega (arith, points, w.affordable) in
            (w, (rw (← small, ← spent) (ground arith)))
      ]

  -- For a character whose skill points are a 32-bit number: when `Learn` succeeds for a skill of the tree, the rank
  -- that the caller expected is the character's and rises by one, the cost of the node is paid exactly, and no
  -- other rank, nor the level or the experience, changes.
  pub learn_lem :
      (p' : CharacterProgression) (node : Node)
      → learn tree catalog p character id expected ≡ returns (p', succeeded)
      → find id tree.nodes ≡ some node
      → (get_skill_level p id ≡ expected)
        × ((j : String)
            → get_skill_level p' j
              ≡ (if string_eq.beq id j then expected + 1 else get_skill_level p j))
        × (p'.skill_points + node.sp_cost ≡ p.skill_points)
        × (p'.level ≡ p.level)
        × (p'.experience ≡ p.experience)
  learn_lem p' node h known =
      let (w, e) = learn-bought p' h in
      let found = w.in_tree in
      let same : w.node ≡ node = ground arith in
      rw e (
        w.fresh,
        (λ j. rank_bought p w.node id expected j),
        ground (arith, w.affordable),
        refl,
        refl,
      )

  -- For a character whose skill points are a 32-bit number: after a success, the same purchase again is refused as
  -- stale and changes nothing.
  pub learn-learn :
      (p' : CharacterProgression)
      → learn tree catalog p character id expected ≡ returns (p', succeeded)
      → learn tree catalog p' character id expected ≡ returns (p', stale_skill_level)
  unfolding learn can_learn
  learn-learn p' h =
      let (w, e) = learn-bought p' h in
      let rank : get_skill_level p' id ≡ expected + 1 =
        rw e (rank_bought p w.node id expected id ∙ ground (arith, string_eq.beq_iff id id)) in
      let stale : (get_skill_level p' id == expected) ≡ false = ground (arith, rank) in
      let mine : (character == character) ≡ true = ground arith in
      let found = w.in_tree in
      let known = w.known in
      let owned = w.owned in rw (found, known, owned, ◌>>=◌, mine, stale) refl
