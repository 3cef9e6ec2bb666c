-- ===== src/SkillTree/Valid.antt =====
-- `ValidateProgression` of Shared/SkillTreeCatalog.h accepts what `Learn` makes of what it accepts.
use action_rpgserver.Common.{
  some, [], ◌∷◌, true, false, inl, inr, refl, string_eq, String, ℕ, if-cases, ◌≡◌, ◌≤◌,
  Option-cases, ◌==◌, Bool-cases, ◌&&◌, leb, arith, sym, Option, List, ◌<◌, ◌+◌, ◌^◌, none,
}
use action_rpgserver.Common.Text.{text_eq}
use action_rpgserver.Common.Outcome.{returns}
use action_rpgserver.Progression.{CharacterProgression, get_skill_level}
use action_rpgserver.SkillTree.{
  SkillTreeCatalog, SkillCatalog, Node, Skill, level_for, unmet, exceeds, validate_skills,
  validate_progression, reaches, learn, succeeded, character_name,
}
use action_rpgserver.Common.Map.{put, find, Map, contains}
use action_rpgserver.SkillTree.Learns.{bought, rank_bought, learn-bought}

-- What `ValidateProgression` asks of a learned rank.
pub record IsLearned (tree : SkillTreeCatalog) (catalog : SkillCatalog) (p : CharacterProgression)
    (character : ℕ) (id : String) (rank : ℕ) : Type 0 where
  pub node : Node
  pub skill : Skill
  pub in_tree : find id tree.nodes ≡ some node
  pub known : find id catalog.skills ≡ some skill
  pub owned : find skill.character catalog.character_ids ≡ some character
  pub level_reached : level_for tree node rank ≤ p.level
  pub within : exceeds node.max_skill_level rank ≡ false
  pub prerequisites_met : unmet p node.prerequisites ≡ false

unfoldable pub AllLearned : (String → ℕ → Type 0) → Map String ℕ → Type 0
AllLearned P [] = Unit
AllLearned P ((id, rank) ∷ rest) = P id rank × AllLearned P rest

AllLearned-map :
    (P Q : String → ℕ → Type 0) (m : Map String ℕ)
    → ((id : String) (rank : ℕ) → P id rank → Q id rank)
    → AllLearned P m
    → AllLearned Q m
unfolding AllLearned
AllLearned-map P Q [] f h = tt
AllLearned-map P Q ((id, rank) ∷ rest) f h = (f id rank h.0, AllLearned-map P Q rest f h.1)

AllLearned-put :
    (P : String → ℕ → Type 0) (id : String) (rank : ℕ) (m : Map String ℕ)
    → P id rank
    → AllLearned P m
    → AllLearned P (put id rank m)
unfolding AllLearned put
AllLearned-put P id rank [] q h = (q, tt)
AllLearned-put P id rank ((j, r) ∷ rest) q h =
    if-cases (AllLearned P) (string_eq.beq j id) (λ _. (q, h.1))
      (λ _. (h.0, AllLearned-put P id rank rest q h.1))

module _ (tree : SkillTreeCatalog) (catalog : SkillCatalog) (p : CharacterProgression)
    (character : ℕ) where
  validate_skills-AllLearned :
      (m : Map String ℕ)
      → validate_skills tree catalog p character m ≡ returns tt
      → AllLearned (IsLearned tree catalog p character) m
  unfolding validate_skills AllLearned
  validate_skills-AllLearned [] h = tt
  validate_skills-AllLearned ((id, rank) ∷ rest) h = elim (Option-cases (find id tree.nodes)) [
    | inl none' ↦ absurd (let q = (rw none' at h) in cc)
    | inr (node, in_tree) ↦ elim (Option-cases (find id catalog.skills)) [
      | inl none' ↦ absurd (let q = (rw (in_tree, none') at h) in cc)
      | inr (skill, known) ↦ elim (Option-cases (find skill.character catalog.character_ids)) [
        | inl none' ↦ absurd (let q = (rw (in_tree, known, none') at h) in cc)
        | inr (owner, owned) ↦
            elim (Bool-cases ((owner == character) && leb (level_for tree node rank) p.level)) [
              | inr bad ↦ absurd (let q = (rw (in_tree, known, owned, bad) at h) in cc)
              | inl good ↦ elim (Bool-cases (exceeds node.max_skill_level rank)) [
                | inl bad ↦ absurd (let q = (rw (in_tree, known, owned, good, bad) at h) in cc)
                | inr within' ↦ elim (Bool-cases (unmet p node.prerequisites)) [
                  | inl bad ↦
                      absurd (let q = (rw (in_tree, known, owned, good, within', bad) at h) in cc)
                  | inr met ↦
                      let q = (rw (in_tree, known, owned, good, within', met) at h) in
                      let same : owner ≡ character = ground arith in
                      (
                        record {
                          node = node;
                          skill = skill;
                          in_tree = in_tree;
                          known = known;
                          owned = rw (sym same) owned;
                          level_reached = ground arith;
                          within = within';
                          prerequisites_met = met;
                        },
                        validate_skills-AllLearned rest q,
                      )
                ]
              ]
            ]
      ]
    ]
  ]

  AllLearned-validate_skills :
      (m : Map String ℕ)
      → AllLearned (IsLearned tree catalog p character) m
      → validate_skills tree catalog p character m ≡ returns tt
  unfolding validate_skills AllLearned
  AllLearned-validate_skills [] h = refl
  AllLearned-validate_skills ((id, rank) ∷ rest) (w, h) =
      let e = w.in_tree in
      let k = w.known in
      let o = w.owned in
      let u = w.prerequisites_met in
      let m = w.within in
      let good : ((character == character) && leb (level_for tree w.node rank) p.level) ≡ true =
        ground (arith, w.level_reached) in
      rw (e, k, o, good, m, u) (AllLearned-validate_skills rest h)

module _ (tree : SkillTreeCatalog) (catalog : SkillCatalog) (p : CharacterProgression) (node : Node)
    (id : String) (expected : ℕ) (fresh : get_skill_level p id ≡ expected) where
  rank_grows : (j : String) → get_skill_level p j ≤ get_skill_level (bought p node id expected) j
  rank_grows j = elim (Bool-cases (string_eq.beq id j)) [
    | inl same ↦
        let e : id ≡ j = (string_eq.beq_iff id j).0 same in
        let at_j : get_skill_level p j ≡ expected = rw (sym e) fresh in
        let after = rank_bought p node id expected j in ground (arith, at_j, after)
    | inr other ↦ let after = rank_bought p node id expected j in ground (arith, after)
  ]

  -- What is met stays met.
  met_grows :
      (required : List (String × ℕ))
      → unmet p required ≡ false
      → unmet (bought p node id expected) required ≡ false
  met_grows [] h = refl
  met_grows ((j, rank) ∷ rest) h = ground (arith, rank_grows j, met_grows rest)

  IsLearned-grows :
      (character : ℕ) (j : String) (rank : ℕ)
      → IsLearned tree catalog p character j rank
      → IsLearned tree catalog (bought p node id expected) character j rank
  IsLearned-grows character j rank w = record {
    node = w.node;
    skill = w.skill;
    in_tree = w.in_tree;
    known = w.known;
    owned = w.owned;
    level_reached = w.level_reached;
    within = w.within;
    prerequisites_met = met_grows w.node.prerequisites w.prerequisites_met;
  }

not_exceeded :
    (most : Option ℕ) (rank : ℕ) → reaches most rank ≡ false → exceeds most (rank + 1) ≡ false
not_exceeded none rank h = refl
not_exceeded (some most) rank h = ground arith

-- For a character whose skill points are a 32-bit number: what `ValidateProgression` accepts, it accepts after
-- `Learn` has succeeded.
pub validate_progression-learn :
    (tree : SkillTreeCatalog) (catalog : SkillCatalog) (p p' : CharacterProgression) (character : ℕ)
    (id : String) (expected : ℕ)
    → p.skill_points < 2 ^ 32
    → validate_progression tree catalog p character ≡ returns tt
    → learn tree catalog p character id expected ≡ returns (p', succeeded)
    → validate_progression tree catalog p' character ≡ returns tt
unfolding validate_progression
validate_progression-learn tree catalog p p' character id expected points valid h =
    let (w, e) = learn-bought tree catalog p character id expected points p' h in
    elim (Bool-cases (contains (character_name character) catalog.character_ids)) [
      | inr unknown' ↦ absurd (let q = (rw (validate_progression, unknown') at valid) in cc)
      | inl known ↦
          let skills = (rw (validate_progression, known) at valid) in
          let before = validate_skills-AllLearned tree catalog p character p.skill_levels skills in
          let after =
            AllLearned-put (IsLearned tree catalog (bought p w.node id expected) character) id
              (expected + 1) p.skill_levels
              (record {
                node = w.node;
                skill = w.skill;
                in_tree = w.in_tree;
                known = w.known;
                owned = w.owned;
                level_reached = w.level_reached;
                within = not_exceeded w.node.max_skill_level expected w.rising;
                prerequisites_met =
                    met_grows tree catalog p w.node id expected w.fresh w.node.prerequisites
                      w.prerequisites_met;
              })
              (AllLearned-map _ _ p.skill_levels
                (IsLearned-grows tree catalog p w.node id expected w.fresh character) before) in
          rw (e, known)
            (AllLearned-validate_skills tree catalog (bought p w.node id expected) character
              (put id (expected + 1) p.skill_levels) after)
    ]
