-- ===== src/Progression/Splits.antt =====
-- Two awards of experience against one of their sum.
use native.Mathlib.Decide.{dec_lt}
use native.Mathlib.Nat.{mul-le-mul}
use action_rpgserver.Common.{
  ℕ, Bool, ◌<◌, ◌+◌, leb, ◌^◌, ◌≡◌, ◌-◌, true, ◌*◌, arith, sym, ◌≤◌, ◌∙◌, refl, Bool-cases, inr,
  inl,
}
use action_rpgserver.Progression.{
  ProgressionPolicy, CharacterProgression, add_experience, max_character_level, u32_max,
}
use action_rpgserver.Progression.Climb.{IsPolicy, climb}
use action_rpgserver.Progression.Awards.{
  IsCharacter, climb-IsSettled, risen, climb-split, add_experience-capped, add_experience-overflow,
  risen-IsCharacter,
}
use action_rpgserver.Common.Outcome.{returns}
use action_rpgserver.Progression.Experience.{add_experience-climb}

module _ {policy : ProgressionPolicy} {p : CharacterProgression} (v : IsPolicy policy)
    (c : IsCharacter policy p) where
  -- Where the climb with an award ends.
  abbrev reached : ℕ → ℕ × ℕ
  reached amount = climb policy (max_character_level - p.level) p.level (p.experience + amount)

  abbrev affords : ℕ → Bool
  affords level = leb (p.skill_points + (level - p.level) * policy.skill_points_per_level) u32_max

  -- Success, also at the cap, where the climb stays.
  add_experience-rises :
      (amount : ℕ)
      → p.experience + amount < 2 ^ 64
      → affords (reached amount).0 ≡ true
      → add_experience policy p amount
        ≡ returns (risen policy p (reached amount).0 (reached amount).1, true)
  unfolding climb
  add_experience-rises amount fits enough = elim (dec_lt p.level max_character_level) [
    | yes hi ↦
        rw
          (add_experience-climb policy p amount v c.begun hi (c.below_cap hi) fits c.points, enough)
          refl
    | no capped ↦
        let e : p.level ≡ max_character_level = omega (arith, c.bounded) in
        let none_left : max_character_level - p.level ≡ 0 = omega arith in
        let same : p.skill_points + (p.level - p.level) * policy.skill_points_per_level
            ≡ p.skill_points =
          ground arith in
        rw (none_left, add_experience-capped policy p amount e (c.at_cap e), same, sym (c.at_cap e))
          refl
  ]

  -- What a successful award says of the climb.
  add_experience-rose :
      (amount : ℕ) (q : CharacterProgression)
      → p.level < max_character_level
      → add_experience policy p amount ≡ returns (q, true)
      → (p.experience + amount < 2 ^ 64)
        × (affords (reached amount).0 ≡ true)
        × (q ≡ risen policy p (reached amount).0 (reached amount).1)
  add_experience-rose amount q hi done = elim (dec_lt (p.experience + amount) (2 ^ 64)) [
    | no over ↦ absurd (
        let h = sym (add_experience-overflow policy p amount v c hi (omega arith)) ∙ done in
        ground arith)
    | yes fits ↦
        let h =
          sym (add_experience-climb policy p amount v c.begun hi (c.below_cap hi) fits c.points)
          ∙ done in
        elim (Bool-cases (affords (reached amount).0)) [
          | inr poor ↦ absurd (ground arith)
          | inl rich ↦ (fits, rich, ground arith)
        ]
  ]

  -- The first part of an award.
  rises_first :
      (a b : ℕ)
      → p.experience + (a + b) < 2 ^ 64
      → affords (reached (a + b)).0 ≡ true
      → affords (reached a).0 ≡ true
  rises_first a b fits rich =
      let w = climb-IsSettled policy (max_character_level - p.level) p.level (p.experience + a) in
      let u =
        climb-IsSettled policy (max_character_level - p.level - ((reached a).0 - p.level))
          (reached a).0 ((reached a).1 + b) in
      let e = climb-split policy (max_character_level - p.level) p.level (p.experience + a) b in
      let sum : p.experience + a + b ≡ p.experience + (a + b) = omega arith in
      let later : (reached a).0 ≤ (reached (a + b)).0 = (let h = u.from in rw (e, sum) at h) in
      let paid =
        mul-le-mul {n₁ = (reached a).0 - p.level} {m₁ = policy.skill_points_per_level}
          {n₂ = (reached (a + b)).0 - p.level} {m₂ = policy.skill_points_per_level}
          (omega (arith, later)) (omega arith) in
      ground (arith, paid)

module _ (policy : ProgressionPolicy) (p : CharacterProgression) (v : IsPolicy policy)
    (c : IsCharacter policy p) (a b : ℕ) (fits : p.experience + (a + b) < 2 ^ 64) where
  abbrev middle : CharacterProgression
  middle = risen policy p (reached v c a).0 (reached v c a).1

  climbs_on :
      climb policy (max_character_level - middle.level) middle.level (middle.experience + b)
      ≡ reached v c (a + b)
  climbs_on =
      let w = climb-IsSettled policy (max_character_level - p.level) p.level (p.experience + a) in
      let left : max_character_level - p.level - ((reached v c a).0 - p.level)
          ≡ max_character_level - (reached v c a).0 =
        omega (arith, w.from, w.upto) in
      let sum : p.experience + a + b ≡ p.experience + (a + b) = omega arith in
      (let h = climb-split policy (max_character_level - p.level) p.level (p.experience + a) b in
        rw (left, sum) at h)

  points_add :
      middle.skill_points + ((reached v c (a + b)).0 - middle.level) * policy.skill_points_per_level
      ≡ p.skill_points + ((reached v c (a + b)).0 - p.level) * policy.skill_points_per_level
  points_add =
      let w = climb-IsSettled policy (max_character_level - p.level) p.level (p.experience + a) in
      let u =
        climb-IsSettled policy (max_character_level - middle.level) middle.level
          (middle.experience + b) in
      let later : (reached v c a).0 ≤ (reached v c (a + b)).0 =
        (let h = u.from in rw climbs_on at h) in
      let e : (reached v c (a + b)).0 - p.level
          ≡ ((reached v c a).0 - p.level) + ((reached v c (a + b)).0 - (reached v c a).0) =
        omega (arith, later, w.from) in
      rw e (omega arith)

  -- The second part goes where the whole goes.
  rises_second :
      affords v c (reached v c (a + b)).0 ≡ true
      → add_experience policy middle b
        ≡ returns (risen policy p (reached v c (a + b)).0 (reached v c (a + b)).1, true)
  rises_second rich =
      let w = climb-IsSettled policy (max_character_level - p.level) p.level (p.experience + a) in
      let m = risen-IsCharacter policy p a c (rises_first v c a b fits rich) in
      let h =
        add_experience-rises v m b (omega (arith, w.less)) (rw (climbs_on, points_add) rich) in
      rw (climbs_on, points_add) at h

-- For a policy within the bounds of `Load` and a character within those of `IsCharacter`, an award
-- that succeeds can be split in two: the first part succeeds, and the second part then gives the
-- same levels, skill points and balance as the whole.
pub add_experience-split :
    (policy : ProgressionPolicy) (p q : CharacterProgression) (a b : ℕ)
    → IsPolicy policy
    → IsCharacter policy p
    → add_experience policy p (a + b) ≡ returns (q, true)
    → (middle : CharacterProgression) × (add_experience policy p a ≡ returns (middle, true))
      × (add_experience policy middle b ≡ returns (q, true))
add_experience-split policy p q a b v c done = elim (dec_lt p.level max_character_level) [
  | no capped ↦
      let e : p.level ≡ max_character_level = omega (arith, c.bounded) in
      (
        p,
        add_experience-capped policy p a e (c.at_cap e),
        add_experience-capped policy p b e (c.at_cap e)
            ∙ sym (add_experience-capped policy p (a + b) e (c.at_cap e))
            ∙ done,
      )
  | yes hi ↦
      let (fits, rich, ends) = add_experience-rose v c (a + b) q hi done in
      (
        risen policy p (reached v c a).0 (reached v c a).1,
        add_experience-rises v c a (omega arith) (rises_first v c a b fits rich),
        rw ends (rises_second policy p v c a b fits rich),
      )
]
