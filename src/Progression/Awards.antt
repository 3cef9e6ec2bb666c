-- ===== src/Progression/Awards.antt =====
-- What an award of experience leaves behind.
use native.Mathlib.Decide.{dec_lt}
use action_rpgserver.Common.{
  ℕ, ◌≤◌, arith, ◌-◌, ◌+◌, suc, ◌≡◌, ◌<◌, Bool-cases, ltb, inl, inr, false, zero, refl, ◌*◌, ◌^◌,
  leb, true, ◌==◌, if-cases, Bool,
}
use action_rpgserver.Progression.{
  ProgressionPolicy, CharacterProgression, add_experience, max_character_level, normalized,
  add_normalized, u32_max, u64_max,
}
use action_rpgserver.Progression.Climb.{
  climb, needed, IsPolicy, required_experience-needed, needed-lt,
}
use action_rpgserver.Common.Outcome.{Returns, returns}
use action_rpgserver.Progression.Experience.{add_experience-climb}

-- The climb ends at the cap with nothing left, or below it with less than the next level costs.
pub record IsSettled (policy : ProgressionPolicy) (rounds level balance l e : ℕ) : Type 0 where
  pub from : level ≤ l
  pub upto : l ≤ level + rounds
  pub less : e ≤ balance
  pub capped : l ≡ level + rounds → e ≡ 0
  pub short : l < level + rounds → e < needed policy l

pub climb-IsSettled :
    (policy : ProgressionPolicy) (rounds level balance : ℕ)
    → IsSettled policy rounds level balance
        (climb policy rounds level balance).0
        (climb policy rounds level balance).1
unfolding climb
climb-IsSettled policy zero level balance = record {
  from = omega arith;
  upto = omega arith;
  less = omega arith;
  capped = λ _. refl;
  short = λ h. absurd (omega arith);
}
climb-IsSettled policy (suc rounds) level balance =
    let w = climb-IsSettled policy rounds (level + 1) (balance - needed policy level) in
    elim (Bool-cases (ltb balance (needed policy level))) [
      | inl poor ↦ rw poor (record {
        from = omega arith;
        upto = omega arith;
        less = omega arith;
        capped = λ h. absurd (omega arith);
        short = λ h. ground arith;
      })
      | inr rich ↦ rw rich (record {
        from = omega (arith, w.from);
        upto = omega (arith, w.upto);
        less = omega (arith, w.less);
        capped = λ h. w.capped (omega arith);
        short = λ h. w.short (omega arith);
      })
    ]

pub climb-split :
    (policy : ProgressionPolicy) (rounds level balance extra : ℕ)
    → (let (l, e) = climb policy rounds level balance in
        climb policy (rounds - (l - level)) l (e + extra))
      ≡ climb policy rounds level (balance + extra)
unfolding climb
climb-split policy zero level balance extra =
    let z : zero - (level - level) ≡ 0 = omega arith in rw z refl
climb-split policy (suc rounds) level balance extra =
    let cost = needed policy level in
    let w = climb-IsSettled policy rounds (level + 1) (balance - cost) in
    let later = climb-split policy rounds (level + 1) (balance - cost) extra in
    elim (Bool-cases (ltb balance cost)) [
      | inl poor ↦
          let z : suc rounds - (level - level) ≡ suc rounds = omega arith in rw (poor, z) refl
      | inr rich ↦
          let l : ℕ = (climb policy rounds (level + 1) (balance - cost)).0 in
          let z : suc rounds - (l - level) ≡ rounds - (l - (level + 1)) = omega (arith, w.from) in
          let richer : ltb (balance + extra) cost ≡ false = ground arith in
          let moved : balance + extra - cost ≡ balance - cost + extra = ground arith in
          rw (rich, richer, moved) (rw z later)
    ]

-- A character that the game keeps: the bounds of `Parse`, and a balance below the next level's cost.
pub record IsCharacter (policy : ProgressionPolicy) (p : CharacterProgression) : Type 0 where
  pub begun : 1 ≤ p.level
  pub bounded : p.level ≤ max_character_level
  pub points : p.skill_points < 2 ^ 32
  pub at_cap : p.level ≡ max_character_level → p.experience ≡ 0
  pub below_cap : p.level < max_character_level → p.experience < needed policy p.level

module _ (policy : ProgressionPolicy) (p : CharacterProgression) where
  pub add_experience-capped :
      (amount : ℕ)
      → p.level ≡ max_character_level
      → p.experience ≡ 0
      → add_experience policy p amount ≡ returns (p, true)
  unfolding add_experience normalized add_normalized
  add_experience-capped amount l e = ground arith

  pub add_experience-overflow :
      (amount : ℕ)
      → IsPolicy policy
      → IsCharacter policy p
      → p.level < max_character_level
      → 2 ^ 64 ≤ p.experience + amount
      → add_experience policy p amount ≡ returns (p, false)
  unfolding add_experience normalized add_normalized
  add_experience-overflow amount v c hi over =
      let required = required_experience-needed v p.level c.begun hi in
      let fits = needed-lt v p.level hi in
      let below : (p.level == max_character_level) ≡ false = ground arith in
      let normal : ltb p.experience (needed policy p.level) ≡ true =
        ground (arith, c.below_cap hi) in
      let full : ltb (u64_max - p.experience) amount ≡ true = ground (arith, c.below_cap hi) in
      rw (below, required) (rw normal (rw full refl))

  -- The character after a climb to `level` that leaves `balance`.
  abbrev pub risen : ℕ → ℕ → CharacterProgression
  risen level balance = record p {
    level = level;
    skill_points = p.skill_points + (level - p.level) * policy.skill_points_per_level;
    experience = balance;
  }

  pub risen-IsCharacter :
      (amount : ℕ)
      → IsCharacter policy p
      → (let (level, balance) =
            climb policy (max_character_level - p.level) p.level (p.experience + amount) in
          leb (p.skill_points + (level - p.level) * policy.skill_points_per_level) u32_max ≡ true
          → IsCharacter policy (risen level balance))
  risen-IsCharacter amount c fits =
      let w =
        climb-IsSettled policy (max_character_level - p.level) p.level (p.experience + amount) in
      record {
        begun = omega (arith, w.from, c.begun);
        bounded = omega (arith, w.upto, c.bounded);
        points = ground arith;
        at_cap = λ h. w.capped (omega (arith, c.bounded));
        below_cap = λ h. w.short (omega (arith, c.bounded));
      }

-- For a policy within the bounds of `Load` and a character within those of `IsCharacter`, an award
-- of any amount returns, without a failed `Require`, and leaves again such a character, whose
-- balance does not pay for its next level, whether the award succeeds or fails.
pub add_experience-IsCharacter :
    (policy : ProgressionPolicy) (p : CharacterProgression) (amount : ℕ)
    → IsPolicy policy
    → IsCharacter policy p
    → Returns (λ r. IsCharacter policy r.0) (add_experience policy p amount)
add_experience-IsCharacter policy p amount v c = elim (dec_lt p.level max_character_level) [
  | no capped ↦
      let e : p.level ≡ max_character_level = omega (arith, c.bounded) in
      rw (add_experience-capped policy p amount e (c.at_cap e)) c
  | yes hi ↦ elim (dec_lt (p.experience + amount) (2 ^ 64)) [
    | no over ↦ rw (add_experience-overflow policy p amount v c hi (omega arith)) c
    | yes fits ↦
        rw (add_experience-climb policy p amount v c.begun hi (c.below_cap hi) fits c.points) (
          let l : ℕ × ℕ =
            climb policy (max_character_level - p.level) p.level (p.experience + amount) in
          if-cases (λ (r : CharacterProgression × Bool). IsCharacter policy r.0)
            (leb (p.skill_points + (l.0 - p.level) * policy.skill_points_per_level) u32_max)
            (risen-IsCharacter policy p amount c) (λ _. c))
  ]
]
