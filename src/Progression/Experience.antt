-- ===== src/Progression/Experience.antt =====
-- `AddExperience` does what the climb does.
use native.Mathlib.Nat.{mul-le-mul}
use action_rpgserver.Common.{
  ℕ, ◌<◌, ◌^◌, Bool, ◌≤◌, leb, ◌≡◌, true, arith, ◌+◌, ◌∙◌, sym, ◌-◌, ◌*◌, if◌then◌else◌, false,
  refl, ◌==◌, ◌%◌, some, ltb, ap,
}
use action_rpgserver.Progression.{
  ProgressionPolicy, add_experience, CharacterProgression, search_levels, max_character_level, cost,
  u32_max, award, required_experience, normalized, add_normalized, sub64, u64_max,
}
use action_rpgserver.Progression.Climb.{
  IsPolicy, needed, climb, required_experience-needed, climb-IsLast,
}
use action_rpgserver.Progression.Search.{IsLast, search_levels-IsLast}
use action_rpgserver.Common.Map.{is_some}
use action_rpgserver.Progression.Costs.{total, cost_lem, total_mono}
use action_rpgserver.Common.Outcome.{returns}

module _ (policy : ProgressionPolicy) (first available : ℕ) (fits : available < 2 ^ 64) where
  abbrev payable : ℕ → Bool
  payable n = is_some (cost first policy.experience_per_level available n)

  abbrev covered : ℕ → Bool
  covered n = leb (total first policy.experience_per_level n) available

  payable-covered : (n : ℕ) → n ≤ 1_000_000 → payable n ≡ covered n
  payable-covered n small =
      rw (cost_lem first policy.experience_per_level available n fits small) (ground arith)

  covered_mono : (m n : ℕ) → m ≤ n → n ≤ 1_000_000 → covered n ≡ true → covered m ≡ true
  covered_mono m n le _ h = ground (arith, total_mono first policy.experience_per_level m n le)

  free : (n : ℕ) → is_some (cost first n available 0) ≡ true
  unfolding cost
  free n = refl

  -- Twenty rounds find the last count of levels that the balance covers.
  gained-IsLast :
      (limit : ℕ) → limit < 1_000_000 → IsLast covered limit (search_levels payable 20 0 limit)
  gained-IsLast limit small =
      let (a, b, c) =
        search_levels-IsLast payable limit
          (λ m n le below h.
            payable-covered m (omega arith)
            ∙ covered_mono m n le (omega arith) (sym (payable-covered n (omega arith)) ∙ h))
          20 0 limit (omega arith) (omega arith) (omega arith) (free policy.experience_per_level)
          (λ k after below. absurd (omega arith)) in
      (
        a,
        sym (payable-covered _ (omega arith)) ∙ b,
        λ k after below. sym (payable-covered k (omega arith)) ∙ c k after below,
      )

module _ (policy : ProgressionPolicy) (p : CharacterProgression)
    (points : p.skill_points < 2 ^ 32) where
  award_lem :
      (first available gained : ℕ)
      → policy.skill_points_per_level ≤ 1_000_000
      → available < 2 ^ 64
      → gained ≤ 1_000_000
      → p.level + gained < 2 ^ 32
      → total first policy.experience_per_level gained ≤ available
      → award policy p first available gained ≡ (
          if leb (p.skill_points + gained * policy.skill_points_per_level) u32_max
          then (
            record p {
              level = p.level + gained;
              skill_points = p.skill_points + gained * policy.skill_points_per_level;
              experience =
                  if p.level + gained == max_character_level
                  then 0
                  else available - total first policy.experience_per_level gained;
            },
            true,
          )
          else (p, false))
  unfolding award
  award_lem first available gained small fits few level pays =
      let reward =
        mul-le-mul {n₁ = gained} {m₁ = policy.skill_points_per_level} {n₂ = 1_000_000}
          {m₂ = 1_000_000} few small in
      let unwrapped : (p.skill_points + gained * policy.skill_points_per_level % 2 ^ 64) % 2 ^ 64
          ≡ p.skill_points + gained * policy.skill_points_per_level =
        omega (arith, reward) in
      let e : cost first policy.experience_per_level available gained
          ≡ some (total first policy.experience_per_level gained) =
        rw (cost_lem first policy.experience_per_level available gained fits few) (ground arith) in
      let l : (p.level + gained) % 2 ^ 32 ≡ p.level + gained = omega arith in
      let s : sub64 available (total first policy.experience_per_level gained)
          ≡ available - total first policy.experience_per_level gained =
        omega arith in
      rw (unwrapped, e, l, s) (ground arith)

module _ (policy : ProgressionPolicy) (p : CharacterProgression) (amount : ℕ) (v : IsPolicy policy)
    (lo : 1 ≤ p.level) (hi : p.level < max_character_level)
    (normal : p.experience < needed policy p.level) (fits : p.experience + amount < 2 ^ 64) where
  required : required_experience policy p.level ≡ returns (needed policy p.level)
  required = required_experience-needed v p.level lo hi

  normalized_lem : normalized policy p ≡ returns true
  unfolding normalized
  normalized_lem =
      let below : (p.level == max_character_level) ≡ false = ground arith in
      rw (below, required) (ground arith)

  add_experience-award :
      add_experience policy p amount
      ≡ returns (
          award policy p (needed policy p.level) (p.experience + amount) (
            search_levels
              (payable policy (needed policy p.level) (p.experience + amount) fits)
              20
              0
              (max_character_level - p.level)))
  unfolding add_experience add_normalized
  add_experience-award =
      let below : (p.level == max_character_level) ≡ false = ground arith in
      let room : ltb (u64_max - p.experience) amount ≡ false = ground arith in
      let unwrapped : (p.experience + amount) % 2 ^ 64 ≡ p.experience + amount = omega arith in
      rw (normalized_lem, below, room, required, unwrapped) refl

  award-climb :
      (g : ℕ)
      → p.skill_points < 2 ^ 32
      → IsLast
          (covered policy (needed policy p.level) (p.experience + amount) fits)
          (max_character_level - p.level)
          g
      → award policy p (needed policy p.level) (p.experience + amount) g ≡ (
          let (level, balance) =
            climb policy (max_character_level - p.level) p.level (p.experience + amount) in
          let points = p.skill_points + (level - p.level) * policy.skill_points_per_level in
          if leb points u32_max
          then (record p { level = level; skill_points = points; experience = balance }, true)
          else (p, false))
  award-climb g points last =
      let e : p.level + g - p.level ≡ g = omega arith in
      let same : (p.level + g == max_character_level) ≡ (g == max_character_level - p.level) =
        ground arith in
      let paid : total (needed policy p.level) policy.experience_per_level g
          ≤ p.experience + amount =
        ground (arith, last.1) in
      rw
        (
          award_lem policy p points (needed policy p.level) (p.experience + amount) g v.points_fit
              fits (omega (arith, last.0)) (omega (arith, last.0)) paid,
          climb-IsLast policy (max_character_level - p.level) p.level (p.experience + amount) g lo
              last,
          e,
          same,
        )
        refl

-- For a policy within the bounds of `Load`, a level below the cap, a normalized balance and an award
-- that keeps the balance within 64 bits, `AddExperience` gains levels as the climb does, one after the
-- other, with the skill points of each; if the skill points pass 32 bits it fails and changes nothing.
pub add_experience-climb :
    (policy : ProgressionPolicy) (p : CharacterProgression) (amount : ℕ)
    → IsPolicy policy
    → 1 ≤ p.level
    → p.level < max_character_level
    → p.experience < needed policy p.level
    → p.experience + amount < 2 ^ 64
    → p.skill_points < 2 ^ 32
    → add_experience policy p amount ≡ (
        let (level, balance) =
          climb policy (max_character_level - p.level) p.level (p.experience + amount) in
        let points = p.skill_points + (level - p.level) * policy.skill_points_per_level in
        returns (
          if leb points u32_max
          then (record p { level = level; skill_points = points; experience = balance }, true)
          else (p, false)))
add_experience-climb policy p amount v lo hi normal fits points =
    rw (add_experience-award policy p amount v lo hi normal fits) (
      ap returns (
        award-climb policy p amount v lo hi normal fits _ points (
          gained-IsLast policy (needed policy p.level) (p.experience + amount) fits
            (max_character_level - p.level) (omega arith))))
