-- ===== src/Progression/Climb.antt =====
-- `AddExperience` against its plain description: a level is gained while the balance pays for it.
use native.Mathlib.Nat.{le-div_iff_mul-le, mul-le-mul}
use action_rpgserver.Common.{
  ℕ, ◌+◌, ◌<◌, ◌≤◌, suc, ◌-◌, ◌^◌, ◌*◌, if◌then◌else◌, arith, ◌≡◌, leb, ltb, ◌/◌, ◌==◌, zero, false,
}
use action_rpgserver.Progression.{
  ProgressionPolicy, required_experience, max_character_level, u64_max,
}
use action_rpgserver.Progression.Costs.{total}
use action_rpgserver.Progression.Search.{IsLast}
use action_rpgserver.Common.Outcome.{returns}

-- What the next level costs.
abbrev pub needed : ProgressionPolicy → ℕ → ℕ
needed policy level = policy.experience_base + (level - 1) * policy.experience_per_level

-- Level by level from `level`, with `rounds` levels left to the cap, at which the balance is dropped.
unfoldable pub climb : ProgressionPolicy → ℕ → ℕ → ℕ → ℕ × ℕ
climb policy zero level balance = (level, 0)
climb policy (suc rounds) level balance =
    let rest = climb policy rounds (level + 1) (balance - needed policy level) in
    if ltb balance (needed policy level) then (level, balance) else rest

-- The bounds that `Load` asks of a policy.
pub record IsPolicy (policy : ProgressionPolicy) : Type 0 where
  pub positive : 0 < policy.experience_base
  pub base_fits : policy.experience_base < 2 ^ 64
  pub curve_fits :
      policy.experience_per_level ≤ (u64_max - policy.experience_base) / (max_character_level - 2)
  pub points_fit : policy.skill_points_per_level ≤ 1_000_000

module _ {policy : ProgressionPolicy} (v : IsPolicy policy) where
  -- No cost below the cap passes 64 bits.
  pub needed-lt : (level : ℕ) → level < max_character_level → needed policy level < 2 ^ 64
  needed-lt level h =
      let curve =
        (le-div_iff_mul-le {k = max_character_level - 2} {x = policy.experience_per_level}
            {y = u64_max - policy.experience_base} (omega arith)).0
          v.curve_fits in
      let grown =
        mul-le-mul {n₁ = level - 1} {m₁ = policy.experience_per_level}
          {n₂ = max_character_level - 2} {m₂ = policy.experience_per_level} (omega arith)
          (omega arith) in
      omega (arith, curve, grown, v.base_fits)

  pub required_experience-needed :
      (level : ℕ)
      → 1 ≤ level
      → level < max_character_level
      → required_experience policy level ≡ returns (needed policy level)
  unfolding required_experience
  required_experience-needed level lo hi = ground (arith, needed-lt level hi)

needed-suc :
    (policy : ProgressionPolicy) (level : ℕ)
    → 1 ≤ level
    → needed policy (level + 1) ≡ needed policy level + policy.experience_per_level
needed-suc policy level lo =
    let e : level + 1 - 1 ≡ suc (level - 1) = omega arith in rw e (omega arith)

-- The count that the search finds is what the climb gains.
pub climb-IsLast :
    (policy : ProgressionPolicy) (rounds level balance n : ℕ)
    → 1 ≤ level
    → IsLast (λ k. leb (total (needed policy level) policy.experience_per_level k) balance) rounds n
    → climb policy rounds level balance ≡ (
      level + n,
      if n == rounds
          then 0
          else balance - total (needed policy level) policy.experience_per_level n,
    )
unfolding climb total
climb-IsLast policy zero level balance zero lo h = ground arith
climb-IsLast policy zero level balance (suc n) lo h = absurd (omega (arith, h.0))
climb-IsLast policy (suc rounds) level balance zero lo h = ground (arith, h.2 1)
climb-IsLast policy (suc rounds) level balance (suc n) lo h =
    let e = needed-suc policy level lo in
    let pays : ltb balance (needed policy level) ≡ false = ground (arith, h.1) in
    let next : IsLast
        (λ k.
          leb (total (needed policy (level + 1)) policy.experience_per_level k)
            (balance - needed policy level))
        rounds n =
      rw e (
        omega (arith, h.0),
        ground (arith, h.1),
        λ k after below. ground (arith, h.2 (suc k) (omega arith) (omega arith)),
      ) in
    let rest =
      climb-IsLast policy rounds (level + 1) (balance - needed policy level) n (omega arith) next in
    rw (pays, rest, e) (ground arith)
