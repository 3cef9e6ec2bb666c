-- ===== src/Progression/Search.antt =====
-- The loop of `AddExperience` finds the last affordable count, when a count that is affordable makes
-- every smaller one affordable.
use native.Mathlib.Nat.{pow-suc}
use action_rpgserver.Common.{
  ℕ, Bool, ◌≤◌, ◌≡◌, true, ◌<◌, false, ◌-◌, ◌^◌, suc, Bool-cases, ltb, inr, inl, ◌+◌, ◌/◌, zero,
  arith, split-cases, ltb→lt,
}
use action_rpgserver.Progression.{search_levels}

module _ (affordable : ℕ → Bool) where
  -- No larger count than `n` is affordable, up to the limit.
  abbrev pub IsLast : ℕ → ℕ → Type 0
  IsLast high n =
      (n ≤ high) × (affordable n ≡ true) × ((k : ℕ) → n < k → k ≤ high → affordable k ≡ false)

  module _ (limit : ℕ)
      (mono : (m n : ℕ) → m ≤ n → n ≤ limit → affordable n ≡ true → affordable m ≡ true) where
    unaffordable : (m k : ℕ) → affordable m ≡ false → m ≤ k → k ≤ limit → affordable k ≡ false
    unaffordable m k no' le below = elim (Bool-cases (affordable k)) [
      | inl yes' ↦ absurd (ground (arith, mono m k le below yes'))
      | inr e ↦ e
    ]

    -- `2 ^ rounds` counts are searched in `rounds` rounds.
    pub search_levels-IsLast :
        (rounds low high : ℕ)
        → high - low < 2 ^ rounds
        → low ≤ high
        → high ≤ limit
        → affordable low ≡ true
        → ((k : ℕ) → high < k → k ≤ limit → affordable k ≡ false)
        → IsLast limit (search_levels affordable rounds low high)
    unfolding search_levels
    search_levels-IsLast zero low high near le top yes' above =
        (omega arith, yes', λ k after below. above k (omega arith) below)
    search_levels-IsLast (suc rounds) low high near le top yes' above =
        let half = pow-suc 2 rounds in
        split-cases (IsLast limit) (ltb low high)
          (λ more.
            let lt = ltb→lt low high more in
            split-cases (IsLast limit) (affordable (low + (high - low + 1) / 2))
              (λ can.
                search_levels-IsLast rounds _ high (omega (arith, half)) (omega arith) top can
                  above)
              (λ cannot.
                search_levels-IsLast rounds low _ (omega (arith, half)) (omega arith) (omega arith)
                  yes'
                  (λ k after below.
                    unaffordable (low + (high - low + 1) / 2) k cannot (omega arith) below)))
          (λ done. (omega arith, yes', λ k after below. above k (ground arith) below))
