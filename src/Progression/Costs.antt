-- ===== src/Progression/Costs.antt =====
-- The cost of several levels as a sum, and `cost` as its test against the balance.
use native.Mathlib.Nat.{mul-le-mul, mul_comm, div-lt_iff_lt-mul, mod-eq_of_lt, le_refl}
use native.Mathlib.Decide.{dec_le}
use action_rpgserver.Common.{
  ℕ, ◌≡◌, ◌*◌, suc, ◌+◌, ◌-◌, arith, ◌/◌, zero, zero, zero, refl, ◌<◌, ◌≤◌, ◌^◌, if◌then◌else◌, leb,
  some, none, ltb, not, Bool-cases, ◌==◌, ◌&&◌, inl, lt→ltb, ltb→lt, ◌%◌, inr, false,
}
use action_rpgserver.Progression.{cost, sub64}

-- The sum of `n` costs that begin with `first` and grow by `step`.
unfoldable pub total : ℕ → ℕ → ℕ → ℕ
total first step zero = 0
total first step (suc n) = first + total (first + step) step n

triangle : ℕ → ℕ
triangle zero = 0
triangle (suc n) = triangle n + n

twice_triangle : (n : ℕ) → 2 * triangle (suc n) ≡ suc n * n
unfolding triangle
twice_triangle zero = refl
twice_triangle (suc n) = omega (arith, twice_triangle n)

triangle-half : (n : ℕ) → 0 < n → n * (n - 1) / 2 ≡ triangle n
triangle-half zero h = elim h [ ]
triangle-half (suc n) h =
    let e : suc n - 1 ≡ n = omega arith in rw e (omega (arith, twice_triangle n))

triangle-step : (first step n t : ℕ) → (first + step) * n + t * step ≡ first * n + (t + n) * step
triangle-step first step n t = omega arith

total-closed : (first step n : ℕ) → total first step n ≡ first * n + triangle n * step
unfolding total triangle
total-closed first step zero = omega arith
total-closed first step (suc n) = omega (arith, total-closed (first + step) step n)

pub total-suc :
    (first step n : ℕ) → total first step (suc n) ≡ total first step n + (first + n * step)
unfolding triangle
total-suc first step n = omega (arith, total-closed first step n, total-closed first step (suc n))

pub total_mono : (first step m n : ℕ) → m ≤ n → total first step m ≤ total first step n
total_mono first step m zero h = let e : m ≡ 0 = omega arith in rw e (le_refl _)
total_mono first step m (suc n) h = elim (dec_le m n) [
  | yes le ↦ omega (arith, total-suc first step n, total_mono first step m n le)
  | no gt ↦ let e : m ≡ suc n = omega arith in rw e (le_refl _)
]

-- A test by a quotient is one by a product.
ltb-div : (a k x : ℕ) → 0 < k → ltb (a / k) x ≡ ltb a (x * k)
ltb-div a k x pos = elim (Bool-cases (ltb a (x * k))) [
  | inl lt ↦ rw lt (lt→ltb _ _ ((div-lt_iff_lt-mul {k = k} {x = a} {y = x} pos).1 (ltb→lt _ _ lt)))
  | inr ge ↦ rw ge (elim (Bool-cases (ltb (a / k) x)) [
    | inl lt ↦
        absurd (ground (arith, (div-lt_iff_lt-mul {k = k} {x = a} {y = x} pos).0 (ltb→lt _ _ lt)))
    | inr e ↦ e
  ])
]

small_square : (n : ℕ) → n ≤ 1_000_000 → n * (n - 1) < 2 ^ 64
small_square n h =
    omega
      (arith, mul-le-mul {n₁ = n} {m₁ = n - 1} {n₂ = 1_000_000} {m₂ = 1_000_000} h (omega arith))

-- The second test, once the balance covers `first * count`.
second_test :
    (available paid t step : ℕ)
    → paid ≤ available
    → available < 2 ^ 64
    → (if not (t == 0) && ltb (sub64 available paid / t) step
        then none
        else some ((paid + t * step % 2 ^ 64) % 2 ^ 64))
      ≡ (if leb (paid + t * step) available then some (paid + t * step) else none)
second_test available paid zero step covered fits = ground arith
second_test available paid (suc t) step covered fits =
    let e : sub64 available paid ≡ available - paid = omega arith in
    rw (e, ltb-div (available - paid) (suc t) step (omega arith))
      (ground (arith, mul_comm step (suc t)))

-- Under the bounds of the program no product wraps, and `cost` compares the sum with the balance.
pub cost_lem :
    (first step available n : ℕ)
    → available < 2 ^ 64
    → n ≤ 1_000_000
    → cost first step available n
      ≡ (if leb (total first step n) available then some (total first step n) else none)
unfolding cost total
cost_lem first step available zero fits small = ground arith
cost_lem first step available (suc n) fits small =
    rw
      (
        mod-eq_of_lt (small_square (suc n) small),
        triangle-half (suc n) (omega arith),
        ltb-div available (suc n) first (omega arith),
        total-closed first step (suc n),
      )
      (let nz : (suc n == 0) ≡ false = ground arith in
        rw nz (elim (Bool-cases (ltb available (first * suc n))) [
          | inl big ↦ rw big (ground arith)
          | inr covered ↦
              let le : first * suc n ≤ available = ground arith in
              let unwrapped : first * suc n % 2 ^ 64 ≡ first * suc n = omega arith in
              rw (covered, unwrapped)
                (second_test available (first * suc n) (triangle (suc n)) step le fits)
        ]))
