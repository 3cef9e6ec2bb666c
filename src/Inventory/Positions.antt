-- ===== src/Inventory/Positions.antt =====
-- Lists of positions: those of the stacks that pass a test, each once, and in any order.
use action_rpgserver.Common.{
  none, some, inl, inr, elim-cases, suc, ℕ, refl, [], ◌∷◌, true, if◌then◌else◌, List, ◌+◌, ◌==◌,
  Bool, ◌≡◌, set, arith, ◌∙◌, ◌≤◌, some, ◌≢◌, ap, leb, Bool-cases, inl, inr, if-cases,
}
use action_rpgserver.Inventory.Stacks.{Stack, get}
use action_rpgserver.Inventory.{insert_by, sort_by, positions}
use action_rpgserver.Inventory.Tally.{tally}
use action_rpgserver.Inventory.Swaps.{get-set_ne}

unfoldable pub total : (ℕ → ℕ) → List ℕ → ℕ
total g [] = 0
total g (k ∷ ks) = g k + total g ks

abbrev pub AllOf : (ℕ → Type 0) → List ℕ → Type 0
AllOf Q [] = Unit
AllOf Q (k ∷ ks) = Q k × AllOf Q ks

abbrev pub once : ℕ → ℕ → ℕ
once j k = if k == j then 1 else 0

-- A quantity of the stack at a position.
abbrev pub of_stack : (Stack → ℕ) → List Stack → ℕ → ℕ
of_stack w items k = elim (get items k) [ none ↦ 0 | some a ↦ w a ]

module _ (less : Stack → Stack → Bool) (items : List Stack) where
  total-insert_by :
      (g : ℕ → ℕ) (k : ℕ) (js : List ℕ) → total g (insert_by less items k js) ≡ g k + total g js
  unfolding insert_by total
  total-insert_by g k [] = refl
  total-insert_by g k (j ∷ js) = ground (arith, total-insert_by g k js)

  -- Sorting keeps the positions.
  pub total-sort_by : (g : ℕ → ℕ) (ks : List ℕ) → total g (sort_by less items ks) ≡ total g ks
  unfolding sort_by total
  total-sort_by g [] = refl
  total-sort_by g (k ∷ ks) =
      total-insert_by g k (sort_by less items ks) ∙ ap (λ n. g k + n) (total-sort_by g ks)

  AllOf-insert_by :
      (Q : ℕ → Type 0) (k : ℕ) (js : List ℕ)
      → Q k
      → AllOf Q js
      → AllOf Q (insert_by less items k js)
  unfolding insert_by
  AllOf-insert_by Q k [] q h = (q, tt)
  AllOf-insert_by Q k (j ∷ js) q h =
      let rest = AllOf-insert_by Q k js q h.1 in
      elim-cases (AllOf Q) (get items k) (λ _. (h.0, rest))
        λ a _.
          elim-cases (AllOf Q) (get items j) (λ _. (h.0, rest))
            λ b _. if-cases (AllOf Q) (less a b) (λ _. (q, h)) (λ _. (h.0, rest))

  pub AllOf-sort_by : (Q : ℕ → Type 0) (ks : List ℕ) → AllOf Q ks → AllOf Q (sort_by less items ks)
  unfolding sort_by
  AllOf-sort_by Q [] h = tt
  AllOf-sort_by Q (k ∷ ks) h =
      AllOf-insert_by Q k (sort_by less items ks) h.0 (AllOf-sort_by Q ks h.1)

module _ (p : Stack → Bool) where
  -- Summed over the positions of the stacks that pass, a quantity is summed over these stacks.
  pub total-positions :
      (g : ℕ → ℕ) (w : Stack → ℕ) (k : ℕ) (xs : List Stack)
      → ((i : ℕ) (a : Stack) → get xs i ≡ some a → g (k + i) ≡ w a)
      → total g (positions p k xs) ≡ tally (λ a. if p a then w a else 0) xs
  unfolding total positions tally
  total-positions g w k [] h = refl
  total-positions g w k (a ∷ xs) h =
      let here : g k ≡ w a = (let e : k + 0 ≡ k = omega arith in let q = h 0 a refl in rw e at q) in
      let rest =
        total-positions g w (k + 1) xs
          (λ i b e. let s : k + 1 + i ≡ k + suc i = omega arith in rw s (h (suc i) b e)) in
      ground (arith, here, rest)

  -- No position stands twice.
  pub once-positions :
      (j k : ℕ) (xs : List Stack) → total (once j) (positions p k xs) ≤ (if leb k j then 1 else 0)
  unfolding total positions
  once-positions j k [] = ground arith
  once-positions j k (a ∷ xs) = ground (arith, once-positions j (k + 1) xs)

  pub AllOf-positions :
      (Q : ℕ → Type 0) (k : ℕ) (xs : List Stack)
      → ((i : ℕ) (a : Stack) → get xs i ≡ some a → p a ≡ true → Q (k + i))
      → AllOf Q (positions p k xs)
  unfolding positions
  AllOf-positions Q k [] h = tt
  AllOf-positions Q k (a ∷ xs) h =
      let rest =
        AllOf-positions Q (k + 1) xs
          (λ i b e q. let s : k + 1 + i ≡ k + suc i = omega arith in rw s (h (suc i) b e q)) in
      elim (Bool-cases (p a)) [
        | inl yes' ↦
            rw yes'
              ((let e : k + 0 ≡ k = omega arith in let q = h 0 a refl yes' in rw e at q), rest)
        | inr no' ↦ rw no' rest
      ]

-- A change at a position that is not in a list leaves the sums over the list.
pub total-set :
    (w : Stack → ℕ) (items : List Stack) (k : ℕ) (b : Stack) (ks : List ℕ)
    → total (once k) ks ≡ 0
    → total (of_stack w (set items k b)) ks ≡ total (of_stack w items) ks
unfolding total
total-set w items k b [] h = refl
total-set w items k b (j ∷ ks) h =
    let ne : k ≢ j = ground arith in
    let rest = total-set w items k b ks (omega arith) in
    ground (arith, get-set_ne items k j b ne, rest)

pub AllOf-map : (P Q : ℕ → Type 0) (ks : List ℕ) → ((k : ℕ) → P k → Q k) → AllOf P ks → AllOf Q ks
AllOf-map P Q [] f h = tt
AllOf-map P Q (k ∷ ks) f h = (f k h.0, AllOf-map P Q ks f h.1)
