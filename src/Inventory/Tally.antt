-- ===== src/Inventory/Tally.antt =====
-- Sums over the stacks of an inventory, and what an update, an insertion or a removal does to them.
use action_rpgserver.Common.{
  ℕ, refl, [], ◌∷◌, List, Bool, ◌+◌, ◌++◌, set, ◌≡◌, arith, some, none, suc, ◌≤◌, ◌≢◌, subst, true,
  if◌then◌else◌, zero, zero, zero, zero, ap, Bool-cases, inl, inr, Option-cases, ◌∙◌, sym,
}
use action_rpgserver.Inventory.Stacks.{Stack, find_if, erase_at, get}

unfoldable pub tally : (Stack → ℕ) → List Stack → ℕ
tally w [] = 0
tally w (a ∷ items) = w a + tally w items

unfoldable pub Every : (Stack → Type 0) → List Stack → Type 0
Every P [] = Unit
Every P (a ∷ items) = P a × Every P items

module _ (w : Stack → ℕ) where
  pub tally-append : (xs ys : List Stack) → tally w (xs ++ ys) ≡ tally w xs + tally w ys
  unfolding tally
  tally-append [] ys = omega arith
  tally-append (a ∷ xs) ys = omega (arith, tally-append xs ys)

  pub tally-set :
      (items : List Stack) (k : ℕ) (a b : Stack)
      → get items k ≡ some a
      → tally w (set items k b) + w a ≡ tally w items + w b
  unfolding tally
  tally-set [] k a b e = cc
  tally-set (x ∷ items) zero a b e = ground arith
  tally-set (x ∷ items) (suc k) a b e = omega (arith, tally-set items k a b e)

  pub tally-erase :
      (items : List Stack) (k : ℕ) (a : Stack)
      → get items k ≡ some a
      → tally w (erase_at k items) + w a ≡ tally w items
  unfolding tally
  tally-erase [] k a e = cc
  tally-erase (x ∷ items) zero a e = ground arith
  tally-erase (x ∷ items) (suc k) a e = omega (arith, tally-erase items k a e)

  pub tally-get :
      (items : List Stack) (k : ℕ) (a : Stack) → get items k ≡ some a → w a ≤ tally w items
  unfolding tally
  tally-get [] k a e = cc
  tally-get (x ∷ items) zero a e = ground arith
  tally-get (x ∷ items) (suc k) a e = omega (arith, tally-get items k a e)

  -- Two positions that count share the sum.
  pub tally-two :
      (items : List Stack) (j k : ℕ) (a b : Stack)
      → get items j ≡ some a
      → get items k ≡ some b
      → j ≢ k
      → w a + w b ≤ tally w items
  unfolding tally
  tally-two [] j k a b e h ne = cc
  tally-two (x ∷ items) zero zero a b e h ne = absurd (ne refl)
  tally-two (x ∷ items) zero (suc k) a b e h ne = ground (arith, tally-get items k b h)
  tally-two (x ∷ items) (suc j) zero a b e h ne = ground (arith, tally-get items j a e)
  tally-two (x ∷ items) (suc j) (suc k) a b e h ne =
      omega (arith, tally-two items j k a b e h (λ q. ne (ap suc q)))

module _ (P : Stack → Type 0) where
  pub Every-append : (xs ys : List Stack) → Every P xs → Every P ys → Every P (xs ++ ys)
  unfolding Every
  Every-append [] ys h k = k
  Every-append (a ∷ xs) ys h k = (h.0, Every-append xs ys h.1 k)

  pub Every-set :
      (items : List Stack) (k : ℕ) (b : Stack) → Every P items → P b → Every P (set items k b)
  unfolding Every
  Every-set [] k b h q = h
  Every-set (x ∷ items) zero b h q = (q, h.1)
  Every-set (x ∷ items) (suc k) b h q = (h.0, Every-set items k b h.1 q)

  pub Every-erase : (items : List Stack) (k : ℕ) → Every P items → Every P (erase_at k items)
  unfolding Every
  Every-erase [] k h = h
  Every-erase (x ∷ items) zero h = h.1
  Every-erase (x ∷ items) (suc k) h = (h.0, Every-erase items k h.1)

  pub Every-get :
      (items : List Stack) (k : ℕ) (a : Stack) → Every P items → get items k ≡ some a → P a
  unfolding Every
  Every-get [] k a h e = cc
  Every-get (x ∷ items) zero a h e = (let q : x ≡ a = ground arith in subst P q h.0)
  Every-get (x ∷ items) (suc k) a h e = Every-get items k a h.1 e

-- What `find_if` finds stands at its position and passes the test.
pub find_if-found :
    (p : Stack → Bool) (items : List Stack) (k : ℕ) (a : Stack)
    → find_if p items ≡ some (k, a)
    → (get items k ≡ some a) × (p a ≡ true)
unfolding find_if
find_if-found p [] k a e = cc
find_if-found p (x ∷ items) k a e = elim (Bool-cases (p x)) [
  | inl yes' ↦ ground arith
  | inr no' ↦ elim (Option-cases (find_if p items)) [
    | inl none' ↦ absurd (ground arith)
    | inr ((j, b), found) ↦
        let h = find_if-found p items j b found in
        let at : k ≡ suc j = ground arith in
        let same : b ≡ a = ground arith in (rw at (h.0 ∙ ap some same), rw (sym same) h.1)
  ]
]

-- What `find_if` does not find counts for nothing.
pub find_if-none :
    (p : Stack → Bool) (items : List Stack)
    → find_if p items ≡ none
    → tally (λ a. if p a then 1 else 0) items ≡ 0
unfolding find_if tally
find_if-none p [] e = refl
find_if-none p (x ∷ items) e = elim (Bool-cases (p x)) [
  | inl yes' ↦ absurd (ground arith)
  | inr no' ↦ elim (Option-cases (find_if p items)) [
    | inl none' ↦ ground (arith, find_if-none p items none')
    | inr ((j, b), found) ↦ absurd (ground arith)
  ]
]

-- A sum is zero when a larger one is.
pub tally-zero :
    (P : Stack → Type 0) (w u : Stack → ℕ) (items : List Stack)
    → Every P items
    → tally u items ≡ 0
    → ((a : Stack) → P a → w a ≤ u a)
    → tally w items ≡ 0
unfolding tally Every
tally-zero P w u [] h e le = refl
tally-zero P w u (a ∷ items) h e le =
    let rest : tally u items ≡ 0 = omega arith in
    omega (arith, le a h.0, tally-zero P w u items h.1 rest le)

pub get-set :
    (items : List Stack) (k : ℕ) (a b : Stack)
    → get items k ≡ some a
    → get (set items k b) k ≡ some b
get-set [] k a b e = cc
get-set (x ∷ items) zero a b e = refl
get-set (x ∷ items) (suc k) a b e = get-set items k a b e

pub tally-same :
    (w u : Stack → ℕ) (items : List Stack)
    → ((a : Stack) → w a ≡ u a)
    → tally w items ≡ tally u items
unfolding tally
tally-same w u [] h = refl
tally-same w u (a ∷ items) h = omega (arith, h a, tally-same w u items h)

pub Every-map :
    (P Q : Stack → Type 0) (items : List Stack)
    → Every P items
    → ((a : Stack) → P a → Q a)
    → Every Q items
unfolding Every
Every-map P Q [] h f = h
Every-map P Q (a ∷ items) h f = (f a h.0, Every-map P Q items h.1 f)
