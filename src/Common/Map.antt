-- ===== src/Common/Map.antt =====
-- `std::unordered_map` as an association list. The entry of a key is the first pair that holds it;
-- no operation adds a second pair for a key, and the order of the pairs stands for the
-- unspecified order of iteration.
use mathlib.Core.Path.{◌≡◌, refl, subst}
use mathlib.Core.Logic.{inl, inr}
use mathlib.Core.Bool.{Bool, true, false}
use mathlib.Core.Option.{Option, none, some}
use mathlib.Core.List.{List, [], ◌∷◌}
use native.Mathlib.Omega.{arith}
use action_rpgserver.Common.Tests.{Eq, if◌then◌else◌, Bool-cases, if-cases}

abbrev pub Map {ℓ κ} : Type ℓ → Type κ → Type (ℓ ⊔ κ)
Map K V = List (K × V)

abbrev pub is_some {ℓ} : {A : Type ℓ} → Option A → Bool
is_some none = false
is_some (some _) = true

-- What is left of the entry of a key when the entries that pass a test are erased.
abbrev pub unless {ℓ} : {A : Type ℓ} → (A → Bool) → Option A → Option A
unless p none = none
unless p (some v) = if p v then none else some v

-- A statement about the entry of a key, if there is one.
abbrev pub IfSome {ℓ} : {A : Type ℓ} → (A → Type 0) → Option A → Type 0
IfSome P none = Unit
IfSome P (some a) = P a

pub IfSome-map {ℓ} :
    {A : Type ℓ} (P Q : A → Type 0) (o : Option A) → ((a : A) → P a → Q a) → IfSome P o → IfSome Q o
IfSome-map P Q none f h = tt
IfSome-map P Q (some a) f h = f a h

module _ {ℓ κ} {K : Type ℓ} {V : Type κ} ⦃e : Eq K⦄ where
  unfoldable pub find : K → Map K V → Option V
  find k [] = none
  find k ((j, v) ∷ m) = if e.beq j k then some v else find k m

  -- m.contains(k)
  abbrev pub contains : K → Map K V → Bool
  contains k m = is_some (find k m)

  -- m.erase(k)
  unfoldable pub erase : K → Map K V → Map K V
  erase k [] = []
  erase k ((j, v) ∷ m) = let rest = erase k m in if e.beq j k then rest else (j, v) ∷ rest

  -- m[k] = v, and a write through an iterator or a reference to the entry of `k`
  unfoldable pub put : K → V → Map K V → Map K V
  put k v [] = (k, v) ∷ []
  put k v ((j, w) ∷ m) = if e.beq j k then (k, v) ∷ m else (j, w) ∷ put k v m

  -- m.emplace(k, v), which leaves an entry that is there
  abbrev pub emplace : K → V → Map K V → Map K V
  emplace k v m = if contains k m then m else put k v m

  -- std::erase_if(m, p) and loops that erase by an iterator
  unfoldable pub erase_if : (V → Bool) → Map K V → Map K V
  unfolding erase
  erase_if p [] = []
  erase_if p ((j, v) ∷ m) = let rest = erase_if p m in if p v then erase j rest else (j, v) ∷ rest

  pub find-erase :
      (k j : K) (m : Map K V) → find j (erase k m) ≡ (if e.beq k j then none else find j m)
  unfolding find erase
  find-erase k j [] = ground arith
  find-erase k j ((i, v) ∷ m) =
      ground (arith, e.beq_iff k j, e.beq_iff i k, e.beq_iff i j, find-erase k j m)

  pub find-put :
      (k j : K) (v : V) (m : Map K V)
      → find j (put k v m) ≡ (if e.beq k j then some v else find j m)
  unfolding find put
  find-put k j v [] = refl
  find-put k j v ((i, w) ∷ m) =
      ground (arith, e.beq_iff k j, e.beq_iff i k, e.beq_iff i j, find-put k j v m)

  pub find-erase_if :
      (p : V → Bool) (j : K) (m : Map K V) → find j (erase_if p m) ≡ unless p (find j m)
  unfolding find erase_if
  find-erase_if p j [] = refl
  find-erase_if p j ((i, w) ∷ m) =
      ground (arith, e.beq_iff i j, find-erase i j (erase_if p m), find-erase_if p j m)

module _ {ℓ κ} {K : Type ℓ} {V : Type κ} ⦃e : Eq K⦄ (P : K → V → Type 0) (m : Map K V)
    (all : (j : K) → IfSome (P j) (find j m)) where
  pub all-put : (k : K) (v : V) → P k v → (j : K) → IfSome (P j) (find j (put k v m))
  all-put k v h j = rw (find-put k j v m) (elim (Bool-cases (e.beq k j)) [
    | inl eq ↦ rw eq (subst (λ i. P i v) ((e.beq_iff k j).0 eq) h)
    | inr ne ↦ rw ne (all j)
  ])

  pub all-emplace : (k : K) (v : V) → P k v → (j : K) → IfSome (P j) (find j (emplace k v m))
  all-emplace k v h j =
      if-cases (λ n. IfSome (P j) (find j n)) (contains k m) (λ _. all j) (λ _. all-put k v h j)

  pub all-erase : (k j : K) → IfSome (P j) (find j (erase k m))
  all-erase k j =
      rw (find-erase k j m)
        (elim (Bool-cases (e.beq k j)) [ inl eq ↦ rw eq tt | inr ne ↦ rw ne (all j) ])

  -- What stays after `erase_if` failed the test.
  pub all-erase_if :
      (p : V → Bool) (j : K) → IfSome (λ v. P j v × (p v ≡ false)) (find j (erase_if p m))
  all-erase_if p j = rw (find-erase_if p j m) (kept (find j m) (all j))
    where
      kept : (o : Option V) → IfSome (P j) o → IfSome (λ v. P j v × (p v ≡ false)) (unless p o)
      kept none h = tt
      kept (some v) h = elim (Bool-cases (p v)) [
        | inl yes' ↦ rw yes' tt
        | inr no' ↦ rw no' (h, no')
      ]

-- Of two writes to one key the last counts.
module _ {ℓ κ} {K : Type ℓ} {V : Type κ} ⦃e : Eq K⦄ (m : Map K V) where
  pub find-put-put : (k j : K) (v w : V) → find j (put k w (put k v m)) ≡ find j (put k w m)
  find-put-put k j v w =
      rw (find-put k j w (put k v m), find-put k j w m, find-put k j v m) (ground arith)

  pub find-erase-put : (k j : K) (v : V) → find j (erase k (put k v m)) ≡ find j (erase k m)
  find-erase-put k j v =
      rw (find-erase k j (put k v m), find-erase k j m, find-put k j v m) (ground arith)

pub IfSome-of : {A : Type 0} (P : A → Type 0) (o : Option A) (a : A) → o ≡ some a → IfSome P o → P a
IfSome-of P o a e h = rw e at h
