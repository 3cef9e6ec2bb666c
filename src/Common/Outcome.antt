-- ===== src/Common/Outcome.antt =====
-- A call that may leave by an exception, such as `std::out_of_range` of `at` or a failed `Require`.
use action_rpgserver.Common.{◌≡◌}
use mathlib.Core.Path.{refl}

pub data Outcome {ℓ} (A : Type ℓ) : Type ℓ where
  returns : A → Outcome A
  throws : Outcome A

infixl 5 ◌>>=◌
abbrev pub ◌>>=◌ {ℓ κ} : {A : Type ℓ} {B : Type κ} → Outcome A → (A → Outcome B) → Outcome B
returns a >>= f = f a
throws >>= f = throws

-- The call returns, and what it returns satisfies `P`.
abbrev pub Returns {ℓ} : {A : Type ℓ} → (A → Type 0) → Outcome A → Type 0
Returns P (returns a) = P a
Returns P throws = ⊥

-- Both parts of a chain that returns have returned.
pub bind-returns {ℓ κ} :
    {A : Type ℓ} {B : Type κ} (m : Outcome A) (f : A → Outcome B) {b : B}
    → (m >>= f) ≡ returns b
    → (a : A) × (m ≡ returns a) × (f a ≡ returns b)
bind-returns (returns a) f h = (a, refl, h)
bind-returns throws f h = cc

pub Returns-bind :
    {A B : Type 0} (P : A → Type 0) (Q : B → Type 0) (m : Outcome A) (f : A → Outcome B)
    → Returns P m
    → ((a : A) → m ≡ returns a → P a → Returns Q (f a))
    → Returns Q (m >>= f)
Returns-bind P Q (returns a) f h k = k a refl h
Returns-bind P Q throws f h k = elim h [ ]

pub Returns-of :
    {A : Type 0} (P : A → Type 0) (m : Outcome A) (a : A) → m ≡ returns a → Returns P m → P a
Returns-of P m a e h = rw e at h

-- What the call returns, if it returns, satisfies `P`.
abbrev pub IfReturns : {A : Type 0} → (A → Type 0) → Outcome A → Type 0
IfReturns P (returns a) = P a
IfReturns P throws = Unit

pub IfReturns-bind :
    {A B : Type 0} (Q : B → Type 0) (m : Outcome A) (f : A → Outcome B)
    → ((a : A) → IfReturns Q (f a))
    → IfReturns Q (m >>= f)
IfReturns-bind Q (returns a) f k = k a
IfReturns-bind Q throws f k = tt

-- The same where the first part restricts what it returns.
pub IfReturns-chain :
    {A B : Type 0} (P : A → Type 0) (Q : B → Type 0) (m : Outcome A) (f : A → Outcome B)
    → IfReturns P m
    → ((a : A) → P a → IfReturns Q (f a))
    → IfReturns Q (m >>= f)
IfReturns-chain P Q (returns a) f h k = k a h
IfReturns-chain P Q throws f h k = tt

pub IfReturns-of :
    {A : Type 0} (P : A → Type 0) (m : Outcome A) (a : A) → m ≡ returns a → IfReturns P m → P a
IfReturns-of P m a e h = rw e at h

pub Returns-map :
    {A : Type 0} (P Q : A → Type 0) (m : Outcome A)
    → Returns P m
    → ((a : A) → P a → Q a)
    → Returns Q m
Returns-map P Q (returns a) h k = k a h
Returns-map P Q throws h k = elim h [ ]
