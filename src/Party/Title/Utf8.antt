-- ===== src/Party/Title/Utf8.antt =====
-- What the title check accepts, said by the UTF-8 encoding of code points.
use action_rpgserver.Common.{
  ℕ, ◌≤◌, ◌<◌, ◌⊎◌, ◌≢◌, List, if◌then◌else◌, ◌∷◌, Bool, ltb, ◌++◌, false, ◌+◌, [], not, ◌/◌, ◌==◌,
  ◌%◌, ◌||◌, ◌≡◌, some, arith, ◌-◌, ◌*◌,
}
use action_rpgserver.Party.Title.{after_sequence, continuations, sequence_length}

-- Unicode scalar values.
abbrev pub IsScalar : ℕ → Type 0
IsScalar c = (c < 0x110000) × ((c < 0xD800) ⊎ (0xDFFF < c))

-- No control character of ASCII.
abbrev pub IsPlain : ℕ → Type 0
IsPlain c = (0x20 ≤ c) × (c ≢ 0x7F)

abbrev pub All : (ℕ → Type 0) → List ℕ → Type 0
All P [] = Unit
All P (x ∷ xs) = P x × All P xs

unfoldable pub encode : ℕ → List ℕ
encode c =
    if ltb c 0x80
    then c ∷ []
    else if ltb c 0x800
    then (0xC0 + c / 64) ∷ (0x80 + c % 64) ∷ []
    else if ltb c 0x10000
    then (0xE0 + c / 4096) ∷ (0x80 + c / 64 % 64) ∷ (0x80 + c % 64) ∷ []
    else (0xF0 + c / 262144) ∷ (0x80 + c / 4096 % 64) ∷ (0x80 + c / 64 % 64) ∷ (0x80 + c % 64) ∷ []

unfoldable pub encode_all : List ℕ → List ℕ
encode_all [] = []
encode_all (c ∷ cs) = encode c ++ encode_all cs

-- Some character is not a space.
unfoldable pub shows : List ℕ → Bool
shows [] = false
shows (c ∷ cs) = not (c == 0x20) || shows cs

pub two_bytes :
    (c : ℕ) (rest : List ℕ)
    → 0x80 ≤ c
    → c < 0x800
    → after_sequence (0xC0 + c / 64) ((0x80 + c % 64) ∷ rest) ≡ some rest
unfolding after_sequence continuations
two_bytes c rest lo hi = ground arith

pub three_bytes :
    (c : ℕ) (rest : List ℕ)
    → 0x800 ≤ c
    → c < 0x10000
    → IsScalar c
    → after_sequence (0xE0 + c / 4096) ((0x80 + c / 64 % 64) ∷ (0x80 + c % 64) ∷ rest) ≡ some rest
unfolding after_sequence continuations
three_bytes c rest lo hi s = ground arith

pub four_bytes :
    (c : ℕ) (rest : List ℕ)
    → 0x10000 ≤ c
    → c < 0x110000
    → after_sequence
        (0xF0 + c / 262144)
        ((0x80 + c / 4096 % 64) ∷ (0x80 + c / 64 % 64) ∷ (0x80 + c % 64) ∷ rest)
      ≡ some rest
unfolding after_sequence continuations
four_bytes c rest lo hi = ground arith

-- A sequence that passes the test is the encoding of a scalar value from 0x80 on.
abbrev pub Encodes : ℕ → List ℕ → List ℕ → Type 0
Encodes first bs rest = (c : ℕ) × IsScalar c × (0x80 ≤ c) × (first ∷ bs ≡ encode c ++ rest)

pub inverse_two :
    (first b : ℕ) (bs rest : List ℕ)
    → sequence_length first ≡ 2
    → after_sequence first (b ∷ bs) ≡ some rest
    → Encodes first (b ∷ bs) rest
unfolding after_sequence continuations encode
inverse_two first b bs rest two e =
    ((first - 0xC0) * 64 + (b - 0x80), ground arith, ground arith, ground arith)

pub inverse_three :
    (first b : ℕ) (bs rest : List ℕ)
    → sequence_length first ≡ 3
    → after_sequence first (b ∷ bs) ≡ some rest
    → Encodes first (b ∷ bs) rest
unfolding after_sequence continuations encode
inverse_three first b [] rest three e = absurd (ground arith)
inverse_three first b (d ∷ bs) rest three e =
    ((first - 0xE0) * 4096 + (b - 0x80) * 64 + (d - 0x80), ground arith, ground arith, ground arith)

pub inverse_four :
    (first b : ℕ) (bs rest : List ℕ)
    → sequence_length first ≡ 4
    → after_sequence first (b ∷ bs) ≡ some rest
    → Encodes first (b ∷ bs) rest
unfolding after_sequence continuations encode
inverse_four first b [] rest four e = absurd (ground arith)
inverse_four first b (d ∷ []) rest four e = absurd (ground arith)
inverse_four first b (d ∷ f ∷ bs) rest four e = (
  (first - 0xF0) * 262144 + (b - 0x80) * 4096 + (d - 0x80) * 64 + (f - 0x80),
  ground arith,
  ground arith,
  ground arith,
)
