-- ===== src/Party/Title/Accepts.antt =====
-- The loop of `IsValidPartyTitle` runs through the code points that a title encodes.
use action_rpgserver.Common.{
  ℕ, Bool, List, length, ◌≤◌, suc, ◌<◌, ◌≡◌, ◌++◌, some, ◌||◌, true, not, ◌∷◌, arith, ◌↔◌, ◌==◌,
  Bool-cases, ◌⊎◌, ltb, [], inl, zero, inr, Option-cases, ◌∙◌, ap, refl, if◌then◌else◌, none, false,
  lt→ltb, ltb→lt,
}
use action_rpgserver.Party.Title.Utf8.{
  IsScalar, encode, encode_all, IsPlain, All, shows, Encodes, inverse_two, two_bytes, inverse_three,
  three_bytes, inverse_four, four_bytes,
}
use action_rpgserver.Party.Title.{after_sequence, scan_title, is_valid_party_title, sequence_length}

abbrev pub IsShown : ℕ → Type 0
IsShown c = IsScalar c × IsPlain c

-- One round of the loop: a byte of ASCII, or a sequence.
scan-ascii :
    (first f : ℕ) (visible : Bool) (rest : List ℕ)
    → first < 0x80
    → scan_title (suc f) visible (first ∷ rest) ≡ (
        if ltb first 0x20 || (first == 0x7F)
        then false
        else scan_title f (visible || not (first == 0x20)) rest)
unfolding scan_title
scan-ascii first f visible rest h = rw (lt→ltb first 0x80 h)

scan-sequence :
    (first f : ℕ) (visible : Bool) (rest rest' : List ℕ)
    → 0x80 ≤ first
    → after_sequence first rest ≡ some rest'
    → scan_title (suc f) visible (first ∷ rest) ≡ scan_title f true rest'
unfolding scan_title
scan-sequence first f visible rest rest' h e =
    let high : ltb first 0x80 ≡ false = ground arith in rw (high, e)

scan-broken :
    (first f : ℕ) (visible : Bool) (rest : List ℕ)
    → 0x80 ≤ first
    → after_sequence first rest ≡ none
    → scan_title (suc f) visible (first ∷ rest) ≡ false
unfolding scan_title
scan-broken first f visible rest h e =
    let high : ltb first 0x80 ≡ false = ground arith in rw (high, e)

-- A code point that takes a sequence is not a space.
not_space : (c : ℕ) (visible : Bool) → 0x80 ≤ c → (visible || not (c == 0x20)) ≡ true
not_space c visible h = ground arith

-- One round of the loop takes one code point.
scan-encode :
    (c f : ℕ) (visible : Bool) (rest : List ℕ)
    → IsScalar c
    → IsPlain c
    → scan_title (suc f) visible (encode c ++ rest) ≡ scan_title f (visible || not (c == 0x20)) rest
unfolding encode
scan-encode c f visible rest s p = elim (Bool-cases (ltb c 0x80)) [
  | inl one ↦ rw one (ground (arith, scan-ascii c f visible rest))
  | inr more ↦
      let lo : 0x80 ≤ c = ground arith in
      rw (more, not_space c visible lo)
        (elim (Bool-cases (ltb c 0x800)) [
          | inl two ↦
              rw two (
                scan-sequence _ f visible _ rest (omega arith) (two_bytes c rest lo (ground arith)))
          | inr more' ↦ rw more' (elim (Bool-cases (ltb c 0x10000)) [
            | inl three ↦ rw three (
                scan-sequence _ f visible _ rest (omega arith)
                  (three_bytes c rest (ground arith) (ground arith) s))
            | inr four ↦ rw four (
                scan-sequence _ f visible _ rest (omega arith)
                  (four_bytes c rest (ground arith) s.0))
          ])
        ])
]

encode-pos : (c : ℕ) (rest : List ℕ) → length rest < length (encode c ++ rest)
unfolding encode
encode-pos c rest = ground arith

scan-encode_all :
    (cs : List ℕ) (f : ℕ) (visible : Bool)
    → All IsShown cs
    → length (encode_all cs) ≤ f
    → scan_title f visible (encode_all cs) ≡ (visible || shows cs)
unfolding encode_all shows
scan-encode_all [] f visible h room = unfold scan_title in ground arith
scan-encode_all (c ∷ cs) zero visible h room = absurd (omega (arith, encode-pos c (encode_all cs)))
scan-encode_all (c ∷ cs) (suc f) visible h room =
    rw (scan-encode c f visible (encode_all cs) h.0.0 h.0.1) (
      rw
        (scan-encode_all cs f (visible || not (c == 0x20)) h.1
          (omega (arith, encode-pos c (encode_all cs))))
        (ground arith))

-- The bytes of one round, if it does not fail.
sequence-Encodes :
    (first : ℕ) (bs rest : List ℕ)
    → 0x80 ≤ first
    → after_sequence first bs ≡ some rest
    → Encodes first bs rest
unfolding after_sequence
sequence-Encodes first [] rest lo e = cc
sequence-Encodes first (b ∷ bs) rest lo e = elim (lengths first) [
  | inl two ↦ inverse_two first b bs rest two e
  | inr (inl three) ↦ inverse_three first b bs rest three e
  | inr (inr (inl four)) ↦ inverse_four first b bs rest four e
  | inr (inr (inr zero')) ↦ absurd (ground arith)
]
  where
    lengths :
        (first : ℕ)
        → (sequence_length first ≡ 2)
          ⊎ ((sequence_length first ≡ 3)
              ⊎ ((sequence_length first ≡ 4) ⊎ (sequence_length first ≡ 0)))
    lengths first = ground arith

-- The code points that a title shows, if the loop accepts it.
abbrev Shows : Bool → List ℕ → Type 0
Shows visible bs =
    (cs : List ℕ) × All IsShown cs × (bs ≡ encode_all cs) × ((visible || shows cs) ≡ true)

ascii_Shows :
    (f : ℕ) (visible : Bool) (first : ℕ) (rest : List ℕ)
    → first < 0x80
    → scan_title (suc f) visible (first ∷ rest) ≡ true
    → (scan_title f (visible || not (first == 0x20)) rest ≡ true
        → Shows (visible || not (first == 0x20)) rest)
    → Shows visible (first ∷ rest)
unfolding encode_all encode shows
ascii_Shows f visible first rest one h ih =
    let step = scan-ascii first f visible rest one in
    let plain : (ltb first 0x20 || (first == 0x7F)) ≡ false = ground (arith, step) in
    let (cs, all, e, seen) = ih (ground (arith, step)) in
    (
      first ∷ cs,
      ((ground arith, ground arith), all),
      rw (lt→ltb first 0x80 one) (ap (λ r. first ∷ r) e),
      ground arith,
    )

sequence_Shows :
    (f : ℕ) (visible : Bool) (first : ℕ) (rest : List ℕ)
    → 0x80 ≤ first
    → scan_title (suc f) visible (first ∷ rest) ≡ true
    → ((rest' : List ℕ) → scan_title f true rest' ≡ true → Shows true rest')
    → Shows visible (first ∷ rest)
unfolding encode_all shows
sequence_Shows f visible first rest more h ih = elim (Option-cases (after_sequence first rest)) [
  | inl bad ↦ absurd (cc (scan-broken first f visible rest more bad))
  | inr (rest', good) ↦
      let (cs, all, e, seen) = ih rest' (cc (scan-sequence first f visible rest rest' more good)) in
      let (c, s, lo, split) = sequence-Encodes first rest rest' more good in
      (
        c ∷ cs,
        ((s, (omega arith, omega arith)), all),
        split ∙ ap (λ r. encode c ++ r) e,
        ground arith,
      )
]

scan-Shows :
    (f : ℕ) (visible : Bool) (bs : List ℕ) → scan_title f visible bs ≡ true → Shows visible bs
unfolding scan_title encode_all shows
scan-Shows zero visible [] h = ([], tt, refl, ground arith)
scan-Shows zero visible (first ∷ rest) h = cc
scan-Shows (suc f) visible [] h = ([], tt, refl, ground arith)
scan-Shows (suc f) visible (first ∷ rest) h = elim (Bool-cases (ltb first 0x80)) [
  | inl one ↦
      ascii_Shows f visible first rest (ltb→lt first 0x80 one) h
        (scan-Shows f (visible || not (first == 0x20)) rest)
  | inr more ↦ sequence_Shows f visible first rest (ground arith) h (λ r. scan-Shows f true r)
]

shows_pos : (cs : List ℕ) → shows cs ≡ true → 0 < length (encode_all cs)
unfolding shows encode_all
shows_pos [] h = cc
shows_pos (c ∷ cs) h = omega (arith, encode-pos c (encode_all cs))

-- A title is accepted exactly when it is 1 to 96 bytes of well-formed UTF-8, that is, the encoding of
-- some Unicode scalar values, none of them a control character of ASCII and not all of them spaces.
pub is_valid_party_title_iff :
    (title : List ℕ)
    → (is_valid_party_title title ≡ true) ↔ (
        (cs : List ℕ) × All IsShown cs
        × (title ≡ encode_all cs)
        × (shows cs ≡ true)
        × (length title ≤ 96))
unfolding is_valid_party_title
is_valid_party_title_iff title = (
  λ h.
      let (cs, all, e, seen) = scan-Shows (length title) false title (ground arith) in
      (cs, all, e, seen, ground arith),
  λ (cs, all, e, seen, short).
      let fits : length (encode_all cs) ≤ 96 = omega (arith, ap length e) in
      let pos = shows_pos cs seen in
      let through : scan_title (length (encode_all cs)) false (encode_all cs) ≡ true =
        scan-encode_all cs (length (encode_all cs)) false all (omega arith) ∙ seen in
      rw e (rw through (ground arith)),
)
