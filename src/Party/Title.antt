-- ===== src/Party/Title.antt =====
-- `IsValidPartyTitle` of TownServer/PartyManager.cpp: a title of 1 to 96 bytes that is well-formed
-- UTF-8 without control characters and shows something.
pub mod Utf8
pub mod Accepts
use action_rpgserver.Common.{
  ℕ, zero, suc, ◌-◌, Option, none, some, Bool, true, false, not, ◌&&◌, ◌||◌, List, [], ◌∷◌, ◌==◌,
  ltb, leb, if◌then◌else◌, length,
}

abbrev pub in_range : ℕ → ℕ → ℕ → Bool
in_range lo hi b = leb lo b && leb b hi

-- The length of the sequence that a byte from 0x80 on begins; 0 if it begins none.
abbrev pub sequence_length : ℕ → ℕ
sequence_length first =
    if in_range 0xC2 0xDF first
    then 2
    else if in_range 0xE0 0xEF first
    then 3
    else if in_range 0xF0 0xF4 first
    then 4
    else 0

-- The test on the second byte of a sequence.
abbrev pub bad_second : ℕ → ℕ → Bool
bad_second first second =
    ltb second 0x80
    || ltb 0xBF second
    || (first == 0xE0 && ltb second 0xA0)
    || (first == 0xED && ltb 0x9F second)
    || (first == 0xF0 && ltb second 0x90)
    || (first == 0xF4 && ltb 0x8F second)

abbrev pub bad_continuation : ℕ → Bool
bad_continuation b = ltb b 0x80 || ltb 0xBF b

-- The loop over the third and fourth bytes of a sequence: what follows `n` continuation bytes.
unfoldable pub continuations : ℕ → List ℕ → Option (List ℕ)
continuations zero bs = some bs
continuations (suc n) [] = none
continuations (suc n) (b ∷ bs) = if bad_continuation b then none else continuations n bs

-- What follows the sequence that `first` begins, if it is well formed. Where the code finds the
-- title too short for the sequence, a pattern fails here or in `continuations`.
unfoldable pub after_sequence : ℕ → List ℕ → Option (List ℕ)
unfolding continuations
after_sequence first [] = none
after_sequence first (second ∷ rest) =
    if sequence_length first == 0 || bad_second first second
    then none
    else continuations (sequence_length first - 2) rest

-- The loop over the bytes that are left; `visible` is `hasVisibleCharacter`. Each round takes a
-- byte or more, so the length of the title is fuel enough.
unfoldable pub scan_title : ℕ → Bool → List ℕ → Bool
scan_title fuel visible [] = visible
scan_title zero visible (first ∷ rest) = false
scan_title (suc fuel) visible (first ∷ rest) =
    let ascii = scan_title fuel (visible || not (first == 0x20)) rest in
    if ltb first 0x80
    then (if ltb first 0x20 || (first == 0x7F) then false else ascii)
    else elim (after_sequence first rest) [ none ↦ false | some rest' ↦ scan_title fuel true rest' ]

unfoldable pub is_valid_party_title : List ℕ → Bool
is_valid_party_title title =
    if length title == 0 || ltb 96 (length title)
    then false
    else scan_title (length title) false title
