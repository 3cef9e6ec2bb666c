-- ===== src/RoomControl/Reader.antt =====
-- `PacketReader`: its state is the list of bytes from the offset on, and `none` is a failed read.
pub mod Laws
use action_rpgserver.Common.{
  ℕ, some, ◌∷◌, ◌*◌, Bool, List, none, ◌^◌, if◌then◌else◌, ◌==◌, [], not, Option, ◌+◌, leb, ◌&&◌,
  suc, true, length, ◌||◌, false, zero, take, ltb, drop,
}
use action_rpgserver.RoomControl.{register_room_server, quest_context_result, PacketType, code}

abbrev pub Reader : Type 0 → Type 0
Reader A = List ℕ → Option (A × List ℕ)

infixl 5 ◌>>=◌ ◌>>◌
unfoldable pub ◌>>=◌ : {A B : Type 0} → Reader A → (A → Reader B) → Reader B
◌>>=◌ m f bs = elim (m bs) [ none ↦ none | some (a, rest) ↦ f a rest ]

unfoldable pub ◌>>◌ : {B : Type 0} → Reader (Unit {0}) → Reader B → Reader B
m >> k = m >>= λ _. k

unfoldable pub yields : {A : Type 0} → A → Reader A
yields a bs = some (a, bs)

unfoldable pub require : Bool → Reader (Unit {0})
require true bs = some (tt, bs)
require false bs = none

abbrev pub finished : Reader (Unit {0})
finished [] = some (tt, [])
finished (b ∷ bs) = none

unfoldable pub read_uint8 : Reader ℕ
read_uint8 (b ∷ bs) = some (b, bs)
read_uint8 [] = none

unfoldable pub read_uint16 : Reader ℕ
read_uint16 (a ∷ b ∷ bs) = some (a * 2 ^ 8 + b, bs)
read_uint16 _ = none

unfoldable pub read_uint32 : Reader ℕ
read_uint32 (a ∷ b ∷ c ∷ d ∷ bs) = some (a * 2 ^ 24 + b * 2 ^ 16 + c * 2 ^ 8 + d, bs)
read_uint32 _ = none

unfoldable pub read_uint64 : Reader ℕ
read_uint64 = do high ← read_uint32; low ← read_uint32; yields (high * 2 ^ 32 + low)

-- The next `n` bytes.
unfoldable pub read_bytes : ℕ → Reader (List ℕ)
read_bytes n bs = if leb n (length bs) then some (take n bs, drop n bs) else none

unfoldable pub read_string : Reader (List ℕ)
read_string = do n ← read_uint16; read_bytes n

unfoldable pub read_expected : PacketType → Reader (Unit {0})
read_expected type = do t ← read_uint16; require (t == code type)

-- The loop of `ReadPlayerIds`.
unfoldable pub read_each : ℕ → Reader (List ℕ)
read_each zero = yields []
read_each (suc n) = do
  id ← read_uint64
  require (not (id == 0))
  ids ← read_each n
  yields (id ∷ ids)

unfoldable pub read_player_ids : Bool → Reader (List ℕ)
read_player_ids allow_empty = do
  count ← read_uint16
  require (not (not allow_empty && (count == 0) || ltb 64 count))
  read_each count

-- What a decoder returns.
abbrev pub packet : {A : Type 0} → Reader A → List ℕ → Option A
packet m bs = elim (m bs) [ none ↦ none | some (a, _) ↦ some a ]

-- `ReadPacketType`: the number of the type, when an enumerator has it.
unfoldable pub read_packet_type : List ℕ → Option ℕ
read_packet_type = packet do
  type ← read_uint16
  require (not (ltb type (code register_room_server)))
  require (not (ltb (code quest_context_result) type))
  yields type
