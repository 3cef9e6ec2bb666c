-- ===== src/RoomControl/Writer.antt =====
-- `PacketWriter`: each function gives the bytes that a call appends.
use action_rpgserver.Common.{ℕ, List, ◌/◌, min, ◌∷◌, length, [], ◌^◌, ◌++◌, ◌%◌, ◌-◌, take}
use action_rpgserver.RoomControl.{PacketType, code}

unfoldable pub write_uint8 : ℕ → List ℕ
write_uint8 v = v ∷ []

unfoldable pub write_uint16 : ℕ → List ℕ
write_uint16 v = (v / 2 ^ 8 % 256) ∷ (v % 256) ∷ []

unfoldable pub write_uint32 : ℕ → List ℕ
write_uint32 v = (v / 2 ^ 24 % 256) ∷ (v / 2 ^ 16 % 256) ∷ (v / 2 ^ 8 % 256) ∷ (v % 256) ∷ []

unfoldable pub write_uint64 : ℕ → List ℕ
write_uint64 v = write_uint32 (v / 2 ^ 32 % 2 ^ 32) ++ write_uint32 (v % 2 ^ 32)

-- A longer string is cut off.
unfoldable pub write_string : List ℕ → List ℕ
write_string s = let n = min (length s) (2 ^ 16 - 1) in write_uint16 n ++ take n s

-- The constructor of `PacketWriter` writes the type.
unfoldable pub write_type : PacketType → List ℕ
write_type type = write_uint16 (code type)

unfoldable pub write_each : List ℕ → List ℕ
write_each [] = []
write_each (id ∷ ids) = write_uint64 id ++ write_each ids

unfoldable pub write_player_ids : List ℕ → List ℕ
write_player_ids ids = write_uint16 (length ids % 2 ^ 16) ++ write_each ids

-- `Finish`: the bytes of the writes in their order.
abbrev pub finish : List (List ℕ) → List ℕ
finish [] = []
finish (bytes ∷ rest) = bytes ++ finish rest
