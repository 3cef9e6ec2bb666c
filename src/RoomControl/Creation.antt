-- ===== src/RoomControl/Creation.antt =====
-- Shared/RoomControlProtocol.cpp: the packets by which room servers register and rooms are created.
pub mod RoundTrip
use action_rpgserver.RoomControl.{register_room_server, create_room, create_room_result}
use action_rpgserver.RoomControl.Reader.{
  ◌>>=◌, ◌>>◌, yields, packet, read_expected, read_uint64, read_uint32, read_uint8, read_string,
  read_player_ids, require, read_uint16, finished,
}
use action_rpgserver.Common.{
  ℕ, Bool, List, leb, true, length, Option, ◌&&◌, ◌∷◌, ◌==◌, ◌||◌, [], if◌then◌else◌, not, false,
}
use action_rpgserver.RoomControl.Writer.{
  finish, write_type, write_uint64, write_uint32, write_uint8, write_string, write_player_ids,
  write_uint16,
}

abbrev hex_digit : ℕ → Bool
hex_digit c = leb 48 c && leb c 57 || (leb 97 c && leb c 102) || (leb 65 c && leb c 70)

-- std::all_of
abbrev all_hex : List ℕ → Bool
all_hex [] = true
all_hex (c ∷ cs) = hex_digit c && all_hex cs

unfoldable pub is_authentication_key : List ℕ → Bool
is_authentication_key key = length key == 64 && all_hex key

pub record RegisterRoomServer : Type 0 where
  pub room_server_id : ℕ
  pub max_room_count : ℕ
  pub authentication_key : List ℕ

pub encode_register_room_server : RegisterRoomServer → List ℕ
encode_register_room_server p = finish (
    write_type register_room_server
    ∷ write_uint64 p.room_server_id
    ∷ write_uint32 p.max_room_count
    ∷ write_string p.authentication_key
    ∷ [])

pub decode_register_room_server : List ℕ → Option RegisterRoomServer
decode_register_room_server = packet do
  read_expected register_room_server
  room_server_id ← read_uint64
  max_room_count ← read_uint32
  authentication_key ← read_string
  require (is_authentication_key authentication_key)
  require (not (room_server_id == 0))
  require (not (max_room_count == 0))
  finished
  yields (record {
    room_server_id = room_server_id;
    max_room_count = max_room_count;
    authentication_key = authentication_key;
  })

pub record CreateRoom : Type 0 where
  pub request_id : ℕ
  pub dungeon_id : ℕ
  pub participants : List ℕ

pub encode_create_room : CreateRoom → List ℕ
encode_create_room p = finish (
    write_type create_room
    ∷ write_uint64 p.request_id
    ∷ write_uint32 p.dungeon_id
    ∷ write_player_ids p.participants
    ∷ [])

pub decode_create_room : List ℕ → Option CreateRoom
decode_create_room = packet do
  read_expected create_room
  request_id ← read_uint64
  dungeon_id ← read_uint32
  participants ← read_player_ids false
  require (not (request_id == 0))
  require (not (dungeon_id == 0))
  finished
  yields (record { request_id = request_id; dungeon_id = dungeon_id; participants = participants })

pub record CreateRoomResult : Type 0 where
  pub request_id : ℕ
  pub succeeded : Bool
  pub room_id : ℕ
  pub combat_seed : ℕ
  pub broker_address : List ℕ
  pub broker_port : ℕ

pub encode_create_room_result : CreateRoomResult → List ℕ
encode_create_room_result p = finish (
    write_type create_room_result
    ∷ write_uint64 p.request_id
    ∷ write_uint8 (if p.succeeded then 1 else 0)
    ∷ write_uint64 p.room_id
    ∷ write_uint64 p.combat_seed
    ∷ write_string p.broker_address
    ∷ write_uint16 p.broker_port
    ∷ [])

pub decode_create_room_result : List ℕ → Option CreateRoomResult
decode_create_room_result = packet do
  read_expected create_room_result
  request_id ← read_uint64
  succeeded ← read_uint8
  require (leb succeeded 1)
  room_id ← read_uint64
  combat_seed ← read_uint64
  broker_address ← read_string
  broker_port ← read_uint16
  require (not (request_id == 0))
  require (leb (length broker_address) 255)
  finished
  require (
      not (
        not (succeeded == 0)
        && (room_id == 0
            || (combat_seed == 0)
            || (length broker_address == 0)
            || (broker_port == 0))))
  yields (record {
    request_id = request_id;
    succeeded = not (succeeded == 0);
    room_id = room_id;
    combat_seed = combat_seed;
    broker_address = broker_address;
    broker_port = broker_port;
  })
