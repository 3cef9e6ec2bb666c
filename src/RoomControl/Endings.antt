-- ===== src/RoomControl/Endings.antt =====
-- Shared/RoomControlProtocol.cpp: the packets by which rooms start, end and finish.
pub mod RoundTrip
use action_rpgserver.RoomControl.{room_ended, finish_room, finish_room_result, room_started}
use action_rpgserver.RoomControl.Reader.{
  ◌>>=◌, ◌>>◌, yields, packet, read_expected, read_uint64, read_uint8, require, read_player_ids,
  read_string, finished, read_uint16,
}
use action_rpgserver.Common.{
  ℕ, Bool, List, Option, ◌∷◌, not, if◌then◌else◌, true, [], ◌==◌, leb, ltb, false, length, ◌&&◌,
  ◌||◌,
}
use action_rpgserver.RoomControl.Writer.{
  finish, write_type, write_uint64, write_uint8, write_player_ids, write_string, write_uint16,
}

pub data RoomEndReason : Type 0 where
  cleared aborted : RoomEndReason

abbrev pub reason_code : RoomEndReason → ℕ
reason_code cleared = 1
reason_code aborted = 2

pub record FinishRoom : Type 0 where
  pub request_id : ℕ
  pub room_id : ℕ
  pub retry : Bool
  pub participants : List ℕ

pub encode_finish_room : FinishRoom → List ℕ
encode_finish_room p = finish (
    write_type finish_room
    ∷ write_uint64 p.request_id
    ∷ write_uint64 p.room_id
    ∷ write_uint8 (if p.retry then 1 else 0)
    ∷ write_player_ids p.participants
    ∷ [])

pub decode_finish_room : List ℕ → Option FinishRoom
decode_finish_room = packet do
  read_expected finish_room
  request_id ← read_uint64
  require (not (request_id == 0))
  room_id ← read_uint64
  require (not (room_id == 0))
  retry ← read_uint8
  require (leb retry 1)
  participants ← read_player_ids false
  finished
  yields (record {
    request_id = request_id;
    room_id = room_id;
    retry = not (retry == 0);
    participants = participants;
  })

pub record FinishRoomResult : Type 0 where
  pub request_id : ℕ
  pub previous_room_id : ℕ
  pub succeeded : Bool
  pub room_id : ℕ
  pub combat_seed : ℕ
  pub broker_address : List ℕ
  pub broker_port : ℕ

pub encode_finish_room_result : FinishRoomResult → List ℕ
encode_finish_room_result p = finish (
    write_type finish_room_result
    ∷ write_uint64 p.request_id
    ∷ write_uint64 p.previous_room_id
    ∷ write_uint8 (if p.succeeded then 1 else 0)
    ∷ write_uint64 p.room_id
    ∷ write_uint64 p.combat_seed
    ∷ write_string p.broker_address
    ∷ write_uint16 p.broker_port
    ∷ [])

pub decode_finish_room_result : List ℕ → Option FinishRoomResult
decode_finish_room_result = packet do
  read_expected finish_room_result
  request_id ← read_uint64
  require (not (request_id == 0))
  previous_room_id ← read_uint64
  require (not (previous_room_id == 0))
  succeeded ← read_uint8
  require (leb succeeded 1)
  room_id ← read_uint64
  combat_seed ← read_uint64
  broker_address ← read_string
  require (leb (length broker_address) 255)
  broker_port ← read_uint16
  finished
  require (
      not (
        not (succeeded == 0)
        && not (room_id == 0)
        && (combat_seed == 0 || (length broker_address == 0) || (broker_port == 0))))
  yields (record {
    request_id = request_id;
    previous_room_id = previous_room_id;
    succeeded = not (succeeded == 0);
    room_id = room_id;
    combat_seed = combat_seed;
    broker_address = broker_address;
    broker_port = broker_port;
  })

pub record RoomEnded : Type 0 where
  pub room_id : ℕ
  pub reason : RoomEndReason
  pub rewarded : List ℕ

pub encode_room_ended : RoomEnded → List ℕ
encode_room_ended p = finish (
    write_type room_ended
    ∷ write_uint64 p.room_id
    ∷ write_uint8 (reason_code p.reason)
    ∷ write_player_ids p.rewarded
    ∷ [])

pub decode_room_ended : List ℕ → Option RoomEnded
decode_room_ended = packet do
  read_expected room_ended
  room_id ← read_uint64
  reason ← read_uint8
  rewarded ← read_player_ids true
  require (not (room_id == 0))
  require (not (ltb reason 1))
  require (not (ltb 2 reason))
  finished
  yields (record {
    room_id = room_id;
    reason = if reason == 1 then cleared else aborted;
    rewarded = rewarded;
  })

pub record RoomStarted : Type 0 where
  pub room_id : ℕ
  pub participants : List ℕ

pub encode_room_started : RoomStarted → List ℕ
encode_room_started p =
    finish (write_type room_started ∷ write_uint64 p.room_id ∷ write_player_ids p.participants ∷ [])

pub decode_room_started : List ℕ → Option RoomStarted
decode_room_started = packet do
  read_expected room_started
  room_id ← read_uint64
  require (not (room_id == 0))
  participants ← read_player_ids false
  finished
  yields (record { room_id = room_id; participants = participants })
