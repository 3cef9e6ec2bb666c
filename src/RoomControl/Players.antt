-- ===== src/RoomControl/Players.antt =====
-- Shared/RoomControlProtocol.cpp: the packets about one player of a room.
pub mod RoundTrip
use action_rpgserver.RoomControl.{
  confirm_join, enter_room, leave_room, update_player_progress, quest_context_request,
}
use action_rpgserver.RoomControl.Reader.{
  ◌>>=◌, ◌>>◌, yields, packet, read_expected, read_uint64, read_uint32, require, read_string,
  finished,
}
use action_rpgserver.Common.{ℕ, List, Option, ◌∷◌, [], not, ◌==◌, length, leb}
use action_rpgserver.RoomControl.Writer.{
  finish, write_type, write_uint64, write_uint32, write_string,
}

pub record ConfirmJoin : Type 0 where
  pub room_id : ℕ
  pub player_id : ℕ
  pub challenge : ℕ
  pub character_id : ℕ
  pub progression : List ℕ

pub encode_confirm_join : ConfirmJoin → List ℕ
encode_confirm_join p = finish (
    write_type confirm_join
    ∷ write_uint64 p.room_id
    ∷ write_uint64 p.player_id
    ∷ write_uint64 p.challenge
    ∷ write_uint32 p.character_id
    ∷ write_string p.progression
    ∷ [])

pub decode_confirm_join : List ℕ → Option ConfirmJoin
decode_confirm_join = packet do
  read_expected confirm_join
  room_id ← read_uint64
  player_id ← read_uint64
  challenge ← read_uint64
  character_id ← read_uint32
  require (not (character_id == 0))
  progression ← read_string
  require (not (length progression == 0))
  require (leb (length progression) 32768)
  require (not (room_id == 0))
  require (not (player_id == 0))
  require (not (challenge == 0))
  finished
  yields (record {
    room_id = room_id;
    player_id = player_id;
    challenge = challenge;
    character_id = character_id;
    progression = progression;
  })

pub record UpdatePlayerProgress : Type 0 where
  pub room_id : ℕ
  pub player_id : ℕ
  pub progression : List ℕ

pub encode_update_player_progress : UpdatePlayerProgress → List ℕ
encode_update_player_progress p = finish (
    write_type update_player_progress
    ∷ write_uint64 p.room_id
    ∷ write_uint64 p.player_id
    ∷ write_string p.progression
    ∷ [])

pub decode_update_player_progress : List ℕ → Option UpdatePlayerProgress
decode_update_player_progress = packet do
  read_expected update_player_progress
  room_id ← read_uint64
  require (not (room_id == 0))
  player_id ← read_uint64
  require (not (player_id == 0))
  progression ← read_string
  require (not (length progression == 0))
  require (leb (length progression) 32768)
  finished
  yields (record { room_id = room_id; player_id = player_id; progression = progression })

pub record EnterRoom : Type 0 where
  pub room_id : ℕ
  pub player_id : ℕ

unfoldable pub encode_enter_room : EnterRoom → List ℕ
encode_enter_room p =
    finish (write_type enter_room ∷ write_uint64 p.room_id ∷ write_uint64 p.player_id ∷ [])

pub decode_enter_room : List ℕ → Option EnterRoom
decode_enter_room = packet do
  read_expected enter_room
  room_id ← read_uint64
  player_id ← read_uint64
  require (not (room_id == 0))
  require (not (player_id == 0))
  finished
  yields (record { room_id = room_id; player_id = player_id })

pub record LeaveRoom : Type 0 where
  pub room_id : ℕ
  pub player_id : ℕ

pub encode_leave_room : LeaveRoom → List ℕ
encode_leave_room p =
    finish (write_type leave_room ∷ write_uint64 p.room_id ∷ write_uint64 p.player_id ∷ [])

pub decode_leave_room : List ℕ → Option LeaveRoom
decode_leave_room = packet do
  read_expected leave_room
  room_id ← read_uint64
  player_id ← read_uint64
  require (not (room_id == 0))
  require (not (player_id == 0))
  finished
  yields (record { room_id = room_id; player_id = player_id })

pub record QuestContextRequest : Type 0 where
  pub request_id : ℕ
  pub room_id : ℕ
  pub player_id : ℕ

pub encode_quest_context_request : QuestContextRequest → List ℕ
encode_quest_context_request p = finish (
    write_type quest_context_request
    ∷ write_uint64 p.request_id
    ∷ write_uint64 p.room_id
    ∷ write_uint64 p.player_id
    ∷ [])

pub decode_quest_context_request : List ℕ → Option QuestContextRequest
decode_quest_context_request = packet do
  read_expected quest_context_request
  request_id ← read_uint64
  require (not (request_id == 0))
  room_id ← read_uint64
  require (not (room_id == 0))
  player_id ← read_uint64
  require (not (player_id == 0))
  finished
  yields (record { request_id = request_id; room_id = room_id; player_id = player_id })
