-- ===== src/RoomControl/Quests.antt =====
-- Shared/RoomControlProtocol.cpp: the packets that carry a JSON text between a room and the town. Their
-- encoders throw on a text that is too long; an answer is the request's bytes under its own type.
pub mod RoundTrip
use action_rpgserver.RoomControl.{
  item_use_request, item_use_result, quest_events, quest_events_ack, quest_context_result,
  PacketType, code,
}
use action_rpgserver.RoomControl.Reader.{
  ◌>>=◌, ◌>>◌, yields, packet, read_packet_type, read_expected, read_uint64, require, read_string,
  finished,
}
use action_rpgserver.Common.{
  ℕ, List, set, Bool, if◌then◌else◌, Option, length, none, ◌==◌, ltb, false, ◌||◌, some, not, ◌∷◌,
  leb, [],
}
use action_rpgserver.Common.Outcome.{Outcome, throws, returns}
use action_rpgserver.RoomControl.Writer.{finish, write_type, write_uint64, write_string}

pub record ItemUseRequest : Type 0 where
  pub request_id : ℕ
  pub room_id : ℕ
  pub player_id : ℕ
  pub json : List ℕ

pub encode_item_use_request : ItemUseRequest → Outcome (List ℕ)
encode_item_use_request p =
    if length p.json == 0 || ltb 8192 (length p.json)
    then throws
    else returns (
        finish (
          write_type item_use_request
          ∷ write_uint64 p.request_id
          ∷ write_uint64 p.room_id
          ∷ write_uint64 p.player_id
          ∷ write_string p.json
          ∷ []))

pub decode_item_use_request : List ℕ → Option ItemUseRequest
decode_item_use_request = packet do
  read_expected item_use_request
  request_id ← read_uint64
  require (not (request_id == 0))
  room_id ← read_uint64
  require (not (room_id == 0))
  player_id ← read_uint64
  json ← read_string
  require (not (length json == 0))
  require (leb (length json) 8192)
  finished
  yields (record { request_id = request_id; room_id = room_id; player_id = player_id; json = json })

-- The two bytes of the type are written over.
pub retype : PacketType → List ℕ → List ℕ
retype type bytes = set (set bytes 0 0) 1 (code type)

pub encode_item_use_result : ItemUseRequest → Outcome (List ℕ)
encode_item_use_result p = elim (encode_item_use_request p) [
  | throws ↦ throws
  | returns bytes ↦ returns (retype item_use_result bytes)
]

-- `ReadPacketType` finds this type at the front.
pub has_type : PacketType → List ℕ → Bool
has_type type bytes = elim (read_packet_type bytes) [ none ↦ false | some t ↦ t == code type ]

pub decode_item_use_result : List ℕ → Option ItemUseRequest
decode_item_use_result bytes =
    if has_type item_use_result bytes
    then decode_item_use_request (retype item_use_request bytes)
    else none

pub record QuestEvents : Type 0 where
  pub room_id : ℕ
  pub json : List ℕ

pub encode_quest_events : QuestEvents → Outcome (List ℕ)
encode_quest_events p =
    if p.room_id == 0 || (length p.json == 0) || ltb 16384 (length p.json)
    then throws
    else returns
        (finish (write_type quest_events ∷ write_uint64 p.room_id ∷ write_string p.json ∷ []))

pub encode_quest_events_ack : QuestEvents → Outcome (List ℕ)
encode_quest_events_ack p = elim (encode_quest_events p) [
  | throws ↦ throws
  | returns bytes ↦ returns (set bytes 1 (code quest_events_ack))
]

pub decode_quest_events : List ℕ → Option QuestEvents
decode_quest_events = packet do
  read_expected quest_events
  room_id ← read_uint64
  require (not (room_id == 0))
  json ← read_string
  require (not (length json == 0))
  require (leb (length json) 16384)
  finished
  yields (record { room_id = room_id; json = json })

pub decode_quest_events_ack : List ℕ → Option QuestEvents
decode_quest_events_ack bytes =
    if has_type quest_events_ack bytes
    then decode_quest_events (set bytes 1 (code quest_events))
    else none

pub record QuestContextResult : Type 0 where
  pub request_id : ℕ
  pub room_id : ℕ
  pub player_id : ℕ
  pub json : List ℕ

pub encode_quest_context_result : QuestContextResult → Outcome (List ℕ)
encode_quest_context_result p =
    if ltb 16384 (length p.json)
    then throws
    else returns (
        finish (
          write_type quest_context_result
          ∷ write_uint64 p.request_id
          ∷ write_uint64 p.room_id
          ∷ write_uint64 p.player_id
          ∷ write_string p.json
          ∷ []))

pub decode_quest_context_result : List ℕ → Option QuestContextResult
decode_quest_context_result = packet do
  read_expected quest_context_result
  request_id ← read_uint64
  require (not (request_id == 0))
  room_id ← read_uint64
  require (not (room_id == 0))
  player_id ← read_uint64
  require (not (player_id == 0))
  json ← read_string
  require (leb (length json) 16384)
  finished
  yields (record { request_id = request_id; room_id = room_id; player_id = player_id; json = json })
