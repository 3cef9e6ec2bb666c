-- ===== src/RoomControl/Packets.antt =====
-- The packets of Shared/RoomControlProtocol.h together: an encoder and a decoder for each type.
use action_rpgserver.Common.{none, some, refl, Option, List, ◌≡◌, ℕ}
use action_rpgserver.Common.Outcome.{Outcome, returns, throws, Returns}
use action_rpgserver.RoomControl.{
  PacketType, register_room_server, create_room, create_room_result, confirm_join, enter_room,
  leave_room, room_ended, finish_room, finish_room_result, room_started, update_player_progress,
  item_use_request, item_use_result, quest_events, quest_events_ack, quest_context_request,
  quest_context_result,
}
use action_rpgserver.RoomControl.Creation.{
  RegisterRoomServer, encode_register_room_server, decode_register_room_server, CreateRoom,
  encode_create_room, decode_create_room, CreateRoomResult, encode_create_room_result,
  decode_create_room_result,
}
use action_rpgserver.RoomControl.Creation.RoundTrip.{
  IsRegisterRoomServer, decode-encode-register_room_server, IsCreateRoom, decode-encode-create_room,
  IsCreateRoomResult, decode-encode-create_room_result,
}
use action_rpgserver.RoomControl.Players.{
  ConfirmJoin, encode_confirm_join, decode_confirm_join, EnterRoom, encode_enter_room,
  decode_enter_room, LeaveRoom, encode_leave_room, decode_leave_room, UpdatePlayerProgress,
  encode_update_player_progress, decode_update_player_progress, QuestContextRequest,
  encode_quest_context_request, decode_quest_context_request,
}
use action_rpgserver.RoomControl.Players.RoundTrip.{
  IsConfirmJoin, decode-encode-confirm_join, IsEnterRoom, decode-encode-enter_room, IsLeaveRoom,
  decode-encode-leave_room, IsUpdatePlayerProgress, decode-encode-update_player_progress,
  IsQuestContextRequest, decode-encode-quest_context_request,
}
use action_rpgserver.RoomControl.Endings.{
  RoomEnded, encode_room_ended, decode_room_ended, FinishRoom, encode_finish_room,
  decode_finish_room, FinishRoomResult, encode_finish_room_result, decode_finish_room_result,
  RoomStarted, encode_room_started, decode_room_started,
}
use action_rpgserver.RoomControl.Endings.RoundTrip.{
  IsRoomEnded, decode-encode-room_ended, IsFinishRoom, decode-encode-finish_room,
  IsFinishRoomResult, decode-encode-finish_room_result, IsRoomStarted, decode-encode-room_started,
}
use action_rpgserver.RoomControl.Quests.{
  ItemUseRequest, encode_item_use_request, decode_item_use_request, encode_item_use_result,
  decode_item_use_result, QuestEvents, encode_quest_events, decode_quest_events,
  encode_quest_events_ack, decode_quest_events_ack, QuestContextResult, encode_quest_context_result,
  decode_quest_context_result,
}
use action_rpgserver.RoomControl.Quests.RoundTrip.{
  IsItemUse, decode-encode-item_use_request, decode-encode-item_use_result, AreQuestEvents,
  decode-encode-quest_events, decode-encode-quest_events_ack, IsQuestContext,
  decode-encode-quest_context_result,
}

pub data Packet : Type 0 where
  of_register_room_server : RegisterRoomServer → Packet
  of_create_room : CreateRoom → Packet
  of_create_room_result : CreateRoomResult → Packet
  of_confirm_join : ConfirmJoin → Packet
  of_enter_room : EnterRoom → Packet
  of_leave_room : LeaveRoom → Packet
  of_room_ended : RoomEnded → Packet
  of_finish_room : FinishRoom → Packet
  of_finish_room_result : FinishRoomResult → Packet
  of_room_started : RoomStarted → Packet
  of_update_player_progress : UpdatePlayerProgress → Packet
  of_item_use_request : ItemUseRequest → Packet
  of_item_use_result : ItemUseRequest → Packet
  of_quest_events : QuestEvents → Packet
  of_quest_events_ack : QuestEvents → Packet
  of_quest_context_request : QuestContextRequest → Packet
  of_quest_context_result : QuestContextResult → Packet

abbrev pub type_of : Packet → PacketType
type_of (of_register_room_server p) = register_room_server
type_of (of_create_room p) = create_room
type_of (of_create_room_result p) = create_room_result
type_of (of_confirm_join p) = confirm_join
type_of (of_enter_room p) = enter_room
type_of (of_leave_room p) = leave_room
type_of (of_room_ended p) = room_ended
type_of (of_finish_room p) = finish_room
type_of (of_finish_room_result p) = finish_room_result
type_of (of_room_started p) = room_started
type_of (of_update_player_progress p) = update_player_progress
type_of (of_item_use_request p) = item_use_request
type_of (of_item_use_result p) = item_use_result
type_of (of_quest_events p) = quest_events
type_of (of_quest_events_ack p) = quest_events_ack
type_of (of_quest_context_request p) = quest_context_request
type_of (of_quest_context_result p) = quest_context_result

abbrev pub IsPacket : Packet → Type 0
IsPacket (of_register_room_server p) = IsRegisterRoomServer p
IsPacket (of_create_room p) = IsCreateRoom p
IsPacket (of_create_room_result p) = IsCreateRoomResult p
IsPacket (of_confirm_join p) = IsConfirmJoin p
IsPacket (of_enter_room p) = IsEnterRoom p
IsPacket (of_leave_room p) = IsLeaveRoom p
IsPacket (of_room_ended p) = IsRoomEnded p
IsPacket (of_finish_room p) = IsFinishRoom p
IsPacket (of_finish_room_result p) = IsFinishRoomResult p
IsPacket (of_room_started p) = IsRoomStarted p
IsPacket (of_update_player_progress p) = IsUpdatePlayerProgress p
IsPacket (of_item_use_request p) = IsItemUse p
IsPacket (of_item_use_result p) = IsItemUse p
IsPacket (of_quest_events p) = AreQuestEvents p
IsPacket (of_quest_events_ack p) = AreQuestEvents p
IsPacket (of_quest_context_request p) = IsQuestContextRequest p
IsPacket (of_quest_context_result p) = IsQuestContext p

unfoldable pub encode : Packet → Outcome (List ℕ)
encode (of_register_room_server p) = returns (encode_register_room_server p)
encode (of_create_room p) = returns (encode_create_room p)
encode (of_create_room_result p) = returns (encode_create_room_result p)
encode (of_confirm_join p) = returns (encode_confirm_join p)
encode (of_enter_room p) = returns (encode_enter_room p)
encode (of_leave_room p) = returns (encode_leave_room p)
encode (of_room_ended p) = returns (encode_room_ended p)
encode (of_finish_room p) = returns (encode_finish_room p)
encode (of_finish_room_result p) = returns (encode_finish_room_result p)
encode (of_room_started p) = returns (encode_room_started p)
encode (of_update_player_progress p) = returns (encode_update_player_progress p)
encode (of_item_use_request p) = encode_item_use_request p
encode (of_item_use_result p) = encode_item_use_result p
encode (of_quest_events p) = encode_quest_events p
encode (of_quest_events_ack p) = encode_quest_events_ack p
encode (of_quest_context_request p) = returns (encode_quest_context_request p)
encode (of_quest_context_result p) = encode_quest_context_result p

abbrev tagged : {A : Type 0} → (A → Packet) → Option A → Option Packet
tagged f none = none
tagged f (some p) = some (f p)

unfoldable pub decode : PacketType → List ℕ → Option Packet
decode register_room_server bytes =
    tagged of_register_room_server (decode_register_room_server bytes)
decode create_room bytes = tagged of_create_room (decode_create_room bytes)
decode create_room_result bytes = tagged of_create_room_result (decode_create_room_result bytes)
decode confirm_join bytes = tagged of_confirm_join (decode_confirm_join bytes)
decode enter_room bytes = tagged of_enter_room (decode_enter_room bytes)
decode leave_room bytes = tagged of_leave_room (decode_leave_room bytes)
decode room_ended bytes = tagged of_room_ended (decode_room_ended bytes)
decode finish_room bytes = tagged of_finish_room (decode_finish_room bytes)
decode finish_room_result bytes = tagged of_finish_room_result (decode_finish_room_result bytes)
decode room_started bytes = tagged of_room_started (decode_room_started bytes)
decode update_player_progress bytes =
    tagged of_update_player_progress (decode_update_player_progress bytes)
decode item_use_request bytes = tagged of_item_use_request (decode_item_use_request bytes)
decode item_use_result bytes = tagged of_item_use_result (decode_item_use_result bytes)
decode quest_events bytes = tagged of_quest_events (decode_quest_events bytes)
decode quest_events_ack bytes = tagged of_quest_events_ack (decode_quest_events_ack bytes)
decode quest_context_request bytes =
    tagged of_quest_context_request (decode_quest_context_request bytes)
decode quest_context_result bytes =
    tagged of_quest_context_result (decode_quest_context_result bytes)

tagged-encode :
    {A : Type 0} (f : A → Packet) (read : List ℕ → Option A) (m : Outcome (List ℕ)) (p : A)
    → Returns (λ bytes. read bytes ≡ some p) m
    → Returns (λ bytes. tagged f (read bytes) ≡ some (f p)) m
tagged-encode f read (returns bytes) p h = rw h refl
tagged-encode f read throws p h = elim h [ ]

-- Every packet whose fields satisfy the bounds that its decoder checks is encoded without an exception, and the
-- decoder of its type gives it back from its bytes as it was.
pub decode-encode :
    (packet : Packet)
    → IsPacket packet
    → Returns (λ bytes. decode (type_of packet) bytes ≡ some packet) (encode packet)
unfolding decode encode
decode-encode (of_register_room_server p) w =
    tagged-encode of_register_room_server decode_register_room_server
      (returns (encode_register_room_server p)) p (decode-encode-register_room_server p w)
decode-encode (of_create_room p) w =
    tagged-encode of_create_room decode_create_room (returns (encode_create_room p)) p
      (decode-encode-create_room p w)
decode-encode (of_create_room_result p) w =
    tagged-encode of_create_room_result decode_create_room_result
      (returns (encode_create_room_result p)) p (decode-encode-create_room_result p w)
decode-encode (of_confirm_join p) w =
    tagged-encode of_confirm_join decode_confirm_join (returns (encode_confirm_join p)) p
      (decode-encode-confirm_join p w)
decode-encode (of_enter_room p) w =
    tagged-encode of_enter_room decode_enter_room (returns (encode_enter_room p)) p
      (decode-encode-enter_room p w)
decode-encode (of_leave_room p) w =
    tagged-encode of_leave_room decode_leave_room (returns (encode_leave_room p)) p
      (decode-encode-leave_room p w)
decode-encode (of_room_ended p) w =
    tagged-encode of_room_ended decode_room_ended (returns (encode_room_ended p)) p
      (decode-encode-room_ended p w)
decode-encode (of_finish_room p) w =
    tagged-encode of_finish_room decode_finish_room (returns (encode_finish_room p)) p
      (decode-encode-finish_room p w)
decode-encode (of_finish_room_result p) w =
    tagged-encode of_finish_room_result decode_finish_room_result
      (returns (encode_finish_room_result p)) p (decode-encode-finish_room_result p w)
decode-encode (of_room_started p) w =
    tagged-encode of_room_started decode_room_started (returns (encode_room_started p)) p
      (decode-encode-room_started p w)
decode-encode (of_update_player_progress p) w =
    tagged-encode of_update_player_progress decode_update_player_progress
      (returns (encode_update_player_progress p)) p (decode-encode-update_player_progress p w)
decode-encode (of_item_use_request p) w =
    tagged-encode of_item_use_request decode_item_use_request (encode_item_use_request p) p
      (decode-encode-item_use_request p w)
decode-encode (of_item_use_result p) w =
    tagged-encode of_item_use_result decode_item_use_result (encode_item_use_result p) p
      (decode-encode-item_use_result p w)
decode-encode (of_quest_events p) w =
    tagged-encode of_quest_events decode_quest_events (encode_quest_events p) p
      (decode-encode-quest_events p w)
decode-encode (of_quest_events_ack p) w =
    tagged-encode of_quest_events_ack decode_quest_events_ack (encode_quest_events_ack p) p
      (decode-encode-quest_events_ack p w)
decode-encode (of_quest_context_request p) w =
    tagged-encode of_quest_context_request decode_quest_context_request
      (returns (encode_quest_context_request p)) p (decode-encode-quest_context_request p w)
decode-encode (of_quest_context_result p) w =
    tagged-encode of_quest_context_result decode_quest_context_result
      (encode_quest_context_result p) p (decode-encode-quest_context_result p w)
