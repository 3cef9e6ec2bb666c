-- ===== src/RoomControl/Tests.antt =====
-- Packets between the servers at concrete values.
use action_rpgserver.RoomControl.Packets.{of_create_room, type_of, encode, decode, decode-encode}
use action_rpgserver.RoomControl.Endings.{
  cleared, RoomEnded, RoomStarted, FinishRoom, FinishRoomResult, decode_finish_room,
  decode_finish_room_result, decode_room_ended, decode_room_started, encode_finish_room,
  encode_finish_room_result, encode_room_ended, encode_room_started,
}
use action_rpgserver.Common.{ℕ, refl, List, true, ◌∷◌, arith, [], ◌≡◌, some}
use action_rpgserver.RoomControl.Players.{
  encode_enter_room, ConfirmJoin, decode_confirm_join, UpdatePlayerProgress,
  decode_update_player_progress, QuestContextRequest, decode_quest_context_request,
  encode_confirm_join, encode_update_player_progress, encode_quest_context_request,
}
use action_rpgserver.RoomControl.Creation.{
  RegisterRoomServer, is_authentication_key, decode_register_room_server, CreateRoom,
  decode_create_room, CreateRoomResult, decode_create_room_result, encode_register_room_server,
  encode_create_room, encode_create_room_result,
}
use action_rpgserver.RoomControl.Creation.RoundTrip.{
  IsCreateRoom, IsCreateRoomResult, IsRegisterRoomServer, decode-encode-register_room_server,
  decode-encode-create_room, decode-encode-create_room_result,
}
use action_rpgserver.RoomControl.Endings.RoundTrip.{
  IsFinishRoom, IsFinishRoomResult, IsRoomEnded, IsRoomStarted, decode-encode-finish_room,
  decode-encode-finish_room_result, decode-encode-room_ended, decode-encode-room_started,
}
use action_rpgserver.RoomControl.Players.RoundTrip.{
  IsConfirmJoin, IsUpdatePlayerProgress, IsQuestContextRequest, decode-encode-confirm_join,
  decode-encode-update_player_progress, decode-encode-quest_context_request,
}
use action_rpgserver.RoomControl.Quests.{
  QuestContextResult, ItemUseRequest, QuestEvents, decode_quest_context_result,
  decode_item_use_request, decode_item_use_result, decode_quest_events, decode_quest_events_ack,
  encode_quest_context_result, encode_item_use_request, encode_item_use_result, encode_quest_events,
  encode_quest_events_ack,
}
use action_rpgserver.RoomControl.Quests.RoundTrip.{
  IsQuestContext, IsItemUse, AreQuestEvents, decode-encode-quest_context_result,
  decode-encode-item_use_request, decode-encode-item_use_result, decode-encode-quest_events,
  decode-encode-quest_events_ack,
}
use action_rpgserver.Common.Outcome.{Returns}
use action_rpgserver.RoomControl.Writer.{write_type, write_uint16, write_uint64, write_uint32}

abbrev key : List ℕ
key =
    97 ∷ 97 ∷ 97 ∷ 97 ∷ 97 ∷ 97 ∷ 97 ∷ 97 ∷ 97 ∷ 97 ∷ 97 ∷ 97 ∷ 97 ∷ 97 ∷ 97 ∷ 97 ∷ 97 ∷ 97 ∷ 97
    ∷ 97 ∷ 97 ∷ 97 ∷ 97 ∷ 97 ∷ 97 ∷ 97 ∷ 97 ∷ 97 ∷ 97 ∷ 97 ∷ 97 ∷ 97 ∷ 97 ∷ 97 ∷ 97 ∷ 97 ∷ 97 ∷ 97
    ∷ 97 ∷ 97 ∷ 97 ∷ 97 ∷ 97 ∷ 97 ∷ 97 ∷ 97 ∷ 97 ∷ 97 ∷ 97 ∷ 97 ∷ 97 ∷ 97 ∷ 97 ∷ 97 ∷ 97 ∷ 97 ∷ 97
    ∷ 97 ∷ 97 ∷ 97 ∷ 97 ∷ 97 ∷ 97 ∷ 97 ∷ []

-- "{}", then "10.0.0.1".
abbrev empty_object : List ℕ
empty_object = 123 ∷ 125 ∷ []

abbrev address : List ℕ
address = 49 ∷ 48 ∷ 46 ∷ 48 ∷ 46 ∷ 48 ∷ 46 ∷ 49 ∷ []

abbrev players : List ℕ
players = 7 ∷ 9 ∷ []

-- A player's entry into a room is 18 bytes.
enter_room_bytes :
    encode_enter_room (record { room_id = 258; player_id = 9 })
    ≡ 0 ∷ 5 ∷ 0 ∷ 0 ∷ 0 ∷ 0 ∷ 0 ∷ 0 ∷ 1 ∷ 2 ∷ 0 ∷ 0 ∷ 0 ∷ 0 ∷ 0 ∷ 0 ∷ 0 ∷ 9 ∷ []
unfolding encode_enter_room write_type write_uint16 write_uint64 write_uint32
enter_room_bytes = refl

abbrev register_room_server_packet : RegisterRoomServer
register_room_server_packet = record {
  room_server_id = 5;
  max_room_count = 16;
  authentication_key = key;
}

register_room_server_packet-IsRegisterRoomServer : IsRegisterRoomServer register_room_server_packet
unfolding is_authentication_key
register_room_server_packet-IsRegisterRoomServer = record {
  room_server_id_fits = omega arith;
  max_room_count_fits = omega arith;
  authentication_key_given = refl;
  room_server_id_set = omega arith;
  max_room_count_set = omega arith;
}

register_room_server_comes_back :
    decode_register_room_server (encode_register_room_server register_room_server_packet)
    ≡ some register_room_server_packet
register_room_server_comes_back =
    decode-encode-register_room_server register_room_server_packet
      register_room_server_packet-IsRegisterRoomServer

abbrev create_room_packet : CreateRoom
create_room_packet = record { request_id = 5; dungeon_id = 4; participants = players }

create_room_packet-IsCreateRoom : IsCreateRoom create_room_packet
create_room_packet-IsCreateRoom = record {
  request_id_fits = omega arith;
  dungeon_id_fits = omega arith;
  participants_ids = (omega arith, omega arith, (omega arith, omega arith, tt));
  participants_some = omega arith;
  participants_few = omega arith;
  request_id_set = omega arith;
  dungeon_id_set = omega arith;
}

create_room_comes_back :
    decode_create_room (encode_create_room create_room_packet) ≡ some create_room_packet
create_room_comes_back =
    decode-encode-create_room create_room_packet create_room_packet-IsCreateRoom

abbrev create_room_result_packet : CreateRoomResult
create_room_result_packet = record {
  request_id = 5;
  succeeded = true;
  room_id = 5;
  combat_seed = 5;
  broker_address = address;
  broker_port = 7777;
}

create_room_result_packet-IsCreateRoomResult : IsCreateRoomResult create_room_result_packet
create_room_result_packet-IsCreateRoomResult = record {
  request_id_fits = omega arith;
  room_id_fits = omega arith;
  combat_seed_fits = omega arith;
  broker_address_short = omega arith;
  broker_port_fits = omega arith;
  request_id_set = omega arith;
  complete = refl;
}

create_room_result_comes_back :
    decode_create_room_result (encode_create_room_result create_room_result_packet)
    ≡ some create_room_result_packet
create_room_result_comes_back =
    decode-encode-create_room_result create_room_result_packet
      create_room_result_packet-IsCreateRoomResult

abbrev finish_room_packet : FinishRoom
finish_room_packet = record { request_id = 5; room_id = 5; retry = true; participants = players }

finish_room_packet-IsFinishRoom : IsFinishRoom finish_room_packet
finish_room_packet-IsFinishRoom = record {
  request_id_fits = omega arith;
  request_id_set = omega arith;
  room_id_fits = omega arith;
  room_id_set = omega arith;
  participants_ids = (omega arith, omega arith, (omega arith, omega arith, tt));
  participants_some = omega arith;
  participants_few = omega arith;
}

finish_room_comes_back :
    decode_finish_room (encode_finish_room finish_room_packet) ≡ some finish_room_packet
finish_room_comes_back =
    decode-encode-finish_room finish_room_packet finish_room_packet-IsFinishRoom

abbrev finish_room_result_packet : FinishRoomResult
finish_room_result_packet = record {
  request_id = 5;
  previous_room_id = 5;
  succeeded = true;
  room_id = 5;
  combat_seed = 5;
  broker_address = address;
  broker_port = 7777;
}

finish_room_result_packet-IsFinishRoomResult : IsFinishRoomResult finish_room_result_packet
finish_room_result_packet-IsFinishRoomResult = record {
  request_id_fits = omega arith;
  request_id_set = omega arith;
  previous_room_id_fits = omega arith;
  previous_room_id_set = omega arith;
  room_id_fits = omega arith;
  combat_seed_fits = omega arith;
  broker_address_short = omega arith;
  broker_port_fits = omega arith;
  complete = refl;
}

finish_room_result_comes_back :
    decode_finish_room_result (encode_finish_room_result finish_room_result_packet)
    ≡ some finish_room_result_packet
finish_room_result_comes_back =
    decode-encode-finish_room_result finish_room_result_packet
      finish_room_result_packet-IsFinishRoomResult

abbrev room_ended_packet : RoomEnded
room_ended_packet = record { room_id = 5; reason = cleared; rewarded = players }

room_ended_packet-IsRoomEnded : IsRoomEnded room_ended_packet
room_ended_packet-IsRoomEnded = record {
  room_id_fits = omega arith;
  rewarded_ids = (omega arith, omega arith, (omega arith, omega arith, tt));
  rewarded_few = omega arith;
  room_id_set = omega arith;
}

room_ended_comes_back :
    decode_room_ended (encode_room_ended room_ended_packet) ≡ some room_ended_packet
room_ended_comes_back = decode-encode-room_ended room_ended_packet room_ended_packet-IsRoomEnded

abbrev room_started_packet : RoomStarted
room_started_packet = record { room_id = 5; participants = players }

room_started_packet-IsRoomStarted : IsRoomStarted room_started_packet
room_started_packet-IsRoomStarted = record {
  room_id_fits = omega arith;
  room_id_set = omega arith;
  participants_ids = (omega arith, omega arith, (omega arith, omega arith, tt));
  participants_some = omega arith;
  participants_few = omega arith;
}

room_started_comes_back :
    decode_room_started (encode_room_started room_started_packet) ≡ some room_started_packet
room_started_comes_back =
    decode-encode-room_started room_started_packet room_started_packet-IsRoomStarted

abbrev confirm_join_packet : ConfirmJoin
confirm_join_packet = record {
  room_id = 5;
  player_id = 9;
  challenge = 12345678901234567890;
  character_id = 2;
  progression = empty_object;
}

confirm_join_packet-IsConfirmJoin : IsConfirmJoin confirm_join_packet
confirm_join_packet-IsConfirmJoin = record {
  room_id_fits = omega arith;
  player_id_fits = omega arith;
  challenge_fits = omega arith;
  character_id_fits = omega arith;
  character_id_set = omega arith;
  progression_short = omega arith;
  progression_given = omega arith;
  room_id_set = omega arith;
  player_id_set = omega arith;
  challenge_set = omega arith;
}

confirm_join_comes_back :
    decode_confirm_join (encode_confirm_join confirm_join_packet) ≡ some confirm_join_packet
confirm_join_comes_back =
    decode-encode-confirm_join confirm_join_packet confirm_join_packet-IsConfirmJoin

abbrev update_player_progress_packet : UpdatePlayerProgress
update_player_progress_packet = record { room_id = 5; player_id = 9; progression = empty_object }

update_player_progress_packet-IsUpdatePlayerProgress :
    IsUpdatePlayerProgress update_player_progress_packet
update_player_progress_packet-IsUpdatePlayerProgress = record {
  room_id_fits = omega arith;
  room_id_set = omega arith;
  player_id_fits = omega arith;
  player_id_set = omega arith;
  progression_short = omega arith;
  progression_given = omega arith;
}

update_player_progress_comes_back :
    decode_update_player_progress (encode_update_player_progress update_player_progress_packet)
    ≡ some update_player_progress_packet
update_player_progress_comes_back =
    decode-encode-update_player_progress update_player_progress_packet
      update_player_progress_packet-IsUpdatePlayerProgress

abbrev quest_context_request_packet : QuestContextRequest
quest_context_request_packet = record { request_id = 5; room_id = 5; player_id = 9 }

quest_context_request_packet-IsQuestContextRequest :
    IsQuestContextRequest quest_context_request_packet
quest_context_request_packet-IsQuestContextRequest = record {
  request_id_fits = omega arith;
  request_id_set = omega arith;
  room_id_fits = omega arith;
  room_id_set = omega arith;
  player_id_fits = omega arith;
  player_id_set = omega arith;
}

quest_context_request_comes_back :
    decode_quest_context_request (encode_quest_context_request quest_context_request_packet)
    ≡ some quest_context_request_packet
quest_context_request_comes_back =
    decode-encode-quest_context_request quest_context_request_packet
      quest_context_request_packet-IsQuestContextRequest

abbrev quest_context_result_packet : QuestContextResult
quest_context_result_packet = record {
  request_id = 5;
  room_id = 5;
  player_id = 9;
  json = empty_object;
}

quest_context_result_packet-IsQuestContext : IsQuestContext quest_context_result_packet
quest_context_result_packet-IsQuestContext = record {
  request_id_fits = omega arith;
  room_id_fits = omega arith;
  player_id_fits = omega arith;
  request_id_set = omega arith;
  room_id_set = omega arith;
  player_id_set = omega arith;
  json_short = omega arith;
}

quest_context_result_comes_back :
    Returns
      (λ bytes. decode_quest_context_result bytes ≡ some quest_context_result_packet)
      (encode_quest_context_result quest_context_result_packet)
quest_context_result_comes_back =
    decode-encode-quest_context_result quest_context_result_packet
      quest_context_result_packet-IsQuestContext

abbrev item_use_request_packet : ItemUseRequest
item_use_request_packet = record { request_id = 5; room_id = 5; player_id = 9; json = empty_object }

item_use_request_packet-IsItemUse : IsItemUse item_use_request_packet
item_use_request_packet-IsItemUse = record {
  request_id_fits = omega arith;
  room_id_fits = omega arith;
  player_id_fits = omega arith;
  request_id_set = omega arith;
  room_id_set = omega arith;
  json_given = omega arith;
  json_short = omega arith;
}

item_use_request_comes_back :
    Returns
      (λ bytes. decode_item_use_request bytes ≡ some item_use_request_packet)
      (encode_item_use_request item_use_request_packet)
item_use_request_comes_back =
    decode-encode-item_use_request item_use_request_packet item_use_request_packet-IsItemUse

item_use_result_comes_back :
    Returns
      (λ bytes. decode_item_use_result bytes ≡ some item_use_request_packet)
      (encode_item_use_result item_use_request_packet)
item_use_result_comes_back =
    decode-encode-item_use_result item_use_request_packet item_use_request_packet-IsItemUse

abbrev quest_events_packet : QuestEvents
quest_events_packet = record { room_id = 5; json = empty_object }

quest_events_packet-AreQuestEvents : AreQuestEvents quest_events_packet
quest_events_packet-AreQuestEvents = record {
  room_id_fits = omega arith;
  room_id_set = omega arith;
  json_given = omega arith;
  json_short = omega arith;
}

quest_events_comes_back :
    Returns
      (λ bytes. decode_quest_events bytes ≡ some quest_events_packet)
      (encode_quest_events quest_events_packet)
quest_events_comes_back =
    decode-encode-quest_events quest_events_packet quest_events_packet-AreQuestEvents

quest_events_ack_comes_back :
    Returns
      (λ bytes. decode_quest_events_ack bytes ≡ some quest_events_packet)
      (encode_quest_events_ack quest_events_packet)
quest_events_ack_comes_back =
    decode-encode-quest_events_ack quest_events_packet quest_events_packet-AreQuestEvents

decode-encode_example :
    Returns
      (λ bytes.
        decode (type_of (of_create_room create_room_packet)) bytes
        ≡ some (of_create_room create_room_packet))
      (encode (of_create_room create_room_packet))
decode-encode_example =
    decode-encode (of_create_room create_room_packet) create_room_packet-IsCreateRoom
