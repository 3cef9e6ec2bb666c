-- ===== src/RoomControl.antt =====
-- Shared/RoomControlProtocol.h and .cpp: the packets between the town server and the room servers.
-- A byte vector or a string is the list of its bytes; an enumerator is written as its number.
pub mod Writer
pub mod Reader
pub mod Creation
pub mod Endings
pub mod Players
pub mod Quests
pub mod Packets
mod Tests
use action_rpgserver.Common.{ℕ}

pub data PacketType : Type 0 where
  register_room_server create_room create_room_result confirm_join enter_room : PacketType
  leave_room room_ended finish_room finish_room_result room_started : PacketType
  update_player_progress item_use_request item_use_result quest_events : PacketType
  quest_events_ack quest_context_request quest_context_result : PacketType

-- static_cast<std::uint16_t>
abbrev pub code : PacketType → ℕ
code register_room_server = 1
code create_room = 2
code create_room_result = 3
code confirm_join = 4
code enter_room = 5
code leave_room = 6
code room_ended = 7
code finish_room = 8
code finish_room_result = 9
code room_started = 10
code update_player_progress = 11
code item_use_request = 12
code item_use_result = 13
code quest_events = 14
code quest_events_ack = 15
code quest_context_request = 16
code quest_context_result = 17
