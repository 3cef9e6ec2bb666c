-- ===== src/Rooms/Reports.antt =====
-- GameRoomServer/RoomManager.cpp: what rooms report, and the stop of the manager.
use action_rpgserver.Common.Outcome.{Outcome, returns, throws}
use action_rpgserver.RoomControl.Quests.{encode_quest_events, QuestEvents}
use action_rpgserver.Rooms.State.{
  throw_out, Room, PendingSession, RoomManager, stop, complete_dungeon, acknowledge, Action, reject,
  call_room, Step, send,
}
use action_rpgserver.Common.{ℕ, Bool, true, none, some, List, [], ◌∷◌, ◌++◌, if◌then◌else◌, nat_eq}
use action_rpgserver.Common.Map.{Map, find, put, contains}
use action_rpgserver.RoomControl.Packets.{of_room_ended, of_room_started, of_quest_events}
use action_rpgserver.RoomControl.Endings.{cleared}

unfoldable pub complete : RoomManager → ℕ → Step
complete s id = elim (find id s.rooms) [
  | none ↦ (s, [])
  | some room ↦ (s, call_room room.object complete_dungeon ∷ [])
]

-- The answer of `CompleteDungeon` of the room.
unfoldable pub completed : RoomManager → ℕ → List ℕ → Step
completed s id players = (
  record s { ended_rooms = put id tt s.ended_rooms },
  send s (of_room_ended (record { room_id = id; reason = cleared; rewarded = players })),
)

unfoldable pub stop_all : Map ℕ Room → List Action
stop_all [] = []
stop_all ((id, room) ∷ rooms) = call_room room.object stop ∷ stop_all rooms

unfoldable pub reject_all : Map ℕ PendingSession → List Action
reject_all [] = []
reject_all ((challenge, pending) ∷ sessions) =
    reject pending.session challenge pending.generation ∷ reject_all sessions

unfoldable pub stop_manager : RoomManager → Step
stop_manager s = (
  record s { stopped = true; ended_rooms = []; pending_sessions = [] },
  stop_all s.rooms ++ reject_all s.pending_sessions,
)

-- What a room reports: that it has started, and the events of its quests.
unfoldable pub room_started : RoomManager → ℕ → List ℕ → Step
room_started s id players =
    if contains id s.rooms
    then (s, send s (of_room_started (record { room_id = id; participants = players })))
    else (s, [])

-- The encoder throws on an empty or a long text, before anything is sent.
abbrev sent_quests : RoomManager → QuestEvents → Outcome (List ℕ) → List Action
sent_quests s packet (returns bytes) = send s (of_quest_events packet)
sent_quests s packet throws = throw_out ∷ []

unfoldable pub quests_reported : RoomManager → ℕ → List ℕ → Step
quests_reported s id json =
    let packet : QuestEvents = record { room_id = id; json = json } in
    if contains id s.rooms then (s, sent_quests s packet (encode_quest_events packet)) else (s, [])

unfoldable pub acknowledge_quests : RoomManager → QuestEvents → Step
acknowledge_quests s request = elim (find request.room_id s.rooms) [
  | none ↦ (s, [])
  | some room ↦ (s, call_room room.object (acknowledge request.json) ∷ [])
]

abbrev pub set_send_handler : RoomManager → Bool → Step
set_send_handler s present = (record s { has_send_handler = present }, [])
