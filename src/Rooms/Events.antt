-- ===== src/Rooms/Events.antt =====
-- GameRoomServer/RoomManager.cpp: everything that reaches the strand of the room manager, and histories of it.
use action_rpgserver.Common.{[], ◌∷◌, false, List, ℕ, Bool, ◌++◌, Option}
use action_rpgserver.Rooms.State.{Settings, RoomManager, Room, Step}
use action_rpgserver.Rooms.Making.{
  create_room, remove_room, retire, finish_room, completion_validated,
}
use action_rpgserver.Rooms.Joining.{
  register_challenge, update_progress, confirm_join, complete_join, unannounced_removed,
  session_disconnected, disconnected_left, leave_room, left,
}
use action_rpgserver.Rooms.Reports.{
  complete, completed, stop_manager, room_started, quests_reported, acknowledge_quests,
  set_send_handler,
}
use action_rpgserver.RoomControl.Creation.{CreateRoom}
use action_rpgserver.RoomControl.Endings.{FinishRoom}
use action_rpgserver.RoomControl.Players.{ConfirmJoin, UpdatePlayerProgress}
use action_rpgserver.RoomControl.Quests.{QuestEvents}

-- A call of a method of the manager, or an answer that a room owes it.
pub data Event : Type 0 where
  create_requested : CreateRoom → ℕ → Bool → Event
  removal_requested : ℕ → Bool → Event
  retirement_answered : ℕ → Bool → Event
  finish_requested : FinishRoom → Event
  completion_answered : FinishRoom → Room → Bool → Event
  challenge_registered : ℕ → Option ℕ → ℕ → Event
  progress_updated : UpdatePlayerProgress → Event
  join_confirmed : ConfirmJoin → Event
  join_answered : ℕ → ℕ → ℕ → ℕ → ℕ → Bool → Bool → Event
  removal_answered : ℕ → ℕ → Bool → Event
  disconnected : ℕ → ℕ → ℕ → ℕ → ℕ → Event
  disconnection_answered : ℕ → ℕ → Bool → Bool → Event
  leave_requested : ℕ → ℕ → Event
  leave_answered : ℕ → ℕ → Bool → Event
  dungeon_completed : ℕ → Event
  completion_reported : ℕ → List ℕ → Event
  start_reported : ℕ → List ℕ → Event
  quest_events_reported : ℕ → List ℕ → Event
  quests_acknowledged : QuestEvents → Event
  send_handler_set : Bool → Event
  stop_requested : Event

unfoldable pub step : Settings → RoomManager → Event → Step
step c s (create_requested request replacing has_handler) =
    create_room c s request replacing has_handler
step c s (removal_requested id is_aborted) = remove_room s id is_aborted
step c s (retirement_answered id ready) = retire s id ready
step c s (finish_requested request) = finish_room s request
step c s (completion_answered request room is_valid) =
    completion_validated c s request room is_valid
step c s (challenge_registered challenge session generation) =
    register_challenge s challenge session generation
step c s (progress_updated request) = update_progress s request
step c s (join_confirmed request) = confirm_join s request
step c s (join_answered id player challenge session generation accepted confirmed) =
    complete_join s id player challenge session generation accepted confirmed
step c s (removal_answered id player is_empty) = unannounced_removed s id player is_empty
step c s (disconnected challenge session generation id player) =
    session_disconnected s challenge session generation id player
step c s (disconnection_answered id player is_removed is_empty) =
    disconnected_left s id player is_removed is_empty
step c s (leave_requested id player) = leave_room s id player
step c s (leave_answered id player is_empty) = left s id player is_empty
step c s (dungeon_completed id) = complete s id
step c s (completion_reported id players) = completed s id players
step c s (start_reported id players) = room_started s id players
step c s (quest_events_reported id json) = quests_reported s id json
step c s (quests_acknowledged request) = acknowledge_quests s request
step c s (send_handler_set present) = set_send_handler s present
step c s stop_requested = stop_manager s

-- The state after a history, and all actions in their order.
unfoldable pub run : Settings → RoomManager → List Event → Step
run c s [] = (s, [])
run c s (event ∷ events) =
    let (s', actions) = step c s event in
    let (s'', more) = run c s' events in (s'', actions ++ more)

-- The manager after its constructor; the clock gives the first random state.
abbrev pub new_manager : ℕ → RoomManager
new_manager clock = record {
  rooms = [];
  ended_rooms = [];
  retiring_rooms = [];
  pending_sessions = [];
  has_send_handler = false;
  next_room_id = 1;
  random_state = clock;
  stopped = false;
  objects = 0;
}
