-- ===== src/Rooms/Tests.antt =====
-- A manager with one dungeon: a room is made, finish_completed and made again.
use action_rpgserver.Common.{
  false, none, some, [], ◌∷◌, true, refl, nat_eq, List, ℕ, ◌≡◌, if◌then◌else◌, ◌==◌,
}
use action_rpgserver.Common.Map.{find, put}
use action_rpgserver.Rooms.State.{Settings, RoomManager, next_random}
use action_rpgserver.Rooms.Making.{make_room, refuses, create_room, repeats}
use action_rpgserver.Rooms.Joining.{confirm_join, register_challenge}
use action_rpgserver.Rooms.Reports.{stop_manager}
use action_rpgserver.Rooms.Events.{
  Event, run, new_manager, create_requested, challenge_registered, step,
}
use action_rpgserver.RoomControl.Creation.{CreateRoom}
use action_rpgserver.RoomControl.Players.{ConfirmJoin}
use action_rpgserver.Rooms.Invariant.{IsManager}
use action_rpgserver.Rooms.Stopped.{IsStill, run_stopped}
use action_rpgserver.Rooms.Histories.{run-IsManager}
use action_rpgserver.Rooms.Joins.{confirm_join-once}

abbrev one_dungeon : Settings
one_dungeon = record {
  room_server_id = 3;
  max_room_count = 1;
  definitions = (20, 4) ∷ [];
  session_broker_address = 49 ∷ [];
  session_broker_port = 7777;
}

abbrev request : CreateRoom
request = record { request_id = 9; dungeon_id = 20; participants = 7 ∷ 8 ∷ [] }

-- 3 << 32 | 1
abbrev first_room : ℕ
first_room = 12_884_901_889

abbrev history : List Event
history = create_requested request 0 true ∷ challenge_registered 77 (some 5) 1 ∷ []

abbrev joining : ConfirmJoin
joining = record {
  room_id = first_room;
  player_id = 7;
  challenge = 77;
  character_id = 2;
  progression = [];
}

-- The manager after `history`.
abbrev waiting_manager : RoomManager
waiting_manager = (record (new_manager 1) {
  rooms = (first_room, record { object = 0; dungeon_id = 20 }) ∷ [];
  pending_sessions = (77, record { session = 5; generation = 1 }) ∷ [];
  next_room_id = 2;
  random_state = 1_082_269_761;
  objects = 1;
})

runs : (run one_dungeon (new_manager 1) history).0 ≡ waiting_manager
unfolding run step create_room make_room refuses repeats register_challenge next_random find put
runs = refl

waits : find 77 waiting_manager.pending_sessions ≡ some (record { session = 5; generation = 1 })
unfolding find
waits = refl

run-IsManager_example : IsManager (run one_dungeon (new_manager 1) history).0
run-IsManager_example = run-IsManager one_dungeon 1 history

stops : (stop_manager waiting_manager).0.stopped ≡ true
unfolding stop_manager
stops = refl

run_stopped_example :
    IsStill
      (stop_manager waiting_manager).0
      (run one_dungeon (stop_manager waiting_manager).0 history).0
run_stopped_example = run_stopped one_dungeon history (stop_manager waiting_manager).0 stops

confirm_join-once_example :
    ((challenge : ℕ)
      → find challenge (confirm_join waiting_manager joining).0.pending_sessions ≡ (
          if joining.challenge == challenge
          then none
          else find challenge waiting_manager.pending_sessions))
    × ((confirm_join waiting_manager joining).0 ≡ record waiting_manager {
      pending_sessions = (confirm_join waiting_manager joining).0.pending_sessions;
    })
    × (confirm_join (confirm_join waiting_manager joining).0 joining
        ≡ ((confirm_join waiting_manager joining).0, []))
confirm_join-once_example = confirm_join-once waiting_manager joining

-- A place for a room is what the request needs.
granted : (make_room one_dungeon (new_manager 1) request 0).2.succeeded ≡ true
unfolding make_room refuses repeats find
granted = refl

refused : (make_room one_dungeon waiting_manager request 0).2.succeeded ≡ false
unfolding make_room refuses repeats find
refused = refl
