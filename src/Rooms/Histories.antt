-- ===== src/Rooms/Histories.antt =====
-- GameRoomServer/RoomManager.cpp: the invariant of the room manager along any history.
use action_rpgserver.Common.{
  none, some, [], ◌∷◌, false, refl, nat_eq, elim-cases, List, ℕ, Bool, if-cases, not, ◌||◌,
}
use action_rpgserver.Common.Map.{find, contains}
use action_rpgserver.Rooms.State.{Settings, RoomManager, Room, Action, Step}
use action_rpgserver.Rooms.Making.{
  create_room, finish_room, finish_completed, completion_validated, is_same,
}
use action_rpgserver.Rooms.Joining.{
  update_progress, complete_join, unannounced_removed, disconnected_left, leave_room, left,
}
use action_rpgserver.Rooms.Reports.{
  complete, completed, stop_manager, room_started, quests_reported, acknowledge_quests,
}
use action_rpgserver.Rooms.Events.{
  Event, step, run, new_manager, create_requested, removal_requested, retirement_answered,
  finish_requested, completion_answered, challenge_registered, progress_updated, join_confirmed,
  join_answered, removal_answered, disconnected, disconnection_answered, leave_requested,
  leave_answered, dungeon_completed, completion_reported, start_reported, quest_events_reported,
  quests_acknowledged, send_handler_set, stop_requested,
}
use action_rpgserver.Rooms.Invariant.{
  IsManager, remove_room-IsManager, retire-IsManager, same-IsManager, make_room-IsManager,
  emptied-IsManager, session_disconnected-IsManager, confirm_join-IsManager,
  register_challenge-IsManager, new_manager-IsManager,
}
use action_rpgserver.RoomControl.Endings.{FinishRoom}
use action_rpgserver.RoomControl.Creation.{CreateRoomResult}

finish_completed-IsManager :
    (s : RoomManager)
    → IsManager s
    → (request : FinishRoom) (result : CreateRoomResult)
    → IsManager (finish_completed s request result).0
unfolding finish_completed
finish_completed-IsManager s w request result =
    if-cases (λ (r : Step). IsManager r.0) result.succeeded
      (λ _. remove_room-IsManager s w request.room_id false) (λ _. w)

module _ (s : RoomManager) (w : IsManager s) where
  completion_validated-IsManager :
      (c : Settings) (request : FinishRoom) (room : Room) (is_valid : Bool)
      → IsManager (completion_validated c s request room is_valid).0
  unfolding completion_validated
  completion_validated-IsManager c request room is_valid =
      if-cases (λ (r : Step). IsManager r.0)
        (not is_valid
          || not (is_same (find request.room_id s.rooms) room)
          || not (contains request.room_id s.ended_rooms))
        (λ _. w)
        λ _.
          if-cases (λ (r : Step). IsManager r.0) request.retry
            (λ _.
              finish_completed-IsManager _ (make_room-IsManager s w c _ request.room_id) request _)
            (λ _. finish_completed-IsManager s w request _)

  unannounced_removed-IsManager :
      (id player : ℕ) (is_empty : Bool) → IsManager (unannounced_removed s id player is_empty).0
  unfolding unannounced_removed
  unannounced_removed-IsManager id player is_empty =
      if-cases (λ (r : Step). IsManager r.0) (contains id s.rooms)
        (λ _. emptied-IsManager s w id is_empty) (λ _. w)

  disconnected_left-IsManager :
      (id player : ℕ) (is_removed is_empty : Bool)
      → IsManager (disconnected_left s id player is_removed is_empty).0
  unfolding disconnected_left
  disconnected_left-IsManager id player is_removed is_empty = emptied-IsManager s w id is_empty

  left-IsManager : (id player : ℕ) (is_empty : Bool) → IsManager (left s id player is_empty).0
  unfolding left
  left-IsManager id player is_empty = emptied-IsManager s w id is_empty

  asked-IsManager :
      (id : ℕ) (a : List Action) (f : Room → List Action)
      → IsManager
          (elim (find id s.rooms) as (λ _. Step) [ none ↦ (s, a) | some room ↦ (s, f room) ]).0
  asked-IsManager id a f =
      elim-cases (λ (r : Step). IsManager r.0) (find id s.rooms) (λ _. w) (λ room _. w)

  pub step-IsManager : (c : Settings) (event : Event) → IsManager (step c s event).0
  unfolding step create_room finish_room update_progress complete_join leave_room complete completed
      stop_manager room_started quests_reported acknowledge_quests
  step-IsManager c (create_requested request replacing has_handler) =
      make_room-IsManager s w c request replacing
  step-IsManager c (removal_requested id is_aborted) = remove_room-IsManager s w id is_aborted
  step-IsManager c (retirement_answered id ready) = retire-IsManager s w id ready
  step-IsManager c (finish_requested request) =
      elim-cases (λ (r : Step). IsManager r.0) (find request.room_id s.rooms) (λ _. w)
        (λ room _.
          if-cases (λ (r : Step). IsManager r.0) (contains request.room_id s.ended_rooms) (λ _. w)
            (λ _. w))
  step-IsManager c (completion_answered request room is_valid) =
      completion_validated-IsManager c request room is_valid
  step-IsManager c (challenge_registered challenge session generation) =
      register_challenge-IsManager s w challenge session generation
  step-IsManager c (progress_updated request) = asked-IsManager request.room_id _ _
  step-IsManager c (join_confirmed request) = confirm_join-IsManager s w request
  step-IsManager c (join_answered id player challenge session generation accepted confirmed) = w
  step-IsManager c (removal_answered id player is_empty) =
      unannounced_removed-IsManager id player is_empty
  step-IsManager c (disconnected challenge session generation id player) =
      session_disconnected-IsManager s w challenge session generation id player
  step-IsManager c (disconnection_answered id player is_removed is_empty) =
      disconnected_left-IsManager id player is_removed is_empty
  step-IsManager c (leave_requested id player) = w
  step-IsManager c (leave_answered id player is_empty) = left-IsManager id player is_empty
  step-IsManager c (dungeon_completed id) = asked-IsManager id _ _
  step-IsManager c (completion_reported id players) =
      same-IsManager s w _ refl refl refl refl (λ e. e)
  step-IsManager c (start_reported id players) =
      if-cases (λ (r : Step). IsManager r.0) (contains id s.rooms) (λ _. w) (λ _. w)
  step-IsManager c (quest_events_reported id json) =
      if-cases (λ (r : Step). IsManager r.0) (contains id s.rooms) (λ _. w) (λ _. w)
  step-IsManager c (quests_acknowledged request) = asked-IsManager request.room_id _ _
  step-IsManager c (send_handler_set present) = same-IsManager s w _ refl refl refl refl (λ e. e)
  step-IsManager c stop_requested = record {
    retiring = w.retiring;
    made = w.made;
    idle = λ _. refl;
  }

run-IsManager_from :
    (c : Settings) (events : List Event) (s : RoomManager)
    → IsManager s
    → IsManager (run c s events).0
unfolding run
run-IsManager_from c [] s w = w
run-IsManager_from c (event ∷ events) s w =
    run-IsManager_from c events (step c s event).0 (step-IsManager s w c event)

-- After any history of calls, callbacks and stops of a new room manager: a room that is retiring is still held, so
-- that it can answer; every room that is held was made by this manager; and once it is stopped no session
-- waits to be admitted, whatever arrives later.
pub run-IsManager :
    (c : Settings) (clock : ℕ) (events : List Event)
    → IsManager (run c (new_manager clock) events).0
run-IsManager c clock events =
    run-IsManager_from c events (new_manager clock) (new_manager-IsManager clock)
