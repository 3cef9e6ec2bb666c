-- ===== src/Rooms/Stopped.antt =====
-- `Stop` of GameRoomServer/RoomManager.cpp is for good: no room is made after it.
use action_rpgserver.Common.{
  none, some, [], ◌∷◌, true, false, inl, inr, refl, nat_eq, ◌≡◌, List, ℕ, elim-cases, ◌∙◌, ◌⊎◌,
  Bool, if-cases, if◌then◌else◌, not, Option, ◌||◌, ◌==◌,
}
use action_rpgserver.Common.Map.{find, contains, find-erase}
use action_rpgserver.Rooms.State.{Settings, RoomManager, Room, Action, Step}
use action_rpgserver.Rooms.Making.{
  make_room, create_room, remove_room, retire, finish_room, finish_completed, completion_validated,
  refuses, no_room, is_same,
}
use action_rpgserver.Rooms.Joining.{
  register_challenge, update_progress, confirm_join, complete_join, unannounced_removed,
  session_disconnected, disconnected_left, leave_room, left,
}
use action_rpgserver.Rooms.Reports.{
  complete, completed, stop_manager, room_started, quests_reported, acknowledge_quests,
}
use action_rpgserver.Rooms.Events.{
  Event, step, run, create_requested, removal_requested, retirement_answered, finish_requested,
  completion_answered, challenge_registered, progress_updated, join_confirmed, join_answered,
  removal_answered, disconnected, disconnection_answered, leave_requested, leave_answered,
  dungeon_completed, completion_reported, start_reported, quest_events_reported,
  quests_acknowledged, send_handler_set, stop_requested,
}
use action_rpgserver.RoomControl.Creation.{CreateRoom, CreateRoomResult}
use action_rpgserver.RoomControl.Endings.{FinishRoom}

-- Stopped, with no room that was not there and no number used.
abbrev pub IsStill : RoomManager → RoomManager → Type 0
IsStill s s' =
    (s'.stopped ≡ true)
    × ((id : ℕ) → (find id s'.rooms ≡ none) ⊎ (find id s'.rooms ≡ find id s.rooms))
    × (s'.next_room_id ≡ s.next_room_id)
    × (s'.objects ≡ s.objects)

module _ (s : RoomManager) (h : s.stopped ≡ true) where
  still : IsStill s s
  still = (h, (λ id. inr refl), refl, refl)

  refuses_stopped :
      (c : Settings) (request : CreateRoom) (replacing : ℕ) → refuses c s request replacing ≡ true
  unfolding refuses
  refuses_stopped c request replacing =
      elim-cases (λ (b : Bool). b ≡ true) (find request.dungeon_id c.definitions) (λ _. refl)
        (λ n _. rw h refl)

  make_room_stopped :
      (c : Settings) (request : CreateRoom) (replacing : ℕ)
      → make_room c s request replacing ≡ (s, [], no_room request.request_id)
  unfolding make_room
  make_room_stopped c request replacing = rw (refuses_stopped c request replacing, make_room) refl

  remove-IsStill : (id : ℕ) (is_aborted : Bool) → IsStill s (remove_room s id is_aborted).0
  unfolding remove_room
  remove-IsStill id is_aborted =
      elim-cases (λ (r : Step). IsStill s r.0) (find id s.rooms) (λ _. still) (λ room _. still)

  emptied-IsStill :
      (id : ℕ) (is_empty : Bool) → IsStill s (if is_empty then remove_room s id true else (s, [])).0
  emptied-IsStill id true = remove-IsStill id true
  emptied-IsStill id false = still

  retire-IsStill : (id : ℕ) (ready : Bool) → IsStill s (retire s id ready).0
  unfolding retire
  retire-IsStill id false = still
  retire-IsStill id true = (
    h,
    (λ j. rw (find-erase id j s.rooms) (
        if-cases (λ (o : Option Room). (o ≡ none) ⊎ (o ≡ find j s.rooms)) (id == j) (λ _. inl refl)
          (λ _. inr refl))),
    refl,
    refl,
  )

  finish_completed-IsStill :
      (request : FinishRoom) (result : CreateRoomResult)
      → IsStill s (finish_completed s request result).0
  unfolding finish_completed
  finish_completed-IsStill request result =
      if-cases (λ (r : Step). IsStill s r.0) result.succeeded
        (λ _. remove-IsStill request.room_id false) (λ _. still)

  completion_validated-IsStill :
      (c : Settings) (request : FinishRoom) (room : Room) (is_valid : Bool)
      → IsStill s (completion_validated c s request room is_valid).0
  unfolding completion_validated
  completion_validated-IsStill c request room is_valid =
      if-cases (λ (r : Step). IsStill s r.0)
        (not is_valid
          || not (is_same (find request.room_id s.rooms) room)
          || not (contains request.room_id s.ended_rooms))
        (λ _. still)
        λ _.
          if-cases (λ (r : Step). IsStill s r.0) request.retry
            (λ _.
              let e =
                make_room_stopped c
                  (record {
                    request_id = request.request_id;
                    dungeon_id = room.dungeon_id;
                    participants = request.participants;
                  })
                  request.room_id in
              rw e (finish_completed-IsStill request (no_room request.request_id)))
            (λ _. finish_completed-IsStill request _)

  asked-IsStill :
      (id : ℕ) (a : List Action) (f : Room → List Action)
      → IsStill s
          (elim (find id s.rooms) as (λ _. Step) [ none ↦ (s, a) | some room ↦ (s, f room) ]).0
  asked-IsStill id a f =
      elim-cases (λ (r : Step). IsStill s r.0) (find id s.rooms) (λ _. still) (λ room _. still)

  step-IsStill : (c : Settings) (event : Event) → IsStill s (step c s event).0
  unfolding step create_room finish_room update_progress complete_join leave_room complete completed
      stop_manager room_started quests_reported acknowledge_quests left disconnected_left
      unannounced_removed session_disconnected register_challenge confirm_join
  step-IsStill c (create_requested request replacing has_handler) =
      (let e = make_room_stopped c request replacing in rw e still)
  step-IsStill c (removal_requested id is_aborted) = remove-IsStill id is_aborted
  step-IsStill c (retirement_answered id ready) = retire-IsStill id ready
  step-IsStill c (finish_requested request) =
      elim-cases (λ (r : Step). IsStill s r.0) (find request.room_id s.rooms) (λ _. still)
        (λ room _.
          if-cases (λ (r : Step). IsStill s r.0) (contains request.room_id s.ended_rooms)
            (λ _. still) (λ _. still))
  step-IsStill c (completion_answered request room is_valid) =
      completion_validated-IsStill c request room is_valid
  step-IsStill c (challenge_registered challenge none generation) = still
  step-IsStill c (challenge_registered challenge (some session) generation) =
      if-cases (λ (r : Step). IsStill s r.0) s.stopped (λ _. still)
        λ _. if-cases (λ (r : Step). IsStill s r.0) (challenge == 0) (λ _. still) (λ _. still)
  step-IsStill c (progress_updated request) = asked-IsStill request.room_id _ _
  step-IsStill c (join_confirmed request) =
      elim-cases (λ (r : Step). IsStill s r.0) (find request.challenge s.pending_sessions)
        (λ _. still) (λ pending _. still)
  step-IsStill c (join_answered id player challenge session generation accepted confirmed) = still
  step-IsStill c (removal_answered id player is_empty) =
      if-cases (λ (r : Step). IsStill s r.0) (contains id s.rooms)
        (λ _. emptied-IsStill id is_empty) (λ _. still)
  step-IsStill c (disconnected challenge session generation id player) = still
  step-IsStill c (disconnection_answered id player is_removed is_empty) =
      emptied-IsStill id is_empty
  step-IsStill c (leave_requested id player) = still
  step-IsStill c (leave_answered id player is_empty) = emptied-IsStill id is_empty
  step-IsStill c (dungeon_completed id) = asked-IsStill id _ _
  step-IsStill c (completion_reported id players) = still
  step-IsStill c (start_reported id players) =
      if-cases (λ (r : Step). IsStill s r.0) (contains id s.rooms) (λ _. still) (λ _. still)
  step-IsStill c (quest_events_reported id json) =
      if-cases (λ (r : Step). IsStill s r.0) (contains id s.rooms) (λ _. still) (λ _. still)
  step-IsStill c (quests_acknowledged request) = asked-IsStill request.room_id _ _
  step-IsStill c (send_handler_set present) = still
  step-IsStill c stop_requested = (refl, (λ id. inr refl), refl, refl)

-- After a manager is stopped, no history makes a room: it stays stopped, no number for a room is used, and a room
-- that is held later is held under the same id now.
pub run_stopped :
    (c : Settings) (events : List Event) (s : RoomManager)
    → s.stopped ≡ true
    → IsStill s (run c s events).0
unfolding run
run_stopped c [] s h = still s h
run_stopped c (event ∷ events) s h =
    let (a, b, d, e) = step-IsStill s h c event in
    let (a', b', d', e') = run_stopped c events (step c s event).0 a in
    (
      a',
      (λ id. elim (b' id) [
        | inl gone ↦ inl gone
        | inr same ↦ elim (b id) [ inl gone ↦ inl (same ∙ gone) | inr there ↦ inr (same ∙ there) ]
      ]),
      d' ∙ d,
      e' ∙ e,
    )
