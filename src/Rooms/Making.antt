-- ===== src/Rooms/Making.antt =====
-- GameRoomServer/RoomManager.cpp: how rooms are made, finished and removed.
use action_rpgserver.Rooms.State.{
  Room, Settings, RoomManager, start, stop, can_retire, validate_completion, Action, answer_create,
  answer_finish, call_room, next_random, seed_of, Step, send,
}
use Prim.Native.Nat.{bit_or}
use action_rpgserver.Common.{
  ℕ, ◌+◌, ◌*◌, ◌%◌, ◌^◌, Bool, true, false, not, ◌&&◌, ◌||◌, Option, none, some, List, [], ◌∷◌,
  ◌++◌, ◌==◌, ltb, leb, if◌then◌else◌, length, nat_eq,
}
use action_rpgserver.Common.Map.{find, put, emplace, erase, contains}
use action_rpgserver.RoomControl.Packets.{of_room_ended}
use action_rpgserver.RoomControl.Creation.{CreateRoom, CreateRoomResult}
use action_rpgserver.RoomControl.Endings.{FinishRoom, FinishRoomResult, aborted}

abbrev pub is_member : ℕ → List ℕ → Bool
is_member x [] = false
is_member x (y ∷ ys) = y == x || is_member x ys

-- Whether a value stands twice: whether the set of the values is smaller than the list.
unfoldable pub repeats : List ℕ → Bool
repeats [] = false
repeats (x ∷ xs) = is_member x xs || repeats xs

-- The guard of `CreateRoom`.
unfoldable pub refuses : Settings → RoomManager → CreateRoom → ℕ → Bool
refuses c s request replacing = elim (find request.dungeon_id c.definitions) [
  | none ↦ true
  | some max_players ↦
      s.stopped
      || (leb c.max_room_count (length s.rooms) && not (contains replacing s.rooms))
      || length request.participants == 0
      || is_member 0 request.participants
      || repeats request.participants
      || ltb max_players (length request.participants)
]

abbrev pub no_room : ℕ → CreateRoomResult
no_room request_id = record {
  request_id = request_id;
  succeeded = false;
  room_id = 0;
  combat_seed = 0;
  broker_address = [];
  broker_port = 0;
}

abbrev pub new_room_id : Settings → RoomManager → ℕ
new_room_id c s = bit_or (c.room_server_id * 2 ^ 32 % 2 ^ 64) s.next_room_id

-- `CreateRoom` up to its answer.
unfoldable pub make_room :
    Settings → RoomManager → CreateRoom → ℕ → RoomManager × List Action × CreateRoomResult
make_room c s request replacing =
    let state = next_random s.random_state in
    if refuses c s request replacing then (s, [], no_room request.request_id) else (
      record s {
        rooms =
            emplace (new_room_id c s)
              (record { object = s.objects; dungeon_id = request.dungeon_id }) s.rooms;
        next_room_id = (s.next_room_id + 1) % 2 ^ 64;
        random_state = state;
        objects = s.objects + 1;
      },
      call_room s.objects start ∷ [],
      record {
        request_id = request.request_id;
        succeeded = true;
        room_id = new_room_id c s;
        combat_seed = seed_of state;
        broker_address = c.session_broker_address;
        broker_port = c.session_broker_port;
      },
    )

-- Whether there is a handler for the answer comes last.
unfoldable pub create_room : Settings → RoomManager → CreateRoom → ℕ → Bool → Step
create_room c s request replacing has_handler =
    let (s', actions, result) = make_room c s request replacing in
    (s', actions ++ (if has_handler then answer_create result ∷ [] else []))

-- `RemoveRoom` up to the answer of `CanRetire`.
unfoldable pub remove_room : RoomManager → ℕ → Bool → Step
remove_room s id is_aborted = elim (find id s.rooms) [
  | none ↦ (s, [])
  | some room ↦ (
    record s { retiring_rooms = put id tt s.retiring_rooms; ended_rooms = erase id s.ended_rooms },
    call_room room.object stop
        ∷ call_room room.object can_retire
        ∷ (if is_aborted && not (contains id s.ended_rooms)
            then send s (of_room_ended (record { room_id = id; reason = aborted; rewarded = [] }))
            else []),
  )
]

-- The answer of `CanRetire`.
unfoldable pub retire : RoomManager → ℕ → Bool → Step
retire s id ready =
    if ready
    then (record s { rooms = erase id s.rooms; retiring_rooms = erase id s.retiring_rooms }, [])
    else (s, [])

abbrev pub not_finished : FinishRoom → FinishRoomResult
not_finished request = record {
  request_id = request.request_id;
  previous_room_id = request.room_id;
  succeeded = false;
  room_id = 0;
  combat_seed = 0;
  broker_address = [];
  broker_port = 0;
}

unfoldable pub finish_room : RoomManager → FinishRoom → Step
finish_room s request =
    let refused : Step = (s, answer_finish (not_finished request) ∷ []) in
    elim (find request.room_id s.rooms) [
      | none ↦ refused
      | some room ↦
          if contains request.room_id s.ended_rooms
          then (s, call_room room.object (validate_completion request.participants) ∷ [])
          else refused
    ]

-- The end of `FinishRoom`, `complete`, given the new room.
unfoldable pub finish_completed : RoomManager → FinishRoom → CreateRoomResult → Step
finish_completed s request result =
    let (s', actions) = if result.succeeded then remove_room s request.room_id false else (s, []) in
    (
      s',
      actions
          ++ answer_finish (record {
            request_id = request.request_id;
            previous_room_id = request.room_id;
            succeeded = result.succeeded;
            room_id = result.room_id;
            combat_seed = result.combat_seed;
            broker_address = result.broker_address;
            broker_port = result.broker_port;
          })
            ∷ [],
    )

-- Whether the room that was asked is still there under its id.
abbrev pub is_same : Option Room → Room → Bool
is_same none room = false
is_same (some found) room = found.object == room.object

-- The answer of `ValidateCompletion` of the room that was asked.
unfoldable pub completion_validated : Settings → RoomManager → FinishRoom → Room → Bool → Step
completion_validated c s request room is_valid =
    let request' : CreateRoom = record {
      request_id = request.request_id;
      dungeon_id = room.dungeon_id;
      participants = request.participants;
    } in
    if not is_valid
      || not (is_same (find request.room_id s.rooms) room)
      || not (contains request.room_id s.ended_rooms)
    then (s, answer_finish (not_finished request) ∷ [])
    else if request.retry
    then (let (s', actions, result) = make_room c s request' request.room_id in
        let (s'', more) = finish_completed s' request result in (s'', actions ++ more))
    else finish_completed s request (record (no_room 0) { succeeded = true })
