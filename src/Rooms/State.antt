-- ===== src/Rooms/State.antt =====
-- GameRoomServer/RoomManager.h: the state of the manager, what it is set up with, and what its handlers do to
-- the outside. A room is known by `object`, which stands for its address; `dungeon_id` is what `GetDungeonId`
-- returns. The handlers run on one strand, so that a handler is a step; what a room or a session calls back
-- later is a step of its own.
use Prim.Native.Nat.{bit_xor}
use action_rpgserver.Common.{ℕ, ◌*◌, ◌/◌, ◌%◌, ◌^◌, ◌==◌, Bool, List, if◌then◌else◌, ◌∷◌, []}
use action_rpgserver.Common.Map.{Map}
use action_rpgserver.RoomControl.Packets.{Packet}
use action_rpgserver.RoomControl.Creation.{CreateRoomResult}
use action_rpgserver.RoomControl.Endings.{FinishRoomResult}

pub record Room : Type 0 where
  pub object : ℕ
  pub dungeon_id : ℕ

pub record PendingSession : Type 0 where
  pub session : ℕ
  pub generation : ℕ

-- The members that the constructor sets for good; of a dungeon's definition, `maxPlayers`.
pub record Settings : Type 0 where
  pub room_server_id : ℕ
  pub max_room_count : ℕ
  pub definitions : Map ℕ ℕ
  pub session_broker_address : List ℕ
  pub session_broker_port : ℕ

-- `objects` counts the rooms that were made.
pub record RoomManager : Type 0 where
  pub rooms : Map ℕ Room
  pub ended_rooms : Map ℕ (Unit {0})
  pub retiring_rooms : Map ℕ (Unit {0})
  pub pending_sessions : Map ℕ PendingSession
  pub has_send_handler : Bool
  pub next_room_id : ℕ
  pub random_state : ℕ
  pub stopped : Bool
  pub objects : ℕ

-- A call of a method of a room.
pub data RoomCall : Type 0 where
  start stop can_retire complete_dungeon : RoomCall
  update_player_progress : ℕ → List ℕ → RoomCall
  try_enter : ℕ → ℕ → List ℕ → RoomCall
  leave remove_unannounced_player : ℕ → RoomCall
  validate_completion acknowledge : List ℕ → RoomCall

-- What a handler does outside of the manager. `call_room` has the address of the room; `reject` has the session,
-- the challenge and the generation. `throw_out` is an exception that leaves the handler.
pub data Action : Type 0 where
  send_packet : Packet → Action
  answer_create : CreateRoomResult → Action
  answer_finish : FinishRoomResult → Action
  reject : ℕ → ℕ → ℕ → Action
  call_room : ℕ → RoomCall → Action
  throw_out : Action

-- The state after a call of `GenerateSeed`.
unfoldable pub next_random : ℕ → ℕ
next_random s =
    let a = bit_xor s (s * 2 ^ 13 % 2 ^ 64) in
    let b = bit_xor a (a / 2 ^ 7) in bit_xor b (b * 2 ^ 17 % 2 ^ 64)

-- What the call returns.
unfoldable pub seed_of : ℕ → ℕ
seed_of s = if s == 0 then 1 else s

abbrev pub Step : Type 0
Step = RoomManager × List Action

abbrev pub send : RoomManager → Packet → List Action
send s packet = if s.has_send_handler then send_packet packet ∷ [] else []
