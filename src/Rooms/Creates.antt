-- ===== src/Rooms/Creates.antt =====
-- `CreateRoom` of GameRoomServer/RoomManager.cpp: when it makes a room, and what it answers.
use action_rpgserver.Common.{
  none, some, [], ◌∷◌, true, false, nat_eq, ℕ, ◌<◌, ◌≡◌, length, ◌+◌, ◌≤◌, ◌⊎◌, ◌==◌, List,
  if◌then◌else◌,
}
use action_rpgserver.Rooms.State.{Settings, RoomManager, Room, Action}
use action_rpgserver.Rooms.Making.{make_room}
use action_rpgserver.RoomControl.Creation.{CreateRoom, CreateRoomResult}
use action_rpgserver.Common.Map.{Map, find, contains}

-- How often a value stands in a list.
unfoldable pub occurrences : ℕ → List ℕ → ℕ
occurrences x [] = 0
occurrences x (y ∷ ys) = (if y == x then 1 else 0) + occurrences x ys

-- What `CreateRoom` asks for, said of the numbers: a manager that runs, a dungeon that is known, a place for the
-- room or a room that it replaces, and as many players as the dungeon takes at most, each of them once and none of
-- them zero.
pub record IsGranted (c : Settings) (s : RoomManager) (request : CreateRoom) (replacing : ℕ)
    : Type 0 where
  pub running : s.stopped ≡ false
  pub max_players : ℕ
  pub known : find request.dungeon_id c.definitions ≡ some max_players
  pub room_left : (length s.rooms < c.max_room_count) ⊎ (contains replacing s.rooms ≡ true)
  pub someone : 0 < length request.participants
  pub no_zero : occurrences 0 request.participants ≡ 0
  pub all_different : (player : ℕ) → occurrences player request.participants ≤ 1
  pub few : length request.participants ≤ max_players

module _ (c : Settings) (s : RoomManager) (request : CreateRoom) (replacing : ℕ) where
  -- The room that a success adds.
  abbrev pub added_room : Room
  added_room = record { object = s.objects; dungeon_id = request.dungeon_id }

  abbrev pub created : RoomManager × List Action × CreateRoomResult
  created = make_room c s request replacing

  -- What a success leaves: the rooms that were held and one room, new unless its id was held, no more than the
  -- limit unless one is replaced; its seed is not zero.
  abbrev pub IsCreated : Type 0
  IsCreated =
      (0 < created.2.combat_seed)
      × ((id : ℕ)
          → find id created.0.rooms ≡ (
              if contains id s.rooms
              then find id s.rooms
              else if created.2.room_id == id
              then some added_room
              else none))
      × ((length created.0.rooms ≤ c.max_room_count) ⊎ (contains replacing s.rooms ≡ true))
