-- ===== src/Rooms/Joining.antt =====
-- GameRoomServer/RoomManager.cpp: how sessions wait, join a room and leave it.
use action_rpgserver.Rooms.State.{
  RoomManager, update_player_progress, try_enter, leave, remove_unannounced_player, reject,
  call_room, Step, send,
}
use action_rpgserver.Common.{
  ℕ, Bool, true, not, ◌&&◌, ◌||◌, Option, none, some, [], ◌∷◌, ◌++◌, ◌==◌, if◌then◌else◌, nat_eq,
}
use action_rpgserver.Common.Map.{find, put, erase, contains}
use action_rpgserver.RoomControl.Packets.{of_leave_room, of_enter_room}
use action_rpgserver.RoomControl.Players.{ConfirmJoin, UpdatePlayerProgress}
use action_rpgserver.Rooms.Making.{remove_room}

-- A null session is `none`.
unfoldable pub register_challenge : RoomManager → ℕ → Option ℕ → ℕ → Step
register_challenge s challenge none generation = (s, [])
register_challenge s challenge (some session) generation =
    if s.stopped
    then (s, reject session challenge generation ∷ [])
    else if challenge == 0
    then (s, [])
    else (
      record s {
        pending_sessions =
            put challenge (record { session = session; generation = generation })
              s.pending_sessions;
      },
      [],
    )

unfoldable pub update_progress : RoomManager → UpdatePlayerProgress → Step
update_progress s request = elim (find request.room_id s.rooms) [
  | none ↦ (s, [])
  | some room ↦
      (s, call_room room.object (update_player_progress request.player_id request.progression) ∷ [])
]

unfoldable pub confirm_join : RoomManager → ConfirmJoin → Step
confirm_join s request = elim (find request.challenge s.pending_sessions) [
  | none ↦ (s, [])
  | some pending ↦ (
    record s { pending_sessions = erase request.challenge s.pending_sessions },
    elim (find request.room_id s.rooms) [
      | none ↦ reject pending.session request.challenge pending.generation ∷ []
      | some room ↦
          call_room room.object
            (try_enter request.player_id request.character_id request.progression)
          ∷ []
    ],
  )
]

-- The answer of `TryEnter`. `confirmed` is what `ConfirmAuthentication` returns, if it is called.
unfoldable pub complete_join : RoomManager → ℕ → ℕ → ℕ → ℕ → ℕ → Bool → Bool → Step
complete_join s id player challenge session generation accepted confirmed = (
  s,
  elim (find id s.rooms) [
    | none ↦ reject session challenge generation ∷ []
    | some room ↦
        if not accepted
        then reject session challenge generation ∷ []
        else if not confirmed
        then reject session challenge generation
          ∷ call_room room.object (remove_unannounced_player player)
          ∷ []
        else send s (of_enter_room (record { room_id = id; player_id = player }))
  ],
)

-- The answer of `RemoveUnannouncedPlayer`.
unfoldable pub unannounced_removed : RoomManager → ℕ → ℕ → Bool → Step
unannounced_removed s id player is_empty =
    let (s', actions) = if is_empty then remove_room s id true else (s, []) in
    if contains id s.rooms
    then (s', send s (of_leave_room (record { room_id = id; player_id = player })) ++ actions)
    else (s, [])

unfoldable pub session_disconnected : RoomManager → ℕ → ℕ → ℕ → ℕ → ℕ → Step
session_disconnected s challenge session generation id player = (
  record s {
    pending_sessions = elim (find challenge s.pending_sessions) [
      | none ↦ s.pending_sessions
      | some pending ↦
          if (pending.session == session) && (pending.generation == generation)
          then erase challenge s.pending_sessions
          else s.pending_sessions
    ];
  },
  if id == 0 || player == 0 then [] else elim (find id s.rooms) [
    | none ↦ []
    | some room ↦ call_room room.object (leave player) ∷ []
  ],
)

-- The answer of `Leave` after a disconnection.
unfoldable pub disconnected_left : RoomManager → ℕ → ℕ → Bool → Bool → Step
disconnected_left s id player is_removed is_empty =
    let (s', actions) = if is_empty then remove_room s id true else (s, []) in
    (
      s',
      (if is_removed
            then send s (of_leave_room (record { room_id = id; player_id = player }))
            else [])
          ++ actions,
    )

unfoldable pub leave_room : RoomManager → ℕ → ℕ → Step
leave_room s id player = (
  s,
  elim (find id s.rooms) [
    | none ↦ send s (of_leave_room (record { room_id = id; player_id = player }))
    | some room ↦ call_room room.object (leave player) ∷ []
  ],
)

-- The answer of `Leave` after a request to leave.
unfoldable pub left : RoomManager → ℕ → ℕ → Bool → Step
left s id player is_empty =
    let (s', actions) = if is_empty then remove_room s id true else (s, []) in
    (s', send s (of_leave_room (record { room_id = id; player_id = player })) ++ actions)
