-- ===== src/RoomControl/Players/RoundTrip.antt =====
-- Player packets against their bytes.
use action_rpgserver.RoomControl.{
  confirm_join, update_player_progress, enter_room, leave_room, quest_context_request,
}
use action_rpgserver.Common.{refl, ◌<◌, ◌^◌, ◌≡◌, length, some, ◌≤◌, arith}
use action_rpgserver.RoomControl.Players.{
  ConfirmJoin, decode_confirm_join, UpdatePlayerProgress, decode_update_player_progress, EnterRoom,
  decode_enter_room, LeaveRoom, decode_leave_room, QuestContextRequest,
  decode_quest_context_request, encode_confirm_join, encode_update_player_progress,
  encode_enter_room, encode_leave_room, encode_quest_context_request,
}
use action_rpgserver.RoomControl.Reader.Laws.{
  packet-Ends, Ends-type, Ends-then, Reads-uint64, Reads-uint32, Ends-require, Reads-string,
  Ends-finished, Ends-yields,
}

-- What the decoder asks of the fields.
pub record IsConfirmJoin (p : ConfirmJoin) : Type 0 where
  pub room_id_fits : p.room_id < 2 ^ 64
  pub player_id_fits : p.player_id < 2 ^ 64
  pub challenge_fits : p.challenge < 2 ^ 64
  pub character_id_fits : p.character_id < 2 ^ 32
  pub character_id_set : 0 < p.character_id
  pub progression_short : length p.progression ≤ 32768
  pub progression_given : 0 < length p.progression
  pub room_id_set : 0 < p.room_id
  pub player_id_set : 0 < p.player_id
  pub challenge_set : 0 < p.challenge

-- A ConfirmJoin packet that satisfies `IsConfirmJoin` comes back from its bytes as it was.
pub decode-encode-confirm_join :
    (p : ConfirmJoin) → IsConfirmJoin p → decode_confirm_join (encode_confirm_join p) ≡ some p
unfolding decode_confirm_join encode_confirm_join
decode-encode-confirm_join p w = packet-Ends (
    Ends-type confirm_join (
      Ends-then _ (Reads-uint64 p.room_id w.room_id_fits) (
        Ends-then _ (Reads-uint64 p.player_id w.player_id_fits) (
          Ends-then _ (Reads-uint64 p.challenge w.challenge_fits) (
            Ends-then _ (Reads-uint32 p.character_id w.character_id_fits) (
              Ends-require (ground arith) (
                Ends-then _ (Reads-string p.progression (omega (arith, w.progression_short))) (
                  Ends-require (ground arith) (
                    Ends-require (ground arith) (
                      Ends-require (ground arith) (
                        Ends-require (ground arith) (
                          Ends-require (ground arith) (Ends-finished (Ends-yields refl))))))))))))))

-- What the decoder asks of the fields.
pub record IsUpdatePlayerProgress (p : UpdatePlayerProgress) : Type 0 where
  pub room_id_fits : p.room_id < 2 ^ 64
  pub room_id_set : 0 < p.room_id
  pub player_id_fits : p.player_id < 2 ^ 64
  pub player_id_set : 0 < p.player_id
  pub progression_short : length p.progression ≤ 32768
  pub progression_given : 0 < length p.progression

-- A UpdatePlayerProgress packet that satisfies `IsUpdatePlayerProgress` comes back from its bytes as it was.
pub decode-encode-update_player_progress :
    (p : UpdatePlayerProgress)
    → IsUpdatePlayerProgress p
    → decode_update_player_progress (encode_update_player_progress p) ≡ some p
unfolding decode_update_player_progress encode_update_player_progress
decode-encode-update_player_progress p w = packet-Ends (
    Ends-type update_player_progress (
      Ends-then _ (Reads-uint64 p.room_id w.room_id_fits) (
        Ends-require (ground arith) (
          Ends-then _ (Reads-uint64 p.player_id w.player_id_fits) (
            Ends-require (ground arith) (
              Ends-then _ (Reads-string p.progression (omega (arith, w.progression_short))) (
                Ends-require (ground arith)
                  (Ends-require (ground arith) (Ends-finished (Ends-yields refl))))))))))

-- What the decoder asks of the fields.
pub record IsEnterRoom (p : EnterRoom) : Type 0 where
  pub room_id_fits : p.room_id < 2 ^ 64
  pub player_id_fits : p.player_id < 2 ^ 64
  pub room_id_set : 0 < p.room_id
  pub player_id_set : 0 < p.player_id

-- A EnterRoom packet that satisfies `IsEnterRoom` comes back from its bytes as it was.
pub decode-encode-enter_room :
    (p : EnterRoom) → IsEnterRoom p → decode_enter_room (encode_enter_room p) ≡ some p
unfolding decode_enter_room encode_enter_room
decode-encode-enter_room p w = packet-Ends (
    Ends-type enter_room (
      Ends-then _ (Reads-uint64 p.room_id w.room_id_fits) (
        Ends-then _ (Reads-uint64 p.player_id w.player_id_fits) (
          Ends-require (ground arith)
            (Ends-require (ground arith) (Ends-finished (Ends-yields refl)))))))

-- What the decoder asks of the fields.
pub record IsLeaveRoom (p : LeaveRoom) : Type 0 where
  pub room_id_fits : p.room_id < 2 ^ 64
  pub player_id_fits : p.player_id < 2 ^ 64
  pub room_id_set : 0 < p.room_id
  pub player_id_set : 0 < p.player_id

-- A LeaveRoom packet that satisfies `IsLeaveRoom` comes back from its bytes as it was.
pub decode-encode-leave_room :
    (p : LeaveRoom) → IsLeaveRoom p → decode_leave_room (encode_leave_room p) ≡ some p
unfolding decode_leave_room encode_leave_room
decode-encode-leave_room p w = packet-Ends (
    Ends-type leave_room (
      Ends-then _ (Reads-uint64 p.room_id w.room_id_fits) (
        Ends-then _ (Reads-uint64 p.player_id w.player_id_fits) (
          Ends-require (ground arith)
            (Ends-require (ground arith) (Ends-finished (Ends-yields refl)))))))

-- What the decoder asks of the fields.
pub record IsQuestContextRequest (p : QuestContextRequest) : Type 0 where
  pub request_id_fits : p.request_id < 2 ^ 64
  pub request_id_set : 0 < p.request_id
  pub room_id_fits : p.room_id < 2 ^ 64
  pub room_id_set : 0 < p.room_id
  pub player_id_fits : p.player_id < 2 ^ 64
  pub player_id_set : 0 < p.player_id

-- A QuestContextRequest packet that satisfies `IsQuestContextRequest` comes back from its bytes as it was.
pub decode-encode-quest_context_request :
    (p : QuestContextRequest)
    → IsQuestContextRequest p
    → decode_quest_context_request (encode_quest_context_request p) ≡ some p
unfolding decode_quest_context_request encode_quest_context_request
decode-encode-quest_context_request p w = packet-Ends (
    Ends-type quest_context_request (
      Ends-then _ (Reads-uint64 p.request_id w.request_id_fits) (
        Ends-require (ground arith) (
          Ends-then _ (Reads-uint64 p.room_id w.room_id_fits) (
            Ends-require (ground arith) (
              Ends-then _ (Reads-uint64 p.player_id w.player_id_fits)
                (Ends-require (ground arith) (Ends-finished (Ends-yields refl)))))))))
