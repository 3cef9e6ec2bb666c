-- ===== src/RoomControl/Endings/RoundTrip.antt =====
-- The packets of the end of rooms against their bytes.
use action_rpgserver.RoomControl.{finish_room, finish_room_result, room_ended, room_started}
use action_rpgserver.Common.{
  refl, not, if◌then◌else◌, ◌<◌, ltb, ◌^◌, ◌≡◌, true, ◌==◌, length, some, ◌≤◌, ◌&&◌, ◌||◌, false,
  arith,
}
use action_rpgserver.RoomControl.Endings.{
  RoomEndReason, FinishRoom, decode_finish_room, FinishRoomResult, decode_finish_room_result,
  RoomEnded, decode_room_ended, RoomStarted, decode_room_started, encode_finish_room,
  encode_finish_room_result, encode_room_ended, encode_room_started, reason_code, cleared, cleared,
  cleared, aborted, aborted, aborted,
}
use action_rpgserver.RoomControl.Reader.Laws.{
  AreIds, packet-Ends, Ends-type, Ends-then, Reads-uint64, Reads-uint8, Ends-require,
  Reads-player_ids, flag-le, Ends-finished, Reads-string, Ends-yields, flag, Reads-uint16,
}

reason_lo : (r : RoomEndReason) → not (ltb (reason_code r) 1) ≡ true
reason_lo cleared = refl
reason_lo aborted = refl

reason_hi : (r : RoomEndReason) → not (ltb 2 (reason_code r)) ≡ true
reason_hi cleared = refl
reason_hi aborted = refl

reason_back : (r : RoomEndReason) → (if reason_code r == 1 then cleared else aborted) ≡ r
reason_back cleared = refl
reason_back aborted = refl

-- What the decoder asks of the fields.
pub record IsFinishRoom (p : FinishRoom) : Type 0 where
  pub request_id_fits : p.request_id < 2 ^ 64
  pub request_id_set : 0 < p.request_id
  pub room_id_fits : p.room_id < 2 ^ 64
  pub room_id_set : 0 < p.room_id
  pub participants_ids : AreIds p.participants
  pub participants_some : 0 < length p.participants
  pub participants_few : length p.participants ≤ 64

-- A FinishRoom packet that satisfies `IsFinishRoom` comes back from its bytes as it was.
pub decode-encode-finish_room :
    (p : FinishRoom) → IsFinishRoom p → decode_finish_room (encode_finish_room p) ≡ some p
unfolding decode_finish_room encode_finish_room
decode-encode-finish_room p w = packet-Ends (
    Ends-type finish_room (
      Ends-then _ (Reads-uint64 p.request_id w.request_id_fits) (
        Ends-require (ground arith) (
          Ends-then _ (Reads-uint64 p.room_id w.room_id_fits) (
            Ends-require (ground arith) (
              Ends-then _ (Reads-uint8 (if p.retry then 1 else 0)) (
                Ends-require (flag-le p.retry) (
                  Ends-then _
                    (Reads-player_ids false p.participants w.participants_ids (ground arith)
                      w.participants_few)
                    (Ends-finished (Ends-yields (rw (flag p.retry) refl)))))))))))

-- What the decoder asks of the fields.
pub record IsFinishRoomResult (p : FinishRoomResult) : Type 0 where
  pub request_id_fits : p.request_id < 2 ^ 64
  pub request_id_set : 0 < p.request_id
  pub previous_room_id_fits : p.previous_room_id < 2 ^ 64
  pub previous_room_id_set : 0 < p.previous_room_id
  pub room_id_fits : p.room_id < 2 ^ 64
  pub combat_seed_fits : p.combat_seed < 2 ^ 64
  pub broker_address_short : length p.broker_address ≤ 255
  pub broker_port_fits : p.broker_port < 2 ^ 16
  pub complete :
      (p.succeeded
        && not (p.room_id == 0)
        && (p.combat_seed == 0 || (length p.broker_address == 0) || (p.broker_port == 0)))
      ≡ false

-- A FinishRoomResult packet that satisfies `IsFinishRoomResult` comes back from its bytes as it was.
pub decode-encode-finish_room_result :
    (p : FinishRoomResult)
    → IsFinishRoomResult p
    → decode_finish_room_result (encode_finish_room_result p) ≡ some p
unfolding decode_finish_room_result encode_finish_room_result
decode-encode-finish_room_result p w = packet-Ends (
    Ends-type finish_room_result (
      Ends-then _ (Reads-uint64 p.request_id w.request_id_fits) (
        Ends-require (ground arith) (
          Ends-then _ (Reads-uint64 p.previous_room_id w.previous_room_id_fits) (
            Ends-require (ground arith) (
              Ends-then _ (Reads-uint8 (if p.succeeded then 1 else 0)) (
                Ends-require (flag-le p.succeeded) (
                  Ends-then _ (Reads-uint64 p.room_id w.room_id_fits) (
                    Ends-then _ (Reads-uint64 p.combat_seed w.combat_seed_fits) (
                      Ends-then _
                        (Reads-string p.broker_address (omega (arith, w.broker_address_short)))
                        (Ends-require (ground arith) (
                          Ends-then _ (Reads-uint16 p.broker_port w.broker_port_fits) (
                            Ends-finished (
                              Ends-require (rw (flag p.succeeded, w.complete) refl)
                                (Ends-yields (rw (flag p.succeeded) refl))))))))))))))))

-- What the decoder asks of the fields.
pub record IsRoomEnded (p : RoomEnded) : Type 0 where
  pub room_id_fits : p.room_id < 2 ^ 64
  pub rewarded_ids : AreIds p.rewarded
  pub rewarded_few : length p.rewarded ≤ 64
  pub room_id_set : 0 < p.room_id

-- A RoomEnded packet that satisfies `IsRoomEnded` comes back from its bytes as it was.
pub decode-encode-room_ended :
    (p : RoomEnded) → IsRoomEnded p → decode_room_ended (encode_room_ended p) ≡ some p
unfolding decode_room_ended encode_room_ended
decode-encode-room_ended p w = packet-Ends (
    Ends-type room_ended (
      Ends-then _ (Reads-uint64 p.room_id w.room_id_fits) (
        Ends-then _ (Reads-uint8 (reason_code p.reason)) (
          Ends-then _ (Reads-player_ids true p.rewarded w.rewarded_ids refl w.rewarded_few) (
            Ends-require (ground arith) (
              Ends-require (reason_lo p.reason) (
                Ends-require (reason_hi p.reason)
                  (Ends-finished (Ends-yields (rw (reason_back p.reason) refl))))))))))

-- What the decoder asks of the fields.
pub record IsRoomStarted (p : RoomStarted) : Type 0 where
  pub room_id_fits : p.room_id < 2 ^ 64
  pub room_id_set : 0 < p.room_id
  pub participants_ids : AreIds p.participants
  pub participants_some : 0 < length p.participants
  pub participants_few : length p.participants ≤ 64

-- A RoomStarted packet that satisfies `IsRoomStarted` comes back from its bytes as it was.
pub decode-encode-room_started :
    (p : RoomStarted) → IsRoomStarted p → decode_room_started (encode_room_started p) ≡ some p
unfolding decode_room_started encode_room_started
decode-encode-room_started p w = packet-Ends (
    Ends-type room_started (
      Ends-then _ (Reads-uint64 p.room_id w.room_id_fits) (
        Ends-require (ground arith) (
          Ends-then _
            (Reads-player_ids false p.participants w.participants_ids (ground arith)
              w.participants_few)
            (Ends-finished (Ends-yields refl))))))
