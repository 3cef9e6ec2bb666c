-- ===== src/RoomControl/Creation/RoundTrip.antt =====
-- The packets of the creation of rooms against their bytes.
use action_rpgserver.RoomControl.{register_room_server, create_room, create_room_result}
use action_rpgserver.Common.{
  ℕ, refl, List, ◌<◌, ◌^◌, ◌≡◌, true, length, some, arith, ◌≤◌, ◌&&◌, ◌==◌, ◌||◌, false,
  if◌then◌else◌,
}
use action_rpgserver.RoomControl.Creation.{
  is_authentication_key, RegisterRoomServer, decode_register_room_server, CreateRoom,
  decode_create_room, CreateRoomResult, decode_create_room_result, encode_register_room_server,
  encode_create_room, encode_create_room_result,
}
use action_rpgserver.RoomControl.Reader.Laws.{
  AreIds, packet-Ends, Ends-type, Ends-then, Reads-uint64, Reads-uint32, Reads-uint8, Reads-string,
  Reads-player_ids, Ends-require, Ends-finished, flag-le, Ends-yields, Reads-uint16, flag,
}

key-length : (key : List ℕ) → is_authentication_key key ≡ true → length key < 2 ^ 16
unfolding is_authentication_key
key-length key h = ground arith

-- What the decoder asks of the fields.
pub record IsRegisterRoomServer (p : RegisterRoomServer) : Type 0 where
  pub room_server_id_fits : p.room_server_id < 2 ^ 64
  pub max_room_count_fits : p.max_room_count < 2 ^ 32
  pub authentication_key_given : is_authentication_key p.authentication_key ≡ true
  pub room_server_id_set : 0 < p.room_server_id
  pub max_room_count_set : 0 < p.max_room_count

-- A RegisterRoomServer packet that satisfies `IsRegisterRoomServer` comes back from its bytes as it was.
pub decode-encode-register_room_server :
    (p : RegisterRoomServer)
    → IsRegisterRoomServer p
    → decode_register_room_server (encode_register_room_server p) ≡ some p
unfolding decode_register_room_server encode_register_room_server
decode-encode-register_room_server p w = packet-Ends (
    Ends-type register_room_server (
      Ends-then _ (Reads-uint64 p.room_server_id w.room_server_id_fits) (
        Ends-then _ (Reads-uint32 p.max_room_count w.max_room_count_fits) (
          Ends-then _
            (Reads-string p.authentication_key
              (key-length p.authentication_key w.authentication_key_given))
            (Ends-require w.authentication_key_given (
              Ends-require (ground arith)
                (Ends-require (ground arith) (Ends-finished (Ends-yields refl)))))))))

-- What the decoder asks of the fields.
pub record IsCreateRoom (p : CreateRoom) : Type 0 where
  pub request_id_fits : p.request_id < 2 ^ 64
  pub dungeon_id_fits : p.dungeon_id < 2 ^ 32
  pub participants_ids : AreIds p.participants
  pub participants_some : 0 < length p.participants
  pub participants_few : length p.participants ≤ 64
  pub request_id_set : 0 < p.request_id
  pub dungeon_id_set : 0 < p.dungeon_id

-- A CreateRoom packet that satisfies `IsCreateRoom` comes back from its bytes as it was.
pub decode-encode-create_room :
    (p : CreateRoom) → IsCreateRoom p → decode_create_room (encode_create_room p) ≡ some p
unfolding decode_create_room encode_create_room
decode-encode-create_room p w = packet-Ends (
    Ends-type create_room (
      Ends-then _ (Reads-uint64 p.request_id w.request_id_fits) (
        Ends-then _ (Reads-uint32 p.dungeon_id w.dungeon_id_fits) (
          Ends-then _
            (Reads-player_ids false p.participants w.participants_ids (ground arith)
              w.participants_few)
            (Ends-require (ground arith)
              (Ends-require (ground arith) (Ends-finished (Ends-yields refl))))))))

-- What the decoder asks of the fields.
pub record IsCreateRoomResult (p : CreateRoomResult) : Type 0 where
  pub request_id_fits : p.request_id < 2 ^ 64
  pub room_id_fits : p.room_id < 2 ^ 64
  pub combat_seed_fits : p.combat_seed < 2 ^ 64
  pub broker_address_short : length p.broker_address ≤ 255
  pub broker_port_fits : p.broker_port < 2 ^ 16
  pub request_id_set : 0 < p.request_id
  pub complete :
      (p.succeeded
        && (p.room_id == 0
            || (p.combat_seed == 0)
            || (length p.broker_address == 0)
            || (p.broker_port == 0)))
      ≡ false

-- A CreateRoomResult packet that satisfies `IsCreateRoomResult` comes back from its bytes as it was.
pub decode-encode-create_room_result :
    (p : CreateRoomResult)
    → IsCreateRoomResult p
    → decode_create_room_result (encode_create_room_result p) ≡ some p
unfolding decode_create_room_result encode_create_room_result
decode-encode-create_room_result p w = packet-Ends (
    Ends-type create_room_result (
      Ends-then _ (Reads-uint64 p.request_id w.request_id_fits) (
        Ends-then _ (Reads-uint8 (if p.succeeded then 1 else 0)) (
          Ends-require (flag-le p.succeeded) (
            Ends-then _ (Reads-uint64 p.room_id w.room_id_fits) (
              Ends-then _ (Reads-uint64 p.combat_seed w.combat_seed_fits) (
                Ends-then _ (Reads-string p.broker_address (omega (arith, w.broker_address_short)))
                  (Ends-then _ (Reads-uint16 p.broker_port w.broker_port_fits) (
                    Ends-require (ground arith) (
                      Ends-require (ground arith) (
                        Ends-finished (
                          Ends-require (rw (flag p.succeeded, w.complete) refl)
                            (Ends-yields (rw (flag p.succeeded) refl))))))))))))))
