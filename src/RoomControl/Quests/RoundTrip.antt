-- ===== src/RoomControl/Quests/RoundTrip.antt =====
-- The packets with a JSON text against their bytes.
use action_rpgserver.RoomControl.{
  PacketType, code, item_use_request, item_use_result, quest_events, quest_events_ack,
  quest_context_result,
}
use action_rpgserver.RoomControl.Reader.{
  ◌>>=◌, ◌>>◌, yields, read_packet_type, read_uint16, require,
}
use action_rpgserver.Common.{
  ℕ, refl, List, ◌++◌, set, ◌<◌, ◌∷◌, ◌^◌, ◌≡◌, [], length, some, true, arith, ◌≤◌, ltb, false, ap,
}
use action_rpgserver.RoomControl.Writer.{
  write_type, write_uint16, write_uint64, finish, write_string,
}
use action_rpgserver.RoomControl.Quests.{
  retype, has_type, ItemUseRequest, QuestEvents, QuestContextResult, encode_quest_context_result,
  encode_item_use_request, decode_item_use_request, encode_item_use_result, encode_quest_events,
  decode_quest_events, encode_quest_events_ack, decode_quest_context_result, decode_item_use_result,
  decode_quest_events_ack,
}
use action_rpgserver.Common.Outcome.{Returns, returns}
use action_rpgserver.RoomControl.Reader.Laws.{
  packet-Ends, code-bounds, Ends-type, Ends-then, Reads-uint64, Ends-require, Reads-string,
  Ends-finished, Ends-yields,
}

write_type-bytes : (type : PacketType) → write_type type ≡ 0 ∷ code type ∷ []
unfolding write_type write_uint16
write_type-bytes type = ground (arith, code-bounds type)

retype-write :
    (t u : PacketType) (rest : List ℕ) → retype t (write_type u ++ rest) ≡ write_type t ++ rest
unfolding retype
retype-write t u rest = rw (write_type-bytes t, write_type-bytes u) refl

second-write :
    (t u : PacketType) (rest : List ℕ)
    → set (write_type u ++ rest) 1 (code t) ≡ write_type t ++ rest
second-write t u rest = rw (write_type-bytes t, write_type-bytes u) refl

has_type-write : (t : PacketType) (rest : List ℕ) → has_type t (write_type t ++ rest) ≡ true
unfolding has_type read_packet_type read_uint16 ◌>>=◌ ◌>>◌ require yields
has_type-write t rest = rw (write_type-bytes t) (ground (arith, code-bounds t))

-- What the encoder and the decoder of an item use ask of the fields.
pub record IsItemUse (p : ItemUseRequest) : Type 0 where
  pub request_id_fits : p.request_id < 2 ^ 64
  pub room_id_fits : p.room_id < 2 ^ 64
  pub player_id_fits : p.player_id < 2 ^ 64
  pub request_id_set : 0 < p.request_id
  pub room_id_set : 0 < p.room_id
  pub json_given : 0 < length p.json
  pub json_short : length p.json ≤ 8192

module _ (p : ItemUseRequest) where
  abbrev item_use_fields : List (List ℕ)
  item_use_fields =
      write_uint64 p.request_id
      ∷ write_uint64 p.room_id
      ∷ write_uint64 p.player_id
      ∷ write_string p.json
      ∷ []

  item_use_encoded :
      IsItemUse p
      → encode_item_use_request p ≡ returns (write_type item_use_request ++ finish item_use_fields)
  unfolding encode_item_use_request
  item_use_encoded w = ground arith

  item_use_decoded :
      IsItemUse p
      → decode_item_use_request (write_type item_use_request ++ finish item_use_fields) ≡ some p
  unfolding decode_item_use_request
  item_use_decoded w = packet-Ends (
      Ends-type item_use_request (
        Ends-then _ (Reads-uint64 p.request_id w.request_id_fits) (
          Ends-require (ground arith) (
            Ends-then _ (Reads-uint64 p.room_id w.room_id_fits) (
              Ends-require (ground arith) (
                Ends-then _ (Reads-uint64 p.player_id w.player_id_fits) (
                  Ends-then _ (Reads-string p.json (omega (arith, w.json_short))) (
                    Ends-require (ground arith)
                      (Ends-require (ground arith) (Ends-finished (Ends-yields refl)))))))))))

  -- A request to use an item that satisfies `IsItemUse` is encoded without an exception, and comes
  -- back from its bytes as it was.
  pub decode-encode-item_use_request :
      IsItemUse p
      → Returns (λ bytes. decode_item_use_request bytes ≡ some p) (encode_item_use_request p)
  decode-encode-item_use_request w = rw (item_use_encoded w) (item_use_decoded w)

  item_use_answered :
      IsItemUse p
      → encode_item_use_result p ≡ returns (write_type item_use_result ++ finish item_use_fields)
  unfolding encode_item_use_result
  item_use_answered w =
      rw (encode_item_use_result, item_use_encoded w)
        (ap returns (retype-write item_use_result item_use_request (finish item_use_fields)))

  item_use_heard :
      IsItemUse p
      → decode_item_use_result (write_type item_use_result ++ finish item_use_fields) ≡ some p
  unfolding decode_item_use_result
  item_use_heard w =
      rw
        (
          decode_item_use_result,
          has_type-write item_use_result (finish item_use_fields),
          retype-write item_use_request item_use_result (finish item_use_fields),
        )
        (item_use_decoded w)

  -- The answer to a use of an item, if it satisfies `IsItemUse`, is encoded without an exception,
  -- and comes back from its bytes as it was.
  pub decode-encode-item_use_result :
      IsItemUse p
      → Returns (λ bytes. decode_item_use_result bytes ≡ some p) (encode_item_use_result p)
  decode-encode-item_use_result w = rw (item_use_answered w) (item_use_heard w)

-- What the encoder and the decoder of quest events ask of the fields.
pub record AreQuestEvents (p : QuestEvents) : Type 0 where
  pub room_id_fits : p.room_id < 2 ^ 64
  pub room_id_set : 0 < p.room_id
  pub json_given : 0 < length p.json
  pub json_short : length p.json ≤ 16384

module _ (p : QuestEvents) where
  abbrev quest_fields : List (List ℕ)
  quest_fields = write_uint64 p.room_id ∷ write_string p.json ∷ []

  quest_events_encoded :
      AreQuestEvents p
      → encode_quest_events p ≡ returns (write_type quest_events ++ finish quest_fields)
  unfolding encode_quest_events
  quest_events_encoded w = ground arith

  quest_events_decoded :
      AreQuestEvents p
      → decode_quest_events (write_type quest_events ++ finish quest_fields) ≡ some p
  unfolding decode_quest_events
  quest_events_decoded w = packet-Ends (
      Ends-type quest_events (
        Ends-then _ (Reads-uint64 p.room_id w.room_id_fits) (
          Ends-require (ground arith) (
            Ends-then _ (Reads-string p.json (omega (arith, w.json_short))) (
              Ends-require (ground arith)
                (Ends-require (ground arith) (Ends-finished (Ends-yields refl))))))))

  -- Quest events that satisfy `AreQuestEvents` are encoded without an exception, and come back from
  -- their bytes as they were.
  pub decode-encode-quest_events :
      AreQuestEvents p
      → Returns (λ bytes. decode_quest_events bytes ≡ some p) (encode_quest_events p)
  decode-encode-quest_events w = rw (quest_events_encoded w) (quest_events_decoded w)

  quest_events_acked :
      AreQuestEvents p
      → encode_quest_events_ack p ≡ returns (write_type quest_events_ack ++ finish quest_fields)
  unfolding encode_quest_events_ack
  quest_events_acked w =
      rw (encode_quest_events_ack, quest_events_encoded w)
        (ap returns (second-write quest_events_ack quest_events (finish quest_fields)))

  quest_events_heard :
      AreQuestEvents p
      → decode_quest_events_ack (write_type quest_events_ack ++ finish quest_fields) ≡ some p
  unfolding decode_quest_events_ack
  quest_events_heard w =
      rw
        (
          decode_quest_events_ack,
          has_type-write quest_events_ack (finish quest_fields),
          second-write quest_events quest_events_ack (finish quest_fields),
        )
        (quest_events_decoded w)

  -- The acknowledgement of quest events that satisfy `AreQuestEvents` is encoded without an
  -- exception, and comes back from its bytes as it was.
  pub decode-encode-quest_events_ack :
      AreQuestEvents p
      → Returns (λ bytes. decode_quest_events_ack bytes ≡ some p) (encode_quest_events_ack p)
  decode-encode-quest_events_ack w = rw (quest_events_acked w) (quest_events_heard w)

-- What the encoder and the decoder of a quest context ask of the fields.
pub record IsQuestContext (p : QuestContextResult) : Type 0 where
  pub request_id_fits : p.request_id < 2 ^ 64
  pub room_id_fits : p.room_id < 2 ^ 64
  pub player_id_fits : p.player_id < 2 ^ 64
  pub request_id_set : 0 < p.request_id
  pub room_id_set : 0 < p.room_id
  pub player_id_set : 0 < p.player_id
  pub json_short : length p.json ≤ 16384

-- A quest context that satisfies `IsQuestContext`, whose text may be empty, is encoded without an
-- exception, and comes back from its bytes as it was.
pub decode-encode-quest_context_result :
    (p : QuestContextResult)
    → IsQuestContext p
    → Returns (λ bytes. decode_quest_context_result bytes ≡ some p) (encode_quest_context_result p)
unfolding encode_quest_context_result decode_quest_context_result
decode-encode-quest_context_result p w =
    let short : ltb 16384 (length p.json) ≡ false = ground (arith, w.json_short) in
    rw short (
      packet-Ends (
        Ends-type quest_context_result (
          Ends-then _ (Reads-uint64 p.request_id w.request_id_fits) (
            Ends-require (ground arith) (
              Ends-then _ (Reads-uint64 p.room_id w.room_id_fits) (
                Ends-require (ground arith) (
                  Ends-then _ (Reads-uint64 p.player_id w.player_id_fits) (
                    Ends-require (ground arith) (
                      Ends-then _ (Reads-string p.json (omega (arith, w.json_short)))
                        (Ends-require (ground arith) (Ends-finished (Ends-yields refl))))))))))))
