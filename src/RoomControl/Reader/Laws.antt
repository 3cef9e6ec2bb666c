-- ===== src/RoomControl/Reader/Laws.antt =====
-- Each read of `PacketReader` is the inverse of a write of `PacketWriter`.
use action_rpgserver.RoomControl.{
  PacketType, register_room_server, create_room, create_room_result, confirm_join, enter_room,
  leave_room, room_ended, finish_room, finish_room_result, room_started, update_player_progress,
  item_use_request, item_use_result, quest_events, quest_events_ack, quest_context_request,
  quest_context_result, code,
}
use action_rpgserver.RoomControl.Reader.{
  ◌>>=◌, ◌>>◌, read_uint8, read_uint16, read_uint32, read_uint64, read_bytes, read_string,
  read_expected, read_each, read_player_ids, require, yields, Reader, packet, finished,
}
use action_rpgserver.Common.{
  ℕ, ◌<◌, Bool, List, Option, drop, take, length, not, leb, ◌∷◌, ◌++◌, [], ◌≡◌, ap, ◌==◌,
  if◌then◌else◌, ◌^◌, arith, ◌&&◌, true, some, refl, ◌/◌, length-append, min, false, false, false,
  ◌%◌, ◌-◌, ◌≤◌, ltb,
}
use action_rpgserver.RoomControl.Writer.{
  write_uint8, write_uint16, write_uint32, write_uint64, write_string, write_each, write_player_ids,
  write_type,
}

-- A chain goes on with what its first part reads.
pub reads :
    {A B : Type 0} (m : Reader A) (f : A → Reader B) {bs rest : List ℕ} {a : A}
    {r : Option (B × List ℕ)}
    → m bs ≡ some (a, rest)
    → f a rest ≡ r
    → (m >>= f) bs ≡ r
unfolding ◌>>=◌
reads m f e h = rw (e, ◌>>=◌) h

pub ++-assoc : (xs ys zs : List ℕ) → (xs ++ ys) ++ zs ≡ xs ++ (ys ++ zs)
++-assoc [] ys zs = refl
++-assoc (x ∷ xs) ys zs = ap (λ t. x ∷ t) (++-assoc xs ys zs)

-- What a read returns on the bytes of a value, whatever follows them.
pub record Reads {A : Type 0} (m : Reader A) (bytes : List ℕ) (a : A) : Type 0 where
  pub at : (rest : List ℕ) → m (bytes ++ rest) ≡ some (a, rest)

-- A chain on the bytes of its parts.
pub Reads-then :
    {A B : Type 0} {m : Reader A} (f : A → Reader B) {xs ys : List ℕ} {a : A} {b : B}
    → Reads m xs a
    → Reads (f a) ys b
    → Reads (m >>= f) (xs ++ ys) b
Reads-then {m = m} f {xs = xs} {ys = ys} h k = record {
  at = λ rest. rw (++-assoc xs ys rest) (reads m f (h.at (ys ++ rest)) (k.at rest));
}

pub Reads-uint8 : (v : ℕ) → Reads read_uint8 (write_uint8 v) v
unfolding read_uint8 write_uint8
Reads-uint8 v = record { at = λ rest. refl }

pub Reads-uint16 : (v : ℕ) → v < 2 ^ 16 → Reads read_uint16 (write_uint16 v) v
unfolding read_uint16 write_uint16
Reads-uint16 v fits = record { at = λ rest. ground arith }

pub Reads-uint32 : (v : ℕ) → v < 2 ^ 32 → Reads read_uint32 (write_uint32 v) v
unfolding read_uint32 write_uint32
Reads-uint32 v fits = record { at = λ rest. ground arith }

pub Reads-uint64 : (v : ℕ) → v < 2 ^ 64 → Reads read_uint64 (write_uint64 v) v
unfolding read_uint64 write_uint64 yields
Reads-uint64 v fits = Reads-then _ (Reads-uint32 (v / 2 ^ 32 % 2 ^ 32) (omega arith)) (record {
  at = λ rest. reads _ _ ((Reads-uint32 (v % 2 ^ 32) (omega arith)).at rest) (ground arith);
})

take-append : (xs rest : List ℕ) → take (length xs) (xs ++ rest) ≡ xs
take-append [] rest = refl
take-append (x ∷ xs) rest = ap (λ t. x ∷ t) (take-append xs rest)

drop-append : (xs rest : List ℕ) → drop (length xs) (xs ++ rest) ≡ rest
drop-append [] rest = refl
drop-append (x ∷ xs) rest = drop-append xs rest

take-all : (xs : List ℕ) → take (length xs) xs ≡ xs
take-all [] = refl
take-all (x ∷ xs) = ap (λ t. x ∷ t) (take-all xs)

Reads-bytes : (xs : List ℕ) → Reads (read_bytes (length xs)) xs xs
unfolding read_bytes
Reads-bytes xs = record {
  at = λ rest.
      let within : leb (length xs) (length (xs ++ rest)) ≡ true =
        ground (arith, length-append xs rest) in
      rw (within, take-append xs rest, drop-append xs rest) refl;
}

pub Reads-string : (s : List ℕ) → length s < 2 ^ 16 → Reads read_string (write_string s) s
unfolding read_string write_string
Reads-string s fits =
    let whole : min (length s) (2 ^ 16 - 1) ≡ length s = omega arith in
    rw (whole, take-all s) (Reads-then _ (Reads-uint16 (length s) fits) (Reads-bytes s))

pub code-bounds : (type : PacketType) → (0 < code type) × (code type < 18)
code-bounds register_room_server = omega arith
code-bounds create_room = omega arith
code-bounds create_room_result = omega arith
code-bounds confirm_join = omega arith
code-bounds enter_room = omega arith
code-bounds leave_room = omega arith
code-bounds room_ended = omega arith
code-bounds finish_room = omega arith
code-bounds finish_room_result = omega arith
code-bounds room_started = omega arith
code-bounds update_player_progress = omega arith
code-bounds item_use_request = omega arith
code-bounds item_use_result = omega arith
code-bounds quest_events = omega arith
code-bounds quest_events_ack = omega arith
code-bounds quest_context_request = omega arith
code-bounds quest_context_result = omega arith

pub Reads-type : (type : PacketType) → Reads (read_expected type) (write_type type) tt
unfolding read_expected write_type require
Reads-type type = record {
  at = λ rest.
      let same : (code type == code type) ≡ true = ground arith in
      reads _ _ ((Reads-uint16 (code type) (omega (arith, code-bounds type))).at rest)
        (rw same refl);
}

-- A guard that holds reads nothing.
pub Reads-require :
    {A : Type 0} {c : Bool} {m : Reader A} {bytes : List ℕ} {a : A}
    → c ≡ true
    → Reads m bytes a
    → Reads (require c >> m) bytes a
unfolding require ◌>>◌ ◌>>=◌
Reads-require {m = m} {bytes = bytes} {a = a} e h = rw e (record { at = h.at })

-- A flag is one byte, 0 or 1.
pub flag : (b : Bool) → not ((if b then 1 else 0) == 0) ≡ b
flag true = refl
flag false = refl

pub flag-le : (b : Bool) → leb (if b then 1 else 0) 1 ≡ true
flag-le true = refl
flag-le false = refl

-- Player ids that a packet may hold.
abbrev pub AreIds : List ℕ → Type 0
AreIds [] = Unit
AreIds (id ∷ ids) = (0 < id) × (id < 2 ^ 64) × AreIds ids

Reads-each : (ids : List ℕ) → AreIds ids → Reads (read_each (length ids)) (write_each ids) ids
unfolding read_each write_each yields
Reads-each [] v = record { at = λ rest. refl }
Reads-each (id ∷ ids) (pos, fits, v) = Reads-then _ (Reads-uint64 id fits) (
    Reads-require (ground arith)
      (record { at = λ rest. reads _ _ ((Reads-each ids v).at rest) refl }))

pub Reads-player_ids :
    (allow_empty : Bool) (ids : List ℕ)
    → AreIds ids
    → (not allow_empty && (length ids == 0)) ≡ false
    → length ids ≤ 64
    → Reads (read_player_ids allow_empty) (write_player_ids ids) ids
unfolding read_player_ids write_player_ids
Reads-player_ids allow_empty ids v some_id few =
    let small : length ids % 2 ^ 16 ≡ length ids = omega arith in
    let within : ltb 64 (length ids) ≡ false = ground arith in
    rw small (
      Reads-then _ (Reads-uint16 (length ids) (omega arith))
        (Reads-require (rw (some_id, within) refl) (Reads-each ids v)))

-- What a decoder returns on the bytes of a packet and nothing else.
pub record Ends {A : Type 0} (m : Reader A) (bytes : List ℕ) (a : A) : Type 0 where
  pub all : m bytes ≡ some (a, [])

pub Ends-then :
    {A B : Type 0} {m : Reader A} (f : A → Reader B) {xs ys : List ℕ} {a : A} {b : B}
    → Reads m xs a
    → Ends (f a) ys b
    → Ends (m >>= f) (xs ++ ys) b
Ends-then {m = m} f {ys = ys} h k = record { all = reads m f (h.at ys) k.all }

pub Ends-require :
    {A : Type 0} {c : Bool} {m : Reader A} {bytes : List ℕ} {a : A}
    → c ≡ true
    → Ends m bytes a
    → Ends (require c >> m) bytes a
unfolding require ◌>>◌ ◌>>=◌
Ends-require {m = m} {bytes = bytes} {a = a} e h = rw e (record { all = h.all })

pub Ends-finished : {A : Type 0} {m : Reader A} {a : A} → Ends m [] a → Ends (finished >> m) [] a
unfolding ◌>>◌ ◌>>=◌
Ends-finished h = record { all = h.all }

pub Ends-yields : {A : Type 0} {a b : A} → a ≡ b → Ends (yields a) [] b
unfolding yields
Ends-yields e = rw e (record { all = refl })

pub Ends-type :
    {A : Type 0} (type : PacketType) {m : Reader A} {bytes : List ℕ} {a : A}
    → Ends m bytes a
    → Ends (read_expected type >> m) (write_type type ++ bytes) a
unfolding ◌>>◌
Ends-type type {m = m} h = Ends-then (λ _. m) (Reads-type type) h

pub packet-Ends :
    {A : Type 0} {m : Reader A} {bytes : List ℕ} {a : A} → Ends m bytes a → packet m bytes ≡ some a
packet-Ends h = rw (h.all, packet) refl
