-- ===== src/Rooms/Invariant.antt =====
-- What holds of the room manager of GameRoomServer/RoomManager.cpp at every step.
use action_rpgserver.Common.{
  none, some, [], true, false, inl, inr, refl, nat_eq, ℕ, ◌≡◌, Bool, ◌<◌, ◌==◌, not, if-cases,
  Option-cases, arith, ◌||◌, ◌&&◌, Bool-cases, sym, if◌then◌else◌, Option, ◌∙◌, List, elim-cases,
  ◌+◌,
}
use action_rpgserver.Common.Map.{
  find, put, erase, emplace, contains, IfSome, Map, all-erase, find-put, find-erase, all-emplace,
  IfSome-map,
}
use action_rpgserver.Rooms.State.{Settings, RoomManager, Room, Action, Step}
use action_rpgserver.Rooms.Making.{make_room, remove_room, retire, refuses, new_room_id}
use action_rpgserver.Rooms.Joining.{register_challenge, confirm_join, session_disconnected}
use action_rpgserver.Rooms.Events.{new_manager}
use action_rpgserver.RoomControl.Creation.{CreateRoom, CreateRoomResult}
use action_rpgserver.RoomControl.Players.{ConfirmJoin}

-- A room that is retiring is still there, the rooms that are there were made before, and a stopped manager has
-- no session that waits.
pub record IsManager (s : RoomManager) : Type 0 where
  pub retiring : (id : ℕ) → contains id s.retiring_rooms ≡ true → contains id s.rooms ≡ true
  pub made : (id : ℕ) → IfSome (λ (room : Room). room.object < s.objects) (find id s.rooms)
  pub idle : s.stopped ≡ true → s.pending_sessions ≡ []

pub new_manager-IsManager : (clock : ℕ) → IsManager (new_manager clock)
unfolding find
new_manager-IsManager clock = record { retiring = λ id h. cc; made = λ id. tt; idle = λ h. refl }

contains-put :
    {V : Type 0} (k j : ℕ) (v : V) (m : Map ℕ V) → contains j (put k v m) ≡ (k == j || contains j m)
contains-put k j v m = rw (find-put k j v m) (ground arith)

contains-erase :
    {V : Type 0} (k j : ℕ) (m : Map ℕ V) → contains j (erase k m) ≡ (not (k == j) && contains j m)
contains-erase k j m = rw (find-erase k j m) (ground arith)

contains-emplace_keeps :
    (k j : ℕ) (v : Room) (m : Map ℕ Room) → contains j m ≡ true → contains j (emplace k v m) ≡ true
contains-emplace_keeps k j v m h =
    if-cases (λ (r : Map ℕ Room). contains j r ≡ true) (contains k m) (λ _. h)
      (λ _. rw (contains-put k j v m) (ground arith))

erase_none : {V : Type 0} (k : ℕ) → erase {V = V} k [] ≡ []
unfolding erase
erase_none k = refl

module _ (s : RoomManager) (w : IsManager s) where
  pub remove_room-IsManager :
      (id : ℕ) (is_aborted : Bool) → IsManager (remove_room s id is_aborted).0
  unfolding remove_room
  remove_room-IsManager id is_aborted = elim (Option-cases (find id s.rooms)) [
    | inl none' ↦ rw (none', remove_room) w
    | inr (room, there) ↦
        rw (there, remove_room)
          (record {
            retiring = λ j h. elim (Bool-cases (id == j)) [
              | inl same ↦ (let e : id ≡ j = ground arith in rw (← e, there) refl)
              | inr other ↦
                  (let q = contains-put id j tt s.retiring_rooms in
                    w.retiring j (ground (arith, q)))
            ];
            made = w.made;
            idle = w.idle;
          })
  ]

  pub retire-IsManager : (id : ℕ) (ready : Bool) → IsManager (retire s id ready).0
  unfolding retire
  retire-IsManager id false = w
  retire-IsManager id true = record {
    retiring = λ j h.
        let q = contains-erase id j s.retiring_rooms in
        let there = w.retiring j (ground (arith, q)) in
        rw (contains-erase id j s.rooms) (ground (arith, q, there));
    made = λ j. all-erase (λ _ (room : Room). room.object < s.objects) s.rooms w.made id j;
    idle = w.idle;
  }

  -- Nothing that the invariant is about changes.
  pub same-IsManager :
      (s' : RoomManager)
      → s'.retiring_rooms ≡ s.retiring_rooms
      → s'.rooms ≡ s.rooms
      → s'.objects ≡ s.objects
      → s'.stopped ≡ s.stopped
      → (s.pending_sessions ≡ [] → s'.pending_sessions ≡ [])
      → IsManager s'
  same-IsManager s' a b d e f = record {
    retiring = rw (a, b) w.retiring;
    made = rw (b, d) w.made;
    idle = λ h. f (w.idle (sym e ∙ h));
  }

  pub make_room-IsManager :
      (c : Settings) (request : CreateRoom) (replacing : ℕ)
      → IsManager (make_room c s request replacing).0
  unfolding make_room
  make_room-IsManager c request replacing =
      if-cases (λ (r : RoomManager × List Action × CreateRoomResult). IsManager r.0)
        (refuses c s request replacing) (λ _. w)
        λ _. record {
          retiring = λ j h.
              contains-emplace_keeps (new_room_id c s) j
                (record { object = s.objects; dungeon_id = request.dungeon_id }) s.rooms
                (w.retiring j h);
          made =
              all-emplace (λ _ (room : Room). room.object < s.objects + 1) s.rooms
                (λ j.
                  IfSome-map (λ (room : Room). room.object < s.objects)
                    (λ (room : Room). room.object < s.objects + 1) (find j s.rooms)
                    (λ room h. omega (arith, h)) (w.made j))
                (new_room_id c s) (record { object = s.objects; dungeon_id = request.dungeon_id })
                (omega arith);
          idle = w.idle;
        }

  pub emptied-IsManager :
      (id : ℕ) (is_empty : Bool) → IsManager (if is_empty then remove_room s id true else (s, [])).0
  emptied-IsManager id true = remove_room-IsManager id true
  emptied-IsManager id false = w

  pub session_disconnected-IsManager :
      (challenge session generation id player : ℕ)
      → IsManager (session_disconnected s challenge session generation id player).0
  unfolding session_disconnected find
  session_disconnected-IsManager challenge session generation id player =
      same-IsManager (session_disconnected s challenge session generation id player).0 refl refl
        refl refl λ e. rw (e, find) refl

  pub confirm_join-IsManager : (request : ConfirmJoin) → IsManager (confirm_join s request).0
  unfolding confirm_join
  confirm_join-IsManager request =
      elim-cases (λ (r : Step). IsManager r.0) (find request.challenge s.pending_sessions) (λ _. w)
        (λ pending there. record {
          retiring = w.retiring;
          made = w.made;
          idle = λ h. let e = w.idle h in rw e (erase_none request.challenge);
        })

  pub register_challenge-IsManager :
      (challenge : ℕ) (session : Option ℕ) (generation : ℕ)
      → IsManager (register_challenge s challenge session generation).0
  unfolding register_challenge
  register_challenge-IsManager challenge none generation = w
  register_challenge-IsManager challenge (some session) generation =
      if-cases (λ (r : Step). IsManager r.0) s.stopped (λ _. w)
        λ running.
          if-cases (λ (r : Step). IsManager r.0) (challenge == 0) (λ _. w)
            λ _. record { retiring = w.retiring; made = w.made; idle = λ h. absurd (ground arith) }
