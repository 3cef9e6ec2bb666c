-- ===== src/Rooms/Joins.antt =====
-- `ConfirmJoin` of GameRoomServer/RoomManager.cpp uses a challenge up.
use action_rpgserver.Common.{
  none, [], inl, inr, refl, nat_eq, ℕ, ◌≡◌, if◌then◌else◌, ◌==◌, Option-cases, Bool-cases, arith,
  ◌∙◌,
}
use action_rpgserver.Rooms.State.{RoomManager}
use action_rpgserver.Rooms.Joining.{confirm_join}
use action_rpgserver.RoomControl.Players.{ConfirmJoin}
use action_rpgserver.Common.Map.{find, find-erase}

waiting :
    (s : RoomManager) (gone challenge : ℕ)
    → find gone s.pending_sessions ≡ none
    → find challenge s.pending_sessions
      ≡ (if gone == challenge then none else find challenge s.pending_sessions)
waiting s gone challenge none' = elim (Bool-cases (gone == challenge)) [
  | inl same ↦ (let e : challenge ≡ gone = ground arith in rw same (rw e none'))
  | inr other ↦ rw other refl
]

nothing_waits :
    (s : RoomManager) (request : ConfirmJoin)
    → find request.challenge s.pending_sessions ≡ none
    → confirm_join s request ≡ (s, [])
unfolding confirm_join
nothing_waits s request none' = rw (none', confirm_join) refl

used_up :
    (s : RoomManager) (request : ConfirmJoin) (challenge : ℕ)
    → find challenge (confirm_join s request).0.pending_sessions
      ≡ (if request.challenge == challenge then none else find challenge s.pending_sessions)
unfolding confirm_join
used_up s request challenge = elim (Option-cases (find request.challenge s.pending_sessions)) [
  | inl none' ↦ rw (nothing_waits s request none') (waiting s request.challenge challenge none')
  | inr (pending, there) ↦
      rw (there, confirm_join) (find-erase request.challenge challenge s.pending_sessions)
]

-- The rest of the state is as it was.
pending_alone :
    (s : RoomManager) (request : ConfirmJoin)
    → (confirm_join s request).0
      ≡ record s { pending_sessions = (confirm_join s request).0.pending_sessions }
unfolding confirm_join
pending_alone s request = elim (Option-cases (find request.challenge s.pending_sessions)) [
  | inl none' ↦ rw (nothing_waits s request none') refl
  | inr (pending, there) ↦ rw (there, confirm_join) refl
]

-- After a confirmation no session waits under its challenge, every other one waits as before, nothing else of
-- the state changes, and the same confirmation again does nothing.
pub confirm_join-once :
    (s : RoomManager) (request : ConfirmJoin)
    → ((challenge : ℕ)
        → find challenge (confirm_join s request).0.pending_sessions
          ≡ (if request.challenge == challenge then none else find challenge s.pending_sessions))
      × ((confirm_join s request).0
          ≡ record s { pending_sessions = (confirm_join s request).0.pending_sessions })
      × (confirm_join (confirm_join s request).0 request ≡ ((confirm_join s request).0, []))
confirm_join-once s request = (
  used_up s request,
  pending_alone s request,
  nothing_waits (confirm_join s request).0 request (
      used_up s request request.challenge
      ∙ ground (arith, nat_eq.beq_iff request.challenge request.challenge)),
)
