-- ===== src/Party.antt =====
-- TownServer/PartyManager.cpp: parties of eight slots, their members and leaders, and the
-- invitations that wait for an answer. An out parameter is an option, which is `none` where the code
-- leaves the argument alone. `at` on a missing key throws.
pub mod Title
pub mod Seats
pub mod State
pub mod Invariant
pub mod Preserves
pub mod Leaving
pub mod Calls
pub mod Safety
pub mod Founding
pub mod Counter
pub mod Histories
pub mod Moves
pub mod Answers
pub mod Departures
pub mod Queries
pub mod Listing
mod Tests
use Title.{is_valid_party_title}
use Seats.{find_empty_slot, first_member, reset}
use State.{
  Result, succeeded, already_in_party, not_in_party, not_leader, party_full, already_invited,
  invitation_not_found, invalid_target, invalid_title, Party, Invitation, LeaveResult, Manager,
  cancel_invitations, create_party, party_at, vacate,
}
use action_rpgserver.Common.{
  ℕ, ◌+◌, ◌%◌, ◌^◌, Bool, true, false, not, ◌||◌, Option, none, some, List, ◌==◌, if◌then◌else◌,
  set, nat_eq,
}
use action_rpgserver.Common.Map.{is_some, find, contains, erase, put, emplace}
use action_rpgserver.Common.Outcome.{Outcome, returns, ◌>>=◌}

pub set_leader : ℕ → ℕ → Manager → Manager × Bool
unfolding cancel_invitations
set_leader id player s = elim (find player s.player_parties) [
  | none ↦ (s, false)
  | some home ↦ elim (find id s.parties) [
    | none ↦ (s, false)
    | some y ↦ if not (home == id) || (y.leader == player) then (s, false) else (
      cancel_invitations id
          (record s { parties = put id (record y { leader = player }) s.parties }),
      true,
    )
  ]
]

pub create : ℕ → List ℕ → Bool → Manager → Manager × Result × Option ℕ
create player title is_public s =
    if player == 0
    then (s, invalid_target, none)
    else if contains player s.player_parties
    then (s, already_in_party, none)
    else if not (is_valid_party_title title)
    then (s, invalid_title, none)
    else let (y, s') = create_party player s in
      (
        record s' {
          parties =
              put s.next_party_id (record y { title = title; is_public = is_public }) s'.parties;
        },
        succeeded,
        some y.party_id,
      )

-- The end of `Invite`, once the inviter's party is at hand.
pub invite_to : Party → ℕ → ℕ → Manager → Manager × Result × Option Invitation
invite_to y inviter target s =
    if is_some (find_empty_slot y.slots)
    then (
      record s {
        invitations = emplace target invitation s.invitations;
        next_invitation_id = (s.next_invitation_id + 1) % 2 ^ 64;
      },
      succeeded,
      some invitation,
    )
    else (s, party_full, none)
  where
    invitation : Invitation
    invitation = record {
      invitation_id = s.next_invitation_id;
      party_id = y.party_id;
      inviter = inviter;
      target = target;
    }

-- The inviter's own party, which only its leader may fill.
pub invite_led : Party → ℕ → ℕ → Manager → Manager × Result × Option Invitation
unfolding invite_to
invite_led y inviter target s =
    if y.leader == inviter then invite_to y inviter target s else (s, not_leader, none)

-- The choice of the inviter's party: a new one, or the one that it is in.
pub invite_from : Option ℕ → ℕ → ℕ → Manager → Outcome (Manager × Result × Option Invitation)
unfolding create_party party_at invite_to invite_led
invite_from none inviter target s =
    let (y, s') = create_party inviter s in returns (invite_to y inviter target s')
invite_from (some id) inviter target s = do
  y ← party_at id s
  returns (invite_led y inviter target s)

pub invite : ℕ → ℕ → Manager → Outcome (Manager × Result × Option Invitation)
unfolding invite_from
invite inviter target s =
    if inviter == 0 || target == 0 || (inviter == target)
    then returns (s, invalid_target, none)
    else if contains target s.player_parties
    then returns (s, already_in_party, none)
    else if contains target s.invitations
    then returns (s, already_invited, none)
    else invite_from (find inviter s.player_parties) inviter target s

-- The end of `AnswerInvitation`, once the invitation is taken out.
pub accept_invitation : Invitation → ℕ → Manager → Manager × Result × Option ℕ
accept_invitation i target s =
    if contains target s.player_parties
    then (s, already_in_party, some i.party_id)
    else elim (find i.party_id s.parties) [
      | none ↦ (s, invitation_not_found, some i.party_id)
      | some y ↦
          if y.leader == i.inviter
          then elim (find_empty_slot y.slots) [
            | none ↦ (s, party_full, some i.party_id)
            | some slot ↦ (
              record s {
                parties =
                    put i.party_id (record y { slots = set y.slots slot (some target) }) s.parties;
                player_parties = emplace target y.party_id s.player_parties;
              },
              succeeded,
              some i.party_id,
            )
          ]
          else (s, invitation_not_found, some i.party_id)
    ]

pub answer_invitation : ℕ → ℕ → Bool → Manager → Manager × Result × Option ℕ
unfolding accept_invitation
answer_invitation target invitation_id accepted s = elim (find target s.invitations) [
  | none ↦ (s, invitation_not_found, none)
  | some i ↦
      let s' : Manager = record s { invitations = erase target s.invitations } in
      if not (i.invitation_id == invitation_id)
      then (s, invitation_not_found, none)
      else if not accepted
      then (s', succeeded, some i.party_id)
      else accept_invitation i target s'
]

-- The end of `Leave`: an empty party is disbanded, and a leader is followed by the first member.
pub settle : ℕ → ℕ → Party → Manager → Manager × LeaveResult
unfolding cancel_invitations
settle player id y s = elim (first_member y.slots) [
  | none ↦
      let s' = cancel_invitations id s in
      (
        record s' { parties = erase id s'.parties },
        record { result = succeeded; party_id = id; disbanded = true },
      )
  | some next ↦ (
    if y.leader == player
        then cancel_invitations id
            (record s { parties = put id (record y { leader = next }) s.parties })
        else s,
    record { result = succeeded; party_id = id; disbanded = false },
  )
]

pub leave : ℕ → Manager → Outcome (Manager × LeaveResult)
unfolding party_at vacate settle
leave player s = elim (find player s.player_parties) [
  | none ↦ returns (s, record { result = not_in_party; party_id = 0; disbanded = false })
  | some id ↦ do
    y ← party_at id s
    returns (settle player id (record y { slots = reset player y.slots }) (vacate player id y s))
]

pub join_approved : ℕ → ℕ → ℕ → Manager → Manager × Result
join_approved id leader requester s =
    if requester == 0 then (s, invalid_target) else elim (find id s.parties) [
      | none ↦ (s, invalid_target)
      | some y ↦
          if not y.is_public
          then (s, invalid_target)
          else if not (y.leader == leader)
          then (s, not_leader)
          else if contains requester s.player_parties
          then (s, already_in_party)
          else elim (find_empty_slot y.slots) [
            | none ↦ (s, party_full)
            | some slot ↦ (
              record s {
                parties = put id (record y { slots = set y.slots slot (some requester) }) s.parties;
                player_parties = emplace requester id s.player_parties;
                invitations = erase requester s.invitations;
              },
              succeeded,
            )
          ]
    ]

-- The end of `Kick`, once the leader's party is at hand under the key `id`.
pub kick_from : ℕ → Party → ℕ → ℕ → Manager → Manager × Result × Option ℕ
unfolding vacate
kick_from id y leader target s =
    if not (y.leader == leader)
    then (s, not_leader, none)
    else elim (find target s.player_parties) [
      | none ↦ (s, invalid_target, none)
      | some home ↦
          if home == y.party_id
          then (vacate target id y s, succeeded, some y.party_id)
          else (s, invalid_target, none)
    ]

pub kick : ℕ → ℕ → Manager → Outcome (Manager × Result × Option ℕ)
unfolding party_at kick_from
kick leader target s =
    if leader == target
    then returns (s, invalid_target, none)
    else elim (find leader s.player_parties) [
      | none ↦ returns (s, not_in_party, none)
      | some id ↦ do y ← party_at id s; returns (kick_from id y leader target s)
    ]

pub remove_player : ℕ → Manager → Outcome (Manager × LeaveResult)
unfolding leave
remove_player player s = leave player (record s { invitations = erase player s.invitations })

pub set_settings : ℕ → List ℕ → Bool → Manager → Outcome (Manager × Result)
unfolding party_at
set_settings leader title is_public s = elim (find leader s.player_parties) [
  | none ↦ returns (s, not_in_party)
  | some id ↦ do
    y ← party_at id s
    returns (
        if not (y.leader == leader)
        then (s, not_leader)
        else if not (is_valid_party_title title)
        then (s, invalid_title)
        else (
          record s {
            parties = put id (record y { title = title; is_public = is_public }) s.parties;
          },
          succeeded,
        ))
]
