-- ===== src/Party/Counter.antt =====
-- A call uses up one party id at most.
use action_rpgserver.Common.{
  ℕ, ◌+◌, ◌≤◌, arith, Bool, List, Option, ◌≡◌, Option-cases, some, inl, nat_eq, inr, none,
}
use action_rpgserver.Party.State.{
  Manager, create_party, Result, Invitation, Party, LeaveResult, vacate,
}
use action_rpgserver.Party.{
  create, answer_invitation, join_approved, set_leader, invite, invite_from, settle, leave, kick,
  set_settings, remove_player,
}
use action_rpgserver.Common.Outcome.{returns, bind-returns}
use action_rpgserver.Party.Calls.{
  step, Call, creates, answers, joins, leader, invites, leaves, kicks, removes, settings,
}
use action_rpgserver.Common.Map.{find, erase}
use action_rpgserver.Party.Seats.{reset}

abbrev pub Spends : Manager → Manager → Type 0
Spends s t = t.next_party_id ≤ s.next_party_id + 1

module _ (s : Manager) where
  create_party-Spends : (p : ℕ) → Spends s (create_party p s).1
  unfolding create_party
  create_party-Spends p = ground arith

  pub create-Spends : (p : ℕ) (title : List ℕ) (b : Bool) → Spends s (create p title b s).0
  unfolding create
  create-Spends p title b = ground (arith, create_party-Spends p)

  pub answer_invitation-Spends : (t id : ℕ) (b : Bool) → Spends s (answer_invitation t id b s).0
  unfolding answer_invitation
  answer_invitation-Spends t id b = ground arith

  pub join_approved-Spends : (id l p : ℕ) → Spends s (join_approved id l p s).0
  unfolding join_approved
  join_approved-Spends id l p = ground arith

  pub set_leader-Spends : (id p : ℕ) → Spends s (set_leader id p s).0
  unfolding set_leader
  set_leader-Spends id p = ground arith

  invite_from-Spends :
      (o : Option ℕ) (p t : ℕ) {r : Manager × Result × Option Invitation}
      → invite_from o p t s ≡ returns r
      → Spends s r.0
  unfolding invite_from
  invite_from-Spends none p t e = ground (arith, create_party-Spends p)
  invite_from-Spends (some id) p t e = ground arith

  invite-Spends :
      (p t : ℕ) {r : Manager × Result × Option Invitation} → invite p t s ≡ returns r → Spends s r.0
  unfolding invite
  invite-Spends p t e = ground (arith, invite_from-Spends (find p s.player_parties) p t)

  settle-Spends : (p id : ℕ) (y : Party) → (settle p id y s).0.next_party_id ≡ s.next_party_id
  unfolding settle
  settle-Spends p id y = ground arith

leave-Spends :
    (s : Manager) (p : ℕ) {r : Manager × LeaveResult} → leave p s ≡ returns r → Spends s r.0
unfolding leave
leave-Spends s p e = elim (Option-cases (find p s.player_parties)) [
  | inl out ↦ ground arith
  | inr (id, home) ↦ elim (Option-cases (find id s.parties)) [
    | inl gone ↦ ground arith
    | inr (y, here) ↦
        ground (arith, settle-Spends (vacate p id y s) p id (record y { slots = reset p y.slots }))
  ]
]

kick-Spends :
    (s : Manager) (l t : ℕ) {r : Manager × Result × Option ℕ}
    → kick l t s ≡ returns r
    → Spends s r.0
unfolding kick
kick-Spends s l t e = ground arith

set_settings-Spends :
    (s : Manager) (l : ℕ) (title : List ℕ) (b : Bool) {r : Manager × Result}
    → set_settings l title b s ≡ returns r
    → Spends s r.0
unfolding set_settings
set_settings-Spends s l title b e = ground arith

pub step-Spends : (c : Call) (s : Manager) {t : Manager} → step c s ≡ returns t → Spends s t
unfolding step remove_player
step-Spends (creates p title b) s e = ground (arith, create-Spends s p title b)
step-Spends (answers t id b) s e = ground (arith, answer_invitation-Spends s t id b)
step-Spends (joins id l p) s e = ground (arith, join_approved-Spends s id l p)
step-Spends (leader id p) s e = ground (arith, set_leader-Spends s id p)
step-Spends (invites p target) s e =
    let (r, m, k) = bind-returns (invite p target s) _ e in
    ground (arith, invite-Spends s p target m)
step-Spends (leaves p) s e =
    let (r, m, k) = bind-returns (leave p s) _ e in ground (arith, leave-Spends s p m)
step-Spends (kicks l target) s e =
    let (r, m, k) = bind-returns (kick l target s) _ e in ground (arith, kick-Spends s l target m)
step-Spends (removes p) s e =
    let (r, m, k) = bind-returns (remove_player p s) _ e in
    ground (arith, leave-Spends (record s { invitations = erase p s.invitations }) p m)
step-Spends (settings l title b) s e =
    let (r, m, k) = bind-returns (set_settings l title b s) _ e in
    ground (arith, set_settings-Spends s l title b m)
