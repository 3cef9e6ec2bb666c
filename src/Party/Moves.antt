-- ===== src/Party/Moves.antt =====
-- The party manager as a partial function from players to parties: what a call may do to it.
use action_rpgserver.Common.{
  ℕ, Option, ◌≡◌, none, arith, Option-cases, nat_eq, List, if-cases, inl, Bool, inr, ◌==◌, not,
  elim-cases, refl, if◌then◌else◌, some, ◌||◌,
}
use action_rpgserver.Party.State.{
  Manager, create_party, Invitation, Party, Result, party_at, LeaveResult,
}
use action_rpgserver.Common.Map.{Map, find, erase, find-erase, emplace, find-put, is_some}
use action_rpgserver.Party.{
  create, set_leader, accept_invitation, settle, join_approved, answer_invitation, leave, kick,
  set_settings, invite_to, invite, invite_from, remove_player, invite_led,
}
use action_rpgserver.Party.Title.{is_valid_party_title}
use action_rpgserver.Party.Seats.{find_empty_slot}
use action_rpgserver.Common.Outcome.{
  returns, IfReturns, IfReturns-bind, IfReturns-of, IfReturns-chain,
}
use action_rpgserver.Party.Calls.{
  step, Call, creates, answers, joins, leader, invites, leaves, kicks, removes, settings,
}

-- The party that a player is in.
abbrev pub home : Manager → ℕ → Option ℕ
home s p = find p s.player_parties

-- At most one player moves: it stays, joins a party when it has none, or parts from its own.
pub data Moves (s t : Manager) : Type 0 where
  stays : ((q : ℕ) → home t q ≡ home s q) → Moves s t
  joins_party :
      (p id : ℕ)
      → home s p ≡ none
      → ((q : ℕ) → home t q ≡ (if p == q then some id else home s q))
      → Moves s t
  parts : (p : ℕ) → ((q : ℕ) → home t q ≡ (if p == q then none else home s q)) → Moves s t

emplace-Moves :
    (s t : Manager) (p id : ℕ)
    → find p s.player_parties ≡ none
    → t.player_parties ≡ emplace p id s.player_parties
    → Moves s t
emplace-Moves s t p id free e =
    joins_party p id free λ q. rw (e, free) (find-put p q id s.player_parties)

erase-Moves : (s t : Manager) (p : ℕ) → t.player_parties ≡ erase p s.player_parties → Moves s t
erase-Moves s t p e = parts p λ q. rw e (find-erase p q s.player_parties)

same-Moves : (s t : Manager) → t.player_parties ≡ s.player_parties → Moves s t
same-Moves s t e = stays λ q. rw e

-- What a call leaves in `playerParties`: the old map, a map with one player more, or one less.
data Edit (m n : Map ℕ ℕ) : Type 0 where
  kept : n ≡ m → Edit m n
  added : (p id : ℕ) → find p m ≡ none → n ≡ emplace p id m → Edit m n
  removed : (p : ℕ) → n ≡ erase p m → Edit m n

Edit-Moves : (s t : Manager) → Edit s.player_parties t.player_parties → Moves s t
Edit-Moves s t (kept e) = same-Moves s t e
Edit-Moves s t (added p id free e) = emplace-Moves s t p id free e
Edit-Moves s t (removed p e) = erase-Moves s t p e

module _ (s : Manager) where
  abbrev Edits : Manager → Type 0
  Edits t = Edit s.player_parties t.player_parties

  create-Edits : (p : ℕ) (title : List ℕ) (b : Bool) → Edits (create p title b s).0
  unfolding create create_party
  create-Edits p title b =
      if-cases (λ (r : Manager × Result × Option ℕ). Edits r.0) (p == 0) (λ _. kept refl)
        λ _.
          if-cases (λ (r : Manager × Result × Option ℕ). Edits r.0)
            (is_some (find p s.player_parties)) (λ _. kept refl)
            λ free.
              if-cases (λ (r : Manager × Result × Option ℕ). Edits r.0)
                (not (is_valid_party_title title)) (λ _. kept refl)
                λ _. added p s.next_party_id (ground arith) refl

  set_leader-Edits : (id p : ℕ) → Edits (set_leader id p s).0
  unfolding set_leader
  set_leader-Edits id p = kept (ground arith)

  accept_invitation-Edits : (i : Invitation) (target : ℕ) → Edits (accept_invitation i target s).0
  unfolding accept_invitation
  accept_invitation-Edits i target =
      if-cases (λ (r : Manager × Result × Option ℕ). Edits r.0)
        (is_some (find target s.player_parties)) (λ _. kept refl)
        λ free.
          elim-cases (λ (r : Manager × Result × Option ℕ). Edits r.0) (find i.party_id s.parties)
            (λ _. kept refl)
            λ y here.
              if-cases (λ (r : Manager × Result × Option ℕ). Edits r.0) (y.leader == i.inviter)
                (λ _.
                  elim-cases (λ (r : Manager × Result × Option ℕ). Edits r.0)
                    (find_empty_slot y.slots) (λ _. kept refl)
                    λ slot empty. added target y.party_id (ground arith) refl)
                (λ _. kept refl)

  settle-homes : (p id : ℕ) (y : Party) → (settle p id y s).0.player_parties ≡ s.player_parties
  unfolding settle
  settle-homes p id y = ground arith

  join_approved-Edits : (id l p : ℕ) → Edits (join_approved id l p s).0
  unfolding join_approved
  join_approved-Edits id l p =
      if-cases (λ (r : Manager × Result). Edits r.0) (p == 0) (λ _. kept refl)
        λ _.
          elim-cases (λ (r : Manager × Result). Edits r.0) (find id s.parties) (λ _. kept refl)
            λ y here.
              if-cases (λ (r : Manager × Result). Edits r.0) (not y.is_public) (λ _. kept refl)
                λ _.
                  if-cases (λ (r : Manager × Result). Edits r.0) (not (y.leader == l))
                    (λ _. kept refl)
                    λ _.
                      if-cases (λ (r : Manager × Result). Edits r.0)
                        (is_some (find p s.player_parties)) (λ _. kept refl)
                        λ free.
                          elim-cases (λ (r : Manager × Result). Edits r.0) (find_empty_slot y.slots)
                            (λ _. kept refl) λ slot empty. added p id (ground arith) refl

  leave-Edits : (p : ℕ) → IfReturns (λ r. Edits r.0) (leave p s)
  unfolding leave
  leave-Edits p =
      elim-cases (IfReturns (λ (r : Manager × LeaveResult). Edits r.0)) (find p s.player_parties)
        (λ _. kept refl)
        λ id there.
          IfReturns-bind (λ (r : Manager × LeaveResult). Edits r.0) (party_at id s) _
            λ y. removed p (ground arith)

  kick-Edits : (l target : ℕ) → IfReturns (λ r. Edits r.0) (kick l target s)
  unfolding kick
  kick-Edits l target =
      if-cases (IfReturns (λ (r : Manager × Result × Option ℕ). Edits r.0)) (l == target)
        (λ _. kept refl)
        λ _.
          elim-cases (IfReturns (λ (r : Manager × Result × Option ℕ). Edits r.0))
            (find l s.player_parties) (λ _. kept refl)
            λ id home.
              IfReturns-bind (λ (r : Manager × Result × Option ℕ). Edits r.0) (party_at id s) _
                λ y.
                  if-cases (λ (r : Manager × Result × Option ℕ). Edits r.0) (not (y.leader == l))
                    (λ _. kept refl)
                    λ _.
                      elim-cases (λ (r : Manager × Result × Option ℕ). Edits r.0)
                        (find target s.player_parties) (λ _. kept refl)
                        λ other _.
                          if-cases (λ (r : Manager × Result × Option ℕ). Edits r.0)
                            (other == y.party_id) (λ _. removed target refl) (λ _. kept refl)

  set_settings-Edits :
      (l : ℕ) (title : List ℕ) (b : Bool) → IfReturns (λ r. Edits r.0) (set_settings l title b s)
  unfolding set_settings
  set_settings-Edits l title b =
      elim-cases (IfReturns (λ (r : Manager × Result). Edits r.0)) (find l s.player_parties)
        (λ _. kept refl)
        λ id home.
          IfReturns-bind (λ (r : Manager × Result). Edits r.0) (party_at id s) _
            λ y. kept (ground arith)

  invite_to-homes :
      (y : Party) (p target : ℕ) → (invite_to y p target s).0.player_parties ≡ s.player_parties
  unfolding invite_to
  invite_to-homes y p target = ground arith

answer_invitation-Edits :
    (s : Manager) (t id : ℕ) (b : Bool) → Edits s (answer_invitation t id b s).0
unfolding answer_invitation
answer_invitation-Edits s t id b =
    elim-cases (λ (r : Manager × Result × Option ℕ). Edits s r.0) (find t s.invitations)
      (λ _. kept refl)
      λ i pending.
        if-cases (λ (r : Manager × Result × Option ℕ). Edits s r.0) (not (i.invitation_id == id))
          (λ _. kept refl)
          λ _.
            if-cases (λ (r : Manager × Result × Option ℕ). Edits s r.0) (not b) (λ _. kept refl)
              (λ _. accept_invitation-Edits (record s { invitations = erase t s.invitations }) i t)

invite-Edits : (s : Manager) (p target : ℕ) → IfReturns (λ r. Edits s r.0) (invite p target s)
unfolding invite invite_from invite_led create_party
invite-Edits s p target =
    if-cases (IfReturns (λ (r : Manager × Result × Option Invitation). Edits s r.0))
      (p == 0 || (target == 0) || (p == target)) (λ _. kept refl)
      λ _.
        if-cases (IfReturns (λ (r : Manager × Result × Option Invitation). Edits s r.0))
          (is_some (find target s.player_parties)) (λ _. kept refl)
          λ _.
            if-cases (IfReturns (λ (r : Manager × Result × Option Invitation). Edits s r.0))
              (is_some (find target s.invitations)) (λ _. kept refl)
              λ _. elim (Option-cases (find p s.player_parties)) [
                | inl free ↦ rw free (
                    added p s.next_party_id free
                      (rw (invite_to-homes (create_party p s).1) (rw free)))
                | inr (id, home) ↦ rw home (
                    IfReturns-bind (λ (r : Manager × Result × Option Invitation). Edits s r.0)
                      (party_at id s) _
                      λ y.
                        if-cases (λ (r : Manager × Result × Option Invitation). Edits s r.0)
                          (y.leader == p) (λ _. kept (invite_to-homes s y p target))
                          (λ _. kept refl))
              ]

step-Edits : (c : Call) (s : Manager) → IfReturns (Edits s) (step c s)
unfolding step remove_player
step-Edits (creates p title b) s = create-Edits s p title b
step-Edits (answers t id b) s = answer_invitation-Edits s t id b
step-Edits (joins id l p) s = join_approved-Edits s id l p
step-Edits (leader id p) s = set_leader-Edits s id p
step-Edits (invites p t) s =
    IfReturns-chain (λ r. Edits s r.0) (Edits s) (invite p t s) _ (invite-Edits s p t) (λ r w. w)
step-Edits (leaves p) s =
    IfReturns-chain (λ r. Edits s r.0) (Edits s) (leave p s) _ (leave-Edits s p) (λ r w. w)
step-Edits (kicks l t) s =
    IfReturns-chain (λ r. Edits s r.0) (Edits s) (kick l t s) _ (kick-Edits s l t) (λ r w. w)
step-Edits (removes p) s =
    IfReturns-chain (λ r. Edits s r.0) (Edits s) (remove_player p s) _
      (leave-Edits (record s { invitations = erase p s.invitations }) p) (λ r w. w)
step-Edits (settings l title b) s =
    IfReturns-chain (λ r. Edits s r.0) (Edits s) (set_settings l title b s) _
      (set_settings-Edits s l title b) (λ r w. w)

-- A call that returns changes the party of one player at most: nobody moves, or one player who had no
-- party is in one, or one player is in none; every other player's party is what it was.
pub step-Moves : (c : Call) (s t : Manager) → step c s ≡ returns t → Moves s t
step-Moves c s t e = Edit-Moves s t (IfReturns-of (Edits s) (step c s) t e (step-Edits c s))
