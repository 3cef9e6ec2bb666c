-- ===== src/Party/Safety.antt =====
-- Every operation of the party manager keeps the invariant, and under it no `at` throws.
use action_rpgserver.Common.{
  ◌||◌, ℕ, ◌≡◌, refl, Bool, true, not, some, List, arith, ◌==◌, inl, inr, Option-cases, nat_eq,
  elim-cases, if-cases, Option,
}
use action_rpgserver.Common.Map.{find, is_some}
use action_rpgserver.Common.Outcome.{Outcome, ◌>>=◌, Returns}
use action_rpgserver.Party.Title.{is_valid_party_title}
use action_rpgserver.Party.Seats.{find_empty_slot, first_member, reset, has}
use action_rpgserver.Party.State.{Party, Invitation, Manager, party_at, vacate}
use action_rpgserver.Party.Invariant.{Inv}
use action_rpgserver.Party.Preserves.{
  forget-Inv, Formed-here, keep-Inv, sit-Inv, sit_own-Inv, vacate_member-Inv, cede-Inv,
}
use action_rpgserver.Party.Leaving.{disband-Inv, succeed-Inv}
use action_rpgserver.Party.{
  set_leader, answer_invitation, accept_invitation, settle, leave, join_approved, kick,
  set_settings, LeaveResult, Result,
}

module _ {s : Manager} (v : Inv s) where
  -- A player's home stands, and the player has a slot there.
  pub home_stands :
      (p id : ℕ)
      → find p s.player_parties ≡ some id
      → (y : Party) × (find id s.parties ≡ some y) × (has p y.slots ≡ true)
  home_stands p id home = elim (Option-cases (find id s.parties)) [
    | inl gone ↦ absurd (ground (arith, v.agrees.at p id))
    | inr (y, here) ↦ (y, here, ground (arith, v.agrees.at p id))
  ]

  -- So `at` on a player's home does not throw.
  pub at_home :
      {A : Type 0} (P : A → Type 0) (f : Party → Outcome A) (p id : ℕ)
      → find p s.player_parties ≡ some id
      → ((y : Party) → find id s.parties ≡ some y → Returns P (f y))
      → Returns P (party_at id s >>= f)
  unfolding party_at
  at_home P f p id home next =
      let (y, here, _) = home_stands p id home in rw (here, party_at, ◌>>=◌, Returns) (next y here)

  pub settle-Inv :
      (p id : ℕ) (y : Party)
      → find id s.parties ≡ some y
      → find p s.player_parties ≡ some id
      → Inv (settle p id (record y { slots = reset p y.slots }) (vacate p id y s)).0
  unfolding settle
  settle-Inv p id y here home =
      elim-cases (λ (r : Manager × LeaveResult). Inv r.0) (first_member (reset p y.slots))
        (disband-Inv v id y here p home)
        λ next first.
          if-cases Inv (y.leader == p) (λ _. succeed-Inv v id y here p home next first)
            (vacate_member-Inv v id y here p home)

  pub leave-Inv : (p : ℕ) → Returns (λ r. Inv r.0) (leave p s)
  unfolding leave
  leave-Inv p =
      elim-cases (Returns (λ (r : Manager × LeaveResult). Inv r.0)) (find p s.player_parties)
        (λ _. v)
        λ id home. at_home (λ r. Inv r.0) _ p id home (λ y here. settle-Inv p id y here home)

  pub kick-Inv : (l target : ℕ) → Returns (λ r. Inv r.0) (kick l target s)
  unfolding kick
  kick-Inv l target =
      if-cases (Returns (λ (r : Manager × Result × Option ℕ). Inv r.0)) (l == target) (λ _. v)
        λ other.
          elim-cases (Returns (λ (r : Manager × Result × Option ℕ). Inv r.0))
            (find l s.player_parties) (λ _. v)
            λ id home.
              at_home (λ r. Inv r.0) _ l id home
                λ y here.
                  if-cases (λ (r : Manager × Result × Option ℕ). Inv r.0) (not (y.leader == l))
                    (λ _. v)
                    λ led.
                      elim-cases (λ (r : Manager × Result × Option ℕ). Inv r.0)
                        (find target s.player_parties) (λ _. v)
                        λ home' there.
                          if-cases (λ (r : Manager × Result × Option ℕ). Inv r.0)
                            (home' == y.party_id)
                            (λ same.
                              vacate_member-Inv v id y here target
                                (ground (arith, (Formed-here v id y here).keyed)) (ground arith))
                            (λ _. v)

  pub set_settings-Inv :
      (l : ℕ) (title : List ℕ) (open_to_all : Bool)
      → Returns (λ r. Inv r.0) (set_settings l title open_to_all s)
  unfolding set_settings
  set_settings-Inv l title open_to_all =
      elim-cases (Returns (λ (r : Manager × Result). Inv r.0)) (find l s.player_parties) (λ _. v)
        λ id home.
          at_home (λ r. Inv r.0) _ l id home
            λ y here.
              if-cases (λ (r : Manager × Result). Inv r.0) (not (y.leader == l)) (λ _. v)
                λ _.
                  if-cases (λ (r : Manager × Result). Inv r.0) (not (is_valid_party_title title))
                    (λ _. v) (λ _. keep-Inv v id y here _ refl refl refl)

  pub set_leader-Inv : (id p : ℕ) → Inv (set_leader id p s).0
  unfolding set_leader
  set_leader-Inv id p =
      elim-cases (λ (r : Manager × Bool). Inv r.0) (find p s.player_parties) (λ _. v)
        λ home there.
          elim-cases (λ (r : Manager × Bool). Inv r.0) (find id s.parties) (λ _. v)
            λ y here.
              if-cases (λ (r : Manager × Bool). Inv r.0) (not (home == id) || (y.leader == p))
                (λ _. v) λ fit. cede-Inv v id y here p (ground (arith, v.agrees.at p id))

  pub accept_invitation-Inv : (i : Invitation) (target : ℕ) → Inv (accept_invitation i target s).0
  unfolding accept_invitation
  accept_invitation-Inv i target =
      if-cases (λ (r : Manager × Result × Option ℕ). Inv r.0)
        (is_some (find target s.player_parties)) (λ _. v)
        λ free.
          elim-cases (λ (r : Manager × Result × Option ℕ). Inv r.0) (find i.party_id s.parties)
            (λ _. v)
            λ y here.
              if-cases (λ (r : Manager × Result × Option ℕ). Inv r.0) (y.leader == i.inviter)
                (λ _.
                  elim-cases (λ (r : Manager × Result × Option ℕ). Inv r.0)
                    (find_empty_slot y.slots) (λ _. v)
                    λ slot empty. sit_own-Inv v i.party_id y here target slot (ground arith) empty)
                (λ _. v)

  pub join_approved-Inv : (id l p : ℕ) → Inv (join_approved id l p s).0
  unfolding join_approved
  join_approved-Inv id l p =
      if-cases (λ (r : Manager × Result). Inv r.0) (p == 0) (λ _. v)
        λ _.
          elim-cases (λ (r : Manager × Result). Inv r.0) (find id s.parties) (λ _. v)
            λ y here.
              if-cases (λ (r : Manager × Result). Inv r.0) (not y.is_public) (λ _. v)
                λ _.
                  if-cases (λ (r : Manager × Result). Inv r.0) (not (y.leader == l)) (λ _. v)
                    λ _.
                      if-cases (λ (r : Manager × Result). Inv r.0)
                        (is_some (find p s.player_parties)) (λ _. v)
                        λ free.
                          elim-cases (λ (r : Manager × Result). Inv r.0) (find_empty_slot y.slots)
                            (λ _. v)
                            λ slot empty.
                              forget-Inv (sit-Inv v id y here p slot (ground arith) empty) p

pub answer_invitation-Inv :
    {s : Manager}
    → Inv s
    → (target id : ℕ) (accepted : Bool) → Inv (answer_invitation target id accepted s).0
unfolding answer_invitation
answer_invitation-Inv {s} v target id accepted =
    elim-cases (λ (r : Manager × Result × Option ℕ). Inv r.0) (find target s.invitations) (λ _. v)
      λ i pending.
        if-cases (λ (r : Manager × Result × Option ℕ). Inv r.0) (not (i.invitation_id == id))
          (λ _. v)
          λ _.
            if-cases (λ (r : Manager × Result × Option ℕ). Inv r.0) (not accepted)
              (λ _. forget-Inv v target) (λ _. accept_invitation-Inv (forget-Inv v target) i target)
