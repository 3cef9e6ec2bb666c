-- ===== src/Party/Queries.antt =====
-- The queries of TownServer/PartyManager.cpp about one party or one player.
use action_rpgserver.Common.{
  none, some, Option, Option-cases, inl, inr, ℕ, nat_eq, ◌==◌, Option, Bool, ◌≡◌, some, true, ◌↔◌,
  Option-cases, arith, inl, inr, if◌then◌else◌, false,
}
use action_rpgserver.Party.State.{Party, Manager, PartyView, Invitation}
use action_rpgserver.Party.Invariant.{Inv, IsLed}
use action_rpgserver.Party.Seats.{member_slots, has}
use action_rpgserver.Common.Map.{find}

pub make_view : Party → PartyView
make_view y = record {
  party_id = y.party_id;
  leader = y.leader;
  title = y.title;
  is_public = y.is_public;
  members = member_slots 0 y.slots;
}

pub get_party : ℕ → Manager → Option PartyView
get_party id s = elim (find id s.parties) [ none ↦ none | some y ↦ some (make_view y) ]

pub get_party_for_player : ℕ → Manager → Option PartyView
get_party_for_player p s = elim (find p s.player_parties) [ none ↦ none | some id ↦ get_party id s ]

pub get_invitation : ℕ → ℕ → Manager → Option Invitation
get_invitation target id s = elim (find target s.invitations) [
  | none ↦ none
  | some i ↦ if i.invitation_id == id then some i else none
]

pub is_leader : ℕ → Manager → Bool
is_leader p s = elim (get_party_for_player p s) [ none ↦ false | some view ↦ view.leader == p ]

module _ {s : Manager} (v : Inv s) (p : ℕ) where
  led_at_home :
      (id : ℕ) (y : Party)
      → find id s.parties ≡ some y
      → y.leader ≡ p
      → find p s.player_parties ≡ some id
  led_at_home id y here led =
      let l : IsLed y = (let h = v.led id in rw here at h) in
      let inside : has p y.slots ≡ true = ground (arith, l) in ground (arith, v.agrees.at p id)

  -- In a state that satisfies the invariant, the manager calls a player a leader exactly when some
  -- party has that player as its leader.
  pub is_leader_iff :
      (is_leader p s ≡ true)
      ↔ ((id : ℕ) × (y : Party) × (find id s.parties ≡ some y) × (y.leader ≡ p))
  unfolding is_leader get_party_for_player get_party make_view
  is_leader_iff = (
    λ h. elim (Option-cases (find p s.player_parties)) [
      | inl out ↦ absurd (ground arith)
      | inr (id, there) ↦ elim (Option-cases (find id s.parties)) [
        | inl gone ↦ absurd (ground arith)
        | inr (y, here) ↦ (id, y, here, ground arith)
      ]
    ],
    λ (id, y, here, led). ground (arith, led_at_home id y here led),
  )
