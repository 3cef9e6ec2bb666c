-- ===== src/Party/Leaving.antt =====
-- `Leave` of TownServer/PartyManager.cpp keeps the invariant on its three ways: the last member
-- leaves, the leader leaves to a successor, or another member leaves.
use action_rpgserver.Common.{ℕ, ◌≡◌, refl, false, none, some, arith, ◌==◌, nat_eq}
use action_rpgserver.Common.Map.{
  IfSome-map, find, erase, put, erase_if, find-put, find-put-put, find-erase-put, all-put,
  all-erase, all-erase_if,
}
use action_rpgserver.Party.Seats.{first_member, reset}
use action_rpgserver.Party.Seats.Laws.{has-first_none, has-first_some}
use action_rpgserver.Party.State.{Party, Manager, cancel_invitations, vacate}
use action_rpgserver.Party.Invariant.{
  Formed, IsLed, IsOpen, Agrees, Inv, Agrees-vacate, Agrees-keep, Agrees-disband,
}
use action_rpgserver.Party.Preserves.{IsOpen-put_ne, IsOpen-erase_ne, Formed-here, Formed-reset}

module _ {s : Manager} (v : Inv s) (id : ℕ) (y : Party) (here : find id s.parties ≡ some y) (p : ℕ)
    (home : find p s.player_parties ≡ some id) where
  -- The party behind the player's back.
  abbrev left : Party
  left = record y { slots = reset p y.slots }

  left-Agrees : Agrees (put id left s.parties) (erase p s.player_parties)
  left-Agrees = Agrees-vacate v.agrees id y here p home (Formed-here v id y here).distinct

  left_stands : find id (put id left s.parties) ≡ some left
  left_stands = rw (find-put id id left s.parties) (ground arith)

  pub disband-Inv :
      first_member (reset p y.slots) ≡ none
      → let s' = cancel_invitations id (vacate p id y s) in
        Inv (record s' { parties = erase id s'.parties })
  unfolding cancel_invitations vacate
  disband-Inv last = record {
    agrees =
        Agrees-disband left-Agrees id λ q. rw left_stands (has-first_none (reset p y.slots) q last);
    formed = λ j.
        rw (find-erase-put s.parties id j left)
          (all-erase (Formed s.next_party_id) s.parties v.formed id j);
    led = λ j.
        rw (find-erase-put s.parties id j left) (all-erase (λ _ w. IsLed w) s.parties v.led id j);
    open_invitations = λ t.
        IfSome-map (λ i. IsOpen s.parties t i × ((i.party_id == id) ≡ false)) _
          (find t (erase_if (λ i. i.party_id == id) s.invitations))
          (λ i h.
            let g = IsOpen-erase_ne s.parties id t i h.1 h.0 in
            (g.0, rw (find-erase-put s.parties id i.party_id left) g.1))
          (all-erase_if (λ j i. IsOpen s.parties j i) s.invitations v.open_invitations
            (λ i. i.party_id == id) t);
  }

  pub succeed-Inv :
      (next : ℕ)
      → first_member (reset p y.slots) ≡ some next
      → let s' = vacate p id y s in
        Inv (
          cancel_invitations id
            (record s' { parties = put id (record left { leader = next }) s'.parties }))
  unfolding cancel_invitations vacate
  succeed-Inv next first = record {
    agrees = Agrees-keep left-Agrees id left left_stands _ refl;
    formed = λ j. rw (find-put-put s.parties id j left (record left { leader = next })) (
        all-put (Formed s.next_party_id) s.parties v.formed id _
          (ground (arith, Formed-reset v id y here p)) j);
    led = λ j. rw (find-put-put s.parties id j left (record left { leader = next })) (
        all-put (λ _ w. IsLed w) s.parties v.led id _ (has-first_some (reset p y.slots) next first)
          j);
    open_invitations = λ t.
        IfSome-map (λ i. IsOpen s.parties t i × ((i.party_id == id) ≡ false)) _
          (find t (erase_if (λ i. i.party_id == id) s.invitations))
          (λ i h.
            let g = IsOpen-put_ne s.parties id (record left { leader = next }) t i h.1 h.0 in
            (
              g.0,
              rw (find-put-put s.parties id i.party_id left (record left { leader = next })) g.1,
            ))
          (all-erase_if (λ j i. IsOpen s.parties j i) s.invitations v.open_invitations
            (λ i. i.party_id == id) t);
  }
