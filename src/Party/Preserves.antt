-- ===== src/Party/Preserves.antt =====
-- The writes that the operations of the party manager are made of keep its invariant.
use action_rpgserver.Common.{
  ℕ, ◌≡◌, refl, subst, true, false, none, some, arith, ◌==◌, length-set, set, nat_eq, sym,
}
use action_rpgserver.Common.Map.{
  Map, IfSome-map, find, erase, put, emplace, erase_if, find-put, find-erase, all-put, all-erase,
  all-erase_if,
}
use action_rpgserver.Party.Seats.{find_empty_slot, reset, has}
use action_rpgserver.Party.Seats.Laws.{
  has-set, set-Distinct, has-reset, reset-Distinct, length-reset,
}
use action_rpgserver.Party.State.{Party, Invitation, Manager, cancel_invitations, vacate}
use action_rpgserver.Party.Invariant.{
  Formed, IsLed, IsOpen, Inv, Agrees-sit, Agrees-vacate, Agrees-keep,
}

-- An invitation to another party, or under the same leader, stays open when a party is written.
pub IsOpen-put :
    (parties : Map ℕ Party) (id : ℕ) (y z : Party) (t : ℕ) (i : Invitation)
    → find id parties ≡ some y
    → z.leader ≡ y.leader
    → IsOpen parties t i
    → IsOpen (put id z parties) t i
IsOpen-put parties id y z t i here same h =
    (h.0, rw (find-put id i.party_id z parties) (ground (arith, h.1)))

pub IsOpen-put_ne :
    (parties : Map ℕ Party) (id : ℕ) (z : Party) (t : ℕ) (i : Invitation)
    → (i.party_id == id) ≡ false
    → IsOpen parties t i
    → IsOpen (put id z parties) t i
IsOpen-put_ne parties id z t i other h =
    (h.0, rw (find-put id i.party_id z parties) (ground (arith, h.1)))

pub IsOpen-erase_ne :
    (parties : Map ℕ Party) (id t : ℕ) (i : Invitation)
    → (i.party_id == id) ≡ false
    → IsOpen parties t i
    → IsOpen (erase id parties) t i
IsOpen-erase_ne parties id t i other h =
    (h.0, rw (find-erase id i.party_id parties) (ground (arith, h.1)))

module _ {s : Manager} (v : Inv s) where
  pub forget-Inv : (t : ℕ) → Inv (record s { invitations = erase t s.invitations })
  forget-Inv t = record {
    agrees = v.agrees;
    formed = v.formed;
    led = v.led;
    open_invitations = all-erase (λ j i. IsOpen s.parties j i) s.invitations v.open_invitations t;
  }

module _ {s : Manager} (v : Inv s) (id : ℕ) (y : Party) (here : find id s.parties ≡ some y) where
  pub Formed-here : Formed s.next_party_id id y
  Formed-here = let h = v.formed id in rw here at h

  pub IsLed-here : IsLed y
  IsLed-here = let h = v.led id in rw here at h

  absent : (p : ℕ) → find p s.player_parties ≡ none → has p y.slots ≡ false
  absent p free = ground (arith, v.agrees.at p id)

  pub Formed-reset : (p : ℕ) → Formed s.next_party_id id (record y { slots = reset p y.slots })
  Formed-reset p = record {
    keyed = Formed-here.keyed;
    below = Formed-here.below;
    distinct = reset-Distinct y.slots p Formed-here.distinct;
    eight = rw (length-reset y.slots p) Formed-here.eight;
  }

  -- The title, the visibility, or nothing at all.
  pub keep-Inv :
      (z : Party)
      → z.party_id ≡ y.party_id
      → z.leader ≡ y.leader
      → z.slots ≡ y.slots
      → Inv (record s { parties = put id z s.parties })
  keep-Inv z same_id same_leader same_slots = record {
    agrees = Agrees-keep v.agrees id y here z same_slots;
    formed = all-put (Formed s.next_party_id) s.parties v.formed id z (ground (arith, Formed-here));
    led = all-put (λ _ w. IsLed w) s.parties v.led id z (ground (arith, IsLed-here));
    open_invitations = λ t.
        IfSome-map (IsOpen s.parties t) _ (find t s.invitations)
          (λ i. IsOpen-put s.parties id y z t i here same_leader) (v.open_invitations t);
  }

  pub sit-Inv :
      (p slot : ℕ)
      → find p s.player_parties ≡ none
      → find_empty_slot y.slots ≡ some slot
      → Inv (record s {
        parties = put id (record y { slots = set y.slots slot (some p) }) s.parties;
        player_parties = emplace p id s.player_parties;
      })
  sit-Inv p slot free empty = record {
    agrees = Agrees-sit v.agrees id y here p slot free empty;
    formed = all-put (Formed s.next_party_id) s.parties v.formed id _ (record {
      keyed = Formed-here.keyed;
      below = Formed-here.below;
      distinct = set-Distinct y.slots slot p empty (absent p free) Formed-here.distinct;
      eight = rw (length-set y.slots slot (some p)) Formed-here.eight;
    });
    led =
        all-put (λ _ w. IsLed w) s.parties v.led id _
          (ground (arith, IsLed-here, has-set y.slots slot p y.leader));
    open_invitations = λ t.
        IfSome-map (IsOpen s.parties t) _ (find t s.invitations)
          (λ i. IsOpen-put s.parties id y _ t i here refl) (v.open_invitations t);
  }

  -- The same where the membership is written from the party's own id.
  pub sit_own-Inv :
      (p slot : ℕ)
      → find p s.player_parties ≡ none
      → find_empty_slot y.slots ≡ some slot
      → Inv (record s {
        parties = put id (record y { slots = set y.slots slot (some p) }) s.parties;
        player_parties = emplace p y.party_id s.player_parties;
      })
  sit_own-Inv p slot free empty =
      subst
        (λ k. Inv (record s {
          parties = put id (record y { slots = set y.slots slot (some p) }) s.parties;
          player_parties = emplace p k s.player_parties;
        }))
        (sym Formed-here.keyed) (sit-Inv p slot free empty)

  pub vacate_member-Inv :
      (p : ℕ) → find p s.player_parties ≡ some id → (y.leader == p) ≡ false → Inv (vacate p id y s)
  unfolding vacate
  vacate_member-Inv p home other = record {
    agrees = Agrees-vacate v.agrees id y here p home Formed-here.distinct;
    formed = all-put (Formed s.next_party_id) s.parties v.formed id _ (Formed-reset p);
    led =
        all-put (λ _ w. IsLed w) s.parties v.led id _
          (ground (arith, IsLed-here, has-reset y.slots p y.leader Formed-here.distinct));
    open_invitations = λ t.
        IfSome-map (IsOpen s.parties t) _ (find t s.invitations)
          (λ i. IsOpen-put s.parties id y _ t i here refl) (v.open_invitations t);
  }

  -- A new leader, and no invitation of the old one.
  pub cede-Inv :
      (l : ℕ)
      → has l y.slots ≡ true
      → Inv (
          cancel_invitations id (record s { parties = put id (record y { leader = l }) s.parties }))
  unfolding cancel_invitations
  cede-Inv l member = record {
    agrees = Agrees-keep v.agrees id y here _ refl;
    formed = all-put (Formed s.next_party_id) s.parties v.formed id _ (ground (arith, Formed-here));
    led = all-put (λ _ w. IsLed w) s.parties v.led id _ member;
    open_invitations = λ t.
        IfSome-map (λ i. IsOpen s.parties t i × ((i.party_id == id) ≡ false)) _
          (find t (erase_if (λ i. i.party_id == id) s.invitations))
          (λ i h. IsOpen-put_ne s.parties id _ t i h.1 h.0)
          (all-erase_if (λ j i. IsOpen s.parties j i) s.invitations v.open_invitations
            (λ i. i.party_id == id) t);
  }
