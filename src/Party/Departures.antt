-- ===== src/Party/Departures.antt =====
-- `Leave` of TownServer/PartyManager.cpp, described slot by slot.
use action_rpgserver.Common.{
  ℕ, ◌≡◌, Option, some, true, Option-cases, if◌then◌else◌, none, ◌≢◌, inl, nat_eq, arith, inr, ◌==◌,
  false, ◌⊎◌, sym, refl, Bool-cases,
}
use action_rpgserver.Party.State.{
  Manager, vacate, cancel_invitations, Party, succeeded, party_at, LeaveResult,
}
use action_rpgserver.Party.{leave, settle}
use action_rpgserver.Party.Invariant.{Inv, IsLed}
use action_rpgserver.Common.Map.{find, find-erase, find-put, find-erase_if, put, erase, unless, Map}
use action_rpgserver.Common.Outcome.{Returns, ◌>>=◌}
use action_rpgserver.Party.Seats.{first_member, reset, has}
use action_rpgserver.Party.Seats.Laws.{has-reset, has-first_none}
use action_rpgserver.Party.Seats.Counts.{
  headcount, occupant, IsFirst, first_member-headcount, headcount-reset, unless-occupant,
  occupant-reset, occupant-first_none, first_member-IsFirst,
}
use action_rpgserver.Party.Preserves.{Formed-here}

-- Who has the slot of an index in the party that stands under a key, if any.
abbrev pub slot_at : ℕ → Option Party → Option ℕ
slot_at k none = none
slot_at k (some y) = occupant k y.slots

-- The party is kept but for its slots and its leader, who leads on unless it is the one who left;
-- then the player in the first slot that is taken leads.
abbrev pub IsHandedOn : ℕ → Party → Option Party → Type 0
IsHandedOn p y none = ⊥
IsHandedOn p y (some z) =
    (z ≡ record y { leader = z.leader; slots = z.slots })
    × (((y.leader ≢ p) × (z.leader ≡ y.leader)) ⊎ ((y.leader ≡ p) × IsFirst z.leader z.slots))

-- What `p` leaves behind in its party `y`, which stood under `id`.
abbrev pub IsLeft : Manager → ℕ → ℕ → Party → Manager × LeaveResult → Type 0
IsLeft s p id y (after, answer) =
    (answer ≡ record { result = succeeded; party_id = id; disbanded = headcount y.slots == 1 })
    × ((q : ℕ) → find q after.player_parties ≡ (if p == q then none else find q s.player_parties))
    × ((j k : ℕ)
        → slot_at k (find j after.parties) ≡ unless (λ q. q == p) (slot_at k (find j s.parties)))
    × (((headcount y.slots ≡ 1) × (find id after.parties ≡ none))
        ⊎ ((headcount y.slots ≢ 1) × IsHandedOn p y (find id after.parties)))
    × ((j : ℕ) → (id == j) ≡ false → find j after.parties ≡ find j s.parties)
    × ((t : ℕ)
        → find t after.invitations ≡ (
            if y.leader == p
            then unless (λ i. i.party_id == id) (find t s.invitations)
            else find t s.invitations))

module _ {s : Manager} (v : Inv s) (p id : ℕ) (y : Party) (here : find id s.parties ≡ some y)
    (home : find p s.player_parties ≡ some id) where
  abbrev rest : Party
  rest = record y { slots = reset p y.slots }

  seated : has p y.slots ≡ true
  seated = ground (arith, v.agrees.at p id)

  -- In every other party the player has no slot.
  elsewhere :
      (j k : ℕ) (z : Party)
      → find j s.parties ≡ some z
      → (id == j) ≡ false
      → unless (λ q. q == p) (occupant k z.slots) ≡ occupant k z.slots
  elsewhere j k z there other = unless-occupant k p z.slots (ground (arith, v.agrees.at p j))

  own : (k : ℕ) → occupant k (reset p y.slots) ≡ unless (λ q. q == p) (occupant k y.slots)
  own k = occupant-reset k p y.slots (Formed-here v id y here).distinct

  -- The last member leads.
  last_leads : first_member (reset p y.slots) ≡ none → (y.leader == p) ≡ true
  last_leads last =
      let led : IsLed y = (let h = v.led id in rw here at h) in
      ground (
        arith,
        has-reset y.slots p y.leader (Formed-here v id y here).distinct,
        has-first_none (reset p y.slots) y.leader last,
      )

  -- The slots of all parties, from those of the party and those of the others.
  all_slots :
      (parties : Map ℕ Party)
      → ((k : ℕ) → slot_at k (find id parties) ≡ unless (λ q. q == p) (occupant k y.slots))
      → ((j : ℕ) → (id == j) ≡ false → find j parties ≡ find j s.parties)
      → (j k : ℕ) → slot_at k (find j parties) ≡ unless (λ q. q == p) (slot_at k (find j s.parties))
  all_slots parties mine others j k = elim (Bool-cases (id == j)) [
    | inl same ↦ let e : id ≡ j = ground arith in rw (sym e) (rw here (mine k))
    | inr other ↦ rw (others j other) (elim (Option-cases (find j s.parties)) [
      | inl gone ↦ rw gone refl
      | inr (z, there) ↦ rw there (sym (elsewhere j k z there other))
    ])
  ]

  disbanding :
      first_member (reset p y.slots) ≡ none → IsLeft s p id y (settle p id rest (vacate p id y s))
  unfolding settle vacate cancel_invitations
  disbanding last =
      let alone : headcount y.slots ≡ 1 =
        ground
          (arith, headcount-reset y.slots p seated, first_member-headcount (reset p y.slots)) in
      let parties = erase id (put id rest s.parties) in
      let gone : find id parties ≡ none =
        ground (arith, find-erase id id (put id rest s.parties)) in
      let others : (j : ℕ) → (id == j) ≡ false → find j parties ≡ find j s.parties = λ j other.
        ground (arith, find-erase id j (put id rest s.parties), find-put id j rest s.parties) in
      rw (last, settle)
        (
          ground (arith, alone),
          λ q. find-erase p q s.player_parties,
          all_slots parties
              (λ k. rw gone (sym (ground (arith, own k, occupant-first_none k (reset p y.slots)))))
              others,
          inl (alone, gone),
          others,
          λ t.
              ground
                (arith, last_leads last, find-erase_if (λ i. i.party_id == id) t s.invitations),
        )

  succeeding :
      (next : ℕ)
      → first_member (reset p y.slots) ≡ some next
      → IsLeft s p id y (settle p id rest (vacate p id y s))
  unfolding settle vacate cancel_invitations
  succeeding next first =
      let more : headcount y.slots ≢ 1 =
        ground
          (arith, headcount-reset y.slots p seated, first_member-headcount (reset p y.slots)) in
      elim (Bool-cases (y.leader == p)) [
        | inl leads ↦
            let parties = put id (record rest { leader = next }) (put id rest s.parties) in
            let led : find id parties ≡ some (record rest { leader = next }) =
              ground
                (arith, find-put id id (record rest { leader = next }) (put id rest s.parties)) in
            let others : (j : ℕ) → (id == j) ≡ false → find j parties ≡ find j s.parties =
              λ j other. ground (
                arith,
                find-put id j (record rest { leader = next }) (put id rest s.parties),
                find-put id j rest s.parties,
              ) in
            rw (first, leads, settle)
              (
                ground (arith, more),
                λ q. find-erase p q s.player_parties,
                all_slots parties (λ k. rw led (own k)) others,
                inr (
                  more,
                  rw led
                      (refl, inr (ground arith, first_member-IsFirst (reset p y.slots) next first)),
                ),
                others,
                λ t. find-erase_if (λ i. i.party_id == id) t s.invitations,
              )
        | inr follows ↦
            let parties = put id rest s.parties in
            let kept : find id parties ≡ some rest =
              ground (arith, find-put id id rest s.parties) in
            let others : (j : ℕ) → (id == j) ≡ false → find j parties ≡ find j s.parties =
              λ j other. ground (arith, find-put id j rest s.parties) in
            rw (first, follows, settle)
              (
                ground (arith, more),
                λ q. find-erase p q s.player_parties,
                all_slots parties (λ k. rw kept (own k)) others,
                inr (more, rw kept (refl, inl (ground arith, refl))),
                others,
                λ t. refl,
              )
      ]

-- In a state that satisfies the invariant, `Leave` returns for a player who has a party and succeeds,
-- and the player is in no party then; every other player stays in its party. Every slot that the
-- player had, in any party, is empty, and every other slot keeps its occupant. The party is gone, and
-- disbanded by the answer, exactly when the player was alone in it. Else it is kept, with its leader,
-- or led by the player in the first slot that is taken when it was the leader who left. No other
-- party changes. The invitations of the party are withdrawn when the leader left; the invitations of
-- other parties stay, and so do all when another member left.
pub leave_lem :
    {s : Manager} (v : Inv s) (p id : ℕ) (y : Party)
    → find p s.player_parties ≡ some id
    → find id s.parties ≡ some y
    → Returns (IsLeft s p id y) (leave p s)
unfolding leave
leave_lem {s} v p id y there here =
    rw (there, leave)
      (rw (here, party_at, ◌>>=◌, Returns)
        (elim (Option-cases (first_member (reset p y.slots))) [
          | inl last ↦ disbanding v p id y here there last
          | inr (next, first) ↦ succeeding v p id y here there next first
        ]))
