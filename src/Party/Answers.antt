-- ===== src/Party/Answers.antt =====
-- What the party manager answers.
use action_rpgserver.Common.{
  ℕ, ◌≡◌, Option, some, true, Option-cases, if◌then◌else◌, none, ◌≢◌, not, inl, nat_eq, arith, inr,
  ◌&&◌, ◌==◌, Bool, ltb, ◌||◌, set,
}
use action_rpgserver.Party.State.{
  Manager, Invitation, vacate, Result, Party, succeeded, already_in_party, party_full,
}
use action_rpgserver.Party.{kick, answer_invitation, accept_invitation}
use action_rpgserver.Party.Invariant.{Inv, IsOpen, seats, leads}
use action_rpgserver.Common.Map.{find, contains, is_some, find-erase, find-put}
use action_rpgserver.Common.Outcome.{returns}
use action_rpgserver.Party.Seats.{find_empty_slot}
use action_rpgserver.Party.Safety.{home_stands}
use action_rpgserver.Party.Preserves.{Formed-here}
use action_rpgserver.Party.Seats.Counts.{headcount, find_empty_slot-headcount}
use action_rpgserver.Party.Seats.Laws.{has-set}

module _ (s : Manager) where
  -- The player takes a seat: it is in no party, and fewer than eight are in this one.
  abbrev pub takes_seat : ℕ → Party → Bool
  takes_seat t y = not (contains t s.player_parties) && ltb (headcount y.slots) 8

  -- What the maps hold when the player has taken its seat, or has not.
  abbrev pub IsSeated : Bool → ℕ → ℕ → Manager → Type 0
  IsSeated seated t id after =
      ((q j : ℕ)
        → seats q (find j after.parties)
          ≡ (seated && (t == q) && (id == j) || seats q (find j s.parties)))
      × ((q : ℕ)
          → find q after.player_parties
            ≡ (if seated && (t == q) then some id else find q s.player_parties))
      × ((j : ℕ) → leads (find j after.parties) ≡ leads (find j s.parties))
      × ((q : ℕ) → find q after.invitations ≡ (if t == q then none else find q s.invitations))

module _ {s : Manager} (v : Inv s) where
  -- An invitation that waits names a party that stands, and the inviter leads it.
  host_stands :
      (t : ℕ) (i : Invitation)
      → find t s.invitations ≡ some i
      → (y : Party) × (find i.party_id s.parties ≡ some y) × (y.leader ≡ i.inviter)
  host_stands t i pending =
      let o : IsOpen s.parties t i = (let h = v.open_invitations t in rw pending at h) in
      elim (Option-cases (find i.party_id s.parties)) [
        | inl gone ↦ absurd (ground (arith, o.1))
        | inr (y, here) ↦ (y, here, ground (arith, o.1))
      ]

  -- In a state that satisfies the invariant, who accepts its own waiting invitation is told that it
  -- is in a party already, that eight players are in the party, or that it is in; the invitation is
  -- never unknown, and the answer names its party. In the last case the player, and no other, gets
  -- a seat in that party, and in no other, and its entry among the players' parties; in the other
  -- cases the seats and the entries stay. No party changes its leader. The player's invitation is
  -- gone in all three cases, and the invitations of the others stay.
  pub answer-accepted :
      (t : ℕ) (i : Invitation)
      → find t s.invitations ≡ some i
      → let r = answer_invitation t i.invitation_id true s in
        (y : Party) × (find i.party_id s.parties ≡ some y)
        × (r.1 ≡ (
            if contains t s.player_parties
            then already_in_party
            else if ltb (headcount y.slots) 8
            then succeeded
            else party_full))
        × (r.2 ≡ some i.party_id)
        × IsSeated s (takes_seat s t y) t i.party_id r.0
  unfolding answer_invitation accept_invitation
  answer-accepted t i pending =
      let (y, here, led) = host_stands t i pending in
      let f = Formed-here v i.party_id y here in
      let room : is_some (find_empty_slot y.slots) ≡ ltb (headcount y.slots) 8 =
        (let h = find_empty_slot-headcount y.slots in rw f.eight at h) in
      (
        y,
        here,
        ground (arith, room),
        ground arith,
        (
          λ q j. elim (Option-cases (find_empty_slot y.slots)) [
            | inl e ↦ ground (arith, room)
            | inr (slot, e) ↦ ground (
              arith,
              room,
              has-set y.slots slot t q,
              find-put i.party_id j (record y { slots = set y.slots slot (some t) }) s.parties,
            )
          ],
          λ q. ground (arith, room, find-put t q y.party_id s.player_parties, f.keyed),
          λ j. elim (Option-cases (find_empty_slot y.slots)) [
            | inl e ↦ ground (arith, room)
            | inr (slot, e) ↦ ground (
              arith,
              find-put i.party_id j (record y { slots = set y.slots slot (some t) }) s.parties,
            )
          ],
          λ q. ground (arith, find-erase t q s.invitations),
        ),
      )

-- In a state that satisfies the invariant, a kick that succeeds was by the leader of a party, and
-- of another member of the same party, who is in no party then; the answer names the party.
pub kick-succeeded :
    {s : Manager} (v : Inv s) (l t : ℕ) (r : Manager × Result × Option ℕ)
    → kick l t s ≡ returns r
    → r.1 ≡ succeeded
    → (id : ℕ) × (y : Party) × (find id s.parties ≡ some y)
      × (y.leader ≡ l)
      × (l ≢ t)
      × (find l s.player_parties ≡ some id)
      × (find t s.player_parties ≡ some id)
      × (find t r.0.player_parties ≡ none)
      × (r.2 ≡ some id)
unfolding kick vacate
kick-succeeded {s} v l t r e done = elim (Option-cases (find l s.player_parties)) [
  | inl out ↦ absurd (ground arith)
  | inr (id, home) ↦
      let (y, here, _) = home_stands v l id home in
      let k = (Formed-here v id y here).keyed in
      (
        id,
        y,
        here,
        ground arith,
        ground arith,
        home,
        ground (arith, k),
        ground (arith, find-erase t t s.player_parties),
        ground (arith, k),
      )
]
