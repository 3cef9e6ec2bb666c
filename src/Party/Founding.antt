-- ===== src/Party/Founding.antt =====
-- `Create` and `Invite` of TownServer/PartyManager.cpp found a party while ids are left, and keep
-- the invariant.
use action_rpgserver.Common.Map.{find-put, IfSome-map, find, put, all-put, is_some, all-emplace}
use action_rpgserver.Common.{
  ◌==◌, ◌||◌, if-cases, not, Option-cases, inl, inr, ℕ, ◌+◌, ◌<◌, ◌%◌, ◌^◌, ◌≡◌, refl, none, some,
  arith, nat_eq, Option-cases, List, Bool, if-cases, Option,
}
use action_rpgserver.Party.State.{Party, Manager, new_party, create_party}
use action_rpgserver.Party.Seats.{has, find_empty_slot}
use action_rpgserver.Party.Invariant.{Formed, IsLed, IsOpen, Agrees, Inv}
use action_rpgserver.Party.Safety.{at_home}
use action_rpgserver.Party.{
  create, invite, invite_to, invite_from, Result, Invitation, invite_led, is_valid_party_title,
}
use action_rpgserver.Party.Preserves.{keep-Inv, Formed-here}
use action_rpgserver.Common.Outcome.{Returns}

-- The counter has not used up the ids.
abbrev pub HasIds : Manager → Type 0
HasIds s = s.next_party_id + 1 < 2 ^ 64

module _ {s : Manager} (v : Inv s) where
  -- The next id is not in use.
  pub next_free : find s.next_party_id s.parties ≡ none
  next_free = elim (Option-cases (find s.next_party_id s.parties)) [
    | inl free ↦ free
    | inr (y, here) ↦ absurd (
        let f : Formed s.next_party_id s.next_party_id y =
          (let h = v.formed s.next_party_id in rw here at h) in
        omega (arith, f.below))
  ]

  abbrev founded : ℕ → Party
  founded p = new_party s.next_party_id p

  Agrees-found :
      (p : ℕ)
      → find p s.player_parties ≡ none
      → Agrees (put s.next_party_id (founded p) s.parties) (put p s.next_party_id s.player_parties)
  unfolding has
  Agrees-found p free = record {
    at = λ q j.
        rw
          (
            find-put p q s.next_party_id s.player_parties,
            find-put s.next_party_id j (founded p) s.parties,
          )
          (ground (arith, v.agrees.at q j, v.agrees.at q s.next_party_id, next_free));
  }

  pub create_party-Inv :
      (p : ℕ) → HasIds s → find p s.player_parties ≡ none → Inv (create_party p s).1
  unfolding create_party has
  create_party-Inv p ids free =
      rw (next_free, free)
        (record {
          agrees = Agrees-found p free;
          formed =
              all-put (Formed ((s.next_party_id + 1) % 2 ^ 64)) s.parties
                (λ j.
                  IfSome-map (Formed s.next_party_id j) _ (find j s.parties)
                    (λ y f. record {
                      keyed = f.keyed;
                      below = omega (arith, f.below);
                      distinct = f.distinct;
                      eight = f.eight;
                    })
                    (v.formed j))
                s.next_party_id (founded p)
                (record { keyed = refl; below = omega arith; distinct = (refl, tt); eight = refl });
          led = all-put (λ _ w. IsLed w) s.parties v.led s.next_party_id (founded p) (ground arith);
          open_invitations = λ t.
              IfSome-map (IsOpen s.parties t) _ (find t s.invitations)
                (λ i h. (
                  h.0,
                  rw (find-put s.next_party_id i.party_id (founded p) s.parties)
                      (ground (arith, h.1, next_free)),
                ))
                (v.open_invitations t);
        })

  -- What stands under the next id after a founding.
  pub founded_stands :
      (p : ℕ) → find s.next_party_id (create_party p s).1.parties ≡ some (founded p)
  unfolding create_party
  founded_stands p =
      rw (next_free, create_party) (rw (find-put s.next_party_id s.next_party_id) (ground arith))

  pub create_party-founded : (p : ℕ) → (create_party p s).0 ≡ founded p
  unfolding create_party
  create_party-founded p = rw (next_free, create_party)

  pub create-Inv :
      (p : ℕ) (title : List ℕ) (open_to_all : Bool)
      → HasIds s
      → Inv (create p title open_to_all s).0
  unfolding create
  create-Inv p title open_to_all ids =
      if-cases (λ (r : Manager × Result × Option ℕ). Inv r.0) (p == 0) (λ _. v)
        λ _.
          if-cases (λ (r : Manager × Result × Option ℕ). Inv r.0)
            (is_some (find p s.player_parties)) (λ _. v)
            λ free.
              if-cases (λ (r : Manager × Result × Option ℕ). Inv r.0)
                (not (is_valid_party_title title)) (λ _. v)
                λ _. rw create_party-founded (
                  keep-Inv (create_party-Inv p ids (ground arith)) s.next_party_id (founded p)
                    (founded_stands p) _ refl refl refl)

-- An invitation in the name of a party's leader is open.
pub invite_to-Inv :
    {s : Manager} (v : Inv s) (id : ℕ) (y : Party) (p target : ℕ)
    → find id s.parties ≡ some y
    → y.leader ≡ p
    → Inv (invite_to y p target s).0
unfolding invite_to
invite_to-Inv {s} v id y p target here led =
    if-cases (λ (r : Manager × Result × Option Invitation). Inv r.0)
      (is_some (find_empty_slot y.slots))
      (λ _. record {
        agrees = v.agrees;
        formed = v.formed;
        led = v.led;
        open_invitations =
            all-emplace (λ j i. IsOpen s.parties j i) s.invitations v.open_invitations target _
              (refl, rw ((Formed-here v id y here).keyed, here) led);
      })
      (λ _. v)

pub invite-Inv :
    {s : Manager} (v : Inv s) (p target : ℕ) → HasIds s → Returns (λ r. Inv r.0) (invite p target s)
unfolding invite invite_from invite_led
invite-Inv {s} v p target ids =
    if-cases (Returns (λ (r : Manager × Result × Option Invitation). Inv r.0))
      (p == 0 || (target == 0) || (p == target)) (λ _. v)
      λ _.
        if-cases (Returns (λ (r : Manager × Result × Option Invitation). Inv r.0))
          (is_some (find target s.player_parties)) (λ _. v)
          λ _.
            if-cases (Returns (λ (r : Manager × Result × Option Invitation). Inv r.0))
              (is_some (find target s.invitations)) (λ _. v)
              λ _. elim (Option-cases (find p s.player_parties)) [
                | inl free ↦ rw free (
                    rw (create_party-founded v p) (
                      invite_to-Inv (create_party-Inv v p ids free) s.next_party_id _ p target
                        (founded_stands v p) refl))
                | inr (id, home) ↦ rw home (
                    at_home v (λ (r : Manager × Result × Option Invitation). Inv r.0) _ p id home
                      λ y here.
                        if-cases (λ (r : Manager × Result × Option Invitation). Inv r.0)
                          (y.leader == p) (λ led. invite_to-Inv v id y p target here (ground arith))
                          (λ _. v))
              ]
