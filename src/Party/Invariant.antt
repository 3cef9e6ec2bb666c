-- ===== src/Party/Invariant.antt =====
-- The invariant of the party manager, stated key by key of its three maps.
use action_rpgserver.Common.{
  ℕ, ◌<◌, ◌≡◌, Bool, true, false, Option, none, some, arith, ◌==◌, length, set, nat_eq,
}
use action_rpgserver.Common.Map.{Map, IfSome, find, erase, put, emplace, find-put, find-erase}
use action_rpgserver.Party.Seats.{find_empty_slot, reset, has}
use action_rpgserver.Party.Seats.Laws.{Distinct, has-set, has-reset}
use action_rpgserver.Party.State.{Party, Invitation, Manager}

-- The player's entry in `playerParties` names the party `id`.
abbrev pub names : ℕ → Option ℕ → Bool
names id none = false
names id (some home) = home == id

-- The party that stands under a key, if any, has the player in a slot.
abbrev pub seats : ℕ → Option Party → Bool
seats p none = false
seats p (some y) = has p y.slots

-- The leader of the party that stands under a key, if any.
abbrev pub leads : Option Party → Option ℕ
leads none = none
leads (some y) = some y.leader

-- A party is stored under its own id, below the counter; no player has two of its eight slots.
pub record Formed (next id : ℕ) (y : Party) : Type 0 where
  pub keyed : y.party_id ≡ id
  pub below : id < next
  pub distinct : Distinct y.slots
  pub eight : length y.slots ≡ 8

abbrev pub IsLed : Party → Type 0
IsLed y = has y.leader y.slots ≡ true

-- The party of an invitation stands, and the inviter leads it.
abbrev pub Hosts : ℕ → Option Party → Type 0
Hosts inviter none = ⊥
Hosts inviter (some y) = y.leader ≡ inviter

abbrev pub IsOpen : Map ℕ Party → ℕ → Invitation → Type 0
IsOpen parties target i = (i.target ≡ target) × Hosts i.inviter (find i.party_id parties)

-- `playerParties` and the slots of the parties describe one relation.
pub record Agrees (parties : Map ℕ Party) (homes : Map ℕ ℕ) : Type 0 where
  pub at : (p id : ℕ) → names id (find p homes) ≡ seats p (find id parties)

pub record Inv (s : Manager) : Type 0 where
  pub agrees : Agrees s.parties s.player_parties
  pub formed : (id : ℕ) → IfSome (Formed s.next_party_id id) (find id s.parties)
  pub led : (id : ℕ) → IfSome IsLed (find id s.parties)
  pub open_invitations : (t : ℕ) → IfSome (IsOpen s.parties t) (find t s.invitations)

module _ {parties : Map ℕ Party} {homes : Map ℕ ℕ} (a : Agrees parties homes) (id : ℕ) (y : Party)
    (here : find id parties ≡ some y) where
  -- A player without a party takes an empty slot.
  pub Agrees-sit :
      (p slot : ℕ)
      → find p homes ≡ none
      → find_empty_slot y.slots ≡ some slot
      → Agrees
          (put id (record y { slots = set y.slots slot (some p) }) parties)
          (emplace p id homes)
  Agrees-sit p slot free empty = record {
    at = λ q j. rw free (
        rw (find-put p q id homes, find-put id j)
          (ground (arith, a.at q j, a.at q id, has-set y.slots slot p q)));
  }

  pub Agrees-vacate :
      (p : ℕ)
      → find p homes ≡ some id
      → Distinct y.slots
      → Agrees (put id (record y { slots = reset p y.slots }) parties) (erase p homes)
  Agrees-vacate p home d = record {
    at = λ q j.
        rw (find-erase p q homes, find-put id j)
          (ground (arith, a.at q j, a.at q id, has-reset y.slots p q d));
  }

  -- A change of the party that keeps its slots.
  pub Agrees-keep : (z : Party) → z.slots ≡ y.slots → Agrees (put id z parties) homes
  Agrees-keep z e = record { at = λ q j. rw (find-put id j) (ground (arith, a.at q j, a.at q id)) }

-- An empty party is taken out of the map.
pub Agrees-disband :
    {parties : Map ℕ Party} {homes : Map ℕ ℕ}
    → Agrees parties homes
    → (id : ℕ) → ((q : ℕ) → seats q (find id parties) ≡ false)
    → Agrees (erase id parties) homes
Agrees-disband a id empty = record {
  at = λ q j. rw (find-erase id j) (ground (arith, a.at q j, a.at q id, empty q));
}
