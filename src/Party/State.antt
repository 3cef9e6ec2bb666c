-- ===== src/Party/State.antt =====
-- The state of TownServer/PartyManager.h, and the helpers that its operations share. Player, party
-- and invitation ids are 64-bit numbers, and the two counters wrap; a title is the list of its bytes.
use action_rpgserver.Common.{
  ℕ, ◌+◌, ◌%◌, ◌^◌, Bool, false, none, some, List, [], ◌∷◌, ◌++◌, ◌==◌, set, nat_eq,
}
use action_rpgserver.Common.Map.{Map, find, erase, put, emplace, erase_if}
use action_rpgserver.Common.Outcome.{Outcome, returns, throws}
use action_rpgserver.Common.Decimal.{to_string}
use action_rpgserver.Party.Seats.{Slots, empty_slots, reset}

pub data Result : Type 0 where
  succeeded already_in_party not_in_party not_leader party_full already_invited : Result
  invitation_not_found invalid_target invalid_title : Result

pub record Party : Type 0 where
  pub party_id : ℕ
  pub leader : ℕ
  pub title : List ℕ
  pub is_public : Bool
  pub slots : Slots

pub record Invitation : Type 0 where
  pub invitation_id : ℕ
  pub party_id : ℕ
  pub inviter : ℕ
  pub target : ℕ

pub record PartyView : Type 0 where
  pub party_id : ℕ
  pub leader : ℕ
  pub title : List ℕ
  pub is_public : Bool
  pub members : List (ℕ × ℕ)

pub record LeaveResult : Type 0 where
  pub result : Result
  pub party_id : ℕ
  pub disbanded : Bool

pub record Manager : Type 0 where
  pub parties : Map ℕ Party
  pub player_parties : Map ℕ ℕ
  pub invitations : Map ℕ Invitation
  pub next_party_id : ℕ
  pub next_invitation_id : ℕ

abbrev pub init : Manager
init = record {
  parties = [];
  player_parties = [];
  invitations = [];
  next_party_id = 1;
  next_invitation_id = 1;
}

-- "Party #"
abbrev default_prefix : List ℕ
default_prefix = 80 ∷ 97 ∷ 114 ∷ 116 ∷ 121 ∷ 32 ∷ 35 ∷ []

-- The title that a new party has until it is given one.
unfoldable pub default_title : ℕ → List ℕ
default_title id = default_prefix ++ to_string id

unfoldable pub cancel_invitations : ℕ → Manager → Manager
cancel_invitations id s = record s { invitations = erase_if (λ i. i.party_id == id) s.invitations }

abbrev pub new_party : ℕ → ℕ → Party
new_party id player = record {
  party_id = id;
  leader = player;
  title = default_title id;
  is_public = false;
  slots = set empty_slots 0 (some player);
}

-- `emplace` returns the party that stands under the id, which is the new one unless the id is taken.
unfoldable pub create_party : ℕ → Manager → Party × Manager
unfolding default_title
create_party player s = (
  elim (find id s.parties) [ none ↦ new_party id player | some y ↦ y ],
  record s {
    parties = emplace id (new_party id player) s.parties;
    player_parties = emplace player id s.player_parties;
    next_party_id = (id + 1) % 2 ^ 64;
  },
)
  where
    id : ℕ
    id = s.next_party_id

-- parties.at(id)
unfoldable pub party_at : ℕ → Manager → Outcome Party
party_at id s = elim (find id s.parties) [ none ↦ throws | some y ↦ returns y ]

-- The player stands up: its slot is emptied and its membership erased.
unfoldable pub vacate : ℕ → ℕ → Party → Manager → Manager
vacate player id y s = record s {
  parties = put id (record y { slots = reset player y.slots }) s.parties;
  player_parties = erase player s.player_parties;
}
