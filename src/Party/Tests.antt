-- ===== src/Party/Tests.antt =====
-- The party manager at work on short histories.
use action_rpgserver.Common.{
  ℕ, List, ◌≡◌, true, ◌∷◌, some, [], none, arith, set, nat_eq, false, refl, if◌then◌else◌, Option,
  ◌↔◌, ◌≢◌, length, ◌≤◌, ltb,
}
use action_rpgserver.Party.State.{
  Party, Invitation, Manager, init, succeeded, Result, party_full, PartyView,
}
use action_rpgserver.Party.Calls.{run, step, Call, answers, creates, invites, joins}
use action_rpgserver.Party.Invariant.{Inv}
use action_rpgserver.Common.Outcome.{Returns, Returns-of, returns}
use action_rpgserver.Party.Seats.{reset, first_member, has, find_empty_slot}
use action_rpgserver.Common.Map.{find, put, erase}
use action_rpgserver.Party.{create, answer_invitation, invite, join_approved, leave, kick}
use action_rpgserver.Party.Histories.{step-Inv, run-Inv, run-one_party}
use action_rpgserver.Party.Moves.{Moves, step-Moves}
use action_rpgserver.Party.Answers.{answer-accepted, kick-succeeded, IsSeated, takes_seat}
use action_rpgserver.Party.Departures.{leave_lem, IsLeft}
use action_rpgserver.Party.Seats.Counts.{headcount}
use action_rpgserver.Party.Title.{is_valid_party_title, scan_title, after_sequence}
use action_rpgserver.Party.Title.Utf8.{All, encode_all, shows}
use action_rpgserver.Party.Title.Accepts.{IsShown, is_valid_party_title_iff}
use action_rpgserver.Party.Queries.{is_leader, is_leader_iff}
use action_rpgserver.Party.Listing.{
  IsAscending, get_public_parties, IsListed, IsPublished, get_public_parties_lem,
}

-- "Raid", then a title in Korean.
abbrev raid : List ℕ
raid = 82 ∷ 97 ∷ 105 ∷ 100 ∷ []

abbrev korean : List ℕ
korean = 0xED ∷ 0x8C ∷ 0x8C ∷ 0x20 ∷ []

-- Player 7 founds a party, invites player 8, and lets player 9 in.
abbrev history : List Call
history = creates 7 raid true ∷ invites 7 8 ∷ joins 1 7 9 ∷ []

abbrev party_one : Party
party_one = record {
  party_id = 1;
  leader = 7;
  title = raid;
  is_public = true;
  slots = some 7 ∷ some 9 ∷ none ∷ none ∷ none ∷ none ∷ none ∷ none ∷ [];
}

abbrev waiting : Invitation
waiting = record { invitation_id = 1; party_id = 1; inviter = 7; target = 8 }

abbrev reached : Manager
reached = record {
  parties = (1, party_one) ∷ [];
  player_parties = (7, 1) ∷ (9, 1) ∷ [];
  invitations = (8, waiting) ∷ [];
  next_party_id = 2;
  next_invitation_id = 2;
}

history-run : run history init ≡ returns reached
unfolding run step create invite join_approved find is_valid_party_title scan_title put
    find_empty_slot erase
history-run = refl

reached-Inv : Inv reached
reached-Inv = Returns-of Inv (run history init) reached history-run (run-Inv history (omega arith))

step-Inv_example : Returns Inv (step (answers 8 1 true) reached)
step-Inv_example = step-Inv (answers 8 1 true) reached reached-Inv (omega arith)

run-Inv_example : Returns Inv (run history init)
run-Inv_example = run-Inv history (omega arith)

run-one_party_example : (party_one.party_id ≡ 1) × (find 9 reached.player_parties ≡ some 1)
unfolding find has
run-one_party_example =
    run-one_party history reached 9 1 1 party_one party_one (omega arith) history-run refl refl refl
      refl

-- What is reached when player 8 accepts.
abbrev joined : Manager
joined = record reached {
  parties = (1, record party_one { slots = set party_one.slots 2 (some 8) }) ∷ [];
  player_parties = (7, 1) ∷ (9, 1) ∷ (8, 1) ∷ [];
  invitations = [];
}

step-Moves_example : Moves reached joined
unfolding step answer_invitation find find_empty_slot put erase
step-Moves_example = step-Moves (answers 8 1 true) reached joined refl

-- The leader leaves a party of two.
leave_lem_example : Returns (IsLeft reached 7 1 party_one) (leave 7 reached)
unfolding find
leave_lem_example = leave_lem reached-Inv 7 1 party_one refl refl

leaves :
    Returns
      (λ r.
        find 1 r.0.parties
        ≡ some (record party_one { leader = 9; slots = set party_one.slots 0 none }))
      (leave 7 reached)
unfolding leave reset first_member find put erase
leaves = refl

answer-accepted_example :
    let r = answer_invitation 8 1 true reached in
    (y : Party) × (find 1 reached.parties ≡ some y)
    × (r.1 ≡ (if ltb (headcount y.slots) 8 then succeeded else party_full))
    × (r.2 ≡ some 1)
    × IsSeated reached (takes_seat reached 8 y) 8 1 r.0
unfolding find
answer-accepted_example = answer-accepted reached-Inv 8 waiting refl

abbrev kicked : Manager × Result × Option ℕ
kicked = (
  record reached {
    parties = (1, record party_one { slots = set party_one.slots 1 none }) ∷ [];
    player_parties = (7, 1) ∷ [];
  },
  succeeded,
  some 1,
)

kick-succeeded_example :
    (id : ℕ) × (y : Party) × (find id reached.parties ≡ some y)
    × (y.leader ≡ 7)
    × (party_one.leader ≢ 9)
    × (find 7 reached.player_parties ≡ some id)
    × (find 9 reached.player_parties ≡ some id)
    × (find 9 kicked.0.player_parties ≡ none)
    × (kicked.2 ≡ some id)
unfolding kick find put erase reset
kick-succeeded_example = kick-succeeded reached-Inv 7 9 kicked refl refl

is_valid_party_title_iff_example : (is_valid_party_title korean ≡ true) ↔ (
    (cs : List ℕ) × All IsShown cs
    × (korean ≡ encode_all cs)
    × (shows cs ≡ true)
    × (length korean ≤ 96))
is_valid_party_title_iff_example = is_valid_party_title_iff korean

no_controls : is_valid_party_title (65 ∷ 10 ∷ []) ≡ false
unfolding is_valid_party_title scan_title
no_controls = refl

no_surrogates : is_valid_party_title (0xED ∷ 0xA0 ∷ 0x80 ∷ []) ≡ false
unfolding is_valid_party_title scan_title after_sequence
no_surrogates = refl

is_leader_iff_example :
    (is_leader 7 reached ≡ true)
    ↔ ((id : ℕ) × (y : Party) × (find id reached.parties ≡ some y) × (y.leader ≡ 7))
is_leader_iff_example = is_leader_iff reached-Inv 7

get_public_parties_lem_example :
    IsAscending (get_public_parties reached)
    × ((w : PartyView) → IsListed w (get_public_parties reached) ↔ IsPublished w reached.parties)
get_public_parties_lem_example = get_public_parties_lem reached
