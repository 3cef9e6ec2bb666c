-- ===== src/Party/Histories.antt =====
-- Every history of calls of the party manager.
use action_rpgserver.Common.{
  ℕ, List, length, ◌+◌, ◌<◌, ◌^◌, ◌∷◌, arith, ◌≡◌, refl, some, [], true, nat_eq,
}
use action_rpgserver.Common.Map.{find}
use action_rpgserver.Party.Calls.{
  step, run, Call, creates, answers, joins, leader, invites, leaves, kicks, removes, settings,
}
use action_rpgserver.Party.Invariant.{Inv}
use action_rpgserver.Party.{remove_player, invite, leave, kick, set_settings}
use action_rpgserver.Party.State.{init, Manager, Party}
use action_rpgserver.Party.Founding.{HasIds, create-Inv, invite-Inv}
use action_rpgserver.Common.Outcome.{Returns, Returns-bind, returns, Returns-of}
use action_rpgserver.Party.Safety.{
  answer_invitation-Inv, join_approved-Inv, set_leader-Inv, leave-Inv, kick-Inv, set_settings-Inv,
}
use action_rpgserver.Party.Counter.{step-Spends}
use action_rpgserver.Party.Seats.{has}
use action_rpgserver.Party.Preserves.{forget-Inv}

init-Inv : Inv init
unfolding find
init-Inv = record {
  agrees = record { at = λ p id. refl };
  formed = λ id. tt;
  led = λ id. tt;
  open_invitations = λ t. tt;
}

-- From a state that satisfies the invariant, and while party ids are left, every call returns, without
-- an exception from `at`, and the state that it leaves satisfies the invariant.
pub step-Inv : (c : Call) (s : Manager) → Inv s → HasIds s → Returns Inv (step c s)
unfolding step remove_player
step-Inv (creates p title b) s v ids = create-Inv v p title b ids
step-Inv (answers t id b) s v ids = answer_invitation-Inv v t id b
step-Inv (joins id l p) s v ids = join_approved-Inv v id l p
step-Inv (leader id p) s v ids = set_leader-Inv v id p
step-Inv (invites p t) s v ids =
    Returns-bind (λ r. Inv r.0) Inv (invite p t s) _ (invite-Inv v p t ids) (λ r _ w. w)
step-Inv (leaves p) s v ids =
    Returns-bind (λ r. Inv r.0) Inv (leave p s) _ (leave-Inv v p) (λ r _ w. w)
step-Inv (kicks l t) s v ids =
    Returns-bind (λ r. Inv r.0) Inv (kick l t s) _ (kick-Inv v l t) (λ r _ w. w)
step-Inv (removes p) s v ids =
    Returns-bind (λ r. Inv r.0) Inv (remove_player p s) _ (leave-Inv (forget-Inv v p) p)
      (λ r _ w. w)
step-Inv (settings l title b) s v ids =
    Returns-bind (λ r. Inv r.0) Inv (set_settings l title b s) _ (set_settings-Inv v l title b)
      (λ r _ w. w)

run-Inv_from :
    (cs : List Call) (s : Manager)
    → Inv s
    → s.next_party_id + length cs < 2 ^ 64
    → Returns Inv (run cs s)
unfolding run
run-Inv_from [] s v room = v
run-Inv_from (c ∷ cs) s v room =
    Returns-bind Inv Inv (step c s) (run cs) (step-Inv c s v (omega arith))
      (λ t e w. run-Inv_from cs t w (omega (arith, step-Spends c s e)))

-- Every history of fewer than 2 ^ 64 - 1 calls runs to its end without an exception, and the state
-- that it reaches satisfies the invariant.
pub run-Inv : (cs : List Call) → length cs + 1 < 2 ^ 64 → Returns Inv (run cs init)
run-Inv cs room = run-Inv_from cs init init-Inv (omega arith)

-- In every state that such a history reaches, a player who has a slot in two parties has it in one:
-- the two ids are equal, and `playerParties` names that party.
pub run-one_party :
    (cs : List Call) (s : Manager) (p a b : ℕ) (y z : Party)
    → length cs + 1 < 2 ^ 64
    → run cs init ≡ returns s
    → find a s.parties ≡ some y
    → find b s.parties ≡ some z
    → has p y.slots ≡ true
    → has p z.slots ≡ true
    → (a ≡ b) × (find p s.player_parties ≡ some a)
run-one_party cs s p a b y z room e at_a at_b in_a in_b =
    let v : Inv s = Returns-of Inv (run cs init) s e (run-Inv cs room) in
    (ground (arith, v.agrees.at p a, v.agrees.at p b), ground (arith, v.agrees.at p a))
