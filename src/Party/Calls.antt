-- ===== src/Party/Calls.antt =====
-- A call of the party manager as data, for statements about every history of calls.
use action_rpgserver.Common.{ℕ, Bool, List, [], ◌∷◌}
use action_rpgserver.Common.Outcome.{Outcome, returns, ◌>>=◌}
use action_rpgserver.Party.State.{Manager}
use action_rpgserver.Party.{
  set_leader, create, invite, answer_invitation, leave, join_approved, kick, remove_player,
  set_settings,
}

pub data Call : Type 0 where
  creates : ℕ → List ℕ → Bool → Call
  invites : ℕ → ℕ → Call
  answers : ℕ → ℕ → Bool → Call
  joins : ℕ → ℕ → ℕ → Call
  leaves : ℕ → Call
  kicks : ℕ → ℕ → Call
  removes : ℕ → Call
  settings : ℕ → List ℕ → Bool → Call
  leader : ℕ → ℕ → Call

-- The state after a call; what it answers is dropped.
unfoldable pub step : Call → Manager → Outcome Manager
step (creates p title open_to_all) s = returns (create p title open_to_all s).0
step (invites p target) s = do r ← invite p target s; returns r.0
step (answers target id accepted) s = returns (answer_invitation target id accepted s).0
step (joins id l requester) s = returns (join_approved id l requester s).0
step (leaves p) s = do r ← leave p s; returns r.0
step (kicks l target) s = do r ← kick l target s; returns r.0
step (removes p) s = do r ← remove_player p s; returns r.0
step (settings l title open_to_all) s = do r ← set_settings l title open_to_all s; returns r.0
step (leader id p) s = returns (set_leader id p s).0

unfoldable pub run : List Call → Manager → Outcome Manager
run [] s = returns s
run (c ∷ cs) s = do s' ← step c s; run cs s'
