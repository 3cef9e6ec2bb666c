-- ===== src/Sessions/Tests.antt =====
-- A ticket of one account at one server.
use action_rpgserver.Common.{refl, string_eq, [], ◌∷◌, false, ◌≡◌, some, true, none, nat_eq, String}
use action_rpgserver.Sessions.{consume, logout, closed, Consumed, resolve, granted}
use action_rpgserver.Sessions.State.{Account, Ticket, Registry, prune, prune_accounts, same, empty}
use action_rpgserver.Common.Outcome.{Outcome, throws, returns}
use action_rpgserver.Common.Map.{find, put, erase_if, erase}
use action_rpgserver.Sessions.Tickets.{consume-once, resolve-logout, consume-granted}

abbrev account : Account
account = record {
  token = "token";
  expires = 1_000;
  server_id = "";
  connection = "";
  lease = "";
  lease_expires = 0;
  draining = false;
  drain_reason = "";
}

abbrev issued : Ticket
issued = record { account_id = 7; token = "token"; server_id = "town"; expires = 100 }

abbrev new_lease : String
new_lease = "lease"

abbrev registry : Registry
registry = record {
  accounts = (7, account) ∷ [];
  tokens = ("token", 7) ∷ [];
  tickets = ("ticket", issued) ∷ [];
  challenges = [];
}

abbrev result : Registry × Outcome Consumed
result = consume 10 11 "ticket" "town" "c1" "lease" registry

grants : result.1 ≡ returns (granted 7 "lease")
unfolding consume prune prune_accounts erase_if find erase
grants = refl

consume-granted_example :
    (ticket : Ticket) × (a : Account) × (find "ticket" (prune 10 registry).tickets ≡ some ticket)
    × (find 7 (prune 10 registry).accounts ≡ some a)
    × (same ticket.server_id "town" ≡ true)
    × (same a.token ticket.token ≡ true)
    × (empty a.lease ≡ true)
    × (new_lease ≡ "lease")
    × (find "ticket" result.0.tickets ≡ none)
    × (find 7 result.0.accounts
        ≡ some (record a {
          server_id = "town";
          connection = "c1";
          lease = "lease";
          lease_expires = 15_000_000_011;
          draining = false;
          drain_reason = "";
        }))
consume-granted_example =
    consume-granted 10 11 "ticket" "town" "c1" "lease" registry 7 "lease" grants

consume-once_example : (consume 12 13 "ticket" "town" "c2" "other" result.0).1 ≡ throws
consume-once_example =
    consume-once 10 11 "ticket" "town" "c1" "lease" registry 7 "lease" grants 12 13 "town" "c2"
      "other"

abbrev signed_out : Registry
signed_out = record registry { accounts = (7, closed 20 "LoggedOut" account) ∷ []; tokens = [] }

resolve-logout_example : (resolve 21 "token" signed_out).1 ≡ 0
unfolding logout find put erase
resolve-logout_example = resolve-logout 20 21 "token" registry signed_out refl
