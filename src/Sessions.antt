-- ===== src/Sessions.antt =====
-- AuthServer/SessionRegistry.h: the sign-in challenges, sessions, tickets and leases of accounts. A time is
-- a number of nanoseconds; a call takes the time that `Prune` reads and, where the code reads the clock
-- again, the time of that reading, `later`. A random token is an argument. A call that throws leaves
-- the state that it has made. The mutex makes each call one step.
pub mod State
pub mod Tickets
mod Tests
use action_rpgserver.Common.{
  ℕ, ◌==◌, string_eq, nat_eq, Option, none, some, [], ◌∷◌, Bool, true, false, String, ◌*◌, ◌+◌, ◌-◌,
  ◌/◌, not, ◌&&◌, ltb, leb, if◌then◌else◌, length,
}
use action_rpgserver.Common.Map.{Map, find, erase, put, emplace, erase_if, contains}
use action_rpgserver.Common.Outcome.{Outcome, returns, throws}
use action_rpgserver.Sessions.State.{
  Ticket, Account, Registry, same, prune, no_account, max_entries, empty, seconds,
}

pub challenge_login : ℕ → ℕ → String → String → Registry → Registry × Outcome (String × String)
challenge_login now later id nonce s0 =
    let s = prune now s0 in
    if leb max_entries (length s.challenges) then (s, throws) else (
      record s {
        challenges =
            emplace id (record { nonce = nonce; expires = later + seconds 300 }) s.challenges;
      },
      returns (id, nonce),
    )

pub consume_challenge : ℕ → String → Registry → Registry × Outcome String
consume_challenge now id s0 =
    let s = prune now s0 in
    elim (find id s.challenges) [
      | none ↦ (s, throws)
      | some c ↦ (record s { challenges = erase id s.challenges }, returns c.nonce)
    ]

-- The tickets of other accounts.
abbrev pub without_account : ℕ → Map String Ticket → Map String Ticket
without_account id = erase_if (λ t. t.account_id == id)

pub login : ℕ → ℕ → ℕ → String → Registry → Registry × Outcome String
login now later id token s0 =
    let s = prune now s0 in
    let a : Account = elim (find id s.accounts) [ none ↦ no_account | some a ↦ a ] in
    if not (contains id s.accounts) && leb max_entries (length s.accounts) then (s, throws) else (
      record s {
        accounts =
            put id
              (record a {
                token = token;
                expires = later + seconds 28800;
                draining = not (empty a.lease);
                drain_reason = if empty a.lease then "" else "Replaced";
              })
              s.accounts;
        tokens = emplace token id (erase a.token s.tokens);
        tickets = without_account id s.tickets;
      },
      returns token,
    )

-- An account id of 0 is the answer for an unknown token.
pub resolve : ℕ → String → Registry → Registry × ℕ
resolve now token s0 =
    let s = prune now s0 in (s, elim (find token s.tokens) [ none ↦ 0 | some id ↦ id ])

pub issue : ℕ → ℕ → String → String → String → Registry → Registry × Outcome (String × Bool)
issue now later token server_id ticket s0 =
    let s = prune now s0 in
    elim (find token s.tokens) [
      | none ↦ (s, throws)
      | some id ↦
          if leb max_entries (length s.tickets) then (s, throws) else elim (find id s.accounts) [
            | none ↦ (s, throws)
            | some a ↦ (
              record s {
                accounts =
                    put id
                      (record a {
                        drain_reason =
                            if not a.draining && not (empty a.lease)
                            then (if same a.server_id server_id
                                then "Replaced"
                                else "ServerTransfer")
                            else a.drain_reason;
                        draining = not (empty a.lease);
                      })
                      s.accounts;
                tickets =
                    emplace ticket
                      (record {
                        account_id = id;
                        token = token;
                        server_id = server_id;
                        expires = later + seconds 30;
                      })
                      (without_account id s.tickets);
              },
              returns (ticket, empty a.lease),
            )
          ]
    ]

pub resolve_ticket : ℕ → String → String → Registry → Registry × ℕ
resolve_ticket now ticket server_id s0 =
    let s = prune now s0 in
    (
      s,
      elim (find ticket s.tickets) [
        | none ↦ 0
        | some t ↦ if same t.server_id server_id then t.account_id else 0
      ],
    )

-- What `Consume` answers: to wait for the milliseconds left of the ticket, or the lease of an account.
pub data Consumed : Type 0 where
  pending : ℕ → Consumed
  granted : ℕ → String → Consumed

pub consume : ℕ → ℕ → String → String → String → String → Registry → Registry × Outcome Consumed
consume now later ticket server_id connection lease s0 =
    let s = prune now s0 in
    elim (find ticket s.tickets) [
      | none ↦ (s, throws)
      | some t ↦
          if not (same t.server_id server_id)
          then (s, throws)
          else elim (find t.account_id s.accounts) [
            | none ↦ (record s { tickets = erase ticket s.tickets }, throws)
            | some a ↦
                if not (same a.token t.token)
                then (record s { tickets = erase ticket s.tickets }, throws)
                else if not (empty a.lease)
                then (s, returns (pending ((t.expires - later) / 1_000_000)))
                else (
                  record s {
                    tickets = erase ticket s.tickets;
                    accounts =
                        put t.account_id
                          (record a {
                            server_id = server_id;
                            connection = connection;
                            lease = lease;
                            lease_expires = later + seconds 15;
                            draining = false;
                            drain_reason = "";
                          })
                          s.accounts;
                  },
                  returns (granted t.account_id lease),
                )
          ]
    ]

-- The three strings by which a server names the lease that it holds.
abbrev pub holds : String → String → String → Account → Bool
holds server_id connection lease a =
    same a.server_id server_id && same a.connection connection && same a.lease lease

-- The loop of `ResolveLease`.
unfoldable pub find_lease : String → String → String → Map ℕ Account → Option ℕ
find_lease server_id connection lease [] = none
find_lease server_id connection lease ((id, a) ∷ rest) =
    let later = find_lease server_id connection lease rest in
    if holds server_id connection lease a then some id else later

pub resolve_lease : String → String → String → Registry → ℕ
resolve_lease server_id connection lease s =
    elim (find_lease server_id connection lease s.accounts) [ none ↦ 0 | some id ↦ id ]

pub renew : ℕ → ℕ → ℕ → String → String → String → Bool → Registry → Registry × Bool × String
renew now later id server_id connection lease active s0 =
    let s = prune now s0 in
    elim (find id s.accounts) [
      | none ↦ (s, false, "AuthorizationExpired")
      | some a ↦
          if not (holds server_id connection lease a)
          then (s, false, "AuthorizationExpired")
          else if a.draining
          then (s, false, a.drain_reason)
          else if leb a.lease_expires later
          then (s, false, "AuthorizationExpired")
          else if not active
          then (s, false, "AuthUnavailable")
          else (
            record s {
              accounts = put id (record a { lease_expires = later + seconds 15 }) s.accounts;
            },
            true,
            "",
          )
    ]

abbrev pub released : Account → Account
released a = record a {
  lease = "";
  connection = "";
  server_id = "";
  draining = false;
  drain_reason = "";
}

-- The loop of `Release`, which ends at the first account that the server holds.
unfoldable pub release_in : String → String → String → Map ℕ Account → Map ℕ Account
release_in server_id connection lease [] = []
release_in server_id connection lease ((id, a) ∷ rest) =
    let later = release_in server_id connection lease rest in
    if holds server_id connection lease a then (id, released a) ∷ rest else (id, a) ∷ later

pub release : String → String → String → Registry → Registry
release server_id connection lease s = record s {
  accounts = release_in server_id connection lease s.accounts;
}

abbrev pub closed : ℕ → String → Account → Account
closed now reason a = record a { token = ""; expires = now; draining = true; drain_reason = reason }

pub logout : ℕ → String → Registry → Outcome Registry
logout now token s = elim (find token s.tokens) [
  | none ↦ returns s
  | some id ↦ elim (find id s.accounts) [
    | none ↦ throws
    | some a ↦ returns (record s {
      accounts = put id (closed now "LoggedOut" a) s.accounts;
      tokens = erase token s.tokens;
    })
  ]
]

pub revoke : ℕ → ℕ → Registry → Registry
revoke now id s = elim (find id s.accounts) [
  | none ↦ s
  | some a ↦ record s {
    accounts = put id (closed now "AccountUnavailable" a) s.accounts;
    tokens = erase a.token s.tokens;
    tickets = without_account id s.tickets;
  }
]
