-- ===== src/Sessions/Tickets.antt =====
-- Tickets and tokens of AuthServer/SessionRegistry.h are good for one session.
use action_rpgserver.Common.{
  [], ◌∷◌, Option-cases, inl, inr, ℕ, refl, string_eq, String, ◌≡◌, none, leb, some, true, ◌+◌,
  false, nat_eq, arith, sym,
}
use action_rpgserver.Sessions.{consume, logout, resolve, granted}
use action_rpgserver.Sessions.State.{prune_accounts, prune, Registry, Account, Ticket, same, empty}
use action_rpgserver.Common.Map.{Map, find, find-erase_if, erase, find-erase, find-put}
use action_rpgserver.Common.Outcome.{returns, throws}

erased_gone : {V : Type 0} (t : String) (m : Map String V) → find t (erase t m) ≡ none
erased_gone t m =
    let self : string_eq.beq t t ≡ true = (string_eq.beq_iff t t).1 refl in
    rw (find-erase t t m, self) refl

find-prune_tickets :
    (now : ℕ) (t : String) (s : Registry)
    → find t s.tickets ≡ none
    → find t (prune now s).tickets ≡ none
unfolding prune
find-prune_tickets now t s e =
    rw (find-erase_if (λ (x : Ticket). leb x.expires now) t s.tickets, e) refl

-- Pruning gives out no token.
find-prune_accounts :
    (now : ℕ) (t : String) (m : Map ℕ Account) (tokens : Map String ℕ)
    → find t tokens ≡ none
    → find t (prune_accounts now m tokens).1 ≡ none
unfolding prune_accounts
find-prune_accounts now t [] tokens e = e
find-prune_accounts now t ((id, a) ∷ rest) tokens e =
    let erased : find t (erase a.token tokens) ≡ none =
      rw (find-erase a.token t tokens, e) (ground arith) in
    let kept = find-prune_accounts now t rest tokens e in
    let over = find-prune_accounts now t rest (erase a.token tokens) erased in
    ground (arith, kept, over)

find-prune_tokens :
    (now : ℕ) (t : String) (s : Registry)
    → find t s.tokens ≡ none
    → find t (prune now s).tokens ≡ none
unfolding prune
find-prune_tokens now t s e = find-prune_accounts now t s.accounts s.tokens e

-- A ticket that is granted was issued for that server, by the session that the account still has, and the
-- account had no lease; it has the new one, the lease of this server and connection.
pub consume-granted :
    (now later : ℕ) (t server_id connection lease : String) (s : Registry) (id : ℕ) (l : String)
    → (consume now later t server_id connection lease s).1 ≡ returns (granted id l)
    → let r = consume now later t server_id connection lease s in
      (ticket : Ticket) × (a : Account) × (find t (prune now s).tickets ≡ some ticket)
      × (find id (prune now s).accounts ≡ some a)
      × (same ticket.server_id server_id ≡ true)
      × (same a.token ticket.token ≡ true)
      × (empty a.lease ≡ true)
      × (l ≡ lease)
      × (find t r.0.tickets ≡ none)
      × (find id r.0.accounts
          ≡ some (record a {
            server_id = server_id;
            connection = connection;
            lease = lease;
            lease_expires = later + 15_000_000_000;
            draining = false;
            drain_reason = "";
          }))
unfolding consume
consume-granted now later t server_id connection lease s id l h =
    elim (Option-cases (find t (prune now s).tickets)) [
      | inl gone ↦ absurd (ground arith)
      | inr (ticket, issued) ↦ elim (Option-cases (find ticket.account_id (prune now s).accounts)) [
        | inl gone ↦ absurd (ground arith)
        | inr (a, there) ↦
            let new : Account = record a {
              server_id = server_id;
              connection = connection;
              lease = lease;
              lease_expires = later + 15_000_000_000;
              draining = false;
              drain_reason = "";
            } in
            let here : ticket.account_id ≡ id = ground arith in
            (
              ticket,
              a,
              issued,
              rw (sym here) there,
              ground arith,
              ground arith,
              ground arith,
              ground arith,
              ground (arith, erased_gone t (prune now s).tickets),
              rw (sym here) (
                  ground (
                    arith,
                    find-put ticket.account_id ticket.account_id new (prune now s).accounts,
                  )),
            )
      ]
    ]

consume-unknown :
    (now later : ℕ) (t server_id connection lease : String) (s : Registry)
    → find t s.tickets ≡ none
    → (consume now later t server_id connection lease s).1 ≡ throws
unfolding consume
consume-unknown now later t server_id connection lease s e =
    rw (consume, find-prune_tickets now t s e) refl

-- A ticket that was granted is never good again, at no time and for no server.
pub consume-once :
    (now later : ℕ) (t server_id connection lease : String) (s : Registry) (id : ℕ) (l : String)
    → (consume now later t server_id connection lease s).1 ≡ returns (granted id l)
    → (now' later' : ℕ) (server_id' connection' lease' : String)
    → (consume now' later' t server_id' connection' lease'
        (consume now later t server_id connection lease s).0).1
      ≡ throws
consume-once now later t server_id connection lease s id l h now' later' server_id' connection'
      lease' =
    let (_, _, _, _, _, _, _, _, gone, _) =
      consume-granted now later t server_id connection lease s id l h in
    consume-unknown now' later' t server_id' connection' lease' _ gone

-- After a sign-out its token resolves to no account, at any time.
pub resolve-logout :
    (now now' : ℕ) (token : String) (s s' : Registry)
    → logout now token s ≡ returns s'
    → (resolve now' token s').1 ≡ 0
unfolding logout resolve
resolve-logout now now' token s s' h = elim (Option-cases (find token s.tokens)) [
  | inl gone ↦
      let same_state : s ≡ s' = ground arith in
      rw (resolve, find-prune_tokens now' token s' (rw (sym same_state) gone)) refl
  | inr (id, known) ↦
      let erased : find token s'.tokens ≡ none = elim (Option-cases (find id s.accounts)) [
        | inl lost ↦ absurd (ground arith)
        | inr (a, there) ↦ ground (arith, erased_gone token s.tokens)
      ] in
      rw (resolve, find-prune_tokens now' token s' erased) refl
]
