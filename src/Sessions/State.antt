-- ===== src/Sessions/State.antt =====
-- The state of AuthServer/SessionRegistry.h, and `Prune`, with which most of its methods begin.
use action_rpgserver.Common.{
  ℕ, string_eq, nat_eq, [], ◌∷◌, Bool, true, false, String, ◌*◌, ltb, leb, if◌then◌else◌,
}
use action_rpgserver.Common.Map.{Map, erase, erase_if}

pub record Account : Type 0 where
  pub token : String
  pub expires : ℕ
  pub server_id : String
  pub connection : String
  pub lease : String
  pub lease_expires : ℕ
  pub draining : Bool
  pub drain_reason : String

pub record Ticket : Type 0 where
  pub account_id : ℕ
  pub token : String
  pub server_id : String
  pub expires : ℕ

pub record Challenge : Type 0 where
  pub nonce : String
  pub expires : ℕ

pub record Registry : Type 0 where
  pub accounts : Map ℕ Account
  pub tokens : Map String ℕ
  pub tickets : Map String Ticket
  pub challenges : Map String Challenge

abbrev pub max_entries : ℕ
max_entries = 10_000

abbrev pub seconds : ℕ → ℕ
seconds n = n * 1_000_000_000

abbrev pub same : String → String → Bool
same a b = string_eq.beq a b

abbrev pub empty : String → Bool
empty s = same s ""

-- The fresh account of `accounts[id]`.
abbrev pub no_account : Account
no_account = record {
  token = "";
  expires = 0;
  server_id = "";
  connection = "";
  lease = "";
  lease_expires = 0;
  draining = false;
  drain_reason = "";
}

-- An account whose session is over.
abbrev pub expired : Account → Account
expired a = record a {
  token = "";
  draining = true;
  drain_reason = if a.draining then a.drain_reason else "AuthorizationExpired";
}

-- The loop of `Prune` over the accounts.
unfoldable pub prune_accounts : ℕ → Map ℕ Account → Map String ℕ → Map ℕ Account × Map String ℕ
prune_accounts now [] tokens = ([], tokens)
prune_accounts now ((id, a) ∷ rest) tokens =
    let kept = prune_accounts now rest tokens in
    let over = prune_accounts now rest (erase a.token tokens) in
    if ltb now a.expires
    then ((id, a) ∷ kept.0, kept.1)
    else if empty a.lease
    then over
    else ((id, expired a) ∷ over.0, over.1)

unfoldable pub prune : ℕ → Registry → Registry
prune now s =
    let (accounts, tokens) = prune_accounts now s.accounts s.tokens in
    record {
      accounts = accounts;
      tokens = tokens;
      tickets = erase_if (λ t. leb t.expires now) s.tickets;
      challenges = erase_if (λ c. leb c.expires now) s.challenges;
    }
