-- ===== src/Sso.antt =====
-- Single sign-on: sa-token-core/src/sso/mod.rs, the data and the ticket side of the server.
--
-- The text of a new ticket's id is an argument of what creates one: `uuid` draws it.
pub mod Tickets
pub mod Sessions
pub mod Server
pub mod TicketLaws
pub mod SessionLaws
pub mod ServerLaws
use sa_token_rust.Common.{
  ℕ, String, Bool, true, false, List, [], ◌∷◌, ◌++◌, not, ◌&&◌, ltb, contains, retain,
  if◌then◌else◌, ◌==◌,
}
use sa_token_rust.Common.Int.{ℤ}
use sa_token_rust.Dao.{add_seconds}

pub record SsoTicket : Type 0 where
  pub ticket_id : String
  pub service : String
  pub login_id : String
  pub create_time : ℕ
  pub expire_time : ℕ
  pub used : Bool

unfoldable pub new_ticket : String → String → String → ℤ → ℕ → SsoTicket
unfolding add_seconds
new_ticket ticket_id login_id service timeout_seconds now = record {
  ticket_id = ticket_id;
  service = service;
  login_id = login_id;
  create_time = now;
  expire_time = add_seconds now timeout_seconds;
  used = false;
}

unfoldable pub is_expired : SsoTicket → ℕ → Bool
is_expired ticket now = ltb ticket.expire_time now

unfoldable pub is_valid : SsoTicket → ℕ → Bool
unfolding is_expired
is_valid ticket now = not ticket.used && not (is_expired ticket now)

pub record SsoSession : Type 0 where
  pub login_id : String
  pub clients : List String
  pub create_time : ℕ
  pub last_active_time : ℕ

unfoldable pub new_session : String → ℕ → SsoSession
new_session login_id now = record {
  login_id = login_id;
  clients = [];
  create_time = now;
  last_active_time = now;
}

unfoldable pub add_client : String → ℕ → SsoSession → SsoSession
add_client service now session = record session {
  clients =
      (if contains session.clients service
        then session.clients
        else session.clients ++ service ∷ []);
  last_active_time = now;
}

unfoldable pub remove_client : String → ℕ → SsoSession → SsoSession
remove_client service now session = record session {
  clients = retain (λ c. not (c == service)) session.clients;
  last_active_time = now;
}
