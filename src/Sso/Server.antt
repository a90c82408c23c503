-- ===== src/Sso/Server.antt =====
-- The server's side of tickets: `SsoServer` of sa-token-core/src/sso/mod.rs.
use sa_token_rust.Common.{
  ℕ, String, Bool, false, Option, none, List, ok, err, not, ◌||◌, ◌==◌, any, if◌then◌else◌, is_some,
}
use sa_token_rust.Common.Int.{ℤ}
use sa_token_rust.Error.{SaTokenResult, service_mismatch, sso_session_not_found}
use sa_token_rust.Storage.{SaStorage}
use sa_token_rust.Dao.{Action, pure, throw, with_now, lift, ◌>>=◌, ◌>>◌, Codec, SaTokenDao}
use sa_token_rust.Sso.{SsoTicket, SsoSession, new_ticket}
use sa_token_rust.Sso.Tickets
use sa_token_rust.Sso.Tickets.{SsoTicketStore}
use sa_token_rust.Sso.Sessions
use sa_token_rust.Sso.Sessions.{clients_of}

pub record SsoServer : Type 0 where
  pub dao : SaTokenDao
  pub ticket_timeout : ℤ
  pub allow_cross_domain : Bool
  pub allowed_origins : List String

-- The ticket store of a server: it shares the data access layer and the timeout.
abbrev pub tickets : SsoServer → SsoTicketStore
tickets self = record { dao = self.dao; ticket_ttl_secs = self.ticket_timeout }

unfoldable pub is_allowed_origin : SsoServer → String → Bool
is_allowed_origin self origin =
    if not self.allow_cross_domain
    then false
    else any (λ allowed. allowed == "*" || allowed == origin) self.allowed_origins

unfoldable pub validate_service_access : SsoServer → String → SaTokenResult (Unit {0})
validate_service_access self service =
    if not self.allow_cross_domain
    then ok tt
    else if any (λ allowed. allowed == "*" || allowed == service) self.allowed_origins
    then ok tt
    else err service_mismatch

module _ (st : SaStorage) (ticket_codec : Codec SsoTicket) (session_codec : Codec SsoSession)
    (self : SsoServer) where
  -- `get_session`: an error counts as no session.
  unfoldable pub get_session : String → ℕ → st.State → Option SsoSession × st.State
  unfolding Sessions.get
  get_session login_id now s =
      let (r, s') = Sessions.get st session_codec self.dao login_id now s in
      elim r [ ok session ↦ (session, s') | err e ↦ (none, s') ]

  unfoldable pub check_session : String → Action st.State Bool
  unfolding get_session
  check_session login_id now s =
      let (session, s') = get_session login_id now s in (ok (is_some session), s')

  unfoldable pub get_active_clients : String → Action st.State (List String)
  unfolding get_session
  get_active_clients login_id now s =
      let (session, s') = get_session login_id now s in (ok (clients_of session), s')

  -- `uuid` is the text that is drawn for the ticket's id, `others` what other tasks write to the
  -- storage while the session is updated.
  unfoldable pub create_ticket :
      (ℕ → st.State → st.State) → String → String → String → Action st.State SsoTicket
  unfolding new_ticket Tickets.save Sessions.upsert_client
  create_ticket others uuid login_id service = with_now λ now. do
    lift (validate_service_access self service)
    Tickets.save st ticket_codec (tickets self)
        (new_ticket uuid login_id service self.ticket_timeout now)
    Sessions.upsert_client st session_codec others self.dao login_id service
    pure (new_ticket uuid login_id service self.ticket_timeout now)

  unfoldable pub validate_ticket : String → String → Action st.State String
  unfolding validate_service_access check_session Tickets.check Tickets.consume
  validate_ticket ticket_id service = do
    lift (validate_service_access self service)
    preview ← Tickets.check st ticket_codec (tickets self) ticket_id service
    present ← check_session preview.0
    if not present
        then throw sso_session_not_found
        else Tickets.consume st ticket_codec (tickets self) ticket_id service

  -- `CheckTicketResult` is the pair of the login id and the seconds that remain.
  unfoldable pub check_ticket : String → String → Action st.State (String × ℤ)
  unfolding validate_service_access Tickets.check
  check_ticket ticket_id service = do
    lift (validate_service_access self service)
    Tickets.check st ticket_codec (tickets self) ticket_id service
