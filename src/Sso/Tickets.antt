-- ===== src/Sso/Tickets.antt =====
-- The ticket store: sa-token-core/src/sso/ticket_store.rs.
use sa_token_rust.Common.{ℕ, ◌-◌, ◌/◌, ◌^◌, String, Option, none, some, not, ◌==◌, if◌then◌else◌}
use sa_token_rust.Common.Int.{ℤ, pos, is_positive, to_ℕ}
use sa_token_rust.Error.{invalid_ticket, ticket_expired, service_mismatch}
use sa_token_rust.Storage.{SaStorage}
use sa_token_rust.Keys.{sso_ticket}
use sa_token_rust.Dao.{
  Action, pure, throw, with_now, lift, ok_or, ◌>>=◌, from_secs, Codec, SaTokenDao, take_string,
  get_object, set_object,
}
use sa_token_rust.Sso.{SsoTicket, is_valid}

pub record SsoTicketStore : Type 0 where
  pub dao : SaTokenDao
  pub ticket_ttl_secs : ℤ

unfoldable pub ttl : SsoTicketStore → Option ℕ
unfolding from_secs
ttl self =
    if is_positive self.ticket_ttl_secs then some (from_secs (to_ℕ self.ticket_ttl_secs)) else none

abbrev pub key : SsoTicketStore → String → String
key self ticket_id = sso_ticket self.dao.keys ticket_id

module _ (st : SaStorage) (codec : Codec SsoTicket) where
  unfoldable pub save : SsoTicketStore → SsoTicket → Action st.State (Unit {0})
  unfolding ttl
  save self ticket = set_object st codec (key self ticket.ticket_id) ticket (ttl self)

  unfoldable pub get : SsoTicketStore → String → Action st.State (Option SsoTicket)
  get self ticket_id = get_object st codec (key self ticket_id)

  -- The tests on a ticket that was read.
  unfoldable pub admit : {A : Type 0} → SsoTicket → String → A → Action st.State A
  unfolding is_valid
  admit ticket service answer = with_now λ now.
      if not (is_valid ticket now)
      then throw ticket_expired
      else if not (ticket.service == service)
      then throw service_mismatch
      else pure answer

  unfoldable pub consume : SsoTicketStore → String → String → Action st.State String
  unfolding admit
  consume self ticket_id service = do
    found ← take_string st (key self ticket_id)
    raw ← ok_or invalid_ticket found
    ticket ← lift (codec.decode raw)
    admit ticket service ticket.login_id

  -- The whole seconds that are left.
  unfoldable pub remain_seconds : SsoTicket → ℕ → ℤ
  remain_seconds ticket now = pos ((ticket.expire_time - now) / 10 ^ 9)

  unfoldable pub check : SsoTicketStore → String → String → Action st.State (String × ℤ)
  unfolding admit get remain_seconds
  check self ticket_id service = with_now λ now. do
    found ← get self ticket_id
    ticket ← ok_or invalid_ticket found
    admit ticket service (ticket.login_id, remain_seconds ticket now)
