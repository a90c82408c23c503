-- ===== src/Sso/ServerLaws.antt =====
-- What the server's validation of a ticket has checked, and that it is worth one login.
use sa_token_rust.Common.{
  ℕ, ◌≤◌, String, ◌≡◌, ◌≢◌, refl, ap, sym, ◌∙◌, Bool, true, false, Option, ok, err, arith, not,
  if◌then◌else◌,
}
use sa_token_rust.Common.Int.{ℤ}
use sa_token_rust.Error.{SaTokenError, invalid_ticket, sso_session_not_found}
use sa_token_rust.Storage.{SaStorage, StorageLaws}
use sa_token_rust.Dao.{Action, throw, ok_or, ◌>>=◌, Codec}
use sa_token_rust.Dao.Binds.{bind-returns, lift-returns}
use sa_token_rust.Dao.ReadOnly.{
  IsReadOnly, bind-IsReadOnly, get_object-IsReadOnly, ok_or-IsReadOnly,
}
use sa_token_rust.Sso.{SsoTicket, SsoSession}
use sa_token_rust.Sso.Tickets.{SsoTicketStore, admit, consume, check, remain_seconds}
use sa_token_rust.Sso.Tickets
use sa_token_rust.Sso.Sessions
use sa_token_rust.Sso.TicketLaws.{consume-takes, refused}
use sa_token_rust.Sso.Server.{
  SsoServer, tickets, validate_service_access, get_session, check_session, validate_ticket,
}

module _ (st : SaStorage) (laws : StorageLaws st) (ticket_codec : Codec SsoTicket)
    (session_codec : Codec SsoSession) (self : SsoServer) where
  open laws use {live}

  admit-IsReadOnly :
      {A : Type 0} (ticket : SsoTicket) (service : String) (answer : A)
      → IsReadOnly st laws (admit st ticket_codec ticket service answer)
  unfolding admit
  admit-IsReadOnly ticket service answer j now t s le = ground arith

  -- What `check` does with what it read.
  abbrev answer : ℕ → SsoTicket → String × ℤ
  answer now ticket = (ticket.login_id, remain_seconds st ticket_codec ticket now)

  abbrev seen : ℕ → String → SsoTicket → Action st.State (String × ℤ)
  seen now service ticket = admit st ticket_codec ticket service (answer now ticket)

  abbrev look : ℕ → String → Option SsoTicket → Action st.State (String × ℤ)
  look now service found = ok_or invalid_ticket found >>= seen now service

  check-IsReadOnly :
      (id service : String) → IsReadOnly st laws (check st ticket_codec (tickets self) id service)
  unfolding check Tickets.get
  check-IsReadOnly id service j now t s le =
      bind-IsReadOnly st laws (Tickets.get st ticket_codec (tickets self) id) (look now service)
        (get_object-IsReadOnly st laws ticket_codec (Tickets.key (tickets self) id))
        (λ found.
          bind-IsReadOnly st laws (ok_or invalid_ticket found) (seen now service)
            (ok_or-IsReadOnly st laws invalid_ticket found)
            (λ ticket. admit-IsReadOnly ticket service (answer now ticket)))
        j now t s le

  check_session-IsReadOnly :
      (login_id : String)
      → IsReadOnly st laws (check_session st ticket_codec session_codec self login_id)
  unfolding check_session get_session Sessions.get
  check_session-IsReadOnly login_id j now t s le = ground (
    arith,
    get_object-IsReadOnly st laws session_codec (Sessions.key self.dao login_id) j now t s le,
  )

  -- The last test of `validate_ticket`, and what follows it.
  abbrev take_if : String → String → Bool → Action st.State String
  take_if id service present =
      if not present
      then throw sso_session_not_found
      else consume st ticket_codec (tickets self) id service

  validate_ticket-returns :
      (id service login_id : String) (now : ℕ) (s : st.State)
      → (validate_ticket st ticket_codec session_codec self id service now s).0 ≡ ok login_id
      → (before : st.State) × (validate_service_access self service ≡ ok tt)
        × ((j : String) (t : ℕ) → now ≤ t → live j t before ≡ live j t s)
        × ((consume st ticket_codec (tickets self) id service now before).0 ≡ ok login_id)
        × (validate_ticket st ticket_codec session_codec self id service now s
            ≡ consume st ticket_codec (tickets self) id service now before)
  unfolding validate_ticket
  validate_ticket-returns id service login_id now s h =
      let from_preview = λ (preview : String × ℤ).
        check_session st ticket_codec session_codec self preview.0 >>= take_if id service in
      let look = check st ticket_codec (tickets self) id service in
      let (u, allowed, h₁, e₁) =
        lift-returns (validate_service_access self service) (λ u. look >>= from_preview) now s
          login_id h in
      let (preview, seen, h₂, e₂) = bind-returns look from_preview now s login_id h₁ in
      let s₁ = (look now s).1 in
      let ask = check_session st ticket_codec session_codec self preview.0 in
      let (present, asked, h₃, e₃) = bind-returns ask (take_if id service) now s₁ login_id h₂ in
      let s₂ = (ask now s₁).1 in
      let (h₄, e₄) = present_returns id service login_id now s₂ present h₃ in
      (
        s₂,
        allowed,
        λ j t le.
            check_session-IsReadOnly preview.0 j now t s₁ le
            ∙ check-IsReadOnly id service j now t s le,
        h₄,
        e₁ ∙ e₂ ∙ e₃ ∙ e₄,
      )
    where
      present_returns :
          (id service login_id : String) (now : ℕ) (s : st.State) (present : Bool)
          → (take_if id service present now s).0 ≡ ok login_id
          → ((consume st ticket_codec (tickets self) id service now s).0 ≡ ok login_id)
            × (take_if id service present now s
                ≡ consume st ticket_codec (tickets self) id service now s)
      present_returns id service login_id now s true h = (h, refl)
      present_returns id service login_id now s false h = absurd (ground arith)

  -- A ticket that the server has validated is validated no second time, for no service.
  pub validate_ticket-once :
      (id service service' login_id login_id' : String) (now t : ℕ) (s : st.State)
      → now ≤ t
      → (validate_ticket st ticket_codec session_codec self id service now s).0 ≡ ok login_id
      → (validate_ticket st ticket_codec session_codec self id service' t
          (validate_ticket st ticket_codec session_codec self id service now s).1).0
        ≢ ok login_id'
  validate_ticket-once id service service' login_id login_id' now t s le h h' =
      let (b, allowed, same, won, e) = validate_ticket-returns id service login_id now s h in
      let (b', allowed', same', won', e') = validate_ticket-returns id service' login_id' t _ h' in
      refused st laws ticket_codec (tickets self) id service' login_id' t b'
        (same' (Tickets.key (tickets self) id) t (omega arith)
          ∙ ap (λ p. live (Tickets.key (tickets self) id) t p.1) e
          ∙ consume-takes st laws ticket_codec (tickets self) id service now t b le
              (λ m f. ok_err (sym won ∙ f)))
        won'
    where
      ok_err : {x : String} {e : SaTokenError} → ok x ≢ err e
      ok_err e = ground arith
