-- ===== src/Sso/TicketLaws.antt =====
-- A ticket is worth one consumption, and the store returns what was saved.
use sa_token_rust.Common.{
  ℕ, ◌≤◌, String, ◌≡◌, ◌≢◌, refl, true, not, Option, none, some, ok, err, arith, ◌==◌,
  if◌then◌else◌, Result-cases, inl, inr, eq_refl, ap, ◌∙◌,
}
use sa_token_rust.Error.{
  SaTokenResult, storage_error, invalid_ticket, service_mismatch, ticket_expired,
}
use sa_token_rust.Storage.{SaStorage, StorageLaws, within}
use sa_token_rust.Dao.{Codec, Action, ◌>>=◌, ok_or, lift, take_string, set_object}
use sa_token_rust.Dao.Binds.{bind-ok, bind-err}
use sa_token_rust.Dao.Reads.{take_string-cases, take_string_lem, live-take_string, live-set_string}
use sa_token_rust.Sso.{SsoTicket, is_valid}
use sa_token_rust.Sso.Tickets.{SsoTicketStore, ttl, key, save, admit, consume}

module _ (st : SaStorage) (laws : StorageLaws st) (codec : Codec SsoTicket)
    (self : SsoTicketStore) where
  open laws use {live, deadline}

  -- What is decided about a stored text.
  abbrev verdict : Option String → String → ℕ → SaTokenResult String
  verdict none service now = err invalid_ticket
  verdict (some raw) service now = elim (codec.decode raw) [
    | err e ↦ err e
    | ok ticket ↦
        if not (is_valid ticket now)
        then err ticket_expired
        else if not (ticket.service == service)
        then err service_mismatch
        else ok ticket.login_id
  ]

  -- What `consume` does with what it took.
  judge : String → Option String → Action st.State String
  judge service found = do
    raw ← ok_or invalid_ticket found
    ticket ← lift (codec.decode raw)
    admit st codec ticket service ticket.login_id

  judge-verdict :
      (o : Option String) (service : String) (now : ℕ) (s : st.State)
      → judge service o now s ≡ (verdict o service now, s)
  unfolding judge admit
  judge-verdict none service now s = refl
  judge-verdict (some raw) service now s = elim (Result-cases (codec.decode raw)) [
    | inl (ticket, read) ↦ rw read (ground arith)
    | inr (f, failed) ↦ ground arith
  ]

  consume-decided :
      (id service : String) (now : ℕ) (s : st.State) (o : Option String)
      → (take_string st (key self id) now s).0 ≡ ok o
      → consume st codec self id service now s
        ≡ (verdict o service now, (take_string st (key self id) now s).1)
  unfolding consume judge
  consume-decided id service now s o e =
      bind-ok (take_string st (key self id)) (judge service) now s o e
      ∙ judge-verdict o service now (take_string st (key self id) now s).1

  consume-failed :
      (id service m : String) (now : ℕ) (s : st.State)
      → (take_string st (key self id) now s).0 ≡ err (storage_error m)
      → (consume st codec self id service now s).0 ≡ err (storage_error m)
  unfolding consume judge
  consume-failed id service m now s e =
      ap (λ p. p.0)
        (bind-err (take_string st (key self id)) (judge service) now s (storage_error m) e)

  abbrev pub DoesNotFail {ℓ} : {A : Type ℓ} → SaTokenResult A → Type ℓ
  DoesNotFail r = (m : String) → r ≢ err (storage_error m)

  -- A ticket that is not there is refused.
  pub refused :
      (id service login_id : String) (now : ℕ) (s : st.State)
      → live (key self id) now s ≡ none
      → (consume st codec self id service now s).0 ≢ ok login_id
  refused id service login_id now s gone e = elim (take_string-cases st laws (key self id) now s) [
    | inl (o, taken) ↦ ground (
      arith,
      take_string_lem st laws (key self id) now s o taken,
      consume-decided id service now s o taken,
    )
    | inr (m, failed) ↦ ground (arith, consume-failed id service m now s failed)
  ]

  pub consume-takes :
      (id service : String) (now t : ℕ) (s : st.State)
      → now ≤ t
      → DoesNotFail (consume st codec self id service now s).0
      → live (key self id) t (consume st codec self id service now s).1 ≡ none
  consume-takes id service now t s le answers =
      elim (take_string-cases st laws (key self id) now s) [
        | inl (o, taken) ↦ ground (
          arith,
          live-take_string st laws (key self id) (key self id) now t s o le taken,
          consume-decided id service now s o taken,
          eq_refl (key self id),
        )
        | inr (m, failed) ↦ absurd (answers m (consume-failed id service m now s failed))
      ]

  -- One presentation of a ticket, for whatever service and with whatever outcome but a failure of
  -- the storage, is the last that can succeed.
  pub consume-once :
      (id service service' login_id : String) (now t : ℕ) (s : st.State)
      → now ≤ t
      → DoesNotFail (consume st codec self id service now s).0
      → (consume st codec self id service' t (consume st codec self id service now s).1).0
        ≢ ok login_id
  consume-once id service service' login_id now t s le answers =
      refused id service' login_id t _ (consume-takes id service now t s le answers)

  -- What a saved ticket leaves under its key.
  save-live :
      (ticket : SsoTicket) (now t : ℕ) (s : st.State)
      → now ≤ t
      → (save st codec self ticket now s).0 ≡ ok tt
      → within (deadline (ttl self) now) t ≡ true
      → (raw : String) × (codec.encode ticket ≡ ok raw)
        × (live (key self ticket.ticket_id) t (save st codec self ticket now s).1 ≡ some raw)
  unfolding save set_object
  save-live ticket now t s le saved kept = elim (Result-cases (codec.encode ticket)) [
    | inl (raw, written) ↦ (
      raw,
      written,
      ground (
        arith,
        live-set_string st laws (key self ticket.ticket_id) (key self ticket.ticket_id) raw
            (ttl self) now t s tt le,
        eq_refl (key self ticket.ticket_id),
      ),
    )
    | inr (e, failed) ↦ absurd (ground arith)
  ]

  -- A saved ticket is worth its login id, for its service, until it or its key expires.
  pub save-consume :
      (ticket : SsoTicket) (now t : ℕ) (s : st.State)
      → now ≤ t
      → (save st codec self ticket now s).0 ≡ ok tt
      → within (deadline (ttl self) now) t ≡ true
      → is_valid ticket t ≡ true
      → DoesNotFail
          (consume st codec self ticket.ticket_id ticket.service t
            (save st codec self ticket now s).1).0
      → (consume st codec self ticket.ticket_id ticket.service t
          (save st codec self ticket now s).1).0
        ≡ ok ticket.login_id
  save-consume ticket now t s le saved kept valid answers =
      let (raw, written, there) = save-live ticket now t s le saved kept in
      let s' = (save st codec self ticket now s).1 in
      elim (take_string-cases st laws (key self ticket.ticket_id) t s') [
        | inl (o, taken) ↦ ground (
          arith,
          take_string_lem st laws (key self ticket.ticket_id) t s' o taken,
          consume-decided ticket.ticket_id ticket.service t s' o taken,
          codec.decode-encode ticket raw written,
          eq_refl ticket.service,
        )
        | inr (m, failed) ↦
            absurd (answers m (consume-failed ticket.ticket_id ticket.service m t s' failed))
      ]
