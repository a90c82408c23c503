-- ===== src/OAuth2/CodeLaws.antt =====
-- What a consumed authorization code was.
use sa_token_rust.Common.{
  ℕ, ◌≤◌, String, ◌≡◌, ap, sym, ◌∙◌, false, none, some, ok, arith, ◌==◌, if◌then◌else◌, ltb,
}
use sa_token_rust.Error.{oauth2_code_not_found}
use sa_token_rust.Storage.{SaStorage, StorageLaws}
use sa_token_rust.Dao.{Action, ok_or, lift, ◌>>=◌, take_string}
use sa_token_rust.Dao.Binds.{bind-returns, ok_or-returns, lift-returns}
use sa_token_rust.Dao.Reads.{take_string_lem, live-take_string}
use sa_token_rust.OAuth2.{OAuth2Manager, AuthorizationCode, Crypto, Codecs}
use sa_token_rust.OAuth2.Codes.{code_key, unexpired, consume_authorization_code}

module _ (st : SaStorage) (laws : StorageLaws st) (codecs : Codecs) (crypto : Crypto)
    (self : OAuth2Manager) where
  open laws use {live}

  abbrev consume : String → Action st.State AuthorizationCode
  consume code = consume_authorization_code st codecs crypto self code

  abbrev key : String → String
  key code = code_key st codecs crypto self code

  abbrev from_decode : String → Action st.State AuthorizationCode
  from_decode raw = lift (codecs.code.decode raw) >>= unexpired st codecs crypto self

  -- The code that was returned was stored, has not expired, and is gone.
  abbrev pub Consumed : String → ℕ → st.State → AuthorizationCode → st.State → Type 0
  Consumed code now s auth_code s' =
      (raw : String) × (live (key code) now s ≡ some raw)
      × (codecs.code.decode raw ≡ ok auth_code)
      × (ltb auth_code.expires_at now ≡ false)
      × ((j : String) (t : ℕ)
          → now ≤ t
          → live j t s' ≡ (if key code == j then none else live j t s))

  unexpired-returns :
      (a auth_code : AuthorizationCode) (now : ℕ) (s : st.State)
      → (unexpired st codecs crypto self a now s).0 ≡ ok auth_code
      → (a ≡ auth_code)
        × (ltb auth_code.expires_at now ≡ false)
        × ((unexpired st codecs crypto self a now s).1 ≡ s)
  unfolding unexpired
  unexpired-returns a auth_code now s h = ground arith

  pub consume_authorization_code-returns :
      (code : String) (now : ℕ) (s : st.State) (auth_code : AuthorizationCode)
      → (consume code now s).0 ≡ ok auth_code
      → Consumed code now s auth_code (consume code now s).1
  unfolding consume_authorization_code
  consume_authorization_code-returns code now s auth_code h =
      let (o, took, h₁, e₁) =
        bind-returns (take_string st (key code))
          (λ found. ok_or oauth2_code_not_found found >>= from_decode) now s auth_code h in
      let s₁ = (take_string st (key code) now s).1 in
      let (raw, there, h₂, e₂) =
        ok_or-returns oauth2_code_not_found o from_decode now s₁ auth_code h₁ in
      let (a, read, h₃, e₃) =
        lift-returns (codecs.code.decode raw) (unexpired st codecs crypto self) now s₁ auth_code
          h₂ in
      let (same, fresh, kept) = unexpired-returns a auth_code now s₁ h₃ in
      let step = ap (λ p. p.1) (e₁ ∙ e₂ ∙ e₃) ∙ kept in
      (
        raw,
        sym (take_string_lem st laws (key code) now s o took) ∙ there,
        read ∙ ap ok same,
        fresh,
        λ j t le. ap (live j t) step ∙ live-take_string st laws (key code) j now t s o le took,
      )
