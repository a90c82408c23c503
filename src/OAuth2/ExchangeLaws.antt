-- ===== src/OAuth2/ExchangeLaws.antt =====
-- What an exchange of an authorization code has checked.
use sa_token_rust.Common.{
  inl, inr, ◌⊎◌, some, none, ℕ, ◌≤◌, String, ◌≡◌, ◌≢◌, refl, sym, ◌∙◌, Bool, true, false, Option,
  ok, arith, if◌then◌else◌, eq_refl,
}
use sa_token_rust.Error.{SaTokenResult, oauth2_invalid_credentials}
use sa_token_rust.Storage.{SaStorage, StorageLaws}
use sa_token_rust.Dao.{Action, pure, throw, lift, ◌>>=◌, ◌>>◌}
use sa_token_rust.Dao.Binds.{bind-returns, lift-returns}
use sa_token_rust.Dao.ReadOnly.{IsReadOnly, bind-IsReadOnly}
use sa_token_rust.OAuth2.{
  OAuth2Manager, OAuth2Client, AuthorizationCode, PkceChallenge, CodeChallengeMethod, s256, plain,
  AccessToken, Crypto, Codecs,
}
use sa_token_rust.OAuth2.Pkce.{verify}
use sa_token_rust.OAuth2.Authenticated.{get_client-IsReadOnly, Authenticated}
use sa_token_rust.OAuth2.Clients.{get_client, check_secret, verify_client}
use sa_token_rust.OAuth2.Codes.{code_key, consume_authorization_code}
use sa_token_rust.OAuth2.CodeLaws.{Consumed, consume_authorization_code-returns}
use sa_token_rust.Keys.Categories.{oauth2_code-token, oauth2_code-refresh}
use sa_token_rust.OAuth2.IssueLaws.{generate_access_token-keeps}
use sa_token_rust.OAuth2.Tokens.{
  authenticate, same_request, public_pkce, verify_sent, is_s256, check_pkce, generate_access_token,
  exchange_code_for_token,
}

module _ (st : SaStorage) (laws : StorageLaws st) (codecs : Codecs) (crypto : Crypto)
    (self : OAuth2Manager) where
  open laws use {live}

  check_secret-IsReadOnly :
      (client : OAuth2Client) (secret : String)
      → IsReadOnly st laws (check_secret st codecs crypto self client secret)
  unfolding check_secret
  check_secret-IsReadOnly client secret j now t s le = ground arith

  pub verify_client-IsReadOnly :
      (id secret : String) → IsReadOnly st laws (verify_client st codecs crypto self id secret)
  unfolding verify_client
  verify_client-IsReadOnly id secret =
      bind-IsReadOnly st laws (get_client st codecs crypto self id)
        (λ client. check_secret st codecs crypto self client secret)
        (get_client-IsReadOnly st laws codecs crypto self id)
        (λ client. check_secret-IsReadOnly client secret)

  accept : Bool → Action st.State (Unit {0})
  accept good = if good then pure tt else throw oauth2_invalid_credentials

  accept-IsReadOnly : (good : Bool) → IsReadOnly st laws (accept good)
  unfolding accept
  accept-IsReadOnly true j now t s le = refl
  accept-IsReadOnly false j now t s le = refl

  authenticate-IsReadOnly :
      (client : OAuth2Client) (id secret : String)
      → IsReadOnly st laws (authenticate st codecs crypto self client id secret)
  unfolding authenticate accept
  authenticate-IsReadOnly client id secret j now t s le = ground (
    arith,
    bind-IsReadOnly st laws (verify_client st codecs crypto self id secret) accept
        (verify_client-IsReadOnly id secret) accept-IsReadOnly j now t s le,
  )

  -- What the last step of an exchange is given.
  abbrev issue : String → String → AuthorizationCode → Action st.State AccessToken
  issue at_uuid rt_uuid auth_code =
      generate_access_token st codecs crypto self at_uuid rt_uuid auth_code.client_id
        auth_code.user_id auth_code.scope

  -- What an exchange that returned has seen, and the state in which it issued the tokens.
  abbrev Checked :
      String
      → String
      → String
      → String
      → Option String
      → ℕ
      → st.State
      → AuthorizationCode
      → st.State
      → Type 0
  Checked code client_id client_secret redirect_uri verifier now s auth_code s' =
      (client : OAuth2Client) × ((get_client st codecs crypto self client_id now s).0 ≡ ok client)
      × ((authenticate st codecs crypto self client client_id client_secret now
            (get_client st codecs crypto self client_id now s).1).0
          ≡ ok tt)
      × Consumed st laws codecs crypto self code now s auth_code s'
      × (same_request st codecs crypto self auth_code client_id redirect_uri ≡ ok tt)
      × (check_pkce st codecs crypto self client auth_code verifier ≡ ok tt)

  exchange-returns :
      (at_uuid rt_uuid code client_id client_secret redirect_uri : String)
      (verifier : Option String) (now : ℕ) (s : st.State) (token : AccessToken)
      → (exchange_code_for_token st codecs crypto self at_uuid rt_uuid code client_id client_secret
          redirect_uri verifier now s).0
        ≡ ok token
      → (auth_code : AuthorizationCode) × (s' : st.State) × Checked code client_id client_secret
          redirect_uri verifier now s auth_code s'
        × ((issue at_uuid rt_uuid auth_code now s').0 ≡ ok token)
        × (exchange_code_for_token st codecs crypto self at_uuid rt_uuid code client_id
              client_secret redirect_uri verifier now s
            ≡ issue at_uuid rt_uuid auth_code now s')
  unfolding exchange_code_for_token
  exchange-returns at_uuid rt_uuid code id secret uri verifier now s token h =
      let from_check_pkce = λ (client : OAuth2Client) (auth_code : AuthorizationCode).
        lift (check_pkce st codecs crypto self client auth_code verifier)
        >> issue at_uuid rt_uuid auth_code in
      let from_same = λ (client : OAuth2Client) (auth_code : AuthorizationCode).
        lift (same_request st codecs crypto self auth_code id uri)
        >> from_check_pkce client auth_code in
      let from_consume = λ (client : OAuth2Client).
        consume_authorization_code st codecs crypto self code >>= from_same client in
      let after_client = λ (client : OAuth2Client).
        authenticate st codecs crypto self client id secret >> from_consume client in
      let (client, found, h₁, e₁) =
        bind-returns (get_client st codecs crypto self id) after_client now s token h in
      let s₁ = (get_client st codecs crypto self id now s).1 in
      let login = authenticate st codecs crypto self client id secret in
      let (u, allowed, h₂, e₂) = bind-returns login (λ u. from_consume client) now s₁ token h₁ in
      let s₂ = (login now s₁).1 in
      let take = consume_authorization_code st codecs crypto self code in
      let (auth_code, consumed, h₃, e₃) = bind-returns take (from_same client) now s₂ token h₂ in
      let s₃ = (take now s₂).1 in
      let (v, same, h₄, e₄) =
        lift-returns (same_request st codecs crypto self auth_code id uri)
          (λ v. from_check_pkce client auth_code) now s₃ token h₃ in
      let (w, proved, h₅, e₅) =
        lift-returns (check_pkce st codecs crypto self client auth_code verifier)
          (λ w. issue at_uuid rt_uuid auth_code) now s₃ token h₄ in
      let (raw, there, read, fresh, gone) =
        consume_authorization_code-returns st laws codecs crypto self code now s₂ auth_code
          consumed in
      let reads = λ (j : String) (t : ℕ) (le : now ≤ t).
        authenticate-IsReadOnly client id secret j now t s₁ le
        ∙ get_client-IsReadOnly st laws codecs crypto self id j now t s le in
      (
        auth_code,
        s₃,
        (
          client,
          found,
          allowed,
          (
            raw,
            sym (reads (code_key st codecs crypto self code) now (omega arith)) ∙ there,
            read,
            fresh,
            λ j t le. ground (arith, gone j t le, reads j t le),
          ),
          same,
          proved,
        ),
        h₅,
        e₁ ∙ e₂ ∙ e₃ ∙ e₄ ∙ e₅,
      )

  sent_ok :
      (pkce : PkceChallenge) (verifier : Option String)
      → pkce.code_challenge_method ≡ s256
      → verify_sent st codecs crypto self pkce verifier ≡ ok tt
      → (pkce' : PkceChallenge) × (v : String) × (some pkce ≡ some pkce')
        × (pkce'.code_challenge_method ≡ s256)
        × (verifier ≡ some v)
        × (verify crypto pkce' v ≡ ok tt)
  unfolding verify_sent
  sent_ok pkce none strong h = absurd (ground arith)
  sent_ok pkce (some v) strong h = (pkce, v, refl, strong, refl, h)

  public_pkce-ok :
      (o : Option PkceChallenge) (verifier : Option String)
      → public_pkce st codecs crypto self o verifier ≡ ok tt
      → (pkce : PkceChallenge) × (v : String) × (o ≡ some pkce)
        × (pkce.code_challenge_method ≡ s256)
        × (verifier ≡ some v)
        × (verify crypto pkce v ≡ ok tt)
  unfolding public_pkce verify_sent is_s256
  public_pkce-ok none verifier h = absurd (ground arith)
  public_pkce-ok (some pkce) verifier h = elim (method-cases pkce.code_challenge_method) [
    | inl strong ↦ sent_ok pkce verifier strong (ground arith)
    | inr weak ↦ absurd (ground arith)
  ]
    where
      method-cases : (m : CodeChallengeMethod) → (m ≡ s256) ⊎ (m ≡ plain)
      method-cases s256 = inl refl
      method-cases plain = inr refl

  check_pkce-public :
      (client : OAuth2Client) (auth_code : AuthorizationCode) (verifier : Option String)
      → client.public_client ≡ true
      → check_pkce st codecs crypto self client auth_code verifier ≡ ok tt
      → public_pkce st codecs crypto self auth_code.pkce verifier ≡ ok tt
  unfolding check_pkce
  check_pkce-public client auth_code verifier is_public h = ground arith

  -- An exchange by a public client that returns an access token was made with a code that carries
  -- an S256 challenge, and with a verifier that the challenge accepts.
  pub exchange_code_for_token-public :
      (at_uuid rt_uuid code client_id client_secret redirect_uri : String)
      (verifier : Option String) (now : ℕ) (s : st.State) (token : AccessToken)
      (client : OAuth2Client)
      → (get_client st codecs crypto self client_id now s).0 ≡ ok client
      → client.public_client ≡ true
      → (exchange_code_for_token st codecs crypto self at_uuid rt_uuid code client_id client_secret
          redirect_uri verifier now s).0
        ≡ ok token
      → (raw : String) × (auth_code : AuthorizationCode) × (pkce : PkceChallenge) × (v : String)
        × (live (code_key st codecs crypto self code) now s ≡ some raw)
        × (codecs.code.decode raw ≡ ok auth_code)
        × (auth_code.pkce ≡ some pkce)
        × (pkce.code_challenge_method ≡ s256)
        × (verifier ≡ some v)
        × (verify crypto pkce v ≡ ok tt)
  exchange_code_for_token-public at_uuid rt_uuid code id secret uri verifier now s token client
        found is_public h =
      let (
        auth_code,
        s',
        (client', found', allowed, (raw, there, read, fresh, gone), same, proved),
        issued,
        e,
      ) =
        exchange-returns at_uuid rt_uuid code id secret uri verifier now s token h in
      let (pkce, v, has, method, sent, good) = public_pkce-ok auth_code.pkce verifier (
        check_pkce-public client auth_code verifier is_public
          (rw (same_client (sym found ∙ found')) proved)) in
      (raw, auth_code, pkce, v, there, read, has, method, sent, good)
    where
      found_client : OAuth2Client → SaTokenResult OAuth2Client
      found_client a = ok a

      same_client : {a b : OAuth2Client} → found_client a ≡ found_client b → a ≡ b
      same_client e = cc

  -- A code that was exchanged is exchanged no second time, by no client and with no request.
  pub exchange_code_for_token-once :
      (at_uuid rt_uuid at_uuid' rt_uuid' code : String) (id secret uri id' secret' uri' : String)
      (verifier verifier' : Option String) (now t : ℕ) (s : st.State) (token token' : AccessToken)
      → now ≤ t
      → (exchange_code_for_token st codecs crypto self at_uuid rt_uuid code id secret uri verifier
          now s).0
        ≡ ok token
      → (exchange_code_for_token st codecs crypto self at_uuid' rt_uuid' code id' secret' uri'
          verifier' t
          (exchange_code_for_token st codecs crypto self at_uuid rt_uuid code id secret uri verifier
            now s).1).0
        ≢ ok token'
  exchange_code_for_token-once at_uuid rt_uuid at_uuid' rt_uuid' code id secret uri id' secret' uri'
        verifier verifier' now t s token token' le first second =
      let (
        auth_code,
        s',
        (client, found, allowed, (raw, there, read, fresh, gone), same, proved),
        issued,
        e,
      ) =
        exchange-returns at_uuid rt_uuid code id secret uri verifier now s token first in
      let (
        auth_code',
        s'',
        (client', found', allowed', (raw', there', read', fresh', gone'), same', proved'),
        issued',
        e',
      ) =
        exchange-returns at_uuid' rt_uuid' code id' secret' uri' verifier' t _ token' second in
      ground (
        arith,
        gone (code_key st codecs crypto self code) t le,
        eq_refl (code_key st codecs crypto self code),
        there',
        e,
        generate_access_token-keeps st laws codecs crypto self at_uuid rt_uuid auth_code.client_id
            auth_code.user_id auth_code.scope now s' token issued
            (code_key st codecs crypto self code) t le
            (λ x. oauth2_code-token self.dao.keys code _ (sym x))
            (λ x. oauth2_code-refresh self.dao.keys code _ (sym x)),
      )
