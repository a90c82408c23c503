-- ===== src/OAuth2/Authenticated.antt =====
-- What the checks of an exchange establish: a client's authentication and a proof key.
use sa_token_rust.Common.{
  ℕ, ◌≤◌, String, ◌≡◌, ◌⊎◌, inl, inr, ap, ◌∙◌, refl, Bool, true, false, Option, none, some, ok,
  arith, length, if◌then◌else◌, is_some, Bool-cases, Result-cases, ◌||◌,
}
use sa_token_rust.Error.{oauth2_client_not_found, oauth2_invalid_credentials}
use sa_token_rust.Storage.{SaStorage, StorageLaws}
use sa_token_rust.Memory.Shard.{bytes}
use sa_token_rust.Memory.Shard.Bytes.{ct_eq-bytes_iff}
use sa_token_rust.HttpBasic.{ct_eq}
use sa_token_rust.Keys.{oauth2_client}
use sa_token_rust.Dao.{Action, pure, throw, ok_or, ◌>>=◌, get_object}
use sa_token_rust.Dao.Binds.{bind-returns, ok_or-returns}
use sa_token_rust.Dao.Objects.{get_object-some}
use sa_token_rust.Dao.ReadOnly.{
  IsReadOnly, bind-IsReadOnly, get_object-IsReadOnly, ok_or-IsReadOnly,
}
use sa_token_rust.OAuth2.{
  OAuth2Manager, OAuth2Client, AuthorizationCode, PkceChallenge, CodeChallengeMethod, s256, plain,
  Crypto, Codecs, StoredClient, restored,
}
use sa_token_rust.OAuth2.Pkce.{validate_verifier_len, computed, verify, is_hashed}
use sa_token_rust.OAuth2.Clients.{get_client, check_secret, verify_client}
use sa_token_rust.OAuth2.Tokens.{
  authenticate, public_pkce, confidential_pkce, verify_sent, is_s256, check_pkce,
}

module _ (crypto : Crypto) where
  -- The verifier has 43 to 128 bytes, and its challenge, or itself, is the one that was sent before.
  abbrev pub Proves : PkceChallenge → String → Type 0
  Proves pkce v =
      (43 ≤ length (bytes v))
      × (length (bytes v) ≤ 128)
      × (((pkce.code_challenge_method ≡ s256) × (crypto.challenge v ≡ pkce.code_challenge))
          ⊎ ((pkce.code_challenge_method ≡ plain) × (v ≡ pkce.code_challenge)))

  verifier_len :
      (v : String)
      → validate_verifier_len v ≡ ok tt
      → (43 ≤ length (bytes v)) × (length (bytes v) ≤ 128)
  unfolding validate_verifier_len
  verifier_len v h = ground arith

  challenged :
      (m : CodeChallengeMethod) (c v : String)
      → computed crypto m v ≡ c
      → ((m ≡ s256) × (crypto.challenge v ≡ c)) ⊎ ((m ≡ plain) × (v ≡ c))
  unfolding computed
  challenged s256 c v h = inl (refl, h)
  challenged plain c v h = inr (refl, h)

  pub verify-Proves :
      (pkce : PkceChallenge) (v : String) → verify crypto pkce v ≡ ok tt → Proves pkce v
  unfolding verify
  verify-Proves pkce v h = elim (Result-cases (validate_verifier_len v)) [
    | inl (u, fits) ↦
        let (low, high) = verifier_len v fits in
        let same : ct_eq (bytes (computed crypto pkce.code_challenge_method v))
              (bytes pkce.code_challenge)
            ≡ true =
          ground arith in
        (
          low,
          high,
          challenged pkce.code_challenge_method pkce.code_challenge v
              ((ct_eq-bytes_iff _ _).0 same),
        )
    | inr (e, short) ↦ absurd (ground arith)
  ]

module _ (st : SaStorage) (laws : StorageLaws st) (codecs : Codecs) (crypto : Crypto)
    (self : OAuth2Manager) where
  open laws use {live}

  pub get_client-IsReadOnly :
      (id : String) → IsReadOnly st laws (get_client st codecs crypto self id)
  unfolding get_client
  get_client-IsReadOnly id =
      bind-IsReadOnly st laws (get_object st codecs.client (oauth2_client self.dao.keys id))
        (λ found. do kept ← ok_or oauth2_client_not_found found; pure (restored kept))
        (get_object-IsReadOnly st laws codecs.client (oauth2_client self.dao.keys id))
        (λ found.
          bind-IsReadOnly st laws (ok_or oauth2_client_not_found found)
            (λ kept. pure (restored kept)) (ok_or-IsReadOnly st laws oauth2_client_not_found found)
            (λ kept j at t s le. refl))

  -- The client is the one that is stored under its id.
  abbrev pub Registered : String → ℕ → st.State → OAuth2Client → Type 0
  Registered id now s client =
      (raw : String) × (kept : StoredClient) × (live (oauth2_client self.dao.keys id) now s
        ≡ some raw)
      × (codecs.client.decode raw ≡ ok kept)
      × (client ≡ restored kept)

  pub get_client-Registered :
      (id : String) (now : ℕ) (s : st.State) (client : OAuth2Client)
      → (get_client st codecs crypto self id now s).0 ≡ ok client
      → Registered id now s client
  unfolding get_client
  get_client-Registered id now s client h =
      let key = oauth2_client self.dao.keys id in
      let (found, read, h₁, same) =
        bind-returns (get_object st codecs.client key)
          (λ found. do kept ← ok_or oauth2_client_not_found found; pure (restored kept)) now s
          client h in
      let (kept, there, h₂, same') =
        ok_or-returns oauth2_client_not_found found (λ kept. pure (restored kept)) now
          (get_object st codecs.client key now s).1 client h₁ in
      let (raw, is_live, decoded) =
        get_object-some st laws codecs.client key now s kept (read ∙ ap ok there) in
      (raw, kept, is_live, decoded, ground arith)

  Registered-unique :
      (id : String) (now : ℕ) (s : st.State) (a b : OAuth2Client)
      → Registered id now s a
      → Registered id now s b
      → a ≡ b
  Registered-unique id now s a b (raw, kept, there, read, same)
        (raw', kept', there', read', same') =
      cc

  -- The secret is the one whose hash is stored, or a stored plain one where these are allowed.
  abbrev pub KnowsSecret : OAuth2Client → String → Type 0
  KnowsSecret client secret =
      ((is_hashed client.client_secret_hash ≡ true)
        × (crypto.verify_password secret client.client_secret_hash ≡ ok true))
      ⊎ ((is_hashed client.client_secret_hash ≡ false)
          × (self.allow_legacy_plain_secret ≡ true)
          × (secret ≡ client.client_secret_hash))

  abbrev pub Authenticated : OAuth2Client → String → Type 0
  Authenticated client secret =
      (client.public_client ≡ true) ⊎ ((client.public_client ≡ false) × KnowsSecret client secret)

  check_secret-cases :
      (client : OAuth2Client) (secret : String) (now : ℕ) (s : st.State)
      → (check_secret st codecs crypto self client secret now s).0 ≡ ok true
      → Authenticated client secret
  unfolding check_secret
  check_secret-cases client secret now s h = elim (Bool-cases client.public_client) [
    | inl open_client ↦ inl open_client
    | inr closed ↦ elim (Bool-cases (is_hashed client.client_secret_hash)) [
      | inl hashed ↦ inr (closed, inl (hashed, ground arith))
      | inr legacy ↦
          let same : ct_eq (bytes secret) (bytes client.client_secret_hash) ≡ true = ground arith in
          inr (closed, inr (legacy, ground arith, (ct_eq-bytes_iff _ _).0 same))
    ]
  ]

  verify_client-Authenticated :
      (id secret : String) (client : OAuth2Client) (now : ℕ) (s : st.State)
      → Registered id now s client
      → (verify_client st codecs crypto self id secret now s).0 ≡ ok true
      → Authenticated client secret
  unfolding verify_client
  verify_client-Authenticated id secret client now s registered h =
      let (again, found, checked, same) =
        bind-returns (get_client st codecs crypto self id)
          (λ c. check_secret st codecs crypto self c secret) now s true h in
      let is_client =
        Registered-unique id now s again client (get_client-Registered id now s again found)
          registered in
      check_secret-cases client secret now _ (rw is_client at checked)

  accept : Bool → Action st.State (Unit {0})
  accept good = if good then pure tt else throw oauth2_invalid_credentials

  accepted : (good : Bool) (now : ℕ) (s : st.State) → (accept good now s).0 ≡ ok tt → good ≡ true
  unfolding accept
  accepted true now s h = refl
  accepted false now s h = absurd (ground arith)

  pub authenticate-Authenticated :
      (client : OAuth2Client) (id secret : String) (now : ℕ) (s : st.State)
      → Registered id now s client
      → (authenticate st codecs crypto self client id secret now s).0 ≡ ok tt
      → Authenticated client secret
  unfolding authenticate accept
  authenticate-Authenticated client id secret now s registered h =
      elim (Bool-cases client.public_client) [
        | inl open_client ↦ inl open_client
        | inr closed ↦
            let (good, verified, rest, same) =
              bind-returns (verify_client st codecs crypto self id secret) accept now s tt
                (rw closed at h) in
            let yes = accepted good now _ rest in
            verify_client-Authenticated id secret client now s registered (rw yes at verified)
      ]

  -- The proof key that an exchange needs: none of a confidential client where neither the manager
  -- nor the code asks for one, and else one that the code's challenge accepts, by S256 from a public
  -- client.
  abbrev pub KeyProved : OAuth2Client → AuthorizationCode → Option String → Type 0
  KeyProved client auth_code verifier =
      ((client.public_client ≡ false) × (self.require_pkce ≡ false) × (auth_code.pkce ≡ none))
      ⊎ ((pkce : PkceChallenge) × (v : String) × (auth_code.pkce ≡ some pkce)
          × (verifier ≡ some v)
          × Proves crypto pkce v
          × ((client.public_client ≡ false) ⊎ (pkce.code_challenge_method ≡ s256)))

  -- A verifier was sent, and the challenge accepts it.
  abbrev Sent : PkceChallenge → Option String → Type 0
  Sent pkce verifier = (v : String) × (verifier ≡ some v) × Proves crypto pkce v

  verify_sent-Proves :
      (pkce : PkceChallenge) (verifier : Option String)
      → verify_sent st codecs crypto self pkce verifier ≡ ok tt
      → Sent pkce verifier
  unfolding verify_sent
  verify_sent-Proves pkce none h = absurd (ground arith)
  verify_sent-Proves pkce (some v) h = (v, refl, verify-Proves crypto pkce v h)

  strong : (m : CodeChallengeMethod) → is_s256 st codecs crypto self m ≡ true → m ≡ s256
  unfolding is_s256
  strong s256 h = refl
  strong plain h = absurd (ground arith)

  public-Proves :
      (o : Option PkceChallenge) (verifier : Option String)
      → public_pkce st codecs crypto self o verifier ≡ ok tt
      → (pkce : PkceChallenge) × (o ≡ some pkce)
        × Sent pkce verifier
        × (pkce.code_challenge_method ≡ s256)
  unfolding public_pkce
  public-Proves none verifier h = absurd (ground arith)
  public-Proves (some pkce) verifier h = (
    pkce,
    refl,
    verify_sent-Proves pkce verifier (ground arith),
    strong pkce.code_challenge_method (ground arith),
  )

  confidential-Proves :
      (o : Option PkceChallenge) (verifier : Option String)
      → confidential_pkce st codecs crypto self o verifier ≡ ok tt
      → (pkce : PkceChallenge) × (o ≡ some pkce) × Sent pkce verifier
  unfolding confidential_pkce
  confidential-Proves none verifier h = absurd (ground arith)
  confidential-Proves (some pkce) verifier h = (pkce, refl, verify_sent-Proves pkce verifier h)

  no_key : (o : Option PkceChallenge) → is_some o ≡ false → o ≡ none
  no_key none h = refl
  no_key (some pkce) h = absurd (ground arith)

  pub check_pkce-KeyProved :
      (client : OAuth2Client) (auth_code : AuthorizationCode) (verifier : Option String)
      → check_pkce st codecs crypto self client auth_code verifier ≡ ok tt
      → KeyProved client auth_code verifier
  unfolding check_pkce
  check_pkce-KeyProved client auth_code verifier h = elim (Bool-cases client.public_client) [
    | inl open_client ↦
        let (pkce, has, (v, sent, good), s) =
          public-Proves auth_code.pkce verifier (rw open_client at h) in
        inr (pkce, v, has, sent, good, inr s)
    | inr closed ↦ elim (Bool-cases (self.require_pkce || is_some auth_code.pkce)) [
      | inl asked ↦
          let (pkce, has, (v, sent, good)) =
            confidential-Proves auth_code.pkce verifier (rw (closed, asked) at h) in
          inr (pkce, v, has, sent, good, inl closed)
      | inr free ↦ inl (closed, ground arith, no_key auth_code.pkce (ground arith))
    ]
  ]
