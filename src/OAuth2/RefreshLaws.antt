-- ===== src/OAuth2/RefreshLaws.antt =====
-- A refresh token is rotated: what a refresh has checked and what it leaves.
use sa_token_rust.Common.{
  ℕ, ◌≤◌, String, ◌≡◌, ◌≢◌, ap, sym, ◌∙◌, Bool, Option, none, some, ok, arith, ◌==◌, if◌then◌else◌,
  eq_refl, eq_iff, inl, inr, not, Bool-cases,
}
use sa_token_rust.Common.Text.{◌<>◌}
use sa_token_rust.Error.{
  SaTokenError, oauth2_invalid_credentials, oauth2_refresh_token_not_found,
  oauth2_client_id_mismatch,
}
use sa_token_rust.Storage.{SaStorage, StorageLaws}
use sa_token_rust.Dao.{
  Action, pure, throw, ok_or, lift, try, ◌>>=◌, ◌>>◌, take_string, set_string, delete,
}
use sa_token_rust.Dao.Binds.{
  bind-returns, ok_or-returns, lift-returns, handle-returns, guard-returns,
}
use sa_token_rust.Dao.Reads.{take_string_lem, live-take_string, live-delete}
use sa_token_rust.Keys.Categories.{oauth2_token-refresh}
use sa_token_rust.OAuth2.{OAuth2Manager, OAuth2RefreshRecord, AccessToken, Crypto, Codecs, ttl_of}
use sa_token_rust.OAuth2.Clients.{verify_client}
use sa_token_rust.OAuth2.IssueLaws.{generate_access_token-keeps}
use sa_token_rust.OAuth2.ExchangeLaws.{verify_client-IsReadOnly}
use sa_token_rust.OAuth2.Tokens.{
  token_key, refresh_key, generate_access_token, renew, refresh_access_token,
}

module _ (st : SaStorage) (laws : StorageLaws st) (codecs : Codecs) (crypto : Crypto)
    (self : OAuth2Manager) (at_uuid rt_uuid : String) where
  open laws use {live}

  abbrev at_key : String → String
  at_key token = token_key st codecs crypto self token

  abbrev rt_key : String → String
  rt_key token = refresh_key st codecs crypto self token

  -- A renewal that returns leaves the old access token unusable and the other keys alone.
  renew-returns :
      (k raw : String) (old : OAuth2RefreshRecord) (now : ℕ) (s : st.State) (token : AccessToken)
      → (renew st codecs crypto self at_uuid rt_uuid k raw old now s).0 ≡ ok token
      → (j : String) (t : ℕ) → now ≤ t
      → at_key ("at_" <> at_uuid) ≢ j
      → rt_key ("rt_" <> rt_uuid) ≢ j
      → live j t (renew st codecs crypto self at_uuid rt_uuid k raw old now s).1
        ≡ (if at_key old.access_token == j then none else live j t s)
  unfolding renew
  renew-returns k raw old now s token h j t le not_at not_rt =
      let issue =
        generate_access_token st codecs crypto self at_uuid rt_uuid old.client_id old.user_id
          old.scope in
      let drop_old =
        λ (new_token : AccessToken). delete st (at_key old.access_token) >> pure new_token in
      let put_back = λ (e : SaTokenError).
        set_string st k raw (ttl_of self.refresh_token_ttl) >> throw {A = AccessToken} e in
      let (new_token, issued, h₁, e₁) =
        handle-returns issue drop_old put_back now s token (put_back_fails k raw now token) h in
      let s₁ = (issue now s).1 in
      let (u, dropped, h₂, e₂) =
        bind-returns (delete st (at_key old.access_token)) (λ u. pure new_token) now s₁ token h₁ in
      ap (λ p. live j t p.1) (e₁ ∙ e₂)
      ∙ live-delete st laws (at_key old.access_token) j now t s₁ u le dropped
      ∙ ap (λ o. if at_key old.access_token == j then none else o)
          (generate_access_token-keeps st laws codecs crypto self at_uuid rt_uuid old.client_id
            old.user_id old.scope now s new_token issued j t le not_at not_rt)
    where
      put_back_fails :
          (k raw : String) (now : ℕ) (token : AccessToken) (e : SaTokenError) (s' : st.State)
          → ((set_string st k raw (ttl_of self.refresh_token_ttl) >> throw {A = AccessToken} e) now
              s').0
            ≢ ok token
      put_back_fails k raw now token e s' h =
          let (u, a, b, c) =
            bind-returns (set_string st k raw (ttl_of self.refresh_token_ttl))
              (λ u. throw {A = AccessToken} e) now s' token h in
          ground arith

  -- The last part of a refresh, for the record that was read.
  abbrev from_record : String → String → String → OAuth2RefreshRecord → Action st.State AccessToken
  from_record client_id k raw old =
      if not (old.client_id == client_id)
      then try (set_string st k raw (ttl_of self.refresh_token_ttl))
          (throw oauth2_client_id_mismatch)
      else renew st codecs crypto self at_uuid rt_uuid k raw old

  from_record-returns :
      (client_id k raw : String) (old : OAuth2RefreshRecord) (now : ℕ) (s : st.State)
      (token : AccessToken)
      → (from_record client_id k raw old now s).0 ≡ ok token
      → (old.client_id ≡ client_id)
        × ((renew st codecs crypto self at_uuid rt_uuid k raw old now s).0 ≡ ok token)
        × (from_record client_id k raw old now s
            ≡ renew st codecs crypto self at_uuid rt_uuid k raw old now s)
  from_record-returns client_id k raw old now s token h =
      elim (Bool-cases (old.client_id == client_id)) [
        | inl same ↦ ((eq_iff old.client_id client_id).0 same, ground arith, ground arith)
        | inr other ↦ absurd (ground arith)
      ]

  -- What a refresh that returned had found under its token, and what readers find after it. The
  -- texts that were drawn for the new tokens are assumed to be new.
  abbrev pub Rotated : String → String → ℕ → st.State → st.State → Type 0
  Rotated refresh_token client_id now s s' =
      (old : OAuth2RefreshRecord) × (raw : String) × (live (rt_key refresh_token) now s ≡ some raw)
      × (codecs.refresh.decode raw ≡ ok old)
      × (old.client_id ≡ client_id)
      × ((t : ℕ) → now ≤ t → live (rt_key refresh_token) t s' ≡ none)
      × ((t : ℕ)
          → now ≤ t
          → at_key ("at_" <> at_uuid) ≢ at_key old.access_token
          → live (at_key old.access_token) t s' ≡ none)

  -- A refresh that returns, whose new refresh token has another key than the old one, was for a
  -- stored refresh token of the same client, and leaves neither that refresh token nor, unless its
  -- name was drawn again, the access token that came with it.
  pub refresh_access_token-rotates :
      (refresh_token client_id client_secret : String) (now : ℕ) (s : st.State)
      (token : AccessToken)
      → rt_key ("rt_" <> rt_uuid) ≢ rt_key refresh_token
      → (refresh_access_token st codecs crypto self at_uuid rt_uuid refresh_token client_id
          client_secret now s).0
        ≡ ok token
      → Rotated refresh_token client_id now s
          (refresh_access_token st codecs crypto self at_uuid rt_uuid refresh_token client_id
            client_secret now s).1
  unfolding refresh_access_token
  refresh_access_token-rotates refresh_token client_id secret now s token fresh h =
      let k = rt_key refresh_token in
      let from_raw =
        λ (raw : String). lift (codecs.refresh.decode raw) >>= from_record client_id k raw in
      let from_found =
        λ (found : Option String). ok_or oauth2_refresh_token_not_found found >>= from_raw in
      let from_good = λ (good : Bool).
        (if good then pure tt else throw oauth2_invalid_credentials)
        >> (take_string st k >>= from_found) in
      let verify = verify_client st codecs crypto self client_id secret in
      let (good, verified, h₁, e₁) = bind-returns verify from_good now s token h in
      let s₁ = (verify now s).1 in
      let (good_true, h₂, e₂) =
        guard-returns good oauth2_invalid_credentials tt (λ u. take_string st k >>= from_found) now
          s₁ token h₁ in
      let (found, took, h₃, e₃) = bind-returns (take_string st k) from_found now s₁ token h₂ in
      let s₂ = (take_string st k now s₁).1 in
      let (raw, there, h₄, e₄) =
        ok_or-returns oauth2_refresh_token_not_found found from_raw now s₂ token h₃ in
      let (old, read, h₅, e₅) =
        lift-returns (codecs.refresh.decode raw) (from_record client_id k raw) now s₂ token h₄ in
      let (same, h₆, e₆) = from_record-returns client_id k raw old now s₂ token h₅ in
      let step = ap (λ p. p.1) (e₁ ∙ e₂ ∙ e₃ ∙ e₄ ∙ e₅ ∙ e₆) in
      let gone = λ (t : ℕ) (le : now ≤ t). live-take_string st laws k k now t s₁ found le took in
      let after =
        λ (j : String) (t : ℕ) (le : now ≤ t). renew-returns k raw old now s₂ token h₆ j t le in
      (
        old,
        raw,
        sym (
              verify_client-IsReadOnly st laws codecs crypto self client_id secret k now now s
                (omega arith))
            ∙ sym (take_string_lem st laws k now s₁ found took)
            ∙ there,
        read,
        same,
        λ t le.
            ap (live k t) step
            ∙ ground (
              arith,
              after k t le (λ x. oauth2_token-refresh self.dao.keys _ _ x) fresh,
              gone t le,
              eq_refl k,
            ),
        λ t le ne.
            ap (live (at_key old.access_token) t) step
            ∙ ground (
              arith,
              after (at_key old.access_token) t le ne
                  (λ x. oauth2_token-refresh self.dao.keys _ _ (sym x)),
              eq_refl (at_key old.access_token),
            ),
      )
