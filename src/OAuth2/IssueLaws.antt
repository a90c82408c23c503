-- ===== src/OAuth2/IssueLaws.antt =====
-- What issuing an access token writes.
use sa_token_rust.Common.{ℕ, ◌≤◌, String, ◌≡◌, ◌≢◌, ap, ◌∙◌, List, ok, arith, eq_iff}
use sa_token_rust.Common.Text.{◌<>◌}
use sa_token_rust.Storage.{SaStorage, StorageLaws}
use sa_token_rust.Dao.{Action, pure, set_object, ◌>>◌}
use sa_token_rust.Dao.Binds.{bind-returns}
use sa_token_rust.Dao.Objects.{set_object-returns}
use sa_token_rust.OAuth2.{OAuth2Manager, AccessToken, Crypto, Codecs, ttl_of}
use sa_token_rust.OAuth2.Tokens.{
  token_key, refresh_key, token_info_of, refresh_record_of, access_token_of, generate_access_token,
}

module _ (st : SaStorage) (laws : StorageLaws st) (codecs : Codecs) (crypto : Crypto)
    (self : OAuth2Manager) (at_uuid rt_uuid client_id user_id : String) (scope : List String) where
  open laws use {live}

  abbrev issue : Action st.State AccessToken
  issue = generate_access_token st codecs crypto self at_uuid rt_uuid client_id user_id scope

  abbrev at_key : String
  at_key = token_key st codecs crypto self ("at_" <> at_uuid)

  abbrev rt_key : String
  rt_key = refresh_key st codecs crypto self ("rt_" <> rt_uuid)

  -- Every key but the two new ones keeps what readers find.
  pub generate_access_token-keeps :
      (now : ℕ) (s : st.State) (token : AccessToken)
      → (issue now s).0 ≡ ok token
      → (j : String) (t : ℕ) → now ≤ t
      → at_key ≢ j
      → rt_key ≢ j
      → live j t (issue now s).1 ≡ live j t s
  unfolding generate_access_token
  generate_access_token-keeps now s token h j t le not_at not_rt =
      let answer =
        pure {S = st.State} (access_token_of st codecs crypto self at_uuid rt_uuid scope) in
      let put_rt =
        set_object st codecs.refresh rt_key
          (refresh_record_of st codecs crypto self at_uuid client_id user_id scope now)
          (ttl_of self.refresh_token_ttl) in
      let put_at =
        set_object st codecs.token at_key
          (token_info_of st codecs crypto self at_uuid rt_uuid client_id user_id scope now)
          (ttl_of self.token_ttl) in
      let (u, first, h₁, e₁) = bind-returns put_at (λ u. put_rt >> answer) now s token h in
      let s₁ = (put_at now s).1 in
      let (v, second, h₂, e₂) = bind-returns put_rt (λ v. answer) now s₁ token h₁ in
      let (raw, written, at_live) =
        set_object-returns st laws codecs.token at_key _ (ttl_of self.token_ttl) now s u first in
      let (raw', written', rt_live) =
        set_object-returns st laws codecs.refresh rt_key _ (ttl_of self.refresh_token_ttl) now s₁ v
          second in
      ap (λ p. live j t p.1) (e₁ ∙ e₂)
      ∙ ground (arith, at_live j t le, rt_live j t le, eq_iff at_key j, eq_iff rt_key j)
