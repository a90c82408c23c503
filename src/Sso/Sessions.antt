-- ===== src/Sso/Sessions.antt =====
-- The session store: sa-token-core/src/sso/session_store.rs.
--
-- Other tasks may write between the read and the compare-and-swap of `upsert_client`: what they do
-- to the storage in each attempt is the argument `others`.
use sa_token_rust.Common.{ℕ, zero, suc, String, Bool, true, false, Option, none, some, List, [], ok}
use sa_token_rust.Error.{SaTokenResult, internal_error}
use sa_token_rust.Storage.{SaStorage}
use sa_token_rust.Keys.{sso_session}
use sa_token_rust.Dao.{
  Action, pure, throw, with_now, lift, ◌>>=◌, ◌>>◌, Codec, SaTokenDao, get_string, get_object,
  delete, cas,
}
use sa_token_rust.Sso.{SsoSession, new_session, add_client}

abbrev pub key : SaTokenDao → String → String
key dao login_id = sso_session dao.keys login_id

-- `session.map(|s| s.clients).unwrap_or_default()`.
abbrev pub clients_of : Option SsoSession → List String
clients_of none = []
clients_of (some session) = session.clients

module _ (st : SaStorage) (codec : Codec SsoSession) where
  unfoldable pub session_of : Option String → String → ℕ → SaTokenResult SsoSession
  unfolding new_session
  session_of none login_id now = ok (new_session login_id now)
  session_of (some raw) login_id now = codec.decode raw

  abbrev pub interfere : (st.State → st.State) → Action st.State (Unit {0})
  interfere f now s = (ok tt, f s)

  -- What follows the compare-and-swap of an attempt.
  unfoldable pub won_or : Action st.State (Unit {0}) → Bool → Action st.State (Unit {0})
  won_or rest true = pure tt
  won_or rest false = rest

  -- The loop, with the attempts that are left.
  unfoldable pub upsert_from :
      (ℕ → st.State → st.State) → ℕ → SaTokenDao → String → String → Action st.State (Unit {0})
  unfolding session_of add_client won_or
  upsert_from others zero dao login_id service =
      throw (internal_error "SSO session CAS retries exhausted")
  upsert_from others (suc n) dao login_id service =
      let rest = upsert_from others n dao login_id service in
      with_now λ now. do
        current ← get_string st (key dao login_id)
        session ← lift (session_of current login_id now)
        new_raw ← lift (codec.encode (add_client service now session))
        interfere (others n)
        won ← cas st (key dao login_id) current new_raw none
        won_or rest won

  unfoldable pub upsert_client :
      (ℕ → st.State → st.State) → SaTokenDao → String → String → Action st.State (Unit {0})
  unfolding upsert_from
  upsert_client others = upsert_from others 8

  unfoldable pub remove : SaTokenDao → String → Action st.State (List String)
  remove dao login_id = do
    session ← get_object st codec (key dao login_id)
    delete st (key dao login_id)
    pure (clients_of session)

  unfoldable pub get : SaTokenDao → String → Action st.State (Option SsoSession)
  get dao login_id = get_object st codec (key dao login_id)
