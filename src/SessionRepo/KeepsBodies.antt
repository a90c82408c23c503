-- ===== src/SessionRepo/KeepsBodies.antt =====
-- The session repository leaves the bodies of tokens alone: sa-token-core/src/repository/session_repo.rs,
-- in the three-segment layout.
use sa_token_rust.Common.{◌≡◌, ◌≢◌, String, sym, ap, Option, none, some, true, false}
use mathlib.Core.Path.{subst}
use sa_token_rust.Storage.{SaStorage, StorageLaws}
use sa_token_rust.Storage.Frames.{StorageFrames}
use sa_token_rust.Keys.{three_segment, build_global, token_info}
use sa_token_rust.Keys.Distinct.{token_info-session, token_info-token_session, session_by_ns-three}
use sa_token_rust.Session.{SaSession, SaTerminalInfo, remove_terminal, new, terminal_count}
use sa_token_rust.SessionRepo.{
  key_err, account_session_key, or_new, get_by_ns, save_by_ns, delete_by_ns, save_removed,
  remove_terminal_from, count_terminals, delete_token_session,
}
use sa_token_rust.Dao.{
  Action, pure, lift, ◌>>=◌, Codec, SaTokenDao, default_ttl, delete, get_object, set_object,
}
use sa_token_rust.Dao.Keeps.{
  Keeps, pure-Keeps, with_now-Keeps, bind-Keeps, then-Keeps, delete-Keeps, set_object-Keeps,
  get_object-Keeps,
}

module _ {st : SaStorage} (laws : StorageLaws st) (frames : StorageFrames laws) {Value : Type 0}
    (codec : Codec (SaSession Value)) (dao : SaTokenDao) (layout : dao.keys.layout ≡ three_segment)
    (token : String) where
  abbrev key : String
  key = token_info dao.keys token

  abbrev session_key : String → String
  session_key n = build_global dao.keys "session" n none

  account_session_key-three :
      (n : String) → account_session_key st codec dao n ≡ pure (session_key n)
  unfolding account_session_key key_err
  account_session_key-three n =
      ap (λ r. lift {S = st.State} (key_err r)) (session_by_ns-three dao.keys layout n)

  session_key-ne : (n : String) → session_key n ≢ key
  session_key-ne n =
      token_info-session dao.keys layout token n (session_key n)
        (session_by_ns-three dao.keys layout n)

  -- What goes on with the session's key.
  with_key-Keeps :
      {A : Type 0} (n : String) (f : String → Action st.State A)
      → Keeps laws key (f (session_key n))
      → Keeps laws key (account_session_key st codec dao n >>= f)
  with_key-Keeps n f k =
      subst (λ (m : Action st.State String). Keeps laws key (m >>= f))
        (sym (account_session_key-three n)) (record { keeps = k.keeps })

  or_new-Keeps : (n : String) (o : Option (SaSession Value)) → Keeps laws key (or_new st codec n o)
  unfolding or_new
  or_new-Keeps n none = with_now-Keeps laws key _ (λ now. pure-Keeps laws key (new n now))
  or_new-Keeps n (some session) = pure-Keeps laws key session

  pub get_by_ns-Keeps : (n : String) → Keeps laws key (get_by_ns st codec dao n)
  unfolding get_by_ns
  get_by_ns-Keeps n =
      with_key-Keeps n (λ k. get_object st codec k >>= or_new st codec n)
        (bind-Keeps laws key (get_object st codec (session_key n)) (or_new st codec n)
          (get_object-Keeps laws key codec (session_key n)) (or_new-Keeps n))

  save_by_ns-Keeps :
      (n : String) (session : SaSession Value) → Keeps laws key (save_by_ns st codec dao n session)
  unfolding save_by_ns
  save_by_ns-Keeps n session =
      with_key-Keeps n (λ k. set_object st codec k session (default_ttl dao))
        (set_object-Keeps laws key frames codec (session_key n) session (default_ttl dao)
          (session_key-ne n))

  pub delete_by_ns-Keeps : (n : String) → Keeps laws key (delete_by_ns st codec dao n)
  unfolding delete_by_ns
  delete_by_ns-Keeps n =
      with_key-Keeps n (λ k. delete st k)
        (delete-Keeps laws key frames (session_key n) (session_key-ne n))

  save_removed-Keeps :
      (n : String) (r : Option (SaTerminalInfo Value) × SaSession Value)
      → Keeps laws key (save_removed st codec dao n r)
  unfolding save_removed
  save_removed-Keeps n (none, session) = pure-Keeps laws key false
  save_removed-Keeps n (some t, session) =
      then-Keeps laws key (save_by_ns st codec dao n session) (pure true)
        (save_by_ns-Keeps n session) (pure-Keeps laws key true)

  pub remove_terminal_from-Keeps :
      (n other : String) → Keeps laws key (remove_terminal_from st codec dao n other)
  unfolding remove_terminal_from
  remove_terminal_from-Keeps n other =
      bind-Keeps laws key (get_by_ns st codec dao n)
        (λ session. save_removed st codec dao n (remove_terminal session other)) (get_by_ns-Keeps n)
        (λ session. save_removed-Keeps n (remove_terminal session other))

  pub count_terminals-Keeps : (n : String) → Keeps laws key (count_terminals st codec dao n)
  unfolding count_terminals
  count_terminals-Keeps n =
      bind-Keeps laws key (get_by_ns st codec dao n) (λ session. pure (terminal_count session))
        (get_by_ns-Keeps n) (λ session. pure-Keeps laws key (terminal_count session))

  pub delete_token_session-Keeps :
      (other : String) → Keeps laws key (delete_token_session st codec dao other)
  unfolding delete_token_session
  delete_token_session-Keeps other =
      delete-Keeps laws key frames _ (token_info-token_session dao.keys layout token other)
