-- ===== src/Auth/LogoutKeeps.antt =====
-- The steps of a logout after the deletion of the body write other keys only:
-- sa-token-core/src/service/auth_service.rs, in the three-segment layout.
use sa_token_rust.Common.{
  ◌≡◌, ◌≢◌, String, ok, err, sym, ◌∙◌, refl, Option, none, some, Bool, true, false, Bool-cases, inl,
  inr, not, ◌&&◌, eqb,
}
use mathlib.Core.Path.{subst}
use sa_token_rust.Error.{SaTokenResult}
use sa_token_rust.Config.{LogoutMode}
use sa_token_rust.Storage.{SaStorage, StorageLaws}
use sa_token_rust.Storage.Frames.{StorageFrames}
use sa_token_rust.Event.{SaTokenEvent, with_login_type}
use sa_token_rust.Keys.{three_segment, token_info, token_id_mapping, login_token_index, login_token}
use sa_token_rust.Keys.Distinct.{
  token_info-token_id_mapping, token_info-login_token_index, token_info-login_token,
}
use sa_token_rust.Token.{TokenInfo, token_map_kick_out, token_map_be_replaced}
use sa_token_rust.Session.{SaSession}
use sa_token_rust.SessionRepo.{ns, remove_terminal_from, count_terminals, delete_token_session}
use sa_token_rust.SessionRepo.KeepsBodies.{
  remove_terminal_from-Keeps, count_terminals-Keeps, delete_by_ns-Keeps, delete_token_session-Keeps,
}
use sa_token_rust.TokenRepo.{
  mark_token_id, delete_token_id_mapping, remove_index, cas_delete_login_mapping,
}
use sa_token_rust.Auth.{AuthService, Outside, OnlineManager, DistributedSessionManager}
use sa_token_rust.Auth.Logout.{
  mark, drop_empty, drop_terminal, clear_mapping, drop_distributed, mark_offline, logout_event,
  clean_up, drop_token_session, or_value, is_logout, is_replaced,
}
use sa_token_rust.Dao.{Action, pure, try, Codec, SaTokenDao, cas_delete, default_ttl}
use sa_token_rust.Dao.Keeps.{
  Keeps, pure-Keeps, with_now-Keeps, then-Keeps, try-Keeps, set_string-Keeps, delete-Keeps,
  cas_delete-Keeps, list_remove-Keeps,
}

module _ {st : SaStorage} (laws : StorageLaws st) (key : String) where
  abbrev pub KeepsOnline : Option (OnlineManager st.State) → Type 0
  KeepsOnline none = Unit {0}
  KeepsOnline (some o) =
      (lt lid token : String) → Keeps laws key (o.mark_offline_with_type lt lid token)

  abbrev pub KeepsDistributed : Option (DistributedSessionManager st.State) → Type 0
  KeepsDistributed none = Unit {0}
  KeepsDistributed (some dm) =
      (lid token : String) → Keeps laws key (dm.delete_sessions_by_token lid token)

  -- The listeners, the online manager and the distributed sessions leave the key alone.
  pub record KeepsOutside (o : Outside st.State) : Type 0 where
    pub publish : (e : SaTokenEvent) → Keeps laws key (o.publish e)
    pub online : KeepsOnline o.online
    pub distributed : KeepsDistributed o.distributed

module _ {st : SaStorage} (laws : StorageLaws st) (frames : StorageFrames laws) {Value : Type 0}
    (tokens : Codec (TokenInfo Value)) (sessions : Codec (SaSession Value))
    (self : AuthService st.State) (token : String) (same_dao : self.token_repo.dao ≡ self.dao)
    (layout : self.dao.keys.layout ≡ three_segment) where
  open laws use {live}

  abbrev body_key : String
  body_key = token_info self.dao.keys token

  abbrev KeepsBody : {A : Type 0} → Action st.State A → Type 0
  KeepsBody m = Keeps laws body_key m

  nothing : KeepsBody (pure tt)
  nothing = pure-Keeps laws body_key tt

  -- The keys that a logout writes are not the key of a body.
  not_mapping : (other : String) → token_id_mapping self.token_repo.dao.keys other ≢ body_key
  not_mapping other =
      subst (λ (d : SaTokenDao). token_id_mapping d.keys other ≢ body_key) (sym same_dao)
        (token_info-token_id_mapping self.dao.keys layout token other)

  not_index : (lt lid : String) → login_token_index self.token_repo.dao.keys lt lid ≢ body_key
  not_index lt lid =
      subst (λ (d : SaTokenDao). login_token_index d.keys lt lid ≢ body_key) (sym same_dao)
        (token_info-login_token_index self.dao.keys layout token lt lid)

  not_login : (lt lid : String) → login_token self.token_repo.dao.keys lt lid ≢ body_key
  not_login lt lid =
      subst (λ (d : SaTokenDao). login_token d.keys lt lid ≢ body_key) (sym same_dao)
        (token_info-login_token self.dao.keys layout token lt lid)

  pub mark-Keeps :
      (mode : LogoutMode) (other : String) → KeepsBody (mark st tokens sessions self mode other)
  unfolding mark mark_token_id delete_token_id_mapping
  mark-Keeps LogoutMode.logout other = delete-Keeps laws body_key frames _ (not_mapping other)
  mark-Keeps LogoutMode.kick_out other =
      set_string-Keeps laws body_key frames _ token_map_kick_out (default_ttl self.token_repo.dao)
        (not_mapping other)
  mark-Keeps LogoutMode.replaced other =
      set_string-Keeps laws body_key frames _ token_map_be_replaced
        (default_ttl self.token_repo.dao) (not_mapping other)

  pub drop_token_session-Keeps :
      (other : String) (keep : Bool)
      → KeepsBody (drop_token_session st tokens sessions self other keep)
  unfolding drop_token_session
  drop_token_session-Keeps other true = nothing
  drop_token_session-Keeps other false =
      try-Keeps laws body_key (delete_token_session st sessions self.dao other) (pure tt)
        (delete_token_session-Keeps laws frames sessions self.dao layout token other) nothing

  drop_empty-Keeps :
      (mode : LogoutMode) (n : String) (removed : Bool)
      → KeepsBody (drop_empty st tokens sessions self mode n removed)
  unfolding drop_empty
  drop_empty-Keeps mode n false = record { keeps = λ now t s h. refl }
  drop_empty-Keeps mode n true = record {
    keeps = λ now t s h.
        let counted = count_terminals st sessions self.dao n now s in
        let kept =
          (count_terminals-Keeps laws frames sessions self.dao layout token n).keeps now t s h in
        elim (Bool-cases
          (eqb (or_value st tokens sessions 0 counted.0) 0 && not (is_replaced mode))) [
            | inl e ↦ rw e (
                (delete_by_ns-Keeps laws frames sessions self.dao layout token n).keeps now t
                  counted.1 h
                ∙ kept)
            | inr e ↦ rw e kept
          ];
  }

  drop_terminal-Keeps :
      (mode : LogoutMode) (other : String) (n : SaTokenResult String)
      → KeepsBody (drop_terminal st tokens sessions self mode other n)
  unfolding drop_terminal
  drop_terminal-Keeps mode other (err e) = record { keeps = λ now t s h. refl }
  drop_terminal-Keeps mode other (ok n) = record {
    keeps = λ now t s h.
        (drop_empty-Keeps mode n (
            or_value st tokens sessions false
              (remove_terminal_from st sessions self.dao n other now s).0)).keeps
          now t _ h
        ∙ (remove_terminal_from-Keeps laws frames sessions self.dao layout token n other).keeps now
            t s h;
  }

  clear_mapping-Keeps :
      (mode : LogoutMode) (lt lid other : String)
      → KeepsBody (clear_mapping st tokens sessions self mode lt lid other)
  unfolding clear_mapping cas_delete_login_mapping
  clear_mapping-Keeps mode lt lid other = elim (Bool-cases (is_logout mode)) [
    | inl e ↦ rw e (
        try-Keeps laws body_key (cas_delete st (login_token self.token_repo.dao.keys lt lid) other)
          (pure tt) (cas_delete-Keeps laws body_key frames _ other (not_login lt lid)) nothing)
    | inr e ↦ rw e nothing
  ]

  drop_distributed-Keeps :
      (dm : Option (DistributedSessionManager st.State)) (lid other : String)
      → KeepsDistributed laws body_key dm
      → KeepsBody (drop_distributed st tokens sessions dm lid other)
  unfolding drop_distributed
  drop_distributed-Keeps none lid other k = nothing
  drop_distributed-Keeps (some dm) lid other k =
      try-Keeps laws body_key (dm.delete_sessions_by_token lid other) (pure tt) (k lid other)
        nothing

  mark_offline-Keeps :
      (o : Option (OnlineManager st.State)) (lt lid other : String)
      → KeepsOnline laws body_key o
      → KeepsBody (mark_offline st tokens sessions o lt lid other)
  unfolding mark_offline
  mark_offline-Keeps none lt lid other k = nothing
  mark_offline-Keeps (some o) lt lid other k =
      try-Keeps laws body_key (o.mark_offline_with_type lt lid other) (pure tt) (k lt lid other)
        nothing

  pub clean_up-Keeps :
      (mode : LogoutMode) (other : String) (who : Option (String × String))
      → KeepsOutside laws body_key self.outside
      → KeepsBody (clean_up st tokens sessions self mode other who)
  unfolding clean_up remove_index
  clean_up-Keeps mode other none k = nothing
  clean_up-Keeps mode other (some (lt, lid)) k =
      let told =
        with_now-Keeps laws body_key
          (λ now.
            try
              (self.outside.publish
                (with_login_type (logout_event st tokens sessions mode lid other now) lt))
              (pure tt))
          (λ now. try-Keeps laws body_key _ (pure tt) (k.publish _) nothing) in
      try-Keeps laws body_key _ _
        (list_remove-Keeps laws body_key frames _ other (not_index lt lid))
        (then-Keeps laws body_key _ _ (drop_terminal-Keeps mode other (ns lt lid)) (
          then-Keeps laws body_key _ _ (clear_mapping-Keeps mode lt lid other) (
            then-Keeps laws body_key _ _
              (drop_distributed-Keeps self.outside.distributed lid other k.distributed)
              (then-Keeps laws body_key _ _
                (mark_offline-Keeps self.outside.online lt lid other k.online) told))))
