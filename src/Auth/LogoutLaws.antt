-- ===== src/Auth/LogoutLaws.antt =====
-- After a logout, a kick-out or a replacement: sa-token-core/src/service/auth_service.rs, in the
-- three-segment layout.
use sa_token_rust.Common.{
  ℕ, ◌≤◌, ◌≡◌, ◌≢◌, String, ok, arith, sym, ap, ◌∙◌, refl, Option, none, some, Bool, eq_refl,
}
use mathlib.Core.Path.{subst}
use sa_token_rust.Error.{token_not_found}
use sa_token_rust.Config.{LogoutMode}
use sa_token_rust.Storage.{SaStorage, StorageLaws}
use sa_token_rust.Storage.Frames.{StorageFrames}
use sa_token_rust.Keys.{three_segment, token_info}
use sa_token_rust.Token.{TokenInfo}
use sa_token_rust.Session.{SaSession}
use sa_token_rust.TokenRepo.{
  TokenRepo, TokenIdMapping, identity, kicked_out, replaced, delete_token_info,
}
use sa_token_rust.TokenRepo.Bodies.{
  get_token_info, get_token_id_mapping, check_mapping_marker, refuse_marked, check_body,
  load_token_info_no_renew,
}
use sa_token_rust.Auth.{AuthService}
use sa_token_rust.Auth.Logout.{
  resolve_logout_identity, mark, clean_up, drop_token_session, logout_internal,
}
use sa_token_rust.Auth.LogoutKeeps.{
  KeepsOutside, mark-Keeps, drop_token_session-Keeps, clean_up-Keeps,
}
use sa_token_rust.Dao.{Action, ok_or, ◌>>=◌, ◌>>◌, Codec, SaTokenDao, get_string}
use sa_token_rust.Dao.Reads.{live-delete}
use sa_token_rust.Dao.Objects.{get_object-none}
use sa_token_rust.Dao.Binds.{bind-returns, ok_or-returns}
use sa_token_rust.Dao.Keeps.{Keeps, pure-Keeps, bind-Keeps, then-Keeps, get_string-Keeps}

module _ {st : SaStorage} (laws : StorageLaws st) {Value : Type 0}
    (tokens : Codec (TokenInfo Value)) where
  open laws use {live}

  refuse_marked-Keeps :
      (k : String) (m : Option TokenIdMapping) → Keeps laws k (refuse_marked st tokens m)
  unfolding refuse_marked
  refuse_marked-Keeps k none = pure-Keeps laws k tt
  refuse_marked-Keeps k (some (identity lt lid)) = pure-Keeps laws k tt
  refuse_marked-Keeps k (some kicked_out) = record { keeps = λ now t s h. refl }
  refuse_marked-Keeps k (some replaced) = record { keeps = λ now t s h. refl }

  check_mapping_marker-Keeps :
      (k : String) (repo : TokenRepo) (token : String)
      → Keeps laws k (check_mapping_marker st tokens repo token)
  unfolding check_mapping_marker get_token_id_mapping
  check_mapping_marker-Keeps k repo token =
      bind-Keeps laws k (get_token_id_mapping st tokens repo token) (refuse_marked st tokens)
        (bind-Keeps laws k (get_string st _) _ (get_string-Keeps laws k _)
          (λ raw. pure-Keeps laws k _))
        (λ m. refuse_marked-Keeps k m)

  abbrev found_or_not : TokenRepo → String → Action st.State (TokenInfo Value)
  found_or_not repo token = get_token_info st tokens repo token >>= λ found.
      ok_or token_not_found found >>= check_body st tokens repo

  -- Without a body no check passes.
  unloadable :
      (repo : TokenRepo) (token : String) (t : ℕ) (s : st.State) (info : TokenInfo Value)
      → live (token_info repo.dao.keys token) t s ≡ none
      → (load_token_info_no_renew st tokens repo token t s).0 ≢ ok info
  unfolding load_token_info_no_renew get_token_info
  unloadable repo token t s info gone h =
      let k = token_info repo.dao.keys token in
      let (u, e, rest, same) =
        bind-returns (check_mapping_marker st tokens repo token) (λ _. found_or_not repo token) t s
          info h in
      let s' = (check_mapping_marker st tokens repo token t s).1 in
      let (found, e', rest', same') =
        bind-returns (get_token_info st tokens repo token)
          (λ found. ok_or token_not_found found >>= check_body st tokens repo) t s' info rest in
      let kept = (check_mapping_marker-Keeps k repo token).keeps t t s (ground arith) in
      let empty = get_object-none st laws tokens k t s' found (kept ∙ gone) e' in
      let (body, there, last, same'') =
        ok_or-returns token_not_found found (check_body st tokens repo) t
          (get_token_info st tokens repo token t s').1 info rest' in
      absurd (ground arith)

module _ {st : SaStorage} (laws : StorageLaws st) (frames : StorageFrames laws) {Value : Type 0}
    (tokens : Codec (TokenInfo Value)) (sessions : Codec (SaSession Value))
    (self : AuthService st.State) (token : String) (same_dao : self.token_repo.dao ≡ self.dao)
    (layout : self.dao.keys.layout ≡ three_segment) where
  open laws use {live}

  abbrev body_key : String
  body_key = token_info self.dao.keys token

  -- What follows the deletion.
  abbrev afterwards : LogoutMode → Bool → Option (String × String) → Action st.State (Unit {0})
  afterwards mode keep who =
      drop_token_session st tokens sessions self token keep
      >> (mark st tokens sessions self mode token
          >> clean_up st tokens sessions self mode token who)

  afterwards-Keeps :
      (mode : LogoutMode) (keep : Bool) (who : Option (String × String))
      → KeepsOutside laws body_key self.outside
      → Keeps laws body_key (afterwards mode keep who)
  afterwards-Keeps mode keep who k =
      then-Keeps laws body_key _ _
        (drop_token_session-Keeps laws frames tokens sessions self token same_dao layout token keep)
        (then-Keeps laws body_key _ _
          (mark-Keeps laws frames tokens sessions self token same_dao layout mode token)
          (clean_up-Keeps laws frames tokens sessions self token same_dao layout mode token who k))

  deleted :
      (now t : ℕ) (s : st.State) (u : Unit {0})
      → now ≤ t
      → (delete_token_info st self.token_repo token now s).0 ≡ ok u
      → live body_key t (delete_token_info st self.token_repo token now s).1 ≡ none
  unfolding delete_token_info
  deleted now t s u h e =
      let same : token_info self.token_repo.dao.keys token ≡ body_key =
        ap (λ (d : SaTokenDao). token_info d.keys token) same_dao in
      let found = eq_refl body_key in
      let written =
        live-delete st laws (token_info self.token_repo.dao.keys token) body_key now t s u h e in
      ground arith

  -- The deletion clears the key, and what follows keeps it so.
  logout_internal-gone :
      (mode : LogoutMode) (keep : Bool) (now t : ℕ) (s : st.State) (u : Unit {0})
      → KeepsOutside laws body_key self.outside
      → now ≤ t
      → (logout_internal st tokens sessions self token mode keep now s).0 ≡ ok u
      → live body_key t (logout_internal st tokens sessions self token mode keep now s).1 ≡ none
  unfolding logout_internal
  logout_internal-gone mode keep now t s u k h e =
      let resolve = resolve_logout_identity st tokens sessions self token in
      let del = delete_token_info st self.token_repo token in
      let (who, e1, rest, same) =
        bind-returns resolve (λ who. del >> afterwards mode keep who) now s u e in
      let s1 = (resolve now s).1 in
      let (v, e2, rest', same') = bind-returns del (λ _. afterwards mode keep who) now s1 u rest in
      ap (λ r. live body_key t r.1) (same ∙ same')
      ∙ (afterwards-Keeps mode keep who k).keeps now t (del now s1).1 h
      ∙ deleted now t s1 v h e2

  -- Once a token is logged out, kicked out or replaced, no later check of it passes: in the
  -- three-segment key layout, if the listeners, the online manager and the distributed sessions leave
  -- the key of its body alone, and the two repositories share their data access.
  pub logout_internal-invalid :
      (mode : LogoutMode) (keep : Bool) (now t : ℕ) (s : st.State) (u : Unit {0})
      (info : TokenInfo Value)
      → KeepsOutside laws (token_info self.dao.keys token) self.outside
      → now ≤ t
      → (logout_internal st tokens sessions self token mode keep now s).0 ≡ ok u
      → (load_token_info_no_renew st tokens self.token_repo token t
          (logout_internal st tokens sessions self token mode keep now s).1).0
        ≢ ok info
  logout_internal-invalid mode keep now t s u info k h e =
      unloadable laws tokens self.token_repo token t _ info (
        subst
          (λ (d : SaTokenDao).
            live (token_info d.keys token) t
              (logout_internal st tokens sessions self token mode keep now s).1
            ≡ none)
          (sym same_dao) (logout_internal-gone mode keep now t s u k h e))
