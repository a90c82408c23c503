-- ===== src/TokenRepo/Bodies.antt =====
-- Token bodies and their checks: sa-token-core/src/repository/token_repo.rs. A JSON value is of the
-- parameter type `Value`, and serde is the parameter `codec`.
use sa_token_rust.Common.{
  ℕ, ◌+◌, ◌-◌, ◌/◌, ◌^◌, String, Bool, true, false, Option, none, some, List, [], ◌∷◌, ok, err, not,
  if◌then◌else◌, leb,
}
use sa_token_rust.Common.Int.{ℤ, is_negative, is_positive, to_ℕ}
use sa_token_rust.Error.{
  SaTokenResult, account_kicked_out, account_replaced, token_not_found, token_expired,
  token_inactive,
}
use sa_token_rust.Storage.{SaStorage}
use sa_token_rust.Token.{
  TokenInfo, is_expired, is_freeze, effective_active_timeout, update_active_time,
}
use sa_token_rust.Keys.{token_info, token_id_mapping, login_token_index}
use sa_token_rust.Dao.{
  Action, pure, throw, with_now, ok_or, ◌>>=◌, ◌>>◌, from_secs, add_seconds, Codec, default_ttl,
  renew_secs, get_string, list_remove, list_range, get_object, set_object,
}
use sa_token_rust.TokenRepo.{
  TokenRepo, TokenIdMapping, identity, kicked_out, replaced, parse_token_id_value,
}

module _ (st : SaStorage) {Value : Type 0} (codec : Codec (TokenInfo Value)) where
  unfoldable pub save_token_info : TokenRepo → TokenInfo Value → Action st.State (Unit {0})
  save_token_info self info =
      set_object st codec (token_info self.dao.keys info.token) info (default_ttl self.dao)

  unfoldable pub get_token_info : TokenRepo → String → Action st.State (Option (TokenInfo Value))
  get_token_info self token = get_object st codec (token_info self.dao.keys token)

  parsed_mapping : Option String → Option TokenIdMapping
  parsed_mapping none = none
  parsed_mapping (some raw) = some (parse_token_id_value raw)

  unfoldable pub get_token_id_mapping : TokenRepo → String → Action st.State (Option TokenIdMapping)
  unfolding parsed_mapping parse_token_id_value
  get_token_id_mapping self token = do
    raw ← get_string st (token_id_mapping self.dao.keys token)
    pure (parsed_mapping raw)

  unfoldable pub refuse_marked : Option TokenIdMapping → Action st.State (Unit {0})
  refuse_marked none = pure tt
  refuse_marked (some (identity lt lid)) = pure tt
  refuse_marked (some kicked_out) = throw account_kicked_out
  refuse_marked (some replaced) = throw account_replaced

  unfoldable pub check_mapping_marker : TokenRepo → String → Action st.State (Unit {0})
  unfolding refuse_marked
  check_mapping_marker self token = do
    mapping ← get_token_id_mapping self token
    refuse_marked mapping

  -- The probe of one indexed token: `true` if it stays. A failed probe keeps it.
  keeps : SaTokenResult (Option (TokenInfo Value)) → Bool
  keeps (ok none) = false
  keeps (ok (some info)) = true
  keeps (err e) = true

  -- The loop of `prune_index`.
  unfoldable pub prune : TokenRepo → String → List String → Action st.State (List String × ℕ)
  unfolding keeps
  prune self key [] now s = (ok ([], 0), s)
  prune self key (t ∷ ts) now s =
      let (found, s') = get_token_info self t now s in
      elim (keeps found) [
        | true ↦ (prune self key ts >>= λ r. pure (t ∷ r.0, r.1)) now s'
        | false ↦
            (prune self key ts >>= λ r. pure (r.0, r.1 + 1)) now (list_remove st key t now s').1
      ]

  unfoldable pub prune_index : TokenRepo → String → String → Action st.State (List String × ℕ)
  unfolding prune
  prune_index self login_type login_id = do
    tokens ← list_range st (login_token_index self.dao.keys login_type login_id) 0 none
    prune self (login_token_index self.dao.keys login_type login_id) tokens

  -- `remaining <= renew_threshold`, for a threshold that is not negative: whole seconds are left.
  near_expiry : ℤ → Option ℕ → ℤ → ℕ → Bool
  near_expiry threshold none active_timeout now = is_positive active_timeout
  near_expiry threshold (some expire) active_timeout now =
      leb ((expire - now) / 10 ^ 9) (to_ℕ threshold)

  unfoldable pub should_auto_renew : TokenRepo → TokenInfo Value → ℕ → Bool
  unfolding near_expiry
  should_auto_renew self info now =
      if not self.config.auto_renew
      then false
      else if is_negative self.config.renew_threshold
      then true
      else near_expiry self.config.renew_threshold info.expire_time self.config.active_timeout now

  -- The body with a new expiry, and its lifetime.
  renewed : TokenRepo → TokenInfo Value → ℕ → TokenInfo Value × Option ℕ
  unfolding update_active_time
  renewed self info now =
      if is_positive (renew_secs self.dao)
      then (
        record (update_active_time info now) {
          expire_time = some (add_seconds now (renew_secs self.dao));
        },
        some (from_secs (to_ℕ (renew_secs self.dao))),
      )
      else (update_active_time info now, none)

  unfoldable pub apply_auto_renew :
      TokenRepo → String → TokenInfo Value → Action st.State (TokenInfo Value)
  unfolding renewed renew_secs from_secs add_seconds
  apply_auto_renew self token info = with_now λ now. do
    set_object st codec (token_info self.dao.keys token) (renewed self info now).0
        (renewed self info now).1
    pure (renewed self info now).0

  -- The checks on a body that was found.
  unfoldable pub check_body : TokenRepo → TokenInfo Value → Action st.State (TokenInfo Value)
  unfolding is_expired is_freeze effective_active_timeout
  check_body self info = with_now λ now.
      if is_expired info now
      then throw token_expired
      else if is_freeze info (effective_active_timeout info self.config) now
      then throw token_inactive
      else pure info

  unfoldable pub load_token_info_no_renew : TokenRepo → String → Action st.State (TokenInfo Value)
  unfolding check_body
  load_token_info_no_renew self token = do
    check_mapping_marker self token
    found ← get_token_info self token
    info ← ok_or token_not_found found
    check_body self info

  unfoldable pub load_valid_token_info : TokenRepo → String → Action st.State (TokenInfo Value)
  unfolding should_auto_renew
  load_valid_token_info self token = do
    info ← load_token_info_no_renew self token
    with_now λ now.
        if should_auto_renew self info now then apply_auto_renew self token info else pure info
