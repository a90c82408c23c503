-- ===== src/TokenRepo.antt =====
-- The token repository: sa-token-core/src/repository/token_repo.rs. A JSON value is of the
-- parameter type `Value`, and serde is the parameter `codec`.
pub mod Bodies
pub mod Mapping
use Prim.Native.Char.{code}
use Prim.Native.String
use sa_token_rust.Common.{
  ℕ, ◌+◌, ◌-◌, ◌/◌, ◌^◌, String, Bool, true, false, Option, none, some, List, [], ◌∷◌, Result, ok,
  err, not, if◌then◌else◌, ◌==◌, leb, eqb,
}
use sa_token_rust.Common.Int.{ℤ, pos, negsuc, is_negative, is_positive, to_ℕ}
use sa_token_rust.Common.Text.{◌<>◌, is_empty}
use sa_token_rust.Error.{
  SaTokenError, SaTokenResult, account_kicked_out, account_replaced, token_not_found, token_expired,
  token_inactive,
}
use sa_token_rust.Config.{SaTokenConfig}
use sa_token_rust.Storage.{SaStorage}
use sa_token_rust.Token.{
  TokenInfo, is_kick_out_marker, is_replaced_marker, is_expired, is_freeze,
  effective_active_timeout, update_active_time, token_map_kick_out, token_map_be_replaced,
}
use sa_token_rust.Keys.{
  login_type_default, token_info, token_id_mapping, login_token, login_token_index,
}
use sa_token_rust.Dao
use sa_token_rust.Dao.{
  Action, pure, throw, with_now, ok_or, ◌>>=◌, ◌>>◌, handle, try, from_secs, add_seconds, Codec,
  SaTokenDao, default_ttl, renew_secs, get_string, set_string, delete, cas, cas_delete,
  list_push_unique, list_remove, list_range, get_object, set_object,
}

pub data TokenIdMapping : Type 0 where
  identity : String → String → TokenIdMapping
  kicked_out replaced : TokenIdMapping

abbrev pub token_id_sep : String
token_id_sep = "\u{1}"

-- `encode_token_id_value`.
unfoldable pub encode_token_id_value : String → String → String
encode_token_id_value login_type login_id = login_type <> token_id_sep <> login_id

-- `split_once(TOKEN_ID_SEP)`.
unfoldable pub split_once : String → Option (String × String)
split_once String.[] = none
split_once (String.◌∷◌ c s) =
    let rest = split_once s in
    if eqb (code c) 1
    then some (String.[], s)
    else elim rest [ none ↦ none | some (a, b) ↦ some (String.◌∷◌ c a, b) ]

or_default : String → String
or_default lt = if is_empty lt then login_type_default else lt

parse_identity : String → Option (String × String) → TokenIdMapping
parse_identity raw none = identity login_type_default raw
parse_identity raw (some (lt, lid)) = identity (or_default lt) lid

unfoldable pub parse_token_id_value : String → TokenIdMapping
unfolding is_kick_out_marker is_replaced_marker split_once parse_identity or_default is_empty
parse_token_id_value raw =
    if is_kick_out_marker raw
    then kicked_out
    else if is_replaced_marker raw
    then replaced
    else parse_identity raw (split_once raw)

pub record TokenRepo : Type 0 where
  pub dao : SaTokenDao
  pub config : SaTokenConfig

module _ (st : SaStorage) where
  unfoldable pub delete_token_info : TokenRepo → String → Action st.State (Unit {0})
  delete_token_info self token = delete st (token_info self.dao.keys token)

  unfoldable pub get_login_mapping : TokenRepo → String → String → Action st.State (Option String)
  get_login_mapping self login_type login_id =
      get_string st (login_token self.dao.keys login_type login_id)

  unfoldable pub save_login_mapping :
      TokenRepo → String → String → String → Action st.State (Unit {0})
  save_login_mapping self login_type login_id token =
      set_string st (login_token self.dao.keys login_type login_id) token (default_ttl self.dao)

  unfoldable pub cas_login_mapping :
      TokenRepo → String → String → Option String → String → Action st.State Bool
  cas_login_mapping self login_type login_id expected new_token =
      cas st (login_token self.dao.keys login_type login_id) expected new_token
        (default_ttl self.dao)

  unfoldable pub delete_login_mapping : TokenRepo → String → String → Action st.State (Unit {0})
  delete_login_mapping self login_type login_id =
      delete st (login_token self.dao.keys login_type login_id)

  unfoldable pub cas_delete_login_mapping :
      TokenRepo → String → String → String → Action st.State Bool
  cas_delete_login_mapping self login_type login_id expected_token =
      cas_delete st (login_token self.dao.keys login_type login_id) expected_token

  unfoldable pub save_token_id_mapping :
      TokenRepo → String → String → String → Action st.State (Unit {0})
  unfolding encode_token_id_value
  save_token_id_mapping self token login_type login_id =
      set_string st (token_id_mapping self.dao.keys token)
        (encode_token_id_value login_type login_id) (default_ttl self.dao)

  unfoldable pub mark_token_id : TokenRepo → String → String → Action st.State (Unit {0})
  mark_token_id self token marker =
      set_string st (token_id_mapping self.dao.keys token) marker (default_ttl self.dao)

  unfoldable pub delete_token_id_mapping : TokenRepo → String → Action st.State (Unit {0})
  delete_token_id_mapping self token = delete st (token_id_mapping self.dao.keys token)

  unfoldable pub append_index : TokenRepo → String → String → String → Action st.State (Unit {0})
  append_index self login_type login_id token = do
    list_push_unique st (login_token_index self.dao.keys login_type login_id) token
        (default_ttl self.dao)
    pure tt

  unfoldable pub remove_index : TokenRepo → String → String → String → Action st.State Bool
  remove_index self login_type login_id token =
      list_remove st (login_token_index self.dao.keys login_type login_id) token

  unfoldable pub replace_index :
      TokenRepo → String → String → String → String → Action st.State (Unit {0})
  replace_index self login_type login_id old_token new_token =
      if old_token == new_token then pure tt else (do
        remove_index self login_type login_id old_token
        append_index self login_type login_id new_token)

  unfoldable pub list_tokens : TokenRepo → String → String → Action st.State (List String)
  list_tokens self login_type login_id =
      list_range st (login_token_index self.dao.keys login_type login_id) 0 none
