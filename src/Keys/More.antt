-- ===== src/Keys/More.antt =====
-- The keys of sessions by namespace, grants, refresh tokens and online users, and the scan patterns
-- with the parsing of keys: sa-token-core/src/keys.rs.
use sa_token_rust.Common.{String, Bool, true, Option, none, some, Result, ok, err, if◌then◌else◌}
use sa_token_rust.Common.Text.{◌<>◌, strip_prefix}
use sa_token_rust.Common.Decimal.{print_ℕ}
use sa_token_rust.Keys.{
  SaKeys, SaKeyLayout, three_segment, java_four_segment, KeyError, empty_login_id,
  login_id_too_long, namespaced_id_unsupported_by_layout, build_global, build_account,
  is_default_login_type, or_login, login_token,
}

-- The `Display` text of a key error.
unfoldable pub to_string : KeyError → String
unfolding print_ℕ
to_string empty_login_id = "login_id must not be empty"
to_string (login_id_too_long actual max) =
    "login_id is too long: "
    <> print_ℕ actual
    <> " bytes exceeds the maximum of "
    <> print_ℕ max
    <> " bytes"
to_string (namespaced_id_unsupported_by_layout api) =
    api <> " requires SaKeyLayout::ThreeSegment; use the (login_type, login_id) variant instead"

unfoldable pub from_ns : SaKeyLayout → SaKeys → String → String → String → Result KeyError String
from_ns three_segment keys category ns api = ok (build_global keys category ns none)
from_ns java_four_segment keys category ns api = err (namespaced_id_unsupported_by_layout api)

unfoldable pub build_from_ns : SaKeys → String → String → String → Result KeyError String
unfolding from_ns build_global
build_from_ns keys category ns api = from_ns keys.layout keys category ns api

prefix_of : SaKeyLayout → SaKeys → String → Option String → String
prefix_of three_segment keys category login_type = keys.root <> category <> ":"
prefix_of java_four_segment keys category login_type =
    keys.root <> ":" <> or_login login_type <> ":" <> category <> ":"

unfoldable pub category_prefix : SaKeys → String → Option String → String
unfolding prefix_of or_login
category_prefix keys category login_type = prefix_of keys.layout keys category login_type

disable_from_ns : SaKeyLayout → SaKeys → String → String → Result KeyError String
disable_from_ns three_segment keys ns service =
    ok (build_global keys "disable" ns none <> ":" <> service)
disable_from_ns java_four_segment keys ns service =
    err (namespaced_id_unsupported_by_layout "SaKeys::disable_by_ns")

default_type : Option String → Bool
default_type none = true
default_type (some lt) = is_default_login_type lt

module _ (keys : SaKeys) where
  unfoldable pub session_by_ns : String → Result KeyError String
  session_by_ns ns = build_from_ns keys "session" ns "SaKeys::session_by_ns"

  unfoldable pub refresh_user_index_by_ns : String → Result KeyError String
  refresh_user_index_by_ns ns =
      build_from_ns keys "refresh:user" ns "SaKeys::refresh_user_index_by_ns"

  unfoldable pub disable_by_ns : String → String → Result KeyError String
  unfolding disable_from_ns build_global
  disable_by_ns ns service = disable_from_ns keys.layout keys ns service

  unfoldable pub token_session_with_type : String → String → String
  unfolding build_global
  token_session_with_type login_type token =
      build_global keys "token-session" token (some login_type)

  unfoldable pub last_active_with_type : String → String → String
  unfolding build_global
  last_active_with_type login_type token = build_global keys "last-active" token (some login_type)

  unfoldable pub sso_login_token : String → String → String
  unfolding login_token
  sso_login_token login_type login_id = login_token keys login_type login_id

  unfoldable pub permission : String → String → String
  unfolding build_account
  permission login_type login_id = build_account keys "permission" login_type login_id

  unfoldable pub role : String → String → String
  unfolding build_account
  role login_type login_id = build_account keys "role" login_type login_id

  unfoldable pub refresh : String → String
  unfolding build_global
  refresh refresh_token = build_global keys "refresh" refresh_token none

  unfoldable pub refresh_user_index : String → String → String
  unfolding build_account
  refresh_user_index login_type login_id = build_account keys "refresh:user" login_type login_id

  unfoldable pub token_info_with_type : String → String → String
  unfolding build_global
  token_info_with_type login_type token = build_global keys "token" token (some login_type)

  unfoldable pub last_active : String → String
  unfolding build_global
  last_active token = build_global keys "last-active" token none

  unfoldable pub online : String → String → String
  unfolding build_global
  online login_id token = build_global keys "online" login_id none <> ":" <> token

  unfoldable pub online_with_type : String → String → String → String
  unfolding build_account
  online_with_type login_type login_id token =
      build_account keys "online" login_type login_id <> ":" <> token

  unfoldable pub online_index : String → String
  unfolding build_global
  online_index login_id = build_global keys "online:index" login_id none

  unfoldable pub online_index_with_type : String → String → String
  unfolding build_account
  online_index_with_type login_type login_id = build_account keys "online:index" login_type login_id

  unfoldable pub online_users_set : String
  unfolding build_global
  online_users_set = build_global keys "online" "users" none

  unfoldable pub distributed_session : String → String
  unfolding build_global
  distributed_session session_id = build_global keys "dsession" session_id none

  unfoldable pub distributed_session_index : String → String
  unfolding build_global
  distributed_session_index login_id = build_global keys "dsession:index" login_id none

  unfoldable pub distributed_service : String → String
  unfolding build_global
  distributed_service service_id = build_global keys "dservice" service_id none

  unfoldable pub token_key_prefix : Option String → String
  token_key_prefix login_type = category_prefix keys "token" login_type

  unfoldable pub token_scan_pattern : Option String → String
  token_scan_pattern login_type = token_key_prefix login_type <> "*"

  unfoldable pub scan_pattern : String → Option String → String
  scan_pattern category login_type = category_prefix keys category login_type <> "*"

  parse_in : SaKeyLayout → String → Option String → Option String
  unfolding default_type is_default_login_type strip_prefix
  parse_in three_segment key login_type =
      if default_type login_type
      then strip_prefix keys.token_colon key
      else strip_prefix (token_key_prefix login_type) key
  parse_in java_four_segment key login_type = strip_prefix (token_key_prefix login_type) key

  unfoldable pub parse_token_from_key : String → Option String → Option String
  unfolding parse_in
  parse_token_from_key key login_type = parse_in keys.layout key login_type

  unfoldable pub parse_id_from_key : String → String → Option String → Option String
  unfolding strip_prefix
  parse_id_from_key key category login_type =
      strip_prefix (category_prefix keys category login_type) key
