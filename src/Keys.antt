-- ===== src/Keys.antt =====
-- The storage keys: sa-token-core/src/keys.rs.
pub mod Collisions
pub mod Escape
pub mod Categories
pub mod More
pub mod Distinct
use Prim.Native.Char.{code}
use Prim.Native.String
use Prim.Native.String.{len}
use sa_token_rust.Common.{
  ℕ, String, Bool, true, false, Option, none, some, Result, ok, err, ◌||◌, ◌==◌, if◌then◌else◌, ltb,
  eqb,
}
use sa_token_rust.Common.Text.{◌<>◌, is_empty, has_char, trim_end}

abbrev pub login_type_default : String
login_type_default = "default"

abbrev pub login_type_login : String
login_type_login = "login"

abbrev pub login_type_sso : String
login_type_sso = "sso"

abbrev pub login_type_sso_client : String
login_type_sso_client = "sso_client"

abbrev pub colon_escape : String
colon_escape = "%3A"

abbrev pub max_login_id_len : ℕ
max_login_id_len = 512

pub data KeyError : Type 0 where
  empty_login_id : KeyError
  login_id_too_long : ℕ → ℕ → KeyError
  namespaced_id_unsupported_by_layout : String → KeyError

pub data SaKeyLayout : Type 0 where
  three_segment java_four_segment : SaKeyLayout

pub record SaKeys : Type 0 where
  pub root : String
  pub layout : SaKeyLayout
  pub token_colon : String

unfoldable pub new : String → SaKeys
new prefix = record { root = prefix; layout = three_segment; token_colon = prefix <> "token:" }

layout_root : SaKeyLayout → String → String
layout_root three_segment root = root
layout_root java_four_segment root = trim_end (λ c. eqb c b':') root

unfoldable pub with_layout : String → SaKeyLayout → SaKeys
unfolding layout_root
with_layout root layout =
    let r = layout_root layout root in
    record { root = r; layout = layout; token_colon = r <> "token:" }

unfoldable pub is_default_login_type : String → Bool
unfolding is_empty
is_default_login_type login_type =
    is_empty login_type || login_type == login_type_default || login_type == login_type_login

-- `push_escaped`: what is pushed for a text.
unfoldable pub escaped : String → String
escaped String.[] = String.[]
escaped (String.◌∷◌ ch src) =
    if eqb (code ch) b':' then colon_escape <> escaped src else String.◌∷◌ ch (escaped src)

unfoldable pub account_ns : String → String → String
unfolding is_default_login_type escaped has_char
account_ns login_type id =
    if is_default_login_type login_type
    then id
    else login_type <> ":" <> (if has_char b':' id then escaped id else id)

unfoldable pub validate_login_id : String → Result KeyError (Unit {0})
unfolding is_empty
validate_login_id login_id =
    if is_empty login_id
    then err empty_login_id
    else if ltb max_login_id_len (len login_id)
    then err (login_id_too_long (len login_id) max_login_id_len)
    else ok tt

or_login : Option String → String
or_login none = login_type_login
or_login (some lt) = lt

global_key : SaKeyLayout → SaKeys → String → String → Option String → String
global_key three_segment keys category id login_type = keys.root <> category <> ":" <> id
global_key java_four_segment keys category id login_type =
    keys.root <> ":" <> or_login login_type <> ":" <> category <> ":" <> id

unfoldable pub build_global : SaKeys → String → String → Option String → String
unfolding global_key or_login
build_global keys category id login_type = global_key keys.layout keys category id login_type

-- `if login_type.is_empty() { LOGIN_TYPE_LOGIN } else { login_type }`.
unfoldable pub or_login_type : String → String
unfolding is_empty
or_login_type login_type = if is_empty login_type then login_type_login else login_type

unfoldable pub account_key : SaKeyLayout → SaKeys → String → String → String → String
unfolding is_default_login_type escaped
account_key three_segment keys category login_type login_id =
    if is_default_login_type login_type
    then keys.root <> category <> ":" <> login_id
    else keys.root <> category <> ":" <> login_type <> ":" <> escaped login_id
account_key java_four_segment keys category login_type login_id =
    keys.root <> ":" <> or_login_type login_type <> ":" <> category <> ":" <> login_id

unfoldable pub build_account : SaKeys → String → String → String → String
unfolding account_key or_login_type
build_account keys category login_type login_id =
    account_key keys.layout keys category login_type login_id

disable_key : SaKeyLayout → SaKeys → String → String → String → String
disable_key three_segment keys login_type login_id service =
    build_account keys "disable" login_type login_id <> ":" <> service
disable_key java_four_segment keys login_type login_id service =
    keys.root <> ":" <> or_login_type login_type <> ":disable:" <> service <> ":" <> login_id

unfoldable pub disable : SaKeys → String → String → String → String
unfolding disable_key build_account or_login_type
disable keys login_type login_id service = disable_key keys.layout keys login_type login_id service

safe_key : SaKeyLayout → SaKeys → String → String → String → String
safe_key three_segment keys login_type token service =
    build_global keys "safe" token none <> ":" <> service
safe_key java_four_segment keys login_type token service =
    keys.root <> ":" <> or_login_type login_type <> ":safe:" <> service <> ":" <> token

unfoldable pub safe_with_type : SaKeys → String → String → String → String
unfolding safe_key build_global or_login_type
safe_with_type keys login_type token service = safe_key keys.layout keys login_type token service

unfoldable pub safe : SaKeys → String → String → String
unfolding safe_with_type
safe keys token service = safe_with_type keys login_type_login token service

-- The keys that are one category and one id.
module _ (keys : SaKeys) where
  unfoldable pub token_info : String → String
  unfolding build_global
  token_info token = build_global keys "token" token none

  unfoldable pub token_id_mapping : String → String
  unfolding build_global
  token_id_mapping token = build_global keys "token-id" token none

  unfoldable pub token_session : String → String
  unfolding build_global
  token_session token = build_global keys "token-session" token none

  unfoldable pub login_token : String → String → String
  unfolding build_account
  login_token login_type login_id = build_account keys "login:token" login_type login_id

  unfoldable pub login_token_index : String → String → String
  unfolding build_account
  login_token_index login_type login_id = build_account keys "login:tokens" login_type login_id

  unfoldable pub account_session : String → String → String
  unfolding build_account
  account_session login_type login_id = build_account keys "session" login_type login_id

  unfoldable pub nonce : String → String
  unfolding build_global
  nonce nonce_value = build_global keys "nonce" nonce_value none

  unfoldable pub oauth2_client : String → String
  unfolding build_global
  oauth2_client client_id = build_global keys "oauth2:client" client_id none

  unfoldable pub oauth2_code : String → String
  unfolding build_global
  oauth2_code auth_code = build_global keys "oauth2:code" auth_code none

  unfoldable pub oauth2_token : String → String
  unfolding build_global
  oauth2_token access_token = build_global keys "oauth2:token" access_token none

  unfoldable pub oauth2_refresh : String → String
  unfolding build_global
  oauth2_refresh refresh_token = build_global keys "oauth2:refresh" refresh_token none

  unfoldable pub sso_ticket : String → String
  unfolding build_global
  sso_ticket ticket_id = build_global keys "sso:ticket" ticket_id none

  unfoldable pub sso_session : String → String
  unfolding build_global
  sso_session login_id = build_global keys "sso:session" login_id none

  unfoldable pub same_token : String
  unfolding build_global
  same_token = build_global keys "var" "same-token" none

  unfoldable pub same_token_past : String
  unfolding build_global
  same_token_past = build_global keys "var" "same-token-past" none

  unfoldable pub sign_nonce : String → String
  unfolding build_global
  sign_nonce nonce = build_global keys "sign-nonce" nonce none

  unfoldable pub temp_token : String → String → String
  unfolding build_global
  temp_token namespace token = build_global keys ("temp-token:" <> namespace) token none

  unfoldable pub temp_index : String → String → String
  unfolding build_global
  temp_index namespace value_digest =
      build_global keys ("temp-index:" <> namespace) value_digest none
