-- ===== src/Tests/AuthTests.antt =====
-- Witnesses for the theorems about sessions, token mappings, generated tokens, logins and logouts. A
-- JSON value is of the unit type.
use sa_token_rust.Common.{
  ℕ, ◌<◌, ◌≤◌, ◌≡◌, ◌≢◌, refl, String, Bool, true, false, Option, none, some, List, [], ◌∷◌, Result,
  ok, err, arith, if◌then◌else◌, ◌==◌, eq_iff, eqb, ◌&&◌, ◌*◌, ◌^◌, ap,
}
use sa_token_rust.Common.Int.{ℤ, pos, negsuc}
use sa_token_rust.Error.{SaTokenResult, internal_error}
use sa_token_rust.Keys.{java_four_segment, token_info}
use sa_token_rust.Config.{SaTokenConfig, LogoutMode}
use sa_token_rust.Config.Checks.{default}
use sa_token_rust.Memory.{MemoryStorage}
use sa_token_rust.Memory
use sa_token_rust.Memory.Frames.{memory-StorageFrames}
use sa_token_rust.Storage.Frames.{StorageFrames}
use sa_token_rust.Session
use sa_token_rust.Session.{SaSession, SaTerminalInfo, new_terminal}
use sa_token_rust.Session.Terminals.{Change, login, logout, changes, IsNumbered, new-IsNumbered}
use sa_token_rust.Token.{TokenInfo}
use sa_token_rust.TokenRepo.{
  TokenRepo, TokenIdMapping, identity, encode_token_id_value, parse_token_id_value,
}
use sa_token_rust.TokenRepo.Mapping.{parse_token_id_value-encode_token_id_value}
use sa_token_rust.TokenRepo.Bodies.{save_token_info, load_token_info_no_renew}
use sa_token_rust.Refresh.{Libraries}
use sa_token_rust.Auth.{AuthService, Outside}
use sa_token_rust.Auth.Request
use sa_token_rust.Auth.Unique.{generate_unique, WasFree, generate_unique-WasFree}
use sa_token_rust.Auth.Logout.{logout_internal}
use sa_token_rust.Auth.LogoutKeeps.{KeepsOutside}
use sa_token_rust.Auth.LogoutLaws.{logout_internal-invalid}
use sa_token_rust.Auth.Pipeline
use sa_token_rust.Auth.JavaLayout.{login-Never}
use sa_token_rust.Dao.{Codec, Action, SaTokenDao, pure}
use sa_token_rust.Dao.Keeps.{pure-Keeps}
use sa_token_rust.Dao.Never.{Never}
use sa_token_rust.Tests.{from_std, regex, storage, storage_laws, dao, known}

-- Two logins with a logout between them.
abbrev visits : List (Change (Unit {0}))
visits = login (new_terminal "t1" "web" 0) ∷ logout "t1" ∷ login (new_terminal "t2" "app" 5) ∷ []

new-IsNumbered_example : IsNumbered 2 (changes (Session.new "alice" 0) visits)
new-IsNumbered_example = new-IsNumbered "alice" 0 visits (omega arith)

parse_token_id_value-encode_token_id_value_example :
    parse_token_id_value (encode_token_id_value "admin" "7") ≡ identity "admin" "7"
unfolding sa_token_rust.Common.Text.has_char sa_token_rust.Common.Text.is_empty
parse_token_id_value-encode_token_id_value_example =
    parse_token_id_value-encode_token_id_value "admin" "7" refl

-- The first token is taken.
abbrev draws : ℕ → SaTokenResult String
draws n = ok (if eqb n 0 then "a" else "b")

abbrev taken : String → Action (Unit {0}) Bool
taken token now s = (ok (token == "a"), s)

generate_unique-WasFree_example : WasFree draws taken 0 "b"
unfolding generate_unique
generate_unique-WasFree_example = generate_unique-WasFree draws taken (pos 3) 0 tt "b" refl refl

abbrev absent : {A : Type 0} → Option A → Bool
absent none = true
absent (some a) = false

absent-eq : {A : Type 0} (o : Option A) → absent o ≡ true → ◌≡◌ {A = Option A} none o
absent-eq none h = refl
absent-eq (some a) h = absurd (ground arith)

-- The body that a login of alice at the instant 0 writes, and its session with one terminal.
abbrev alice : TokenInfo (Unit {0})
alice = record {
  token = "t";
  login_id = "alice";
  login_type = "default";
  create_time = 0;
  last_active_time = 0;
  expire_time = some (2592000 * 10 ^ 9);
  device = none;
  extra_data = none;
  nonce = none;
  refresh_token = none;
  refresh_token_expire_time = none;
  active_timeout_override = none;
}

abbrev due : Option ℕ → Bool
due none = false
due (some t) = eqb t (2592000 * 10 ^ 9)

due-eq : (o : Option ℕ) → due o ≡ true → some (2592000 * 10 ^ 9) ≡ o
due-eq none h = absurd (ground arith)
due-eq (some t) h = ground arith

abbrev is_alice : TokenInfo (Unit {0}) → Bool
is_alice x =
    x.token == "t"
    && x.login_id == "alice"
    && x.login_type == "default"
    && eqb x.create_time 0
    && eqb x.last_active_time 0
    && due x.expire_time
    && absent x.device
    && absent x.extra_data
    && absent x.nonce
    && absent x.refresh_token
    && absent x.refresh_token_expire_time
    && absent x.active_timeout_override

is_alice-eq : (x : TokenInfo (Unit {0})) → is_alice x ≡ true → alice ≡ x
is_alice-eq x h = ground (
  arith,
  eq_iff x.token "t",
  eq_iff x.login_id "alice",
  eq_iff x.login_type "default",
  due-eq x.expire_time,
  absent-eq x.device,
  absent-eq x.extra_data,
  absent-eq x.nonce,
  absent-eq x.refresh_token,
  absent-eq x.refresh_token_expire_time,
  absent-eq x.active_timeout_override,
)

abbrev terminal : SaTerminalInfo (Unit {0})
terminal = record {
  index = pos 1;
  token_value = "t";
  device_type = "";
  device_id = none;
  extra_data = none;
  create_time = 0;
}

abbrev visit : SaSession (Unit {0})
visit = record {
  id = "alice";
  create_time = 0;
  terminal_list = terminal ∷ [];
  history_terminal_count = pos 1;
  entries = [];
}

abbrev is_one : ℤ → Bool
is_one (pos n) = eqb n 1
is_one (negsuc n) = false

is_one-eq : (z : ℤ) → is_one z ≡ true → pos 1 ≡ z
is_one-eq (pos n) h = ground arith
is_one-eq (negsuc n) h = absurd (ground arith)

abbrev is_terminal : SaTerminalInfo (Unit {0}) → Bool
is_terminal x =
    is_one x.index
    && x.token_value == "t"
    && x.device_type == ""
    && absent x.device_id
    && absent x.extra_data
    && eqb x.create_time 0

is_terminal-eq : (x : SaTerminalInfo (Unit {0})) → is_terminal x ≡ true → terminal ≡ x
is_terminal-eq x h = ground (
  arith,
  is_one-eq x.index,
  eq_iff x.token_value "t",
  eq_iff x.device_type "",
  absent-eq x.device_id,
  absent-eq x.extra_data,
)

abbrev is_visits : List (SaTerminalInfo (Unit {0})) → Bool
is_visits [] = false
is_visits (x ∷ []) = is_terminal x
is_visits (x ∷ y ∷ rest) = false

is_visits-eq : (xs : List (SaTerminalInfo (Unit {0}))) → is_visits xs ≡ true → terminal ∷ [] ≡ xs
is_visits-eq [] h = absurd (ground arith)
is_visits-eq (x ∷ []) h = ap (λ y. y ∷ []) (is_terminal-eq x h)
is_visits-eq (x ∷ y ∷ rest) h = absurd (ground arith)

abbrev nothing_in : {A : Type 0} → List A → Bool
nothing_in [] = true
nothing_in (x ∷ xs) = false

nothing_in-eq : {A : Type 0} (xs : List A) → nothing_in xs ≡ true → ◌≡◌ {A = List A} [] xs
nothing_in-eq [] h = refl
nothing_in-eq (x ∷ xs) h = absurd (ground arith)

abbrev is_visit : SaSession (Unit {0}) → Bool
is_visit x =
    x.id == "alice"
    && eqb x.create_time 0
    && is_visits x.terminal_list
    && is_one x.history_terminal_count
    && nothing_in x.entries

is_visit-eq : (x : SaSession (Unit {0})) → is_visit x ≡ true → visit ≡ x
is_visit-eq x h = ground (
  arith,
  eq_iff x.id "alice",
  is_visits-eq x.terminal_list,
  is_one-eq x.history_terminal_count,
  nothing_in-eq x.entries,
)

abbrev tokens : Codec (TokenInfo (Unit {0}))
tokens = known alice is_alice is_alice-eq

abbrev sessions : Codec (SaSession (Unit {0}))
sessions = known visit is_visit is_visit-eq

-- The codec of no value: these logins have no nonce and no refresh token.
abbrev no_codec : {T : Type 0} → Codec T
no_codec = record {
  encode = λ x. err (internal_error "");
  decode = λ raw. err (internal_error "");
  decode-encode = λ x raw h. absurd (ground arith);
}

abbrev config : SaTokenConfig
config = default

abbrev outside : Outside MemoryStorage
outside = record { publish = λ e. pure tt; online = none; distributed = none }

abbrev java_dao : SaTokenDao
java_dao = record dao { keys = record dao.keys { layout = java_four_segment } }

abbrev java_service : AuthService MemoryStorage
java_service = record {
  dao = java_dao;
  token_repo = record { dao = java_dao; config = config };
  config = config;
  outside = outside;
}

abbrev libs : Libraries (Unit {0})
libs = record {
  token_codec = tokens;
  record_codec = no_codec;
  to_rfc3339 = λ now. "";
  parse_from_rfc3339 = λ text. none;
  from_std = from_std;
  uuid = "u";
  create = λ extra login_id n. ok "t";
}

login-Never_example :
    Never (Pipeline.login storage libs sessions no_codec java_service 3 (Request.new "alice"))
login-Never_example =
    login-Never storage libs sessions no_codec java_service refl 3 (Request.new "alice") refl

abbrev service : AuthService MemoryStorage
service = record {
  dao = dao;
  token_repo = record { dao = dao; config = config };
  config = config;
  outside = outside;
}

-- The same login in the three-segment layout returns the token.
abbrev logged_in : SaTokenResult String × MemoryStorage
logged_in =
    Pipeline.login storage libs sessions no_codec service 3 (Request.new "alice") 0 Memory.new

returned : logged_in.0 ≡ ok "t"
unfolding Pipeline.login Request.new sa_token_rust.Auth.Login.check_banned
    sa_token_rust.Dao.get_string Memory.get sa_token_rust.Common.Assoc.lookup Memory.new
    sa_token_rust.Auth.Login.nonce_step sa_token_rust.Auth.Login.shared_token Pipeline.login_new
    sa_token_rust.Auth.Login.build_token_info generate_unique
    sa_token_rust.TokenRepo.Bodies.get_token_info sa_token_rust.Dao.get_object
    sa_token_rust.TokenRepo.get_login_mapping Pipeline.write_and_finish
    sa_token_rust.Auth.Stages.write_login_stages sa_token_rust.TokenRepo.append_index
    sa_token_rust.Dao.list_push_unique sa_token_rust.Memory.Lists.list_push
    sa_token_rust.Keys.More.build_from_ns sa_token_rust.SessionRepo.snapshot_account_session
    sa_token_rust.SessionRepo.account_session_key sa_token_rust.Memory.Shard.shard_index
    sa_token_rust.Keys.login_token_index sa_token_rust.SessionRepo.add_terminal_to
    sa_token_rust.SessionRepo.get_by_ns sa_token_rust.SessionRepo.save_by_ns
    sa_token_rust.Dao.set_object Session.add_terminal sa_token_rust.Dao.set_string Memory.set
    sa_token_rust.TokenRepo.save_token_id_mapping save_token_info
    sa_token_rust.Auth.Stages.commit_login_mapping sa_token_rust.TokenRepo.save_login_mapping
returned = refl

frames : StorageFrames storage_laws
frames = memory-StorageFrames from_std regex (2 ^ 60) (λ d h. refl)

quiet : (key : String) → KeepsOutside storage_laws key outside
quiet key = record { publish = λ e. pure-Keeps storage_laws key tt; online = tt; distributed = tt }

abbrev logged_out : SaTokenResult (Unit {0}) × MemoryStorage
logged_out =
    logout_internal storage tokens sessions service "t" LogoutMode.logout false 5 logged_in.1

logout_returned : logged_out.0 ≡ ok tt
unfolding Pipeline.login Request.new sa_token_rust.Auth.Login.check_banned
    sa_token_rust.Dao.get_string Memory.get sa_token_rust.Common.Assoc.lookup Memory.new
    sa_token_rust.Auth.Login.nonce_step sa_token_rust.Auth.Login.shared_token Pipeline.login_new
    sa_token_rust.Auth.Login.build_token_info generate_unique
    sa_token_rust.TokenRepo.Bodies.get_token_info sa_token_rust.Dao.get_object
    sa_token_rust.TokenRepo.get_login_mapping Pipeline.write_and_finish
    sa_token_rust.Auth.Stages.write_login_stages sa_token_rust.TokenRepo.append_index
    sa_token_rust.Dao.list_push_unique sa_token_rust.Memory.Lists.list_push
    sa_token_rust.Keys.More.build_from_ns sa_token_rust.SessionRepo.snapshot_account_session
    sa_token_rust.SessionRepo.account_session_key sa_token_rust.Memory.Shard.shard_index
    sa_token_rust.Keys.login_token_index sa_token_rust.SessionRepo.add_terminal_to
    sa_token_rust.SessionRepo.get_by_ns sa_token_rust.SessionRepo.save_by_ns
    sa_token_rust.Dao.set_object Session.add_terminal sa_token_rust.Dao.set_string Memory.set
    sa_token_rust.TokenRepo.save_token_id_mapping save_token_info
    sa_token_rust.Auth.Stages.commit_login_mapping sa_token_rust.TokenRepo.save_login_mapping
    logout_internal sa_token_rust.Auth.Logout.resolve_logout_identity
    sa_token_rust.Auth.Validity.enforce_max_login_count token_info sa_token_rust.Keys.login_token
    sa_token_rust.Common.Assoc.insert sa_token_rust.TokenRepo.delete_token_info
    sa_token_rust.Dao.delete sa_token_rust.Auth.Logout.mark
    sa_token_rust.TokenRepo.delete_token_id_mapping sa_token_rust.Auth.Logout.clean_up
    sa_token_rust.SessionRepo.remove_terminal_from sa_token_rust.TokenRepo.remove_index
    sa_token_rust.Dao.list_remove sa_token_rust.Memory.Lists.list_remove
    sa_token_rust.Keys.token_id_mapping sa_token_rust.SessionRepo.delete_token_session
    sa_token_rust.Keys.token_session load_token_info_no_renew
    sa_token_rust.TokenRepo.Bodies.check_mapping_marker
    sa_token_rust.TokenRepo.Bodies.get_token_id_mapping Session.remove_terminal
logout_returned = refl

-- The token of the login is valid before the logout, and not after it.
loaded : (load_token_info_no_renew storage tokens service.token_repo "t" 5 logged_in.1).0 ≡ ok alice
unfolding Pipeline.login Request.new sa_token_rust.Auth.Login.check_banned
    sa_token_rust.Dao.get_string Memory.get sa_token_rust.Common.Assoc.lookup Memory.new
    sa_token_rust.Auth.Login.nonce_step sa_token_rust.Auth.Login.shared_token Pipeline.login_new
    sa_token_rust.Auth.Login.build_token_info generate_unique
    sa_token_rust.TokenRepo.Bodies.get_token_info sa_token_rust.Dao.get_object
    sa_token_rust.TokenRepo.get_login_mapping Pipeline.write_and_finish
    sa_token_rust.Auth.Stages.write_login_stages sa_token_rust.TokenRepo.append_index
    sa_token_rust.Dao.list_push_unique sa_token_rust.Memory.Lists.list_push
    sa_token_rust.Keys.More.build_from_ns sa_token_rust.SessionRepo.snapshot_account_session
    sa_token_rust.SessionRepo.account_session_key sa_token_rust.Memory.Shard.shard_index
    sa_token_rust.Keys.login_token_index sa_token_rust.SessionRepo.add_terminal_to
    sa_token_rust.SessionRepo.get_by_ns sa_token_rust.SessionRepo.save_by_ns
    sa_token_rust.Dao.set_object Session.add_terminal sa_token_rust.Dao.set_string Memory.set
    sa_token_rust.TokenRepo.save_token_id_mapping save_token_info
    sa_token_rust.Auth.Stages.commit_login_mapping sa_token_rust.TokenRepo.save_login_mapping
    load_token_info_no_renew sa_token_rust.TokenRepo.Bodies.check_mapping_marker
    sa_token_rust.TokenRepo.Bodies.get_token_id_mapping
    sa_token_rust.Auth.Validity.enforce_max_login_count sa_token_rust.Keys.token_id_mapping
    sa_token_rust.Keys.login_token token_info sa_token_rust.Common.Assoc.insert
loaded = refl

logout_internal-invalid_example :
    (load_token_info_no_renew storage tokens service.token_repo "t" 6 logged_out.1).0 ≢ ok alice
logout_internal-invalid_example =
    logout_internal-invalid storage_laws frames tokens sessions service "t" refl refl
      LogoutMode.logout false 5 6 logged_in.1 tt alice (quiet _) (omega arith) logout_returned
