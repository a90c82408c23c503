-- ===== src/Router.antt =====
-- Path-based authentication: sa-token-core/src/router.rs.
--
-- `process_auth` asks the manager about a token; the interface `Manager` stands for the two
-- operations of sa-token-core/src/manager.rs, which is not modelled.
pub mod Paths
pub mod Decision
use sa_token_rust.Common.{
  ℕ, String, Bool, true, false, not, Option, none, some, List, [], ◌∷◌, ◌&&◌, ◌||◌, ◌==◌, Result,
  ok, err, if◌then◌else◌, any, is_some, eqb,
}
use sa_token_rust.Common.Text.{
  is_empty, has_char, strip_prefix, strip_suffix, starts_with, ends_with, trim_start,
}
use sa_token_rust.Error.{SaTokenResult}

-- The last test for a pattern that ends in `/*`, on what follows its prefix.
single_level : Option String → Bool
unfolding is_empty has_char trim_start
single_level none = false
single_level (some rest) =
    if is_empty rest || rest == "/"
    then true
    else not (has_char b'/' (trim_start (λ c. eqb c b'/') rest))

-- The tests of `match_path` from the third one on, by what the pattern's ends are.
match_level : Option String → String → String → Bool
unfolding single_level
match_level none path pattern = path == pattern
match_level (some prefix) path pattern = single_level (strip_prefix prefix path)

match_star : Option String → String → String → Bool
unfolding match_level
match_star (some suffix) path pattern = ends_with path suffix
match_star none path pattern = match_level (strip_suffix "/*" pattern) path pattern

match_tree : Option String → String → String → Bool
unfolding match_star
match_tree (some prefix) path pattern = starts_with path prefix
match_tree none path pattern = match_star (strip_prefix "*" pattern) path pattern

unfoldable pub match_path : String → String → Bool
unfolding match_tree strip_prefix strip_suffix
match_path path pattern =
    if pattern == "/**" then true else match_tree (strip_suffix "/**" pattern) path pattern

unfoldable pub match_any : String → List String → Bool
unfolding match_path
match_any path patterns = any (λ p. match_path path p) patterns

unfoldable pub need_auth : String → List String → List String → Bool
unfolding match_any
need_auth path include exclude = match_any path include && not (match_any path exclude)

pub record PathAuthConfig : Type 0 where
  pub include : List String
  pub exclude : List String
  pub validator : Option (String → Bool)

abbrev pub new_config : PathAuthConfig
new_config = record { include = []; exclude = []; validator = none }

unfoldable pub check : PathAuthConfig → String → Bool
unfolding need_auth
check config path = need_auth path config.include config.exclude

accepts : Option (String → Bool) → String → Bool
accepts none login_id = true
accepts (some v) login_id = v login_id

unfoldable pub validate_login_id : PathAuthConfig → String → Bool
unfolding accepts
validate_login_id config login_id = accepts config.validator login_id

-- What the router reads of a token's record.
pub record TokenInfo : Type 0 where
  pub token : String
  pub login_id : String

-- The two questions that the router asks the manager. They act on the manager's state.
pub record Manager : Type 1 where
  pub State : Type 0
  pub is_valid : String → State → Bool × State
  pub get_token_info : String → State → SaTokenResult TokenInfo × State

pub record AuthResult : Type 0 where
  pub need_auth : Bool
  pub token : Option String
  pub token_info : Option TokenInfo
  pub is_valid : Bool

unfoldable pub should_reject : AuthResult → Bool
should_reject r = r.need_auth && (not r.is_valid || not (is_some r.token))

unfoldable pub login_id : AuthResult → Option String
login_id r = elim r.token_info [ none ↦ none | some info ↦ some info.login_id ]

-- `.ok()`.
abbrev pub to_option {ℓ} : {A : Type ℓ} → SaTokenResult A → Option A
to_option (ok a) = some a
to_option (err e) = none

module _ (manager : Manager) where
  -- `(is_valid, token_info)` of the token that the request carries.
  unfoldable pub lookup_token :
      Option String → manager.State → (Bool × Option TokenInfo) × manager.State
  lookup_token none s = ((false, none), s)
  lookup_token (some t) s =
      let (valid, s') = manager.is_valid t s in
      let (info, s'') = manager.get_token_info t s' in
      if valid then ((true, to_option info), s'') else ((false, none), s')

  unfoldable pub admits : PathAuthConfig → Option TokenInfo → Bool
  unfolding validate_login_id
  admits config none = false
  admits config (some info) = validate_login_id config info.login_id

  unfoldable pub process_auth :
      String → Option String → PathAuthConfig → manager.State → AuthResult × manager.State
  unfolding check lookup_token admits
  process_auth path token_str config s =
      let need = check config path in
      let ((valid, info), s') = lookup_token token_str s in
      (
        record {
          need_auth = need;
          token = token_str;
          token_info = info;
          is_valid = valid && (if need then admits config info else true);
        },
        s',
      )
