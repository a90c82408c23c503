-- ===== src/Tests/MatchTests.antt =====
-- Witnesses on permissions, paths and keys.
use sa_token_rust.Common.{
  String, ◌≡◌, ◌≢◌, ◌↔◌, ◌⊎◌, refl, true, false, none, some, List, [], ◌∷◌, ok,
}
use sa_token_rust.Common.Text.{◌<>◌, has_char, split}
use sa_token_rust.Permission.{
  segment_sep, wildcard_one, wildcard_many, ant_matches_one, ant_matches_all, ant_matches_any,
  matches_all, matches_any,
}
use sa_token_rust.Permission.Covers.{Covers, ant_matches_one_iff}
use sa_token_rust.Permission.Bulk.{bulk-eq-default}
use sa_token_rust.Keys.{build_account, escaped, login_type_default}
use sa_token_rust.Keys.Collisions.{key-default_of_joined, key-escaped}
use sa_token_rust.Router.{PathAuthConfig, Manager, check, should_reject, process_auth, match_path}
use sa_token_rust.Router.Paths.{match_path-subtree, subtree}
use sa_token_rust.Router.Decision.{Admitted, process_auth_iff}
use sa_token_rust.Tests.{dao}

abbrev wildcard : String
wildcard = "user:*"

-- A question mark is an ordinary character.
question_mark_covers : ant_matches_one "user:?" "user:a" ≡ false
unfolding ant_matches_one
question_mark_covers = refl

ant_matches_one_iff_example : (ant_matches_one wildcard "user:read" ≡ true) ↔ (
    (wildcard ≡ "user:read")
    ⊎ (wildcard ≡ wildcard_one)
    ⊎ (wildcard ≡ wildcard_many)
    ⊎ ((has_char b'*' wildcard ≡ true)
        × Covers (split segment_sep wildcard) (split segment_sep "user:read")))
ant_matches_one_iff_example = ant_matches_one_iff wildcard "user:read"

abbrev owned : List String
owned = "user:*" ∷ "order:read" ∷ []

abbrev required : List String
required = "user:read" ∷ "order:read" ∷ "order:write" ∷ []

bulk-eq-default_example :
    (ant_matches_all owned required ≡ matches_all ant_matches_one owned required)
    × (ant_matches_any owned required ≡ matches_any ant_matches_one owned required)
bulk-eq-default_example = bulk-eq-default owned required

match_path-subtree_example : match_path ("/api" <> "X") ("/api" <> subtree) ≡ true
match_path-subtree_example = match_path-subtree "/api" "X"

key-default_of_joined_example :
    build_account dao.keys "login:token" login_type_default ("admin" <> ":" <> "1")
    ≡ build_account dao.keys "login:token" "admin" "1"
unfolding sa_token_rust.Keys.is_default_login_type has_char
key-default_of_joined_example =
    key-default_of_joined dao.keys refl "login:token" "admin" "1" refl refl

key-escaped_example :
    (build_account dao.keys "login:token" "admin" (escaped "a:b")
      ≡ build_account dao.keys "login:token" "admin" "a:b")
    × (escaped "a:b" ≢ "a:b")
unfolding sa_token_rust.Keys.is_default_login_type has_char
key-escaped_example = key-escaped dao.keys refl "login:token" "admin" "a:b" refl refl

-- A manager that knows one token.
abbrev manager : Manager
manager = record {
  State = Unit;
  is_valid = λ token s. (true, s);
  get_token_info = λ token s. (ok (record { token = token; login_id = "alice" }), s);
}

abbrev config : PathAuthConfig
config = record { include = "/**" ∷ []; exclude = []; validator = none }

process_auth_iff_example :
    (should_reject (process_auth manager "/api" (some "t1") config tt).0 ≡ false)
    ↔ ((check config "/api" ≡ false) ⊎ Admitted manager "/api" config tt (some "t1"))
process_auth_iff_example = process_auth_iff manager "/api" config tt (some "t1")
