-- ===== src/Permission.antt =====
-- Matching permissions and roles: sa-token-core/src/permission/matcher.rs.
--
-- The trait `PermissionMatcher` is a function `matches_one` and the methods derived from it; the
-- ant-style matcher overrides two of these. A `HashSet` of texts is the list of its items.
pub mod Covers
pub mod Bulk
use sa_token_rust.Common.{
  ℕ, String, Bool, true, false, not, List, [], ◌∷◌, ◌&&◌, ◌||◌, ◌==◌, if◌then◌else◌, any, all,
  contains,
}
use sa_token_rust.Common.Text.{is_empty, has_char, split}

abbrev pub segment_sep : ℕ
segment_sep = b':'

abbrev pub wildcard_one : String
wildcard_one = "*"

abbrev pub wildcard_many : String
wildcard_many = "**"

module _ (matches_one : String → String → Bool) where
  unfoldable pub matches : List String → String → Bool
  unfolding is_empty
  matches owned required =
      if is_empty required then false else any (λ p. matches_one p required) owned

  unfoldable pub matches_all : List String → List String → Bool
  unfolding matches
  matches_all owned required = all (λ r. matches owned r) required

  unfoldable pub matches_any : List String → List String → Bool
  unfolding matches
  matches_any owned required = any (λ r. matches owned r) required

-- The loop of `segment_match` over the two sequences of segments.
unfoldable pub segments_match : List String → List String → Bool
segments_match [] [] = true
segments_match [] (t ∷ tgt) = false
segments_match (p ∷ pat) [] = p == wildcard_many
segments_match (p ∷ pat) (t ∷ tgt) =
    let rest = segments_match pat tgt in
    if p == wildcard_many
    then true
    else if p == wildcard_one
    then rest
    else if not (p == t)
    then false
    else rest

unfoldable pub segment_match : String → String → Bool
unfolding segments_match split
segment_match pattern target = segments_match (split segment_sep pattern) (split segment_sep target)

unfoldable pub ant_matches_one : String → String → Bool
unfolding segment_match has_char
ant_matches_one owned required =
    if owned == required
    then true
    else if owned == wildcard_one || owned == wildcard_many
    then true
    else if not (has_char b'*' owned)
    then false
    else segment_match owned required

-- `split_exact_and_wildcard`.
unfoldable pub exact_items : List String → List String
unfolding has_char
exact_items [] = []
exact_items (item ∷ owned) =
    let rest = exact_items owned in if has_char b'*' item then rest else item ∷ rest

unfoldable pub wildcard_items : List String → List String
unfolding has_char
wildcard_items [] = []
wildcard_items (item ∷ owned) =
    let rest = wildcard_items owned in if has_char b'*' item then item ∷ rest else rest

-- The test of one required item in the bulk methods.
unfoldable pub covered : List String → String → Bool
unfolding exact_items wildcard_items ant_matches_one is_empty
covered owned r =
    not (is_empty r)
    && (contains (exact_items owned) r || any (λ w. ant_matches_one w r) (wildcard_items owned))

unfoldable pub ant_matches_all : List String → List String → Bool
unfolding covered matches
ant_matches_all owned [] = true
ant_matches_all owned (r ∷ []) = matches ant_matches_one owned r
ant_matches_all owned (r ∷ q ∷ rest) = all (λ x. covered owned x) (r ∷ q ∷ rest)

unfoldable pub ant_matches_any : List String → List String → Bool
unfolding covered matches
ant_matches_any owned [] = false
ant_matches_any owned (r ∷ []) = matches ant_matches_one owned r
ant_matches_any owned (r ∷ q ∷ rest) = any (λ x. covered owned x) (r ∷ q ∷ rest)

-- `ExactMatcher`.
unfoldable pub exact_matches_one : String → String → Bool
exact_matches_one owned required = owned == required
