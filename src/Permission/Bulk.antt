-- ===== src/Permission/Bulk.antt =====
-- The bulk methods of the ant-style matcher answer as the trait's defaults do.
use sa_token_rust.Common.{
  String, ◌≡◌, refl, ap, inl, inr, false, List, [], ◌∷◌, ◌||◌, ◌==◌, eq_iff, arith, Bool-cases, any,
  all, contains,
}
use sa_token_rust.Common.Text.{has_char}
use sa_token_rust.Permission.{
  wildcard_one, wildcard_many, matches, matches_all, matches_any, ant_matches_one, exact_items,
  wildcard_items, covered, ant_matches_all, ant_matches_any,
}

-- An item without a wildcard covers only itself.
ant_matches_one_of_exact :
    (owned required : String)
    → has_char b'*' owned ≡ false
    → ant_matches_one owned required ≡ (owned == required)
unfolding ant_matches_one has_char
ant_matches_one_of_exact owned required plain = elim (Bool-cases (owned == wildcard_one)) [
  | inl star ↦ absurd (cc (ap (has_char b'*') ((eq_iff owned wildcard_one).0 star), plain))
  | inr few ↦ elim (Bool-cases (owned == wildcard_many)) [
    | inl stars ↦ absurd (cc (ap (has_char b'*') ((eq_iff owned wildcard_many).0 stars), plain))
    | inr none ↦ ground arith
  ]
]

any-split_items :
    (owned : List String) (r : String)
    → (contains (exact_items owned) r || any (λ w. ant_matches_one w r) (wildcard_items owned))
      ≡ any (λ p. ant_matches_one p r) owned
unfolding exact_items wildcard_items
any-split_items [] r = refl
any-split_items (item ∷ owned) r = elim (Bool-cases (has_char b'*' item)) [
  | inl star ↦ ground (arith, any-split_items owned r)
  | inr plain ↦ ground (arith, any-split_items owned r, ant_matches_one_of_exact item r plain)
]

covered-eq-matches :
    (owned : List String) (r : String) → covered owned r ≡ matches ant_matches_one owned r
unfolding covered matches
covered-eq-matches owned r = ground (arith, any-split_items owned r)

all-covered :
    (owned required : List String)
    → all (λ x. covered owned x) required ≡ matches_all ant_matches_one owned required
unfolding matches_all
all-covered owned [] = refl
all-covered owned (r ∷ rest) = ground (arith, covered-eq-matches owned r, all-covered owned rest)

any-covered :
    (owned required : List String)
    → any (λ x. covered owned x) required ≡ matches_any ant_matches_one owned required
unfolding matches_any
any-covered owned [] = refl
any-covered owned (r ∷ rest) = ground (arith, covered-eq-matches owned r, any-covered owned rest)

-- For every owned and required list, splitting the owned items into exact ones and wildcards changes
-- neither the answer to "all are covered" nor that to "some is covered".
pub bulk-eq-default :
    (owned required : List String)
    → (ant_matches_all owned required ≡ matches_all ant_matches_one owned required)
      × (ant_matches_any owned required ≡ matches_any ant_matches_one owned required)
unfolding ant_matches_all ant_matches_any matches_all matches_any
bulk-eq-default owned [] = (refl, refl)
bulk-eq-default owned (r ∷ []) = (ground arith, ground arith)
bulk-eq-default owned (r ∷ q ∷ rest) =
    (all-covered owned (r ∷ q ∷ rest), any-covered owned (r ∷ q ∷ rest))
