-- ===== src/Permission/Covers.antt =====
-- The wildcard semantics as a relation, and the matcher decides it.
use sa_token_rust.Common.{
  String, ◌≡◌, ◌↔◌, ◌⊎◌, inl, inr, refl, true, List, [], ◌∷◌, ◌==◌, eq_iff, arith, Bool-cases,
}
use sa_token_rust.Common.Text.{has_char, split}
use sa_token_rust.Permission.{
  segment_sep, wildcard_one, wildcard_many, segments_match, segment_match, ant_matches_one,
}

-- A sequence of pattern segments covers a sequence of segments: `**` covers whatever is left, `*`
-- one segment, and any other segment itself: a `?` is a character like any other.
pub data Covers : List String → List String → Type 0 where
  done : Covers [] []
  rest : {p : String} {pat tgt : List String} → p ≡ wildcard_many → Covers (p ∷ pat) tgt
  one :
      {p t : String} {pat tgt : List String}
      → p ≡ wildcard_one
      → Covers pat tgt
      → Covers (p ∷ pat) (t ∷ tgt)
  same :
      {p t : String} {pat tgt : List String} → p ≡ t → Covers pat tgt → Covers (p ∷ pat) (t ∷ tgt)

segments_match-Covers : (pat tgt : List String) → segments_match pat tgt ≡ true → Covers pat tgt
unfolding segments_match
segments_match-Covers [] [] h = done
segments_match-Covers [] (t ∷ tgt) h = cc
segments_match-Covers (p ∷ pat) [] h = rest ((eq_iff p wildcard_many).0 h)
segments_match-Covers (p ∷ pat) (t ∷ tgt) h = elim (Bool-cases (p == wildcard_many)) [
  | inl many ↦ rest ((eq_iff p wildcard_many).0 many)
  | inr few ↦ elim (Bool-cases (p == wildcard_one)) [
    | inl star ↦ one ((eq_iff p wildcard_one).0 star) (segments_match-Covers pat tgt (ground arith))
    | inr plain ↦ elim (Bool-cases (p == t)) [
      | inl equal ↦ same ((eq_iff p t).0 equal) (segments_match-Covers pat tgt (ground arith))
      | inr other ↦ absurd (ground arith)
    ]
  ]
]

Covers-segments_match : {pat tgt : List String} → Covers pat tgt → segments_match pat tgt ≡ true
unfolding segments_match
Covers-segments_match done = refl
Covers-segments_match (rest {p = p} {tgt = []} e) = (eq_iff p wildcard_many).1 e
Covers-segments_match (rest {p = p} {tgt = t ∷ tgt} e) = rw ((eq_iff p wildcard_many).1 e)
Covers-segments_match (one {p = p} e c) =
    ground (arith, eq_iff p wildcard_one, Covers-segments_match c)
Covers-segments_match (same {p = p} {t = t} e c) =
    ground (arith, eq_iff p t, Covers-segments_match c)

-- An owned item covers a required one exactly if they are equal, or the owned one is a wildcard by
-- itself, or it has a `*` and its segments cover the required segments. A `?` stands for itself only.
pub ant_matches_one_iff :
    (owned required : String)
    → (ant_matches_one owned required ≡ true) ↔ (
        (owned ≡ required)
        ⊎ (owned ≡ wildcard_one)
        ⊎ (owned ≡ wildcard_many)
        ⊎ ((has_char b'*' owned ≡ true)
            × Covers (split segment_sep owned) (split segment_sep required)))
unfolding ant_matches_one segment_match
ant_matches_one_iff owned required = (to, from)
  where
    to :
        ant_matches_one owned required ≡ true
        → (owned ≡ required)
          ⊎ (owned ≡ wildcard_one)
          ⊎ (owned ≡ wildcard_many)
          ⊎ ((has_char b'*' owned ≡ true)
              × Covers (split segment_sep owned) (split segment_sep required))
    to h =
        elim (Bool-cases (segments_match (split segment_sep owned) (split segment_sep required))) [
          | inl yes_match ↦
              let c = segments_match-Covers _ _ yes_match in
              elim (Bool-cases (has_char b'*' owned)) [
                | inl star ↦ inr (inr (inr (star, c)))
                | inr plain ↦ ground (
                  arith,
                  eq_iff owned required,
                  eq_iff owned wildcard_one,
                  eq_iff owned wildcard_many,
                )
              ]
          | inr no_match ↦
              ground (
                arith,
                eq_iff owned required,
                eq_iff owned wildcard_one,
                eq_iff owned wildcard_many,
              )
        ]

    from :
        (owned ≡ required)
          ⊎ (owned ≡ wildcard_one)
          ⊎ (owned ≡ wildcard_many)
          ⊎ ((has_char b'*' owned ≡ true)
              × Covers (split segment_sep owned) (split segment_sep required))
        → ant_matches_one owned required ≡ true
    from (inl e) = ground (arith, eq_iff owned required)
    from (inr (inl e)) = ground (arith, eq_iff owned wildcard_one)
    from (inr (inr (inl e))) = ground (arith, eq_iff owned wildcard_many)
    from (inr (inr (inr (star, c)))) = ground (arith, Covers-segments_match c)
