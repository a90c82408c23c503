-- ===== src/Memory/ListLaws.antt =====
-- The list operations act on the members that a reader finds, and on one key only.
use sa_token_rust.Common.{
  ℕ, ◌≤◌, String, ◌≡◌, refl, Bool, false, Option, none, some, List, [], ◌∷◌, ◌++◌, ◌&&◌, arith,
  eq_iff, eq_refl, ◌==◌, if◌then◌else◌, not, ok, Option-cases, Bool-cases, inl, inr, length,
  contains, retain,
}
use sa_token_rust.Common.Assoc.{lookup-insert}
use sa_token_rust.Memory.{ListItem, MemoryStorage, is_expired, write}
use sa_token_rust.Memory.Shard.{shard_index}
use sa_token_rust.Memory.Lists.{
  list_at, put_list, renewed, fresh_members, touch_ttl, pushed, list_push, list_remove,
  list_remove_in,
}

pub list_at-put_list :
    (k j : String) (l : ListItem) (m : MemoryStorage)
    → list_at j (put_list k l m) ≡ (if k == j then some l else list_at j m)
unfolding list_at put_list write
list_at-put_list k j l m = ground (arith, eq_iff k j, lookup-insert k j l (m (shard_index k)).lists)

-- The members of a key's list that a reader finds at an instant.
unfoldable pub members : String → ℕ → MemoryStorage → List String
unfolding fresh_members list_at
members k t m = fresh_members (list_at k m) t

retain_all : (p : String → Bool) → retain p [] ≡ []
retain_all p = refl

-- After a removal a reader finds, at once and later, the members without the removed one, and the
-- lists of the other keys as they were.
pub members-list_remove :
    (k j member : String) (now t : ℕ) (m : MemoryStorage)
    → now ≤ t
    → members j t (list_remove k member now m).1
      ≡ (if k == j then retain (λ x. not (x == member)) (members j t m) else members j t m)
unfolding members fresh_members list_remove list_remove_in
members-list_remove k j member now t m le = elim (Option-cases (list_at k m)) [
  | inl missing ↦ rw (missing, list_remove_in) (ground (arith, eq_iff k j))
  | inr (entry, found) ↦
      rw (found, list_remove_in)
        (elim (Bool-cases (is_expired entry.expire_at now)) [
          | inl old ↦
              ground (arith, list_at-put_list k j (record entry { members = [] }) m, eq_iff k j)
          | inr new ↦ ground (
            arith,
            list_at-put_list k j
                (record entry { members = retain (λ x. not (x == member)) entry.members }) m,
            eq_iff k j,
          )
        ])
]

module _ (from_std : ℕ → Option ℕ) where
  touch_ttl-fresh :
      (ttl : Option ℕ) (now : ℕ) (l : ListItem)
      → is_expired l.expire_at now ≡ false
      → fresh_members (some (touch_ttl from_std ttl now l)) now ≡ l.members
  unfolding fresh_members touch_ttl
  touch_ttl-fresh none now l h = ground arith
  touch_ttl-fresh (some d) now l h = elim (Option-cases (from_std d)) [
    | inl out ↦ rw (touch_ttl, out) (ground arith)
    | inr (delta, given) ↦ rw (touch_ttl, given) (ground arith)
  ]

  touch_ttl-members :
      (ttl : Option ℕ) (now : ℕ) (l : ListItem) → (touch_ttl from_std ttl now l).members ≡ l.members
  unfolding touch_ttl
  touch_ttl-members none now l = refl
  touch_ttl-members (some d) now l = elim (Option-cases (from_std d)) [
    | inl out ↦ rw (touch_ttl, out) refl
    | inr (delta, given) ↦ rw (touch_ttl, given) refl
  ]

  renewed-members :
      (l : Option ListItem) (now : ℕ)
      → ((renewed l now).members ≡ fresh_members l now)
        × (is_expired (renewed l now).expire_at now ≡ false)
  unfolding renewed fresh_members
  renewed-members none now = (refl, refl)
  renewed-members (some l) now = ground arith

  -- A push answers the length of what a reader finds right after it: the members that were there,
  -- and the new one at the end unless the list is to hold it once and has it.
  pub list_push-members :
      (k member : String) (unique : Bool) (ttl : Option ℕ) (now : ℕ) (m : MemoryStorage)
      → ((list_push from_std k member unique ttl now m).0
          ≡ ok (length (members k now (list_push from_std k member unique ttl now m).1)))
        × (members k now (list_push from_std k member unique ttl now m).1 ≡ (
            if unique && contains (members k now m) member
            then members k now m
            else members k now m ++ member ∷ []))
  unfolding members list_push pushed
  list_push-members k member unique ttl now m =
      let entry = renewed (list_at k m) now in
      let added = record entry { members = entry.members ++ member ∷ [] } in
      ground (
        arith,
        list_at-put_list k k (pushed from_std member unique ttl now entry) m,
        eq_refl k,
        renewed-members (list_at k m) now,
        touch_ttl-fresh ttl now entry,
        touch_ttl-fresh ttl now added,
        touch_ttl-members ttl now entry,
        touch_ttl-members ttl now added,
      )
