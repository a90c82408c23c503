-- ===== src/TempToken/IndexLaws.antt =====
-- The index from a value to its latest token.
use sa_token_rust.Common.{ℕ, ◌≤◌, String, ◌≡◌, ap, sym, ◌∙◌, Option, none, some, ok, arith, eq_refl}
use sa_token_rust.Storage.{SaStorage, StorageLaws}
use sa_token_rust.Dao.{Codec, SaTokenDao, get_object, Action, pure, try, ◌>>◌}
use sa_token_rust.Error.{SaTokenResult}
use sa_token_rust.Dao
use sa_token_rust.Dao.Reads.{live-delete}
use sa_token_rust.TempToken.{
  string, as_str, TempTokenRecord, token_key, index_key, drop_index, delete,
}

module _ (st : SaStorage) (laws : StorageLaws st) (codec : Codec TempTokenRecord)
    (index_digest : String → String) (dao : SaTokenDao) (namespace token v : String) where
  open laws use {live}

  -- The rest of `delete`, from the record that was read on and from its value on.
  after :
      SaTokenResult (Option TempTokenRecord) → st.State → ℕ → SaTokenResult (Unit {0}) × st.State
  after r s now =
      (drop_index st codec index_digest dao namespace r
          >> Dao.delete st (token_key st codec index_digest dao namespace token))
        now s

  after_value : Option String → st.State → ℕ → SaTokenResult (Unit {0}) × st.State
  after_value o s now =
      ((elim o [
        | none ↦ pure tt
        | some w ↦ try (Dao.delete st (index_key st codec index_digest dao namespace w)) (pure tt)
      ])
          >> Dao.delete st (token_key st codec index_digest dao namespace token))
        now s

  -- The deletion of a token with a text value leaves the value without a token in the index, also if
  -- the index held another, newer token of the same value.
  pub delete-drops_index :
      (now t : ℕ) (s : st.State) (rec : TempTokenRecord)
      → now ≤ t
      → (get_object st codec (token_key st codec index_digest dao namespace token) now s).0
        ≡ ok (some rec)
      → rec.value ≡ string v
      → (Dao.delete st
          (index_key st codec index_digest dao namespace v)
          now
          (get_object st codec (token_key st codec index_digest dao namespace token) now s).1).0
        ≡ ok tt
      → (delete st codec index_digest dao namespace token now s).0 ≡ ok tt
      → live
          (index_key st codec index_digest dao namespace v)
          t
          (delete st codec index_digest dao namespace token now s).1
        ≡ none
  unfolding delete drop_index after after_value
  delete-drops_index now t s rec le found is_text dropped deleted =
      let tk = token_key st codec index_digest dao namespace token in
      let ik = index_key st codec index_digest dao namespace v in
      let s' = (get_object st codec tk now s).1 in
      let s'' = (Dao.delete st ik now s').1 in
      let step =
        ap (λ r. after r s' now) found ∙ ap (λ o. after_value o s' now) (ap as_str is_text) in
      ground (
        arith,
        ap (live ik t) (ap (λ p. p.1) step),
        live-delete st laws tk ik now t s'' tt le (sym (ap (λ p. p.0) step) ∙ deleted),
        live-delete st laws ik ik now t s' tt le dropped,
        eq_refl ik,
      )
