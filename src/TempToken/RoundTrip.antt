-- ===== src/TempToken/RoundTrip.antt =====
-- A created token is parsed to its record.
use sa_token_rust.Common.{
  ℕ, ◌≤◌, String, ◌≡◌, ◌≢◌, refl, ap, sym, ◌∙◌, Bool, true, false, Option, none, some, ok, err,
  arith, eq_iff, if◌then◌else◌, Bool-cases, inl, inr, ◌⊎◌,
}
use sa_token_rust.Common.Text.{is_empty}
use sa_token_rust.Error.{
  SaTokenError, SaTokenResult, temp_token_not_found, temp_token_expired, config_error,
  storage_error,
}
use sa_token_rust.Storage.{SaStorage, StorageLaws, within}
use sa_token_rust.Dao.{
  Codec, SaTokenDao, Action, pure, throw, with_now, ok_or, try, get_object, lift, ◌>>=◌, ◌>>◌,
  set_if_absent,
}
use sa_token_rust.Dao
use sa_token_rust.Dao.Objects.{get_object-live}
use sa_token_rust.Dao.Binds.{bind-ok, bind-err, bind-returns, lift-returns}
use sa_token_rust.Dao.Reads.{live-set_string}
use sa_token_rust.Common.Int.{ℤ}
use sa_token_rust.Keys.Categories.{temp_token-index}
use sa_token_rust.TempToken.{
  Value, as_str, TempTokenRecord, ttl, expire_at, token_key, index_key, allocate, write_index,
  create, parse, is_past,
}
use sa_token_rust.TempToken.CreateLaws.{returned, failed, text_of, allocate-Stored}

module _ (st : SaStorage) (laws : StorageLaws st) (codec : Codec TempTokenRecord)
    (index_digest : String → String) (dao : SaTokenDao) (random : ℕ → SaTokenResult String)
    (namespace : String) (value : Value) (timeout : ℤ) (record_index : Bool) where
  open laws use {live, deadline}

  abbrev pub created : ℕ → TempTokenRecord
  created now = record { value = value; namespace = namespace; expire_at = expire_at timeout now }

  abbrev make : Action st.State String
  make = create st codec index_digest dao random namespace value timeout record_index

  abbrev index : String → Option ℕ → Action st.State (Unit {0})
  index token ttl_opt =
      write_index st codec index_digest dao record_index (as_str value) namespace token ttl_opt

  abbrev from_token : Option ℕ → String → Action st.State String
  from_token ttl_opt token =
      if is_empty token
      then throw (config_error "failed to allocate a unique temp token")
      else (index token ttl_opt >> pure token)

  -- The index is under a key of its own.
  write_index-keeps :
      (r : Bool) (o : Option String) (token : String) (ttl_opt : Option ℕ) (now t : ℕ)
      (s : st.State) (k : String)
      → now ≤ t
      → (write_index st codec index_digest dao r o namespace token ttl_opt now s).0 ≡ ok tt
      → live
          (token_key st codec index_digest dao namespace k)
          t
          (write_index st codec index_digest dao r o namespace token ttl_opt now s).1
        ≡ live (token_key st codec index_digest dao namespace k) t s
  unfolding write_index
  write_index-keeps true (some v) token ttl_opt now t s k le h =
      let ik = index_key st codec index_digest dao namespace v in
      let tk = token_key st codec index_digest dao namespace k in
      ground (
        arith,
        live-set_string st laws ik tk token ttl_opt now t s tt le h,
        eq_iff ik tk,
        λ (e : ik ≡ tk). temp_token-index dao.keys namespace namespace k (index_digest v) (sym e),
      )
  write_index-keeps true none token ttl_opt now t s k le h = refl
  write_index-keeps false o token ttl_opt now t s k le h = refl

  abbrev key_of : String → String
  key_of token = token_key st codec index_digest dao namespace token

  -- The end of a creation, for a token that is not empty.
  from_token-returns :
      (ttl_opt : Option ℕ) (drawn token : String) (now t : ℕ) (s : st.State)
      → now ≤ t
      → (from_token ttl_opt drawn now s).0 ≡ ok token
      → (is_empty token ≡ false)
        × (drawn ≡ token)
        × (live (key_of token) t (from_token ttl_opt drawn now s).1 ≡ live (key_of token) t s)
  from_token-returns ttl_opt drawn token now t s le h = elim (Bool-cases (is_empty drawn)) [
    | inl empty ↦ absurd (ground arith)
    | inr present ↦
        let h' = transport_ok (ap (λ b. (branch ttl_opt drawn b now s).0) present) h in
        let (u, written, h₁, e₁) =
          bind-returns (index drawn ttl_opt) (λ u. pure drawn) now s token h' in
        let same = ap text_of h₁ in
        (
          sym (ap is_empty same) ∙ present,
          same,
          ap (λ b. live (key_of token) t (branch ttl_opt drawn b now s).1) present
              ∙ ap (λ p. live (key_of token) t p.1) e₁
              ∙ write_index-keeps record_index (as_str value) drawn ttl_opt now t s token le
                  written,
        )
  ]
    where
      branch : Option ℕ → String → Bool → Action st.State String
      branch ttl_opt drawn b =
          if b
          then throw (config_error "failed to allocate a unique temp token")
          else (index drawn ttl_opt >> pure drawn)

      transport_ok :
          {x y : SaTokenResult String} {token : String} → x ≡ y → x ≡ ok token → y ≡ ok token
      transport_ok e h = sym e ∙ h

  abbrev from_ttl : ℕ → Option ℕ → Action st.State String
  from_ttl now ttl_opt =
      allocate st codec index_digest dao random 12 0 namespace (created now) ttl_opt
      >>= from_token ttl_opt

  abbrev for_namespace : Bool → Action st.State String
  for_namespace blank_name =
      if blank_name
      then throw (config_error "temp token namespace must not be empty")
      else with_now (λ now. lift (ttl timeout) >>= from_ttl now)

  -- What a creation leaves.
  create-stored :
      (now t : ℕ) (s : st.State) (ttl_opt : Option ℕ) (token : String)
      → ttl timeout ≡ ok ttl_opt
      → (make now s).0 ≡ ok token
      → now ≤ t
      → within (deadline ttl_opt now) t ≡ true
      → (raw : String) × (codec.encode (created now) ≡ ok raw)
        × (is_empty token ≡ false)
        × (live (key_of token) t (make now s).1 ≡ some raw)
  unfolding create
  create-stored now t s ttl_opt token has_ttl h le kept = elim (Bool-cases (is_empty namespace)) [
    | inl empty ↦ absurd (refused (sym (ap (λ b. (for_namespace b now s).0) empty) ∙ h))
    | inr named ↦
        let h₀ = sym (ap (λ b. (for_namespace b now s).0) named) ∙ h in
        let (ttl', got, h₁, e₁) = lift-returns (ttl timeout) (from_ttl now) now s token h₀ in
        let d = ok_eq (sym got ∙ has_ttl) in
        let loop = allocate st codec index_digest dao random 12 0 namespace (created now) ttl' in
        let (drawn, allocated, h₂, e₂) = bind-returns loop (from_token ttl') now s token h₁ in
        let s₁ = (loop now s).1 in
        let (present, same, keeps) = from_token-returns ttl' drawn token now t s₁ le h₂ in
        let (raw, encoded, there) =
          allocate-Stored st laws codec index_digest dao random namespace (created now) ttl' 12 0
            now s drawn allocated (ap is_empty same ∙ present) in
        (
          raw,
          encoded,
          present,
          ap (λ b. live (key_of token) t (for_namespace b now s).1) named
              ∙ ap (λ p. live (key_of token) t p.1) (e₁ ∙ e₂)
              ∙ keeps
              ∙ ap (λ x. live (key_of x) t s₁) (sym same)
              ∙ there t le (ap (λ o. within (deadline o now) t) d ∙ kept),
        )
  ]
    where
      refused : {e : SaTokenError} {a : String} → failed e ≢ ok a
      refused e = ground arith

      ok_eq : {a b : Option ℕ} → returned a ≡ returned b → a ≡ b
      ok_eq e = cc

  abbrev after_test : String → Bool → TempTokenRecord → Action st.State TempTokenRecord
  after_test token past rec =
      if past then try (Dao.delete st (key_of token)) (throw temp_token_expired) else pure rec

  abbrev from_found : String → ℕ → Option TempTokenRecord → Action st.State TempTokenRecord
  from_found token now found = ok_or temp_token_not_found found >>= λ rec.
      after_test token (is_past st codec index_digest dao rec.expire_at now) rec

  abbrev for_token : String → Bool → Action st.State TempTokenRecord
  for_token token blank_token =
      if blank_token
      then throw temp_token_not_found
      else with_now (λ now. get_object st codec (key_of token) >>= from_found token now)

  -- What a parse does with a record that is there.
  parse-stored :
      (token raw : String) (rec : TempTokenRecord) (t : ℕ) (s : st.State)
      → is_empty token ≡ false
      → live (key_of token) t s ≡ some raw
      → codec.decode raw ≡ ok rec
      → is_past st codec index_digest dao rec.expire_at t ≡ false
      → ((parse st codec index_digest dao namespace token t s).0 ≡ ok rec)
        ⊎ ((m : String) × ((parse st codec index_digest dao namespace token t s).0
              ≡ err (storage_error m)))
  unfolding parse
  parse-stored token raw rec t s present there read fresh =
      let get = get_object st codec (key_of token) in
      let named = ap (λ b. (for_token token b t s).0) present in
      elim (get_object-live st laws codec (key_of token) raw rec t s there read) [
        | inl found ↦ inl (
            named
            ∙ ap (λ p. p.0) (bind-ok get (from_found token t) t s (some rec) found)
            ∙ ap (λ b. (after_test token b rec t (get t s).1).0) fresh)
        | inr (m, failed) ↦
            inr (m, named ∙ ap (λ p. p.0) (bind-err get (from_found token t) t s _ failed))
      ]

  -- A created token is parsed to its record, with the value and the namespace that were given, as
  -- long as neither its key nor its record has expired and the storage does not fail.
  pub create-parse :
      (now t : ℕ) (s : st.State) (ttl_opt : Option ℕ) (token : String)
      → ttl timeout ≡ ok ttl_opt
      → (make now s).0 ≡ ok token
      → now ≤ t
      → within (deadline ttl_opt now) t ≡ true
      → is_past st codec index_digest dao (expire_at timeout now) t ≡ false
      → ((m : String)
          → (parse st codec index_digest dao namespace token t (make now s).1).0
            ≢ err (storage_error m))
      → (parse st codec index_digest dao namespace token t (make now s).1).0 ≡ ok (created now)
  create-parse now t s ttl_opt token has_ttl h le kept fresh answers =
      let (raw, encoded, present, there) = create-stored now t s ttl_opt token has_ttl h le kept in
      elim (parse-stored token raw (created now) t (make now s).1 present there
        (codec.decode-encode (created now) raw encoded) fresh) [
          | inl parsed ↦ parsed
          | inr (m, failed) ↦ absurd (answers m failed)
        ]
