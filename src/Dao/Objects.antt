-- ===== src/Dao/Objects.antt =====
-- What a stored object leaves under its key.
use sa_token_rust.Common.{
  arith, refl, sym, err, inl, inr, ◌⊎◌, ℕ, ◌≤◌, String, ◌≡◌, ap, ◌∙◌, Option, none, some, ok, ◌==◌,
  if◌then◌else◌,
}
use sa_token_rust.Storage.{SaStorage, StorageLaws, within}
use sa_token_rust.Error.{SaTokenResult, storage_error}
use sa_token_rust.Dao.{
  Codec, set_string, set_object, get_string, get_object, decode_some, lift, pure, ◌>>=◌,
}
use sa_token_rust.Dao.Binds.{bind-returns, lift-returns, bind-ok, bind-err}
use sa_token_rust.Dao.Reads.{live-set_string, get_string-cases, get_string_lem}

module _ (st : SaStorage) (laws : StorageLaws st) {T : Type 0} (codec : Codec T) where
  open laws use {live, deadline}

  pub set_object-returns :
      (k : String) (v : T) (ttl : Option ℕ) (now : ℕ) (s : st.State) (u : Unit {0})
      → (set_object st codec k v ttl now s).0 ≡ ok u
      → (raw : String) × (codec.encode v ≡ ok raw)
        × ((j : String) (t : ℕ)
            → now ≤ t
            → live j t (set_object st codec k v ttl now s).1 ≡ (
                if k == j
                then (if within (deadline ttl now) t then some raw else none)
                else live j t s))
  unfolding set_object
  set_object-returns k v ttl now s u h =
      let (raw, written, h₁, e₁) =
        lift-returns (codec.encode v) (λ raw. set_string st k raw ttl) now s u h in
      (
        raw,
        written,
        λ j t le. ap (λ p. live j t p.1) e₁ ∙ live-set_string st laws k j raw ttl now t s u le h₁,
      )

  -- An object whose text a reader finds is read, or the storage fails.
  pub get_object-live :
      (k raw : String) (x : T) (now : ℕ) (s : st.State)
      → live k now s ≡ some raw
      → codec.decode raw ≡ ok x
      → ((get_object st codec k now s).0 ≡ ok (some x))
        ⊎ ((m : String) × ((get_object st codec k now s).0 ≡ err (storage_error m)))
  unfolding get_object decode_some
  get_object-live k raw x now s there read = elim (get_string-cases st laws k now s) [
    | inl (o, got) ↦
        let is_raw = get_string_lem st laws k now s o got ∙ there in
        inl (
          ap (λ p. p.0)
            (bind-ok (get_string st k) (decode_some st codec) now s (some raw) (got ∙ ap ok is_raw))
          ∙ decoded (codec.decode raw) x (get_string st k now s).1 now read)
    | inr (m, failed) ↦
        inr (m, ap (λ p. p.0) (bind-err (get_string st k) (decode_some st codec) now s _ failed))
  ]
    where
      decoded :
          (r : SaTokenResult T) (x : T) (s : st.State) (now : ℕ)
          → r ≡ ok x
          → ((lift {S = st.State} r >>= λ value. pure (some value)) now s).0 ≡ ok (some x)
      decoded (ok y) x s now e = cc
      decoded (err f) x s now e = absurd (ground arith)

  decode_some-none :
      (raw : Option String) (now : ℕ) (s : st.State) (o : Option T)
      → raw ≡ none
      → (decode_some st codec raw now s).0 ≡ ok o
      → o ≡ none
  unfolding decode_some
  decode_some-none none now s o e h = ground arith
  decode_some-none (some raw) now s o e h = absurd (ground arith)

  -- Under a key with no value there is no object.
  pub get_object-none :
      (k : String) (now : ℕ) (s : st.State) (o : Option T)
      → live k now s ≡ none
      → (get_object st codec k now s).0 ≡ ok o
      → o ≡ none
  unfolding get_object
  get_object-none k now s o gone h =
      let (raw, e, rest, same) = bind-returns (get_string st k) (decode_some st codec) now s o h in
      decode_some-none raw now _ o (get_string_lem st laws k now s raw e ∙ gone) rest

  decode_some-some :
      (raw : Option String) (now : ℕ) (s : st.State) (x : T)
      → (decode_some st codec raw now s).0 ≡ ok (some x)
      → (text : String) × (raw ≡ some text) × (codec.decode text ≡ ok x)
  unfolding decode_some
  decode_some-some none now s x h = absurd (ground arith)
  decode_some-some (some text) now s x h =
      let (y, read, rest, same) =
        lift-returns (codec.decode text) (λ value. pure (some value)) now s (some x) h in
      (text, refl, ground arith)

  -- An object that is read is what a reader finds, decoded.
  pub get_object-some :
      (k : String) (now : ℕ) (s : st.State) (x : T)
      → (get_object st codec k now s).0 ≡ ok (some x)
      → (raw : String) × (live k now s ≡ some raw) × (codec.decode raw ≡ ok x)
  unfolding get_object
  get_object-some k now s x h =
      let (raw, e, rest, same) =
        bind-returns (get_string st k) (decode_some st codec) now s (some x) h in
      let (text, there, read) = decode_some-some raw now _ x rest in
      (text, sym (get_string_lem st laws k now s raw e) ∙ there, read)
