-- ===== src/Dao/Keeps.antt =====
-- Actions that leave a key alone, whatever their outcome: what readers find under it at the same or a
-- later instant is what they found before.
use sa_token_rust.Common.{
  ℕ, ◌≤◌, ◌≡◌, ◌≢◌, String, Result-cases, inl, inr, ap, ◌∙◌, refl, Option, none, some,
}
use sa_token_rust.Error.{SaTokenResult}
use sa_token_rust.Storage.{SaStorage, StorageLaws}
use sa_token_rust.Storage.Frames.{StorageFrames}
use sa_token_rust.Dao.{
  Action, pure, lift, with_now, try, ◌>>=◌, ◌>>◌, Codec, get_string, set_string, delete, cas_delete,
  list_remove, get_object, set_object, decode_some,
}
use sa_token_rust.Dao.Binds.{bind-ok, bind-err}

module _ {st : SaStorage} (laws : StorageLaws st) (key : String) where
  open laws use {live}

  pub record Keeps {A : Type 0} (m : Action st.State A) : Type 0 where
    pub keeps : (now t : ℕ) (s : st.State) → now ≤ t → live key t (m now s).1 ≡ live key t s

  -- The combinators.
  pub pure-Keeps : {A : Type 0} (a : A) → Keeps (pure {S = st.State} a)
  pure-Keeps a = record { keeps = λ now t s h. refl }

  pub lift-Keeps : {A : Type 0} (r : SaTokenResult A) → Keeps (lift {S = st.State} r)
  lift-Keeps r = record { keeps = λ now t s h. refl }

  pub with_now-Keeps :
      {A : Type 0} (f : ℕ → Action st.State A) → ((now : ℕ) → Keeps (f now)) → Keeps (with_now f)
  with_now-Keeps f k = record { keeps = λ now t s h. (k now).keeps now t s h }

  pub bind-Keeps :
      {A B : Type 0} (m : Action st.State A) (f : A → Action st.State B)
      → Keeps m
      → ((a : A) → Keeps (f a))
      → Keeps (m >>= f)
  bind-Keeps m f k l = record {
    keeps = λ now t s h. elim (Result-cases (m now s).0) [
      | inl (a, e) ↦
          ap (λ r. live key t r.1) (bind-ok m f now s a e)
          ∙ (l a).keeps now t _ h
          ∙ k.keeps now t s h
      | inr (x, e) ↦ ap (λ r. live key t r.1) (bind-err m f now s x e) ∙ k.keeps now t s h
    ];
  }

  pub then-Keeps :
      {A B : Type 0} (m : Action st.State A) (n : Action st.State B)
      → Keeps m
      → Keeps n
      → Keeps (m >> n)
  then-Keeps m n k l = bind-Keeps m (λ _. n) k (λ _. l)

  pub try-Keeps :
      {A B : Type 0} (m : Action st.State A) (n : Action st.State B)
      → Keeps m
      → Keeps n
      → Keeps (try m n)
  try-Keeps m n k l = record {
    keeps = λ now t s h. l.keeps now t (m now s).1 h ∙ k.keeps now t s h;
  }

  -- The operations.
  pub get_string-Keeps : (k : String) → Keeps (get_string st k)
  unfolding get_string
  get_string-Keeps k = record { keeps = λ now t s h. laws.live-get k key now t s h }

  module _ (frames : StorageFrames laws) where
    pub set_string-Keeps : (k v : String) (ttl : Option ℕ) → k ≢ key → Keeps (set_string st k v ttl)
    unfolding set_string
    set_string-Keeps k v ttl ne = record {
      keeps = λ now t s h. frames.frame-set k key v ttl now t s ne h;
    }

    pub delete-Keeps : (k : String) → k ≢ key → Keeps (delete st k)
    unfolding delete
    delete-Keeps k ne = record { keeps = λ now t s h. frames.frame-delete k key now t s ne h }

    pub cas_delete-Keeps : (k expected : String) → k ≢ key → Keeps (cas_delete st k expected)
    unfolding cas_delete
    cas_delete-Keeps k expected ne = record {
      keeps = λ now t s h. frames.frame-compare_and_delete k key expected now t s ne h;
    }

    pub list_remove-Keeps : (k member : String) → k ≢ key → Keeps (list_remove st k member)
    unfolding list_remove
    list_remove-Keeps k member ne = record {
      keeps = λ now t s h. frames.frame-list_remove k key member now t s ne h;
    }

    pub set_object-Keeps :
        {T : Type 0} (codec : Codec T) (k : String) (x : T) (ttl : Option ℕ)
        → k ≢ key
        → Keeps (set_object st codec k x ttl)
    unfolding set_object
    set_object-Keeps codec k x ttl ne =
        bind-Keeps (lift (codec.encode x)) (λ raw. set_string st k raw ttl) (lift-Keeps _)
          (λ raw. set_string-Keeps k raw ttl ne)

  decode_some-Keeps :
      {T : Type 0} (codec : Codec T) (o : Option String) → Keeps (decode_some st codec o)
  unfolding decode_some
  decode_some-Keeps codec none = pure-Keeps none
  decode_some-Keeps codec (some raw) = record {
    keeps = λ now t s h. elim (Result-cases (codec.decode raw)) [
      | inl (x, e) ↦ rw e
      | inr (x, e) ↦ rw e
    ];
  }

  pub get_object-Keeps : {T : Type 0} (codec : Codec T) (k : String) → Keeps (get_object st codec k)
  unfolding get_object
  get_object-Keeps codec k =
      bind-Keeps (get_string st k) (λ raw. decode_some st codec raw) (get_string-Keeps k)
        (λ raw. decode_some-Keeps codec raw)
