-- ===== src/Dao/ReadOnly.antt =====
-- Actions that change nothing that readers find.
use sa_token_rust.Common.{
  ℕ, ◌≤◌, String, ◌≡◌, refl, ap, ◌∙◌, Option, none, some, Result-cases, inl, inr,
}
use sa_token_rust.Error.{SaTokenError}
use sa_token_rust.Storage.{SaStorage, StorageLaws}
use sa_token_rust.Dao.{Action, Codec, ◌>>=◌, ok_or, lift, pure, get_string, get_object, decode_some}
use sa_token_rust.Dao.Binds.{bind-ok, bind-err}
use sa_token_rust.Dao.Reads.{live-get_string}

module _ (st : SaStorage) (laws : StorageLaws st) where
  open laws use {live}

  abbrev pub IsReadOnly : {A : Type 0} → Action st.State A → Type 0
  IsReadOnly m =
      (j : String) (now t : ℕ) (s : st.State) → now ≤ t → live j t (m now s).1 ≡ live j t s

  pub bind-IsReadOnly :
      {A B : Type 0} (m : Action st.State A) (f : A → Action st.State B)
      → IsReadOnly m
      → ((a : A) → IsReadOnly (f a))
      → IsReadOnly (m >>= f)
  bind-IsReadOnly m f first then_ j now t s le = elim (Result-cases (m now s).0) [
    | inl (a, e) ↦
        ap (λ p. live j t p.1) (bind-ok m f now s a e)
        ∙ then_ a j now t (m now s).1 le
        ∙ first j now t s le
    | inr (x, e) ↦ ap (λ p. live j t p.1) (bind-err m f now s x e) ∙ first j now t s le
  ]

  pub get_string-IsReadOnly : (k : String) → IsReadOnly (get_string st k)
  get_string-IsReadOnly k j now t s le = live-get_string st laws k j now t s le

  pub ok_or-IsReadOnly :
      {A : Type 0} (e : SaTokenError) (o : Option A) → IsReadOnly (ok_or {S = st.State} e o)
  ok_or-IsReadOnly e none j now t s le = refl
  ok_or-IsReadOnly e (some a) j now t s le = refl

  decode_some-IsReadOnly :
      {T : Type 0} (codec : Codec T) (o : Option String) → IsReadOnly (decode_some st codec o)
  unfolding decode_some
  decode_some-IsReadOnly codec none = λ j now t s le. refl
  decode_some-IsReadOnly codec (some raw) =
      bind-IsReadOnly (lift (codec.decode raw)) (λ value. pure (some value)) (λ j now t s le. refl)
        (λ a j now t s le. refl)

  pub get_object-IsReadOnly :
      {T : Type 0} (codec : Codec T) (k : String) → IsReadOnly (get_object st codec k)
  unfolding get_object
  get_object-IsReadOnly codec k =
      bind-IsReadOnly (get_string st k) (decode_some st codec) (get_string-IsReadOnly k)
        (decode_some-IsReadOnly codec)
