-- ===== src/Sign/Accepted.antt =====
-- The steps of a verification that accepts: `verify_params` of sa-token-core/src/sign.rs.
use sa_token_rust.Common.{
  ℕ, ◌≡◌, ◌≢◌, inl, inr, refl, ap, ◌∙◌, false, arith, String, some, Result, ok, err, Bool-cases,
}
use sa_token_rust.Common.Int.{ℤ}
use sa_token_rust.Common.Text.{is_empty}
use sa_token_rust.Common.Assoc.{Assoc, lookup}
use sa_token_rust.Error.{SaTokenError, SaTokenResult, sign_invalid, sign_timestamp_expired}
use sa_token_rust.Storage.{SaStorage}
use sa_token_rust.Memory.Shard.{bytes}
use sa_token_rust.Memory.Shard.Bytes.{ct_eq-bytes_iff}
use sa_token_rust.HttpBasic.{ct_eq}
use sa_token_rust.Dao.Binds.{bind-ok, bind-returns, ok_or-returns, lift-returns}
use mathlib.Core.Path.{subst}
use sa_token_rust.Dao.{Action, lift, with_now, ok_or, ◌>>=◌, ◌>>◌}
use sa_token_rust.Sign.Arithmetic.{outside}
use sa_token_rust.Sign.{
  RequestSign, timestamp, sign_params, parse_time, check_window, consume_nonce, compare_sign,
  verify_params,
}

pub err-ne-ok {ℓ} : {A : Type ℓ} {e : SaTokenError} {a : A} → err e ≢ ok a
err-ne-ok h = ground arith

module _ (hmac : String → String → Result String String) (st : SaStorage) (self : RequestSign)
    (params : Assoc String) where
  -- What is left of a verification after each of its steps.
  abbrev sign_and_compare : String → Unit {0} → Action st.State (Unit {0})
  sign_and_compare provided _ = do
    expected ← lift (sign_params hmac self params)
    compare_sign hmac st expected provided

  abbrev pub use_nonce : Action st.State (Unit {0})
  use_nonce = consume_nonce hmac st self (lookup "nonce" params) self.dao

  abbrev in_window : String → ℤ → Action st.State (Unit {0})
  in_window provided ts = do
    with_now (check_window hmac st self ts)
    use_nonce
    sign_and_compare provided tt

  abbrev parse_and_go : String → Action st.State (Unit {0})
  parse_and_go provided = do
    ts ← ok_or sign_timestamp_expired (parse_time hmac st (lookup "timestamp" params))
    in_window provided ts

  has_secret :
      (provided : String) (now : ℕ) (s : st.State)
      → (verify_params hmac st self params provided now s).0 ≡ ok tt
      → is_empty self.secret ≡ false
  unfolding verify_params
  has_secret provided now s h = elim (Bool-cases (is_empty self.secret)) [
    | inl e ↦ absurd (err-ne-ok (rw e at h))
    | inr e ↦ e
  ]

  goes_on :
      (provided : String)
      → is_empty self.secret ≡ false
      → verify_params hmac st self params provided ≡ parse_and_go provided
  unfolding verify_params
  goes_on provided e = rw e

  window_passed :
      (ts : ℤ) (now : ℕ) (s : st.State)
      → (check_window hmac st self ts now now s).0 ≡ ok tt
      → (outside (timestamp now) ts self.window_secs ≡ false)
        × (check_window hmac st self ts now now s ≡ (ok tt, s))
  unfolding check_window
  window_passed ts now s h = elim (Bool-cases (outside (timestamp now) ts self.window_secs)) [
    | inl e ↦ absurd (err-ne-ok (rw e at h))
    | inr e ↦ (e, rw e)
  ]

  in_time :
      (ts : ℤ) (now : ℕ) (s : st.State)
      → outside (timestamp now) ts self.window_secs ≡ false
      → with_now (check_window hmac st self ts) now s ≡ (ok tt, s)
  unfolding check_window
  in_time ts now s e = rw e

  same_sign :
      (expected provided : String) (now : ℕ) (s : st.State)
      → (compare_sign hmac st expected provided now s).0 ≡ ok tt
      → expected ≡ provided
  unfolding compare_sign
  same_sign expected provided now s h =
      elim (Bool-cases (ct_eq (bytes expected) (bytes provided))) [
        | inl e ↦ (ct_eq-bytes_iff expected provided).0 e
        | inr e ↦ absurd (err-ne-ok (rw e at h))
      ]

  -- The steps that an accepted request has passed, and the state that they leave.
  pub record Accepted (provided : String) (now : ℕ) (s : st.State) : Type 0 where
    pub secret : is_empty self.secret ≡ false
    pub ts : ℤ
    pub parsed : parse_time hmac st (lookup "timestamp" params) ≡ some ts
    pub near : outside (timestamp now) ts self.window_secs ≡ false
    pub used : (use_nonce now s).0 ≡ ok tt
    pub signed : sign_params hmac self params ≡ ok provided

  pub verify_params-Accepted :
      (provided : String) (now : ℕ) (s : st.State)
      → (verify_params hmac st self params provided now s).0 ≡ ok tt
      → Accepted provided now s
  verify_params-Accepted provided now s h =
      let secret = has_secret provided now s h in
      let run =
        subst (λ (m : Action st.State (Unit {0})). (m now s).0 ≡ ok tt) (goes_on provided secret)
          h in
      let (ts, parsed, h₁, e₁) =
        ok_or-returns sign_timestamp_expired _ (in_window provided) now s tt run in
      let (u, h₂, h₃, e₂) =
        bind-returns (with_now (check_window hmac st self ts))
          (λ _. use_nonce >> sign_and_compare provided tt) now s tt h₁ in
      let (near, stays) = window_passed ts now s h₂ in
      let h₄ : ((use_nonce >> sign_and_compare provided tt) now s).0 ≡ ok tt =
        subst
          (λ (r : SaTokenResult (Unit {0}) × st.State).
            ((use_nonce >> sign_and_compare provided tt) now r.1).0 ≡ ok tt)
          stays h₃ in
      let (v, used, h₅, e₃) = bind-returns use_nonce (sign_and_compare provided) now s tt h₄ in
      let (expected, signed, h₆, e₄) =
        lift-returns (sign_params hmac self params)
          (λ expected. compare_sign hmac st expected provided) now (use_nonce now s).1 tt h₅ in
      record {
        secret = secret;
        ts = ts;
        parsed = parsed;
        near = near;
        used = used;
        signed = signed ∙ ap (λ x. ok x) (same_sign expected provided now _ h₆);
      }

  -- With the same steps passed, any signature is compared with the right one.
  pub Accepted-compare_sign :
      (right other : String) (now : ℕ) (s : st.State)
      → Accepted right now s
      → verify_params hmac st self params other now s
        ≡ compare_sign hmac st right other now (use_nonce now s).1
  Accepted-compare_sign right other now s a =
      ap (λ (m : Action st.State (Unit {0})). m now s) (goes_on other a.secret)
      ∙ rw a.parsed (
          bind-ok (with_now (check_window hmac st self a.ts))
            (λ _. use_nonce >> sign_and_compare other tt) now s tt
            (ap (λ r. r.0) (in_time a.ts now s a.near))
          ∙ ap
              (λ (r : SaTokenResult (Unit {0}) × st.State).
                (use_nonce >> sign_and_compare other tt) now r.1)
              (in_time a.ts now s a.near)
          ∙ bind-ok use_nonce (sign_and_compare other) now s tt a.used
          ∙ rw a.signed)

  -- A request that carries a right signature and has passed the other steps is accepted.
  pub Accepted-verify_params :
      (provided : String) (now : ℕ) (s : st.State)
      → Accepted provided now s
      → (verify_params hmac st self params provided now s).0 ≡ ok tt
  unfolding compare_sign
  Accepted-verify_params provided now s a =
      ap (λ r. r.0) (Accepted-compare_sign provided provided now s a)
      ∙ rw ((ct_eq-bytes_iff provided provided).1 refl)

  -- The comparison leaves the storage alone.
  pub compare_sign-state :
      (expected provided : String) (now : ℕ) (s : st.State)
      → (compare_sign hmac st expected provided now s).1 ≡ s
  unfolding compare_sign
  compare_sign-state expected provided now s =
      elim (Bool-cases (ct_eq (bytes expected) (bytes provided))) [ inl e ↦ rw e | inr e ↦ rw e ]

  pub compare_sign-wrong :
      (expected provided : String) (now : ℕ) (s : st.State)
      → expected ≢ provided
      → (compare_sign hmac st expected provided now s).0 ≡ err sign_invalid
  unfolding compare_sign
  compare_sign-wrong expected provided now s h =
      elim (Bool-cases (ct_eq (bytes expected) (bytes provided))) [
        | inl e ↦ absurd (h ((ct_eq-bytes_iff expected provided).0 e))
        | inr e ↦ rw e
      ]
