-- ===== src/Sign/RoundTrip.antt =====
-- A signed request is accepted: `create_signed` and `verify_params` of sa-token-core/src/sign.rs.
use sa_token_rust.Common.{
  ℕ, ◌+◌, ◌^◌, ◌≤◌, ◌<◌, ◌≡◌, sym, ap, ◌∙◌, Bool, false, arith, String, none, some, Result, ok,
  Bool-cases, Result-cases, inl, inr,
}
use mathlib.Core.Path.{subst}
use sa_token_rust.Common.Int.{pos}
use sa_token_rust.Common.Text.{is_empty}
use sa_token_rust.Common.Decimal.{print, print_ℕ}
use sa_token_rust.Common.Decimal.RoundTrip.{parse-print}
use sa_token_rust.Common.Assoc.{Assoc, lookup}
use sa_token_rust.Storage.{SaStorage, StorageLaws}
use sa_token_rust.Error.{SaTokenResult}
use sa_token_rust.Dao.{SaTokenDao, from_secs, set_if_absent}
use sa_token_rust.Keys.{sign_nonce}
use sa_token_rust.OAuth2.{as_u64}
use sa_token_rust.Sign.Params.{insert, lookup-insert, canonical-sign}
use sa_token_rust.Sign.Window.{outside-Near}
use sa_token_rust.Sign.Arithmetic.{outside}
use sa_token_rust.Sign.Accepted.{Accepted, Accepted-verify_params, err-ne-ok}
use sa_token_rust.Sign.NonceUse.{use_nonce-free}
use sa_token_rust.Sign.{
  RequestSign, timestamp, stamped, sign_params, with_sign, create_signed, parse_time, verify_params,
}

ok-injective {ℓ} : {A : Type ℓ} {x y : A} → ◌≡◌ {A = SaTokenResult A} (ok x) (ok y) → x ≡ y
ok-injective h = ground arith

module _ (hmac : String → String → Result String String) (self : RequestSign) where
  sign_params-needs_secret :
      (params : Assoc String) (sign : String)
      → sign_params hmac self params ≡ ok sign
      → is_empty self.secret ≡ false
  unfolding sign_params
  sign_params-needs_secret params sign h = elim (Bool-cases (is_empty self.secret)) [
    | inl e ↦ absurd (err-ne-ok (rw e at h))
    | inr e ↦ e
  ]

  -- The signature is computed as if its own field were not there.
  sign_params-sign :
      (v : String) (params : Assoc String)
      → sign_params hmac self (insert "sign" v params) ≡ sign_params hmac self params
  unfolding sign_params
  sign_params-sign v params = rw (canonical-sign v params)

  -- What is sent is what was signed, with the signature.
  created :
      (params : Assoc String) (now : ℕ) (nonce : String) (sent : Assoc String)
      → create_signed hmac self params now (ok nonce) ≡ ok sent
      → (sign : String) × (sign_params hmac self (stamped hmac params now nonce) ≡ ok sign)
        × (sent ≡ insert "sign" sign (stamped hmac params now nonce))
  unfolding create_signed with_sign
  created params now nonce sent h =
      let ready = stamped hmac params now nonce in
      elim (Result-cases (sign_params hmac self ready)) [
        | inl (sign, e) ↦
            (sign, e, ok-injective (sym (subst (λ r. with_sign hmac ready r ≡ ok sent) e h)))
        | inr (x, e) ↦ absurd (err-ne-ok (subst (λ r. with_sign hmac ready r ≡ ok sent) e h))
      ]

  -- The time and the nonce of a request are those that were put in.
  lookup-stamped :
      (params : Assoc String) (now : ℕ) (nonce sign : String)
      → (lookup "timestamp" (insert "sign" sign (stamped hmac params now nonce))
          ≡ some (print_ℕ (timestamp now)))
        × (lookup "nonce" (insert "sign" sign (stamped hmac params now nonce)) ≡ some nonce)
        × (lookup "sign" (insert "sign" sign (stamped hmac params now nonce)) ≡ some sign)
  lookup-stamped params now nonce sign =
      let timed = insert "timestamp" (print_ℕ (timestamp now)) params in
      (
        lookup-insert "sign" "timestamp" sign (stamped hmac params now nonce)
            ∙ lookup-insert "nonce" "timestamp" nonce timed
            ∙ lookup-insert "timestamp" "timestamp" (print_ℕ (timestamp now)) params,
        lookup-insert "sign" "nonce" sign (stamped hmac params now nonce)
            ∙ lookup-insert "nonce" "nonce" nonce timed,
        lookup-insert "sign" "sign" sign (stamped hmac params now nonce),
      )

  module _ (st : SaStorage) (laws : StorageLaws st) (dao : SaTokenDao)
      (has_dao : self.dao ≡ some dao) where
    parse_time-print : (n : ℕ) → n < 2 ^ 63 → parse_time hmac st (some (print_ℕ n)) ≡ some (pos n)
    unfolding parse_time print
    parse_time-print n h = parse-print 63 (pos n) h

    -- A request that `create_signed` has signed at the instant `now` is accepted at a later one,
    -- where the window of `w` seconds, below 2^62, has not passed, the nonce is still free and the
    -- storage answers.
    pub create_signed-verify_params :
        (params sent : Assoc String) (nonce : String) (w now later : ℕ) (s : st.State) (b : Bool)
        → self.window_secs ≡ pos w
        → w < 2 ^ 62
        → timestamp now < 2 ^ 63
        → timestamp now ≤ timestamp later
        → timestamp later ≤ timestamp now + w
        → create_signed hmac self params now (ok nonce) ≡ ok sent
        → laws.live (sign_nonce dao.keys nonce) later s ≡ none
        → (set_if_absent st
            (sign_nonce dao.keys nonce)
            "1"
            (some (from_secs (as_u64 self.window_secs)))
            later
            s).0
          ≡ ok b
        → (sign : String) × (lookup "sign" sent ≡ some sign)
          × ((verify_params hmac st self sent sign later s).0 ≡ ok tt)
    create_signed-verify_params params sent nonce w now later s b window small fits past near made
          free answers =
        let (sign, signed, same) = created params now nonce sent made in
        let ready = insert "sign" sign (stamped hmac params now nonce) in
        let (time_in, nonce_in, sign_in) = lookup-stamped params now nonce sign in
        let near' : outside (timestamp later) (pos (timestamp now)) self.window_secs ≡ false =
          subst (λ z. outside (timestamp later) (pos (timestamp now)) z ≡ false) (sym window)
            (outside-Near (timestamp later) w (pos (timestamp now)) small (omega arith, near)) in
        let steps : Accepted hmac st self ready sign later s = record {
          secret = sign_params-needs_secret _ sign signed;
          ts = pos (timestamp now);
          parsed = ap (parse_time hmac st) time_in ∙ parse_time-print (timestamp now) fits;
          near = near';
          used =
              use_nonce-free hmac st self ready laws dao nonce has_dao nonce_in later s b free
                answers;
          signed = sign_params-sign sign (stamped hmac params now nonce) ∙ signed;
        } in
        subst
          (λ p.
            (x : String) × (lookup "sign" p ≡ some x)
            × ((verify_params hmac st self p x later s).0 ≡ ok tt))
          (sym same) (sign, sign_in, Accepted-verify_params hmac st self ready sign later s steps)
