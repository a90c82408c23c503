-- ===== src/Sign/VerifyLaws.antt =====
-- What an accepted request has shown, and what a verification leaves behind: `verify_params` of
-- sa-token-core/src/sign.rs.
use sa_token_rust.Common.{
  ℕ, ◌^◌, ◌≤◌, ◌<◌, ◌≡◌, ◌≢◌, ◌⊎◌, refl, ap, ◌∙◌, true, false, String, Option, none, some, Result,
  ok, err,
}
use sa_token_rust.Common.Int.{ℤ, pos}
use sa_token_rust.Common.Assoc.{Assoc, lookup}
use sa_token_rust.Error.{sign_invalid}
use sa_token_rust.Storage.{SaStorage, StorageLaws, within}
use sa_token_rust.OAuth2.{as_u64}
use sa_token_rust.Keys.{sign_nonce}
use mathlib.Core.Path.{subst}
use sa_token_rust.Dao.{SaTokenDao, from_secs}
use sa_token_rust.Sign.Accepted.{
  Accepted, verify_params-Accepted, Accepted-compare_sign, use_nonce, compare_sign-state,
  compare_sign-wrong,
}
use sa_token_rust.Sign.NonceUse.{use_nonce-taken, use_nonce-leaves, nonce_ttl}
use sa_token_rust.Sign.Window.{Near, Wraps, outside_lem}
use sa_token_rust.Common.Decimal.{parse}
use sa_token_rust.Common.Decimal.RoundTrip.{parse-Fits}
use sa_token_rust.Sign.Arithmetic.{outside}
use sa_token_rust.Sign.{RequestSign, timestamp, sign_params, parse_time, verify_params}

module _ (hmac : String → String → Result String String) (st : SaStorage) (self : RequestSign) where
  verify_params-state :
      (params : Assoc String) (provided other : String) (now : ℕ) (s : st.State)
      → Accepted hmac st self params provided now s
      → (verify_params hmac st self params other now s).1 ≡ (use_nonce hmac st self params now s).1
  verify_params-state params provided other now s a =
      ap (λ r. r.1) (Accepted-compare_sign hmac st self params provided other now s a)
      ∙ compare_sign-state hmac st self params provided other now _

  parse_time-returns :
      (raw : Option String) (ts : ℤ)
      → parse_time hmac st raw ≡ some ts
      → (text : String) × (raw ≡ some text) × (parse 63 text ≡ some ts)
  unfolding parse_time
  parse_time-returns none ts h = cc
  parse_time-returns (some text) ts h = (text, refl, h)

  -- A verification under a window of `w` seconds that accepts has found a decimal time within `w`
  -- seconds of the present, or 2^63 seconds before it, and the signature that the secret gives to
  -- the parameters; the present and the window are below 2^62 seconds.
  pub verify_params-checks :
      (params : Assoc String) (provided : String) (w now : ℕ) (s : st.State)
      → self.window_secs ≡ pos w
      → w < 2 ^ 62
      → timestamp now < 2 ^ 62
      → (verify_params hmac st self params provided now s).0 ≡ ok tt
      → (text : String) × (ts : ℤ) × (lookup "timestamp" params ≡ some text)
        × (parse 63 text ≡ some ts)
        × (Near (timestamp now) ts w ⊎ Wraps (timestamp now) ts)
        × (sign_params hmac self params ≡ ok provided)
  verify_params-checks params provided w now s window small present h =
      let a = verify_params-Accepted hmac st self params provided now s h in
      let (text, found, parsed) = parse_time-returns (lookup "timestamp" params) a.ts a.parsed in
      (
        text,
        a.ts,
        found,
        parsed,
        outside_lem (timestamp now) w a.ts present small (parse-Fits text parsed)
            (subst (λ z. outside (timestamp now) a.ts z ≡ false) window a.near),
        a.signed,
      )

  module _ (laws : StorageLaws st) (dao : SaTokenDao) (has_dao : self.dao ≡ some dao)
      (nonce : String) (params : Assoc String)
      (has_nonce : lookup "nonce" params ≡ some nonce) where
    open laws use {live, deadline}

    -- A verification that gets to the comparison leaves the nonce behind.
    verify_params-leaves :
        (provided other : String) (now t : ℕ) (s : st.State)
        → now ≤ t
        → within (deadline (nonce_ttl hmac st self params laws dao nonce has_dao has_nonce) now) t
          ≡ true
        → Accepted hmac st self params provided now s
        → live (sign_nonce dao.keys nonce) t (verify_params hmac st self params other now s).1
          ≡ some "1"
    verify_params-leaves provided other now t s later fresh a =
        ap (live (sign_nonce dao.keys nonce) t) (verify_params-state params provided other now s a)
        ∙ use_nonce-leaves hmac st self params laws dao nonce has_dao has_nonce now t s later fresh
            a.used

    -- After a verification that accepts, and until the nonce's deadline, no verification accepts
    -- a request with the same nonce, whatever its other parameters and its signature, in any
    -- state in which the nonce's key holds what it held after the first.
    pub verify_params-once :
        (provided again : String) (params' : Assoc String) (now t : ℕ) (s s' : st.State)
        → lookup "nonce" params' ≡ some nonce
        → now ≤ t
        → within (deadline (some (from_secs (as_u64 self.window_secs))) now) t ≡ true
        → (verify_params hmac st self params provided now s).0 ≡ ok tt
        → live (sign_nonce dao.keys nonce) t s'
          ≡ live (sign_nonce dao.keys nonce) t (verify_params hmac st self params provided now s).1
        → (verify_params hmac st self params' again t s').0 ≢ ok tt
    verify_params-once provided again params' now t s s' same later fresh first kept second =
        use_nonce-taken hmac st self params' laws dao nonce has_dao same t s' "1"
          (kept
            ∙ verify_params-leaves provided provided now t s later fresh
                (verify_params-Accepted hmac st self params provided now s first))
          (verify_params-Accepted hmac st self params' again t s' second).used

    -- A nonce is used up before the signature is compared: where a request would be accepted, the
    -- same parameters with another signature are refused with `SignInvalid`, and the request with
    -- the right signature, sent after that and before the nonce's deadline, is not accepted.
    pub verify_params-burns :
        (provided forged : String) (now t : ℕ) (s : st.State)
        → provided ≢ forged
        → now ≤ t
        → within (deadline (some (from_secs (as_u64 self.window_secs))) now) t ≡ true
        → (verify_params hmac st self params provided now s).0 ≡ ok tt
        → ((verify_params hmac st self params forged now s).0 ≡ err sign_invalid)
          × ((verify_params hmac st self params provided t
                (verify_params hmac st self params forged now s).1).0
              ≢ ok tt)
    verify_params-burns provided forged now t s differ later fresh good =
        let a = verify_params-Accepted hmac st self params provided now s good in
        (
          ap (λ r. r.0) (Accepted-compare_sign hmac st self params provided forged now s a)
              ∙ compare_sign-wrong hmac st self params provided forged now _ differ,
          λ second.
              use_nonce-taken hmac st self params laws dao nonce has_dao has_nonce t _ "1"
                (verify_params-leaves provided forged now t s later fresh a)
                (verify_params-Accepted hmac st self params provided t _ second).used,
        )
