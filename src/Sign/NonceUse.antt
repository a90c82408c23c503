-- ===== src/Sign/NonceUse.antt =====
-- A nonce is used up by a verification that gets to it: sa-token-core/src/sign.rs.
use sa_token_rust.Common.{
  ℕ, ◌≤◌, ◌≡◌, ◌≢◌, refl, sym, ap, ◌∙◌, Bool, true, false, arith, String, Option, none, some,
  Result, ok, eq_refl,
}
use sa_token_rust.Common.Assoc.{Assoc, lookup}
use sa_token_rust.Storage.{SaStorage, StorageLaws, within}
use sa_token_rust.OAuth2.{as_u64}
use sa_token_rust.Keys.{sign_nonce}
use sa_token_rust.Dao.Reads.{set_if_absent_lem, live-set_if_absent}
use sa_token_rust.Dao.Binds.{bind-ok, bind-returns}
use sa_token_rust.Dao.{Action, ◌>>=◌, SaTokenDao, from_secs, set_if_absent}
use sa_token_rust.Sign.Accepted.{use_nonce, err-ne-ok}
use sa_token_rust.Sign.{RequestSign, refuse_used, consume_nonce}

module _ (hmac : String → String → Result String String) (st : SaStorage) (self : RequestSign)
    (params : Assoc String) (laws : StorageLaws st) (dao : SaTokenDao) (nonce : String)
    (has_dao : self.dao ≡ some dao) (has_nonce : lookup "nonce" params ≡ some nonce) where
  open laws use {live, deadline}

  -- The key of the nonce, and how long it stays.
  abbrev pub key : String
  key = sign_nonce dao.keys nonce

  abbrev pub nonce_ttl : Option ℕ
  nonce_ttl = some (from_secs (as_u64 self.window_secs))

  claim : Action st.State Bool
  claim = set_if_absent st key "1" nonce_ttl

  use_nonce-claims :
      (now : ℕ) (s : st.State)
      → use_nonce hmac st self params now s ≡ (claim >>= refuse_used hmac st) now s
  unfolding consume_nonce claim
  use_nonce-claims now s = rw (has_nonce, has_dao)

  not_refused :
      (b : Bool) (now : ℕ) (s : st.State)
      → (refuse_used hmac st b now s).0 ≡ ok tt
      → (b ≡ true) × (refuse_used hmac st b now s ≡ (ok tt, s))
  unfolding refuse_used
  not_refused true now s h = (refl, refl)
  not_refused false now s h = absurd (err-ne-ok h)

  -- The nonce is used up when it was free.
  claimed :
      (now : ℕ) (s : st.State)
      → (use_nonce hmac st self params now s).0 ≡ ok tt
      → ((claim now s).0 ≡ ok true) × ((use_nonce hmac st self params now s).1 ≡ (claim now s).1)
  claimed now s h =
      let (b, e, r, same) =
        bind-returns claim (refuse_used hmac st) now s tt
          (ap (λ r. r.0) (sym (use_nonce-claims now s)) ∙ h) in
      let (free, stays) = not_refused b now (claim now s).1 r in
      (
        e ∙ ap (λ x. ok x) free,
        ap (λ r. r.1) (use_nonce-claims now s) ∙ ap (λ r. r.1) same ∙ ap (λ r. r.1) stays,
      )

  -- A nonce that is still there is refused.
  pub use_nonce-taken :
      (now : ℕ) (s : st.State) (v : String)
      → live key now s ≡ some v
      → (use_nonce hmac st self params now s).0 ≢ ok tt
  unfolding claim
  use_nonce-taken now s v taken h =
      ground (arith, claimed now s h, set_if_absent_lem st laws key "1" nonce_ttl now s true)

  -- One that is free is used up, where the storage answers.
  pub use_nonce-free :
      (now : ℕ) (s : st.State) (b : Bool)
      → live key now s ≡ none
      → (set_if_absent st key "1" nonce_ttl now s).0 ≡ ok b
      → (use_nonce hmac st self params now s).0 ≡ ok tt
  unfolding claim refuse_used
  use_nonce-free now s b free answers =
      let inserted : b ≡ true =
        ground (arith, set_if_absent_lem st laws key "1" nonce_ttl now s b answers) in
      ap (λ r. r.0) (use_nonce-claims now s)
      ∙ ap (λ r. r.0) (bind-ok claim (refuse_used hmac st) now s b answers)
      ∙ rw inserted

  -- One that is used up is there until its deadline.
  pub use_nonce-leaves :
      (now t : ℕ) (s : st.State)
      → now ≤ t
      → within (deadline nonce_ttl now) t ≡ true
      → (use_nonce hmac st self params now s).0 ≡ ok tt
      → live key t (use_nonce hmac st self params now s).1 ≡ some "1"
  unfolding claim
  use_nonce-leaves now t s later fresh h =
      let (e, state) = claimed now s h in
      ap (live key t) state
      ∙ ground (
        arith,
        live-set_if_absent st laws key key "1" nonce_ttl now t s true later e,
        eq_refl key,
      )
