-- ===== src/Nonce/Once.antt =====
-- A nonce is consumed once.
use sa_token_rust.Common.{
  ℕ, ◌≤◌, String, ◌≡◌, ◌≢◌, refl, Bool, true, false, ok, err, arith, eq_iff, is_some, Result-cases,
  Bool-cases, inl, inr, ◌⊎◌, eq_refl,
}
use sa_token_rust.Common.Text.{is_empty, trim}
use sa_token_rust.Error.{
  SaTokenError, SaTokenResult, storage_error, invalid_token, nonce_already_used,
}
use sa_token_rust.Storage.{SaStorage, StorageLaws, within}
use sa_token_rust.Dao.{Codec, set_if_absent, ◌>>=◌}
use sa_token_rust.Dao.Reads.{set_if_absent-cases, set_if_absent_lem, live-set_if_absent}
use sa_token_rust.Nonce.{
  NonceRecord, NonceManager, new_record, ttl, key, validate_and_consume, refuse_used,
}

module _ (st : SaStorage) (laws : StorageLaws st) (codec : Codec NonceRecord)
    (to_rfc3339 : ℕ → String) (self : NonceManager) where
  open laws use {live, deadline}

  abbrev consume : String → String → ℕ → st.State → SaTokenResult (Unit {0}) × st.State
  consume n a = validate_and_consume st codec to_rfc3339 self n a

  abbrev answered : SaTokenResult Bool → st.State → SaTokenResult (Unit {0}) × st.State
  answered (ok true) s = (ok tt, s)
  answered (ok false) s = (err nonce_already_used, s)
  answered (err e) s = (err e, s)

  answered-bind :
      (r : SaTokenResult Bool) (now : ℕ) (s s' : st.State)
      → ((λ now s. (r, s')) >>= λ b. refuse_used st codec to_rfc3339 b) now s ≡ answered r s'
  unfolding refuse_used
  answered-bind (ok true) now s s' = refl
  answered-bind (ok false) now s s' = refl
  answered-bind (err e) now s s' = refl

  -- A call asks the storage for the key, or fails before.
  consume-cases :
      (n a : String) (now : ℕ) (s : st.State)
      → ((raw : String) × (consume n a now s
            ≡ (let (r, s') = set_if_absent st (key self n) raw (ttl self) now s in answered r s')))
        ⊎ ((e : SaTokenError) × (consume n a now s ≡ (err e, s)))
  unfolding validate_and_consume
  consume-cases n a now s = elim (Bool-cases (is_empty (trim n))) [
    | inl blank ↦ inr (invalid_token "nonce must not be empty", rw blank refl)
    | inr given ↦ elim (Result-cases (codec.encode (new_record st codec to_rfc3339 a now))) [
      | inl (raw, written) ↦ inl (raw, rw (given, written) (answered-bind _ now s _))
      | inr (e, failed) ↦ inr (e, rw (given, failed) refl)
    ]
  ]

  -- A nonce that is taken is refused.
  refused :
      (n a : String) (now : ℕ) (s : st.State)
      → is_some (live (key self n) now s) ≡ true
      → (consume n a now s).0 ≢ ok tt
  refused n a now s taken e = elim (consume-cases n a now s) [
    | inl (raw, asked) ↦ elim (set_if_absent-cases st laws (key self n) raw (ttl self) now s) [
      | inl (b, said) ↦
          ground (arith, set_if_absent_lem st laws (key self n) raw (ttl self) now s b said)
      | inr (m, failed) ↦ ground arith
    ]
    | inr (f, failed) ↦ ground arith
  ]

  abbrev DoesNotFail : SaTokenResult (Unit {0}) → Type 0
  DoesNotFail r = (e : String) → r ≢ err (storage_error e)

  -- A key that is taken stays taken, whatever nonce is consumed.
  stays_taken :
      (k n a : String) (now t : ℕ) (s : st.State)
      → now ≤ t
      → DoesNotFail (consume n a now s).0
      → is_some (live k now s) ≡ true
      → is_some (live k t s) ≡ true
      → is_some (live k t (consume n a now s).1) ≡ true
  stays_taken k n a now t s le answers here there = elim (consume-cases n a now s) [
    | inl (raw, asked) ↦ elim (set_if_absent-cases st laws (key self n) raw (ttl self) now s) [
      | inl (b, said) ↦ ground (
        arith,
        set_if_absent_lem st laws (key self n) raw (ttl self) now s b said,
        live-set_if_absent st laws (key self n) k raw (ttl self) now t s b le said,
        eq_iff (key self n) k,
      )
      | inr (m, failed) ↦ absurd (answers m (rw (asked, failed) refl))
    ]
    | inr (f, failed) ↦ ground arith
  ]

  -- What a successful call leaves: the nonce is taken until its deadline.
  taken :
      (n a : String) (now t : ℕ) (s : st.State)
      → now ≤ t
      → within (deadline (ttl self) now) t ≡ true
      → (consume n a now s).0 ≡ ok tt
      → is_some (live (key self n) t (consume n a now s).1) ≡ true
  taken n a now t s le kept e = elim (consume-cases n a now s) [
    | inl (raw, asked) ↦ elim (set_if_absent-cases st laws (key self n) raw (ttl self) now s) [
      | inl (b, said) ↦ ground (
        arith,
        live-set_if_absent st laws (key self n) (key self n) raw (ttl self) now t s b le said,
        eq_refl (key self n),
      )
      | inr (m, failed) ↦ absurd (ground arith)
    ]
    | inr (f, failed) ↦ absurd (ground arith)
  ]

  -- Calls of `validate_and_consume` one after another, for any nonces and login ids, none of which
  -- ends in a storage error.
  pub data Calls (t₀ : ℕ) (s₀ : st.State) : ℕ → st.State → Type 0 where
    start : Calls t₀ s₀ t₀ s₀
    call :
        (t : ℕ) (s : st.State)
        → Calls t₀ s₀ t s
        → (n a : String) (t' : ℕ) → t ≤ t'
        → DoesNotFail (consume n a t' s).0
        → Calls t₀ s₀ t' (consume n a t' s).1

  abbrev IsTaken : String → ℕ → ℕ → st.State → Type 0
  IsTaken n now t s =
      (u : ℕ)
      → t ≤ u
      → within (deadline (ttl self) now) u ≡ true
      → is_some (live (key self n) u s) ≡ true

  Calls-IsTaken :
      (n : String) (now : ℕ) (s₀ : st.State) (t : ℕ) (s : st.State)
      → IsTaken n now now s₀
      → Calls now s₀ t s
      → IsTaken n now t s
  Calls-IsTaken n now s₀ t s first start = first
  Calls-IsTaken n now s₀ t s first (call t₁ s₁ before m b t' le answers) = λ u later kept.
      let before_taken = Calls-IsTaken n now s₀ t₁ s₁ first before in
      stays_taken (key self n) m b t u s₁ later answers (before_taken t' le (ground arith))
        (before_taken u (omega arith) kept)

  -- A nonce that was consumed is refused until its deadline, whoever presents it, and whatever
  -- nonces were consumed in between.
  pub validate_and_consume-once :
      (n a b : String) (now t u : ℕ) (s s' : st.State)
      → (consume n a now s).0 ≡ ok tt
      → Calls now (consume n a now s).1 t s'
      → t ≤ u
      → within (deadline (ttl self) now) u ≡ true
      → (consume n b u s').0 ≢ ok tt
  validate_and_consume-once n a b now t u s s' first between later kept = refused n b u s' (
      Calls-IsTaken n now (consume n a now s).1 t s' (λ v le kept. taken n a now v s le kept first)
        between u later kept)
