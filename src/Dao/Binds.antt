-- ===== src/Dao/Binds.antt =====
-- How a chain of actions goes on.
use sa_token_rust.Common.{
  ℕ, ◌≡◌, ◌≢◌, ap, sym, ◌∙◌, ok, err, Result-cases, inl, inr, arith, refl, Option, none, some, Bool,
  true, false, if◌then◌else◌,
}
use sa_token_rust.Error.{SaTokenError, SaTokenResult}
use sa_token_rust.Dao.{Action, pure, throw, ok_or, lift, handle, ◌>>=◌}

refuse {ℓ} : {B : Type ℓ} {x : SaTokenError} {b : B} → err x ≢ ok b
refuse h = ground arith

module _ {ℓ} {S A B : Type ℓ} where
  abbrev continue : (A → Action S B) → ℕ → S → SaTokenResult A → SaTokenResult B × S
  continue f now s r = elim r [ ok a ↦ f a now s | err e ↦ (err e, s) ]

  abbrev handled :
      (A → Action S B) → (SaTokenError → Action S B) → ℕ → S → SaTokenResult A → SaTokenResult B × S
  handled k h now s r = elim r [ ok a ↦ k a now s | err e ↦ h e now s ]

  pub bind-ok :
      (m : Action S A) (f : A → Action S B) (now : ℕ) (s : S) (a : A)
      → (m now s).0 ≡ ok a
      → (m >>= f) now s ≡ f a now (m now s).1
  bind-ok m f now s a e = ap (continue f now (m now s).1) e

  pub bind-err :
      (m : Action S A) (f : A → Action S B) (now : ℕ) (s : S) (x : SaTokenError)
      → (m now s).0 ≡ err x
      → (m >>= f) now s ≡ (err x, (m now s).1)
  bind-err m f now s x e = ap (continue f now (m now s).1) e

  -- A chain that returns has gone through its first action.
  pub bind-returns :
      (m : Action S A) (f : A → Action S B) (now : ℕ) (s : S) (b : B)
      → ((m >>= f) now s).0 ≡ ok b
      → (a : A) × ((m now s).0 ≡ ok a)
        × ((f a now (m now s).1).0 ≡ ok b)
        × ((m >>= f) now s ≡ f a now (m now s).1)
  bind-returns m f now s b h = elim (Result-cases (m now s).0) [
    | inl (a, e) ↦ (a, e, sym (ap (λ p. p.0) (bind-ok m f now s a e)) ∙ h, bind-ok m f now s a e)
    | inr (x, e) ↦ absurd (refuse (sym (ap (λ p. p.0) (bind-err m f now s x e)) ∙ h))
  ]

  -- The same for a value that has to be there, and for a result.
  pub ok_or-returns :
      (e : SaTokenError) (o : Option A) (f : A → Action S B) (now : ℕ) (s : S) (b : B)
      → ((ok_or e o >>= f) now s).0 ≡ ok b
      → (a : A) × (o ≡ some a) × ((f a now s).0 ≡ ok b) × ((ok_or e o >>= f) now s ≡ f a now s)
  ok_or-returns e none f now s b h = absurd (ground arith)
  ok_or-returns e (some a) f now s b h = (a, refl, h, refl)

  pub lift-returns :
      (r : SaTokenResult A) (f : A → Action S B) (now : ℕ) (s : S) (b : B)
      → ((lift r >>= f) now s).0 ≡ ok b
      → (a : A) × (r ≡ ok a) × ((f a now s).0 ≡ ok b) × ((lift r >>= f) now s ≡ f a now s)
  lift-returns (ok a) f now s b h = (a, refl, h, refl)
  lift-returns (err e) f now s b h = absurd (ground arith)

  -- A chain that handles failures, and fails after each, has not met one if it returns.
  pub handle-returns :
      (m : Action S A) (k : A → Action S B) (h : SaTokenError → Action S B) (now : ℕ) (s : S)
      (b : B)
      → ((e : SaTokenError) (s' : S) → (h e now s').0 ≢ ok b)
      → (handle m k h now s).0 ≡ ok b
      → (a : A) × ((m now s).0 ≡ ok a)
        × ((k a now (m now s).1).0 ≡ ok b)
        × (handle m k h now s ≡ k a now (m now s).1)
  handle-returns m k h now s b fails e = elim (Result-cases (m now s).0) [
    | inl (a, f) ↦ (
      a,
      f,
      sym (ap (λ r. (handled k h now (m now s).1 r).0) f) ∙ e,
      ap (handled k h now (m now s).1) f,
    )
    | inr (x, f) ↦
        absurd (fails x (m now s).1 (sym (ap (λ r. (handled k h now (m now s).1 r).0) f) ∙ e))
  ]

  -- `if !good { return Err(e) }`.
  pub guard-returns :
      (good : Bool) (e : SaTokenError) (u : A) (k : A → Action S B) (now : ℕ) (s : S) (b : B)
      → ((((if good then pure u else throw e) >>= k) now s).0 ≡ ok b)
      → (good ≡ true)
        × ((k u now s).0 ≡ ok b)
        × (((if good then pure u else throw e) >>= k) now s ≡ k u now s)
  guard-returns true e u k now s b h = (refl, h, refl)
  guard-returns false e u k now s b h = absurd (ground arith)
