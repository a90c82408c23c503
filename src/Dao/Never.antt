-- ===== src/Dao/Never.antt =====
-- Actions that never return a value.
use sa_token_rust.Common.{ℕ, ◌≢◌, ok, err, arith}
use sa_token_rust.Error.{SaTokenError}
use sa_token_rust.Dao.{Action, lift, with_now, ◌>>=◌, ◌>>◌}
use sa_token_rust.Dao.Binds.{bind-returns}

err-ne-ok {ℓ} : {A : Type ℓ} {e : SaTokenError} {a : A} → err e ≢ ok a
err-ne-ok h = ground arith

-- An action that returns no value, at no instant and in no state.
pub record Never {S A : Type 0} (m : Action S A) : Type 0 where
  pub never : (now : ℕ) (s : S) (a : A) → (m now s).0 ≢ ok a

module _ {S A : Type 0} where
  pub lift_err-Never : (e : SaTokenError) → Never (lift {S = S} {A = A} (err e))
  lift_err-Never e = record { never = λ now s a h. err-ne-ok h }

  pub with_now-Never : (f : ℕ → Action S A) → ((now : ℕ) → Never (f now)) → Never (with_now f)
  with_now-Never f h = record { never = λ now s a. (h now).never now s a }

module _ {S A B : Type 0} where
  -- Nothing returns behind an action that never does, and none whose rest never does.
  pub bind-Never_first : (m : Action S A) (f : A → Action S B) → Never m → Never (m >>= f)
  bind-Never_first m f h = record {
    never = λ now s b e.
        let (a, first, rest, same) = bind-returns m f now s b e in h.never now s a first;
  }

  pub bind-Never : (m : Action S A) (f : A → Action S B) → ((a : A) → Never (f a)) → Never (m >>= f)
  bind-Never m f h = record {
    never = λ now s b e.
        let (a, first, rest, same) = bind-returns m f now s b e in (h a).never now _ b rest;
  }

  pub then-Never_first : (m : Action S A) (k : Action S B) → Never m → Never (m >> k)
  then-Never_first m k h = bind-Never_first m (λ _. k) h

  pub then-Never : (m : Action S A) (k : Action S B) → Never k → Never (m >> k)
  then-Never m k h = bind-Never m (λ _. k) (λ _. h)
