-- ===== src/Auth/Unique.antt =====
-- `generate_unique` of sa-token-core/src/token/generator.rs: tokens are generated until one is not in
-- use. `create n` is what the call of the generator number `n` returns.
use sa_token_rust.Common.{
  ℕ, zero, suc, ◌+◌, ◌≡◌, String, Bool, true, false, ok, err, if◌then◌else◌, Bool-cases, inl, inr,
  arith, ap, ◌∙◌, ◌≢◌,
}
use mathlib.Core.Path.{subst}
use sa_token_rust.Common.Text.{◌<>◌}
use sa_token_rust.Common.Decimal.{print_ℕ}
use sa_token_rust.Common.Int.{ℤ, is_positive, to_ℕ}
use sa_token_rust.Error.{SaTokenError, SaTokenResult, config_error}
use sa_token_rust.Dao.{Action, pure, throw, lift, ◌>>=◌}
use sa_token_rust.Dao.Binds.{bind-returns, lift-returns}

err-ne-ok {ℓ} : {A : Type ℓ} {e : SaTokenError} {a : A} → err e ≢ ok a
err-ne-ok h = ground arith

module _ {S : Type 0} (create : ℕ → SaTokenResult String) (occupied : String → Action S Bool) where
  not_unique : ℕ → SaTokenError
  unfolding print_ℕ
  not_unique n =
      config_error ("failed to generate a unique token after " <> print_ℕ n <> " attempts")

  -- The loop with `k` rounds left and `n` tokens created.
  unfoldable pub unique_from : ℕ → ℕ → ℕ → String → Action S String
  unfolding not_unique
  unique_from max zero n last = do
    used ← occupied last
    if used then throw (not_unique max) else pure last
  unique_from max (suc k) n last = do
    used ← occupied last
    elim used [
      | true ↦ (do next ← lift (create n); unique_from max k (n + 1) next)
      | false ↦ pure last
    ]

  unfoldable pub generate_unique : ℤ → Action S String
  unfolding unique_from
  generate_unique max_try_times =
      if is_positive max_try_times
      then (do
        first ← lift (create 0)
        unique_from (to_ℕ max_try_times) (to_ℕ max_try_times) 1 first)
      else lift (create 0)

  -- A token was looked at, and was not in use.
  abbrev pub WasFree : ℕ → String → Type 0
  WasFree now token = (s : S) × ((occupied token now s).0 ≡ ok false)

  found_free :
      (last token : String) (now : ℕ) (s s' : S)
      → (occupied last now s).0 ≡ ok false
      → ◌≡◌ {A = SaTokenResult String} (ok last) (ok token)
      → WasFree now token
  found_free last token now s s' looked h =
      subst (WasFree now) {x = last} {y = token} (ground arith) (s, looked)

  unique_from-WasFree :
      (max k n : ℕ) (last : String) (now : ℕ) (s : S) (token : String)
      → (unique_from max k n last now s).0 ≡ ok token
      → WasFree now token
  unfolding unique_from
  unique_from-WasFree max zero n last now s token h =
      let (used, looked, rest, _) =
        bind-returns (occupied last) (λ used. if used then throw (not_unique max) else pure last)
          now s token h in
      elim (Bool-cases used) [
        | inl e ↦ absurd (err-ne-ok (rw e at rest))
        | inr e ↦ found_free last token now s s (looked ∙ ap (λ x. ok x) e) (rw e at rest)
      ]
  unique_from-WasFree max (suc k) n last now s token h =
      let (used, looked, rest, _) =
        bind-returns (occupied last)
          (λ used. elim used as (λ _. Action S String) [
            | true ↦ lift (create n) >>= unique_from max k (n + 1)
            | false ↦ pure last
          ])
          now s token h in
      elim (Bool-cases used) [
        | inl e ↦
            let (next, made, again, _) =
              lift-returns (create n) (unique_from max k (n + 1)) now _ token (rw e at rest) in
            unique_from-WasFree max k (n + 1) next now _ token again
        | inr e ↦ found_free last token now s s (looked ∙ ap (λ x. ok x) e) (rw e at rest)
      ]

  -- With a positive number of tries a token that is returned was looked at and was not in use, also
  -- where the tries are used up and the last token is the one looked at after them.
  pub generate_unique-WasFree :
      (tries : ℤ) (now : ℕ) (s : S) (token : String)
      → is_positive tries ≡ true
      → (generate_unique tries now s).0 ≡ ok token
      → WasFree now token
  unfolding generate_unique
  generate_unique-WasFree tries now s token positive h =
      let (first, made, rest, _) =
        lift-returns (create 0) (unique_from (to_ℕ tries) (to_ℕ tries) 1) now s token
          (rw positive at h) in
      unique_from-WasFree (to_ℕ tries) (to_ℕ tries) 1 first now s token rest
