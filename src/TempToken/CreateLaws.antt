-- ===== src/TempToken/CreateLaws.antt =====
-- A created token is there until it expires.
use sa_token_rust.Common.{
  ℕ, zero, suc, ◌+◌, ◌≤◌, String, ◌≡◌, ◌≢◌, refl, ap, sym, ◌∙◌, Bool, true, false, Option, some, ok,
  err, arith, eq_refl, if◌then◌else◌,
}
use sa_token_rust.Common.Text.{is_empty}
use mathlib.Core.Path.{subst}
use sa_token_rust.Error.{SaTokenError, SaTokenResult}
use sa_token_rust.Storage.{SaStorage, StorageLaws, within}
use sa_token_rust.Dao.{Codec, SaTokenDao, Action, pure, lift, ◌>>=◌, set_if_absent}
use sa_token_rust.Dao.Binds.{bind-returns, lift-returns}
use sa_token_rust.Dao.Reads.{live-set_if_absent}
use sa_token_rust.TempToken.{TempTokenRecord, token_key, allocate}

abbrev pub returned : Option ℕ → SaTokenResult (Option ℕ)
returned o = ok o

abbrev pub failed : SaTokenError → SaTokenResult String
failed e = err e

abbrev pub text_of : SaTokenResult String → String
text_of (ok a) = a
text_of (err e) = ""

true-ne-false : true ≢ false
true-ne-false e = ground arith

blank : is_empty "" ≡ true
unfolding is_empty
blank = refl

module _ (st : SaStorage) (laws : StorageLaws st) (codec : Codec TempTokenRecord)
    (index_digest : String → String) (dao : SaTokenDao) (random : ℕ → SaTokenResult String)
    (namespace : String) (rec : TempTokenRecord) (ttl : Option ℕ) where
  open laws use {live, deadline}

  abbrev key : String → String
  key token = token_key st codec index_digest dao namespace token

  abbrev loop : ℕ → ℕ → Action st.State String
  loop n i = allocate st codec index_digest dao random n i namespace rec ttl

  -- The record is under the key from `now` on, until the deadline.
  abbrev Stored : String → ℕ → st.State → Type 0
  Stored token now s' =
      (raw : String) × (codec.encode rec ≡ ok raw)
      × ((t : ℕ) → now ≤ t → within (deadline ttl now) t ≡ true → live (key token) t s' ≡ some raw)

  abbrev from_inserted : ℕ → ℕ → String → Bool → Action st.State String
  from_inserted n i candidate inserted = if inserted then pure candidate else loop n (i + 1)

  abbrev from_encode : ℕ → ℕ → String → String → Action st.State String
  from_encode n i candidate raw =
      set_if_absent st (key candidate) raw ttl >>= from_inserted n i candidate

  abbrev from_draw : ℕ → ℕ → String → Action st.State String
  from_draw n i candidate = lift (codec.encode rec) >>= from_encode n i candidate

  -- The end of an attempt.
  attempt-Stored :
      (n i now : ℕ) (s : st.State) (candidate raw token : String) (inserted : Bool)
      → codec.encode rec ≡ ok raw
      → (set_if_absent st (key candidate) raw ttl now s).0 ≡ ok inserted
      → ((s' : st.State)
          → (loop n (i + 1) now s').0 ≡ ok token
          → Stored token now (loop n (i + 1) now s').1)
      → (from_inserted n i candidate inserted now
          (set_if_absent st (key candidate) raw ttl now s).1).0
        ≡ ok token
      → Stored token now
          (from_inserted n i candidate inserted now
            (set_if_absent st (key candidate) raw ttl now s).1).1
  attempt-Stored n i now s candidate raw token true encoded said further h = (
    raw,
    encoded,
    λ t le kept. ground (
      arith,
      live-set_if_absent st laws (key candidate) (key candidate) raw ttl now t s true le said,
      eq_refl (key candidate),
    ),
  )
  attempt-Stored n i now s candidate raw token false encoded said further h = further _ h

  pub allocate-Stored :
      (n i now : ℕ) (s : st.State) (token : String)
      → (loop n i now s).0 ≡ ok token
      → is_empty token ≡ false
      → Stored token now (loop n i now s).1
  unfolding allocate
  allocate-Stored zero i now s token h present =
      absurd (true-ne-false (sym blank ∙ ap is_empty (ap text_of h) ∙ present))
  allocate-Stored (suc n) i now s token h present =
      let (candidate, drawn, h₁, e₁) = lift-returns (random i) (from_draw n i) now s token h in
      let (raw, encoded, h₂, e₂) =
        lift-returns (codec.encode rec) (from_encode n i candidate) now s token h₁ in
      let (inserted, said, h₃, e₃) =
        bind-returns (set_if_absent st (key candidate) raw ttl) (from_inserted n i candidate) now s
          token h₂ in
      subst (λ s'. Stored token now s') (sym (ap (λ p. p.1) (e₁ ∙ e₂ ∙ e₃)))
        (attempt-Stored n i now s candidate raw token inserted encoded said
          (λ s' h'. allocate-Stored n (i + 1) now s' token h' present) h₃)
