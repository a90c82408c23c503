-- ===== src/SameToken/RotationLaws.antt =====
-- What a refresh of the Same-Token returns and leaves.
use sa_token_rust.Common.{
  ℕ, String, ◌≡◌, ap, sym, ◌∙◌, Bool, true, false, Option, none, some, ok, arith, eq_refl,
}
use sa_token_rust.Common.Int.{ℤ}
use sa_token_rust.Error.{SaTokenError, SaTokenResult, same_token_invalid}
use sa_token_rust.Storage.{SaStorage, StorageLaws, within}
use sa_token_rust.Keys.{same_token}
use sa_token_rust.Dao.{Action, ok_or, lift, ◌>>=◌, ◌>>◌, SaTokenDao, get_string, cas}
use sa_token_rust.Dao.Binds.{bind-returns, lift-returns}
use sa_token_rust.Dao.Reads.{get_string_lem, live-get_string, live-cas}
use sa_token_rust.SameToken.{ttl, non_empty, keep_past, interfere, settle, refresh_token}

non_empty-some : (o : Option String) (a : String) → non_empty o ≡ some a → o ≡ some a
unfolding non_empty
non_empty-some none a h = ground arith
non_empty-some (some s) a h = ground arith

ok_or-some :
    {S : Type 0} (e : SaTokenError) (o : Option String) (now : ℕ) (s : S) (a : String)
    → (ok_or e o now s).0 ≡ ok a
    → (o ≡ some a) × ((ok_or e o now s).1 ≡ s)
ok_or-some e none now s a h = ground arith
ok_or-some e (some b) now s a h = ground arith

module _ (st : SaStorage) (laws : StorageLaws st) (dao : SaTokenDao) (timeout : ℤ)
    (generate_token : SaTokenResult String) where
  open laws use {live, deadline}

  abbrev key : String
  key = same_token dao.keys

  abbrev ttl_opt : Option ℕ
  ttl_opt = ttl timeout

  settle-stored :
      (next : String) (expected : Option String) (won : Bool) (now : ℕ) (s : st.State)
      (token : String)
      → within (deadline ttl_opt now) now ≡ true
      → (cas st key expected next ttl_opt now s).0 ≡ ok won
      → (settle st dao timeout next won now (cas st key expected next ttl_opt now s).1).0 ≡ ok token
      → live key now
          (settle st dao timeout next won now (cas st key expected next ttl_opt now s).1).1
        ≡ some token
  unfolding settle
  settle-stored next expected true now s token kept swapped h = ground (
    arith,
    live-cas st laws key key expected next ttl_opt now now s true (omega arith) swapped,
    eq_refl key,
  )
  settle-stored next expected false now s token kept swapped h =
      let s₁ = (cas st key expected next ttl_opt now s).1 in
      let (stored, read, h₁, e₁) =
        bind-returns (get_string st key) (λ o. ok_or same_token_invalid (non_empty o)) now s₁ token
          h in
      let (there, same) =
        ok_or-some same_token_invalid (non_empty stored) now (get_string st key now s₁).1 token
          h₁ in
      ap (λ p. live key now p.1) e₁
      ∙ ap (live key now) same
      ∙ live-get_string st laws key key now now s₁ (omega arith)
      ∙ sym (get_string_lem st laws key now s₁ stored read)
      ∙ non_empty-some stored token there

  -- The rest of a refresh, from its compare-and-swap on and from its read on.
  abbrev from_swap : Option String → String → Action st.State String
  from_swap current next = do
    won ← cas st key (non_empty current) next ttl_opt
    settle st dao timeout next won

  abbrev from_read : (st.State → st.State) → Option String → Action st.State String
  from_read others current = do
    keep_past st dao timeout (non_empty current)
    interfere st dao timeout others
    next ← lift generate_token
    from_swap current next

  -- Whatever other tasks write between the read and the compare-and-swap, a refresh that returns a
  -- token returns the one that is stored, its own or that of the task that won, if its time to live
  -- has not run out at once.
  pub refresh_token-stored :
      (others : st.State → st.State) (now : ℕ) (s : st.State) (token : String)
      → within (deadline ttl_opt now) now ≡ true
      → (refresh_token st dao timeout generate_token others now s).0 ≡ ok token
      → live key now (refresh_token st dao timeout generate_token others now s).1 ≡ some token
  unfolding refresh_token
  refresh_token-stored others now s token kept h =
      let (current, read, h₁, e₁) =
        bind-returns (get_string st key) (from_read others) now s token h in
      let s₁ = (get_string st key now s).1 in
      let keep = keep_past st dao timeout (non_empty current) in
      let rest = (lift generate_token >>= from_swap current) in
      let (u, past, h₂, e₂) =
        bind-returns keep (λ u. interfere st dao timeout others >> rest) now s₁ token h₁ in
      let s₂ = others (keep now s₁).1 in
      let (next, drawn, h₃, e₃) = lift-returns generate_token (from_swap current) now s₂ token h₂ in
      let (won, swapped, h₄, e₄) =
        bind-returns (cas st key (non_empty current) next ttl_opt) (settle st dao timeout next) now
          s₂ token h₃ in
      ap (λ p. live key now p.1) (e₁ ∙ e₂ ∙ e₃ ∙ e₄)
      ∙ settle-stored next (non_empty current) won now s₂ token kept swapped h₄
