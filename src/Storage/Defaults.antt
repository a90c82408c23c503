-- ===== src/Storage/Defaults.antt =====
-- The trait's default methods, and the page loop `scan_all_keys`.
use sa_token_rust.Common.{
  ℕ, zero, suc, arith, ◌≡◌, String, Option, none, some, List, [], ◌∷◌, ◌++◌, ok, err, eqb,
  if◌then◌else◌,
}
use sa_token_rust.Common.Int.{ℤ, pos, or_zero, succ_i64, pred_i64}
use sa_token_rust.Common.Decimal.{parse, print}
use sa_token_rust.Storage.{StorageResult, SaStorage, ScanPage}

-- An operation that runs at an instant on a backend's state.
abbrev pub Step {ℓ} : Type ℓ → Type ℓ → Type ℓ
Step S A = ℕ → S → StorageResult A × S

abbrev pub pure {ℓ} : {S A : Type ℓ} → A → Step S A
pure a now s = (ok a, s)

infixl 10 ◌>>=◌
abbrev pub ◌>>=◌ {ℓ} : {S A B : Type ℓ} → Step S A → (A → Step S B) → Step S B
◌>>=◌ m f now s = let (r, s') = m now s in elim r [ ok a ↦ f a now s' | err e ↦ (err e, s') ]

infixl 10 ◌>>◌
abbrev pub ◌>>◌ {ℓ} : {S A B : Type ℓ} → Step S A → Step S B → Step S B
m >> k = m >>= λ _. k

module _ (st : SaStorage) where
  unfoldable pub mget : List String → Step st.State (List (Option String))
  mget [] = pure []
  mget (key ∷ keys) = do v ← st.get key; rest ← mget keys; pure (v ∷ rest)

  unfoldable pub mset : List (String × String) → Option ℕ → Step st.State (Unit {0})
  mset [] ttl = pure tt
  mset ((key, value) ∷ items) ttl = do st.set key value ttl; mset items ttl

  unfoldable pub mdel : List String → Step st.State (Unit {0})
  mdel [] = pure tt
  mdel (key ∷ keys) = do st.delete key; mdel keys

  -- The number behind a text, or else zero.
  unfoldable pub number : Option String → ℤ
  unfolding parse
  number none = pos 0
  number (some raw) = or_zero (parse 63 raw)

  unfoldable pub incr : String → Step st.State ℤ
  unfolding number print succ_i64
  incr key = do
    current ← st.get key
    st.set key (print (succ_i64 (number current))) none
    pure (succ_i64 (number current))

  unfoldable pub decr : String → Step st.State ℤ
  unfolding number print pred_i64
  decr key = do
    current ← st.get key
    st.set key (print (pred_i64 (number current))) none
    pure (pred_i64 (number current))

  -- The loop of `scan_all_keys`, on fuel; `none` means that the fuel ran out.
  unfoldable pub scan_from : ℕ → String → ℕ → ℕ → List String → Step st.State (Option (List String))
  scan_from zero pattern page_size cursor found = pure none
  scan_from (suc fuel) pattern page_size cursor found = do
    page ← st.scan pattern cursor page_size
    let found' = found ++ page.keys
    let rest = scan_from fuel pattern page_size page.next_cursor found'
    if eqb page.next_cursor 0 then pure (some found') else rest

  unfoldable pub scan_all_keys : ℕ → String → ℕ → Step st.State (Option (List String))
  unfolding scan_from
  scan_all_keys fuel pattern page_size = scan_from fuel pattern page_size 0 []

  -- One round of the page loop, once the page is known.
  pub scan_from-page :
      (fuel : ℕ) (pattern : String) (size cursor : ℕ) (found : List String) (now : ℕ)
      (s s' : st.State) (page : ScanPage)
      → st.scan pattern cursor size now s ≡ (ok page, s')
      → scan_from (suc fuel) pattern size cursor found now s ≡ (
          if eqb page.next_cursor 0
          then (ok (some (found ++ page.keys)), s')
          else scan_from fuel pattern size page.next_cursor (found ++ page.keys) now s')
  unfolding scan_from
  scan_from-page fuel pattern size cursor found now s s' page e = ground arith
