-- ===== src/SameToken.antt =====
-- The Same-Token: sa-token-core/src/same_token.rs, a secret that the services of a cluster share.
--
-- The process-wide manager that the functions look up is their argument: its data access layer and
-- its configuration. The result of `random_hex` is the argument `generate_token`, and so is what other tasks do
-- to the storage between the read and the compare-and-swap of `refresh_token`.
pub mod RotationLaws
use sa_token_rust.Common.{ℕ, String, Bool, true, false, Option, none, some, not, ok, if◌then◌else◌}
use sa_token_rust.Common.Int.{ℤ, is_positive, to_ℕ}
use sa_token_rust.Common.Text.{is_empty}
use sa_token_rust.Error.{SaTokenResult, same_token_invalid}
use sa_token_rust.Storage.{SaStorage}
use sa_token_rust.Keys.{same_token, same_token_past}
use sa_token_rust.Memory.Shard.{bytes}
use sa_token_rust.HttpBasic.{ct_eq}
use sa_token_rust.Dao.{
  Action, pure, throw, ok_or, lift, ◌>>=◌, ◌>>◌, from_secs, SaTokenDao, get_string, set_string, cas,
}

unfoldable pub ttl : ℤ → Option ℕ
unfolding from_secs
ttl timeout_secs = if is_positive timeout_secs then some (from_secs (to_ℕ timeout_secs)) else none

-- `.filter(|s| !s.is_empty())`.
unfoldable pub non_empty : Option String → Option String
unfolding is_empty
non_empty none = none
non_empty (some s) = if is_empty s then none else some s

-- `as_deref().is_some_and(|c| ct_eq(c, token))`.
unfoldable pub is_same : Option String → String → Bool
unfolding ct_eq bytes
is_same none token = false
is_same (some c) token = ct_eq (bytes c) (bytes token)

module _ (st : SaStorage) (dao : SaTokenDao) (same_token_timeout : ℤ) where
  unfoldable pub get_token_nh : Action st.State (Option String)
  get_token_nh = get_string st (same_token dao.keys)

  unfoldable pub get_past_token_nh : Action st.State (Option String)
  get_past_token_nh = get_string st (same_token_past dao.keys)

  -- The write of the current value to the past one.
  unfoldable pub keep_past : Option String → Action st.State (Unit {0})
  unfolding ttl
  keep_past none = pure tt
  keep_past (some cur) = set_string st (same_token_past dao.keys) cur (ttl same_token_timeout)

  abbrev pub interfere : (st.State → st.State) → Action st.State (Unit {0})
  interfere f now s = (ok tt, f s)

  -- What follows the compare-and-swap.
  unfoldable pub settle : String → Bool → Action st.State String
  unfolding non_empty
  settle next true = pure next
  settle next false = do
    stored ← get_string st (same_token dao.keys)
    ok_or same_token_invalid (non_empty stored)

  unfoldable pub refresh_token :
      SaTokenResult String → (st.State → st.State) → Action st.State String
  unfolding keep_past settle non_empty ttl
  refresh_token generate_token others = do
    current ← get_string st (same_token dao.keys)
    keep_past (non_empty current)
    interfere others
    next ← lift generate_token
    won ← cas st (same_token dao.keys) (non_empty current) next (ttl same_token_timeout)
    settle next won

  -- What `get_token` does with what it read.
  unfoldable pub or_refresh :
      SaTokenResult String → (st.State → st.State) → Option String → Action st.State String
  unfolding refresh_token
  or_refresh generate_token others none = refresh_token generate_token others
  or_refresh generate_token others (some existing) = pure existing

  unfoldable pub get_token : SaTokenResult String → (st.State → st.State) → Action st.State String
  unfolding get_token_nh or_refresh non_empty
  get_token generate_token others = do
    existing ← get_token_nh
    or_refresh generate_token others (non_empty existing)

  unfoldable pub is_valid : String → Action st.State Bool
  unfolding get_token_nh get_past_token_nh is_same is_empty
  is_valid token = if is_empty token then pure false else (do
    current ← get_token_nh
    if is_same current token
        then pure true
        else (do past ← get_past_token_nh; pure (is_same past token)))

  unfoldable pub check_token : String → Action st.State (Unit {0})
  unfolding is_valid
  check_token token = do valid ← is_valid token; if valid then pure tt else throw same_token_invalid
