-- ===== src/Router/Decision.antt =====
-- What a request that is let through has shown.
use sa_token_rust.Common.{
  String, ◌≡◌, refl, true, false, Option, none, some, ok, arith, Result-cases, Bool-cases, inl, inr,
  ◌⊎◌, ◌↔◌,
}
use sa_token_rust.Router.{
  PathAuthConfig, check, validate_login_id, TokenInfo, Manager, should_reject, lookup_token, admits,
  process_auth,
}

module _ (manager : Manager) (path : String) (config : PathAuthConfig) (s : manager.State) where
  pub process_auth-admitted :
      (token_str : Option String)
      → check config path ≡ true
      → should_reject (process_auth manager path token_str config s).0 ≡ false
      → (t : String) × (info : TokenInfo) × (token_str ≡ some t)
        × ((manager.is_valid t s).0 ≡ true)
        × ((manager.get_token_info t (manager.is_valid t s).1).0 ≡ ok info)
        × (validate_login_id config info.login_id ≡ true)
  unfolding process_auth should_reject lookup_token admits
  process_auth-admitted none need h = absurd (ground arith)
  process_auth-admitted (some t) need h =
      elim (Result-cases (manager.get_token_info t (manager.is_valid t s).1).0) [
        | inl (info, found) ↦ (t, info, refl, ground arith, found, ground arith)
        | inr (e, failed) ↦ absurd (ground arith)
      ]

  -- What an admitted request shows.
  abbrev pub Admitted : Option String → Type 0
  Admitted token_str =
      (t : String) × (info : TokenInfo) × (token_str ≡ some t)
      × ((manager.is_valid t s).0 ≡ true)
      × ((manager.get_token_info t (manager.is_valid t s).1).0 ≡ ok info)
      × (validate_login_id config info.login_id ≡ true)

  let_through :
      (token_str : Option String)
      → Admitted token_str
      → should_reject (process_auth manager path token_str config s).0 ≡ false
  unfolding process_auth should_reject lookup_token admits
  let_through none (t, info, sent, valid, found, accepted) = absurd (ground arith)
  let_through (some u) (t, info, sent, valid, found, accepted) =
      let same : u ≡ t = ground arith in rw same (rw (valid, found) (ground arith))

  open_path :
      (token_str : Option String)
      → check config path ≡ false
      → should_reject (process_auth manager path token_str config s).0 ≡ false
  unfolding process_auth should_reject
  open_path token_str free = ground arith

  -- A request is let through exactly if its path needs no authentication, or if it carries a token
  -- that the manager finds valid, whose record the manager returns, and whose login id the validator
  -- takes: no other request passes, and none of these is rejected.
  pub process_auth_iff :
      (token_str : Option String)
      → (should_reject (process_auth manager path token_str config s).0 ≡ false)
        ↔ ((check config path ≡ false) ⊎ Admitted token_str)
  process_auth_iff token_str = (
    λ passed. elim (Bool-cases (check config path)) [
      | inl need ↦ inr (process_auth-admitted token_str need passed)
      | inr free ↦ inl free
    ],
    λ shown. elim shown [
      | inl free ↦ open_path token_str free
      | inr admitted ↦ let_through token_str admitted
    ],
  )
