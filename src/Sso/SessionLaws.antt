-- ===== src/Sso/SessionLaws.antt =====
-- A client that is added to a session is added to the session that was there.
use sa_token_rust.Common.{
  ℕ, zero, suc, ◌≤◌, String, ◌≡◌, ap, sym, ◌∙◌, Bool, true, false, Option, none, some, ok, arith,
  ◌==◌, if◌then◌else◌, option_eq_iff,
}
use mathlib.Core.Path.{subst}
use sa_token_rust.Storage.{SaStorage, StorageLaws}
use sa_token_rust.Dao.{Codec, SaTokenDao, Action, lift, ◌>>=◌, ◌>>◌, get_string, cas}
use sa_token_rust.Dao.Binds.{bind-returns}
use sa_token_rust.Dao.Reads.{cas_lem, live-cas, live-get_string}
use sa_token_rust.Sso.{SsoSession, add_client}
use sa_token_rust.Sso.Sessions.{key, session_of, interfere, won_or, upsert_from, upsert_client}

module _ (st : SaStorage) (laws : StorageLaws st) (codec : Codec SsoSession)
    (others : ℕ → st.State → st.State) (dao : SaTokenDao) (login_id service : String) where
  open laws use {live, deadline}

  -- The state `s'` holds, from `now` on, the session of the state `before` with the client added,
  -- and nothing else is changed.
  abbrev pub Added : ℕ → st.State → st.State → Type 0
  Added now before s' =
      (session : SsoSession) × (raw : String) × (session_of st codec
          (live (key dao login_id) now before) login_id now
        ≡ ok session)
      × (codec.encode (add_client service now session) ≡ ok raw)
      × ((j : String) (t : ℕ)
          → now ≤ t
          → live j t s' ≡ (if key dao login_id == j then some raw else live j t before))

  -- The states in which an attempt with `n` attempts left, itself included, may meet the other tasks,
  -- for a call that begins in the state `s`: what readers notice is what the other tasks have done in
  -- the attempts before it, once in each.
  pub data Leads (now : ℕ) (s : st.State) : ℕ → st.State → Type 0 where
    start : Leads now s 8 s
    unseen :
        {n : ℕ} {a b : st.State}
        → Leads now s n a
        → ((j : String) (t : ℕ) → now ≤ t → live j t b ≡ live j t a)
        → Leads now s n b
    interfered : {n : ℕ} {a : st.State} → Leads now s (suc n) a → Leads now s n (others n a)

  -- The session is added to the one that the other tasks of the last attempt have left.
  abbrev pub AddedAfter : ℕ → st.State → st.State → Type 0
  AddedAfter now s s' = (n : ℕ) × (a : st.State) × Leads now s (suc n) a × Added now (others n a) s'

  abbrev rest : ℕ → Action st.State (Unit {0})
  rest n = upsert_from st codec others n dao login_id service

  -- What the compare-and-swap of an attempt leaves.
  adds_won :
      (n now : ℕ) (origin a : st.State) (current : Option String) (session : SsoSession)
      (raw : String) (won : Bool)
      → Leads now origin (suc n) a
      → session_of st codec current login_id now ≡ ok session
      → codec.encode (add_client service now session) ≡ ok raw
      → (cas st (key dao login_id) current raw none now (others n a)).0 ≡ ok won
      → ((s' : st.State)
          → Leads now origin n s'
          → (rest n now s').0 ≡ ok tt
          → AddedAfter now origin (rest n now s').1)
      → (won_or st codec
          (rest n)
          won
          now
          (cas st (key dao login_id) current raw none now (others n a)).1).0
        ≡ ok tt
      → AddedAfter now origin
          (won_or st codec
            (rest n)
            won
            now
            (cas st (key dao login_id) current raw none now (others n a)).1).1
  unfolding won_or
  adds_won n now origin a current session raw true led decoded encoded swapped further h =
      let same =
        (option_eq_iff (live (key dao login_id) now (others n a)) current).0 (
          sym
            (cas_lem st laws (key dao login_id) current raw none now (others n a) true swapped)) in
      (
        n,
        a,
        led,
        (
          session,
          raw,
          rw same decoded,
          encoded,
          λ j t le. ground (
            arith,
            live-cas st laws (key dao login_id) j current raw none now t (others n a) true le
                swapped,
            laws.deadline-none now,
          ),
        ),
      )
  adds_won n now origin a current session raw false led decoded encoded swapped further h =
      further _
        (unseen (interfered led) λ j t le.
          live-cas st laws (key dao login_id) j current raw none now t (others n a) false le
            swapped)
        h

  -- The rest of an attempt, from each of its steps on.
  abbrev from_swap : ℕ → Option String → String → Action st.State (Unit {0})
  from_swap n current raw = do
    won ← cas st (key dao login_id) current raw none
    won_or st codec (rest n) won

  abbrev from_encode : ℕ → ℕ → Option String → SsoSession → Action st.State (Unit {0})
  from_encode n now current session = do
    raw ← lift (codec.encode (add_client service now session))
    interfere st codec (others n)
    from_swap n current raw

  abbrev from_decode : ℕ → ℕ → Option String → Action st.State (Unit {0})
  from_decode n now current = do
    session ← lift (session_of st codec current login_id now)
    from_encode n now current session

  upsert_from-adds :
      (n now : ℕ) (origin s : st.State)
      → Leads now origin n s
      → (rest n now s).0 ≡ ok tt
      → AddedAfter now origin (rest n now s).1
  unfolding upsert_from
  upsert_from-adds zero now origin s led h = absurd (ground arith)
  upsert_from-adds (suc n) now origin s led h =
      let (current, read, h₁, e₁) =
        bind-returns (get_string st (key dao login_id)) (from_decode n now) now s tt h in
      let s₁ = (get_string st (key dao login_id) now s).1 in
      let (session, decoded, h₂, e₂) =
        bind-returns (lift (session_of st codec current login_id now)) (from_encode n now current)
          now s₁ tt h₁ in
      let (raw, encoded, h₃, e₃) =
        bind-returns (lift (codec.encode (add_client service now session)))
          (λ raw. interfere st codec (others n) >> from_swap n current raw) now s₁ tt h₂ in
      let (won, swapped, h₄, e₄) =
        bind-returns (cas st (key dao login_id) current raw none) (won_or st codec (rest n)) now
          (others n s₁) tt h₃ in
      let step = ap (λ p. p.1) (e₁ ∙ e₂ ∙ e₃ ∙ e₄) in
      subst (λ s'. AddedAfter now origin s') (sym step)
        (adds_won n now origin s₁ current session raw won
          (unseen led λ j t le. live-get_string st laws (key dao login_id) j now t s le) decoded
          encoded swapped (λ s' led' h'. upsert_from-adds n now origin s' led' h') h₄)

  -- Whatever other tasks do between the read and the compare-and-swap of each attempt, a call that
  -- returns has added the client to the session that the other tasks of its last attempt have left
  -- stored, and its write changes no other key. Before that attempt, readers have noticed nothing but
  -- what the other tasks did in the attempts before, once in each.
  pub upsert_client-adds :
      (now : ℕ) (s : st.State)
      → (upsert_client st codec others dao login_id service now s).0 ≡ ok tt
      → (n : ℕ) × (a : st.State) × Leads now s (suc n) a
        × Added now (others n a) (upsert_client st codec others dao login_id service now s).1
  unfolding upsert_client
  upsert_client-adds now s h = upsert_from-adds 8 now s s start h
