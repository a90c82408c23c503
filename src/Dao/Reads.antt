-- ===== src/Dao/Reads.antt =====
-- The storage's promises, as the data access layer passes them on.
use sa_token_rust.Common.{
  ℕ, ◌≤◌, String, ◌≡◌, Bool, Option, none, some, ok, arith, ◌==◌, if◌then◌else◌, option_eq, err,
  inl, inr, refl, ◌⊎◌,
}
use sa_token_rust.Storage.{SaStorage, StorageLaws, StorageResult, within, to_string}
use sa_token_rust.Dao.{get_string, set_string, delete, take_string, set_if_absent, cas, map_err}
use sa_token_rust.Error.{storage_error}

map_err-cases {ℓ} :
    {A : Type ℓ} (r : StorageResult A)
    → ((a : A) × (map_err r ≡ ok a)) ⊎ ((m : String) × (map_err r ≡ err (storage_error m)))
unfolding map_err
map_err-cases (ok a) = inl (a, refl)
map_err-cases (err e) = inr (to_string e, refl)

module _ (st : SaStorage) (laws : StorageLaws st) where
  open laws use {live, deadline}

  pub get_string_lem :
      (k : String) (now : ℕ) (s : st.State) (o : Option String)
      → (get_string st k now s).0 ≡ ok o
      → o ≡ live k now s
  unfolding get_string
  get_string_lem k now s o h = ground (arith, laws.get_lem k now s o)

  pub live-get_string :
      (k j : String) (now t : ℕ) (s : st.State)
      → now ≤ t
      → live j t (get_string st k now s).1 ≡ live j t s
  unfolding get_string
  live-get_string k j now t s h = laws.live-get k j now t s h

  pub live-set_string :
      (k j v : String) (ttl : Option ℕ) (now t : ℕ) (s : st.State) (u : Unit {0})
      → now ≤ t
      → (set_string st k v ttl now s).0 ≡ ok u
      → live j t (set_string st k v ttl now s).1
        ≡ (if k == j then (if within (deadline ttl now) t then some v else none) else live j t s)
  unfolding set_string
  live-set_string k j v ttl now t s u h e = laws.live-set k j v ttl now t s u h (ground arith)

  pub live-delete :
      (k j : String) (now t : ℕ) (s : st.State) (u : Unit {0})
      → now ≤ t
      → (delete st k now s).0 ≡ ok u
      → live j t (delete st k now s).1 ≡ (if k == j then none else live j t s)
  unfolding delete
  live-delete k j now t s u h e = laws.live-delete k j now t s u h (ground arith)

  pub take_string_lem :
      (k : String) (now : ℕ) (s : st.State) (o : Option String)
      → (take_string st k now s).0 ≡ ok o
      → o ≡ live k now s
  unfolding take_string
  take_string_lem k now s o h = ground (arith, laws.get_del_lem k now s o)

  pub live-take_string :
      (k j : String) (now t : ℕ) (s : st.State) (o : Option String)
      → now ≤ t
      → (take_string st k now s).0 ≡ ok o
      → live j t (take_string st k now s).1 ≡ (if k == j then none else live j t s)
  unfolding take_string
  live-take_string k j now t s o h e = laws.live-get_del k j now t s o h (ground arith)

  -- A failure of the storage is the only failure.
  pub set_if_absent-cases :
      (k v : String) (ttl : Option ℕ) (now : ℕ) (s : st.State)
      → ((b : Bool) × ((set_if_absent st k v ttl now s).0 ≡ ok b))
        ⊎ ((m : String) × ((set_if_absent st k v ttl now s).0 ≡ err (storage_error m)))
  unfolding set_if_absent
  set_if_absent-cases k v ttl now s = map_err-cases (st.set_if_absent k v ttl now s).0

  pub get_string-cases :
      (k : String) (now : ℕ) (s : st.State)
      → ((o : Option String) × ((get_string st k now s).0 ≡ ok o))
        ⊎ ((m : String) × ((get_string st k now s).0 ≡ err (storage_error m)))
  unfolding get_string
  get_string-cases k now s = map_err-cases (st.get k now s).0

  pub take_string-cases :
      (k : String) (now : ℕ) (s : st.State)
      → ((o : Option String) × ((take_string st k now s).0 ≡ ok o))
        ⊎ ((m : String) × ((take_string st k now s).0 ≡ err (storage_error m)))
  unfolding take_string
  take_string-cases k now s = map_err-cases (st.get_del k now s).0

  pub set_if_absent_lem :
      (k v : String) (ttl : Option ℕ) (now : ℕ) (s : st.State) (b : Bool)
      → (set_if_absent st k v ttl now s).0 ≡ ok b
      → b ≡ option_eq (live k now s) none
  unfolding set_if_absent
  set_if_absent_lem k v ttl now s b h = laws.set_if_absent_lem k v ttl now s b (ground arith)

  pub live-set_if_absent :
      (k j v : String) (ttl : Option ℕ) (now t : ℕ) (s : st.State) (b : Bool)
      → now ≤ t
      → (set_if_absent st k v ttl now s).0 ≡ ok b
      → live j t (set_if_absent st k v ttl now s).1 ≡ (
          if b
          then (if k == j
              then (if within (deadline ttl now) t then some v else none)
              else live j t s)
          else live j t s)
  unfolding set_if_absent
  live-set_if_absent k j v ttl now t s b h e =
      laws.live-set_if_absent k j v ttl now t s b h (ground arith)

  pub cas_lem :
      (k : String) (expected : Option String) (v : String) (ttl : Option ℕ) (now : ℕ) (s : st.State)
      (b : Bool)
      → (cas st k expected v ttl now s).0 ≡ ok b
      → b ≡ option_eq (live k now s) expected
  unfolding cas
  cas_lem k expected v ttl now s b h =
      laws.compare_and_swap_lem k expected v ttl now s b (ground arith)

  pub live-cas :
      (k j : String) (expected : Option String) (v : String) (ttl : Option ℕ) (now t : ℕ)
      (s : st.State) (b : Bool)
      → now ≤ t
      → (cas st k expected v ttl now s).0 ≡ ok b
      → live j t (cas st k expected v ttl now s).1 ≡ (
          if b
          then (if k == j
              then (if within (deadline ttl now) t then some v else none)
              else live j t s)
          else live j t s)
  unfolding cas
  live-cas k j expected v ttl now t s b h e =
      laws.live-compare_and_swap k j expected v ttl now t s b h (ground arith)
