-- ===== src/Storage/Frames.antt =====
-- What a client may rely on besides the laws of the single operations, of
-- sa-token-adapter/src/storage.rs: every operation is about its own key. Whatever its outcome, it
-- leaves what readers find under the other keys alone.
use sa_token_rust.Common.{ℕ, ◌≤◌, String, ◌≡◌, ◌≢◌, Bool, Option}
use sa_token_rust.Storage.{SaStorage, StorageLaws}

pub record StorageFrames {st : SaStorage} (laws : StorageLaws st) : Type 0 where
  pub frame-set :
      (k j v : String) (ttl : Option ℕ) (now t : ℕ) (s : st.State)
      → k ≢ j
      → now ≤ t
      → laws.live j t (st.set k v ttl now s).1 ≡ laws.live j t s
  pub frame-delete :
      (k j : String) (now t : ℕ) (s : st.State)
      → k ≢ j
      → now ≤ t
      → laws.live j t (st.delete k now s).1 ≡ laws.live j t s
  pub frame-compare_and_delete :
      (k j expected : String) (now t : ℕ) (s : st.State)
      → k ≢ j
      → now ≤ t
      → laws.live j t (st.compare_and_delete k expected now s).1 ≡ laws.live j t s
  pub frame-list_push :
      (k j member : String) (unique : Bool) (ttl : Option ℕ) (now t : ℕ) (s : st.State)
      → k ≢ j
      → now ≤ t
      → laws.live j t (st.list_push k member unique ttl now s).1 ≡ laws.live j t s
  pub frame-list_remove :
      (k j member : String) (now t : ℕ) (s : st.State)
      → k ≢ j
      → now ≤ t
      → laws.live j t (st.list_remove k member now s).1 ≡ laws.live j t s
  pub frame-list_range :
      (k j : String) (start : ℕ) (limit : Option ℕ) (now t : ℕ) (s : st.State)
      → k ≢ j
      → now ≤ t
      → laws.live j t (st.list_range k start limit now s).1 ≡ laws.live j t s
