-- ===== src/Auth/Compensator.antt =====
-- The compensator of a login: sa-token-core/src/service/compensate.rs. The list of steps holds the
-- last one first, the order in which `rollback` takes them.
use sa_token_rust.Common.{ℕ, ◌+◌, String, Option, List, [], ◌∷◌, ◌++◌, ok, err, length}
use sa_token_rust.Error.{SaTokenError, SaTokenResult}
use sa_token_rust.Storage.{SaStorage}
use sa_token_rust.Dao.{Action, pure, ◌>>◌, delete, set_string, list_remove}

pub data RollbackStep : Type 0 where
  delete_key : String → RollbackStep
  restore_key : String → String → Option ℕ → RollbackStep
  list_remove_member : String → String → RollbackStep

unfoldable pub key : RollbackStep → String
key (delete_key k) = k
key (restore_key k value ttl) = k
key (list_remove_member k member) = k

-- Success and failure counts; a failure keeps the key and the error.
pub record RollbackReport : Type 0 where
  pub succeeded : ℕ
  pub failed : List (String × SaTokenError)

abbrev pub LoginCompensator : Type 0
LoginCompensator = List RollbackStep

abbrev pub new : LoginCompensator
new = []

unfoldable pub on_fail_delete : String → LoginCompensator → LoginCompensator
on_fail_delete k steps = delete_key k ∷ steps

unfoldable pub on_fail_restore : String → String → Option ℕ → LoginCompensator → LoginCompensator
on_fail_restore k old_value ttl steps = restore_key k old_value ttl ∷ steps

unfoldable pub on_fail_list_remove : String → String → LoginCompensator → LoginCompensator
on_fail_list_remove k member steps = list_remove_member k member ∷ steps

unfoldable pub pending : LoginCompensator → ℕ
pending steps = length steps

-- The report after one more step.
unfoldable pub report : String → SaTokenResult (Unit {0}) → RollbackReport → RollbackReport
report k (ok u) r = record r { succeeded = r.succeeded + 1 }
report k (err e) r = record r { failed = r.failed ++ (k, e) ∷ [] }

module _ (st : SaStorage) where
  unfoldable pub revert : RollbackStep → Action st.State (Unit {0})
  revert (delete_key k) = delete st k
  revert (restore_key k value ttl) = set_string st k value ttl
  revert (list_remove_member k member) = do list_remove st k member; pure tt

  -- A step that fails does not stop the others.
  unfoldable pub rollback_from :
      RollbackReport → LoginCompensator → ℕ → st.State → RollbackReport × st.State
  unfolding revert report key
  rollback_from r [] now s = (r, s)
  rollback_from r (step ∷ steps) now s =
      let (outcome, s') = revert step now s in
      rollback_from (report (key step) outcome r) steps now s'

  unfoldable pub rollback : LoginCompensator → ℕ → st.State → RollbackReport × st.State
  unfolding rollback_from
  rollback steps = rollback_from (record { succeeded = 0; failed = [] }) steps
