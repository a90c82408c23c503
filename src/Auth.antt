-- ===== src/Auth.antt =====
-- The authentication service: sa-token-core/src/service/auth_service.rs, with the compensator of
-- service/compensate.rs and the request of service/login_request.rs in the modules below.
--
-- What the source does through its event bus, its online manager and its distributed sessions is
-- a parameter: `Outside` holds their actions on the storage's state. Log lines are left out.
pub mod Compensator
pub mod Request
pub mod Unique
pub mod Logout
pub mod LogoutKeeps
pub mod LogoutLaws
pub mod Accounts
pub mod Validity
pub mod Login
pub mod Stages
pub mod Pipeline
pub mod JavaLayout
use sa_token_rust.Common.{ℕ, String, Option}
use sa_token_rust.Storage.{SaStorage}
use sa_token_rust.Config.{SaTokenConfig}
use sa_token_rust.Event.{SaTokenEvent}
use sa_token_rust.Token.{TokenInfo}
use sa_token_rust.Session.{SaSession}
use sa_token_rust.TokenRepo.{TokenRepo}
use sa_token_rust.Dao.{Action, Codec, SaTokenDao}

-- `OnlineManager`: what the service calls. The errors are dropped by the caller.
pub record OnlineManager (S : Type 0) : Type 0 where
  pub mark_online : String → String → String → String → Action S (Unit {0})
  pub mark_offline_with_type : String → String → String → Action S (Unit {0})
  pub mark_offline_all_with_type : String → String → Action S (Unit {0})
  pub kick_out_notify : String → String → Action S (Unit {0})

-- `DistributedSessionManager`: what the service calls.
pub record DistributedSessionManager (S : Type 0) : Type 0 where
  pub create_session : String → String → Action S (Unit {0})
  pub delete_sessions_by_token : String → String → Action S (Unit {0})

-- The parts of the crate that the service calls and that are not modelled.
pub record Outside (S : Type 0) : Type 0 where
  pub publish : SaTokenEvent → Action S (Unit {0})
  pub online : Option (OnlineManager S)
  pub distributed : Option (DistributedSessionManager S)

-- `AuthService`; the session repository has the same data access layer.
pub record AuthService (S : Type 0) : Type 0 where
  pub dao : SaTokenDao
  pub token_repo : TokenRepo
  pub config : SaTokenConfig
  pub outside : Outside S
