-- ===== src/Lib.antt =====
-- Sa-Token-Rust: storage, keys, logins and logouts, sessions, permissions, routing, nonces, request
-- signing, single sign-on and OAuth2.
--
-- The framework keeps everything it knows under text keys in a storage backend. The services of
-- sa-token-core build their keys with `SaKeys` (keys.rs) and read and write through `SaTokenDao`
-- (dao.rs), which calls a backend through the trait `SaStorage` (sa-token-adapter). The parts:
--
-- - Common: the shared names, results, Boolean tests, association lists, integers, and the
--   operations of `str`.
-- - Error: `SaTokenError` of sa-token-core/src/error.rs.
-- - Storage: the trait of sa-token-adapter/src/storage.rs as the record `SaStorage` of operations
--   on a state; `StorageLaws` is what the services rely on, and `FurtherLaws` of Storage/Further
--   what else a client may; Storage/Defaults has the default methods and the page loop
--   `scan_all_keys`, on fuel.
-- - Memory: sa-token-storage-memory/src/lib.rs. The state is the function from shards to their
--   two maps; Batch, Lists, Scan and Shard have the batch and list operations, the scan and the
--   hash. Laws, ListLaws, CleanupLaws, ScanOrder, ScanLaws and GetRace are about what readers find,
--   Invariant and Reach about the shape of the maps; Backend, Further and Answers show that it is a
--   backend with the laws whose single operations never fail.
-- - Keys: sa-token-core/src/keys.rs, with Keys/Categories and Keys/Collisions on which keys differ.
-- - Dao: sa-token-core/src/dao.rs; Binds, Reads, ReadOnly, Objects, Keeps and Never are the rules by
--   which the services are verified.
-- - Permission: sa-token-core/src/permission/matcher.rs; Router: sa-token-core/src/router.rs;
--   HttpBasic: `ct_eq` of sa-token-core/src/http_basic.rs; Nonce: sa-token-core/src/nonce.rs.
-- - SameToken: sa-token-core/src/same_token.rs; TempToken: sa-token-core/src/temp_token.rs, whose
--   twelve draws are the fuel of its loop, as in the source.
-- - Sso: sa-token-core/src/sso (mod.rs, ticket_store.rs, session_store.rs).
-- - OAuth2: sa-token-core/src/oauth2 (mod.rs, pkce.rs, secret.rs). A client is stored without its plain
--   secret; Authenticated says what the checks of an exchange establish.
-- - Sign: sa-token-core/src/sign.rs, with i64 differences that wrap; Common/Decimal has the decimal
--   numbers that it parses.
-- - Config: sa-token-core/src/config.rs; Event: the events of sa-token-core/src/event/mod.rs.
-- - Token: sa-token-core/src/token (mod.rs, map.rs); Session: sa-token-core/src/session (mod.rs,
--   terminal.rs); TokenRepo and SessionRepo: sa-token-core/src/repository (token_repo.rs,
--   session_repo.rs); Refresh: sa-token-core/src/refresh.rs.
-- - Auth: sa-token-core/src/service (auth_service.rs, compensate.rs, login_request.rs). Login has the
--   checks and the new body, Stages the writes with the compensator beside the state, Pipeline the
--   whole login; Logout, Accounts and Validity the other operations; Unique is `generate_unique` of
--   sa-token-core/src/token/generator.rs. LogoutKeeps, LogoutLaws and JavaLayout are about these.
-- - Safe: sa-token-core/src/safe.rs; Disable: sa-token-core/src/disable.rs.
-- - Tests: concrete data, and an application of each theorem to it.
--
-- A function or method has the name it has in the source, and its state is passed explicitly: an
-- operation takes the instant at which it runs and the state, and returns a result and the new
-- state. A handler reads the clock once. Instants and durations are counted in nanoseconds, and no
-- instant lies before the epoch. An `if` or `match` arm that the language needs as a function of
-- its own is a helper beside the function it belongs to.
--
-- Parameters stand for code outside the repository: `Codec` for serde (what is encoded is decoded
-- back), `Crypto` for SHA-256, Base64 and Argon2, `from_std` for chrono's conversion of durations,
-- `regex` for the regular expressions of `scan`, and texts that uuid draws are arguments.
-- `Libraries` has serde, the dates, uuid and the token generator of a login; HMAC-SHA256 is an
-- argument of the signing. Two parameters stand for parts of the repository that are not modelled:
-- `Manager` is what the router asks the token manager (sa-token-core/src/manager.rs), and `Outside`
-- is the event bus, the online manager and the distributed sessions (event/mod.rs, online/mod.rs,
-- distributed.rs).
--
-- Fuel: `scan_all_keys` takes one unit for each page, and more units than there are keys are
-- enough; the scan for the tokens of an account takes the number of pages in the same way. The
-- retries of `upsert_client` are bounded by 8 in the source.
-- Concurrency: other tasks appear as functions on the state where the source gives them room,
-- between the two locks of `get`, and between the read and the write of `upsert_client` and of
-- the Same-Token's `refresh_token`.
--
-- Not modelled: the manager and the static facades, which hand calls on; the
-- authorization service; the event bus, online users and distributed
-- sessions beyond their interface; the random texts and signatures of the token generators; the remote
-- storages and the framework plugins. Some of these are I/O or glue, and the others are independent of
-- what is modelled.
pub mod Common
pub mod Error
pub mod Storage
pub mod Memory
pub mod Keys
pub mod Dao
pub mod Permission
pub mod Router
pub mod HttpBasic
pub mod Nonce
pub mod Sign
pub mod SameToken
pub mod TempToken
pub mod Sso
pub mod OAuth2
pub mod Tests
pub mod Config
pub mod Event
pub mod Token
pub mod Session
pub mod TokenRepo
pub mod SessionRepo
pub mod Refresh
pub mod Auth
pub mod Safe
pub mod Disable
