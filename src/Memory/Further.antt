-- ===== src/Memory/Further.antt =====
-- The in-memory storage keeps the promises of the trait: sa-token-storage-memory/src/lib.rs.
use sa_token_rust.Storage.Further
use sa_token_rust.Memory
use sa_token_rust.Memory.{put_scalar, drop_scalar}
