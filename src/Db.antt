-- ===== src/Db.antt =====
-- internal/scope/db: document storage.
pub mod MemIndex
pub mod Store
pub mod WalStore
mod Runs
mod Reopened
mod Saved
