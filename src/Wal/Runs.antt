-- ===== src/Wal/Runs.antt =====
-- Concrete records, segments and calls, and the theorems of the log applied to them.
mod Records
mod Segments
mod Recoveries
mod Writers
mod Files
mod Compactions
mod Merging
mod Openings
mod Manifested
