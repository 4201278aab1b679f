-- ===== src/Execution/Store.antt =====
-- proofops/execution/store.py: `SQLiteStore`. Each method runs in one connection under the lock, so
-- it is a function of the whole database; an exception rolls back, so it returns no database.
pub mod Schema
pub mod Tasks
pub mod Budget
pub mod Wallets
