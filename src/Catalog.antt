-- ===== src/Catalog.antt =====
-- internal/catalog: the model pool, its reconciliation with a fresh catalog, and the store that holds
-- both behind a lock.
pub mod Pool
pub mod Reconcile
pub mod Store
pub mod Access
