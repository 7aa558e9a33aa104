-- ===== src/Store.antt =====
-- The durable store (reviewer/store/models.py, reviewer/store/repositories.py). A transaction is a
-- function from the database to its next state; the row and writer locks of the source make each
-- transaction atomic. `Rows` holds the tables, the other children the transactions by topic.
pub mod Rows
pub mod Admission
pub mod Lifecycle
pub mod Laws
