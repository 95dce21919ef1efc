-- ===== src/Dao.antt =====
-- internal/dao/mongodb: the repositories over the database. A filter is a test of documents, an
-- update document a function on them; each method is a call of the database or more.
pub mod Orders
pub mod Bills
pub mod Tickets
pub mod Outbox
