-- ===== src/Db.antt =====
-- db: the durable tables and the operations on them
pub mod Table
pub mod Models
pub mod Leases
pub mod Worker
pub mod Custody
pub mod Symbolization
pub mod System
pub mod Quota
pub mod Maintenance
pub mod Inbox
pub mod Tests
