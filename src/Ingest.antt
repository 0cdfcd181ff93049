-- ===== src/Ingest.antt =====
-- api/ingest.py: the endpoint that takes a batch of events.
pub mod Headers
pub mod Body
pub mod Transaction
pub mod History
pub mod Outcome
pub mod Persistence
pub mod Growth
pub mod Custody
pub mod Release
pub mod Delivery
pub mod Durability
pub mod Atomicity
mod Tests
mod HistoryTests
