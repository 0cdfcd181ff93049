-- ===== src/Otlp.antt =====
-- otlp/: the export of a batch to the collector.
pub mod Client
