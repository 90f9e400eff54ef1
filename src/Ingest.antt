-- ===== src/Ingest.antt =====
-- `IngestPipeline` of src/ai_ha/ingest/pipeline.py, and the hour buckets of
-- src/ai_ha/ingest/counters.py. Times are milliseconds, of the wall clock (`now`) and of the
-- monotonic clock (`mono`), and come with each call. The lock makes each call below one step.
pub mod Batch
pub mod Pipeline
pub mod Run
