-- ===== src/Pipeline.antt =====
-- The MSRV stage end to end: discovery, the runners' shard results, the synthesized ones, and the
-- verdict over all of them (write-shard-result.py, synthesize-msrv-not-applicable.py and
-- aggregate_verdict.py, as .github/workflows/ci.yml joins them).
pub mod Reading
pub mod Msrv
pub mod Written
pub mod Stage
