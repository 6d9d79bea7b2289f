-- ===== src/Engine.antt =====
-- The parts of internal/engine/engine.go that decide: how deep the pages of a finished crawl are, which
-- paths are traps, how many URLs are found, and the limits of a job.
pub mod Depths
pub mod Variants
pub mod Budget
pub mod Limits
