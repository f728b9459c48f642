-- ===== src/Process/Pipeline.antt =====
-- internal/process/pipeline: the lines are dispatched to workers, which gather and flush batches
-- of a size that follows the backlog.
pub mod Config
pub mod Threshold
pub mod Routing
pub mod Dispatch
pub mod Worker
pub mod Pool
