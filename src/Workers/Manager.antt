-- ===== src/Workers/Manager.antt =====
-- app/workers/manager.py: `WorkerManager`. asyncio runs one coroutine at a time, up to its next await:
-- a segment of a coroutine between two awaits is one function of the state.
pub mod State
pub mod Lifecycle
pub mod Drain
pub mod Sync
pub mod Round
pub mod Sound
pub mod Keeps
pub mod Reach
pub mod Fewer
pub mod Wanted
pub mod Backoff
pub mod Discards
mod Samples
