-- ===== src/Sandbox/Pool.antt =====
-- sandbox/sandbox.go: the pool. Each method is cut into its critical sections, so that the same
-- sections make up the sequential methods here and the interleaved ones of Pool/Threads.antt.
-- The head of the list `warm` is the last element of the slice. Logging is left out.
pub mod Sections
pub mod Methods
pub mod Threads
pub mod Ownership
pub mod Histories
pub mod Calls
pub mod Alone
pub mod WarmPool
pub mod Shutdown
pub mod Wrapped
pub mod Collisions
pub mod Retirement
pub mod Progress
pub mod Targets
pub mod Lifecycle
