-- ===== src/Kern.antt =====
-- vk_kern.c and vk_proc.c: the processes, the two queues of them, what is done for one process around
-- its execution, and the loop over polling and dispatching.
pub mod State
pub mod Queues
pub mod Process
pub mod Dispatch
pub mod Loop
pub mod Tracking
pub mod Flushing
pub mod Upkeep
pub mod Retiring
pub mod Rounds
pub mod Shutdown
