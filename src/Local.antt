-- ===== src/Local.antt =====
-- vk_proc_local.c and the operations of vk_socket.c and vk_thread.c that reach more than one object:
-- the coroutines and sockets of one process, its queue of coroutines to run and its queue of blocked
-- sockets, the handling of socket operations, and the execution of the coroutines.
pub mod State
pub mod Queues
pub mod Waking
pub mod Handlers
pub mod Execute
pub mod Tracking
pub mod Preserve
pub mod Handling
pub mod Outcome
pub mod Registration
pub mod Blocking
