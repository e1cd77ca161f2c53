-- ===== src/FdTable.antt =====
-- vk_fd_table.c, vk_fd.c and vk_io_future.c: the table of file descriptors that the kernel's loop
-- polls, with its queue of descriptors to register (dirty) and its queue of descriptors to dispatch
-- (fresh), the events of a process, and the epoll driver. A descriptor is named by its index in the
-- table, as the code's pointers into `fds` are.
pub mod State
pub mod Queues
pub mod Events
pub mod Prepoll
pub mod Epoll
pub mod Poll
pub mod Tracking
pub mod Preserve
pub mod Registering
pub mod Epolling
pub mod Polling
pub mod Lifecycle
pub mod Closing
pub mod Waking
