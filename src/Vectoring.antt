-- ===== src/Vectoring.antt =====
-- vk_vectoring.c and vk_vectoring_s.h: the vector ring buffer of every socket.
-- `State` has the record and its small operations, `Transfer` the copies in and out of the ring,
-- `Syscalls` the operations that a file descriptor backs and `Lines` the search for a line end.
-- `Contents` is the abstract view, a queue of bytes; the other modules hold proofs.
pub mod State
pub mod Transfer
pub mod Syscalls
pub mod Lines
pub mod Contents
pub mod Valid
pub mod Fifo
pub mod Splicing
pub mod Descriptor
pub mod Flags
