-- ===== src/Lib.antt =====
-- Verification library of mnvkd, an application server whose coroutines run on memory-mapped heaps
-- ("micro-heaps") and whose sockets block the coroutine, not the process.
--
-- The program and the files that model it. Paths are from the root of the repository; the C
-- function `vk_<component>_<operation>` is the definition `<operation>` of its component's module.
--
--   vk_wrapguard.c      WrapGuard: sums, products and page counts of `size_t` that fail with ERANGE.
--   vk_vectoring.c, vk_vectoring_s.h
--                       Vectoring: the ring buffer of each direction of a socket.
--                       State: struct vk_vectoring, its cursors, vectors and flags.
--                       Transfer: receiving, sending, splicing, end of file between rings.
--                       Syscalls: reading, writing, accepting and closing a file descriptor.
--                       Lines: the search for a newline and the length of a line.
--                       Contents, Valid: the bytes that a ring holds and its invariant. Fifo,
--                       Splicing, Descriptor, Flags and Lines/LineLen: the operations against
--                       those bytes.
--   vk_stack.c          Stack: the bump allocator of a micro-heap, in frames that a pop takes off
--                       (Frames), each with its length in its last word (Links).
--   vk_heap.c, vk_heap_s.h
--                       Heap: a mapping with its protection inside and outside, and its stack.
--   vk_pool.c, vk_pool_s.h
--                       Pool: heaps of one size and the list of the free ones.
--   vk_fd_table.c, vk_fd_table_s.h, vk_fd.c, vk_fd_s.h, vk_io_future.c, vk_io_future_s.h, and
--   vk_proc_allocate_fd and vk_proc_deallocate_fd of vk_proc.c
--                       FdTable: the table of file descriptors of the kernel's loop.
--                       State, Queues: the entries and the dirty and fresh queues.
--                       Prepoll: what a process waits for, and the end of a zombie's descriptors.
--                       Events: what a poller returns. Epoll, Poll: the two drivers.
--                       Tracking, Preserve, Registering, Epolling, Polling: the queues' invariant.
--                       Lifecycle, Waking, Closing: what becomes of one entry.
--   vk_thread.c, vk_thread_s.h, vk_raise_at of vk_thread_err.h
--                       Thread: a coroutine, its states and its queue of futures.
--   vk_socket.c, vk_socket_s.h, vk_pipe.c, vk_pipe_s.h
--                       Socket: one socket, its two pipes and its block.
--   vk_proc_local.c, vk_proc_local_s.h, and what of vk_socket.c and vk_thread.c reaches several
--   objects             Local: the coroutines and sockets of one process.
--                       State, Queues: the queue of coroutines to run and of blocked sockets.
--                       Waking: what wakes a coroutine and what blocks a socket.
--                       Handlers: every operation on a socket. Execute: the loop over the
--                       coroutines, signals and retries.
--                       Tracking, Preserve, Handling, Outcome: the queues' invariant.
--                       Registration, Blocking: what is queued.
--   vk_kern.c, vk_kern_s.h, vk_proc.c, vk_proc_s.h
--                       Kern: the processes and the kernel's loop over them.
--                       State, Queues: the two queues of processes. Process: polling around an
--                       execution. Dispatch: one process, and the wake-up on a shutdown. Loop.
--                       Tracking, Upkeep, Retiring, Rounds: the queues' invariant.
--                       Flushing, Shutdown: what a flush and a shutdown do.
--   vk_io_op.c, vk_io_op.h, vk_io_op_s.h, vk_io_exec.c, vk_io_queue.c, vk_io_batch_sync.c
--                       Request: requests, made from a ring and executed. Queues: their queues, and
--                       a batch over streams. Rings, Batch: what a request names, what is taken.
--   vk_rfc.c, vk_rfc.h, vk_rfc_s.h
--                       Rfc: header lines and their trimming. Hex: sizes as digits.
--                       Bits, Digits, Sizes: the digits of a size. Chunks: the head of a chunk.
--   vk_enum.h           Enum: the functions of a table of an enumeration. Search, Order: its search.
--   vk_fetch_s.h, vk_fetch.c
--                       Fetch: the enumerations of HTTP and their tables (Methods, Headers), the head
--                       and the entity of a request (Request, Body), and what the tables give
--                       (Tables).
--   vk_thread_io.h      Stream: what blocking reads give of the bytes that come in until end of file,
--                       and numbers as text. Rounds: the rounds of vk_readline, over memory, and
--                       where they give what Stream says.
--   vk_redis.c, vk_redis.h
--                       Redis: the protocol's server and client.
--                       Request: the server's reader. Client: the client's writer. Response: the
--                       replies, and the client's printer.
--                       Framing, Serving, Pipeline, Replies: one end against the other. Overrun.
--   vk_http11.c         Http: the server of HTTP/1.1.
--                       Head: the request line and the headers. Entity: chunks, trailers, and the
--                       preface of HTTP/2. Response: what is answered.
--                       Kept, Heads, Requests, Chunks, Entities: what is read of what is written.
--                       Responses: those without an end.
--   vk_huge.c, vk_huge.h, vk_huge_s.h
--                       Huge: the tracker of huge pages.
--   Queue               The lists that the queues of FdTable, Local and Kern are, and their flags.
--   Base, Memory        What the modules share: C's integers, tests, lists, errors, memory.
--   Tests               Runs at concrete inputs.
--
-- How they meet: the heap puts its mapping under a stack, which takes sizes from WrapGuard; the
-- pool makes its heaps in a buffer of the size that WrapGuard computes. A socket's operation
-- moves bytes between its rings and a descriptor, or the ring of the socket at the other end of a
-- pipe, wakes coroutines through Local's queue to run, and puts the socket on Local's blocked
-- queue where a ring is blocked. Executing a process calls its coroutines until none is ready;
-- after it the kernel registers the blocked sockets with the table, whose driver polls them, and
-- flushes the process to its own queues. A fresh descriptor puts the process that owns it on the
-- queue to run. The coroutines of the HTTP and Redis servers read and write through sockets; they
-- are modelled over the bytes of their connection, as one read after the other finds them, and
-- not over its rings: each line has come in whole when it is read. What vk_readline does with the
-- pieces of a line that has not, where the newlines in the memory behind them count, is in
-- Stream/Rounds, and not in the servers. A line that is longer than its buffer ends the model
-- there, since it is copied past the end.
--
-- State and its representation. A structure is a record with the source's field names, and an
-- operation takes the old record and gives the new one beside its result. A `size_t` is a number
-- below 2 ^ 64, with the wrap of sums, differences and products written out; a result that can be
-- negative is a ℤ. `errno` goes in and out as a number, by Linux's numbering; `Checked` is a
-- value or the errno beside a -1 or a NULL. A ring's buffer is a function from offsets to bytes
-- and the two rings of a splice have separate buffers. A pointer into an array is the index, and
-- the lists linked through the entries are lists of indices. The bits of `events` are Booleans.
-- Coroutines, sockets and processes are named by numbers, and the state gives the record of each;
-- where the code follows a pointer that is NULL, the state is left as it is and `faulted` is set.
-- A character of a header is its code, and a line is the list of its characters.
--
-- What is not in the source is an argument: the page size, the results of readv, writev, close,
-- shutdown, mmap, munmap, mprotect, epoll_create1, epoll_ctl, epoll_wait and poll, and the
-- callbacks of a pool. The calls that a driver makes until one is not interrupted are a list of
-- results, and where the list ends the driver is still waiting. The functions of the coroutines
-- are one argument, `func`, which may change all that the process of the coroutine holds, and
-- nothing else; `sys` gives the results of the system calls of each operation of a socket,
-- counted by `calls`. The isolate's call of a function, the signals that the kernel receives,
-- what a poll does to the table, the numbers that the macro vk_raise_at takes from its place in
-- the source, and the words that stand before a size in memory, which ltrim looks at, are
-- arguments as well. So are the results of the two statements of SQLite that Redis makes, the
-- rounds in which a loop over the input has already seen end of file, the pieces in which an
-- entity comes in, the clock, and the lines of /proc/meminfo.
--
-- Fuel. The loop over blocks of bytes in the search for a newline runs for as many rounds as
-- there are bytes, which is enough for any positive width. The loop over the dirty queue runs for
-- the length of the queue, since every round takes one entry off, and so does the one over the
-- fresh queue. An execution calls functions that the model does not know, so its two loops and
-- the kernel's have a fuel that is given, and say when it is used up. The loop of flsl has 64
-- rounds for the 64 bits of a long, and the binary search as many rounds as the table has rows. A
-- read of a line has a fuel of rounds, of which two are enough where it need not wait. The loops
-- over the lines, commands, headers and chunks of a connection have a fuel that is given, and
-- each theorem about them says how much is enough. All other loops are over a list or count down.
--
-- Not modelled: vk_init, vk_proc_alloc, vk_proc_alloc_from_pool, vk_proc_alloc_thread,
-- vk_kern_alloc and vk_kern_alloc_proc, which put new objects on the stacks; vk_service_listener,
-- whose coroutine allocates processes of the kernel and flushes them; the jump out of a fault in
-- a process, and with it the protection of the kernel's own heap; the macros that make a function
-- a coroutine, which are control flow of C; the system's signal handlers; the isolate; the loop
-- over the requests of an HTTP connection, its division by zero for /crash, and
-- vk_fetch_response, which has no body yet; the servers; the kqueue and AIO drivers, which other
-- systems build; madvise; logging. The type tags of pipes, operations and states have no value
-- outside their enumerations, so the branches for such a value are left out. In vk_pool_init,
-- counts of 2 ^ 31 and more, for which the `int` counter overflows, take no round where the
-- counter is negative.
pub mod Base
pub mod Enum
pub mod FdTable
pub mod Fetch
pub mod Heap
pub mod Http
pub mod Huge
pub mod Kern
pub mod Local
pub mod Memory
pub mod Pool
pub mod Queue
pub mod Redis
pub mod Request
pub mod Rfc
pub mod Socket
pub mod Stack
pub mod Stream
pub mod Tests
pub mod Thread
pub mod Vectoring
pub mod WrapGuard
