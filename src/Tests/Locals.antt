-- ===== src/Tests/Locals.antt =====
-- A process with one coroutine to run, number 1, and its socket, number 4, which reads descriptor 5
-- through an empty ring.
use mnvkd.Base.{
  ℕ, ◌≡◌, refl, arith, true, false, ◌||◌, ◌==◌, if◌then◌else◌, [], ◌∷◌, member, pos, some, none,
}
use mnvkd.Memory.{store}
use mnvkd.Vectoring.State.{Vectoring, at, literal}
use mnvkd.Vectoring.Syscalls.{failed, refused}
use mnvkd.Thread.{Thread, proc_run, proc_end}
use mnvkd.Socket.{
  Socket, os_fd, socket_stream, init_block, op_read, in_event, out_event, pipe_get_fd,
  forward_closed, set_read_block, set_write_block,
}
use mnvkd.Local.State.{Local, put_thread}
use mnvkd.Local.Queues.{enqueue_run, dequeue_run, enqueue_blocked}
use mnvkd.Local.Waking.{handle_block, block_read, block_write, enqueue_socket}
use mnvkd.Local.Handlers.{Sys, socket_handler}
use mnvkd.Local.Execute.{Func, execute}
use mnvkd.Local.Tracking.{IsLocal, put_thread-IsLocal}
use mnvkd.Local.Handling.{socket_handler-IsLocal}
use mnvkd.Local.Outcome.{execute-IsLocal}
use mnvkd.Local.Registration.{dequeued, dequeue-enqueue_run}
use mnvkd.Local.Blocking.{waits_read, waits_write, handle_block-registers}

abbrev pub empty_ring : Vectoring
empty_ring = record {
  mem = store (λ i. 0) 0 (0 ∷ 0 ∷ 0 ∷ 0 ∷ []);
  buf_start = 1000;
  buf_len = 4;
  tx_cursor = 0;
  tx_len = 0;
  vector_tx = record {
    first = record { iov_base = at 0; iov_len = 0 };
    second = record { iov_base = literal; iov_len = 0 };
  };
  vector_rx = record {
    first = record { iov_base = at 0; iov_len = 4 };
    second = record { iov_base = literal; iov_len = 0 };
  };
  error = pos 0;
  eof = false;
  closed = false;
  rx_blocked = true;
  tx_blocked = false;
  effect = false;
}

abbrev pub socket : Socket
socket = record {
  rx = empty_ring;
  tx = record empty_ring { rx_blocked = false };
  block = record (init_block 4 (some 1)) { op = op_read };
  rx_fd = record { ref = os_fd (pos 5); fd_type = socket_stream; closed = false };
  tx_fd = record { ref = os_fd (pos 5); fd_type = socket_stream; closed = false };
  error = 0;
  blocked_enq = false;
}

abbrev pub thread : ℕ → Thread
thread i = record {
  func = 0;
  line = 0;
  counter = pos 0;
  status = if i == 1 then proc_run else proc_end;
  error = 0;
  error_counter = pos 0;
  error_line = 0;
  self = 0;
  socket = 4;
  waiting_socket = some 4;
  ft_q = [];
  run_enq = i == 1;
}

abbrev pub process : Local
process = record {
  run = true;
  blocked = false;
  run_q = 1 ∷ [];
  blocked_q = [];
  running_cr = none;
  supervisor_cr = none;
  siginfo = 0;
  stack = record { addr_start = 4096; addr_stop = 8192; addr_cursor = 4096 };
  words = λ i. 0;
  threads = thread;
  sockets = λ i. socket;
  errno = 0;
  calls = 0;
  faulted = false;
}

pub process-IsLocal : IsLocal process
process-IsLocal = record {
  runs = record { says = λ i. ground arith; once = refl };
  blocks = record { says = λ i. refl; once = refl };
  run_says = refl;
  blocked_says = refl;
}

-- Nothing to read or write yet.
abbrev pub sys : ℕ → Sys
sys n = record {
  reading = failed 11;
  writing = refused 11;
  closing = refused 4;
  closing_again = refused 4;
  accepted_size = 16;
}

-- The function of a coroutine that ends.
abbrev pub ending : Func
ending l i = put_thread l i (record (l.threads i) { status = proc_end })

pub ending-IsLocal : (l : Local) (i : ℕ) → IsLocal l → IsLocal (ending l i)
ending-IsLocal l i v = put_thread-IsLocal i (record (l.threads i) { status = proc_end }) refl v

socket_handler-IsLocal_example : IsLocal (socket_handler sys process 4).0
socket_handler-IsLocal_example = socket_handler-IsLocal sys process 4 process-IsLocal

execute-IsLocal_example : IsLocal (execute 9 ending sys process).0
execute-IsLocal_example = execute-IsLocal ending sys ending-IsLocal 9 process process-IsLocal

-- The coroutine 2 is queued before the coroutine 1 that waits.
abbrev waiting : Local
waiting = record process { threads = λ i. record (thread i) { status = proc_run } }

dequeue-enqueue_run_example : dequeued (dequeue_run (enqueue_run waiting 2)) ≡ some (2, 1 ∷ [])
dequeue-enqueue_run_example = dequeue-enqueue_run waiting 2 refl refl

handle_block-registers_example :
    (((handle_block process 4).sockets 4).block.ioft_rx_pre.events ≡ in_event (waits_read socket))
    × (((handle_block process 4).sockets 4).block.ioft_tx_pre.events
        ≡ out_event (waits_write socket))
    × (member 4 (handle_block process 4).blocked_q
        ≡ (member 4 process.blocked_q || (waits_read socket || waits_write socket)))
unfolding init_block
handle_block-registers_example = handle_block-registers process 4 1 process-IsLocal refl

-- The socket is queued, for its reads.
handle_block_run : (handle_block process 4).blocked_q ≡ 4 ∷ []
unfolding handle_block block_read block_write enqueue_socket enqueue_blocked forward_closed
    set_read_block set_write_block init_block pipe_get_fd
handle_block_run = refl
