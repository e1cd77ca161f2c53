-- ===== src/Socket.antt =====
-- vk_pipe.c, vk_pipe_s.h, vk_socket_s.h and the operations of vk_socket.c on one socket: the two
-- rings of a socket, its pipes, and its block, which says what its coroutine waits for.
use mnvkd.Base.{
  ℕ, ℤ, pos, minus_one, is_negative, Bool, true, false, not, ◌&&◌, if◌then◌else◌, ◌==◌, Option,
  some, none, add_size, sub_size, to_size,
}
use mnvkd.Vectoring.State.{Vectoring, is_empty, has_nodata, handle_effect, clear_eof}
use mnvkd.FdTable.State.{Bits, no_bits, IoFuture, io_future_init}

-- `enum vk_fd_type`, from vk_fd_e.h
pub data FdType : Type 0 where
  unknown : FdType
  pipe : FdType
  socket_stream : FdType
  socket_datagram : FdType
  socket_listen : FdType
  file : FdType
  file_heap : FdType
  kqueue : FdType
  epoll : FdType
  inotify : FdType
  event : FdType
  timer : FdType
  signal : FdType

abbrev pub is_listen : FdType → Bool
is_listen socket_listen = true
is_listen _ = false

-- The type of a pipe with what it refers to: a descriptor, or a socket, which may be NULL.
pub data PipeRef : Type 0 where
  os_fd : ℤ → PipeRef
  vk_rx : Option ℕ → PipeRef
  vk_tx : Option ℕ → PipeRef

pub record Pipe : Type 0 where
  pub ref : PipeRef
  pub fd_type : FdType
  pub closed : Bool

unfoldable pub pipe_init_fd : ℤ → FdType → Pipe
pipe_init_fd fd fd_type = record { ref = os_fd fd; fd_type = fd_type; closed = false }

unfoldable pub pipe_init_rx : Pipe → Option ℕ → Pipe
pipe_init_rx p socket = record p { ref = vk_rx socket; closed = false }

unfoldable pub pipe_init_tx : Pipe → Option ℕ → Pipe
pipe_init_tx p socket = record p { ref = vk_tx socket; closed = false }

abbrev pub ref_fd : PipeRef → ℤ
ref_fd (os_fd fd) = fd
ref_fd (vk_rx _) = minus_one
ref_fd (vk_tx _) = minus_one

unfoldable pub pipe_get_fd : Pipe → ℤ
pipe_get_fd p = ref_fd p.ref

abbrev pub ref_socket : PipeRef → Option ℕ
ref_socket (os_fd _) = none
ref_socket (vk_rx socket) = socket
ref_socket (vk_tx socket) = socket

unfoldable pub pipe_get_socket : Pipe → Option ℕ
pipe_get_socket p = ref_socket p.ref

-- `enum vk_op_type`
pub data Op : Type 0 where
  op_none : Op
  op_read : Op
  op_write : Op
  op_forward : Op
  op_flush : Op
  op_hup : Op
  op_readhup : Op
  op_tx_close : Op
  op_rx_close : Op
  op_rx_shutdown : Op
  op_tx_shutdown : Op
  op_readable : Op
  op_writable : Op

pub record Block : Type 0 where
  pub op : Op
  pub buf : ℕ
  pub len : ℕ
  pub copied : ℕ
  pub rc : ℤ
  pub ioft_rx_pre : IoFuture
  pub ioft_tx_pre : IoFuture
  pub ioft_rx_ret : IoFuture
  pub ioft_tx_ret : IoFuture
  pub blocked_vk : Option ℕ

unfoldable pub block_init : Block → ℕ → ℕ → Op → Block
block_init b buf len op = record b { buf = buf; len = len; op = op; copied = 0 }

-- The sums with an `ssize_t` wrap as those of `size_t`.
unfoldable pub block_commit : Block → ℤ → Block
block_commit b rc = record b {
  rc = rc;
  len = sub_size b.len (to_size rc);
  buf = add_size b.buf (to_size rc);
  copied = add_size b.copied (to_size rc);
}

pub record Socket : Type 0 where
  pub rx : Vectoring
  pub tx : Vectoring
  pub block : Block
  pub rx_fd : Pipe
  pub tx_fd : Pipe
  pub error : ℕ
  pub blocked_enq : Bool

-- `VK_BLOCK_INIT`
unfoldable pub init_block : ℕ → Option ℕ → Block
init_block socket blocked_vk = record {
  op = op_none;
  buf = 0;
  len = 0;
  copied = 0;
  rc = pos 0;
  ioft_rx_pre = io_future_init (some socket);
  ioft_tx_pre = io_future_init (some socket);
  ioft_rx_ret = io_future_init (some socket);
  ioft_tx_ret = io_future_init (some socket);
  blocked_vk = blocked_vk;
}

-- The I/O futures that a poller is to watch: a descriptor, and whether to wait for its event.
abbrev pub in_event : Bool → Bits
in_event wait = record no_bits { pollin = wait }

abbrev pub out_event : Bool → Bits
out_event wait = record no_bits { pollout = wait }

unfoldable pub set_read_block : Socket → Bool → Socket
set_read_block s wait = record s {
  block = record (s.block) {
    ioft_rx_pre = record (s.block.ioft_rx_pre) { events = in_event wait };
  };
}

unfoldable pub set_write_block : Socket → Bool → Socket
set_write_block s wait = record s {
  block = record (s.block) {
    ioft_tx_pre = record (s.block.ioft_tx_pre) { events = out_event wait };
  };
}

unfoldable pub is_read_blocked : Socket → Bool
is_read_blocked s = s.block.ioft_rx_pre.events.pollin

unfoldable pub is_write_blocked : Socket → Bool
is_write_blocked s = s.block.ioft_tx_pre.events.pollout

-- The first half of `vk_socket_handle_block`: the descriptors and the closed state of the rings.
unfoldable pub forward_closed : Socket → Socket
forward_closed s =
    let rx_number = pipe_get_fd s.rx_fd in
    let tx_number = pipe_get_fd s.tx_fd in
    let rx_shut = not (is_negative rx_number) && s.rx.closed in
    let tx_shut = not (is_negative tx_number) && s.tx.closed in
    record s {
      rx_fd = record (s.rx_fd) { closed = s.rx.closed };
      tx_fd = record (s.tx_fd) { closed = s.tx.closed };
      block = record (s.block) {
        ioft_rx_pre = record (s.block.ioft_rx_pre) {
          fd = rx_number;
          rx_closed = if rx_shut then true else s.block.ioft_rx_pre.rx_closed;
        };
        ioft_tx_pre = record (s.block.ioft_tx_pre) {
          fd = tx_number;
          tx_closed = if tx_shut then true else s.block.ioft_tx_pre.tx_closed;
        };
      };
    }

unfoldable pub handle_readable : Socket → Socket
handle_readable s = set_write_block (set_read_block s true) false

unfoldable pub handle_writable : Socket → Socket
handle_writable s = set_read_block (set_write_block s true) false

unfoldable pub handle_rx_effect : Socket → Bool × Socket
handle_rx_effect s = let (effect, r) = handle_effect s.rx in (effect, record s { rx = r })

unfoldable pub handle_tx_effect : Socket → Bool × Socket
handle_tx_effect s = let (effect, r) = handle_effect s.tx in (effect, record s { tx = r })

unfoldable pub socket_empty : Socket → Bool
socket_empty s = is_empty s.rx

unfoldable pub socket_nodata : Socket → Bool
socket_nodata s = has_nodata s.rx

unfoldable pub socket_empty_tx : Socket → Bool
socket_empty_tx s = is_empty s.tx

unfoldable pub socket_nodata_tx : Socket → Bool
socket_nodata_tx s = has_nodata s.tx

unfoldable pub socket_clear : Socket → Socket
socket_clear s = record s { rx = clear_eof s.rx }

unfoldable pub socket_clear_tx : Socket → Socket
socket_clear_tx s = record s { tx = clear_eof s.tx }

-- `sockets` gives the socket at each pointer.
abbrev pub reader_nodata : (ℕ → Socket) → Socket → Option ℕ → Bool
reader_nodata sockets s none =
    if socket_nodata s
    then true
    else s.block.ioft_rx_ret.rx_closed && (s.block.ioft_rx_ret.readable == 0)
reader_nodata sockets s (some writer) = socket_nodata_tx (sockets writer)

unfoldable pub get_reader_nodata : (ℕ → Socket) → Socket → Bool
get_reader_nodata sockets s = reader_nodata sockets s (pipe_get_socket s.rx_fd)

unfoldable pub pollhup : (ℕ → Socket) → Socket → Bool
pollhup sockets s = if not (socket_empty s) then false else get_reader_nodata sockets s
