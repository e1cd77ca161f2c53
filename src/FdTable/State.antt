-- ===== src/FdTable/State.antt =====
-- The state: struct vk_io_future, struct vk_fd, struct vk_fd_table, with vk_fd_allocate,
-- vk_fd_free, vk_fd_table_get and vk_io_future_init.
use mnvkd.Base.{
  ℕ, ℤ, minus_one, Bool, true, false, not, ◌&&◌, ◌||◌, if◌then◌else◌, ltb, ◌==◌, Option, some, none,
  List, Checked, ok, fail, enoent,
}

-- The bits of `events` and `revents` that the code uses.
pub record Bits : Type 0 where
  pub pollin : Bool
  pub pollout : Bool
  pub pollhup : Bool
  pub pollrdhup : Bool
  pub pollerr : Bool

abbrev pub no_bits : Bits
no_bits = record {
  pollin = false;
  pollout = false;
  pollhup = false;
  pollrdhup = false;
  pollerr = false;
}

-- `a & b`
abbrev pub and_bits : Bits → Bits → Bits
and_bits a b = record {
  pollin = a.pollin && b.pollin;
  pollout = a.pollout && b.pollout;
  pollhup = a.pollhup && b.pollhup;
  pollrdhup = a.pollrdhup && b.pollrdhup;
  pollerr = a.pollerr && b.pollerr;
}

-- `a != b` for two Booleans
abbrev pub differ : Bool → Bool → Bool
differ true b = not b
differ false b = b

-- `a ^ b`
abbrev pub xor_bits : Bits → Bits → Bits
xor_bits a b = record {
  pollin = differ a.pollin b.pollin;
  pollout = differ a.pollout b.pollout;
  pollhup = differ a.pollhup b.pollhup;
  pollrdhup = differ a.pollrdhup b.pollrdhup;
  pollerr = differ a.pollerr b.pollerr;
}

-- `a != 0`
abbrev pub any_bits : Bits → Bool
any_bits a = a.pollin || a.pollout || a.pollhup || a.pollrdhup || a.pollerr

-- `a == b`
abbrev pub same_bits : Bits → Bits → Bool
same_bits a b = not (any_bits (xor_bits a b))

pub record IoFuture : Type 0 where
  pub socket : Option ℕ
  pub fd : ℤ
  pub events : Bits
  pub revents : Bits
  pub readable : ℕ
  pub writable : ℕ
  pub rx_closed : Bool
  pub tx_closed : Bool

unfoldable pub io_future_init : Option ℕ → IoFuture
io_future_init socket = record {
  socket = socket;
  fd = minus_one;
  events = no_bits;
  revents = no_bits;
  readable = 0;
  writable = 0;
  rx_closed = false;
  tx_closed = false;
}

pub record Fd : Type 0 where
  pub fd : ℕ
  pub proc_id : ℕ
  pub closed : Bool
  pub zombie : Bool
  pub added : Bool
  pub allocated : Bool
  pub dirty_qed : Bool
  pub fresh_qed : Bool
  pub ioft_post : IoFuture
  pub ioft_pre : IoFuture
  pub ioft_ret : IoFuture

-- `vk_fd_allocate`
unfoldable pub allocate : Fd → ℕ → ℕ → Checked Fd
allocate d fd proc_id =
    if d.allocated
    then fail enoent
    else ok (record d {
      fd = fd;
      proc_id = proc_id;
      allocated = true;
      closed = false;
      added = false;
      zombie = false;
    })

-- `vk_fd_free`
unfoldable pub free : Fd → Fd
free d = record d { allocated = false; closed = false; added = false; zombie = false }

pub record FdTable : Type 0 where
  pub size : ℕ
  pub dirty_fds : List ℕ
  pub fresh_fds : List ℕ
  pub edge_triggered : Bool
  pub epoll_initialized : Bool
  pub epoll_fd : ℕ
  pub epoll_event_count : ℕ
  pub fds : ℕ → Fd

-- `vk_fd_table_get`, which gives a pointer to the entry
unfoldable pub get : FdTable → ℕ → Option ℕ
get t i = if ltb i t.size then some i else none

-- A write through the pointer to entry `i`.
abbrev pub put_fd : FdTable → ℕ → Fd → FdTable
put_fd t i d = record t { fds = λ j. if j == i then d else t.fds j }
