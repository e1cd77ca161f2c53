-- ===== src/Request.antt =====
-- vk_io_op.c, vk_io_queue.c, vk_io_exec.c and vk_io_batch_sync.c: requests to read or write, their
-- queues, and a batch that makes one request of each stream. What readv and writev return is an
-- argument. A request is named by a number, and so is a queue.
pub mod Batch
pub mod Queues
pub mod Rings
use mnvkd.Base.{
  ℕ, ◌+◌, ◌-◌, ℤ, pos, minus_one, to_size, Bool, true, false, if◌then◌else◌, ltb, ◌==◌, Option,
  some, none, List, [], ◌∷◌, ◌++◌, Checked, ok, fail, eagain, einval, add_size,
}
use mnvkd.Heap.{to_int}
use mnvkd.Vectoring.State.{Vectoring, Iovec, Vectors}
use mnvkd.Vectoring.Transfer.{signed_sent, signed_received}
use mnvkd.Vectoring.Syscalls.{CallResult, refused, done}

-- `enum VK_IO_OP_KIND`
pub data Kind : Type 0 where
  io_read : Kind
  io_write : Kind
  io_forward : Kind
  io_flush : Kind
  io_hup : Kind

-- `enum VK_IO_OP_STATE`
pub data State : Type 0 where
  pending : State
  staged : State
  submitted : State
  completed : State
  again : State
  needs_poll : State
  errored : State
  canceled : State

-- `struct vk_io_op`, without the tags that nothing reads
pub record Request : Type 0 where
  pub fd : ℤ
  pub proc : Option ℕ
  pub thread : Option ℕ
  pub kind : Kind
  pub iov : Vectors
  pub len : ℕ
  pub flags : ℕ
  pub state : State
  pub res : ℤ
  pub err : ℕ

unfoldable pub set_iov2 : Request → Vectors → ℕ → Request
set_iov2 op iov total_len = record op { iov = iov; len = total_len }

abbrev pub min_size : ℕ → ℕ → ℕ
min_size a b = if ltb a b then a else b

-- The `int` that the accessors of a ring give, as a `size_t`
abbrev pub as_size : ℕ → ℕ
as_size n = to_size (to_int n)

-- `l1` and `l2`: how much of each vector a request of `need` bytes takes.
abbrev pub lengths : Vectors → ℕ → ℕ × ℕ
lengths v need =
    let l1 = min_size (as_size v.first.iov_len) need in
    let remaining = need - l1 in
    (l1, if ltb 0 remaining then min_size (as_size v.second.iov_len) remaining else 0)

-- The request with the two parts, which start where the vectors do.
abbrev pub with_parts : Request → Vectors → ℕ × ℕ → Request
with_parts op v (l1, l2) = record op {
  iov = record {
    first = record { iov_base = v.first.iov_base; iov_len = l1 };
    second = record { iov_base = v.second.iov_base; iov_len = l2 };
  };
  len = add_size l1 l2;
}

-- The part of the two vectors of a ring that a request takes; `max_len` is 0 for all of them.
unfoldable pub from_vectors : Request → Vectors → ℕ → Checked Request
from_vectors op v max_len =
    let all = add_size (as_size v.first.iov_len) (as_size v.second.iov_len) in
    let need = if ltb 0 max_len then max_len else all in
    if all == 0 then fail eagain else ok (with_parts op v (lengths v need))

unfoldable pub from_tx_ring : Request → Vectoring → ℕ → Checked Request
from_tx_ring op ring max_len = from_vectors op ring.vector_tx max_len

unfoldable pub from_rx_ring : Request → Vectoring → ℕ → Checked Request
from_rx_ring op ring max_len = from_vectors op ring.vector_rx max_len

-- What a call leaves in the request.
abbrev pub classify : Request → CallResult → Request
classify op (done n) =
    if ltb n op.len
    then record op { res = pos n; err = eagain; state = needs_poll }
    else record op { res = pos n; err = 0; state = completed }
classify op (refused e) = record op {
  res = minus_one;
  err = e;
  state = if e == eagain then needs_poll else errored;
}

abbrev pub exec_kind : Request → CallResult → Kind → Request × Bool
exec_kind op result io_read = (classify op result, true)
exec_kind op result io_write = (classify op result, true)
exec_kind op result io_forward = (op, false)
exec_kind op result io_flush = (op, false)
exec_kind op result io_hup = (op, false)

-- `vk_io_exec_rw`, and whether it does not return -1, which leaves EINVAL in errno
unfoldable pub exec_rw : Request → CallResult → Request × Bool
exec_rw op result = exec_kind op result op.kind

-- `vk_io_apply_tx` and `vk_io_apply_rx` of what a call returned, with `errno`: the request is not read.
unfoldable pub apply_tx : ℕ → Vectoring → Request → ℤ → ℕ × Vectoring
apply_tx errno ring op res = signed_sent errno ring res

unfoldable pub apply_rx : ℕ → Vectoring → Request → ℤ → ℕ × Vectoring
apply_rx errno ring op res = signed_received errno ring res
