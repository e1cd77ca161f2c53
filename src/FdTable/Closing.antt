-- ===== src/FdTable/Closing.antt =====
-- A socket whose two sides are to be closed, and which waits for no event.
use mnvkd.Base.{
  ℕ, false, ◌||◌, if◌then◌else◌, Option, none, some, to_size, ◌≡◌, refl, ap, ◌∙◌, Bool-cases, inl,
  inr,
}
use mnvkd.FdTable.State.{FdTable, Fd, any_bits, IoFuture, io_future_init, allocate, get}
use mnvkd.FdTable.Queues.{enqueue_dirty}
use mnvkd.FdTable.Prepoll.{
  Proc, allocate_fd, set_pre, wanted, register_entry, prepoll_entry, prepoll_blocked_fd,
}
use mnvkd.FdTable.Lifecycle.{put_entry}

allocate_fd_dirty :
    (t : FdTable) (p : Proc) (i fd : ℕ) → (allocate_fd t p i fd).0.dirty_fds ≡ t.dirty_fds
unfolding allocate_fd allocate
allocate_fd_dirty t p i fd = elim (Bool-cases (t.fds i).allocated) [
  | inl e ↦ rw e refl
  | inr e ↦ rw e refl
]

register_entry_dirty :
    (t : FdTable) (f : IoFuture) (i : ℕ)
    → any_bits f.events ≡ false
    → (register_entry t f i).dirty_fds ≡ t.dirty_fds
unfolding set_pre io_future_init
register_entry_dirty t f i e =
    let pre = record (io_future_init f.socket) { fd = f.fd; events = f.events } in
    let t1 = set_pre t i f in
    let entry = put_entry t i (record (t.fds i) { ioft_pre = pre }) in
    let quiet : wanted ((t1.fds i).ioft_pre) ≡ false =
      ap {A = Fd} (λ d. wanted d.ioft_pre) entry ∙ ap (λ b. b || false) e in
    ap (λ b. (if b then enqueue_dirty t1 i else t1).dirty_fds) quiet

-- Without an event to wait for, vk_fd_table_prepoll_blocked_fd leaves the dirty queue as it is,
-- whatever the socket's rx_closed and tx_closed say: also where both sides are to be closed.
prepoll_closed :
    (t : FdTable) (f : IoFuture) (p : Proc)
    → any_bits f.events ≡ false
    → (prepoll_blocked_fd t f p).0.dirty_fds ≡ t.dirty_fds
unfolding prepoll_blocked_fd
prepoll_closed t f p e = entries (get t (to_size f.fd))
  where
    entries : (o : Option ℕ) → (prepoll_entry t f p o).0.dirty_fds ≡ t.dirty_fds
    entries none = refl
    entries (some i) =
        register_entry_dirty (allocate_fd t p i (to_size f.fd)).0 f i e
        ∙ allocate_fd_dirty t p i (to_size f.fd)
