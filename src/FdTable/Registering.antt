-- ===== src/FdTable/Registering.antt =====
-- Registering a blocked socket and retiring a zombie's descriptors keep the table's queues.
use mnvkd.Base.{
  ℕ, is_minus_one, to_size, Bool, true, false, not, ◌&&◌, if◌then◌else◌, List, [], ◌∷◌, Option,
  some, none, refl, Bool-cases, inl, inr,
}
use mnvkd.FdTable.State.{FdTable, IoFuture, io_future_init, get, allocate}
use mnvkd.FdTable.Prepoll.{
  Proc, allocate_fd, deallocate_fd, set_pre, wanted, register_entry, prepoll_entry,
  prepoll_blocked_fd, same_int, prepoll_blocked_socket, retire_fd, retire_all, prepoll_zombie,
}
use mnvkd.FdTable.Tracking.{IsTable}
use mnvkd.FdTable.Preserve.{put_fd-IsTable, if-IsTable, enqueue_dirty-IsTable}

if-IsTable_first :
    (b : Bool) (out other : FdTable × Proc)
    → IsTable out.0
    → IsTable other.0
    → IsTable (if b then out else other).0
if-IsTable_first true out other v w = v
if-IsTable_first false out other v w = w

allocate_fd-IsTable :
    {t : FdTable} (p : Proc) (i fd : ℕ) → IsTable t → IsTable (allocate_fd t p i fd).0
unfolding allocate_fd allocate
allocate_fd-IsTable {t} p i fd v = elim (Bool-cases (t.fds i).allocated) [
  | inl e ↦ rw e v
  | inr e ↦ rw e (
      put_fd-IsTable i
        (record (t.fds i) {
          fd = fd;
          proc_id = p.proc_id;
          allocated = true;
          closed = false;
          added = false;
          zombie = false;
        })
        refl refl v)
]

deallocate_fd-IsTable :
    {t : FdTable} (p : Proc) (i : ℕ) → IsTable t → IsTable (deallocate_fd t p i).0
unfolding deallocate_fd
deallocate_fd-IsTable {t} p i v =
    if-IsTable_first (t.fds i).allocated _ _
      (put_fd-IsTable i (record (t.fds i) { allocated = false }) refl refl v) v

register_entry-IsTable :
    {t : FdTable} (f : IoFuture) (i : ℕ) → IsTable t → IsTable (register_entry t f i)
unfolding set_pre
register_entry-IsTable {t} f i v =
    let pre = record (io_future_init f.socket) { fd = f.fd; events = f.events } in
    let v1 = put_fd-IsTable i (record (t.fds i) { ioft_pre = pre }) refl refl v in
    if-IsTable (wanted (((set_pre t i f).fds i).ioft_pre)) (enqueue_dirty-IsTable i v1) v1

prepoll_entry-IsTable :
    {t : FdTable} (f : IoFuture) (p : Proc) (o : Option ℕ)
    → IsTable t
    → IsTable (prepoll_entry t f p o).0
prepoll_entry-IsTable f p none v = v
prepoll_entry-IsTable f p (some i) v =
    register_entry-IsTable f i (allocate_fd-IsTable p i (to_size f.fd) v)

pub prepoll_blocked_fd-IsTable :
    {t : FdTable} (f : IoFuture) (p : Proc) → IsTable t → IsTable (prepoll_blocked_fd t f p).0
unfolding prepoll_blocked_fd
prepoll_blocked_fd-IsTable {t} f p v = prepoll_entry-IsTable f p (get t (to_size f.fd)) v

retire_fd-IsTable : {u : FdTable} (q : Proc) (i : ℕ) → IsTable u → IsTable (retire_fd u q i).0
unfolding retire_fd
retire_fd-IsTable {u} q i w = deallocate_fd-IsTable q i (
    enqueue_dirty-IsTable i (
      put_fd-IsTable i
        (record (u.fds i) {
          ioft_pre = record ((u.fds i).ioft_pre) { rx_closed = true; tx_closed = true };
          zombie = true;
        })
        refl refl w))

retire_all-IsTable :
    (is : List ℕ) (u : FdTable) (q : Proc) → IsTable u → IsTable (retire_all u q is).0
retire_all-IsTable [] u q w = w
retire_all-IsTable (i ∷ is) u q w =
    retire_all-IsTable is (retire_fd u q i).0 (retire_fd u q i).1 (retire_fd-IsTable q i w)

-- Registering a blocked socket for its reads and its writes, and retiring the descriptors of a
-- zombie, keep both queues of a table what the flags of its entries say.
prepoll-IsTable :
    {t : FdTable} (rx tx : IoFuture) (p : Proc)
    → IsTable t
    → IsTable (prepoll_blocked_socket t rx tx p).0 × IsTable (prepoll_zombie t p).0
unfolding prepoll_blocked_socket prepoll_zombie
prepoll-IsTable {t} rx tx p v =
    let first = if not (is_minus_one rx.fd) then prepoll_blocked_fd t rx p else (t, p) in
    let v1 : IsTable first.0 =
      if-IsTable_first (not (is_minus_one rx.fd)) _ _ (prepoll_blocked_fd-IsTable rx p v) v in
    (
      if-IsTable_first (not (is_minus_one tx.fd) && not (same_int tx.fd rx.fd)) _ _
          (prepoll_blocked_fd-IsTable tx first.1 v1) v1,
      retire_all-IsTable p.allocated_fds t p v,
    )
