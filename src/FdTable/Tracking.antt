-- ===== src/FdTable/Tracking.antt =====
-- The invariant of the table's queues.
use mnvkd.FdTable.State.{FdTable}
use mnvkd.Queue.{Tracks}

-- Both queues of a table are what the flags of its entries say.
pub record IsTable (t : FdTable) : Type 0 where
  pub dirty : Tracks t.dirty_fds (λ i. (t.fds i).dirty_qed)
  pub fresh : Tracks t.fresh_fds (λ i. (t.fds i).fresh_qed)
