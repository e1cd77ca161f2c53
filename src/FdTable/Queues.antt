-- ===== src/FdTable/Queues.antt =====
-- The queues: vk_fd_table_enqueue_*, vk_fd_table_drop_* and vk_fd_table_dequeue_*.
use mnvkd.Base.{ℕ, true, false, not, if◌then◌else◌, Option, some, none, List, [], ◌∷◌}
use mnvkd.Queue.{remove}
use mnvkd.FdTable.State.{FdTable, put_fd}

unfoldable pub enqueue_dirty : FdTable → ℕ → FdTable
enqueue_dirty t i =
    if not (t.fds i).dirty_qed
    then record (put_fd t i (record (t.fds i) { dirty_qed = true })) { dirty_fds = i ∷ t.dirty_fds }
    else t

unfoldable pub enqueue_fresh : FdTable → ℕ → FdTable
enqueue_fresh t i =
    if not (t.fds i).fresh_qed
    then record (put_fd t i (record (t.fds i) { fresh_qed = true })) { fresh_fds = i ∷ t.fresh_fds }
    else t

unfoldable pub drop_dirty : FdTable → ℕ → FdTable
drop_dirty t i =
    if (t.fds i).dirty_qed
    then record (put_fd t i (record (t.fds i) { dirty_qed = false })) {
      dirty_fds = remove i t.dirty_fds;
    }
    else t

unfoldable pub drop_fresh : FdTable → ℕ → FdTable
drop_fresh t i =
    if (t.fds i).fresh_qed
    then record (put_fd t i (record (t.fds i) { fresh_qed = false })) {
      fresh_fds = remove i t.fresh_fds;
    }
    else t

abbrev pub dequeue_dirty_from : FdTable → List ℕ → Option (ℕ × FdTable)
dequeue_dirty_from t [] = none
dequeue_dirty_from t (i ∷ rest) =
    some (i, record (put_fd t i (record (t.fds i) { dirty_qed = false })) { dirty_fds = rest })

unfoldable pub dequeue_dirty : FdTable → Option (ℕ × FdTable)
dequeue_dirty t = dequeue_dirty_from t t.dirty_fds

abbrev pub dequeue_fresh_from : FdTable → List ℕ → Option (ℕ × FdTable)
dequeue_fresh_from t [] = none
dequeue_fresh_from t (i ∷ rest) =
    some (i, record (put_fd t i (record (t.fds i) { fresh_qed = false })) { fresh_fds = rest })

unfoldable pub dequeue_fresh : FdTable → Option (ℕ × FdTable)
dequeue_fresh t = dequeue_fresh_from t t.fresh_fds
