-- ===== src/FdTable/Preserve.antt =====
-- Every operation of the table keeps its queues what the flags of the entries say.
use mnvkd.Base.{
  subst, ℕ, Bool, true, false, not, if◌then◌else◌, List, ◌∷◌, ◌≡◌, refl, Bool-cases, inl, inr,
}
use mnvkd.FdTable.State.{FdTable, Fd, put_fd, same_bits, any_bits, and_bits, xor_bits}
use mnvkd.FdTable.Queues.{enqueue_dirty, enqueue_fresh, drop_dirty, drop_fresh}
use mnvkd.FdTable.Events.{
  drop_returned, process_fd, mark_polled, drop_zombie, close_fd, close_future, closing, clean_fd,
}
use mnvkd.Queue.{
  set-flag, set-kept, Tracks, Tracks-same, Tracks-insert, Tracks-remove, Tracks-dequeue,
}
use mnvkd.FdTable.Tracking.{IsTable}

-- A write of an entry that leaves its two flags.
pub put_fd-IsTable :
    {t : FdTable} (i : ℕ) (d : Fd)
    → d.dirty_qed ≡ (t.fds i).dirty_qed
    → d.fresh_qed ≡ (t.fds i).fresh_qed
    → IsTable t
    → IsTable (put_fd t i d)
put_fd-IsTable {t} i d hd hf v = record {
  dirty = Tracks-same (set-kept t.fds i d (λ e. e.dirty_qed) hd) v.dirty;
  fresh = Tracks-same (set-kept t.fds i d (λ e. e.fresh_qed) hf) v.fresh;
}

pub if-IsTable : {t u : FdTable} (b : Bool) → IsTable t → IsTable u → IsTable (if b then t else u)
if-IsTable true v w = v
if-IsTable false v w = w

module _ {t : FdTable} (i : ℕ) (v : IsTable t) where
  pub enqueue_dirty-IsTable : IsTable (enqueue_dirty t i)
  unfolding enqueue_dirty
  enqueue_dirty-IsTable = elim (Bool-cases (t.fds i).dirty_qed) [
    | inl e ↦ rw e v
    | inr e ↦
        let d = record (t.fds i) { dirty_qed = true } in
        rw e (record {
          dirty =
              Tracks-same (set-flag t.fds i d (λ k. k.dirty_qed) true refl)
                (Tracks-insert i e v.dirty);
          fresh = Tracks-same (set-kept t.fds i d (λ k. k.fresh_qed) refl) v.fresh;
        })
  ]

  pub enqueue_fresh-IsTable : IsTable (enqueue_fresh t i)
  unfolding enqueue_fresh
  enqueue_fresh-IsTable = elim (Bool-cases (t.fds i).fresh_qed) [
    | inl e ↦ rw e v
    | inr e ↦
        let d = record (t.fds i) { fresh_qed = true } in
        rw e (record {
          dirty = Tracks-same (set-kept t.fds i d (λ k. k.dirty_qed) refl) v.dirty;
          fresh =
              Tracks-same (set-flag t.fds i d (λ k. k.fresh_qed) true refl)
                (Tracks-insert i e v.fresh);
        })
  ]

  pub drop_dirty-IsTable : IsTable (drop_dirty t i)
  unfolding drop_dirty
  drop_dirty-IsTable = elim (Bool-cases (t.fds i).dirty_qed) [
    | inl e ↦
        let d = record (t.fds i) { dirty_qed = false } in
        rw e (record {
          dirty =
              Tracks-same (set-flag t.fds i d (λ k. k.dirty_qed) false refl)
                (Tracks-remove i v.dirty);
          fresh = Tracks-same (set-kept t.fds i d (λ k. k.fresh_qed) refl) v.fresh;
        })
    | inr e ↦ rw e v
  ]

  pub drop_fresh-IsTable : IsTable (drop_fresh t i)
  unfolding drop_fresh
  drop_fresh-IsTable = elim (Bool-cases (t.fds i).fresh_qed) [
    | inl e ↦
        let d = record (t.fds i) { fresh_qed = false } in
        rw e (record {
          dirty = Tracks-same (set-kept t.fds i d (λ k. k.dirty_qed) refl) v.dirty;
          fresh =
              Tracks-same (set-flag t.fds i d (λ k. k.fresh_qed) false refl)
                (Tracks-remove i v.fresh);
        })
    | inr e ↦ rw e v
  ]

-- What a dequeue leaves, where the queue is not empty.
pub dequeue_dirty-IsTable :
    {t : FdTable} (i : ℕ) (rest : List ℕ)
    → t.dirty_fds ≡ i ∷ rest
    → IsTable t
    → IsTable (record (put_fd t i (record (t.fds i) { dirty_qed = false })) { dirty_fds = rest })
dequeue_dirty-IsTable {t} i rest e v =
    let d = record (t.fds i) { dirty_qed = false } in
    record {
      dirty =
          Tracks-same (set-flag t.fds i d (λ k. k.dirty_qed) false refl)
            (Tracks-dequeue (subst (λ xs. Tracks xs (λ j. (t.fds j).dirty_qed)) e v.dirty));
      fresh = Tracks-same (set-kept t.fds i d (λ k. k.fresh_qed) refl) v.fresh;
    }

pub drop_returned-IsTable : {t : FdTable} (i : ℕ) → IsTable t → IsTable (drop_returned t i)
unfolding drop_returned
drop_returned-IsTable {t} i v =
    let d = t.fds i in
    let left = xor_bits d.ioft_pre.events (and_bits d.ioft_ret.revents d.ioft_ret.events) in
    let v1 =
      put_fd-IsTable i (record d { ioft_pre = record (d.ioft_pre) { events = left } }) refl refl
        v in
    if-IsTable (same_bits (and_bits d.ioft_pre.events d.ioft_ret.revents) d.ioft_pre.events)
      (if-IsTable (not (any_bits left)) (drop_dirty-IsTable i v1) v1) v

pub process_fd-IsTable : {t : FdTable} (i : ℕ) → IsTable t → IsTable (process_fd t i)
unfolding process_fd
process_fd-IsTable {t} i v =
    let post = mark_polled (t.fds i).ioft_post in
    let v1 =
      put_fd-IsTable i (record (t.fds i) { ioft_post = post; ioft_ret = post }) refl refl v in
    drop_returned-IsTable i (if-IsTable (any_bits post.revents) (enqueue_fresh-IsTable i v1) v1)

drop_zombie-IsTable : {t : FdTable} (i : ℕ) → IsTable t → IsTable (drop_zombie t i)
drop_zombie-IsTable {t} i v =
    if-IsTable (t.fds i).zombie (drop_fresh-IsTable i (drop_dirty-IsTable i v)) v

close_fd-IsTable : {t : FdTable} (i : ℕ) → IsTable t → IsTable (close_fd t i)
close_fd-IsTable {t} i v =
    let d = t.fds i in
    let closed = record d {
      closed = true;
      ioft_post = close_future d.ioft_post;
      ioft_ret = close_future d.ioft_ret;
    } in
    let v1 = drop_dirty-IsTable i (put_fd-IsTable i closed refl refl v) in
    if-IsTable (not d.zombie) (enqueue_fresh-IsTable i v1) v1

pub clean_fd-IsTable : {t : FdTable} (i : ℕ) → IsTable t → IsTable (clean_fd t i)
unfolding clean_fd
clean_fd-IsTable {t} i v =
    let v1 = drop_zombie-IsTable i v in
    if-IsTable (closing ((drop_zombie t i).fds i)) (close_fd-IsTable i v1) v1
