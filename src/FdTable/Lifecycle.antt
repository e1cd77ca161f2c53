-- ===== src/FdTable/Lifecycle.antt =====
-- What becomes of an entry: events wake its process, and a zombie's entry leaves both queues.
use mnvkd.Base.{
  ℕ, Bool, true, false, not, ◌||◌, ◌&&◌, ◌==◌, if◌then◌else◌, member, ◌≡◌, refl, ap, ap₂, ◌∙◌,
  arith, Bool-cases, inl, inr, none,
}
use mnvkd.FdTable.State.{FdTable, Fd, put_fd, same_bits, any_bits, and_bits}
use mnvkd.FdTable.Queues.{enqueue_fresh, drop_dirty, drop_fresh}
use mnvkd.FdTable.Events.{
  drop_returned, process_fd, mark_polled, drop_zombie, close_fd, close_future, closing, clean_fd,
}
use mnvkd.FdTable.Epoll.{Ctl, level_event, register_level, ctl_add, ctl_mod}
use mnvkd.FdTable.Tracking.{IsTable}
use mnvkd.FdTable.Preserve.{clean_fd-IsTable, enqueue_fresh-IsTable, put_fd-IsTable}

same : (i : ℕ) → (i == i) ≡ true
same i = ground arith

-- The entry itself after each operation.
pub put_entry : (t : FdTable) (i : ℕ) (d : Fd) → (put_fd t i d).fds i ≡ d
put_entry t i d = rw (same i) refl

pub enqueue_fresh_entry :
    (t : FdTable) (i : ℕ) → (enqueue_fresh t i).fds i ≡ record (t.fds i) { fresh_qed = true }
unfolding enqueue_fresh
enqueue_fresh_entry t i = elim (Bool-cases (t.fds i).fresh_qed) [
  | inl e ↦ simp (enqueue_fresh, e) (ap (λ b. record (t.fds i) { fresh_qed = b }) e)
  | inr e ↦ simp (enqueue_fresh, e) (put_entry t i (record (t.fds i) { fresh_qed = true }))
]

drop_dirty_entry :
    (t : FdTable) (i : ℕ) → (drop_dirty t i).fds i ≡ record (t.fds i) { dirty_qed = false }
unfolding drop_dirty
drop_dirty_entry t i = elim (Bool-cases (t.fds i).dirty_qed) [
  | inl e ↦ simp (drop_dirty, e) (put_entry t i (record (t.fds i) { dirty_qed = false }))
  | inr e ↦ simp (drop_dirty, e) (ap (λ b. record (t.fds i) { dirty_qed = b }) e)
]

drop_fresh_entry :
    (t : FdTable) (i : ℕ) → (drop_fresh t i).fds i ≡ record (t.fds i) { fresh_qed = false }
unfolding drop_fresh
drop_fresh_entry t i = elim (Bool-cases (t.fds i).fresh_qed) [
  | inl e ↦ simp (drop_fresh, e) (put_entry t i (record (t.fds i) { fresh_qed = false }))
  | inr e ↦ simp (drop_fresh, e) (ap (λ b. record (t.fds i) { fresh_qed = b }) e)
]

-- Where `epoll_ctl` succeeds for an entry that is not closed, the write side of a level-triggered
-- registration is asked for only where the read side is not, while the entry records all that it
-- asks for as registered.
register_level_lem :
    (ctl : Ctl) (d : Fd)
    → d.closed ≡ false
    → ctl (if d.added then ctl_mod else ctl_add) d.fd (level_event d) ≡ none
    → ((level_event d).epollin ≡ d.ioft_pre.events.pollin)
      × ((level_event d).epollout ≡ (d.ioft_pre.events.pollout && not d.ioft_pre.events.pollin))
      × ((register_level ctl d).0.ioft_post ≡ d.ioft_pre)
      × ((register_level ctl d).0.added ≡ true)
unfolding level_event register_level
register_level_lem ctl d open_fd k =
    (ground arith, ground arith, rw (open_fd, k) refl, rw (open_fd, k) refl)

drop_zombie_entry :
    (t : FdTable) (i : ℕ)
    → (t.fds i).zombie ≡ true
    → (drop_zombie t i).fds i ≡ record (t.fds i) { dirty_qed = false; fresh_qed = false }
drop_zombie_entry t i z =
    ap (λ b. (if b then drop_fresh (drop_dirty t i) i else t).fds i) z
    ∙ drop_fresh_entry (drop_dirty t i) i
    ∙ ap {A = Fd} (λ d. record d { fresh_qed = false }) (drop_dirty_entry t i)

-- A zombie's entry that is not closed is closed, and stays off the queues.
close_zombie_entry :
    (t : FdTable) (i : ℕ)
    → (t.fds i).zombie ≡ true
    → (close_fd t i).fds i ≡ record (t.fds i) {
      closed = true;
      dirty_qed = false;
      ioft_post = close_future ((t.fds i).ioft_post);
      ioft_ret = close_future ((t.fds i).ioft_ret);
    }
close_zombie_entry t i z =
    let d = record (t.fds i) {
      closed = true;
      ioft_post = close_future ((t.fds i).ioft_post);
      ioft_ret = close_future ((t.fds i).ioft_ret);
    } in
    let t1 = drop_dirty (put_fd t i d) i in
    ap (λ b. (if not b then enqueue_fresh t1 i else t1).fds i) z
    ∙ drop_dirty_entry (put_fd t i d) i
    ∙ ap {A = Fd} (λ e. record e { dirty_qed = false }) (put_entry t i d)

-- The entry of a zombie, once it is clean.
abbrev pub Retired : Fd → Type 0
Retired d = (d.closed ≡ true) × (d.dirty_qed ≡ false) × (d.fresh_qed ≡ false)

closing_zombie : (d : Fd) (b : Bool) → d.closed ≡ b → d.zombie ≡ true → closing d ≡ not b
closing_zombie d b e z =
    ap₂ (λ c m. not c && (m || (d.ioft_pre.rx_closed && d.ioft_pre.tx_closed))) e z ∙ both b
  where
    both : (c : Bool) → (not c && true) ≡ not c
    both true = refl
    both false = refl

clean_fd_entry : (t : FdTable) (i : ℕ) → (t.fds i).zombie ≡ true → Retired ((clean_fd t i).fds i)
unfolding clean_fd
clean_fd_entry t i z =
    let u = drop_zombie t i in
    let entry = drop_zombie_entry t i z in
    let z1 : (u.fds i).zombie ≡ true = ap {A = Fd} (λ d. d.zombie) entry ∙ z in
    elim (Bool-cases (u.fds i).closed) [
      | inl e ↦
          let k = closing_zombie (u.fds i) true e z1 in
          let kept : (clean_fd t i).fds i ≡ u.fds i =
            ap (λ b. (if b then close_fd u i else u).fds i) k in
          (
            ap {A = Fd} (λ d. d.closed) kept ∙ e,
            ap {A = Fd} (λ d. d.dirty_qed) (kept ∙ entry),
            ap {A = Fd} (λ d. d.fresh_qed) (kept ∙ entry),
          )
      | inr e ↦
          let k = closing_zombie (u.fds i) false e z1 in
          let now = ap (λ b. (if b then close_fd u i else u).fds i) k ∙ close_zombie_entry u i z1 in
          (
            ap {A = Fd} (λ d. d.closed) now,
            ap {A = Fd} (λ d. d.dirty_qed) now,
            ap {A = Fd} (λ d. d.fresh_qed) now ∙ ap {A = Fd} (λ d. d.fresh_qed) entry,
          )
    ]

-- In a table whose queues are what the flags of its entries say, cleaning the entry of a zombie
-- takes it off both queues and marks it closed.
pub clean_zombie :
    {t : FdTable} (i : ℕ)
    → IsTable t
    → (t.fds i).zombie ≡ true
    → (member i (clean_fd t i).dirty_fds ≡ false)
      × (member i (clean_fd t i).fresh_fds ≡ false)
      × (((clean_fd t i).fds i).closed ≡ true)
clean_zombie {t} i v z =
    let after = clean_fd-IsTable i v in
    let (closed, dirty, fresh) = clean_fd_entry t i z in
    (after.dirty.says i ∙ dirty, after.fresh.says i ∙ fresh, closed)

drop_returned_partial :
    (t : FdTable) (i : ℕ)
    → same_bits
        (and_bits ((t.fds i).ioft_pre.events) ((t.fds i).ioft_ret.revents))
        ((t.fds i).ioft_pre.events)
      ≡ false
    → drop_returned t i ≡ t
unfolding drop_returned
drop_returned_partial t i e = simp (drop_returned, e) refl

enqueue_fresh_dirty : (t : FdTable) (i : ℕ) → (enqueue_fresh t i).dirty_fds ≡ t.dirty_fds
unfolding enqueue_fresh
enqueue_fresh_dirty t i = elim (Bool-cases (t.fds i).fresh_qed) [
  | inl e ↦ simp (enqueue_fresh, e) refl
  | inr e ↦ simp (enqueue_fresh, e) refl
]

-- In a table whose queues are what the flags of its entries say, where events are returned but
-- one of those that were asked for is missing, the entry goes to the fresh queue, with what was
-- returned, and keeps its place in the dirty queue and all it asks for.
process_fd_partial :
    {t : FdTable} (i : ℕ)
    → IsTable t
    → any_bits ((t.fds i).ioft_post.revents) ≡ true
    → same_bits
        (and_bits ((t.fds i).ioft_pre.events) ((t.fds i).ioft_post.revents))
        ((t.fds i).ioft_pre.events)
      ≡ false
    → (member i (process_fd t i).fresh_fds ≡ true)
      × ((process_fd t i).dirty_fds ≡ t.dirty_fds)
      × (((process_fd t i).fds i).ioft_pre ≡ (t.fds i).ioft_pre)
      × (((process_fd t i).fds i).ioft_ret ≡ mark_polled ((t.fds i).ioft_post))
unfolding process_fd mark_polled
process_fd_partial {t} i v some_event missing =
    let post = mark_polled ((t.fds i).ioft_post) in
    let d = record (t.fds i) { ioft_post = post; ioft_ret = post } in
    let t1 = put_fd t i d in
    let t2 = enqueue_fresh t1 i in
    let v2 = enqueue_fresh-IsTable i (put_fd-IsTable i d refl refl v) in
    let entry : t2.fds i ≡ record d { fresh_qed = true } =
      enqueue_fresh_entry t1 i
      ∙ ap {A = Fd} (λ e. record e { fresh_qed = true }) (put_entry t i d) in
    let still =
      ap {A = Fd} (λ e. same_bits (and_bits e.ioft_pre.events e.ioft_ret.revents) e.ioft_pre.events)
        entry
      ∙ missing in
    let eq : process_fd t i ≡ t2 =
      ap (λ b. drop_returned (if b then t2 else t1) i) some_event
      ∙ drop_returned_partial t2 i still in
    let there : (process_fd t i).fds i ≡ record d { fresh_qed = true } =
      ap (λ u. u.fds i) eq ∙ entry in
    (
      ap (λ u. member i u.fresh_fds) eq ∙ v2.fresh.says i ∙ ap {A = Fd} (λ e. e.fresh_qed) entry,
      ap (λ u. u.dirty_fds) eq ∙ enqueue_fresh_dirty t1 i,
      ap {A = Fd} (λ e. e.ioft_pre) there,
      ap {A = Fd} (λ e. e.ioft_ret) there,
    )
