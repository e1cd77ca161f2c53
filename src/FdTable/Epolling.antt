-- ===== src/FdTable/Epolling.antt =====
-- The epoll driver keeps the table's queues, and a registration that does not fail leaves nothing
-- dirty.
use mnvkd.Base.{
  ℕ, zero, suc, Bool, true, false, if◌then◌else◌, ltb, List, [], ◌∷◌, length, Option, some, none,
  Checked, ok, fail, ◌≡◌, refl, ◌⊎◌, arith, Option-cases, Bool-cases, inl, inr, ◌≤◌,
}
use mnvkd.FdTable.State.{FdTable, Fd, put_fd, get}
use mnvkd.FdTable.Queues.{dequeue_dirty, dequeue_dirty_from}
use mnvkd.FdTable.Epoll.{
  Ctl, EpollEvent, register, register_edge, register_level, register_dirty, register_dequeued,
  go_on, wait_events, returned, dispatch_event, dispatch_events, after_wait, after_register,
  open_epoll, epoll, ctl_add, ctl_mod, edge_event, level_event,
}
use mnvkd.FdTable.Tracking.{IsTable}
use mnvkd.FdTable.Preserve.{
  put_fd-IsTable, dequeue_dirty-IsTable, process_fd-IsTable, clean_fd-IsTable,
}

register-flags :
    (edge : Bool) (ctl : Ctl) (d : Fd)
    → ((register edge ctl d).0.dirty_qed ≡ d.dirty_qed)
      × ((register edge ctl d).0.fresh_qed ≡ d.fresh_qed)
unfolding register_edge register_level level_event edge_event
register-flags true ctl d = elim (Bool-cases d.closed) [
  | inl e ↦ rw e (refl, refl)
  | inr e ↦ elim (Bool-cases d.added) [
    | inl a ↦ rw (e, a) (refl, refl)
    | inr a ↦ elim (Option-cases (ctl ctl_add d.fd (edge_event d))) [
      | inl k ↦ rw (e, a, k) (refl, refl)
      | inr (err, k) ↦ rw (e, a, k) (refl, refl)
    ]
  ]
]
register-flags false ctl d = elim (Bool-cases d.closed) [
  | inl e ↦ rw e (refl, refl)
  | inr e ↦ elim (Option-cases (ctl (if d.added then ctl_mod else ctl_add) d.fd (level_event d))) [
    | inl k ↦ rw (e, k) (refl, refl)
    | inr (err, k) ↦ rw (e, k) (refl, refl)
  ]
]

-- The queues of the table that registering leaves, with nothing dirty or an errno.
abbrev pub Registered : FdTable × Option ℕ → Type 0
Registered out = IsTable out.0 × ((out.0.dirty_fds ≡ []) ⊎ ((e : ℕ) × (out.1 ≡ some e)))

module _ (fuel : ℕ) (next : FdTable → FdTable × Option ℕ)
    (ih : (u : FdTable) → length u.dirty_fds ≤ fuel → IsTable u → Registered (next u)) where
  go_on-Registered :
      (t : FdTable) (i : ℕ) (out : Fd × Option ℕ)
      → length t.dirty_fds ≤ fuel
      → IsTable (put_fd t i out.0)
      → Registered (go_on next t i out)
  go_on-Registered t i (d, none) h v = ih (put_fd t i d) h v
  go_on-Registered t i (d, some e) h v = (v, inr (e, refl))

  register_dequeued-Registered :
      (ctl : Ctl) (t : FdTable) (xs : List ℕ)
      → t.dirty_fds ≡ xs
      → length xs ≤ suc fuel
      → IsTable t
      → Registered (register_dequeued next ctl t (dequeue_dirty_from t xs))
  register_dequeued-Registered ctl t [] e h v = (v, inl e)
  register_dequeued-Registered ctl t (i ∷ rest) e h v =
      let t1 = record (put_fd t i (record (t.fds i) { dirty_qed = false })) { dirty_fds = rest } in
      let flags = register-flags t.edge_triggered ctl (t1.fds i) in
      let out = register t.edge_triggered ctl (t1.fds i) in
      go_on-Registered t1 i out (omega arith)
        (put_fd-IsTable i out.0 flags.0 flags.1 (dequeue_dirty-IsTable i rest e v))

-- The loop over the dirty queue, with fuel for every entry of it, keeps both queues of the table
-- what the flags say and, where no registration fails, leaves nothing dirty.
pub register_dirty_lem :
    (fuel : ℕ) (ctl : Ctl) (t : FdTable)
    → length t.dirty_fds ≤ fuel
    → IsTable t
    → Registered (register_dirty fuel ctl t)
unfolding register_dirty dequeue_dirty
register_dirty_lem zero ctl t h v = (v, inl (length_zero t.dirty_fds h))
  where
    length_zero : (xs : List ℕ) → length xs ≤ 0 → xs ≡ []
    length_zero [] h = refl
    length_zero (x ∷ xs) h = absurd (omega arith)
register_dirty_lem (suc fuel) ctl t h v =
    register_dequeued-Registered fuel (register_dirty fuel ctl) (register_dirty_lem fuel ctl) ctl t
      t.dirty_fds refl h v

dispatch_events-IsTable :
    (evs : List EpollEvent) (t : FdTable) → IsTable t → IsTable (dispatch_events t evs).0
unfolding dispatch_events dispatch_event get
dispatch_events-IsTable [] t v = v
dispatch_events-IsTable (ev ∷ evs) t v =
    let d = t.fds ev.fd in
    let post = record (d.ioft_post) { revents = returned ev } in
    let v1 = put_fd-IsTable ev.fd (record d { ioft_post = post }) refl refl v in
    let v2 = clean_fd-IsTable ev.fd (process_fd-IsTable ev.fd v1) in
    let rest = dispatch_events-IsTable evs (dispatch_event t ev.fd ev) v2 in
    elim (Bool-cases (ltb ev.fd t.size)) [
      | inl e ↦ rw (dispatch_events, get, e) rest
      | inr e ↦ rw (dispatch_events, get, e) v
    ]

same_queues :
    (t : FdTable) (fd : ℕ)
    → IsTable t
    → IsTable (record t { epoll_fd = fd; epoll_initialized = true })
same_queues t fd v = record { dirty = v.dirty; fresh = v.fresh }

after_wait-IsTable :
    (t : FdTable) (o : Option (Checked (List EpollEvent))) → IsTable t → IsTable (after_wait t o).0
unfolding after_wait
after_wait-IsTable t none v = v
after_wait-IsTable t (some (fail e)) v = v
after_wait-IsTable t (some (ok evs)) v =
    dispatch_events-IsTable evs (record t { epoll_event_count = length evs })
      (record { dirty = v.dirty; fresh = v.fresh })

after_register-IsTable :
    (waits : List (Checked (List EpollEvent))) (out : FdTable × Option ℕ)
    → IsTable out.0
    → IsTable (after_register waits out).0
after_register-IsTable waits (t, none) v = after_wait-IsTable t (wait_events waits) v
after_register-IsTable waits (t, some e) v = v

Checked-cases : {A : Type 0} (c : Checked A) → ((a : A) × (c ≡ ok a)) ⊎ ((e : ℕ) × (c ≡ fail e))
Checked-cases (ok a) = inl (a, refl)
Checked-cases (fail e) = inr (e, refl)

-- On a table whose queues are what the flags of its entries say, a call of the epoll driver
-- keeps that, whatever the results of epoll_create1, of every epoll_ctl and of every epoll_wait
-- are.
pub epoll-IsTable :
    (create : Checked ℕ) (ctl : Ctl) (waits : List (Checked (List EpollEvent))) (t : FdTable)
    → IsTable t
    → IsTable (epoll create ctl waits t).0
unfolding epoll open_epoll
epoll-IsTable create ctl waits t v = elim (Bool-cases t.epoll_initialized) [
  | inl e ↦ simp (epoll, open_epoll, e) (drive t v)
  | inr e ↦ elim (Checked-cases create) [
    | inl (fd, k) ↦
        simp (epoll, open_epoll, e, k)
          (drive (record t { epoll_fd = fd; epoll_initialized = true }) (same_queues t fd v))
    | inr (err, k) ↦ simp (epoll, open_epoll, e, k) v
  ]
]
  where
    drive :
        (u : FdTable)
        → IsTable u
        → IsTable (after_register waits (register_dirty (length u.dirty_fds) ctl u)).0
    drive u w =
        after_register-IsTable waits (register_dirty (length u.dirty_fds) ctl u)
          (register_dirty_lem (length u.dirty_fds) ctl u (omega arith) w).0
