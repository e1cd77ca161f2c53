-- ===== src/Local/Blocking.antt =====
-- What blocking a socket registers: the events that the poller is asked for, and the socket's place on
-- the queue of the blocked ones.
use mnvkd.Base.{
  if_true, ℕ, Bool, true, false, not, ◌&&◌, ◌||◌, ◌==◌, if◌then◌else◌, Option, some, none, member,
  ◌≡◌, refl, sym, ◌∙◌, ap, arith, is_negative,
}
use mnvkd.Vectoring.State.{Vectoring}
use mnvkd.Socket.{
  Socket, Block, Pipe, pipe_get_fd, in_event, out_event, forward_closed, set_read_block,
  set_write_block,
}
use mnvkd.Local.State.{Local, put_socket, through}
use mnvkd.Local.Queues.{enqueue_blocked, insert_blocked}
use mnvkd.Local.Waking.{enqueue_socket, block_read, block_write, handle_block}
use mnvkd.Local.Tracking.{IsLocal}
use mnvkd.Local.Preserve.{handle_block-IsLocal}
use mnvkd.Local.Registration.{self_eq}

-- Whether the reads, and the writes, of a socket wait for the poller.
abbrev pub waits_read : Socket → Bool
waits_read x = not (is_negative (pipe_get_fd x.rx_fd)) && x.rx.rx_blocked

abbrev pub waits_write : Socket → Bool
waits_write x = not (is_negative (pipe_get_fd x.tx_fd)) && x.tx.tx_blocked

-- What of a socket its place on the queue does not change.
abbrev view : Socket → Block × Pipe × Pipe × Vectoring × Vectoring
view x = (x.block, x.rx_fd, x.tx_fd, x.rx, x.tx)

module _ {A : Type 0} (f : Local → A) where
  either_way : (k l : Local) (b : Bool) (a : A) → f k ≡ a → f l ≡ a → f (if b then k else l) ≡ a
  either_way k l true a p q = p
  either_way k l false a p q = q

  through_way :
      (o : Option ℕ) (k l : Local) (a : A)
      → f k ≡ a
      → f (record l { faulted = true }) ≡ a
      → f (through l o (λ _. k)) ≡ a
  through_way none k l a p q = q
  through_way (some i) k l a p q = p

view-put_socket : (l : Local) (s : ℕ) (x : Socket) → ((put_socket l s x).sockets s) ≡ x
view-put_socket l s x = if_true (s == s) x (l.sockets s) (self_eq s)

view-enqueue_blocked :
    (l : Local) (s : ℕ) → view ((enqueue_blocked l s).sockets s) ≡ view (l.sockets s)
unfolding enqueue_blocked
view-enqueue_blocked l s =
    either_way (λ k. view (k.sockets s)) (insert_blocked l s) l (not (l.sockets s).blocked_enq)
      (view (l.sockets s))
      (ap view (view-put_socket l s (record (l.sockets s) { blocked_enq = true }))) refl

view-enqueue_socket :
    (l : Local) (s : ℕ) → view ((enqueue_socket l s).sockets s) ≡ view (l.sockets s)
unfolding enqueue_socket
view-enqueue_socket l s =
    through_way (λ k. view (k.sockets s)) ((l.sockets s).block.blocked_vk) (enqueue_blocked l s) l
      (view (l.sockets s)) (view-enqueue_blocked l s) refl

view-block_read :
    (l : Local) (s : ℕ)
    → view ((block_read l s).sockets s)
      ≡ view (set_read_block (l.sockets s) (waits_read (l.sockets s)))
unfolding block_read
view-block_read l s =
    let x = set_read_block (l.sockets s) (waits_read (l.sockets s)) in
    let l1 = put_socket l s x in
    let put = ap view (view-put_socket l s x) in
    either_way (λ k. view (k.sockets s)) (enqueue_socket l1 s) l1 (waits_read (l.sockets s))
      (view x) (view-enqueue_socket l1 s ∙ put) put

view-block_write :
    (l : Local) (s : ℕ)
    → view ((block_write l s).sockets s)
      ≡ view (set_write_block (l.sockets s) (waits_write (l.sockets s)))
unfolding block_write
view-block_write l s =
    let x = set_write_block (l.sockets s) (waits_write (l.sockets s)) in
    let l1 = put_socket l s x in
    let put = ap view (view-put_socket l s x) in
    either_way (λ k. view (k.sockets s)) (enqueue_socket l1 s) l1 (waits_write (l.sockets s))
      (view x) (view-enqueue_socket l1 s ∙ put) put

-- The flag of the socket after an attempt to queue it.
flag_after :
    (l k : Local) (s : ℕ) (f : Bool) (b : Bool)
    → (l.sockets s).blocked_enq ≡ f
    → (k.sockets s).blocked_enq ≡ true
    → ((if b then k else l).sockets s).blocked_enq ≡ (f || b)
flag_after l k s f true p q = q ∙ ground arith
flag_after l k s f false p q = p ∙ ground arith

enqueue_blocked_flag : (l : Local) (s : ℕ) → ((enqueue_blocked l s).sockets s).blocked_enq ≡ true
unfolding enqueue_blocked
enqueue_blocked_flag l s =
    flag_after l (insert_blocked l s) s (l.sockets s).blocked_enq (not (l.sockets s).blocked_enq)
      refl
      (ap (λ x. x.blocked_enq) (view-put_socket l s (record (l.sockets s) { blocked_enq = true })))
    ∙ ground arith

through-some : (l k : Local) (i : ℕ) (o : Option ℕ) → o ≡ some i → through l o (λ _. k) ≡ k
through-some l k i o e = ap (λ p. through l p (λ _. k)) e

enqueue_socket_flag :
    (l : Local) (s i : ℕ)
    → (l.sockets s).block.blocked_vk ≡ some i
    → ((enqueue_socket l s).sockets s).blocked_enq ≡ true
unfolding enqueue_socket
enqueue_socket_flag l s i h =
    ap (λ k. (k.sockets s).blocked_enq)
      (through-some l (enqueue_blocked l s) i ((l.sockets s).block.blocked_vk) h)
    ∙ enqueue_blocked_flag l s

block_read_flag :
    (l : Local) (s i : ℕ)
    → (l.sockets s).block.blocked_vk ≡ some i
    → ((block_read l s).sockets s).blocked_enq
      ≡ ((l.sockets s).blocked_enq || waits_read (l.sockets s))
unfolding block_read set_read_block
block_read_flag l s i h =
    let x = set_read_block (l.sockets s) (waits_read (l.sockets s)) in
    let l1 = put_socket l s x in
    flag_after l1 (enqueue_socket l1 s) s (l.sockets s).blocked_enq (waits_read (l.sockets s))
      (ap (λ y. y.blocked_enq) (view-put_socket l s x))
      (enqueue_socket_flag l1 s i (ap (λ y. y.block.blocked_vk) (view-put_socket l s x) ∙ h))

block_write_flag :
    (l : Local) (s i : ℕ)
    → (l.sockets s).block.blocked_vk ≡ some i
    → ((block_write l s).sockets s).blocked_enq
      ≡ ((l.sockets s).blocked_enq || waits_write (l.sockets s))
unfolding block_write set_write_block
block_write_flag l s i h =
    let x = set_write_block (l.sockets s) (waits_write (l.sockets s)) in
    let l1 = put_socket l s x in
    flag_after l1 (enqueue_socket l1 s) s (l.sockets s).blocked_enq (waits_write (l.sockets s))
      (ap (λ y. y.blocked_enq) (view-put_socket l s x))
      (enqueue_socket_flag l1 s i (ap (λ y. y.block.blocked_vk) (view-put_socket l s x) ∙ h))

or_assoc : (a b c : Bool) → ((a || b) || c) ≡ (a || (b || c))
or_assoc a b c = ground arith

-- The queue and the events, with the socket's link to its coroutine.
handle_block_flag :
    (l : Local) (s i : ℕ)
    → (l.sockets s).block.blocked_vk ≡ some i
    → ((handle_block l s).sockets s).blocked_enq
      ≡ ((l.sockets s).blocked_enq || (waits_read (l.sockets s) || waits_write (l.sockets s)))
unfolding handle_block forward_closed set_read_block pipe_get_fd
handle_block_flag l s i h =
    let x = forward_closed (l.sockets s) in
    let l1 = put_socket l s x in
    let l2 = block_read l1 s in
    let seen : view (l2.sockets s) ≡ view (set_read_block x (waits_read x)) =
      view-block_read l1 s
      ∙ ap (λ y. view (set_read_block y (waits_read y))) (view-put_socket l s x) in
    block_write_flag l2 s i (ap (λ w. (w.0).blocked_vk) seen ∙ h)
    ∙ (ap
          (λ w.
            (l2.sockets s).blocked_enq || (not (is_negative (pipe_get_fd w.2)) && (w.4).tx_blocked))
          seen
        ∙ (ap (λ b. b || waits_write x)
              (block_read_flag l1 s i (ap (λ y. y.block.blocked_vk) (view-put_socket l s x) ∙ h)
                ∙ ap (λ y. y.blocked_enq || waits_read y) (view-put_socket l s x))
            ∙ or_assoc (l.sockets s).blocked_enq (waits_read x) (waits_write x)))

view-handle_block :
    (l : Local) (s : ℕ)
    → view ((handle_block l s).sockets s)
      ≡ view (
          set_write_block
            (set_read_block (forward_closed (l.sockets s)) (waits_read (l.sockets s)))
            (waits_write (l.sockets s)))
unfolding handle_block forward_closed set_read_block pipe_get_fd set_write_block
view-handle_block l s =
    let x = forward_closed (l.sockets s) in
    let l1 = put_socket l s x in
    let l2 = block_read l1 s in
    let seen : view (l2.sockets s) ≡ view (set_read_block x (waits_read x)) =
      view-block_read l1 s
      ∙ ap (λ y. view (set_read_block y (waits_read y))) (view-put_socket l s x) in
    view-block_write l2 s
    ∙ ap
        (λ w. (
          record (w.0) {
            ioft_tx_pre = record ((w.0).ioft_tx_pre) {
              events = out_event (not (is_negative (pipe_get_fd w.2)) && (w.4).tx_blocked);
            };
          },
          w.1,
          w.2,
          w.3,
          w.4,
        ))
        seen

-- Handling the block of a socket that belongs to a coroutine asks the poller for exactly the
-- directions whose ring is blocked on a descriptor, and puts the socket on the queue of the blocked
-- ones where there is such a direction: elsewhere it stays on the queue or off it as it was.
pub handle_block-registers :
    (l : Local) (s i : ℕ)
    → IsLocal l
    → (l.sockets s).block.blocked_vk ≡ some i
    → (((handle_block l s).sockets s).block.ioft_rx_pre.events
        ≡ in_event (waits_read (l.sockets s)))
      × (((handle_block l s).sockets s).block.ioft_tx_pre.events
          ≡ out_event (waits_write (l.sockets s)))
      × (member s (handle_block l s).blocked_q
          ≡ (member s l.blocked_q || (waits_read (l.sockets s) || waits_write (l.sockets s))))
unfolding set_read_block set_write_block
handle_block-registers l s i v h = (
  ap (λ w. (w.0).ioft_rx_pre.events) (view-handle_block l s),
  ap (λ w. (w.0).ioft_tx_pre.events) (view-handle_block l s),
  (handle_block-IsLocal s v).blocks.says s
      ∙ (handle_block_flag l s i h
          ∙ ap (λ b. b || (waits_read (l.sockets s) || waits_write (l.sockets s)))
              (sym (v.blocks.says s))),
)
