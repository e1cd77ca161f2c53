-- ===== src/Thread.antt =====
-- vk_thread.c, vk_thread.h and vk_thread_s.h: a coroutine and its states. A coroutine, a socket and
-- a future are named by numbers, as the code names them by pointers. Queueing is in Local.
use mnvkd.Base.{
  ℕ, ℤ, Bool, true, false, ◌||◌, if◌then◌else◌, Option, some, none, List, [], ◌∷◌, ◌++◌, Checked,
  ok, fail, ltb, sub_size, enomem,
}

-- `enum VK_PROC_STAT`
pub data Status : Type 0 where
  proc_run : Status
  proc_yield : Status
  proc_listen : Status
  proc_wait : Status
  proc_err : Status
  proc_end : Status

pub record Thread : Type 0 where
  pub func : ℕ
  pub line : ℕ
  pub counter : ℤ
  pub status : Status
  pub error : ℕ
  pub error_counter : ℤ
  pub error_line : ℕ
  pub self : ℕ
  pub socket : ℕ
  pub waiting_socket : Option ℕ
  pub ft_q : List ℕ
  pub run_enq : Bool

abbrev pub is_run : Status → Bool
is_run proc_run = true
is_run proc_yield = false
is_run proc_listen = false
is_run proc_wait = false
is_run proc_err = false
is_run proc_end = false

abbrev pub is_err : Status → Bool
is_err proc_run = false
is_err proc_yield = false
is_err proc_listen = false
is_err proc_wait = false
is_err proc_err = true
is_err proc_end = false

abbrev pub is_end : Status → Bool
is_end proc_run = false
is_end proc_yield = false
is_end proc_listen = false
is_end proc_wait = false
is_end proc_err = false
is_end proc_end = true

abbrev pub is_yield : Status → Bool
is_yield proc_run = false
is_yield proc_yield = true
is_yield proc_listen = false
is_yield proc_wait = false
is_yield proc_err = false
is_yield proc_end = false

unfoldable pub is_completed : Thread → Bool
is_completed t = is_end t.status

unfoldable pub is_ready : Thread → Bool
is_ready t = is_run t.status || is_err t.status

unfoldable pub is_yielding : Thread → Bool
is_yielding t = is_yield t.status

unfoldable pub ready : Thread → Thread
ready t =
    if is_end t.status then t else (if is_err t.status then t else record t { status = proc_run })

-- The part of `vk_raise_at` before the coroutine is queued; the line and the counter are those of
-- the macro's place in the source.
unfoldable pub set_raised : Thread → ℕ → ℕ → ℤ → Thread
set_raised t e line counter = record t { error = e; error_line = line; error_counter = counter }

unfoldable pub lower_error_ctx : Thread → Thread
lower_error_ctx t = record t { error = 0; counter = t.error_counter; line = t.error_line }

unfoldable pub ft_enqueue : Thread → ℕ → Thread
ft_enqueue t ft = record t { ft_q = t.ft_q ++ (ft ∷ []) }

abbrev pub ft_first : List ℕ → Option ℕ
ft_first [] = none
ft_first (ft ∷ _) = some ft

abbrev pub ft_rest : List ℕ → List ℕ
ft_rest [] = []
ft_rest (_ ∷ rest) = rest

unfoldable pub ft_dequeue : Thread → Option ℕ × Thread
ft_dequeue t = (ft_first t.ft_q, record t { ft_q = ft_rest t.ft_q })

unfoldable pub ft_peek : Thread → Option ℕ
ft_peek t = ft_first t.ft_q

-- `vk_copy_arg` of `n` bytes: whether they fit between `self` and the end of the stack.
unfoldable pub copy_arg : Thread → ℕ → ℕ → Checked (Unit {0})
copy_arg t stop n = if ltb (sub_size stop t.self) n then fail enomem else ok tt
