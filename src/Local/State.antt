-- ===== src/Local/State.antt =====
-- struct vk_proc_local with the objects of its heap. A coroutine or a socket is named by a number.
-- `errno` stands beside them, `calls` counts the system calls, and `faulted` tells that a NULL pointer
-- was followed, after which the state is as before.
use mnvkd.Base.{ℕ, Bool, true, false, if◌then◌else◌, ◌==◌, Option, some, none, List, []}
use mnvkd.Stack.{Words, Stack}
use mnvkd.Thread.{Thread}
use mnvkd.Socket.{Socket}

pub record Local : Type 0 where
  pub run : Bool
  pub blocked : Bool
  pub run_q : List ℕ
  pub blocked_q : List ℕ
  pub running_cr : Option ℕ
  pub supervisor_cr : Option ℕ
  pub siginfo : ℕ
  pub stack : Stack
  pub words : Words
  pub threads : ℕ → Thread
  pub sockets : ℕ → Socket
  pub errno : ℕ
  pub calls : ℕ
  pub faulted : Bool

-- Writes through the pointers to coroutine `i` and to socket `s`.
abbrev pub put_thread : Local → ℕ → Thread → Local
put_thread l i t = record l { threads = λ j. if j == i then t else l.threads j }

abbrev pub put_socket : Local → ℕ → Socket → Local
put_socket l s x = record l { sockets = λ j. if j == s then x else l.sockets j }

abbrev pub fault : Local → Local
fault l = record l { faulted = true }

-- What is done through a pointer that may be NULL.
abbrev pub through : Local → Option ℕ → (ℕ → Local) → Local
through l none f = fault l
through l (some i) f = f i

-- `vk_proc_local_init`
unfoldable pub local_init : Local → Local
local_init l = record l { run = false; blocked = false; run_q = []; blocked_q = [] }

-- `vk_proc_local_clear_signal`
unfoldable pub clear_signal : Local → Local
clear_signal l = record l { siginfo = 0 }
