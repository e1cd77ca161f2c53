-- ===== src/Redis.antt =====
-- vk_redis.c and vk_redis.h: a server of the Redis protocol and its client, as what each coroutine
-- does with the bytes that come in. A blocking call ends with the bytes it wants or at end of file.
pub mod Request
pub mod Client
pub mod Framing
pub mod Overrun
pub mod Response
pub mod Replies
pub mod Serving
pub mod Pipeline
use Prim.Native.Nat.{Ordering}
use mnvkd.Base.{ℕ, ◌+◌, Bool, true, false, ◌==◌, if◌then◌else◌, List, [], ◌∷◌, strcasecmp}
use mnvkd.Rfc.{c_string}

abbrev pub max_args : ℕ
max_args = 8

abbrev pub max_bulk : ℕ
max_bulk = 64

-- `struct redis_query`. An argument is the bytes up to the NUL that is put behind them.
pub record Query : Type 0 where
  pub argc : ℕ
  pub close : Bool
  pub shutdown : Bool
  pub argv : ℕ → List ℕ

-- `memset` to 0
abbrev pub no_query : Query
no_query = record { argc = 0; close = false; shutdown = false; argv = λ i. [] }

abbrev pub set_arg : (ℕ → List ℕ) → ℕ → List ℕ → ℕ → List ℕ
set_arg argv i bytes k = if k == i then bytes else argv k

abbrev pub is_eq : Ordering → Bool
is_eq Ordering.lt = false
is_eq Ordering.eq = true
is_eq Ordering.gt = false

-- `strcasecmp(arg, word) == 0`
abbrev pub is_word : List ℕ → List ℕ → Bool
is_word arg word = is_eq (strcasecmp (c_string arg) word)
