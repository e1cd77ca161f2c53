-- ===== src/Vectoring/Contents/Spans.antt =====
-- The bytes of a ring from a cursor on, going round at the end of the buffer, and the two vectors
-- of `vk_iovec_sync` that name them.
use native.Mathlib.Nat.{mod-eq_of_lt, mod-eq-sub-mod}
use native.Mathlib.Decide.{dec_lt}
use mnvkd.Base.{
  ℕ, ◌+◌, ◌-◌, ◌%◌, ◌^◌, ◌<◌, ◌≤◌, ◌≡◌, refl, sym, ◌∙◌, ap, ap₂, min, List, [], ◌∷◌, ◌++◌, arith,
  ltb, if◌then◌else◌, length, take, drop, take-add, length-take, length-drop, subst,
}
use mnvkd.Memory.{
  Mem, tabulate, load, store, tabulate-add, length-tabulate, tabulate_ext, store_outside,
  load-store,
}
use mnvkd.Vectoring.State.{at, literal, Vectors, Vectoring, iovec_sync, tx_pos}
use mnvkd.Vectoring.Transfer.{request, gather, scatter, copy_out, copy_in}

-- The byte `p` places behind the cursor `c` of a buffer of `cap` bytes.
abbrev pub around : Mem → ℕ → ℕ → ℕ → ℕ
around m cap c p = m ((c + p) % cap)

-- The bytes that the ring holds, oldest first, each found by `vk_vectoring_tx_pos`.
unfoldable pub contents : Vectoring → List ℕ
contents r = tabulate (tx_pos r) 0 r.tx_len

pub mod_once : (x cap : ℕ) → x < cap + cap → x % cap ≡ (if ltb x cap then x else x - cap)
mod_once x cap h = ground (
  arith,
  λ (p : x < cap). mod-eq_of_lt p,
  λ (p : cap ≤ x). mod-eq-sub-mod {n = x} {m = cap} p,
  λ (p : x - cap < cap). mod-eq_of_lt p,
)

-- a span that ends before the end of the buffer, and one that goes round it
abbrev flat : ℕ → ℕ → Vectors
flat c n = record {
  first = record { iov_base = at c; iov_len = n };
  second = record { iov_base = literal; iov_len = 0 };
}

abbrev wrapped : ℕ → ℕ → ℕ → Vectors
wrapped cap c n = record {
  first = record { iov_base = at c; iov_len = cap - c };
  second = record { iov_base = at 0; iov_len = c + n - cap };
}

module _ (cap c n : ℕ) (in_cap : c < cap) (fits : n ≤ cap) (small : cap < 2 ^ 63) where
  iovec_sync-flat : c + n ≤ cap → iovec_sync cap c n ≡ flat c n
  unfolding iovec_sync
  iovec_sync-flat h = ground arith

  iovec_sync-wrapped : cap < c + n → iovec_sync cap c n ≡ wrapped cap c n
  unfolding iovec_sync
  iovec_sync-wrapped h = ground arith

  -- A request takes from the first vector what it can and the rest from the second.
  pub request_lem :
      (k : ℕ)
      → request (iovec_sync cap c n) k
        ≡ (min (min k n) (cap - c), min k n - min (min k n) (cap - c))
  unfolding request iovec_sync
  request_lem k = ground arith

-- The vectors of a whole span: a request of all its bytes takes both.
pub sync_parts :
    (cap c n : ℕ)
    → c < cap
    → n ≤ cap
    → cap < 2 ^ 63
    → let vs = iovec_sync cap c n in
      (request vs n ≡ (vs.first.iov_len, vs.second.iov_len))
      × (vs.first.iov_base ≡ at c)
      × (vs.first.iov_len ≤ n)
      × (vs.second.iov_len ≤ n)
unfolding request iovec_sync
sync_parts cap c n h k small = (ground arith, ground arith, ground arith, ground arith)

-- The bytes before the end of the buffer.
around-flat : (m : Mem) (cap c l : ℕ) → c + l ≤ cap → tabulate (around m cap c) 0 l ≡ load m c l
around-flat m cap c l h =
    tabulate_ext (around m cap c) m 0 c l λ j p. ap m (ground (arith, mod_once (c + (0 + j)) cap))

-- the bytes around the buffer, in the two parts in which a request takes them
around-split :
    (m : Mem) (cap c l : ℕ)
    → c < cap
    → l ≤ cap
    → tabulate (around m cap c) 0 l ≡ load m c (min l (cap - c)) ++ load m 0 (l - min l (cap - c))
around-split m cap c l h k =
    let first : ℕ = min l (cap - c) in
    let e : l ≡ first + (l - first) = omega arith in
    subst (λ n. tabulate (around m cap c) 0 n ≡ load m c first ++ load m 0 (l - first)) (sym e)
      (tabulate-add (around m cap c) 0 first (l - first)
        ∙ ap₂ ◌++◌ (around-flat m cap c first (omega arith)) rest)
  where
    rest :
        tabulate (around m cap c) (0 + min l (cap - c)) (l - min l (cap - c))
        ≡ load m 0 (l - min l (cap - c))
    rest =
        tabulate_ext (around m cap c) m (0 + min l (cap - c)) 0 (l - min l (cap - c))
          λ j p. ap m (ground (arith, mod_once (c + (0 + min l (cap - c) + j)) cap))

-- The two parts of `bytes` that a request of `a + b` bytes copies.
parts_length :
    (bytes : List ℕ) (a b : ℕ)
    → a + b ≤ length bytes
    → (length (take a bytes) ≡ a) × (length (take b (drop a bytes)) ≡ b)
parts_length bytes a b h = (
  length-take a bytes (omega arith),
  length-take b (drop a bytes) (omega (arith, length-drop a bytes)),
)

empty_eq : (xs ys : List ℕ) → length xs ≡ 0 → length ys ≡ 0 → xs ≡ ys
empty_eq [] [] e f = refl
empty_eq [] (y ∷ ys) e f = absurd (omega arith)
empty_eq (x ∷ xs) ys e f = absurd (omega arith)

load-store_of :
    (m : Mem) (off n : ℕ) (xs : List ℕ) → length xs ≡ n → load (store m off xs) off n ≡ xs
load-store_of m off n xs e = subst (λ k. load (store m off xs) off k ≡ xs) e (load-store m off xs)

-- A second store in front of the first leaves it readable.
load-two_stores :
    (m : Mem) (c n : ℕ) (xs ys : List ℕ)
    → length xs ≡ n
    → length ys ≤ c
    → load (store (store m c xs) 0 ys) c n ≡ xs
load-two_stores m c n xs ys e h =
    tabulate_ext (store (store m c xs) 0 ys) (store m c xs) c c n
      (λ j p. store_outside (store m c xs) 0 (c + j) ys (omega arith))
    ∙ load-store_of m c n xs e

module _ (m : Mem) (cap c n : ℕ) (in_cap : c < cap) (fits : n ≤ cap) (small : cap < 2 ^ 63) where
  -- What a request gathers through the vectors are the first bytes of the span.
  pub gather_lem :
      (k : ℕ)
      → gather m (iovec_sync cap c n) (request (iovec_sync cap c n) k)
        ≡ tabulate (around m cap c) 0 (min k n)
  unfolding gather copy_out tabulate
  gather_lem k =
      rw
        (
          request_lem cap c n in_cap fits small k,
          around-split m cap c (min k n) in_cap (omega arith),
        )
        (elim (dec_lt cap (c + n)) [
          | yes h ↦ rw (iovec_sync-wrapped cap c n in_cap fits small h)
          | no h ↦
              rw (iovec_sync-flat cap c n in_cap fits small (omega arith))
                (ap (λ zs. load m c (min (min k n) (cap - c)) ++ zs) (nothing (omega arith)))
        ])
    where
      nothing : {z : ℕ} → z ≡ 0 → [] ≡ load m 0 z
      nothing e = rw e

  -- Where the bytes of a request do not reach, a scatter changes nothing.
  pub scatter_outside :
      (bytes : List ℕ) (p : ℕ)
      → p < cap
      → min (length bytes) n ≤ p
      → scatter m
          (iovec_sync cap c n)
          (request (iovec_sync cap c n) (length bytes))
          bytes
          ((c + p) % cap)
        ≡ m ((c + p) % cap)
  unfolding scatter copy_in
  scatter_outside bytes p in_p out =
      let k = min (length bytes) n in
      let l = min k (cap - c) in
      let sizes = parts_length bytes l (k - l) (omega arith) in
      let i = (c + p) % cap in
      let place = mod_once (c + p) cap (omega arith) in
      let first : store m c (take l bytes) i ≡ m i =
        store_outside m c i (take l bytes) (ground (arith, sizes, place)) in
      rw (request_lem cap c n in_cap fits small (length bytes)) (elim (dec_lt cap (c + n)) [
        | yes h ↦ rw (iovec_sync-wrapped cap c n in_cap fits small h) (
            store_outside (store m c (take l bytes)) 0 i (take (k - l) (drop l bytes))
              (ground (arith, sizes, place))
            ∙ first)
        | no h ↦ rw (iovec_sync-flat cap c n in_cap fits small (omega arith)) first
      ])

  -- What a scatter copies is what the span then starts with.
  pub scatter_lem :
      (bytes : List ℕ)
      → tabulate
          (around
            (scatter m (iovec_sync cap c n) (request (iovec_sync cap c n) (length bytes)) bytes)
            cap
            c)
          0
          (min (length bytes) n)
        ≡ take (min (length bytes) n) bytes
  unfolding scatter copy_in
  scatter_lem bytes =
      let k = min (length bytes) n in
      let l = min k (cap - c) in
      let front = take l bytes in
      let back = take (k - l) (drop l bytes) in
      let sizes = parts_length bytes l (k - l) (omega arith) in
      let whole : front ++ back ≡ take k bytes =
        sym (take-add l (k - l) bytes) ∙ ap (λ z. take z bytes) (omega arith) in
      rw
        (
          around-split
              (scatter m (iovec_sync cap c n) (request (iovec_sync cap c n) (length bytes)) bytes)
              cap c k in_cap (omega arith),
          request_lem cap c n in_cap fits small (length bytes),
        )
        (elim (dec_lt cap (c + n)) [
          | yes h ↦ rw (iovec_sync-wrapped cap c n in_cap fits small h) (
              ap₂ ◌++◌ (load-two_stores m c l front back sizes.0 (omega (arith, sizes)))
                (load-store_of (store m c front) 0 (k - l) back sizes.1)
              ∙ whole)
          | no h ↦ rw (iovec_sync-flat cap c n in_cap fits small (omega arith)) (
              ap₂ ◌++◌ (load-store_of m c l front sizes.0) (
                empty_eq (load (store m c front) 0 (k - l)) back
                  (length-tabulate (store m c front) 0 (k - l) ∙ omega arith)
                  (sizes.1 ∙ omega arith))
              ∙ whole)
        ])
