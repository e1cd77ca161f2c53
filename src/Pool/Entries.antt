-- ===== src/Pool/Entries.antt =====
-- The loop of the initialisation and the free list that it leaves.
use mnvkd.Base.{
  ℕ, zero, suc, ◌+◌, Bool, true, false, some, is_minus_one, List, [], ◌∷◌, ◌++◌, ◌≡◌, refl, sym,
  ◌∙◌, ap, arith,
}
use mnvkd.Heap.{heap_buf, to_int}
use mnvkd.Pool.{Pool, free_entry, Calls, entry_heap, init_entry, init_entries}

-- The numbers from `i` on, `n` of them.
abbrev pub range : ℕ → ℕ → List ℕ
range i zero = []
range i (suc n) = i ∷ range (suc i) n

range-suc : (i n : ℕ) (ys : List ℕ) → range i (suc n) ++ ys ≡ range i n ++ ((i + n) ∷ ys)
range-suc i zero ys = let e : i ≡ i + zero = omega arith in ap (λ x. x ∷ ys) e
range-suc i (suc n) ys =
    let e : suc i + n ≡ i + suc n = omega arith in
    ap (λ zs. i ∷ zs) (range-suc (suc i) n ys ∙ ap (λ x. range (suc i) n ++ x ∷ ys) e)

-- The calls that initialise a pool over a buffer succeed.
pub record Succeeds (calls : Calls) (alignedlen : ℕ) : Type 0 where
  pub inits : (i : ℕ) → calls.init_func i ≡ true
  pub frees : (i : ℕ) → calls.free_func i ≡ true
  pub length_fits : is_minus_one (to_int alignedlen) ≡ false

module _ (calls : Calls) (offset alignedlen : ℕ) (entered : Bool)
    (good : Succeeds calls alignedlen) where
  init_entry_lem :
      (p : Pool) (b i : ℕ)
      → p.buf ≡ some b
      → let (p1, going) = init_entry calls offset alignedlen entered p i in
        (going ≡ true) × (p1.buf ≡ some b) × (p1.free_entries ≡ i ∷ p.free_entries)
  unfolding init_entry heap_buf free_entry
  init_entry_lem p b i e =
      let rc : is_minus_one (entry_heap calls p p.buf offset alignedlen entered i).1 ≡ false =
        ap (λ o. is_minus_one (entry_heap calls p o offset alignedlen entered i).1) e
        ∙ good.length_fits in
      rw (rc, good.frees i, good.inits i) (refl, e, refl)

  -- Over a buffer, where no callback fails, the loop of the initialisation succeeds, and puts the
  -- entries on the free list from the first to the last.
  pub init_entries_lem :
      (n : ℕ) (p : Pool) (b : ℕ)
      → p.buf ≡ some b
      → let (p1, going) = init_entries calls offset alignedlen entered p n in
        (going ≡ true) × (p1.free_entries ≡ range 0 n ++ p.free_entries)
  unfolding init_entries
  init_entries_lem zero p b e = (refl, refl)
  init_entries_lem (suc n) p b e =
      let (going, buf, free) = init_entry_lem p b n e in
      let p1 = (init_entry calls offset alignedlen entered p n).0 in
      let (rest_going, rest_free) = init_entries_lem n p1 b buf in
      let last : n ≡ 0 + n = omega arith in
      rw going (
        rest_going,
        rest_free
            ∙ ap (λ zs. range 0 n ++ zs) free
            ∙ ap (λ x. range 0 n ++ (x ∷ p.free_entries)) last
            ∙ sym (range-suc 0 n p.free_entries),
      )
