-- ===== src/Enum/Search.antt =====
-- vk_enum.h: the binary search of `string_to_` against a look through the rows one by one.
use Prim.Native.Nat.{Ordering}
use native.Mathlib.Decide.{dec_lt}
use mnvkd.Base.{
  ℕ, zero, suc, ◌+◌, ◌-◌, ◌/◌, ◌≤◌, ◌<◌, Bool, true, false, ◌&&◌, ltb, if_true, if_false,
  Bool-cases, Option, some, none, List, [], ◌∷◌, length, get_elem?, strcasecmp, ◌≡◌, refl, sym, ap,
  ◌∙◌, arith, Option-cases, inl, inr,
}
use mnvkd.Enum.{probe, find_row, or_size, string_to}
use mnvkd.Enum.Order.{opposite, strcasecmp-opposite, strcasecmp_same}

abbrev is_lt : Ordering → Bool
is_lt Ordering.lt = true
is_lt _ = false

module _ {A : Type 0} where
  -- Every row comes after a text.
  abbrev all_after : List ℕ → List (A × List ℕ) → Bool
  all_after s [] = true
  all_after s ((a, t) ∷ rows) = is_lt (strcasecmp s t) && all_after s rows

  abbrev pub is_sorted : List (A × List ℕ) → Bool
  is_sorted [] = true
  is_sorted ((a, s) ∷ rows) = all_after s rows && is_sorted rows

  abbrev pick : Ordering → A → Option A → Option A
  pick Ordering.eq a rest = some a
  pick Ordering.lt a rest = rest
  pick Ordering.gt a rest = rest

  -- The first row with a text, but for case.
  abbrev pub lookup_row : List (A × List ℕ) → List ℕ → Option A
  lookup_row [] key = none
  lookup_row ((a, s) ∷ rows) key = let rest = lookup_row rows key in pick (strcasecmp key s) a rest

  get_after :
      (s t : List ℕ) (a : A) (rows : List (A × List ℕ)) (i : ℕ)
      → all_after s rows ≡ true
      → get_elem? rows i ≡ some (a, t)
      → strcasecmp s t ≡ Ordering.lt
  get_after s t a [] i h g = cc g
  get_after s t a ((b, u) ∷ rows) zero h g = ground arith
  get_after s t a ((b, u) ∷ rows) (suc i) h g = get_after s t a rows i (ground arith) g

  sorted_lt :
      (s t : List ℕ) (a b : A) (rows : List (A × List ℕ)) (i j : ℕ)
      → is_sorted rows ≡ true
      → i < j
      → get_elem? rows i ≡ some (a, s)
      → get_elem? rows j ≡ some (b, t)
      → strcasecmp s t ≡ Ordering.lt
  sorted_lt s t a b [] i j h lt g g' = cc g
  sorted_lt s t a b ((c, u) ∷ rows) zero zero h lt g g' = absurd (omega arith)
  sorted_lt s t a b ((c, u) ∷ rows) zero (suc j) h lt g g' =
      let same : u ≡ s = cc g in get_after s t b rows j (rw (← same) (ground arith)) g'
  sorted_lt s t a b ((c, u) ∷ rows) (suc i) zero h lt g g' = absurd (omega arith)
  sorted_lt s t a b ((c, u) ∷ rows) (suc i) (suc j) h lt g g' =
      sorted_lt s t a b rows i j (ground arith) (omega arith) g g'

  get_inside :
      (rows : List (A × List ℕ)) (i : ℕ)
      → i < length rows
      → (a : A) × (s : List ℕ) × (get_elem? rows i ≡ some (a, s))
  get_inside [] i h = absurd (omega arith)
  get_inside ((a, s) ∷ rows) zero h = (a, s, refl)
  get_inside (r ∷ rows) (suc i) h = get_inside rows i (omega arith)

  find_row_step :
      (fuel : ℕ) (rows : List (A × List ℕ)) (key : List ℕ) (low top : ℕ)
      → low < top
      → let mid = low + (top - 1 - low) / 2 in
        find_row (suc fuel) rows key low top
        ≡ probe
            (get_elem? rows mid)
            key
            (find_row fuel rows key low mid)
            (find_row fuel rows key (mid + 1) top)
  unfolding find_row
  find_row_step fuel rows key low top h = if_true (ltb low top) _ _ (ground arith)

  -- What the row in the middle decides.
  module _ (key : List ℕ) (b : A) (t : List ℕ) (below above : Option A) where
    probe_lt : strcasecmp key t ≡ Ordering.lt → probe (some (b, t)) key below above ≡ below
    probe_lt h = rw (h, probe) refl

    probe_gt : strcasecmp key t ≡ Ordering.gt → probe (some (b, t)) key below above ≡ above
    probe_gt h = rw (h, probe) refl

    probe_eq : strcasecmp key t ≡ Ordering.eq → probe (some (b, t)) key below above ≡ some b
    probe_eq h = rw (h, probe) refl

  find_found :
      (fuel : ℕ) (rows : List (A × List ℕ)) (key : List ℕ) (low top i : ℕ) (a : A) (s : List ℕ)
      → is_sorted rows ≡ true
      → get_elem? rows i ≡ some (a, s)
      → strcasecmp key s ≡ Ordering.eq
      → low ≤ i
      → i < top
      → top ≤ length rows
      → top - low ≤ fuel
      → find_row fuel rows key low top ≡ some a
  find_found zero rows key low top i a s sorted g same from below inside enough =
      absurd (omega arith)
  find_found (suc fuel) rows key low top i a s sorted g same from below inside enough =
      let mid = low + (top - 1 - low) / 2 in
      let (b, t, here) = get_inside rows mid (omega arith) in
      let step =
        find_row_step fuel rows key low top (omega arith)
        ∙ ap
            (λ o.
              probe o key (find_row fuel rows key low mid) (find_row fuel rows key (mid + 1) top))
            here in
      let compared = strcasecmp_same key s t same in
      elim (dec_lt i mid) [
        | yes lt ↦
            step
            ∙ (probe_lt key b t _ _ (compared ∙ sorted_lt s t a b rows i mid sorted lt g here)
                ∙ find_found fuel rows key low mid i a s sorted g same from lt (omega arith)
                    (omega arith))
        | no ge ↦ elim (dec_lt mid i) [
          | yes gt ↦
              step
              ∙ (probe_gt key b t _ _ (
                    compared
                    ∙ (strcasecmp-opposite t s
                        ∙ ap opposite (sorted_lt t s b a rows mid i sorted gt here g)))
                  ∙ find_found fuel rows key (mid + 1) top i a s sorted g same (omega arith) below
                      inside (omega arith))
          | no le ↦
              let at : i ≡ mid = omega arith in
              let row : some (b, t) ≡ some (a, s) = sym here ∙ (ap (get_elem? rows) (sym at) ∙ g) in
              let (value, text) : (b ≡ a) × (t ≡ s) = (cc row, cc row) in
              step ∙ (probe_eq key b t _ _ (ap (strcasecmp key) text ∙ same) ∙ ap some value)
        ]
      ]

  Found : List (A × List ℕ) → List ℕ → A → Type 0
  Found rows key a =
      (i : ℕ) × (s : List ℕ) × (get_elem? rows i ≡ some (a, s))
      × (strcasecmp key s ≡ Ordering.eq)
      × (i < length rows)

  Found-cons :
      (r : A × List ℕ) (rows : List (A × List ℕ)) (key : List ℕ) (a : A)
      → Found rows key a
      → Found (r ∷ rows) key a
  unfolding Found
  Found-cons r rows key a (i, s, g, e, h) = (suc i, s, g, e, omega arith)

  pick-Found :
      (o : Ordering) (b : A) (t : List ℕ) (rows : List (A × List ℕ)) (key : List ℕ) (a : A)
      → strcasecmp key t ≡ o
      → (lookup_row rows key ≡ some a → Found rows key a)
      → pick o b (lookup_row rows key) ≡ some a
      → Found ((b, t) ∷ rows) key a
  unfolding Found
  pick-Found Ordering.eq b t rows key a e rest h =
      (0, t, ap (λ c. some (c, t)) (cc h), e, omega arith)
  pick-Found Ordering.lt b t rows key a e rest h = Found-cons (b, t) rows key a (rest h)
  pick-Found Ordering.gt b t rows key a e rest h = Found-cons (b, t) rows key a (rest h)

  lookup-Found :
      (rows : List (A × List ℕ)) (key : List ℕ) (a : A)
      → lookup_row rows key ≡ some a
      → Found rows key a
  lookup-Found [] key a h = cc h
  lookup-Found ((b, t) ∷ rows) key a h =
      pick-Found (strcasecmp key t) b t rows key a refl (lookup-Found rows key a) h

  -- No row has the text.
  Lacks : List (A × List ℕ) → List ℕ → Type 0
  Lacks rows key =
      (i : ℕ) (a : A) (s : List ℕ)
      → get_elem? rows i ≡ some (a, s)
      → strcasecmp key s ≡ Ordering.eq
      → ⊥

  pick-Lacks :
      (o : Ordering) (b : A) (t : List ℕ) (rows : List (A × List ℕ)) (key : List ℕ)
      → strcasecmp key t ≡ o
      → (lookup_row rows key ≡ none → Lacks rows key)
      → pick o b (lookup_row rows key) ≡ none
      → Lacks ((b, t) ∷ rows) key
  unfolding Lacks
  pick-Lacks Ordering.eq b t rows key e rest h i a s g same = cc h
  pick-Lacks Ordering.lt b t rows key e rest h zero a s g same =
      let text : t ≡ s = cc g in cc (e, same, ap (strcasecmp key) text)
  pick-Lacks Ordering.lt b t rows key e rest h (suc i) a s g same = rest h i a s g same
  pick-Lacks Ordering.gt b t rows key e rest h zero a s g same =
      let text : t ≡ s = cc g in cc (e, same, ap (strcasecmp key) text)
  pick-Lacks Ordering.gt b t rows key e rest h (suc i) a s g same = rest h i a s g same

  lookup-Lacks :
      (rows : List (A × List ℕ)) (key : List ℕ) → lookup_row rows key ≡ none → Lacks rows key
  unfolding Lacks
  lookup-Lacks [] key h i a s g same = cc g
  lookup-Lacks ((b, t) ∷ rows) key h i a s g same =
      pick-Lacks (strcasecmp key t) b t rows key refl (lookup-Lacks rows key) h i a s g same

  probe_lacks :
      (o : Option (A × List ℕ)) (key : List ℕ) (below above : Option A)
      → ((a : A) (s : List ℕ) → o ≡ some (a, s) → strcasecmp key s ≡ Ordering.eq → ⊥)
      → below ≡ none
      → above ≡ none
      → probe o key below above ≡ none
  probe_lacks none key below above h b c = refl
  probe_lacks (some (a, s)) key below above h b c = decided (strcasecmp key s) refl
    where
      decided : (o : Ordering) → strcasecmp key s ≡ o → probe (some (a, s)) key below above ≡ none
      decided Ordering.eq e = absurd (h a s refl e)
      decided Ordering.lt e = probe_lt key a s below above e ∙ b
      decided Ordering.gt e = probe_gt key a s below above e ∙ c

  find-Lacks :
      (fuel : ℕ) (rows : List (A × List ℕ)) (key : List ℕ) (low top : ℕ)
      → Lacks rows key
      → find_row fuel rows key low top ≡ none
  unfolding find_row Lacks
  find-Lacks zero rows key low top h = refl
  find-Lacks (suc fuel) rows key low top h =
      let mid = low + (top - 1 - low) / 2 in
      let decided =
        probe_lacks (get_elem? rows mid) key (find_row fuel rows key low mid)
          (find_row fuel rows key (mid + 1) top) (λ a s g e. h mid a s g e)
          (find-Lacks fuel rows key low mid h) (find-Lacks fuel rows key (mid + 1) top h) in
      elim (Bool-cases (ltb low top)) [
        | inl e ↦ if_true (ltb low top) _ _ e ∙ decided
        | inr e ↦ if_false (ltb low top) _ _ e
      ]

  -- In a table whose texts go up, but for case, the binary search gives the value of the row with a
  -- text, whatever the case of its letters, and the size of the table, as a value, where no row has
  -- it.
  pub string_to-lookup_row :
      (of_int : ℕ → A) (rows : List (A × List ℕ)) (key : List ℕ)
      → is_sorted rows ≡ true
      → string_to of_int rows key ≡ or_size of_int (length rows) (lookup_row rows key)
  unfolding string_to Found
  string_to-lookup_row of_int rows key sorted =
      ap (or_size of_int (length rows)) (elim (Option-cases (lookup_row rows key)) [
        | inl e ↦
            find-Lacks (length rows) rows key 0 (length rows) (lookup-Lacks rows key e) ∙ sym e
        | inr (a, e) ↦
            let (i, s, g, same, inside) = lookup-Found rows key a e in
            find_found (length rows) rows key 0 (length rows) i a s sorted g same (omega arith)
              inside (omega arith) (omega arith)
            ∙ sym e
      ])
