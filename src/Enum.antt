-- ===== src/Enum.antt =====
-- vk_enum.h: the functions that `DEFINE_ENUM_FUNCTIONS` makes of a table of values and their texts.
-- A row is `map_elem` beside `map_repr`.
-- `to_int` and `of_int` are the casts between an enumeration and `int`.
mod Order
pub mod Search
use Prim.Native.Nat.{compare, Ordering}
use mnvkd.Base.{
  ℕ, zero, suc, ◌+◌, ◌-◌, ◌/◌, Bool, true, false, ◌&&◌, ◌||◌, not, leb, ltb, if◌then◌else◌, Option,
  some, none, List, [], ◌∷◌, length, get_elem?, codes, strcasecmp,
}

module _ {A : Type 0} where
  -- What a comparison with the row in the middle decides.
  abbrev pub probe : Option (A × List ℕ) → List ℕ → Option A → Option A → Option A
  probe none key below above = none
  probe (some (a, repr)) key below above = elim (strcasecmp key repr) [
    | Ordering.eq ↦ some a
    | Ordering.lt ↦ below
    | Ordering.gt ↦ above
  ]

  -- The loop of `string_to_`, from `low` on and below `top`, which is `high + 1`: `high` can be -1.
  unfoldable pub find_row : ℕ → List (A × List ℕ) → List ℕ → ℕ → ℕ → Option A
  find_row zero rows key low top = none
  find_row (suc fuel) rows key low top =
      let mid = low + (top - 1 - low) / 2 in
      let below = find_row fuel rows key low mid in
      let above = find_row fuel rows key (mid + 1) top in
      if ltb low top then probe (get_elem? rows mid) key below above else none

  abbrev pub or_size : (ℕ → A) → ℕ → Option A → A
  or_size of_int size none = of_int size
  or_size of_int size (some a) = a

  unfoldable pub string_to : (ℕ → A) → List (A × List ℕ) → List ℕ → A
  string_to of_int rows key =
      or_size of_int (length rows) (find_row (length rows) rows key 0 (length rows))

  abbrev repr_or_unknown : Option (A × List ℕ) → List ℕ
  repr_or_unknown none = codes "UNKNOWN"
  repr_or_unknown (some (_, repr)) = repr

  unfoldable pub to_string : (A → ℕ) → List (A × List ℕ) → A → List ℕ
  to_string to_int rows a = repr_or_unknown (get_elem? rows (to_int a))

-- The sign of what `strcmp` returns.
unfoldable pub strcmp : List ℕ → List ℕ → Ordering
strcmp [] [] = Ordering.eq
strcmp [] (y ∷ ys) = Ordering.lt
strcmp (x ∷ xs) [] = Ordering.gt
strcmp (x ∷ xs) (y ∷ ys) =
    let rest = strcmp xs ys in
    elim (compare x y) [
      | Ordering.lt ↦ Ordering.lt
      | Ordering.gt ↦ Ordering.gt
      | Ordering.eq ↦ rest
    ]

abbrev is_gt : Ordering → Bool
is_gt Ordering.gt = true
is_gt _ = false

-- `validate_`: whether it does not return -1.
unfoldable pub validate : {A : Type 0} → (A → ℕ) → List (A × List ℕ) → Bool
validate to_int [] = true
validate to_int (r ∷ []) = true
validate to_int ((a, s) ∷ (b, t) ∷ rows) =
    let others = validate to_int ((b, t) ∷ rows) in
    if is_gt (strcmp s t) || leb (to_int b) (to_int a) then false else others
