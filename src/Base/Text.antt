-- ===== src/Base/Text.antt =====
-- Strings of C, as lists of character codes.
use Prim.Native.Nat.{ℕ, ◌+◌, zero, suc, compare, Ordering}
use Prim.Native.Char.{code}
use Prim.Native.String.{String}
use mathlib.Core.List.{List, [], ◌∷◌}
use mathlib.Core.Option.{Option, none, some}
use mathlib.Core.Bool.{◌&&◌}
use mnvkd.Base.Tests.{leb, if◌then◌else◌}

-- The characters of a literal, without the NUL at its end.
abbrev pub codes : String → List ℕ
codes String.[] = []
codes (String.◌∷◌ c s) = code c ∷ codes s

module _ {ℓ} {A : Type ℓ} where
  abbrev pub get_elem? : List A → ℕ → Option A
  get_elem? [] i = none
  get_elem? (x ∷ xs) zero = some x
  get_elem? (x ∷ xs) (suc i) = get_elem? xs i

-- `tolower` in the C locale
abbrev pub to_lower : ℕ → ℕ
to_lower c = if leb b'A' c && leb c b'Z' then c + 32 else c

-- The sign of what `strcasecmp` returns.
unfoldable pub strcasecmp : List ℕ → List ℕ → Ordering
strcasecmp [] [] = Ordering.eq
strcasecmp [] (y ∷ ys) = Ordering.lt
strcasecmp (x ∷ xs) [] = Ordering.gt
strcasecmp (x ∷ xs) (y ∷ ys) =
    let rest = strcasecmp xs ys in
    elim (compare (to_lower x) (to_lower y)) [
      | Ordering.lt ↦ Ordering.lt
      | Ordering.gt ↦ Ordering.gt
      | Ordering.eq ↦ rest
    ]
