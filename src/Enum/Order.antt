-- ===== src/Enum/Order.antt =====
-- vk_enum.h: the order of texts that the search of a table relies on.
use Prim.Native.Nat.{Ordering}
use mnvkd.Base.{ℕ, List, [], ◌∷◌, strcasecmp, ◌≡◌, refl, arith}

-- The comparison the other way round.
abbrev pub opposite : Ordering → Ordering
opposite Ordering.lt = Ordering.gt
opposite Ordering.eq = Ordering.eq
opposite Ordering.gt = Ordering.lt

pub strcasecmp-opposite : (s t : List ℕ) → strcasecmp t s ≡ opposite (strcasecmp s t)
unfolding strcasecmp
strcasecmp-opposite [] [] = refl
strcasecmp-opposite [] (y ∷ t) = refl
strcasecmp-opposite (x ∷ s) [] = refl
strcasecmp-opposite (x ∷ s) (y ∷ t) = ground (arith, strcasecmp-opposite s t)

pub strcasecmp_refl : (s : List ℕ) → strcasecmp s s ≡ Ordering.eq
unfolding strcasecmp
strcasecmp_refl [] = refl
strcasecmp_refl (x ∷ s) = ground (arith, strcasecmp_refl s)

-- Texts that are equal but for case compare alike.
pub strcasecmp_same :
    (s t u : List ℕ) → strcasecmp s t ≡ Ordering.eq → strcasecmp s u ≡ strcasecmp t u
unfolding strcasecmp
strcasecmp_same [] [] u h = refl
strcasecmp_same [] (y ∷ t) u h = cc h
strcasecmp_same (x ∷ s) [] u h = cc h
strcasecmp_same (x ∷ s) (y ∷ t) [] h = refl
strcasecmp_same (x ∷ s) (y ∷ t) (z ∷ u) h = ground (arith, strcasecmp_same s t u)
