-- ===== src/Queue.antt =====
-- The queues of the program, as lists of indices: the elements that a list links are flagged, so that
-- none is inserted twice.
use mnvkd.Base.{
  ℕ, Bool, true, false, not, ◌&&◌, ◌==◌, if◌then◌else◌, List, [], ◌∷◌, member, ◌≡◌, refl, sym, ◌∙◌,
  arith, Bool-cases, inl, inr,
}

-- `SLIST_REMOVE`: the first element that is `i` goes
abbrev pub remove : ℕ → List ℕ → List ℕ
remove i [] = []
remove i (x ∷ xs) = let rest = remove i xs in if x == i then xs else x ∷ rest

-- `SLIST_EMPTY`
abbrev pub is_nil : List ℕ → Bool
is_nil [] = true
is_nil (_ ∷ _) = false

abbrev pub distinct : List ℕ → Bool
distinct [] = true
distinct (x ∷ xs) = not (member x xs) && distinct xs

-- A queue and its flags: the flag of an element says whether the queue has it, which it has at most
-- once.
pub record Tracks (xs : List ℕ) (flag : ℕ → Bool) : Type 0 where
  pub says : (i : ℕ) → member i xs ≡ flag i
  pub once : distinct xs ≡ true

-- The flags after the one of `i` is set.
abbrev pub set_flag : (ℕ → Bool) → ℕ → Bool → ℕ → Bool
set_flag flag i b j = if j == i then b else flag j

pub Tracks-same : {xs : List ℕ} {f g : ℕ → Bool} → ((i : ℕ) → f i ≡ g i) → Tracks xs f → Tracks xs g
Tracks-same h t = record { says = λ i. t.says i ∙ h i; once = t.once }

pub Tracks-insert :
    {xs : List ℕ} {f : ℕ → Bool} (i : ℕ)
    → f i ≡ false
    → Tracks xs f
    → Tracks (i ∷ xs) (set_flag f i true)
Tracks-insert {xs} {f} i h t = record {
  says = λ j. ground (arith, t.says j);
  once = ground (arith, t.says i, t.once);
}

member-remove :
    (i j : ℕ) (xs : List ℕ)
    → distinct xs ≡ true
    → member j (remove i xs) ≡ (not (j == i) && member j xs)
member-remove i j [] h = ground arith
member-remove i j (x ∷ xs) h = ground (arith, member-remove i j xs)

distinct-remove : (i : ℕ) (xs : List ℕ) → distinct xs ≡ true → distinct (remove i xs) ≡ true
distinct-remove i [] h = refl
distinct-remove i (x ∷ xs) h = ground (arith, distinct-remove i xs, member-remove i x xs)

pub Tracks-remove :
    {xs : List ℕ} {f : ℕ → Bool} (i : ℕ) → Tracks xs f → Tracks (remove i xs) (set_flag f i false)
Tracks-remove {xs} {f} i t = record {
  says = λ j. ground (arith, member-remove i j xs t.once, t.says j);
  once = distinct-remove i xs t.once;
}

pub Tracks-dequeue :
    {i : ℕ} {xs : List ℕ} {f : ℕ → Bool} → Tracks (i ∷ xs) f → Tracks xs (set_flag f i false)
Tracks-dequeue {i} {xs} {f} t = record {
  says = λ j. ground (arith, t.says j, t.once);
  once = ground (arith, t.once);
}

-- Writes of one element, whose flag becomes `b`, and of one that keeps its flag.
module _ {A : Type 0} (items : ℕ → A) (i : ℕ) (a : A) (flag : A → Bool) where
  pub set-flag :
      (b : Bool)
      → flag a ≡ b
      → (j : ℕ) → set_flag (λ k. flag (items k)) i b j ≡ flag (if j == i then a else items j)
  set-flag b h j = elim (Bool-cases (j == i)) [ inl e ↦ rw e (sym h) | inr e ↦ rw e ]

  pub set-kept :
      flag a ≡ flag (items i) → (j : ℕ) → flag (items j) ≡ flag (if j == i then a else items j)
  set-kept h j = elim (Bool-cases (j == i)) [
    | inl e ↦ let same : j ≡ i = ground arith in rw e (rw (same, h))
    | inr e ↦ rw e
  ]
