-- ===== src/History/Percentile.antt =====
-- history/percentile.util.ts. `Math.ceil((p / 100) * n)` is taken exactly; with p = 50 and p = 90,
-- which are the only ones in use, and list lengths below 2 ^ 50 the floating-point product rounds to
-- the exact value wherever that is a whole number.
use typescript_starter.Common.{
  ℕ, zero, suc, ◌+◌, ◌*◌, ◌/◌, ◌-◌, ◌≤◌, ◌<◌, List, [], ◌∷◌, ◌≡◌, refl, arith, mul_mono, or_else,
  length, get_elem?, All, if◌then◌else◌, inl, inr, Bool-cases,
}
use typescript_starter.Common.Int.{ℤ, pos, leb_ℤ, ◌≤ℤ◌}

insert_sorted : ℤ → List ℤ → List ℤ
insert_sorted x [] = x ∷ []
insert_sorted x (y ∷ ys) = if leb_ℤ x y then x ∷ y ∷ ys else y ∷ insert_sorted x ys

-- `[...values].sort((a, b) => a - b)`
sort : List ℤ → List ℤ
unfolding insert_sorted
sort [] = []
sort (x ∷ xs) = insert_sorted x (sort xs)

-- `Math.max(0, Math.ceil((p / 100) * n) - 1)`
abbrev pub percentile_index : ℕ → ℕ → ℕ
percentile_index p n = (p * n + 99) / 100 - 1

-- The index is below the length for p up to 100, so the default is never taken there.
unfoldable pub percentile : List ℤ → ℕ → ℤ
unfolding sort
percentile [] p = pos 0
percentile (v ∷ vs) p =
    let sorted = sort (v ∷ vs) in
    or_else (get_elem? sorted (percentile_index p (length sorted))) (pos 0)

module _ (P : ℤ → Type 0) where
  All-insert_sorted : (x : ℤ) (xs : List ℤ) → P x → All P xs → All P (insert_sorted x xs)
  unfolding insert_sorted
  All-insert_sorted x [] p h = (p, tt)
  All-insert_sorted x (y ∷ ys) p (q, h) = elim (Bool-cases (leb_ℤ x y)) [
    | inl le ↦ rw le (p, (q, h))
    | inr gt ↦ rw gt (q, All-insert_sorted x ys p h)
  ]

  All-sort : (xs : List ℤ) → All P xs → All P (sort xs)
  unfolding sort
  All-sort [] h = tt
  All-sort (x ∷ xs) (p, h) = All-insert_sorted x (sort xs) p (All-sort xs h)

  get_elem?-All :
      (xs : List ℤ) (i : ℕ) → All P xs → i < length xs → P (or_else (get_elem? xs i) (pos 0))
  get_elem?-All [] i h k = absurd (omega arith)
  get_elem?-All (x ∷ xs) zero h k = h.0
  get_elem?-All (x ∷ xs) (suc i) h k = get_elem?-All xs i h.1 (omega arith)

length-insert_sorted : (x : ℤ) (xs : List ℤ) → length (insert_sorted x xs) ≡ suc (length xs)
unfolding insert_sorted
length-insert_sorted x [] = refl
length-insert_sorted x (y ∷ ys) = ground (arith, length-insert_sorted x ys)

length-sort : (xs : List ℤ) → length (sort xs) ≡ length xs
unfolding sort
length-sort [] = refl
length-sort (x ∷ xs) = omega (arith, length-insert_sorted x (sort xs), length-sort xs)

abbrev IsBelow : ℤ → List ℤ → Type 0
IsBelow x ys = All (λ y. x ≤ℤ y) ys

abbrev pub IsSorted : List ℤ → Type 0
IsSorted [] = Unit
IsSorted (x ∷ xs) = IsBelow x xs × IsSorted xs

All-le_trans : (x y : ℤ) (ys : List ℤ) → x ≤ℤ y → IsBelow y ys → IsBelow x ys
All-le_trans x y [] h k = tt
All-le_trans x y (z ∷ zs) h (p, k) = (omega arith, All-le_trans x y zs h k)

insert_sorted-IsSorted : (x : ℤ) (xs : List ℤ) → IsSorted xs → IsSorted (insert_sorted x xs)
unfolding insert_sorted
insert_sorted-IsSorted x [] h = (tt, tt)
insert_sorted-IsSorted x (y ∷ ys) (b, h) = elim (Bool-cases (leb_ℤ x y)) [
  | inl le ↦ rw le ((ground arith, All-le_trans x y ys (ground arith) b), (b, h))
  | inr gt ↦
      rw gt (All-insert_sorted (λ z. y ≤ℤ z) x ys (ground arith) b, insert_sorted-IsSorted x ys h)
]

sort-IsSorted : (xs : List ℤ) → IsSorted (sort xs)
unfolding sort
sort-IsSorted [] = tt
sort-IsSorted (x ∷ xs) = insert_sorted-IsSorted x (sort xs) (sort-IsSorted xs)

get_elem?-le :
    (xs : List ℤ) (i j : ℕ)
    → IsSorted xs
    → i ≤ j
    → j < length xs
    → or_else (get_elem? xs i) (pos 0) ≤ℤ or_else (get_elem? xs j) (pos 0)
get_elem?-le [] i j s h k = omega arith
get_elem?-le (x ∷ xs) zero zero s h k = omega arith
get_elem?-le (x ∷ xs) zero (suc j) s h k = get_elem?-All (λ y. x ≤ℤ y) xs j s.0 (omega arith)
get_elem?-le (x ∷ xs) (suc i) zero s h k = absurd (omega arith)
get_elem?-le (x ∷ xs) (suc i) (suc j) s h k = get_elem?-le xs i j s.1 (omega arith) (omega arith)

percentile_index-lt : (p n : ℕ) → p ≤ 100 → 0 < n → percentile_index p n < n
percentile_index-lt p n h k = omega (arith, mul_mono p 100 n h)

-- What holds of zero and of every value holds of a percentile.
pub percentile-All :
    (P : ℤ → Type 0) (values : List ℤ) (p : ℕ)
    → p ≤ 100
    → All P values
    → P (pos 0)
    → P (percentile values p)
unfolding percentile
percentile-All P [] p le h z = z
percentile-All P (v ∷ vs) p le h z =
    get_elem?-All P (sort (v ∷ vs)) _ (All-sort P (v ∷ vs) h)
      (percentile_index-lt p _ le (omega (arith, length-sort (v ∷ vs))))

-- Percentiles grow with the rank.
pub percentile-mono :
    (values : List ℤ) (p q : ℕ) → p ≤ q → q ≤ 100 → percentile values p ≤ℤ percentile values q
unfolding percentile
percentile-mono [] p q h k = omega arith
percentile-mono (v ∷ vs) p q h k =
    let n = length (sort (v ∷ vs)) in
    get_elem?-le (sort (v ∷ vs)) (percentile_index p n) (percentile_index q n)
      (sort-IsSorted (v ∷ vs)) (omega (arith, mul_mono p q n h))
      (percentile_index-lt q n k (omega (arith, length-sort (v ∷ vs))))
