-- ===== src/Audit/Pages/Order.antt =====
-- The order in which the audit trail is read, audit/audit.service.ts: strict, by time and then by
-- sequence number, and respected by every selection of rows.
use typescript_starter.Common.{
  List, [], ◌∷◌, Bool, true, false, ◌≡◌, refl, sym, ap, ◌∙◌, ◌==◌, keep, All, inl, inr,
  if◌then◌else◌, Bool-cases, arith,
}
use typescript_starter.Audit.Events.{EventRow}
use typescript_starter.Audit.Query.{is_after}
use typescript_starter.Audit.Pages.{insert_row_sorted, sort_rows}

-- The second row comes after the first.
abbrev pub follows_row : EventRow → EventRow → Bool
follows_row r s = is_after r.occurred_at r.sequence s

-- No two rows have the same sequence number.
abbrev pub IsDistinct : List EventRow → Type 0
IsDistinct [] = Unit
IsDistinct (r ∷ rest) = All (λ s. (s.sequence == r.sequence) ≡ false) rest × IsDistinct rest

abbrev pub IsSorted : List EventRow → Type 0
IsSorted [] = Unit
IsSorted (r ∷ rest) = All (λ s. follows_row r s ≡ true) rest × IsSorted rest

follows_row_trans :
    (r s t : EventRow) → follows_row r s ≡ true → follows_row s t ≡ true → follows_row r t ≡ true
follows_row_trans r s t h k = ground (arith, h, k)

pub follows_row_asym : (r s : EventRow) → follows_row r s ≡ true → follows_row s r ≡ false
follows_row_asym r s h = ground (arith, h)

follows_row_total :
    (r s : EventRow)
    → (s.sequence == r.sequence) ≡ false
    → follows_row r s ≡ false
    → follows_row s r ≡ true
follows_row_total r s h k = ground (arith, h, k)

pub follows_row_irrefl : (r : EventRow) → follows_row r r ≡ false
follows_row_irrefl r = ground arith

All-follow :
    (r s : EventRow) (rest : List EventRow)
    → follows_row r s ≡ true
    → All (λ t. follows_row s t ≡ true) rest
    → All (λ t. follows_row r t ≡ true) rest
All-follow r s [] h k = tt
All-follow r s (t ∷ rest) h (k, ks) = (follows_row_trans r s t h k, All-follow r s rest h ks)

module _ (P : EventRow → Type 0) where
  All-insert :
      (r : EventRow) (rows : List EventRow) → P r → All P rows → All P (insert_row_sorted r rows)
  unfolding insert_row_sorted
  All-insert r [] p h = (p, tt)
  All-insert r (s ∷ rest) p (q, h) = elim (Bool-cases (follows_row r s)) [
    | inl front ↦ rw front (p, (q, h))
    | inr behind ↦ rw behind (q, All-insert r rest p h)
  ]

  pub All-sort : (rows : List EventRow) → All P rows → All P (sort_rows rows)
  unfolding sort_rows
  All-sort [] h = tt
  All-sort (r ∷ rest) (p, h) = All-insert r (sort_rows rest) p (All-sort rest h)

  pub All-kept : (q : EventRow → Bool) (rows : List EventRow) → All P rows → All P (keep q rows)
  All-kept q [] h = tt
  All-kept q (r ∷ rest) (p, h) = elim (Bool-cases (q r)) [
    | inl yes_there ↦ rw yes_there (p, All-kept q rest h)
    | inr other ↦ rw other (All-kept q rest h)
  ]

insert-IsSorted :
    (r : EventRow) (rows : List EventRow)
    → All (λ s. (s.sequence == r.sequence) ≡ false) rows
    → IsSorted rows
    → IsSorted (insert_row_sorted r rows)
unfolding insert_row_sorted
insert-IsSorted r [] d h = (tt, tt)
insert-IsSorted r (s ∷ rest) (d, ds) (front, h) = elim (Bool-cases (follows_row r s)) [
  | inl first ↦ rw first ((first, All-follow r s rest first front), (front, h))
  | inr behind ↦ rw behind (
    All-insert (λ t. follows_row s t ≡ true) r rest (follows_row_total r s d behind) front,
    insert-IsSorted r rest ds h,
  )
]

pub sort_rows-IsSorted : (rows : List EventRow) → IsDistinct rows → IsSorted (sort_rows rows)
unfolding sort_rows
sort_rows-IsSorted [] h = tt
sort_rows-IsSorted (r ∷ rest) (d, h) =
    insert-IsSorted r (sort_rows rest) (All-sort (λ s. (s.sequence == r.sequence) ≡ false) rest d)
      (sort_rows-IsSorted rest h)

pub keep-IsDistinct :
    (q : EventRow → Bool) (rows : List EventRow) → IsDistinct rows → IsDistinct (keep q rows)
keep-IsDistinct q [] h = tt
keep-IsDistinct q (r ∷ rest) (d, h) = elim (Bool-cases (q r)) [
  | inl yes_there ↦
      rw yes_there
        (All-kept (λ s. (s.sequence == r.sequence) ≡ false) q rest d, keep-IsDistinct q rest h)
  | inr other ↦ rw other (keep-IsDistinct q rest h)
]

insert-front :
    (r : EventRow) (rows : List EventRow)
    → All (λ s. follows_row r s ≡ true) rows
    → insert_row_sorted r rows ≡ r ∷ rows
unfolding insert_row_sorted
insert-front r [] h = refl
insert-front r (s ∷ rest) (first, h) = rw first refl

-- A selection of rows that already are in order.
keep-insert :
    (q : EventRow → Bool) (r : EventRow) (rows : List EventRow)
    → IsSorted rows
    → keep q (insert_row_sorted r rows)
      ≡ (if q r then insert_row_sorted r (keep q rows) else keep q rows)
unfolding insert_row_sorted
keep-insert q r [] h = elim (Bool-cases (q r)) [ inl on ↦ rw on refl | inr off ↦ rw off refl ]
keep-insert q r (s ∷ rest) (front, h) = elim (Bool-cases (follows_row r s)) [
  | inl first ↦
      let all_follow : All (λ t. follows_row r t ≡ true) (keep q (s ∷ rest)) =
        All-kept (λ t. follows_row r t ≡ true) q (s ∷ rest)
          (first, All-follow r s rest first front) in
      let at_front = insert-front r (keep q (s ∷ rest)) all_follow in
      elim (Bool-cases (q r)) [
        | inl on ↦ rw (first, on) (sym at_front)
        | inr off ↦ rw (first, off) refl
      ]
  | inr behind ↦ elim (Bool-cases (q s)) [
    | inl kept ↦ elim (Bool-cases (q r)) [
      | inl on ↦ rw (behind, kept) (rw (keep-insert q r rest h, on, behind) refl)
      | inr off ↦ rw (behind, kept) (rw (keep-insert q r rest h, off) refl)
    ]
    | inr cut ↦ rw (behind, cut) (keep-insert q r rest h)
  ]
]

pub keep-sort_rows :
    (q : EventRow → Bool) (rows : List EventRow)
    → IsDistinct rows
    → keep q (sort_rows rows) ≡ sort_rows (keep q rows)
unfolding sort_rows
keep-sort_rows q [] h = refl
keep-sort_rows q (r ∷ rest) (d, h) =
    keep-insert q r (sort_rows rest) (sort_rows-IsSorted rest h) ∙ elim (Bool-cases (q r)) [
      | inl on ↦ rw on (ap (insert_row_sorted r) (keep-sort_rows q rest h))
      | inr off ↦ rw off (keep-sort_rows q rest h)
    ]
