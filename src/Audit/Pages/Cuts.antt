-- ===== src/Audit/Pages/Cuts.antt =====
-- Rows in order, audit/audit.service.ts, cut at a limit and behind a row.

use typescript_starter.Common.{
  ℕ, zero, suc, ◌≤◌, ◌<◌, some, List, [], ◌∷◌, ◌++◌, Bool, true, ◌&&◌, ◌≡◌, refl, ap, ◌∙◌, inl, inr,
  keep, take, length, All, Bool-cases, arith,
}
use typescript_starter.Audit.Events.{EventRow}
use typescript_starter.Audit.Query.{is_after}
use typescript_starter.Audit.Pages.{last_row, sort_rows, insert_row_sorted}
use typescript_starter.Audit.Pages.Order.{
  IsSorted, follows_row, follows_row_asym, follows_row_irrefl,
}

pub split_row :
    (l : ℕ) (rows : List EventRow)
    → l < length rows
    → (before : List EventRow) × (c : EventRow) × (after : List EventRow) × (rows
        ≡ before ++ c ∷ after)
      × (take (suc l) rows ≡ before ++ c ∷ [])
split_row l [] h = absurd (omega (arith, h))
split_row zero (r ∷ rest) h = ([], r, rest, refl, refl)
split_row (suc l) (r ∷ rest) h =
    let (before, c, after, e, k) = split_row l rest (omega (arith, h)) in
    (r ∷ before, c, after, ap (λ xs. r ∷ xs) e, ap (λ xs. r ∷ xs) k)

pub last_row-append : (before : List EventRow) (c : EventRow) → last_row (before ++ c ∷ []) ≡ some c
last_row-append [] c = refl
last_row-append (r ∷ []) c = refl
last_row-append (r ∷ s ∷ rest) c = last_row-append (s ∷ rest) c

pub take-take : (l : ℕ) (rows : List EventRow) → take l (take (suc l) rows) ≡ take l rows
take-take zero rows = refl
take-take (suc l) [] = refl
take-take (suc l) (r ∷ rest) = ap (λ xs. r ∷ xs) (take-take l rest)

pub take_whole : (l : ℕ) (rows : List EventRow) → length rows ≤ l → take l rows ≡ rows
take_whole zero [] h = refl
take_whole zero (r ∷ rest) h = absurd (omega (arith, h))
take_whole (suc l) [] h = refl
take_whole (suc l) (r ∷ rest) h = ap (λ xs. r ∷ xs) (take_whole l rest (omega (arith, h)))

pub length-take :
    (l : ℕ) (rows : List EventRow) → l < length rows → length (take (suc l) rows) ≡ suc l
length-take l [] h = absurd (omega (arith, h))
length-take zero (r ∷ rest) h = refl
length-take (suc l) (r ∷ rest) h = ap suc (length-take l rest (omega (arith, h)))

pub keep-and :
    (p q : EventRow → Bool) (rows : List EventRow)
    → keep (λ r. p r && q r) rows ≡ keep q (keep p rows)
keep-and p q [] = refl
keep-and p q (r ∷ rest) = elim (Bool-cases (p r)) [
  | inl on ↦ elim (Bool-cases (q r)) [
    | inl kept ↦ rw (on, kept) (ap (λ xs. r ∷ xs) (keep-and p q rest))
    | inr cut ↦ rw (on, cut) (keep-and p q rest)
  ]
  | inr off ↦ rw off (keep-and p q rest)
]

pub keep_everything :
    (q : EventRow → Bool) (rows : List EventRow) → All (λ r. q r ≡ true) rows → keep q rows ≡ rows
keep_everything q [] h = refl
keep_everything q (r ∷ rest) (on, h) = rw on (ap (λ xs. r ∷ xs) (keep_everything q rest h))

pub nothing_cut : (rows : List EventRow) → All (λ r. true ≡ true) rows
nothing_cut [] = tt
nothing_cut (r ∷ rest) = (refl, nothing_cut rest)

pub length-insert :
    (r : EventRow) (rows : List EventRow) → length (insert_row_sorted r rows) ≡ suc (length rows)
unfolding insert_row_sorted
length-insert r [] = refl
length-insert r (s ∷ rest) = ground (arith, length-insert r rest)

pub length-sort_rows : (rows : List EventRow) → length (sort_rows rows) ≡ length rows
unfolding sort_rows
length-sort_rows [] = refl
length-sort_rows (r ∷ rest) = length-insert r (sort_rows rest) ∙ ap suc (length-sort_rows rest)

pub All-middle :
    (P : EventRow → Type 0) (before : List EventRow) (c : EventRow) (after : List EventRow)
    → All P (before ++ c ∷ after)
    → P c × All P after
All-middle P [] c after h = h
All-middle P (b ∷ before) c after (p, h) = All-middle P before c after h

-- What comes after a row, among rows in order.
pub keep-after :
    (before : List EventRow) (c : EventRow) (after : List EventRow)
    → IsSorted (before ++ c ∷ after)
    → keep (is_after c.occurred_at c.sequence) (before ++ c ∷ after) ≡ after
keep-after [] c after (all_after, h) =
    rw (follows_row_irrefl c) (keep_everything (is_after c.occurred_at c.sequence) after all_after)
keep-after (b ∷ before) c after (front, h) =
    let b_first = (All-middle (λ s. follows_row b s ≡ true) before c after front).0 in
    rw (follows_row_asym b c b_first) (keep-after before c after h)
