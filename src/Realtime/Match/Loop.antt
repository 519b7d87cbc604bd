-- ===== src/Realtime/Match/Loop.antt =====
-- The loop of findRealtimeMatch, realtime/realtime.service.ts, for any assignment of tiers.

use mathlib.Core.List.{append_assoc, append-nil}
use typescript_starter.Common.{
  ℕ, ◌≤◌, ◌<◌, Option, none, some, List, [], ◌∷◌, ◌++◌, Bool, true, ◌≡◌, refl, ap, ◌∙◌, inl, inr,
  ◌⊎◌, ◌↔◌, ltb, ◌==◌, Bool-cases, Option-cases, All, All-append, any, or_else, subst, arith,
}
use typescript_starter.Realtime.Match.{scan, max_safe_integer}

All-map :
    {T : Type 0} (P Q : T → Type 0) (xs : List T) → ((x : T) → P x → Q x) → All P xs → All Q xs
All-map P Q [] f h = tt
All-map P Q (x ∷ xs) f (p, h) = (f x p, All-map P Q xs f h)

All-any : {T : Type 0} (P : T → Type 0) (xs : List T) → ((x : T) → P x) → All P xs
All-any P [] f = tt
All-any P (x ∷ xs) f = (f x, All-any P xs f)

module _ {T : Type 0} (tier : T → Option ℕ) where
  -- The tier of an item; one that does not match is behind all others.
  abbrev pub rank : T → ℕ
  rank x = or_else (tier x) max_safe_integer

  -- The answer for a list: none where no item has a tier, or else an item whose tier is the least,
  -- and below the tiers of all items before it.
  pub data Least (items : List T) : Option T → Type 0 where
    nothing : All (λ x. tier x ≡ none) items → Least items none
    found :
        (before : List T) (x : T) (after : List T) (t : ℕ)
        → items ≡ before ++ x ∷ after
        → tier x ≡ some t
        → All (λ y. t < rank y) before
        → All (λ y. t ≤ rank y) after
        → Least items (some x)

  -- The same of the items that the loop is past, with the tier that it keeps.
  pub data Seen (done : List T) : Option T → ℕ → Type 0 where
    none_yet : All (λ x. tier x ≡ none) done → Seen done none max_safe_integer
    so_far :
        (before : List T) (x : T) (after : List T) (t : ℕ)
        → done ≡ before ++ x ∷ after
        → tier x ≡ some t
        → 1 < t
        → t < max_safe_integer
        → All (λ y. t < rank y) before
        → All (λ y. t ≤ rank y) after
        → Seen done (some x) t

  module _ (bounded : (x : T) (t : ℕ) → tier x ≡ some t → (1 ≤ t) × (t < max_safe_integer)) where
    Seen-ranks :
        {done : List T} {best : Option T} {best_tier : ℕ}
        → Seen done best best_tier
        → All (λ y. best_tier ≤ rank y) done
    Seen-ranks {done = done} (none_yet h) =
        All-map (λ x. tier x ≡ none) (λ y. max_safe_integer ≤ rank y) done
          (λ x e. rw e (omega arith)) h
    Seen-ranks (so_far before x after t split is above below before_h after_h) = rw split (
        All-append (λ y. t ≤ rank y) before (x ∷ after)
          (All-map (λ y. t < rank y) (λ y. t ≤ rank y) before (λ y h. omega (arith, h)) before_h)
          (rw is (omega arith), after_h))

    Seen-Least :
        {done : List T} {best : Option T} {best_tier : ℕ}
        → Seen done best best_tier
        → Least done best
    Seen-Least (none_yet h) = nothing h
    Seen-Least (so_far before x after t split is above below before_h after_h) =
        found before x after t split is before_h after_h

    -- An item that does not improve on the best one.
    Seen-skip :
        {done : List T} {best : Option T} {best_tier : ℕ} (item : T)
        → (tier item ≡ none) ⊎ ((t : ℕ) × (tier item ≡ some t) × (best_tier ≤ t))
        → Seen done best best_tier
        → Seen (done ++ item ∷ []) best best_tier
    Seen-skip {done = done} item (inl e) (none_yet h) =
        none_yet (All-append (λ x. tier x ≡ none) done (item ∷ []) h (e, tt))
    Seen-skip item (inr (t, e, le)) (none_yet h) =
        let b = (bounded item t e).1 in absurd (omega (arith, b, le))
    Seen-skip item out (so_far before x after t split is above below before_h after_h) =
        let rank_le : t ≤ rank item = elim out [
          | inl e ↦ rw e (omega (arith, below))
          | inr (u, e, le) ↦ rw e (omega (arith, le))
        ] in
        so_far before x (after ++ item ∷ []) t
          (ap (λ xs. xs ++ item ∷ []) split ∙ append_assoc before (x ∷ after) (item ∷ [])) is above
          below before_h (All-append (λ y. t ≤ rank y) after (item ∷ []) after_h (rank_le, tt))

    rank_pos : (x : T) → 1 ≤ rank x
    rank_pos x = elim (Option-cases (tier x)) [
      | inl e ↦ rw e (omega arith)
      | inr (t, e) ↦ rw e (bounded x t e).0
    ]

    pub scan-Least :
        (items done : List T) (best : Option T) (best_tier : ℕ)
        → Seen done best best_tier
        → Least (done ++ items) (scan tier items best best_tier)
    unfolding scan
    scan-Least [] done best best_tier h = rw (append-nil done) (Seen-Least h)
    scan-Least (item ∷ rest) done best best_tier h =
        let next : (b : Option T) (t : ℕ)
            → Seen (done ++ item ∷ []) b t
            → Least (done ++ item ∷ rest) (scan tier rest b t) =
          λ b t s.
            subst (λ xs. Least xs (scan tier rest b t)) (append_assoc done (item ∷ []) rest)
              (scan-Least rest (done ++ item ∷ []) b t s) in
        elim (Option-cases (tier item)) [
          | inl e ↦ rw (e, scan) (next best best_tier (Seen-skip item (inl e) h))
          | inr (t, e) ↦
              let better : t < best_tier → All (λ y. t < rank y) done = λ lt.
                All-map (λ y. best_tier ≤ rank y) (λ y. t < rank y) done
                  (λ y k. omega (arith, k, lt)) (Seen-ranks h) in
              elim (Bool-cases (ltb t best_tier)) [
                | inr no_better ↦
                    rw (e, no_better, scan)
                      (next best best_tier
                        (Seen-skip item (inr (t, e, ground (arith, no_better))) h))
                | inl lt ↦ elim (Bool-cases (t == 1)) [
                  | inl one ↦
                      rw (e, lt, one, scan)
                        (found done item rest t refl e (better (ground (arith, lt))) (
                          All-any (λ y. t ≤ rank y) rest
                            (λ y. let pos_rank = rank_pos y in ground (arith, one, pos_rank))))
                  | inr more ↦
                      rw (e, lt, more, scan)
                        (next (some item) t (
                          so_far done item [] t refl e
                            (let low = (bounded item t e).0 in ground (arith, more, low))
                            (bounded item t e).1 (better (ground (arith, lt))) tt))
                ]
              ]
        ]

any-All :
    {T : Type 0} (P : T → Type 0) (p : T → Bool) (xs : List T)
    → any p xs ≡ true
    → All P xs
    → (x : T) × (p x ≡ true) × P x
any-All P p [] h all = ground (arith, h)
any-All P p (x ∷ xs) h (here, later) = elim (Bool-cases (p x)) [
  | inl yes_here ↦ (x, yes_here, here)
  | inr other ↦ any-All P p xs (rw other at h) later
]

-- Where the items of tier 1 are those of a test, and there is one, the answer passes the test.
pub Least-first :
    {T : Type 0} (tier : T → Option ℕ) (p : T → Bool) (items : List T) (o : Option T)
    → ((x : T) (t : ℕ) → tier x ≡ some t → (1 ≤ t) × (t < max_safe_integer))
    → ((x : T) → (p x ≡ true) ↔ (tier x ≡ some 1))
    → any p items ≡ true
    → Least tier items o
    → (x : T) × (o ≡ some x) × (p x ≡ true)
Least-first tier p items o bounded first h (nothing all) =
    let (y, py, none_y) = any-All (λ x. tier x ≡ none) p items h all in
    let one = (first y).0 py in absurd (ground (arith, one, none_y))
Least-first tier p items o bounded first h (found before x after t split is before_h after_h) =
    let ranked : All (λ y. t ≤ rank tier y) (before ++ x ∷ after) =
      All-append (λ y. t ≤ rank tier y) before (x ∷ after)
        (All-map (λ y. t < rank tier y) (λ y. t ≤ rank tier y) before (λ y k. omega (arith, k))
          before_h)
        (rw is (omega arith), after_h) in
    let (y, py, le) =
      any-All (λ y. t ≤ rank tier y) p (before ++ x ∷ after) (rw split at h) ranked in
    let le_one : t ≤ 1 = rw ((first y).0 py) at le in
    let low = (bounded x t is).0 in
    let t_one : t ≡ 1 = omega (arith, le_one, low) in (x, refl, (first x).1 (is ∙ ap some t_one))
