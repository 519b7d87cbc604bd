-- ===== src/Common/Dict.antt =====
-- A JavaScript `Map` with text keys, as an association list in insertion order.
use Prim.Native.Nat.{ℕ, ◌+◌}
use Prim.Native.String.{String}
use mathlib.Core.Path.{◌≡◌, refl, subst}
use mathlib.Core.Logic.{inl, inr}
use mathlib.Core.Option.{Option, none, some}
use mathlib.Core.List.{List, [], ◌∷◌}
use native.Mathlib.Omega.{arith}
use text.Mathlib.Text.{◌==◌ as str_eq}
use text.Mathlib.TextEquality.{eq_iff}
use typescript_starter.Common.Tests.{if◌then◌else◌, Bool-cases}
use typescript_starter.Common.Lists.{All, sum_of}

abbrev pub Dict {ℓ} : Type ℓ → Type ℓ
Dict V = List (String × V)

module _ {ℓ} {V : Type ℓ} where
  -- `map.get(key)`
  unfoldable pub lookup : String → Dict V → Option V
  lookup key [] = none
  lookup key ((found, value) ∷ rest) = if str_eq found key then some value else lookup key rest

  -- `map.set(key, value)`: the entry keeps its place, and a new one comes last.
  unfoldable pub insert : String → V → Dict V → Dict V
  insert key value [] = (key, value) ∷ []
  insert key value ((found, old) ∷ rest) =
      if str_eq found key then (key, value) ∷ rest else (found, old) ∷ insert key value rest

  -- `map.delete(k)`: a key stands at most once in a `Map`; all its entries go.
  unfoldable pub remove : String → Dict V → Dict V
  remove k [] = []
  remove k ((j, w) ∷ m) = let rest = remove k m in if str_eq j k then rest else (j, w) ∷ rest

  pub lookup-insert :
      (key asked : String) (value : V) (m : Dict V)
      → lookup asked (insert key value m)
        ≡ (if str_eq key asked then some value else lookup asked m)
  unfolding lookup insert
  lookup-insert key asked value [] = refl
  lookup-insert key asked value ((found, old) ∷ rest) = ground (
    arith,
    lookup-insert key asked value rest,
    eq_iff found key,
    eq_iff found asked,
    eq_iff key asked,
  )

  pub lookup-remove :
      (k j : String) (m : Dict V)
      → lookup j (remove k m) ≡ (if str_eq k j then none else lookup j m)
  unfolding lookup remove
  lookup-remove k j [] = ground arith
  lookup-remove k j ((i, w) ∷ m) =
      ground (arith, lookup-remove k j m, eq_iff i k, eq_iff i j, eq_iff k j)

  -- What an absent key, and the value that a write replaces, contribute to a sum of the values.
  abbrev pub weight : (V → ℕ) → Option V → ℕ
  weight f none = 0
  weight f (some v) = f v

  abbrev pub total : (V → ℕ) → Dict V → ℕ
  total f m = sum_of (λ (e : String × V). f e.1) m

  pub total-insert :
      (f : V → ℕ) (k : String) (v : V) (m : Dict V)
      → total f (insert k v m) + weight f (lookup k m) ≡ total f m + f v
  unfolding insert lookup
  total-insert f k v [] = omega arith
  total-insert f k v ((j, w) ∷ m) = ground (arith, total-insert f k v m)

  abbrev pub Values {κ} : (V → Type κ) → Dict V → Type κ
  Values P m = All (λ (e : String × V). P e.1) m

  pub Values-insert {κ} :
      (P : V → Type κ) (k : String) (v : V) (m : Dict V)
      → P v
      → Values P m
      → Values P (insert k v m)
  unfolding insert
  Values-insert P k v [] p h = (p, tt)
  Values-insert P k v ((j, w) ∷ m) p (q, h) = elim (Bool-cases (str_eq j k)) [
    | inl same ↦ rw same (p, h)
    | inr other ↦ rw other (q, Values-insert P k v m p h)
  ]

  pub Values-lookup {κ} :
      (P : V → Type κ) (k : String) (m : Dict V) {v : V} → Values P m → lookup k m ≡ some v → P v
  unfolding lookup
  Values-lookup P k [] h e = cc
  Values-lookup P k ((j, w) ∷ m) {v} (q, h) e = elim (Bool-cases (str_eq j k)) [
    | inl same ↦
        let found : some w ≡ some v = rw same at e in let value : w ≡ v = cc in subst P value q
    | inr other ↦ Values-lookup P k m h (rw other at e)
  ]
