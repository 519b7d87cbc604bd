-- ===== src/Common/Text.antt =====
-- The JavaScript string functions that the program uses, over native text. Case conversion is that
-- of ASCII letters; other characters stay as they are.
use Prim.Native.Nat.{ℕ, zero, suc, ◌+◌, ◌-◌}
use Prim.Native.Char.{Char, code}
use Prim.Native.String
use Prim.Native.String.{String, [], ◌∷◌, char_at}
use mathlib.Core.Path.{◌≡◌, refl, sym, ap, ◌∙◌}
use mathlib.Core.Logic.{◌≢◌, inl, inr}
use mathlib.Core.Bool.{Bool, true, false, not, ◌&&◌, ◌||◌}
use mathlib.Core.List.{List}
use mathlib.Core.Option.{Option, none, some}
use native.Mathlib.Omega.{arith}
use text.Mathlib.Text.{find?}
use text.Mathlib.TextLemmas.{cons-append, head-eq_of_cons-eq, tail-eq_of_cons-eq}
use typescript_starter.Common.Tests.{is_some, or_else, ◌>>=◌, leb, ◌==◌, Bool-cases, if◌then◌else◌}

upper_char : Char → Char
upper_char c =
    if leb b'a' (code c) && leb (code c) b'z'
    then char_at "ABCDEFGHIJKLMNOPQRSTUVWXYZ" (code c - b'a')
    else c

-- `s.toUpperCase()`
unfoldable pub to_upper : String → String
unfolding upper_char
to_upper [] = []
to_upper (c ∷ s) = upper_char c ∷ to_upper s

lower_char : Char → Char
lower_char c =
    if leb b'A' (code c) && leb (code c) b'Z'
    then char_at "abcdefghijklmnopqrstuvwxyz" (code c - b'A')
    else c

-- `s.toLowerCase()`
unfoldable pub to_lower : String → String
unfolding lower_char
to_lower [] = []
to_lower (c ∷ s) = lower_char c ∷ to_lower s

-- The white space of `trim` and of `\s`.
abbrev pub is_space : ℕ → Bool
is_space c =
    c == 32
    || leb 9 c && leb c 13
    || c == 0xa0
    || c == 0x1680
    || leb 0x2000 c && leb c 0x200a
    || leb 0x2028 c && leb c 0x2029
    || c == 0x202f
    || c == 0x205f
    || c == 0x3000
    || c == 0xfeff

trim_start : String → String
trim_start [] = []
trim_start (c ∷ s) = let rest = trim_start s in if is_space (code c) then rest else c ∷ s

trim_end_char : Char → String → String
trim_end_char c [] = if is_space (code c) then [] else c ∷ []
trim_end_char c (d ∷ s) = c ∷ d ∷ s

trim_end : String → String
unfolding trim_end_char
trim_end [] = []
trim_end (c ∷ s) = trim_end_char c (trim_end s)

-- `s.trim()`
unfoldable pub trim : String → String
unfolding trim_start trim_end
trim s = trim_end (trim_start s)

add_char : Char → List String → List String
add_char c List.[] = List.◌∷◌ (c ∷ []) List.[]
add_char c (List.◌∷◌ p ps) = List.◌∷◌ (c ∷ p) ps

-- `s.split(separator)` at every character that satisfies a test.
unfoldable pub split_at : (ℕ → Bool) → String → List String
unfolding add_char
split_at sep [] = List.◌∷◌ [] List.[]
split_at sep (c ∷ s) =
    let parts = split_at sep s in if sep (code c) then List.◌∷◌ [] parts else add_char c parts

-- `s.slice(0, n)`
unfoldable pub first_chars : ℕ → String → String
first_chars zero s = []
first_chars (suc n) [] = []
first_chars (suc n) (c ∷ s) = c ∷ first_chars n s

-- The characters of `s` from the start that satisfy a test.
unfoldable pub leading : (ℕ → Bool) → String → String
leading p [] = []
leading p (c ∷ s) = let rest = leading p s in if p (code c) then c ∷ rest else []

-- `s.length`: UTF-16 code units.
unfoldable pub utf16_length : String → ℕ
utf16_length [] = 0
utf16_length (c ∷ s) = (if leb 0x10000 (code c) then 2 else 1) + utf16_length s

-- `s.includes(t)`
abbrev pub includes : String → String → Bool
includes s t = is_some (find? s t)

-- `s.replace(/^(['"])(.*)\1$/, '$2')`: one pair of equal quotes round the text goes. The pattern's
-- `.` takes no line end, so a text with one stays.
has_line_end : String → Bool
has_line_end [] = false
has_line_end (c ∷ s) =
    code c == 10 || code c == 13 || code c == 0x2028 || code c == 0x2029 || has_line_end s

-- The text before its last character, if that is `q`.
before_last : ℕ → String → Option String
before_last q [] = none
before_last q (c ∷ []) = if code c == q then some [] else none
before_last q (c ∷ d ∷ s) = before_last q (d ∷ s) >>= λ rest. some (c ∷ rest)

abbrev is_quote : ℕ → Bool
is_quote c = c == b'"' || c == 39

unfoldable pub strip_quotes : String → String
unfolding has_line_end before_last
strip_quotes [] = []
strip_quotes (c ∷ s) =
    if is_quote (code c) && not (has_line_end s)
    then or_else (before_last (code c) s) (c ∷ s)
    else c ∷ s

-- The rest of the text behind a prefix of lower-case letters, in any case of its letters.
unfoldable pub after_prefix : String → String → Option String
unfolding lower_char
after_prefix [] s = some s
after_prefix (p ∷ ps) [] = none
after_prefix (p ∷ ps) (c ∷ s) = if code (lower_char c) == code p then after_prefix ps s else none

abbrev pub starts_with_space : String → Bool
starts_with_space [] = false
starts_with_space (c ∷ s) = is_space (code c)

-- `s.replace(/^apikey\s+/i, '')`
unfoldable pub strip_apikey : String → String
unfolding after_prefix trim_start
strip_apikey s = elim (after_prefix "apikey" s) [
  | none ↦ s
  | some rest ↦ if starts_with_space rest then trim_start rest else s
]

-- `s.startsWith(prefix)`
unfoldable pub starts_with : String → String → Bool
starts_with [] s = true
starts_with (p ∷ ps) [] = false
starts_with (p ∷ ps) (c ∷ s) = code c == code p && starts_with ps s

-- Two texts differ at a place that both have.
abbrev pub clash : String → String → Bool
clash [] q = false
clash (c ∷ p) [] = false
clash (c ∷ p) (d ∷ q) = not (code c == code d) || clash p q

-- Texts that clash still differ with anything behind them: cache keys with such prefixes differ.
pub clash-append : (p q x y : String) → clash p q ≡ true → String.◌++◌ p x ≢ String.◌++◌ q y
clash-append [] q x y h e = cc
clash-append (c ∷ p) [] x y h e = cc
clash-append (c ∷ p) (d ∷ q) x y h e =
    let e1 = sym (cons-append c p x) ∙ e ∙ cons-append d q y in
    let same : c ≡ d = head-eq_of_cons-eq e1 in
    elim (Bool-cases (code c == code d)) [
      | inl k ↦ clash-append p q x y (rw k at h) (tail-eq_of_cons-eq e1)
      | inr k ↦ let other = ap code same in absurd (ground arith)
    ]

texts_work : (to_upper (trim "  t1-a ") ≡ "T1-A") × (to_lower "QuOta" ≡ "quota")
unfolding to_upper trim to_lower
texts_work = (refl, refl)

split_works : split_at (λ c. c == b'|') "metro|M1" ≡ List.◌∷◌ "metro" (List.◌∷◌ "M1" List.[])
unfolding split_at
split_works = refl
