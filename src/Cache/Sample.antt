-- ===== src/Cache/Sample.antt =====
-- A store in memory and an encoding of values as texts, which show that what Cache/Redis asks of
-- Redis and of JSON can be had; the tests run on them.
use Prim.Native.Char.{Char, code}
use Prim.Native.String
use typescript_starter.Common.{
  ℕ, zero, suc, ◌+◌, ◌*◌, String, Option, none, some, List, [], ◌∷◌, Bool, true, false, ◌≡◌, ◌≢◌,
  refl, ap, ◌∙◌, ltb, ◌==◌, ◌>>=◌, is_some, if◌then◌else◌, str_eq, eq_iff, eq_refl, arith,
}
use typescript_starter.Common.Dict.{Dict, lookup, insert, remove, lookup-insert, lookup-remove}
use typescript_starter.Cache.Redis.{Redis, Json}

pub apart : (k j : String) → k ≢ j → str_eq k j ≡ false
apart k j h = ground (arith, eq_iff k j, h)

abbrev alive : ℕ → Option (String × ℕ) → Option String
alive now none = none
alive now (some (value, expiry)) = if ltb now expiry then some value else none

-- Each key with its value and the time at which it expires.
abbrev pub memory_redis : Redis
memory_redis = record {
  State = Dict (String × ℕ);
  read = λ now key s. alive now (lookup key s);
  write = λ now key value ttl s. insert key (value, now + 1000 * ttl) s;
  write_if_absent = λ now key value ttl s.
      if is_some (alive now (lookup key s))
      then (false, s)
      else (true, insert key (value, now + 1000 * ttl) s);
  erase = λ key s. remove key s;
  read-write = λ now later key value ttl s h.
      rw (lookup-insert key key (value, now + 1000 * ttl) s, eq_refl key) refl;
  read-write_ne = λ now later key asked value ttl s h.
      rw (lookup-insert key asked (value, now + 1000 * ttl) s, apart key asked h) refl;
  read-erase = λ later key s. rw (lookup-remove key key s, eq_refl key) refl;
  read-erase_ne = λ later key asked s h. rw (lookup-remove key asked s, apart key asked h) refl;
  write_if_absent-eq = λ now key value ttl s. refl;
}

-- A value as a text before some other text, and the way back.
pub record Codec (A : Type 0) : Type 0 where
  pub put : A → String → String
  pub take : String → Option (A × String)
  pub take-put : (a : A) (rest : String) → take (put a rest) ≡ some (a, rest)

-- Each character follows a plus sign, and a full stop ends the text.
unfoldable pub put_text : String → String → String
put_text String.[] rest = String.◌∷◌ (String.char_at "." 0) rest
put_text (String.◌∷◌ c s) rest = String.◌∷◌ (String.char_at "+" 0) (String.◌∷◌ c (put_text s rest))

abbrev behind : Char → Option (String × String) → Option (String × String)
behind c none = none
behind c (some (s, rest)) = some (String.◌∷◌ c s, rest)

pub take_text : String → Option (String × String)
take_text String.[] = none
take_text (String.◌∷◌ d String.[]) = if code d == b'.' then some ("", "") else none
take_text (String.◌∷◌ d (String.◌∷◌ c s)) =
    let later = take_text s in if code d == b'.' then some ("", String.◌∷◌ c s) else behind c later

pub take-put_text : (s rest : String) → take_text (put_text s rest) ≡ some (s, rest)
unfolding put_text take_text
take-put_text String.[] String.[] = refl
take-put_text String.[] (String.◌∷◌ c rest) = refl
take-put_text (String.◌∷◌ c s) rest = rw (take-put_text s rest) refl

pub text_codec : Codec String
unfolding put_text take_text
text_codec = record { put = put_text; take = take_text; take-put = take-put_text }

-- The codec of a type whose values another type's values stand for.
pub via :
    {A B : Type 0} (to : A → B) (from : B → A) → ((a : A) → from (to a) ≡ a) → Codec B → Codec A
via to from back c = record {
  put = λ a rest. c.put (to a) rest;
  take = λ s. c.take s >>= λ (b, rest). some (from b, rest);
  take-put = λ a rest. rw (c.take-put (to a) rest) (ap (λ x. some (x, rest)) (back a));
}

pub pair_codec : {A B : Type 0} → Codec A → Codec B → Codec (A × B)
pair_codec c d = record {
  put = λ (a, b) rest. c.put a (d.put b rest);
  take = λ s. c.take s >>= λ (a, t). d.take t >>= λ (b, rest). some ((a, b), rest);
  take-put = λ (a, b) rest. rw (c.take-put a (d.put b rest), d.take-put b rest) refl;
}

unfoldable pub marks : ℕ → String
marks zero = ""
marks (suc n) = String.◌∷◌ (String.char_at "i" 0) (marks n)

pub count_marks : String → ℕ
count_marks String.[] = 0
count_marks (String.◌∷◌ c s) = suc (count_marks s)

pub count_marks-marks : (n : ℕ) → count_marks (marks n) ≡ n
unfolding marks count_marks
count_marks-marks zero = refl
count_marks-marks (suc n) = ap suc (count_marks-marks n)

pub number_codec : Codec ℕ
unfolding marks count_marks
number_codec = via marks count_marks count_marks-marks text_codec

abbrev flag_text : Bool → String
flag_text true = "true"
flag_text false = "false"

flag-text : (b : Bool) → str_eq (flag_text b) "true" ≡ b
flag-text true = refl
flag-text false = refl

pub flag_codec : Codec Bool
flag_codec = via flag_text (λ s. str_eq s "true") flag-text text_codec

abbrev option_pair : Option String → Bool × String
option_pair none = (false, "")
option_pair (some s) = (true, s)

option-pair : (o : Option String) → (if (option_pair o).0 then some (option_pair o).1 else none) ≡ o
option-pair none = refl
option-pair (some s) = refl

pub option_codec : Codec (Option String)
option_codec =
    via option_pair (λ p. if p.0 then some p.1 else none) option-pair
      (pair_codec flag_codec text_codec)

list_text : List String → String
unfolding put_text
list_text [] = ""
list_text (s ∷ ss) = put_text s (list_text ss)

abbrev grow : Char → List String → List String
grow c [] = []
grow c (s ∷ ss) = String.◌∷◌ c s ∷ ss

texts_of : String → List String
texts_of String.[] = []
texts_of (String.◌∷◌ d String.[]) = if code d == b'.' then "" ∷ [] else []
texts_of (String.◌∷◌ d (String.◌∷◌ c s)) =
    let next = texts_of (String.◌∷◌ c s) in
    let later = texts_of s in if code d == b'.' then "" ∷ next else grow c later

texts_of-put_text : (s rest : String) → texts_of (put_text s rest) ≡ s ∷ texts_of rest
unfolding put_text texts_of
texts_of-put_text String.[] String.[] = refl
texts_of-put_text String.[] (String.◌∷◌ c rest) = refl
texts_of-put_text (String.◌∷◌ c s) rest = rw (texts_of-put_text s rest) refl

texts_of-list_text : (ss : List String) → texts_of (list_text ss) ≡ ss
unfolding list_text texts_of
texts_of-list_text [] = refl
texts_of-list_text (s ∷ ss) =
    texts_of-put_text s (list_text ss) ∙ ap (λ xs. s ∷ xs) (texts_of-list_text ss)

pub list_codec : Codec (List String)
unfolding list_text texts_of
list_codec = via list_text texts_of texts_of-list_text text_codec

parse_with : {A : Type 0} → Codec A → String → Option A
parse_with c String.[] = none
parse_with c (String.◌∷◌ d s) = c.take s >>= λ (a, rest). some a

pub json_of : {A : Type 0} → Codec A → Json A
unfolding parse_with
json_of c = record {
  stringify = λ a. String.◌∷◌ (String.char_at "{" 0) (c.put a "");
  parse = λ s. parse_with c s;
  parse-stringify = λ a. rw (c.take-put a "") refl;
  stringify-nonempty = λ a h. cc;
}
