-- ===== src/Audit/Redaction/Clean.antt =====
-- What redactAuditValue of audit/audit.redaction.ts leaves in an audit event.
use Prim.Native.Char.{code}
use typescript_starter.Common.{
  ℕ, ◌+◌, ◌-◌, ◌≤◌, String, Bool, true, false, ◌||◌, ◌≡◌, refl, inl, inr, ltb, leb, ◌==◌, str_eq,
  if◌then◌else◌, Bool-cases, arith,
}
use typescript_starter.Common.Text.{utf16_length}
use typescript_starter.Audit.Redaction.{
  Value, null, text, number, flag, date, array, object, other, Items, nil, cons, Fields, end, field,
  is_control, strip_control, slice_units, bounded_string, is_sensitive, put_field, max_depth,
  max_array, max_string, redact_audit_value, redact_items, redact_fields,
}

unfoldable pub has_control : String → Bool
has_control String.[] = false
has_control (String.◌∷◌ c s) = is_control (code c) || has_control s

-- At most so many UTF-16 units, and no control character.
abbrev pub IsPlain : ℕ → String → Type 0
IsPlain max s = (utf16_length s ≤ max) × (has_control s ≡ false)

unfoldable pub count_items : Items → ℕ
count_items nil = 0
count_items (cons x xs) = count_items xs + 1

unfoldable pub count_fields : Fields → ℕ
count_fields end = 0
count_fields (field k v fs) = count_fields fs + 1

abbrev mutual
  -- Fit for the trail, at a depth: texts are plain, collections are small and not too deep, and
  -- what stands under a sensitive key is masked.
  pub Clean : Value → ℕ → Type 0
  Clean null depth = Unit {0}
  Clean (text s) depth = IsPlain max_string s
  Clean (number n) depth = Unit {0}
  Clean (flag b) depth = Unit {0}
  Clean (date s) depth = ⊥
  Clean (array xs) depth =
      (depth ≤ max_depth) × (count_items xs ≤ max_array) × CleanItems xs (depth + 1)
  Clean (object fs) depth =
      (depth ≤ max_depth) × (count_fields fs ≤ 100) × CleanFields fs (depth + 1)
  Clean (other s) depth = ⊥

  pub CleanItems : Items → ℕ → Type 0
  CleanItems nil depth = Unit {0}
  CleanItems (cons x xs) depth = Clean x depth × CleanItems xs depth

  pub CleanFields : Fields → ℕ → Type 0
  CleanFields end depth = Unit {0}
  CleanFields (field k v fs) depth =
      IsPlain 100 k
      × (is_sensitive k ≡ true → v ≡ text "[REDACTED]")
      × Clean v depth
      × CleanFields fs depth

abbrev mutual
  -- The dates print as plain texts.
  pub DatesFit : Value → Type 0
  DatesFit null = Unit {0}
  DatesFit (text s) = Unit {0}
  DatesFit (number n) = Unit {0}
  DatesFit (flag b) = Unit {0}
  DatesFit (date s) = IsPlain max_string s
  DatesFit (array xs) = ItemsFit xs
  DatesFit (object fs) = FieldsFit fs
  DatesFit (other s) = Unit {0}

  pub ItemsFit : Items → Type 0
  ItemsFit nil = Unit {0}
  ItemsFit (cons x xs) = DatesFit x × ItemsFit xs

  pub FieldsFit : Fields → Type 0
  FieldsFit end = Unit {0}
  FieldsFit (field k v fs) = DatesFit v × FieldsFit fs

has_control-strip_control : (s : String) → has_control (strip_control s) ≡ false
unfolding has_control strip_control
has_control-strip_control String.[] = refl
has_control-strip_control (String.◌∷◌ c s) = ground (arith, has_control-strip_control s)

slice_units-IsPlain :
    (s : String) (max : ℕ) → has_control s ≡ false → IsPlain max (slice_units max s)
unfolding has_control slice_units utf16_length
slice_units-IsPlain String.[] max h = (omega arith, refl)
slice_units-IsPlain (String.◌∷◌ c s) max h =
    let later : has_control s ≡ false = ground arith in
    elim (Bool-cases (leb 0x10000 (code c))) [
      | inl wide ↦
          let (short, plain) = slice_units-IsPlain s (max - 2) later in
          rw (wide) (elim (Bool-cases (leb 2 max)) [
            | inl fits ↦ rw (fits) (ground (arith, short, wide), ground (arith, plain, h))
            | inr full ↦ rw (full) (omega arith, refl)
          ])
      | inr narrow ↦
          let (short, plain) = slice_units-IsPlain s (max - 1) later in
          rw (narrow) (elim (Bool-cases (leb 1 max)) [
            | inl fits ↦ rw (fits) (ground (arith, short, narrow), ground (arith, plain, h))
            | inr full ↦ rw (full) (omega arith, refl)
          ])
    ]

bounded_string-IsPlain : (s : String) (max : ℕ) → IsPlain max (bounded_string s max)
unfolding bounded_string
bounded_string-IsPlain s max =
    slice_units-IsPlain (strip_control s) max (has_control-strip_control s)

put_field-Clean :
    (k : String) (v : Value) (fs : Fields) (depth : ℕ)
    → IsPlain 100 k
    → (is_sensitive k ≡ true → v ≡ text "[REDACTED]")
    → Clean v depth
    → CleanFields fs depth
    → CleanFields (put_field k v fs) depth
unfolding put_field
put_field-Clean k v end depth plain masked clean h = (plain, masked, clean, tt)
put_field-Clean k v (field j w fs) depth plain masked clean (pj, mj, cj, h) =
    elim (Bool-cases (str_eq j k)) [
      | inl same ↦ rw same (plain, masked, clean, h)
      | inr differs ↦ rw differs (pj, mj, cj, put_field-Clean k v fs depth plain masked clean h)
    ]

count-put_field :
    (k : String) (v : Value) (fs : Fields) → count_fields (put_field k v fs) ≤ count_fields fs + 1
unfolding put_field count_fields
count-put_field k v end = omega arith
count-put_field k v (field j w fs) = ground (arith, count-put_field k v fs)

count-redact_fields :
    (fs : Fields) (left depth : ℕ) (result : Fields)
    → count_fields (redact_fields fs left depth result) ≤ count_fields result + left
unfolding redact_fields
count-redact_fields end left depth result = omega arith
count-redact_fields (field raw_key entry fs) left depth result =
    let key = bounded_string raw_key 100 in
    let value = if is_sensitive key then text "[REDACTED]" else redact_audit_value entry depth in
    elim (Bool-cases (left == 0)) [
      | inl done ↦ rw done (omega arith)
      | inr more ↦ rw more (
          ground (
            arith,
            more,
            count-put_field key value result,
            count-redact_fields fs (left - 1) depth (put_field key value result),
          ))
    ]

fields_bound : (fs : Fields) (depth : ℕ) → count_fields (redact_fields fs 100 depth end) ≤ 100
unfolding count_fields
fields_bound fs depth = omega (arith, count-redact_fields fs 100 depth end)

count-redact_items : (xs : Items) (left depth : ℕ) → count_items (redact_items xs left depth) ≤ left
unfolding redact_items count_items
count-redact_items nil left depth = omega arith
count-redact_items (cons x xs) left depth = ground (arith, count-redact_items xs (left - 1) depth)

-- Past the greatest depth only the mark of a cut is left.
cut-Clean :
    (v : Value) (depth : ℕ)
    → (depth ≤ max_depth → Clean v depth)
    → Clean (if ltb max_depth depth then text "[TRUNCATED]" else v) depth
unfolding utf16_length has_control
cut-Clean v depth h = elim (Bool-cases (ltb max_depth depth)) [
  | inl deep ↦ rw deep (omega arith, refl)
  | inr shallow ↦ rw shallow (h (ground arith))
]

masked-IsPlain : IsPlain max_string "[REDACTED]"
unfolding utf16_length has_control
masked-IsPlain = (omega arith, refl)

-- What the loop stores under a key.
abbrev stored : String → Value → Value
stored key redacted = if is_sensitive key then text "[REDACTED]" else redacted

stored-masked :
    (key : String) (v : Value) → is_sensitive key ≡ true → stored key v ≡ text "[REDACTED]"
stored-masked key v h = rw h refl

stored-Clean : (key : String) (v : Value) (depth : ℕ) → Clean v depth → Clean (stored key v) depth
stored-Clean key v depth h = elim (Bool-cases (is_sensitive key)) [
  | inl yes_it_is ↦ rw yes_it_is masked-IsPlain
  | inr open_key ↦ rw open_key h
]

mutual
  unfolding redact_audit_value

  redact-Clean : (v : Value) (depth : ℕ) → DatesFit v → Clean (redact_audit_value v depth) depth
  redact-Clean null depth fit = cut-Clean null depth (λ h. tt)
  redact-Clean (text s) depth fit =
      cut-Clean (text (bounded_string s max_string)) depth
        (λ h. bounded_string-IsPlain s max_string)
  redact-Clean (number n) depth fit = cut-Clean (number n) depth (λ h. tt)
  redact-Clean (flag b) depth fit = cut-Clean (flag b) depth (λ h. tt)
  redact-Clean (date s) depth fit = cut-Clean (text s) depth (λ h. fit)
  redact-Clean (array xs) depth fit =
      cut-Clean (array (redact_items xs max_array (depth + 1))) depth (λ h. (
        h,
        count-redact_items xs max_array (depth + 1),
        redact_items-Clean xs max_array (depth + 1) fit,
      ))
  redact-Clean (object fs) depth fit =
      cut-Clean (object (redact_fields fs 100 (depth + 1) end)) depth
        (λ h. (h, fields_bound fs (depth + 1), redact_fields-Clean fs 100 (depth + 1) end fit tt))
  redact-Clean (other s) depth fit =
      cut-Clean (text (bounded_string s max_string)) depth
        (λ h. bounded_string-IsPlain s max_string)

  redact_items-Clean :
      (xs : Items) (left depth : ℕ) → ItemsFit xs → CleanItems (redact_items xs left depth) depth
  redact_items-Clean nil left depth fit = tt
  redact_items-Clean (cons x xs) left depth (fit, rest) =
      let here = redact-Clean x depth fit in
      let later = redact_items-Clean xs (left - 1) depth rest in
      elim (Bool-cases (left == 0)) [ inl done ↦ rw done tt | inr more ↦ rw more (here, later) ]

  redact_fields-Clean :
      (fs : Fields) (left depth : ℕ) (result : Fields)
      → FieldsFit fs
      → CleanFields result depth
      → CleanFields (redact_fields fs left depth result) depth
  redact_fields-Clean end left depth result fit clean = clean
  redact_fields-Clean (field raw_key entry fs) left depth result (fit, rest) clean =
      let key = bounded_string raw_key 100 in
      let value = stored key (redact_audit_value entry depth) in
      let value_clean =
        stored-Clean key (redact_audit_value entry depth) depth (redact-Clean entry depth fit) in
      let next =
        put_field-Clean key value result depth (bounded_string-IsPlain raw_key 100)
          (stored-masked key (redact_audit_value entry depth)) value_clean clean in
      let later = redact_fields-Clean fs (left - 1) depth (put_field key value result) rest next in
      elim (Bool-cases (left == 0)) [ inl done ↦ rw done clean | inr more ↦ rw more later ]
