-- ===== src/LimitRange/Quantities.antt =====
-- sirah/internal/limitrange/limitrange.c: amounts as texts. A text that is printed is a number and what
-- follows its digits. Of a text that is read there are two things: what `sscanf` answers for its number,
-- and of which suffixes `strstr` tells that it has them.
use sirah_c.Prelude.{
  ℕ, ◌*◌, ◌/◌, ◌%◌, ◌<◌, ◌≡◌, ap, Bool, Option, none, some, String, str_eq, ltb, if◌then◌else◌,
  arith, Bool-cases, inl, inr,
}

pub record Quantity : Type 0 where
  pub value : ℕ
  pub suffix : String

unfoldable pub format_resource : ℕ → Quantity
format_resource bytes =
    if ltb bytes 1024
    then record { value = bytes; suffix = "" }
    else (if ltb bytes 1048576
        then record { value = bytes / 1024; suffix = "Ki" }
        else (if ltb bytes 1073741824
            then record { value = bytes / 1048576; suffix = "Mi" }
            else record { value = bytes / 1073741824; suffix = "Gi" }))

-- The value of a `uint64_t`.
abbrev pub u64 : ℕ → ℕ
u64 n = n % 18446744073709551616

abbrev pub scaled : (String → Bool) → ℕ → ℕ
scaled has value =
    if has "Ki"
    then u64 (value * 1024)
    else (if has "Mi"
        then u64 (u64 (value * 1024) * 1024)
        else (if has "Gi" then u64 (u64 (u64 (value * 1024) * 1024) * 1024) else value))

unfoldable pub parse_resource : Option ℕ → (String → Bool) → Option ℕ
parse_resource none has = none
parse_resource (some value) has = some (scaled has value)

-- What is left when an amount is printed and read again.
abbrev pub reread : ℕ → Option ℕ
unfolding parse_resource format_resource
reread bytes =
    parse_resource (some (format_resource bytes).value) (str_eq (format_resource bytes).suffix)

-- The unit that an amount is printed in.
abbrev pub unit_of : ℕ → ℕ
unit_of bytes =
    if ltb bytes 1024
    then 1
    else (if ltb bytes 1048576
        then 1024
        else (if ltb bytes 1073741824 then 1048576 else 1073741824))

-- An amount that is printed and read again is what it was, less what is left over of its unit.
pub reread_lem :
    (bytes : ℕ)
    → bytes < 18446744073709551616
    → reread bytes ≡ some (bytes / unit_of bytes * unit_of bytes)
unfolding parse_resource format_resource
reread_lem bytes h = elim (Bool-cases (ltb bytes 1024)) [
  | inl small ↦ rw small (ap some (omega arith))
  | inr a ↦ elim (Bool-cases (ltb bytes 1048576)) [
    | inl ki ↦ rw (a, ki) (ap some (omega arith))
    | inr b ↦ elim (Bool-cases (ltb bytes 1073741824)) [
      | inl mi ↦ rw (a, b, mi) (ap some (omega arith))
      | inr gi ↦ rw (a, b, gi) (ap some (omega arith))
    ]
  ]
]
