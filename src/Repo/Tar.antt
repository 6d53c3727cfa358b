-- ===== src/Repo/Tar.antt =====
-- bobr-repo/src/tar_profile.rs: the fields of a header and the paths of the restricted tar profile.
-- A field that the source fills in place is returned.
pub mod Octal
pub mod Size
pub mod Path
pub mod Normalize
pub mod Nodes
pub mod Reader
pub mod Header
pub mod Extract
pub mod Archive
mod Tests
use bobr.Base.{
  ℕ, zero, suc, ◌+◌, ◌-◌, ◌*◌, ◌/◌, ◌%◌, ◌^◌, bit_and, bit_or, Bool, true, false, not, ◌&&◌, ◌||◌,
  Option, none, some, List, [], ◌∷◌, ◌++◌, reverse, length, take, drop, all, head?, ltb, leb, ◌==◌,
  if◌then◌else◌, bytes_eq, Result, ok, err, ◌>>=◌, ◌>>◌,
}
use bobr.Base.Bytes.{to_be_bytes}
use bobr.Repo.Error.{
  RepositoryError, tar_overflow, tar_invalid_field, tar_empty_field, tar_octal_too_large,
  tar_negative_size, tar_size_overflow, tar_size_not_octal, tar_bytes_after_nul, tar_absolute_path,
  tar_parent_component, tar_component_too_long, tar_empty_path, tar_path_limits,
  tar_field_too_small,
}

abbrev pub max_tar_path_bytes : ℕ
max_tar_path_bytes = 64 * 1024

abbrev pub max_tar_component_bytes : ℕ
max_tar_component_bytes = 255

abbrev pub max_tar_depth : ℕ
max_tar_depth = 1024

-- `value.checked_mul(base).and_then(|value| value.checked_add(digit))` on `u64`.
abbrev pub checked_push : ℕ → ℕ → ℕ → Option ℕ
checked_push base value digit =
    if ltb (value * base) (2 ^ 64)
    then (if ltb (value * base + digit) (2 ^ 64) then some (value * base + digit) else none)
    else none

-- `parse_octal`: the loop with `value`, `saw_digit` and `ended`, and the value after it.
unfoldable pub parse_octal_loop : List ℕ → ℕ → Bool → Bool → Result RepositoryError ℕ
parse_octal_loop [] value saw_digit ended = if saw_digit then ok value else err tar_empty_field
parse_octal_loop (byte ∷ field) value saw_digit ended =
    let skipped = parse_octal_loop field value saw_digit ended in
    let stopped = parse_octal_loop field value saw_digit true in
    let digit : Result RepositoryError ℕ = elim (checked_push 8 value (byte - 48)) [
      | none ↦ err tar_overflow
      | some next ↦ parse_octal_loop field next true ended
    ] in
    if byte == 32 && not saw_digit
    then skipped
    else if leb 48 byte && leb byte 55 && not ended
    then digit
    else if (byte == 0 || byte == 32) && saw_digit
    then stopped
    else err tar_invalid_field

unfoldable pub parse_octal : List ℕ → Result RepositoryError ℕ
parse_octal field = parse_octal_loop field 0 false false

unfoldable pub parse_octal_empty : List ℕ → Result RepositoryError (Unit {0})
parse_octal_empty field =
    if all (λ byte. byte == 0 || byte == 32) field
    then ok tt
    else (parse_octal field >>= λ value. ok tt)

-- The loop of `parse_size` over the bytes behind the first.
unfoldable pub parse_base256 : ℕ → List ℕ → Result RepositoryError ℕ
parse_base256 value [] = ok value
parse_base256 value (byte ∷ field) = elim (checked_push 256 value byte) [
  | none ↦ err tar_size_overflow
  | some next ↦ parse_base256 next field
]

-- `(1u64 << (3 * (field.len() - 1))) - 1`.
abbrev pub octal_max : ℕ → ℕ
octal_max size = 2 ^ (3 * (size - 1)) - 1

-- `none` is the panic on an empty field, which no caller passes.
unfoldable pub parse_size : List ℕ → Option (Result RepositoryError ℕ)
parse_size [] = none
parse_size (first ∷ field) = some (
    if bit_and first 0x80 == 0
    then parse_octal (first ∷ field)
    else if not (bit_and first 0x40 == 0)
    then err tar_negative_size
    else (parse_base256 (bit_and first 0x3f) field >>= λ value.
        if leb value (octal_max (length (first ∷ field)))
        then err tar_size_not_octal
        else ok value))

unfoldable pub nul_field : List ℕ → Result RepositoryError (List ℕ)
nul_field [] = ok []
nul_field (byte ∷ field) =
    let rest = nul_field field in
    if byte == 0
    then (if all (λ b. b == 0) field then ok [] else err tar_bytes_after_nul)
    else (rest >>= λ value. ok (byte ∷ value))

-- `format!("{value:0digits$o}")`. A `u64` has at most 22 octal digits.
unfoldable pub octal_digits : ℕ → ℕ → List ℕ
octal_digits zero value = []
octal_digits (suc fuel) value =
    let rest = octal_digits fuel (value / 8) in if value == 0 then [] else (48 + value % 8) ∷ rest

abbrev pub octal_text : ℕ → List ℕ
octal_text value = if value == 0 then 48 ∷ [] else reverse (octal_digits 22 value)

abbrev pub zeros : ℕ → List ℕ
zeros zero = []
zeros (suc n) = 48 ∷ zeros n

unfoldable pub format_octal : ℕ → ℕ → List ℕ
format_octal digits value = zeros (digits - length (octal_text value)) ++ octal_text value

-- `write_octal` for a field of `size` bytes.
unfoldable pub write_octal : ℕ → ℕ → Result RepositoryError (List ℕ)
write_octal size value =
    let text = format_octal (size - 1) value in
    if ltb (size - 1) (length text) then err tar_octal_too_large else ok (text ++ 0 ∷ [])

-- `bytes` with `0x80` set in the first, behind zeros that fill the field.
abbrev nul_bytes : ℕ → List ℕ
nul_bytes zero = []
nul_bytes (suc n) = 0 ∷ nul_bytes n

abbrev set_high_bit : List ℕ → List ℕ
set_high_bit [] = []
set_high_bit (byte ∷ bytes) = bit_or byte 0x80 ∷ bytes

-- `write_size` for a field of `size` bytes.
unfoldable pub write_size : ℕ → ℕ → Result RepositoryError (List ℕ)
write_size size value =
    if leb value (octal_max size)
    then write_octal size value
    else if ltb size 8
    then err tar_field_too_small
    else ok (set_high_bit (nul_bytes (size - 8) ++ to_be_bytes 8 value))

-- `path.split(|byte| *byte == b'/')`.
abbrev push_front : ℕ → List (List ℕ) → List (List ℕ)
push_front byte [] = (byte ∷ []) ∷ []
push_front byte (component ∷ components) = (byte ∷ component) ∷ components

unfoldable pub split_slash : List ℕ → List (List ℕ)
split_slash [] = [] ∷ []
split_slash (byte ∷ path) =
    let rest = split_slash path in if byte == b'/' then [] ∷ rest else push_front byte rest

-- `while path.last() == Some(&b'/') { path.pop(); }`.
abbrev pub is_empty : List ℕ → Bool
is_empty [] = true
is_empty (b ∷ bs) = false

unfoldable pub trim_slashes : List ℕ → List ℕ
trim_slashes [] = []
trim_slashes (byte ∷ path) =
    let rest = trim_slashes path in if byte == b'/' && is_empty rest then [] else byte ∷ rest

-- `if !normalized.is_empty() { normalized.push(b'/'); } normalized.extend_from_slice(component)`.
abbrev pub push_component : List ℕ → List ℕ → List ℕ
push_component normalized component =
    if is_empty normalized then component else normalized ++ b'/' ∷ component

-- The loop of `normalize_path` with `normalized` and `depth`.
unfoldable pub normalize_components :
    List (List ℕ) → List ℕ → ℕ → Result RepositoryError (List ℕ × ℕ)
normalize_components [] normalized depth = ok (normalized, depth)
normalize_components (component ∷ components) normalized depth =
    let skipped = normalize_components components normalized depth in
    let pushed =
      normalize_components components (push_component normalized component) (depth + 1) in
    if is_empty component || bytes_eq component (b'.' ∷ [])
    then skipped
    else if bytes_eq component (b'.' ∷ b'.' ∷ [])
    then err tar_parent_component
    else if ltb max_tar_component_bytes (length component)
    then err tar_component_too_long
    else pushed

abbrev pub starts_with_slash : List ℕ → Bool
starts_with_slash [] = false
starts_with_slash (b ∷ bs) = b == b'/'

unfoldable pub normalize_path : List ℕ → Bool → Result RepositoryError (List ℕ)
normalize_path path directory =
    if starts_with_slash path
    then err tar_absolute_path
    else (normalize_components (split_slash (if directory then trim_slashes path else path)) [] 0
        >>= λ result.
            if is_empty result.0
            then err tar_empty_path
            else if ltb max_tar_path_bytes (length result.0) || ltb max_tar_depth result.1
            then err tar_path_limits
            else ok result.0)

-- `ustar_path_fields`: the last position of a slash that leaves at most 155 bytes before it and at
-- most 100 behind it. `before` is what precedes `path` in the whole path.
unfoldable pub last_split : List ℕ → List ℕ → Option (List ℕ × List ℕ)
last_split before [] = none
last_split before (byte ∷ path) =
    let later = last_split (before ++ byte ∷ []) path in
    let here =
      if byte == b'/' && leb (length before) 155 && leb (length path) 100
      then some (path, before)
      else none in
    elim later [ some fields ↦ some fields | none ↦ here ]

unfoldable pub ustar_path_fields : List ℕ → Option (List ℕ × List ℕ)
ustar_path_fields path =
    if leb (length path) 100
    then some (path, [])
    else if ltb 256 (length path)
    then none
    else last_split [] path

-- The path of `parse_header`, from the fields `name` and `prefix`.
unfoldable pub header_path : List ℕ → List ℕ → List ℕ
header_path name prefix = if is_empty prefix then name else prefix ++ (b'/' ∷ name)
