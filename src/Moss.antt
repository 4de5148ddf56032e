-- ===== src/Moss.antt =====
-- The merge operator of internal/database/pebble/ms_pebble.go: counters, space bitmaps and object
-- metadata in JSON. A byte string is a list of numbers below 256, `none` a nil slice or an error.
pub mod Bitmap
pub mod Version
pub mod Counter
mod Examples
use corgi.Base.{
  ℕ, zero, suc, ◌+◌, ◌-◌, ◌*◌, ◌%◌, ◌^◌, Bool, true, false, ◌&&◌, ◌||◌, List, [], ◌∷◌, ◌++◌, ltb,
  leb, ◌==◌, if◌then◌else◌, length, get_or, take, drop, tabulate, put_le, get_le, bit_and, bit_or,
  Option, none, some,
}

abbrev pub space_len : ℕ
space_len = 512

-- The difference of two numbers, as Go's int has it.
pub data ℤ : Type 0 where
  pos : ℕ → ℤ
  negsuc : ℕ → ℤ

unfoldable pub difference : ℕ → ℕ → ℤ
difference a b = if ltb a b then negsuc (b - a - 1) else pos (a - b)

abbrev pub is_zero : ℤ → Bool
is_zero (pos n) = n == 0
is_zero (negsuc n) = false

abbrev pub is_positive : ℤ → Bool
is_positive (pos n) = ltb 0 n
is_positive (negsuc n) = false

abbrev pub minus_one : ℤ
minus_one = negsuc 0

-- mossBitmapMerge: byte i of both halves.
unfoldable pub bitmap_merge : List ℕ → List ℕ → Option (List ℕ)
bitmap_merge existing incoming =
    let lo : ℕ → ℕ = λ i. get_or incoming i 0 in
    let hi : ℕ → ℕ = λ i. get_or incoming (i + space_len) 0 in
    let ci : ℕ → ℕ = λ i. bit_or (get_or existing i 0) (lo i) in
    let cj : ℕ → ℕ = λ i. bit_and (get_or existing (i + space_len) 0) (hi i) in
    if length incoming == 2 * space_len
    then (if length existing == space_len
        then some (tabulate space_len 0 (λ i. bit_and (ci i) (hi i)))
        else if length existing == 2 * space_len
        then some (
            tabulate space_len 0 (λ i. bit_and (ci i) (cj i))
            ++ tabulate space_len 0 (λ i. bit_or (ci i) (cj i)))
        else none)
    else none

-- The search that extractJSONField and hasJSONKey share: the index of the last byte of the first
-- match of `name` in the bytes at `i` and on, after `matched` bytes of it.
unfoldable pub find_name : List ℕ → ℕ → ℕ → List ℕ → Option ℕ
find_name name i matched [] = none
find_name name i matched (b ∷ bs) =
    let longer = find_name name (i + 1) (matched + 1) bs in
    let anew = find_name name (i + 1) 0 bs in
    if b == get_or name matched 0
    then (if matched + 1 == length name then some i else longer)
    else anew

-- The first ',' or '}' at `i` or later.
unfoldable pub find_end : ℕ → List ℕ → Option ℕ
find_end i [] = none
find_end i (b ∷ bs) = let rest = find_end (i + 1) bs in if b == 44 || b == 125 then some i else rest

unfoldable pub unquoted : List ℕ → ℕ → ℕ → Option (List ℕ)
unquoted data_bytes start end =
    if leb end start
    then none
    else if get_or data_bytes (end - 1) 0 == 34
    then (if leb (end - 1) (start + 2)
        then none
        else some (take (end - 1 - (start + 2)) (drop (start + 2) data_bytes)))
    else none

unfoldable pub extract_json_field : List ℕ → List ℕ → Option (List ℕ)
unfolding find_name find_end unquoted
extract_json_field data_bytes name = elim (find_name name 0 0 data_bytes) [
  | none ↦ none
  | some start ↦ elim (find_end start (drop start data_bytes)) [
    | none ↦ none
    | some end ↦ unquoted data_bytes start end
  ]
]

unfoldable pub has_json_key : List ℕ → List ℕ → Bool
unfolding find_name
has_json_key data_bytes name = elim (find_name name 0 0 data_bytes) [ none ↦ false | some i ↦ true ]

abbrev pub sync_stamp_name : List ℕ
sync_stamp_name = 34 ∷ 115 ∷ 121 ∷ 110 ∷ 99 ∷ 83 ∷ 116 ∷ 97 ∷ 109 ∷ 112 ∷ 34 ∷ 58 ∷ []

abbrev pub version_num_name : List ℕ
version_num_name = 34 ∷ 118 ∷ 101 ∷ 114 ∷ 115 ∷ 105 ∷ 111 ∷ 110 ∷ 78 ∷ 117 ∷ 109 ∷ 34 ∷ 58 ∷ []

abbrev pub delete_mark_name : List ℕ
delete_mark_name = 34 ∷ 100 ∷ 101 ∷ 108 ∷ 101 ∷ 116 ∷ 101 ∷ 77 ∷ 97 ∷ 114 ∷ 107 ∷ 34 ∷ 58 ∷ []

unfoldable pub count_hyphen : List ℕ → ℕ
count_hyphen [] = 0
count_hyphen (b ∷ bs) = if b == 45 then count_hyphen bs + 1 else count_hyphen bs

-- The loop of compareVersion and the comparison of the lengths after it.
unfoldable pub compare_bytes : List ℕ → List ℕ → ℤ
unfolding difference
compare_bytes [] [] = pos 0
compare_bytes [] (y ∷ ys) = pos 1
compare_bytes (x ∷ xs) [] = minus_one
compare_bytes (x ∷ xs) (y ∷ ys) =
    let c = difference y x in let rest = compare_bytes xs ys in if is_zero c then rest else c

unfoldable pub compare_version : Option (List ℕ) → Option (List ℕ) → ℤ
unfolding compare_bytes
compare_version none none = pos 0
compare_version none (some v2) = pos 1
compare_version (some v1) none = minus_one
compare_version (some v1) (some v2) = compare_bytes v1 v2

unfoldable pub compare_sync_stamp : Option (List ℕ) → Option (List ℕ) → ℤ
unfolding compare_version count_hyphen
compare_sync_stamp none none = pos 0
compare_sync_stamp none (some v2) = pos 1
compare_sync_stamp (some v1) none = minus_one
compare_sync_stamp (some v1) (some v2) =
    if ltb (count_hyphen v1) 2 then pos 1 else compare_version (some v1) (some v2)

-- countHyphen of a slice that may be nil.
unfoldable pub hyphens : Option (List ℕ) → ℕ
unfolding count_hyphen
hyphens none = 0
hyphens (some s) = count_hyphen s

-- The second half of mossJSONMerge, by versionNum and deleteMark.
unfoldable pub version_winner : List ℕ → List ℕ → List ℕ
version_winner existing incoming =
    let cmp =
      compare_version (extract_json_field existing version_num_name)
        (extract_json_field incoming version_num_name) in
    if is_zero cmp
    then existing
    else if is_positive cmp
    then incoming
    else if has_json_key existing delete_mark_name
    then incoming
    else existing

unfoldable pub json_merge : List ℕ → List ℕ → List ℕ
json_merge existing incoming =
    let new_sync_stamp = extract_json_field incoming sync_stamp_name in
    let old_sync_stamp = extract_json_field existing sync_stamp_name in
    let cmp = compare_sync_stamp old_sync_stamp new_sync_stamp in
    let by_version = version_winner existing incoming in
    if leb 2 (hyphens new_sync_stamp)
    then (if is_zero cmp then by_version else if is_positive cmp then incoming else existing)
    else by_version

unfoldable pub is_digit : ℕ → Bool
is_digit b = leb 48 b && leb b 57

unfoldable pub merge_values : List ℕ → List ℕ → List ℕ → Option (List ℕ)
merge_values key existing incoming =
    let b : ℕ → ℕ = λ i. get_or key i 0 in
    if length existing == 8 && length incoming == 8
    then some (put_le 8 ((get_le existing + get_le incoming) % 2 ^ 64))
    else if ltb 3 (length key) && b 0 == 46 && b 1 == 49 && b 2 == 46
    then bitmap_merge existing incoming
    else if ltb 1 (length key) && (b 0 == 42 || b 0 == 45 || is_digit (b 0))
    then some (json_merge existing incoming)
    else some incoming

pub record ValueMerger : Type 0 where
  pub key : List ℕ
  pub value : List ℕ

-- `false` is an error, after which the merger is left as it was.
unfoldable pub merge_newer : List ℕ → ValueMerger → Bool × ValueMerger
merge_newer value vm = elim (merge_values vm.key vm.value value) [
  | none ↦ (false, vm)
  | some merged ↦ (true, record vm { value = merged })
]

unfoldable pub merge_older : List ℕ → ValueMerger → Bool × ValueMerger
merge_older value vm = elim (merge_values vm.key value vm.value) [
  | none ↦ (false, vm)
  | some merged ↦ (true, record vm { value = merged })
]

unfoldable pub finish : ValueMerger → List ℕ
finish vm = vm.value
