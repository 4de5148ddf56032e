-- ===== src/Alloc/Geometry.antt =====
-- Constants, extents, errors and masks of internal/fs/allocator_v3.go. An int64 is its bit
-- pattern, a number below 2 ^ 64, and the comparisons of int64 are read off the pattern. A uint64
-- is a number below 2 ^ 64.
pub mod Masks
use corgi.Base.{
  ℕ, zero, suc, ◌+◌, ◌-◌, ◌*◌, ◌/◌, ◌%◌, ◌^◌, Bool, true, false, ◌&&◌, ◌||◌, List, [], ◌∷◌, ltb,
  leb, ◌==◌, if◌then◌else◌, length,
}
use corgi.Base.Word.{ones}

abbrev pub bits_per_slot : ℕ
bits_per_slot = 64

abbrev pub slots_per_slotset : ℕ
slots_per_slotset = 8

abbrev pub l1_entry_width : ℕ
l1_entry_width = 2

abbrev pub l1_entry_mask : ℕ
l1_entry_mask = 3

abbrev pub l1_entry_full : ℕ
l1_entry_full = 0

abbrev pub l1_entry_partial : ℕ
l1_entry_partial = 1

abbrev pub l1_entry_free : ℕ
l1_entry_free = 3

abbrev pub l1_entries_per_slot : ℕ
l1_entries_per_slot = 32

abbrev pub bits_per_slotset : ℕ
bits_per_slotset = 512

abbrev pub bits_per_l1_slotset : ℕ
bits_per_l1_slotset = 131072

-- `Result` of internal/fs/block_device.go.
pub record Result : Type 0 where
  pub offset : ℕ
  pub size : ℕ

-- The sign of an int64, and signed order.
abbrev pub is_negative : ℕ → Bool
is_negative x = leb (2 ^ 63) x

abbrev pub signed_lt : ℕ → ℕ → Bool
signed_lt a b = ltb ((a + 2 ^ 63) % 2 ^ 64) ((b + 2 ^ 63) % 2 ^ 64)

-- int64 addition and subtraction wrap.
abbrev pub add64 : ℕ → ℕ → ℕ
add64 a b = (a + b) % 2 ^ 64

abbrev pub sub64 : ℕ → ℕ → ℕ
sub64 a b = (a + 2 ^ 64 - b) % 2 ^ 64

unfoldable pub min_int64 : ℕ → ℕ → ℕ
min_int64 a b = if signed_lt a b then a else b

unfoldable pub max_int64 : ℕ → ℕ → ℕ
max_int64 a b = if signed_lt b a then a else b

unfoldable pub align_up : ℕ → ℕ → ℕ
align_up v align = if align == 0 || is_negative align then v else (v + align - 1) / align * align

-- `true` where the Go function returns nil.
unfoldable pub validate_range : ℕ → ℕ → ℕ → Bool
validate_range total offset size =
    let end = add64 offset size in
    if is_negative offset
      || (is_negative size || size == 0)
      || signed_lt end offset
      || signed_lt total end
    then false
    else true

-- The valid bits of slot `index`: the last slot may hold less than 64.
unfoldable pub valid_word_mask : ℕ → List ℕ → ℕ → ℕ
valid_word_mask total l0 index =
    let rem = total % bits_per_slot in
    if ltb (index + 1) (length l0) then ones 64 else if rem == 0 then ones 64 else 2 ^ rem - 1

-- `width` ones from bit `shift` on; what a shift carries past bit 63 is lost.
unfoldable pub run_mask : ℕ → ℕ → ℕ
run_mask width shift =
    if width == 0
    then 0
    else if leb bits_per_slot width
    then ones 64
    else (2 ^ width - 1) * 2 ^ shift % 2 ^ 64

-- The bits of slot `word_index` that lie in [offset, end).
unfoldable pub range_mask : ℕ → ℕ → ℕ → ℕ
unfolding min_int64 max_int64 run_mask
range_mask offset end word_index =
    let word_start = word_index * bits_per_slot in
    let word_end = word_start + bits_per_slot in
    let start = max_int64 offset word_start in
    let e = min_int64 end word_end in run_mask (sub64 e start) (sub64 start word_start)

unfoldable pub append_last : List Result → Result → List Result
append_last [] r = r ∷ []
append_last (x ∷ []) r =
    if x.offset + x.size == r.offset then (record x { size = x.size + r.size }) ∷ [] else x ∷ r ∷ []
append_last (x ∷ y ∷ xs) r = x ∷ append_last (y ∷ xs) r

-- An extent that starts where the last one ends is merged into it.
unfoldable pub append_result : List Result → Result → List Result
unfolding append_last
append_result results r =
    if is_negative r.size || r.size == 0 then results else append_last results r

unfoldable pub extents_overlap : Result → Result → Bool
extents_overlap a b = ltb a.offset (b.offset + b.size) && ltb b.offset (a.offset + a.size)
