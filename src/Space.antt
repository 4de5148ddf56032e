-- ===== src/Space.antt =====
-- internal/fs/block_device.go: the persisted bitmap of a block device, in spaces of 4096 blocks, one
-- value of 512 bytes each, the first block of a byte in its highest bit. Sizes and offsets are int64
-- that are not negative where no guard is written out, and offset + size is below 2^63;
-- fit_block and space_key_count have the wrap-around of int64.
pub mod Marking
pub mod Values
pub mod Merges
pub mod Updates
pub mod Device
pub mod Load
pub mod Bytes
pub mod Restore
pub mod Keys
pub mod Persist
pub mod Grants
pub mod Results
pub mod Writes
pub mod Bits
pub mod Staging
pub mod Releases
pub mod Restart
mod ReleaseExamples
mod Examples
use corgi.Base.{
  ℕ, zero, suc, ◌+◌, ◌-◌, ◌*◌, ◌/◌, ◌%◌, ◌^◌, Bool, true, false, not, ◌||◌, ◌&&◌, List, [], ◌∷◌,
  ◌++◌, ltb, leb, ◌==◌, if◌then◌else◌, length, get_or, set, replicate, Option, none, some, bit_and,
  bit_or, bit_xor, put_le,
}
use corgi.Base.Word.{complement}
use corgi.Alloc.Geometry.{Result, is_negative, add64, sub64}
use corgi.Alloc.Store.{and_not}

abbrev pub block_size : ℕ
block_size = 4096

abbrev pub min_alloc_size : ℕ
min_alloc_size = 1024 * 1024

abbrev pub space_size : ℕ
space_size = 2 ^ 24

abbrev pub space_len : ℕ
space_len = space_size / block_size / 8

abbrev pub blocks_per_space : ℕ
blocks_per_space = space_size / block_size

-- The quotient of an int64 and a positive constant, which Go rounds toward zero.
abbrev pub div64 : ℕ → ℕ → ℕ
div64 x d = if is_negative x then (2 ^ 64 - (2 ^ 64 - x) / d) % 2 ^ 64 else x / d

-- The remainder is 0 for a negative number where it is for its absolute value.
unfoldable pub fit_block : ℕ → ℕ
fit_block size =
    if size % block_size == 0 then size else (div64 size block_size + 1) * block_size % 2 ^ 64

-- The loop of mergeResults, with `cur`.
unfoldable pub merge_from : Result → List Result → List Result
merge_from cur [] = cur ∷ []
merge_from cur (n ∷ ns) =
    let joined = merge_from (record cur { size = add64 cur.size n.size }) ns in
    let apart = cur ∷ merge_from n ns in
    if add64 cur.offset cur.size == n.offset then joined else apart

unfoldable pub merge_results : List Result → List Result
unfolding merge_from
merge_results [] = []
merge_results (r ∷ rs) = merge_from r rs

unfoldable pub byte_results_to_block_results : List Result → List Result
unfolding fit_block
byte_results_to_block_results [] = []
byte_results_to_block_results (r ∷ rs) =
    record { offset = div64 r.offset block_size; size = div64 (fit_block r.size) block_size }
    ∷ byte_results_to_block_results rs

-- The two byte strings, of the offsets and of the sizes.
unfoldable pub encode_results : List Result → List ℕ × List ℕ
encode_results [] = ([], [])
encode_results (r ∷ rs) =
    let (o, l) = encode_results rs in (put_le 8 r.offset ++ o, put_le 8 r.size ++ l)

-- copy into `n` zero bytes.
unfoldable pub copy_into : ℕ → List ℕ → List ℕ
copy_into zero xs = []
copy_into (suc n) [] = 0 ∷ copy_into n []
copy_into (suc n) (x ∷ xs) = x ∷ copy_into n xs

unfoldable pub normalize_space_value : List ℕ → List ℕ
normalize_space_value value = copy_into space_len value

-- value[byteIndex] |= 1 << bitIndex, or &^=.
abbrev pub set_space_bit : Bool → ℕ → List ℕ → List ℕ
set_space_bit allocated bit value =
    let old = get_or value (bit / 8) 0 in
    let mask = 2 ^ (7 - bit % 8) in
    set value (bit / 8) (if allocated then bit_or old mask else and_not old mask)

-- The loop of setSpaceBits from block `bit` on, `blocks` rounds left.
unfoldable pub set_space_bits : Bool → ℕ → ℕ → List ℕ → List ℕ
set_space_bits allocated bit zero value = value
set_space_bits allocated bit (suc blocks) value =
    set_space_bits allocated (bit + 1) blocks (set_space_bit allocated bit value)

-- value[i] |= 1 << (7-j), or ^=, on the byte.
abbrev pub mark_bit : Bool → ℕ → ℕ → ℕ
mark_bit allocated j x = if allocated then bit_or x (2 ^ (7 - j)) else bit_xor x (2 ^ (7 - j))

-- for j := lo + n - 1; j >= lo; j--.
unfoldable pub mark_down : Bool → ℕ → ℕ → ℕ → ℕ
mark_down allocated lo zero x = x
mark_down allocated lo (suc n) x = mark_down allocated lo n (mark_bit allocated (lo + n) x)

-- for j := j; j < j + n; j++.
unfoldable pub mark_up : Bool → ℕ → ℕ → ℕ → ℕ
mark_up allocated j zero x = x
mark_up allocated j (suc n) x = mark_up allocated (j + 1) n (mark_bit allocated j x)

-- The first and the last byte that change, the first bit in the first and the end in the last.
pub record Marks : Type 0 where
  pub start : ℕ
  pub end : ℕ
  pub bit_start : ℕ
  pub bit_end : ℕ

-- What becomes of byte `x` at index i.
unfoldable pub mark_byte : Bool → Marks → ℕ → ℕ → ℕ
mark_byte allocated m i x =
    if not (i == m.start) && not (i == m.end)
    then (if allocated then 255 else 0)
    else if i == m.start
    then mark_down allocated m.bit_start (8 - m.bit_start) x
    else mark_up allocated 0 m.bit_end x

-- for i := i; i <= m.end; i++, `rounds` left, in the half that begins at `base`.
unfoldable pub mark_bytes : Bool → Marks → ℕ → ℕ → ℕ → List ℕ → List ℕ
mark_bytes allocated m base i zero value = value
mark_bytes allocated m base i (suc rounds) value =
    mark_bytes allocated m base (i + 1) rounds
      (set value (i + base) (mark_byte allocated m i (get_or value (i + base) 0)))

abbrev pub blank_value : List ℕ
blank_value = replicate space_len 0 ++ replicate space_len 255

unfoldable pub simple_space_update_value : Bool → Marks → List ℕ
simple_space_update_value allocated m =
    let base = if allocated then 0 else space_len in
    if m.end == m.start
    then set blank_value (m.start + base) (
        mark_down allocated m.bit_start (m.bit_end - m.bit_start)
          (get_or blank_value (m.start + base) 0))
    else mark_bytes allocated m base m.start (m.end + 1 - m.start) blank_value

-- The variables of spaceUpdateValues before its loop.
pub record Update : Type 0 where
  pub key_start : ℕ
  pub key_end : ℕ
  pub marks : Marks

-- Where the last bit index is 0 the last byte is the one before; markEnd is not 0 there.
unfoldable pub update_of : ℕ → ℕ → Update
update_of offset size =
    let key_start = offset / space_size in
    let last = (offset + size) / space_size in
    let key_offset = if (offset + size) % space_size == 0 then last - 1 else last in
    let tail = (size + offset - key_offset * space_size) / block_size in
    let bit_end = if ltb 0 (size % block_size) then tail % 8 + 1 else tail % 8 in
    let mark_end = tail / 8 in
    let at_zero = bit_end == 0 in
    record {
      key_start = key_start;
      key_end = if at_zero && mark_end == 0 then key_offset - 1 else key_offset;
      marks = record {
        start = (offset - key_start * space_size) / block_size / 8;
        end = if at_zero then mark_end - 1 else mark_end;
        bit_start = (offset - key_start * space_size) / block_size % 8;
        bit_end = if at_zero then 8 else bit_end;
      };
    }

-- The part of the marks in the space `key`, of more than one.
abbrev pub marks_at : Update → ℕ → Marks
marks_at u key =
    if key == u.key_start
    then record u.marks { end = space_len - 1; bit_end = 8 }
    else if not (key == u.key_end)
    then record { start = 0; end = space_len - 1; bit_start = 0; bit_end = 8 }
    else record u.marks { start = 0; bit_start = 0 }

unfoldable pub update_values : Bool → Update → ℕ → ℕ → List (List ℕ)
update_values allocated u key zero = []
update_values allocated u key (suc rounds) =
    simple_space_update_value allocated (marks_at u key)
    ∷ update_values allocated u (key + 1) rounds

unfoldable pub space_update_values : ℕ → ℕ → Bool → Option (List (List ℕ))
space_update_values offset size allocated =
    let u = update_of offset size in
    if is_negative offset || (is_negative size || (size == 0 || not (offset % block_size == 0)))
    then none
    else if u.key_start == u.key_end
    then some (simple_space_update_value allocated u.marks ∷ [])
    else some (update_values allocated u u.key_start (u.key_end + 1 - u.key_start))

unfoldable pub space_key_count : ℕ → ℕ
space_key_count size = div64 (sub64 (add64 size space_size) 1) space_size

-- The rounds of a loop from 0 up to a number, which are none for a negative one.
abbrev pub rounds_up_to : ℕ → ℕ
rounds_up_to n = if is_negative n then 0 else n
