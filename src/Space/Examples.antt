-- ===== src/Space/Examples.antt =====
-- The theorems on the persisted bitmap at concrete devices.
use corgi.Base.{
  get_or, ℕ, zero, suc, ◌+◌, ◌-◌, ◌*◌, ◌/◌, ◌%◌, ◌^◌, ◌≤◌, ◌<◌, ◌≡◌, refl, ap, ◌∙◌, true, ◌&&◌,
  List, [], ◌∷◌, ltb, leb, if◌then◌else◌, length, replicate, length-replicate, get_or-replicate,
  Option, none, some, inr, arith, AreBytes, same, same_refl, same-ne,
}
use corgi.Base.Word.{bit_at, bit_at-zero}
use corgi.Alloc.Geometry.{Result}
use corgi.Alloc.Store.{AllocatorV3}
use corgi.Alloc.Mark.Blocks.{block_bit}
use corgi.Alloc.Api.{new_allocator}
use corgi.Alloc.Api.New.{new_allocator-IsValid}
use corgi.Alloc.Calls.{IsSound}
use corgi.Alloc.Refines.{new-IsSound}
use corgi.Alloc.Api.Extents.{total_size}
use corgi.Moss.{bitmap_merge}
use corgi.WriteBatch.{Batch, not_found}
use corgi.Space.{
  fit_block, merge_results, set_space_bits, space_update_values, copy_into, normalize_space_value,
  byte_results_to_block_results,
}
use corgi.Space.Merges.{space_bit}
use corgi.Space.Marking.{bit_of}
use corgi.Space.Updates.{IsUpdate, space_update_values-IsUpdate}
use corgi.Space.Device.{
  load_allocator, load_space_value, family_space_key, persist_space_merges, persist_alloc_batch,
  alloc, write_at_full,
}
use corgi.Space.Restore.{IsStored, load_allocator-restores}
use corgi.Space.Persist.{IsMerging, AreSpaces, in_extents, persist_space_merges-bits}
use corgi.Space.Grants.{fit_block-least, Agrees, alloc-Agrees}
use corgi.Space.Results.{IsMerged, merge_results-IsMerged}
use corgi.Space.Writes.{IsFile, IsWritten, write_at_full_enough}
use corgi.Space.Bits.{set_space_bits-bit}

-- The last block of a space, the first of the next one, and a byte of a third block.
space_update_values-IsUpdate_example :
    (values : List (List ℕ)) × (space_update_values 16773120 8193 true ≡ some values)
    × IsUpdate true 16773120 8193 values
space_update_values-IsUpdate_example =
    space_update_values-IsUpdate 16773120 8193 (omega arith) (omega arith) (omega arith) true

-- A store where each space begins with two allocated blocks, and has one byte only.
abbrev two_taken : List ℕ → Option (Option (List ℕ))
two_taken key = some (some (192 ∷ []))

abbrev two_value : ℕ → List ℕ
two_value i = copy_into 512 (192 ∷ [])

copy-AreBytes : (n : ℕ) (value : List ℕ) → AreBytes value → AreBytes (copy_into n value)
unfolding copy_into
copy-AreBytes zero value h i = omega arith
copy-AreBytes (suc n) [] h zero = omega arith
copy-AreBytes (suc n) [] h (suc i) = copy-AreBytes n [] (λ j. omega arith) i
copy-AreBytes (suc n) (x ∷ value) h zero = h 0
copy-AreBytes (suc n) (x ∷ value) h (suc i) = copy-AreBytes n value (λ j. h (suc j)) i

one_byte : AreBytes (192 ∷ [])
one_byte zero = omega arith
one_byte (suc i) = omega arith

two_taken-IsStored : IsStored two_taken 16785408 two_value
two_taken-IsStored = record {
  loads = λ i h. unfold load_space_value normalize_space_value in refl;
  bytes = λ i h. copy-AreBytes 512 (192 ∷ []) one_byte;
}

load_allocator-restores_example :
    (b : AllocatorV3) × (load_allocator two_taken 16785408 (new_allocator (16785408 / 4096))
      ≡ inr b)
    × IsSound (16785408 / 4096) b
    × ((x : ℕ)
        → x < 16785408 / 4096
        → block_bit b.l0 x ≡ 1 - space_bit (two_value (x / 4096)) (x % 4096))
load_allocator-restores_example =
    load_allocator-restores two_taken 16785408 two_value two_taken-IsStored (omega arith)
      (omega arith)

abbrev pub Bitmaps : Type 0
Bitmaps = List ℕ → List ℕ

abbrev pub put_bitmap : List ℕ → List ℕ → Bitmaps → Bitmaps
put_bitmap key r s k = if same k key then r else s k

abbrev merged_at : List ℕ → Bitmaps → Option (List ℕ) → Option Bitmaps
merged_at key s none = none
merged_at key s (some r) = some (put_bitmap key r s)

abbrev pub bitmaps : Batch Bitmaps
bitmaps = record {
  get = λ k s. not_found;
  set = λ k v s. some (put_bitmap k v s);
  delete = λ k s. some s;
  merge = λ k v s. merged_at k s (bitmap_merge (s k) v);
}

abbrev pub read : List ℕ → Bitmaps → List ℕ
read k s = s k

bitmaps-IsMerging : IsMerging bitmaps read
bitmaps-IsMerging = record {
  merges = λ key value s r e. (
    put_bitmap key r s,
    ap (merged_at key s) e,
    rw (same_refl key) refl,
    λ other h. rw (same-ne other key h) refl,
  );
}

abbrev empty_spaces : Bitmaps
empty_spaces k = replicate 512 0

two_spaces : 2 ≤ 10 ^ 19
two_spaces = omega arith

empty-AreSpaces : AreSpaces 2 two_spaces bitmaps read bitmaps-IsMerging empty_spaces
empty-AreSpaces k h = length-replicate {A = ℕ} 512 0

abbrev extents : List Result
extents = record { offset = 0; size = 4096 } ∷ record { offset = 16773120; size = 8192 } ∷ []

persist_space_merges-bits_example :
    (s' : Bitmaps) × (persist_space_merges bitmaps true extents empty_spaces ≡ inr s')
    × AreSpaces 2 two_spaces bitmaps read bitmaps-IsMerging s'
    × ((k b : ℕ)
        → k < 2
        → b < 4096
        → space_bit (read (family_space_key k) s') b ≡ (
            if in_extents extents (k * 4096 + b)
            then 1
            else space_bit (read (family_space_key k) empty_spaces) b))
persist_space_merges-bits_example =
    persist_space_merges-bits 2 two_spaces bitmaps read bitmaps-IsMerging true extents empty_spaces
      (
        omega arith,
        omega arith,
        omega arith,
        omega arith,
        (omega arith, omega arith, omega arith, omega arith, tt),
      )
      empty-AreSpaces

new-Agrees : Agrees 128 read (new_allocator 128) empty_spaces
new-Agrees x h =
    (new_allocator-IsValid 128 (omega arith) (omega arith)).3 x
    ∙ ground (
      arith,
      ap (λ t. bit_at t (7 - x % 4096 % 8)) (get_or-replicate 512 (x % 4096 / 8) 0 0 (omega arith)),
      bit_at-zero (7 - x % 4096 % 8),
    )

alloc-Agrees_example :
    (results : List Result) × (blocks : List Result) × (s' : Bitmaps) × (alloc 5000
        (new_allocator 128)
      ≡ (inr (results, blocks), (alloc 5000 (new_allocator 128)).1))
    × (total_size results ≡ fit_block 5000)
    × (byte_results_to_block_results results ≡ blocks)
    × (persist_alloc_batch bitmaps results empty_spaces ≡ inr s')
    × IsSound 128 (alloc 5000 (new_allocator 128)).1
    × Agrees 128 read (alloc 5000 (new_allocator 128)).1 s'
alloc-Agrees_example =
    alloc-Agrees bitmaps read bitmaps-IsMerging 128 (omega arith) (new_allocator 128)
      (new-IsSound 128 (omega arith) (omega arith)) empty_spaces
      (λ k h. length-replicate {A = ℕ} 512 0) new-Agrees 5000 (omega arith)
      (omega (arith, (new_allocator-IsValid 128 (omega arith) (omega arith)).2))

fit_block-least_example :
    (fit_block 5000 % 4096 ≡ 0) × (5000 ≤ fit_block 5000) × (fit_block 5000 < 5000 + 4096)
fit_block-least_example = fit_block-least 5000 (omega arith)

abbrev pieces : List Result
pieces =
    record { offset = 0; size = 4 }
    ∷ record { offset = 4; size = 2 }
    ∷ record { offset = 9; size = 1 }
    ∷ []

merge_results-IsMerged_example : IsMerged 16 pieces (merge_results pieces)
merge_results-IsMerged_example =
    merge_results-IsMerged 16 pieces (omega arith)
      (omega arith, omega arith, (omega arith, omega arith, (omega arith, omega arith, tt)))

set_space_bits-bit_example :
    space_bit (set_space_bits true 6 4 (0 ∷ 0 ∷ [])) 9
    ≡ (if leb 6 9 && ltb 9 (6 + 4) then bit_of true else space_bit (0 ∷ 0 ∷ []) 9)
set_space_bits-bit_example = set_space_bits-bit true 6 4 9 (0 ∷ 0 ∷ []) (omega arith)

-- A file that takes at most two bytes at a time.
abbrev taken_of : List ℕ → ℕ
taken_of p = if leb (length p) 2 then length p else 2

abbrev two_at_most : List ℕ → ℕ → (ℕ → ℕ) → ℕ × Option ℕ × (ℕ → ℕ)
two_at_most p offset f = (
  taken_of p,
  none,
  λ x. if leb offset x && ltb x (offset + taken_of p) then get_or p (x - offset) 0 else f x,
)

abbrev byte_of : ℕ → (ℕ → ℕ) → ℕ
byte_of x f = f x

two_at_most-IsFile : IsFile two_at_most byte_of
two_at_most-IsFile = record { at_most = λ p offset f. ground arith; writes = λ p offset f x. refl }

write_at_full_enough_example :
    IsWritten two_at_most byte_of two_at_most-IsFile
      (1 ∷ 2 ∷ 3 ∷ [])
      4096
      (λ x. 0)
      (write_at_full two_at_most 4 0 (1 ∷ 2 ∷ 3 ∷ []) 4096 (λ x. 0))
write_at_full_enough_example =
    write_at_full_enough two_at_most byte_of two_at_most-IsFile (1 ∷ 2 ∷ 3 ∷ []) 4096 (λ x. 0)
      (omega arith)
