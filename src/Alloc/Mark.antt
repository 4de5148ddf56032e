-- ===== src/Alloc/Mark.antt =====
-- markRangeLocked and rangeFullyAllocatedLocked.
pub mod Words
pub mod Blocks
pub mod Counts
pub mod Allocated
use corgi.Base.{
  ℕ, zero, suc, ◌+◌, ◌-◌, ◌*◌, ◌/◌, ◌%◌, ◌^◌, Bool, true, false, List, [], ◌∷◌, ltb, leb, ◌==◌,
  if◌then◌else◌, length, get_or, set, bit_and, bit_or, not,
}
use corgi.Base.Word.{complement, ones_count}
use corgi.Alloc.Geometry.{
  bits_per_slot, slots_per_slotset, l1_entries_per_slot, valid_word_mask, range_mask,
}
use corgi.Alloc.Store.{AllocatorV3, and_not, update_l1_for_l0_slot, update_l2_for_l1_slot}

abbrev pub word_mask : ℕ → ℕ → ℕ → List ℕ → ℕ → ℕ
word_mask offset end total l0 i = bit_and (range_mask offset end i) (valid_word_mask total l0 i)

-- One word: its new value, and how many of its bits change.
unfoldable pub mark_word : Bool → ℕ → ℕ → ℕ
mark_word true mask old = bit_or old mask
mark_word false mask old = and_not old mask

unfoldable pub changed_bits : Bool → ℕ → ℕ → ℕ
unfolding ones_count
changed_bits true mask old = ones_count 64 (bit_and (complement 64 old) mask)
changed_bits false mask old = ones_count 64 (bit_and old mask)

-- The loop over the words of the range, at word `i` with `rounds` left.
unfoldable pub mark_words : ℕ → ℕ → ℕ → ℕ → Bool → ℕ → List ℕ → ℕ → List ℕ × ℕ
unfolding mark_word changed_bits
mark_words zero i offset end free total l0 changed = (l0, changed)
mark_words (suc rounds) i offset end free total l0 changed =
    let mask = word_mask offset end total l0 i in
    let old = get_or l0 i 0 in
    let rest =
      mark_words rounds (i + 1) offset end free total (set l0 i (mark_word free mask old))
        (changed + changed_bits free mask old) in
    if ltb i (length l0) then rest else (l0, changed)

-- Once for each slotset of the range.
unfoldable pub refresh_l1 : ℕ → ℕ → AllocatorV3 → AllocatorV3
refresh_l1 zero ss a = a
refresh_l1 (suc rounds) ss a =
    refresh_l1 rounds (ss + 1) (update_l1_for_l0_slot (ss * slots_per_slotset) a)

unfoldable pub refresh_l2 : ℕ → ℕ → AllocatorV3 → AllocatorV3
refresh_l2 zero l1_set a = a
refresh_l2 (suc rounds) l1_set a =
    let li = l1_set * slots_per_slotset in
    let rest = refresh_l2 rounds (l1_set + 1) (update_l2_for_l1_slot li a) in
    if leb (length a.l1) li then a else rest

unfoldable pub mark_range : ℕ → ℕ → Bool → AllocatorV3 → AllocatorV3 × ℕ
mark_range offset size free a =
    let end = offset + size in
    let start_word = offset / bits_per_slot in
    let end_word = (end - 1) / bits_per_slot in
    let (l0', changed) =
      mark_words (end_word + 1 - start_word) start_word offset end free a.total a.l0 0 in
    let start_slotset = start_word / slots_per_slotset in
    let end_slotset = end_word / slots_per_slotset in
    let a₁ = refresh_l1 (end_slotset + 1 - start_slotset) start_slotset (record a { l0 = l0' }) in
    let start_l1_slotset = start_slotset / l1_entries_per_slot / slots_per_slotset in
    let end_l1_slotset = end_slotset / l1_entries_per_slot / slots_per_slotset in
    let a₂ = refresh_l2 (end_l1_slotset + 1 - start_l1_slotset) start_l1_slotset a₁ in
    if size == 0 then (a, 0) else (a₂, changed)

unfoldable pub words_allocated : ℕ → ℕ → ℕ → ℕ → ℕ → List ℕ → Bool
words_allocated zero i offset end total l0 = true
words_allocated (suc rounds) i offset end total l0 =
    let rest = words_allocated rounds (i + 1) offset end total l0 in
    if ltb i (length l0)
    then (if bit_and (get_or l0 i 0) (word_mask offset end total l0 i) == 0 then rest else false)
    else true

unfoldable pub range_fully_allocated : ℕ → ℕ → AllocatorV3 → Bool
unfolding words_allocated
range_fully_allocated offset size a =
    let end = offset + size in
    let start_word = offset / bits_per_slot in
    let end_word = (end - 1) / bits_per_slot in
    words_allocated (end_word + 1 - start_word) start_word offset end a.total a.l0
