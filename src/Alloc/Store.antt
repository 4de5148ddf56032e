-- ===== src/Alloc/Store.antt =====
-- The allocator's state and the two summary levels. `l0` has one bit for each block, 1 is free;
-- an entry of `l1` sums up 8 words of `l0`, one of `l2` sums up 8 words of `l1`.
pub mod Frame
pub mod Entries
use corgi.Base.{
  ℕ, zero, suc, ◌+◌, ◌-◌, ◌*◌, ◌/◌, ◌%◌, ◌^◌, Bool, true, false, List, [], ◌∷◌, ltb, leb, ◌==◌,
  if◌then◌else◌, length, get_or, set, bit_and, bit_or,
}
use corgi.Base.Word.{ones, complement}
use corgi.Alloc.Geometry.{
  slots_per_slotset, l1_entries_per_slot, l1_entry_width, l1_entry_mask, l1_entry_full,
  l1_entry_partial, l1_entry_free, valid_word_mask,
}

pub record AllocatorV3 : Type 0 where
  pub total : ℕ
  pub available : ℕ
  pub l0 : List ℕ
  pub l1 : List ℕ
  pub l2 : List ℕ
  pub l0_slots : ℕ
  pub last_pos : ℕ

-- x &^ m on uint64.
abbrev pub and_not : ℕ → ℕ → ℕ
and_not x m = bit_and x (complement 64 m)

pub record Flags : Type 0 where
  pub all_free : Bool
  pub all_alloc : Bool

-- What the loops over a slotset have found so far.
unfoldable pub flags_at : ℕ → ℕ → Flags → Flags
flags_at word mask s = record {
  all_free = if bit_and word mask == mask then s.all_free else false;
  all_alloc = if bit_and word mask == 0 then s.all_alloc else false;
}

-- for k := ssStart; k < ssEnd; k++, with `rounds` left.
unfoldable pub l0_flags : ℕ → ℕ → ℕ → List ℕ → Flags → Flags
l0_flags zero k total l0 s = s
l0_flags (suc rounds) k total l0 s =
    l0_flags rounds (k + 1) total l0 (flags_at (get_or l0 k 0) (valid_word_mask total l0 k) s)

unfoldable pub l1_flags : ℕ → ℕ → List ℕ → Flags → Flags
l1_flags zero k l1 s = s
l1_flags (suc rounds) k l1 s = l1_flags rounds (k + 1) l1 (record {
  all_free = if get_or l1 k 0 == ones 64 then s.all_free else false;
  all_alloc = if get_or l1 k 0 == 0 then s.all_alloc else false;
})

unfoldable pub entry_of : Flags → ℕ
entry_of s =
    if s.all_free then l1_entry_free else if s.all_alloc then l1_entry_full else l1_entry_partial

-- (word &^ (mask << shift)) | (entry << shift). `pos` is below 32, so no bit is shifted out.
unfoldable pub put_entry : ℕ → ℕ → ℕ → ℕ
put_entry word pos entry =
    let shift = pos * l1_entry_width in
    bit_or (and_not word (l1_entry_mask * 2 ^ shift)) (entry * 2 ^ shift)

unfoldable pub get_entry : ℕ → ℕ → ℕ
get_entry word pos = bit_and (word / 2 ^ (pos * l1_entry_width)) l1_entry_mask

abbrev pub both : Flags
both = record { all_free = true; all_alloc = true }

-- The number of rounds from `start` to the end of its slotset, at most `len`.
abbrev pub slotset_rounds : ℕ → ℕ → ℕ
slotset_rounds start len =
    let end = start + slots_per_slotset in (if ltb len end then len else end) - start

unfoldable pub update_l1_for_l0_slot : ℕ → AllocatorV3 → AllocatorV3
unfolding l0_flags flags_at entry_of put_entry
update_l1_for_l0_slot l0_slot_idx a =
    let slotset_idx = l0_slot_idx / slots_per_slotset in
    let l1_slot_idx = slotset_idx / l1_entries_per_slot in
    let l1_bit_pos = slotset_idx % l1_entries_per_slot in
    let ss_start = slotset_idx * slots_per_slotset in
    let entry =
      entry_of (l0_flags (slotset_rounds ss_start (length a.l0)) ss_start a.total a.l0 both) in
    if leb (length a.l1) l1_slot_idx then a else record a {
      l1 = set a.l1 l1_slot_idx (put_entry (get_or a.l1 l1_slot_idx 0) l1_bit_pos entry);
    }

unfoldable pub update_l2_for_l1_slot : ℕ → AllocatorV3 → AllocatorV3
unfolding l1_flags entry_of put_entry
update_l2_for_l1_slot l1_slot_idx a =
    let l1_slotset_idx = l1_slot_idx / slots_per_slotset in
    let l2_slot_idx = l1_slotset_idx / l1_entries_per_slot in
    let l2_bit_pos = l1_slotset_idx % l1_entries_per_slot in
    let ss_start = l1_slotset_idx * slots_per_slotset in
    let entry = entry_of (l1_flags (slotset_rounds ss_start (length a.l1)) ss_start a.l1 both) in
    if length a.l2 == 0 then a else if leb (length a.l2) l2_slot_idx then a else record a {
      l2 = set a.l2 l2_slot_idx (put_entry (get_or a.l2 l2_slot_idx 0) l2_bit_pos entry);
    }

-- for i := 0; i < len(a.l0); i++ { a.updateL1ForL0Slot(i) } and the like, `rounds` left.
unfoldable pub update_l1_all : ℕ → ℕ → AllocatorV3 → AllocatorV3
unfolding update_l1_for_l0_slot
update_l1_all zero i a = a
update_l1_all (suc rounds) i a = update_l1_all rounds (i + 1) (update_l1_for_l0_slot i a)

unfoldable pub update_l2_all : ℕ → ℕ → AllocatorV3 → AllocatorV3
unfolding update_l2_for_l1_slot
update_l2_all zero i a = a
update_l2_all (suc rounds) i a = update_l2_all rounds (i + 1) (update_l2_for_l1_slot i a)
