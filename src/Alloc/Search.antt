-- ===== src/Alloc/Search.antt =====
-- nextFreeRunFromLocked and the scan of l0. `none` is the source's (0, 0).
pub mod Hits
pub mod Runs
pub mod Scan
pub mod Segments
pub mod Levels
use corgi.Base.{
  ℕ, zero, suc, ◌+◌, ◌-◌, ◌*◌, ◌/◌, ◌%◌, ◌^◌, Bool, true, false, ◌||◌, ◌&&◌, List, [], ◌∷◌, ltb,
  leb, ◌==◌, if◌then◌else◌, length, get_or, Option, none, some,
}
use corgi.Base.Word.{complement, trailing_zeros}
use corgi.Alloc.Geometry.{
  Result, bits_per_slot, slots_per_slotset, l1_entries_per_slot, l1_entry_full, l1_entry_free,
  bits_per_slotset, bits_per_l1_slotset, min_int64, max_int64,
}
use corgi.Alloc.Store.{AllocatorV3, get_entry}

-- for i := first; i < first + rounds; i++: the first index at which `f` returns.
unfoldable pub first_some {ℓ} : {A : Type ℓ} → ℕ → ℕ → (ℕ → Option A) → Option A
first_some zero i f = none
first_some (suc rounds) i f = elim (f i) [ some x ↦ some x | none ↦ first_some rounds (i + 1) f ]

-- The lowest one of slot `w` from bit `b` on, as a block.
unfoldable pub first_bit : List ℕ → ℕ → ℕ → Option ℕ
first_bit l0 b w =
    let word = get_or l0 w 0 / 2 ^ b in
    if word == 0 then none else some (w * bits_per_slot + b + trailing_zeros 64 word)

-- The first step of the scan: the first free bit from `from_bit` on, not beyond the slot of
-- `to_bit - 1`.
unfoldable pub first_free : List ℕ → ℕ → ℕ → Option ℕ
first_free l0 from_bit to_bit =
    let start_word = from_bit / bits_per_slot in
    let end_word = (to_bit - 1) / bits_per_slot in
    let later = first_some (end_word - start_word) (start_word + 1) (first_bit l0 0) in
    elim (first_bit l0 (from_bit % bits_per_slot) start_word) [ some x ↦ some x | none ↦ later ]

-- The second step: how far the run goes, from bit `b` of slot `w`; `cap` more may be taken.
unfoldable pub extend_run : ℕ → ℕ → ℕ → ℕ → ℕ → List ℕ → ℕ
extend_run zero w b run_end cap l0 = run_end
extend_run (suc rounds) w b run_end cap l0 =
    let shifted = get_or l0 w 0 / 2 ^ b in
    let ones = trailing_zeros 64 (complement 64 shifted) in
    let avail = bits_per_slot - b in
    let within = if ltb avail ones then avail else ones in
    let n = if ltb cap within then cap else within in
    let rest = extend_run rounds (w + 1) 0 (run_end + n) (cap - n) l0 in
    if cap == 0 then run_end else if ltb n avail || cap - n == 0 then run_end + n else rest

-- The run that starts at the free block `run_start`, in a search of the blocks below `to_bit`.
unfoldable pub run_from : ℕ → ℕ → AllocatorV3 → ℕ → Option Result
run_from to_bit limit a run_start =
    let w = run_start / bits_per_slot in
    let reach = extend_run (length a.l0 - w) w (run_start % bits_per_slot) run_start limit a.l0 in
    let run_end = if ltb a.total reach then a.total else reach in
    if leb to_bit run_start || leb a.total run_start
    then none
    else if leb run_end run_start
    then none
    else some (record { offset = run_start; size = run_end - run_start })

unfoldable pub scan_l0_limited : ℕ → ℕ → ℕ → AllocatorV3 → Option Result
scan_l0_limited from_bit to_bit limit a =
    let to_bit' = if ltb a.total to_bit then a.total else to_bit in
    if leb to_bit from_bit || leb a.total from_bit || limit == 0
    then none
    else elim (first_free a.l0 from_bit to_bit') [
      | none ↦ none
      | some run_start ↦ run_from to_bit' limit a run_start
    ]

-- scanL0ForFullFreeRun.
unfoldable pub scan_l0_full : ℕ → ℕ → AllocatorV3 → Option Result
scan_l0_full from_bit to_bit a = scan_l0_limited from_bit to_bit a.total a

-- The fast path of both summary levels: the part of [start, end) from `from` on, cut at `limit`.
unfoldable pub free_entry_run : ℕ → ℕ → ℕ → ℕ → Option Result
free_entry_run from limit start end =
    let actual_start = if ltb start from then from else start in
    let sz = min_int64 limit (end - actual_start) in
    if sz == 0 then none else some (record { offset = actual_start; size = sz })

-- One entry of l1, number `l0_set` over all.
unfoldable pub search_l1_entry : ℕ → ℕ → AllocatorV3 → ℕ → Option Result
search_l1_entry from limit a l0_set =
    let entry =
      get_entry (get_or a.l1 (l0_set / l1_entries_per_slot) 0) (l0_set % l1_entries_per_slot) in
    let l0_slot_start = l0_set * slots_per_slotset in
    let slot_start_block = l0_slot_start * bits_per_slot in
    let unclipped = slot_start_block + bits_per_slotset in
    let slot_end_block = if ltb a.total unclipped then a.total else unclipped in
    let l0_slot_end =
      if ltb (length a.l0) (l0_slot_start + slots_per_slotset)
      then length a.l0
      else l0_slot_start + slots_per_slotset in
    let b_from = if ltb from slot_start_block then slot_start_block else from in
    if entry == l1_entry_full
    then none
    else if entry == l1_entry_free
    then free_entry_run from limit slot_start_block slot_end_block
    else scan_l0_limited b_from (l0_slot_end * bits_per_slot) limit a

-- The entries of the words [start_slot, end_slot) of l1, in the first word from `init_bit` on.
unfoldable pub search_l1_slots : ℕ → ℕ → AllocatorV3 → ℕ → ℕ → ℕ → Option Result
search_l1_slots from limit a start_slot end_slot init_bit =
    first_some (end_slot - start_slot) start_slot λ li.
      let start_bit = if li == start_slot then init_bit else 0 in
      first_some (l1_entries_per_slot - start_bit) start_bit
        λ bit. search_l1_entry from limit a (li * l1_entries_per_slot + bit)

-- One entry of l2, number `l1_set` over all.
unfoldable pub search_l2_entry : ℕ → ℕ → AllocatorV3 → ℕ → Option Result
search_l2_entry from limit a l1_set =
    let entry =
      get_entry (get_or a.l2 (l1_set / l1_entries_per_slot) 0) (l1_set % l1_entries_per_slot) in
    let l2_entry_start = l1_set * bits_per_l1_slotset in
    let unclipped = l2_entry_start + bits_per_l1_slotset in
    let l2_entry_end = if ltb a.total unclipped then a.total else unclipped in
    let l0_set_idx = from / bits_per_slot / slots_per_slotset in
    let l1_slot_idx = l0_set_idx / l1_entries_per_slot in
    let l1_slot_start = l1_set * slots_per_slotset in
    let l1_slot_end =
      if ltb (length a.l1) (l1_slot_start + slots_per_slotset)
      then length a.l1
      else l1_slot_start + slots_per_slotset in
    let is_first = l1_set == l1_slot_idx / slots_per_slotset in
    let start_l1_slot = if is_first then l1_slot_idx else l1_slot_start in
    let init_l1_bit = if is_first then l0_set_idx % l1_entries_per_slot else 0 in
    if entry == l1_entry_full
    then none
    else if entry == l1_entry_free
    then free_entry_run from limit l2_entry_start l2_entry_end
    else search_l1_slots from limit a start_l1_slot l1_slot_end init_l1_bit

unfoldable pub next_free_run : ℕ → ℕ → AllocatorV3 → Option Result
next_free_run from limit a =
    let l1_set_idx =
      from / bits_per_slot / slots_per_slotset / l1_entries_per_slot / slots_per_slotset in
    let l2_slot_idx = l1_set_idx / l1_entries_per_slot in
    let found = first_some (length a.l2 - l2_slot_idx) l2_slot_idx λ l2_slot.
      let start_bit = if l2_slot == l2_slot_idx then l1_set_idx % l1_entries_per_slot else 0 in
      first_some (l1_entries_per_slot - start_bit) start_bit
        λ bit. search_l2_entry from limit a (l2_slot * l1_entries_per_slot + bit) in
    if leb a.total from || length a.l0 == 0 then none else found
