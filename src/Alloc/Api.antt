-- ===== src/Alloc/Api.antt =====
-- NewAllocatorV3 and the methods of AllocatorV3. Each runs under the mutex from its first access of
-- the state to its return, so a method is one step on the state. `none` is a nil receiver.
pub mod Ranges
pub mod Valid
pub mod Extents
pub mod Passes
pub mod Rounds
pub mod Allocate
pub mod Release
pub mod Accepted
pub mod Roundtrip
pub mod Init
pub mod New
use corgi.Base.{
  ℕ, zero, suc, ◌+◌, ◌-◌, ◌*◌, ◌/◌, ◌%◌, ◌^◌, Bool, true, false, not, ◌||◌, ◌&&◌, List, [], ◌∷◌,
  ltb, leb, ◌==◌, if◌then◌else◌, length, set, replicate, Option, none, some,
}
use corgi.Base.Word.{ones}
use corgi.Alloc.Geometry.{
  Result, bits_per_slot, slots_per_slotset, l1_entries_per_slot, is_negative, sub64, signed_lt,
  min_int64, validate_range, append_result, extents_overlap,
}
use corgi.Alloc.Store.{AllocatorV3, update_l1_all, update_l2_all}
use corgi.Alloc.Mark.{mark_range, range_fully_allocated}
use corgi.Alloc.Search.{next_free_run}

pub data Error : Type 0 where
  allocator_is_nil invalid_size not_enough_space bitmap_inconsistent : Error
  invalid_extent not_fully_allocated extents_do_overlap below_zero exceeds_total : Error

pub data Reply {ℓ} (A : Type ℓ) : Type ℓ where
  ok : A → Reply A
  err : Error → Reply A

abbrev empty_allocator : ℕ → AllocatorV3
empty_allocator blocks = record {
  total = blocks;
  available = 0;
  l0 = [];
  l1 = [];
  l2 = [];
  l0_slots = 0;
  last_pos = 0;
}

abbrev pub div_up : ℕ → ℕ → ℕ
div_up n d = (n + d - 1) / d

unfoldable pub initial_l0 : ℕ → List ℕ
initial_l0 blocks =
    let slots = div_up blocks bits_per_slot in
    let rem = blocks % bits_per_slot in
    let full = replicate slots (ones 64) in
    if rem == 0 then full else set full (slots - 1) (2 ^ rem - 1)

unfoldable pub new_allocator : ℕ → AllocatorV3
unfolding initial_l0 update_l1_all update_l2_all
new_allocator blocks =
    let slots = div_up blocks bits_per_slot in
    let l0_slotsets = div_up slots slots_per_slotset in
    let l1_count = div_up l0_slotsets l1_entries_per_slot in
    let l1_slots = if ltb l1_count 1 then 1 else l1_count in
    let l2_count = div_up (div_up l1_slots slots_per_slotset) l1_entries_per_slot in
    let l2_slots = if ltb l2_count 1 then 1 else l2_count in
    let blank : AllocatorV3 = record {
      total = blocks;
      available = 0;
      l0 = initial_l0 blocks;
      l1 = replicate l1_slots 0;
      l2 = replicate l2_slots 0;
      l0_slots = slots;
      last_pos = 0;
    } in
    let a = update_l2_all l1_slots 0 (update_l1_all slots 0 blank) in
    if is_negative blocks || blocks == 0
    then empty_allocator blocks
    else record a { available = blocks }

-- The variables of the two passes of Allocate.
pub record Progress : Type 0 where
  pub left : ℕ
  pub results : List Result
  pub state : AllocatorV3

-- One pass from block `from` on. `fuel` bounds the rounds: each takes at least one block.
unfoldable pub allocate_pass : ℕ → Bool → ℕ → Progress → Progress
allocate_pass zero second from p = p
allocate_pass (suc fuel) second from p = elim (next_free_run from p.left p.state) [
  | none ↦ p
  | some run ↦
      let take = min_int64 run.size p.left in
      let taken : Progress = record {
        left = p.left - take;
        results = append_result p.results (record { offset = run.offset; size = take });
        state = (mark_range run.offset take false p.state).0;
      } in
      let rest = allocate_pass fuel second (run.offset + take) taken in
      if p.left == 0 then p else if second && leb p.state.last_pos run.offset then p else rest
]

-- for _, r := range results { a.markRangeLocked(r.Offset, r.Size, free) }, with the bits changed.
unfoldable pub mark_all : Bool → List Result → AllocatorV3 → AllocatorV3 × ℕ
mark_all free [] a = (a, 0)
mark_all free (r ∷ rs) a =
    let (a', changed) = mark_range r.offset r.size free a in
    let (a'', more) = mark_all free rs a' in (a'', changed + more)

last_end : List Result → ℕ → ℕ
last_end [] d = d
last_end (r ∷ []) d = r.offset + r.size
last_end (r ∷ s ∷ rs) d = last_end (s ∷ rs) d

unfoldable pub next_pos : ℕ → List Result → ℕ → ℕ
unfolding last_end
next_pos total [] last_pos = last_pos
next_pos total (r ∷ rs) last_pos =
    let end = last_end (r ∷ rs) last_pos in if leb total end then 0 else end

-- Both passes; `left` is 0 after the first if it found all.
unfoldable pub allocate_passes : ℕ → AllocatorV3 → Progress
allocate_passes want a =
    let first =
      allocate_pass want false a.last_pos (record { left = want; results = []; state = a }) in
    if first.left == 0 then first else allocate_pass first.left true 0 first

unfoldable pub allocate : ℕ → AllocatorV3 → Reply (List Result) × AllocatorV3
allocate want a =
    let p = allocate_passes want a in
    if is_negative want || want == 0
    then (err invalid_size, a)
    else if signed_lt a.available want
    then (err not_enough_space, a)
    else if p.left == 0
    then (
      ok p.results,
      record p.state {
        available = p.state.available - want;
        last_pos = next_pos p.state.total p.results p.state.last_pos;
      },
    )
    else (err bitmap_inconsistent, (mark_all true p.results p.state).0)

-- The checks of Release on each extent, in order.
unfoldable pub check_extents : List Result → AllocatorV3 → Option Error
check_extents [] a = none
check_extents (r ∷ rs) a =
    let rest = check_extents rs a in
    if validate_range a.total r.offset r.size
    then (if range_fully_allocated r.offset r.size a then rest else some not_fully_allocated)
    else some invalid_extent

unfoldable pub overlaps_any : Result → List Result → Bool
unfolding extents_overlap
overlaps_any r [] = false
overlaps_any r (s ∷ rs) = if extents_overlap r s then true else overlaps_any r rs

unfoldable pub any_overlap : List Result → Bool
unfolding overlaps_any
any_overlap [] = false
any_overlap (r ∷ rs) = if overlaps_any r rs then true else any_overlap rs

unfoldable pub release : List Result → AllocatorV3 → Reply (Unit {0}) × AllocatorV3
release [] a = (ok tt, a)
release (r ∷ rs) a = elim (check_extents (r ∷ rs) a) [
  | some e ↦ (err e, a)
  | none ↦
      let (a', released) = mark_all true (r ∷ rs) a in
      if any_overlap (r ∷ rs)
      then (err extents_do_overlap, a)
      else (ok tt, record a' { available = a'.available + released })
]

unfoldable pub init_allocated : ℕ → ℕ → AllocatorV3 → Reply (Unit {0}) × AllocatorV3
init_allocated offset size a =
    let (a', changed) = mark_range offset size false a in
    let available' = sub64 a'.available changed in
    if is_negative size || size == 0
    then (ok tt, a)
    else if not (validate_range a.total offset size)
    then (err invalid_extent, a)
    else (
      (if is_negative available' then err below_zero else ok tt),
      record a' { available = available' },
    )

unfoldable pub init_free : ℕ → ℕ → AllocatorV3 → Reply (Unit {0}) × AllocatorV3
init_free offset size a =
    let (a', changed) = mark_range offset size true a in
    let available' = a'.available + changed in
    if is_negative size || size == 0
    then (ok tt, a)
    else if not (validate_range a.total offset size)
    then (err invalid_extent, a)
    else (
      (if signed_lt a'.total available' then err exceeds_total else ok tt),
      record a' { available = available' },
    )

-- A method called through a pointer that may be nil.
unfoldable pub on_receiver {ℓ} :
    {A : Type ℓ}
    → (AllocatorV3 → Reply A × AllocatorV3)
    → Option AllocatorV3
    → Reply A × Option AllocatorV3
on_receiver method none = (err allocator_is_nil, none)
on_receiver method (some a) = let (r, a') = method a in (r, some a')

-- Available and FreeBlocks; Total.
unfoldable pub available_blocks : Option AllocatorV3 → ℕ
available_blocks none = 0
available_blocks (some a) = a.available

unfoldable pub total_blocks : Option AllocatorV3 → ℕ
total_blocks none = 0
total_blocks (some a) = a.total
