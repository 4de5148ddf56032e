-- ===== src/Alloc/Refines.antt =====
-- The methods of AllocatorV3 against the specification on sets of free blocks.
use corgi.Base.{ℕ, ◌^◌, ◌≤◌, ◌<◌}
use corgi.Alloc.Store.{AllocatorV3}
use corgi.Alloc.Api.{new_allocator}
use corgi.Alloc.Api.New.{new_allocator-IsValid, new_allocator-total}
use corgi.Alloc.Spec.{Call, allocating, releasing, marking_allocated, marking_free, IsAllowed}
use corgi.Alloc.Calls.{is_free, perform, IsInt64Call, IsSound, Meets}
use corgi.Alloc.Calls.Granting.{allocating-Meets, releasing-Meets}
use corgi.Alloc.Calls.Marking.{marking_allocated-Meets, marking_free-Meets}

module _ (total : ℕ) (a : AllocatorV3) (sound : IsSound total a) where
  perform-Meets : (c : Call) → IsInt64Call c → Meets total c a (perform c a)
  perform-Meets (allocating want) h = allocating-Meets total a sound want h
  perform-Meets (releasing rs) h = releasing-Meets total a sound rs h
  perform-Meets (marking_allocated e) h = marking_allocated-Meets total a sound e h.0 h.1
  perform-Meets (marking_free e) h = marking_free-Meets total a sound e h.0 h.1

-- An allocator that NewAllocatorV3 and some sequence of calls have given.
pub data Reachable (blocks : ℕ) : AllocatorV3 → Type 0 where
  starts : Reachable blocks (new_allocator blocks)
  calls :
      (a : AllocatorV3)
      → Reachable blocks a
      → (c : Call) → IsInt64Call c
      → Reachable blocks (perform c a).1

pub new-IsSound :
    (blocks : ℕ) → 0 < blocks → blocks ≤ 2 ^ 62 → IsSound blocks (new_allocator blocks)
new-IsSound blocks p q =
    let (valid, sums, full, free) = new_allocator-IsValid blocks p q in
    record { size = new_allocator-total blocks p q; valid = valid; sums = sums }

-- On a device of 1 to 2^62 blocks, after NewAllocatorV3 and any sequence of calls with 64-bit
-- numbers, failed ones included, the bitmap is well-formed and clean, the counter is the number of
-- free blocks, and both summary levels tell the truth.
pub Reachable-IsSound :
    (blocks : ℕ)
    → 0 < blocks
    → blocks ≤ 2 ^ 62
    → (a : AllocatorV3) → Reachable blocks a
    → IsSound blocks a
Reachable-IsSound blocks p q a starts = new-IsSound blocks p q
Reachable-IsSound blocks p q a (calls b r c h) =
    (perform-Meets blocks b (Reachable-IsSound blocks p q b r) c h).1

-- On a device of 1 to 2^62 blocks, whatever calls came before and for every call with 64-bit
-- numbers, the answer and the blocks that are free after the call are what the specification
-- allows, errors included: Allocate refuses only a number that is not positive or exceeds the free
-- blocks, and otherwise returns disjoint extents of free blocks of just the size asked for;
-- Release and the Init methods refuse just the extents that they must.
pub perform_refines :
    (blocks : ℕ)
    → 0 < blocks
    → blocks ≤ 2 ^ 62
    → (a : AllocatorV3) → Reachable blocks a
    → (c : Call) → IsInt64Call c
    → IsAllowed blocks c (is_free a) (perform c a).0 (is_free (perform c a).1)
perform_refines blocks p q a r c h =
    (perform-Meets blocks a (Reachable-IsSound blocks p q a r) c h).0
