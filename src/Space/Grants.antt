-- ===== src/Space/Grants.antt =====
-- Alloc, RollbackAlloc and PersistAllocBatch together: the allocator and the persisted bitmap agree.
use corgi.Base.{
  ℕ, ◌+◌, ◌-◌, ◌*◌, ◌/◌, ◌%◌, ◌^◌, ◌≤◌, ◌<◌, ◌≡◌, refl, ap, ap₂, ◌∙◌, sym, true, false, ◌||◌, List,
  [], ◌∷◌, ◌==◌, if◌then◌else◌, length, map, arith, Bool-cases, inl, inr, ==→eq,
}
use corgi.Alloc.Geometry.{Result, is_negative}
use corgi.Alloc.Store.{AllocatorV3}
use corgi.Alloc.Mark.Blocks.{block_bit}
use corgi.Alloc.Api.{ok, allocate}
use corgi.Alloc.Api.Valid.{Fits, covered, holds, free_below-le}
use corgi.Alloc.Api.Extents.{total_size}
use corgi.Alloc.Api.Allocate.{IsAllocated, allocate-IsAllocated}
use corgi.Alloc.Calls.{IsSound}
use corgi.WriteBatch.{Batch}
use corgi.Space.{div64, fit_block, byte_results_to_block_results}
use corgi.Space.Merges.{space_bit}
use corgi.Space.Updates.{in_bytes}
use corgi.Space.Device.{in_bytes_of, alloc, family_space_key, persist_alloc_batch}
use corgi.Space.Persist.{IsMerging, AreSpaces, AreExtents, in_extents, persist_space_merges-bits}

-- fitBlock rounds a size of at most 2^63 - 4096 up to a whole number of blocks, by less than one
-- block.
pub fit_block-least :
    (size : ℕ)
    → size + 4096 ≤ 2 ^ 63
    → (fit_block size % 4096 ≡ 0) × (size ≤ fit_block size) × (fit_block size < size + 4096)
unfolding fit_block
fit_block-least size small = elim (Bool-cases (size % 4096 == 0)) [
  | inl e ↦ rw e (==→eq (size % 4096) 0 e, omega arith, omega arith)
  | inr e ↦
      let plain : is_negative size ≡ false = ground (arith, small) in
      let exact : (size / 4096 + 1) * 4096 % 2 ^ 64 ≡ (size / 4096 + 1) * 4096 = omega arith in
      rw (e, plain, exact) (omega arith, omega arith, ground (arith, e))
]

-- Extents in bytes have the blocks of those that they come from.
in_extents-blocks : (rs : List Result) (x : ℕ) → in_extents (map in_bytes_of rs) x ≡ covered rs x
in_extents-blocks [] x = refl
in_extents-blocks (r ∷ rs) x =
    let one : in_bytes (r.offset * 4096) (r.size * 4096) x ≡ holds r x = ground arith in
    ap₂ ◌||◌ one (in_extents-blocks rs x)

-- The number of spaces that hold a block of a device of `total` blocks.
abbrev pub spaces_of : ℕ → ℕ
spaces_of total = (total + 4095) / 4096

AreExtents-bytes :
    (total : ℕ) (rs : List Result)
    → total * 4096 < 2 ^ 63
    → Fits total rs
    → AreExtents (spaces_of total) (map in_bytes_of rs)
AreExtents-bytes total [] h f = tt
AreExtents-bytes total (r ∷ rs) h f = (
  omega arith,
  omega (arith, f.0),
  omega (arith, f.1),
  omega (arith, f.1),
  AreExtents-bytes total rs h f.2,
)

total_size-bytes : (rs : List Result) → total_size (map in_bytes_of rs) ≡ total_size rs * 4096
unfolding total_size
total_size-bytes [] = refl
total_size-bytes (r ∷ rs) = omega (arith, total_size-bytes rs)

pub div64-blocks : (n : ℕ) → n * 4096 < 2 ^ 63 → div64 (n * 4096) 4096 ≡ n
div64-blocks n h =
    let plain : is_negative (n * 4096) ≡ false = ground (arith, h) in rw plain (omega arith)

pub fit_block-blocks : (n : ℕ) → n * 4096 < 2 ^ 63 → div64 (fit_block (n * 4096)) 4096 ≡ n
fit_block-blocks n h =
    let least = fit_block-least (n * 4096) (omega arith) in
    let whole : fit_block (n * 4096) ≡ n * 4096 = omega (arith, least) in
    ap (λ t. div64 t 4096) whole ∙ div64-blocks n h

abbrev result_of : ℕ → ℕ → Result
result_of o s = record { offset = o; size = s }

-- The way back from bytes to blocks.
pub byte_results-in_bytes_of :
    (total : ℕ) (rs : List Result)
    → total * 4096 < 2 ^ 63
    → Fits total rs
    → byte_results_to_block_results (map in_bytes_of rs) ≡ rs
unfolding byte_results_to_block_results
byte_results-in_bytes_of total [] h f = refl
byte_results-in_bytes_of total (r ∷ rs) h f =
    ap₂ ◌∷◌
      (ap₂ result_of {x = div64 (r.offset * 4096) 4096} {y = r.offset}
        {u = div64 (fit_block (r.size * 4096)) 4096} {v = r.size}
        (div64-blocks r.offset (omega (arith, f.1))) (fit_block-blocks r.size (omega (arith, f.1))))
      (byte_results-in_bytes_of total rs h f.2)

module _ (size : ℕ) (a : AllocatorV3) where
  abbrev want : ℕ
  want = div64 (fit_block size) 4096

  alloc-granted :
      (rs : List Result) (b : AllocatorV3)
      → 0 < size
      → size < 2 ^ 63
      → 0 < length rs
      → allocate want a ≡ (ok rs, b)
      → alloc size a ≡ (inr (map in_bytes_of rs, rs), b)
  unfolding alloc
  alloc-granted rs b p q h e =
      let fine : is_negative size || size == 0 ≡ false = ground arith in
      let some_rs : length rs == 0 ≡ false = ground (arith, h) in
      simp (alloc, fine, e, some_rs) refl

-- The bits of the persisted bitmap say which blocks of the allocator are not free.
abbrev pub Agrees : {S : Type 0} → ℕ → (List ℕ → S → List ℕ) → AllocatorV3 → S → Type 0
Agrees total read a s =
    (x : ℕ)
    → x < total
    → block_bit a.l0 x ≡ 1 - space_bit (read (family_space_key (x / 4096)) s) (x % 4096)

pub spaces_few : (total : ℕ) → total * 4096 < 2 ^ 63 → spaces_of total ≤ 10 ^ 19
spaces_few total h = omega arith

some_length : (rs : List Result) → 0 < total_size rs → 0 < length rs
unfolding total_size
some_length [] h = absurd (omega arith)
some_length (r ∷ rs) h = omega arith

module _ {S : Type 0} (batch : Batch S) (read : List ℕ → S → List ℕ)
    (merging : IsMerging batch read) (total : ℕ) (fits : total * 4096 < 2 ^ 63) (a : AllocatorV3)
    (sound : IsSound total a) (s : S)
    (spaces : AreSpaces (spaces_of total) (spaces_few total fits) batch read merging s)
    (agrees : Agrees total read a s) (size : ℕ) (positive : 0 < size)
    (room : size ≤ a.available * 4096) where
  free-le : a.available ≤ total
  free-le = omega (arith, sound.valid.counted, sound.size, free_below-le a.total a.l0)

  abbrev blocks_wanted : ℕ
  blocks_wanted = div64 (fit_block size) 4096

  enough :
      (0 < blocks_wanted)
      × (blocks_wanted ≤ a.available)
      × (size < 2 ^ 63)
      × (blocks_wanted * 4096 ≡ fit_block size)
  enough =
      let least = fit_block-least size (omega (arith, room, free-le)) in
      let plain : is_negative (fit_block size) ≡ false = ground (arith, least, room, free-le) in
      let blocks : blocks_wanted ≡ fit_block size / 4096 = rw plain refl in
      (
        omega (arith, least, blocks),
        omega (arith, least, room, blocks),
        omega (arith, room, free-le),
        omega (arith, least, blocks),
      )

  Agrees-after :
      (rs : List Result) (b : AllocatorV3) (s' : S)
      → IsAllocated blocks_wanted a rs b
      → ((k x : ℕ)
          → k < spaces_of total
          → x < 4096
          → space_bit (read (family_space_key k) s') x ≡ (
              if in_extents (map in_bytes_of rs) (k * 4096 + x)
              then 1
              else space_bit (read (family_space_key k) s) x))
      → Agrees total read b s'
  Agrees-after rs b s' g bits x h =
      let back : x / 4096 * 4096 + x % 4096 ≡ x = omega arith in
      let test : in_extents (map in_bytes_of rs) (x / 4096 * 4096 + x % 4096) ≡ covered rs x =
        ap (in_extents (map in_bytes_of rs)) back ∙ in_extents-blocks rs x in
      let now = bits (x / 4096) (x % 4096) (omega arith) (omega arith) in
      ground (arith, g.blocks x, agrees x h, now, test)

  -- Where the allocator is sound, the device has less than 2^63 bytes, every space that holds a
  -- block of the device has a bitmap of 512 bytes, the persisted bit of each block says whether it
  -- is allocated, and the batch takes every merge that the merge operator allows and merges by it,
  -- Alloc of a positive size that is at most the bytes of the free blocks returns extents of just
  -- the size in whole blocks, the same in bytes and in blocks; persisting them with
  -- PersistAllocBatch succeeds, and after both the allocator is sound and the persisted bits again
  -- say which blocks are allocated.
  pub alloc-Agrees :
      (results : List Result) × (blocks : List Result) × (s' : S) × (alloc size a
        ≡ (inr (results, blocks), (alloc size a).1))
      × (total_size results ≡ fit_block size)
      × (byte_results_to_block_results results ≡ blocks)
      × (persist_alloc_batch batch results s ≡ inr s')
      × IsSound total (alloc size a).1
      × Agrees total read (alloc size a).1 s'
  alloc-Agrees =
      let (want_pos, want_le, size_lt, whole) = enough in
      let (rs, e, g) =
        allocate-IsAllocated blocks_wanted a sound.valid sound.sums want_pos want_le in
      let b = (allocate blocks_wanted a).1 in
      let granted =
        alloc-granted size a rs b positive size_lt
          (some_length rs (omega (arith, g.sizes, want_pos))) e in
      let extents = AreExtents-bytes total rs fits (rw⁻¹ sound.size g.in_range) in
      let (s', merged, sized, bits) =
        persist_space_merges-bits (spaces_of total) (spaces_few total fits) batch read merging true
          (map in_bytes_of rs) s extents spaces in
      let state : (alloc size a).1 ≡ b = ap (λ t. t.1) granted in
      (
        map in_bytes_of rs,
        rs,
        s',
        granted ∙ ap (λ t. (inr (map in_bytes_of rs, rs), t)) (sym state),
        total_size-bytes rs ∙ omega (arith, g.sizes, whole),
        byte_results-in_bytes_of total rs fits (rw⁻¹ sound.size g.in_range),
        unfold persist_alloc_batch in merged,
        rw state (record { size = g.total ∙ sound.size; valid = g.valid; sums = g.sums }),
        rw state (Agrees-after rs b s' g bits),
      )
