-- ===== src/Space/Restart.antt =====
-- A device that is closed and opened again: the allocator in use, and the one that loadAllocator builds.
use corgi.Base.{◌+◌, ℕ, ◌/◌, ◌^◌, ◌≤◌, ◌<◌, ◌≡◌, ap, ◌∙◌, sym, List, Option, inr}
use corgi.Base.Sum.{sum_below_ext}
use corgi.Alloc.Store.{AllocatorV3}
use corgi.Alloc.Mark.Blocks.{block_bit}
use corgi.Alloc.Mark.Counts.{free_below}
use corgi.Alloc.Api.{new_allocator}
use corgi.Alloc.Calls.{IsSound}
use corgi.Space.Device.{load_allocator, family_space_key}
use corgi.Space.Grants.{Agrees}
use corgi.Space.Restore.{IsStored, load_allocator-restores}

free_below_ext :
    (n : ℕ) (l m : List ℕ)
    → ((x : ℕ) → x < n → block_bit l x ≡ block_bit m x)
    → free_below n l ≡ free_below n m
unfolding free_below
free_below_ext n l m h = sum_below_ext n (block_bit l) (block_bit m) h

-- Two sound allocators of a device with the same free blocks count the same.
same_available :
    (total : ℕ) (a b : AllocatorV3)
    → IsSound total a
    → IsSound total b
    → ((x : ℕ) → x < total → block_bit b.l0 x ≡ block_bit a.l0 x)
    → b.available ≡ a.available
same_available total a b p q h =
    q.valid.counted
    ∙ ap (λ t. free_below t b.l0) q.size
    ∙ free_below_ext total b.l0 a.l0 h
    ∙ ap (λ t. free_below t a.l0) (sym p.size)
    ∙ sym p.valid.counted

-- For a device of at least one block and at most 2^63 - 2^24 bytes whose spaces are all read
-- without an error, as bytes, and a sound allocator that agrees with the persisted bits,
-- loadAllocator returns no error and gives a sound allocator with the same free blocks and the
-- same number of available blocks.
pub load_allocator-Agrees :
    (get : List ℕ → Option (Option (List ℕ))) {S : Type 0} (read : List ℕ → S → List ℕ) (s : S)
    (size : ℕ)
    → 4096 ≤ size
    → size + 2 ^ 24 ≤ 2 ^ 63
    → IsStored get size (λ k. read (family_space_key k) s)
    → (a : AllocatorV3) → IsSound (size / 4096) a
    → Agrees (size / 4096) read a s
    → (b : AllocatorV3) × (load_allocator get size (new_allocator (size / 4096)) ≡ inr b)
      × IsSound (size / 4096) b
      × ((x : ℕ) → x < size / 4096 → block_bit b.l0 x ≡ block_bit a.l0 x)
      × (b.available ≡ a.available)
load_allocator-Agrees get read s size p q stored a sound agrees =
    let (b, done, sound', bits) =
      load_allocator-restores get size (λ k. read (family_space_key k) s) stored p q in
    let same : (x : ℕ) → x < size / 4096 → block_bit b.l0 x ≡ block_bit a.l0 x =
      λ x h. bits x h ∙ sym (agrees x h) in
    (b, done, sound', same, same_available (size / 4096) a b sound sound' same)
