-- ===== src/Alloc/Api/Allocate.antt =====
-- AllocatorV3.Allocate as a whole: the two passes, and the state and results of the call.
use corgi.Base.{
  ℕ, ◌+◌, ◌-◌, ◌≤◌, ◌<◌, ◌≡◌, refl, true, false, ◌||◌, List, [], ◌==◌, if◌then◌else◌, arith,
  Bool-cases, lt-or-le, inl, inr, ◌⊎◌, ◌^◌, ==→eq, eq→==, min,
}
use corgi.Base.Sum.{sum_below-zeros}
use corgi.Alloc.Geometry.{Result, is_negative, signed_lt}
use corgi.Alloc.Store.{AllocatorV3}
use corgi.Alloc.Mark.Blocks.{block_bit}
use corgi.Alloc.Mark.Counts.{free_blocks, free_below}
use corgi.Alloc.Summary.Refresh.{IsSummarised}
use corgi.Alloc.Search.Hits.{NoFree}
use corgi.Alloc.Api.{
  Progress, allocate_pass, allocate_passes, allocate, next_pos, ok, err, invalid_size,
  not_enough_space,
}
use corgi.Alloc.Api.Valid.{IsValid, Fits, covered, free_below-le}
use corgi.Alloc.Api.Extents.{total_size, AreDisjoint}
use corgi.Alloc.Api.Rounds.{IsProgress, IsPassed, allocate_pass-IsPassed}

-- `b` is `a` with the extents `rs`, of `want` blocks, allocated.
pub record IsAllocated (want : ℕ) (a : AllocatorV3) (rs : List Result) (b : AllocatorV3)
    : Type 0 where
  pub total : b.total ≡ a.total
  pub sizes : total_size rs ≡ want
  pub in_range : Fits a.total rs
  pub disjoint : AreDisjoint rs
  pub were_free : (x : ℕ) → covered rs x ≡ true → block_bit a.l0 x ≡ 1
  pub blocks : (x : ℕ) → block_bit b.l0 x ≡ (if covered rs x then 0 else block_bit a.l0 x)
  pub available : b.available + want ≡ a.available
  pub valid : IsValid b
  pub sums : IsSummarised b

module _ (want : ℕ) (a : AllocatorV3) (v : IsValid a) (sums : IsSummarised a) (positive : 0 < want)
    (room : want ≤ a.available) where
  free-le : free_blocks a ≤ a.total
  free-le = free_below-le a.total a.l0

  small : want < 2 ^ 63
  small = omega (arith, v.counted, free-le, v.bitmap.small)

  abbrev initial : Progress
  initial = record { left = want; results = []; state = a }

  initial-IsProgress : IsProgress want a initial
  initial-IsProgress = record {
    taken = record {
      total = refl;
      available = refl;
      last_pos = refl;
      bitmap = v.bitmap;
      clean = v.clean;
      sums = sums;
      in_range = tt;
      disjoint = tt;
      were_free = λ x h. ground arith;
      blocks = λ x. refl;
      counts = unfold total_size in omega arith;
    };
    sizes = unfold total_size in omega arith;
  }

  abbrev first : Progress
  first = allocate_pass want false a.last_pos initial

  first-IsPassed : IsPassed want a small false a.last_pos 0 0 first
  first-IsPassed =
      allocate_pass-IsPassed want a small want false a.last_pos 0 0 a.last_pos initial
        initial-IsProgress (omega arith) (λ x p q. absurd (omega arith))
        (λ x p q. absurd (omega arith))

  -- When no block is left there was room for no more than has been taken.
  exhausted :
      (p : Progress)
      → IsProgress want a p
      → NoFree p.state.l0 0 (min a.last_pos a.total)
      → NoFree p.state.l0 a.last_pos a.total
      → p.left ≡ 0
  exhausted p g before after =
      let none_free : free_blocks p.state ≡ 0 =
        unfold free_below in
        sum_below-zeros p.state.total (block_bit p.state.l0) (λ x k. elim (lt-or-le x a.last_pos) [
          | inl l ↦ before x (omega arith) (omega (arith, g.taken.total))
          | inr l ↦ after x l (omega (arith, g.taken.total))
        ]) in
      omega (arith, none_free, g.sizes, g.taken.counts, v.counted)

  second-found :
      NoFree first.state.l0 a.last_pos a.total
      → IsProgress want a (allocate_pass first.left true 0 first)
        × ((allocate_pass first.left true 0 first).left ≡ 0)
  second-found h =
      let passed =
        allocate_pass-IsPassed want a small first.left true 0 a.last_pos a.total 0 first
          first-IsPassed.progress (omega arith) (λ x p q. absurd (omega arith)) h in
      let q = allocate_pass first.left true 0 first in
      (
        passed.progress,
        elim passed.swept [
          | inl done ↦ done
          | inr swept ↦ exhausted q passed.progress swept passed.same
        ],
      )

  allocate_passes-found :
      IsProgress want a (allocate_passes want a) × ((allocate_passes want a).left ≡ 0)
  unfolding allocate_passes
  allocate_passes-found = elim (Bool-cases (first.left == 0)) [
    | inl e ↦ rw e (first-IsPassed.progress, ==→eq first.left 0 e)
    | inr e ↦ rw e (
        second-found (elim first-IsPassed.swept [
          | inl done ↦ absurd (ground (arith, done))
          | inr swept ↦ swept
        ]))
  ]

  abbrev found : Progress
  found = allocate_passes want a

  abbrev settled : AllocatorV3
  settled = record found.state {
    available = found.state.available - want;
    last_pos = next_pos found.state.total found.results found.state.last_pos;
  }

  accepted : is_negative want || want == 0 ≡ false
  accepted = ground (arith, small)

  enough : signed_lt a.available want ≡ false
  enough = ground (arith, v.counted, free-le, v.bitmap.small)

  allocate-settled : allocate want a ≡ (ok found.results, settled)
  unfolding allocate
  allocate-settled = rw (accepted, enough, eq→== found.left 0 allocate_passes-found.1) refl

  settled-IsAllocated : IsAllocated want a found.results settled
  settled-IsAllocated =
      let (g, done) = allocate_passes-found in
      let t = g.taken in
      record {
        total = t.total;
        sizes = omega (arith, g.sizes, done);
        in_range = t.in_range;
        disjoint = t.disjoint;
        were_free = t.were_free;
        blocks = t.blocks;
        available = omega (arith, t.available);
        valid = record {
          bitmap = t.bitmap;
          clean = t.clean;
          counted = omega (arith, t.available, v.counted, t.counts, g.sizes, done);
        };
        sums = record {
          covers1 = t.sums.covers1;
          covers2 = t.sums.covers2;
          tells1 = t.sums.tells1;
          tells2 = t.sums.tells2;
        };
      }

  -- On a valid allocator whose summaries tell the truth, Allocate of a positive number of blocks
  -- that does not exceed the counter returns extents: disjoint, inside the device, together of
  -- just that size, and free before; after it exactly those blocks are taken, the counter has gone
  -- down by the number, and the allocator is valid and summarised.
  pub allocate-IsAllocated :
      (rs : List Result) × (allocate want a ≡ (ok rs, (allocate want a).1))
      × IsAllocated want a rs (allocate want a).1
  allocate-IsAllocated =
      (found.results, rw allocate-settled refl, rw allocate-settled settled-IsAllocated)

-- The refusals, before any block is marked.
pub allocate-refused :
    (want : ℕ) (a : AllocatorV3)
    → want < 2 ^ 64
    → a.available < 2 ^ 63
    → (want ≡ 0 ⊎ 2 ^ 63 ≤ want → allocate want a ≡ (err invalid_size, a))
      × (0 < want
          → want < 2 ^ 63
          → a.available < want
          → allocate want a ≡ (err not_enough_space, a))
unfolding allocate
allocate-refused want a p q =
    let negative : (want ≡ 0 ⊎ 2 ^ 63 ≤ want) → is_negative want || want == 0 ≡ true =
      λ h. ground (arith, h) in
    let lacking : a.available < want → want < 2 ^ 63 → signed_lt a.available want ≡ true =
      λ h k. ground arith in
    let fine : 0 < want → want < 2 ^ 63 → is_negative want || want == 0 ≡ false =
      λ h k. ground arith in
    (λ h. rw (negative h) refl, λ h k l. rw (fine h k, lacking l k) refl)
