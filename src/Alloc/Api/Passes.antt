-- ===== src/Alloc/Api/Passes.antt =====
-- The two passes of Allocate: what they have taken, and where they stop.
use corgi.Base.{
  ℕ, ◌+◌, ◌≤◌, ◌<◌, ◌≡◌, ap, ◌∙◌, true, false, List, [], ◌∷◌, if◌then◌else◌, arith, Bool-cases, inl,
  inr, ◌^◌,
}
use corgi.Base.Sum.{sum_below-cleared}
use corgi.Alloc.Geometry.{Result, append_result}
use corgi.Alloc.Store.{AllocatorV3}
use corgi.Alloc.Mark.{mark_range}
use corgi.Alloc.Mark.Blocks.{block_bit, IsBitmap}
use corgi.Alloc.Mark.Counts.{IsClean, free_blocks, free_below}
use corgi.Alloc.Summary.Refresh.{IsSummarised, mark_range-IsSummarised}
use corgi.Alloc.Api.Valid.{IsMarked, holds, covered, Fits, mark_range-IsMarked}
use corgi.Alloc.Api.Extents.{
  total_size, AreDisjoint, covered-append_result, total_size-append_result, Fits-append_result,
  AreDisjoint-append_result,
}

-- `b` is `a` with the blocks of `rs` taken, all of which were free, and none of them twice.
pub record IsTaken (rs : List Result) (a b : AllocatorV3) : Type 0 where
  pub total : b.total ≡ a.total
  pub available : b.available ≡ a.available
  pub last_pos : b.last_pos ≡ a.last_pos
  pub bitmap : IsBitmap b.total b.l0
  pub clean : IsClean b.total b.l0
  pub sums : IsSummarised b
  pub in_range : Fits a.total rs
  pub disjoint : AreDisjoint rs
  pub were_free : (x : ℕ) → covered rs x ≡ true → block_bit a.l0 x ≡ 1
  pub blocks : (x : ℕ) → block_bit b.l0 x ≡ (if covered rs x then 0 else block_bit a.l0 x)
  pub counts : free_blocks b + total_size rs ≡ free_blocks a

module _ (a b : AllocatorV3) (rs : List Result) (t : IsTaken rs a b) (r : Result)
    (size : 0 < r.size) (fits : r.offset + r.size ≤ b.total)
    (free : (x : ℕ) → r.offset ≤ x → x < r.offset + r.size → block_bit b.l0 x ≡ 1) where
  abbrev after : AllocatorV3
  after = (mark_range r.offset r.size false b).0

  marked : IsMarked false (r ∷ []) b after (mark_range r.offset r.size false b).1
  marked = mark_range-IsMarked false r b t.bitmap t.clean size fits

  apart : (x : ℕ) → holds r x ≡ true → covered rs x ≡ false
  apart x h = elim (Bool-cases (covered rs x)) [
    | inl e ↦ absurd (ground (arith, free x, t.blocks x, h, e))
    | inr e ↦ e
  ]

  inside : r.offset + r.size ≤ a.total
  inside = omega (arith, fits, t.total)

  taken_blocks : free_blocks b ≡ free_below b.total after.l0 + r.size
  unfolding free_below
  taken_blocks =
      sum_below-cleared r.offset r.size b.total (block_bit b.l0) (block_bit after.l0) fits free
        (λ x p q. marked.blocks x ∙ ground arith) (λ x p. marked.blocks x ∙ ground arith)
        (λ x p q. marked.blocks x ∙ ground arith)

  -- Taking one more run of free blocks.
  pub IsTaken-append : IsTaken (append_result rs r) a after
  IsTaken-append = record {
    total = marked.total ∙ t.total;
    available = marked.available ∙ t.available;
    last_pos = marked.last_pos ∙ t.last_pos;
    bitmap = marked.bitmap;
    clean = marked.clean;
    sums = mark_range-IsSummarised r.offset r.size false b t.bitmap t.clean t.sums size fits;
    in_range = Fits-append_result a.total rs r size inside small t.in_range;
    disjoint = AreDisjoint-append_result a.total rs r size inside small apart t.disjoint;
    were_free = λ x h. ground (
      arith,
      covered-append_result a.total rs r size inside small x,
      t.were_free x,
      free x,
      t.blocks x,
    );
    blocks = λ x. ground (
      arith,
      covered-append_result a.total rs r size inside small x,
      t.blocks x,
      marked.blocks x,
    );
    counts = omega (
      arith,
      total_size-append_result a.total rs r size inside small,
      taken_blocks,
      t.counts,
      ap (λ n. free_below n after.l0) marked.total,
    );
  }
    where
      small : a.total ≤ 2 ^ 62
      small = omega (arith, t.bitmap.small, t.total)
