-- ===== src/Alloc/Api/Valid.antt =====
-- The invariant of the allocator's bitmap and counter, and what marking a list of extents does.
use mathlib.Core.Path.{subst}
use corgi.Base.{
  ℕ, zero, suc, ◌+◌, ◌≤◌, ◌<◌, ◌≡◌, refl, ◌∙◌, sym, Bool, true, false, ◌&&◌, ◌||◌, List, [], ◌∷◌,
  ltb, leb, if◌then◌else◌, arith,
}
use corgi.Base.Sum.{sum_below}
use corgi.Alloc.Geometry.{Result}
use corgi.Alloc.Store.{AllocatorV3}
use corgi.Alloc.Mark.{mark_range}
use corgi.Alloc.Mark.Blocks.{
  block_bit, block_bit-le, IsBitmap, mark_range-block, mark_range-IsRefreshed,
}
use corgi.Alloc.Mark.Counts.{
  IsClean, free_blocks, free_below, Counts, mark_range-IsBitmap, mark_range-IsClean,
  mark_range-Counts,
}
use corgi.Alloc.Api.{mark_all}

-- The bitmap has the right size, nothing beyond the last block, and the counter is the number of
-- free blocks.
pub record IsValid (a : AllocatorV3) : Type 0 where
  pub bitmap : IsBitmap a.total a.l0
  pub clean : IsClean a.total a.l0
  pub counted : a.available ≡ free_blocks a

abbrev pub holds : Result → ℕ → Bool
holds r b = leb r.offset b && ltb b (r.offset + r.size)

abbrev pub covered : List Result → ℕ → Bool
covered [] b = false
covered (r ∷ rs) b = holds r b || covered rs b

abbrev pub Fits : ℕ → List Result → Type 0
Fits total [] = Unit {0}
Fits total (r ∷ rs) = (0 < r.size) × (r.offset + r.size ≤ total) × Fits total rs

-- `b` is `a` with the covered blocks marked, and `changed` blocks of other state.
pub record IsMarked (free : Bool) (rs : List Result) (a b : AllocatorV3) (changed : ℕ)
    : Type 0 where
  pub total : b.total ≡ a.total
  pub available : b.available ≡ a.available
  pub last_pos : b.last_pos ≡ a.last_pos
  pub bitmap : IsBitmap b.total b.l0
  pub clean : IsClean b.total b.l0
  pub counts : Counts free (free_blocks a) (free_blocks b) changed
  pub blocks :
      (x : ℕ)
      → block_bit b.l0 x ≡ (if covered rs x then (if free then 1 else 0) else block_bit a.l0 x)

pub mark_range-IsMarked :
    (free : Bool) (r : Result) (a : AllocatorV3)
    → IsBitmap a.total a.l0
    → IsClean a.total a.l0
    → 0 < r.size
    → r.offset + r.size ≤ a.total
    → IsMarked free
        (r ∷ [])
        a
        (mark_range r.offset r.size free a).0
        (mark_range r.offset r.size free a).1
mark_range-IsMarked free r a v c p q =
    let frame = mark_range-IsRefreshed r.offset r.size free a p in
    record {
      total = frame.total;
      available = frame.available;
      last_pos = frame.last_pos;
      bitmap = mark_range-IsBitmap r.offset r.size free a v c p q;
      clean = mark_range-IsClean r.offset r.size free a v c p q;
      counts = mark_range-Counts r.offset r.size free a v c p q;
      blocks = λ x. mark_range-block r.offset r.size free a v p q x ∙ ground arith;
    }

Counts-trans :
    (free : Bool) (x y z m n : ℕ) → Counts free x y m → Counts free y z n → Counts free x z (m + n)
Counts-trans true x y z m n p q = omega arith
Counts-trans false x y z m n p q = omega arith

Counts-refl : (free : Bool) (x : ℕ) → Counts free x x 0
Counts-refl true x = omega arith
Counts-refl false x = omega arith

IsMarked-cons :
    (free : Bool) (r : Result) (rs : List Result) (a b c : AllocatorV3) (m n : ℕ)
    → IsMarked free (r ∷ []) a b m
    → IsMarked free rs b c n
    → IsMarked free (r ∷ rs) a c (m + n)
IsMarked-cons free r rs a b c m n p q = record {
  total = q.total ∙ p.total;
  available = q.available ∙ p.available;
  last_pos = q.last_pos ∙ p.last_pos;
  bitmap = q.bitmap;
  clean = q.clean;
  counts = Counts-trans free (free_blocks a) (free_blocks b) (free_blocks c) m n p.counts q.counts;
  blocks = λ x. q.blocks x ∙ ground (arith, p.blocks x);
}

pub mark_all-cons :
    (free : Bool) (r : Result) (rs : List Result) (a : AllocatorV3)
    → let (b, m) = mark_range r.offset r.size free a in
      let (c, n) = mark_all free rs b in mark_all free (r ∷ rs) a ≡ (c, m + n)
unfolding mark_all
mark_all-cons free r rs a = refl

pub mark_all-IsMarked :
    (free : Bool) (rs : List Result) (a : AllocatorV3)
    → IsBitmap a.total a.l0
    → IsClean a.total a.l0
    → Fits a.total rs
    → IsMarked free rs a (mark_all free rs a).0 (mark_all free rs a).1
mark_all-IsMarked free [] a v c f =
    unfold mark_all in
    record {
      total = refl;
      available = refl;
      last_pos = refl;
      bitmap = v;
      clean = c;
      counts = Counts-refl free (free_blocks a);
      blocks = λ x. refl;
    }
mark_all-IsMarked free (r ∷ rs) a v c f =
    let first = mark_range-IsMarked free r a v c f.0 f.1 in
    let b = (mark_range r.offset r.size free a).0 in
    let rest =
      mark_all-IsMarked free rs b first.bitmap first.clean
        (subst (λ t. Fits t rs) (sym first.total) f.2) in
    rw (mark_all-cons free r rs a) (
      IsMarked-cons free r rs a b (mark_all free rs b).0 (mark_range r.offset r.size free a).1
        (mark_all free rs b).1 first rest)

-- There are at most `n` free blocks below `n`.
pub free_below-le : (n : ℕ) (l0 : List ℕ) → free_below n l0 ≤ n
unfolding free_below sum_below
free_below-le zero l0 = omega arith
free_below-le (suc n) l0 = omega (arith, free_below-le n l0, block_bit-le l0 n)
