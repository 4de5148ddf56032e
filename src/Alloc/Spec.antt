-- ===== src/Alloc/Spec.antt =====
-- What the block allocator promises, on the set of free blocks alone: for each call of its methods
-- and each answer, when that answer is allowed and which blocks are free after it.
use corgi.Base.{
  ℕ, ◌+◌, ◌^◌, ◌≤◌, ◌<◌, ◌≡◌, ◌⊎◌, Bool, true, false, not, ◌&&◌, ◌||◌, List, if◌then◌else◌,
}
use corgi.Base.Sum.{sum_below}
use corgi.Alloc.Geometry.{Result}
use corgi.Alloc.Api.{Error}
use corgi.Alloc.Api.Valid.{Fits, covered, holds}
use corgi.Alloc.Api.Extents.{total_size, AreDisjoint}

-- A set of free blocks.
abbrev pub Blocks : Type 0
Blocks = ℕ → Bool

abbrev pub count_below : ℕ → Blocks → ℕ
count_below total f = sum_below total (λ x. if f x then 1 else 0)

pub data Call : Type 0 where
  allocating : ℕ → Call
  releasing : List Result → Call
  marking_allocated marking_free : Result → Call

pub data Answer : Type 0 where
  granted : List Result → Answer
  done : Answer
  refused : Error → Answer

-- The two sets have the same blocks.
abbrev pub AreSame : Blocks → Blocks → Type 0
AreSame f g = (x : ℕ) → g x ≡ f x

abbrev IsNotPositive : ℕ → Type 0
IsNotPositive n = n ≡ 0 ⊎ 2 ^ 63 ≤ n

-- The extents can be released: they lie in the device, share no block and hold no free one.
abbrev pub AreReleasable : ℕ → Blocks → List Result → Type 0
AreReleasable total f rs =
    Fits total rs × AreDisjoint rs × ((x : ℕ) → covered rs x ≡ true → f x ≡ false)

abbrev pub IsInside : ℕ → Result → Type 0
IsInside total r = (0 < r.size) × (r.offset + r.size ≤ total)

-- From the free blocks `f`, the call may give the answer and leave the free blocks `g`.
abbrev pub IsAllowed : ℕ → Call → Blocks → Answer → Blocks → Type 0
IsAllowed total (allocating want) f (granted rs) g =
    (0 < want)
    × (total_size rs ≡ want)
    × Fits total rs
    × AreDisjoint rs
    × ((x : ℕ) → covered rs x ≡ true → f x ≡ true)
    × ((x : ℕ) → g x ≡ f x && not (covered rs x))
IsAllowed total (allocating want) f (refused e) g =
    (IsNotPositive want ⊎ count_below total f < want) × AreSame f g
IsAllowed total (releasing rs) f done g =
    AreReleasable total f rs × ((x : ℕ) → g x ≡ f x || covered rs x)
IsAllowed total (releasing rs) f (refused e) g = ¬ (AreReleasable total f rs) × AreSame f g
IsAllowed total (marking_allocated r) f done g =
    (IsNotPositive r.size × AreSame f g)
    ⊎ (IsInside total r × ((x : ℕ) → g x ≡ f x && not (holds r x)))
IsAllowed total (marking_allocated r) f (refused e) g = ¬ (IsInside total r) × AreSame f g
IsAllowed total (marking_free r) f done g =
    (IsNotPositive r.size × AreSame f g) ⊎ (IsInside total r × ((x : ℕ) → g x ≡ f x || holds r x))
IsAllowed total (marking_free r) f (refused e) g = ¬ (IsInside total r) × AreSame f g
IsAllowed total c f a g = ⊥
