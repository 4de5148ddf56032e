-- ===== src/Moss/Bitmap.antt =====
-- mossBitmapMerge on bitmaps and on changes of bitmaps.
use corgi.Base.{
  ℕ, ◌+◌, ◌*◌, ◌≤◌, ◌<◌, ◌≡◌, refl, ap, ap₂, ◌∙◌, sym, List, ◌++◌, arith, length, get_or, tabulate,
  AreBytes, length-tabulate, get_or-tabulate_all, tabulate_ext, length-append, get_or-append_left,
  get_or-append_right, bit_and, bit_or, min, max, some, inl, inr, lt-or-le,
}
use corgi.Base.Word.{
  bit_at, bit_at-bit_and, bit_at-bit_or, bit_at-le, bit_at_ext, bit_and-lt, bit_or-lt,
}
use corgi.Moss.{bitmap_merge, space_len}

-- A change of one bit: set, cleared or kept, never a low bit without its high bit; a set bit was 0
-- and a cleared bit was 1.
abbrev pub FitsBit : ℕ → ℕ → ℕ → Type 0
FitsBit e l h = (l ≤ h) × (e + l ≤ 1) × (1 ≤ e + h)

abbrev pub FitsAt : List ℕ → List ℕ → ℕ → ℕ → Type 0
FitsAt base change i k =
    FitsBit (bit_at (get_or base i 0) k) (bit_at (get_or change i 0) k)
      (bit_at (get_or change (i + space_len) 0) k)

-- `change` is a change of a bitmap, that sets bits of `base` that are 0 and clears bits that are 1.
pub record IsChange (base change : List ℕ) : Type 0 where
  pub bytes : AreBytes change
  pub size : length change ≡ 2 * space_len
  pub fits : (i k : ℕ) → i < space_len → k < 8 → FitsAt base change i k

abbrev pub IsBase : List ℕ → Type 0
IsBase base = AreBytes base × (length base ≡ space_len)

-- The bit algebra behind it: e is the bit, l and h the bits of the changes.
abbrev Law : ℕ → ℕ → ℕ → ℕ → ℕ → Type 0
Law e l h l' h' =
    min (max (min (max e l) h) l') h'
    ≡ min (max e (min (max l l') (min h h'))) (max (max l l') (min h h'))

for_later :
    (e l h l' h' : ℕ)
    → Law e l h 0 0
    → Law e l h 0 1
    → Law e l h 1 1
    → h' ≤ 1
    → l' ≤ h'
    → Law e l h l' h'
for_later e l h l' h' clears keeps sets a b =
    let at : (x y : ℕ) → l' ≡ x → h' ≡ y → Law e l h x y → Law e l h l' h' =
      λ x y p q law. rw (p, q) law in
    elim (lt-or-le 0 l') [
      | inl p ↦ at 1 1 (omega arith) (omega arith) sets
      | inr p ↦ elim (lt-or-le 0 h') [
        | inl q ↦ at 0 1 (omega arith) (omega arith) keeps
        | inr q ↦ at 0 0 (omega arith) (omega arith) clears
      ]
    ]

bit-Law : (e l h l' h' : ℕ) → e ≤ 1 → h ≤ 1 → h' ≤ 1 → FitsBit e l h → l' ≤ h' → Law e l h l' h'
bit-Law e l h l' h' a b c fit p =
    let at : (x y z : ℕ)
        → e ≡ x
        → l ≡ y
        → h ≡ z
        → Law x y z 0 0
        → Law x y z 0 1
        → Law x y z 1 1
        → Law e l h l' h' =
      λ x y z i j k clears keeps sets. rw (i, j, k) (for_later x y z l' h' clears keeps sets c p) in
    elim (lt-or-le 0 e) [
      | inl one ↦ elim (lt-or-le 0 h) [
        | inl q ↦ at 1 0 1 (omega arith) (omega (arith, fit.1)) (omega arith) refl refl refl
        | inr q ↦ at 1 0 0 (omega arith) (omega (arith, fit.1)) (omega arith) refl refl refl
      ]
      | inr none_there ↦ elim (lt-or-le 0 l) [
        | inl q ↦
            at 0 1 1 (omega arith) (omega (arith, fit.1)) (omega (arith, fit.2)) refl refl refl
        | inr q ↦ at 0 0 1 (omega arith) (omega arith) (omega (arith, fit.2)) refl refl refl
      ]
    ]

byte_law :
    (e l h l' h' : ℕ)
    → e < 256
    → l < 256
    → h < 256
    → l' < 256
    → h' < 256
    → ((k : ℕ) → k < 8 → FitsBit (bit_at e k) (bit_at l k) (bit_at h k))
    → ((k : ℕ) → k < 8 → bit_at l' k ≤ bit_at h' k)
    → bit_and (bit_or (bit_and (bit_or e l) h) l') h'
      ≡ bit_and
          (bit_or e (bit_and (bit_or l l') (bit_and h h')))
          (bit_or (bit_or l l') (bit_and h h'))
byte_law e l h l' h' a b c d g fit ordered =
    bit_at_ext 8 _ _
      (bit_and-lt 8 _ h' (bit_or-lt 8 _ l' (bit_and-lt 8 _ h (bit_or-lt 8 e l a b)) d))
      (bit_and-lt 8 _ _ (bit_or-lt 8 e _ a (bit_and-lt 8 _ _ (bit_or-lt 8 l l' b d))))
      λ k q.
        rw
          (
            bit_at-bit_and (bit_or (bit_and (bit_or e l) h) l') h' k,
            bit_at-bit_or (bit_and (bit_or e l) h) l' k,
            bit_at-bit_and (bit_or e l) h k,
            bit_at-bit_or e l k,
            bit_at-bit_and (bit_or e (bit_and (bit_or l l') (bit_and h h')))
                (bit_or (bit_or l l') (bit_and h h')) k,
            bit_at-bit_or e (bit_and (bit_or l l') (bit_and h h')) k,
            bit_at-bit_or (bit_or l l') (bit_and h h') k,
            bit_at-bit_and (bit_or l l') (bit_and h h') k,
            bit_at-bit_and h h' k,
            bit_at-bit_or l l' k,
          )
          (bit-Law (bit_at e k) (bit_at l k) (bit_at h k) (bit_at l' k) (bit_at h' k)
            (bit_at-le e k) (bit_at-le h k) (bit_at-le h' k) (fit k q) (ordered k q))

-- The result of a merge into a bitmap, and of a merge into a change.
abbrev applied_byte : List ℕ → List ℕ → ℕ → ℕ
applied_byte e c i = bit_and (bit_or (get_or e i 0) (get_or c i 0)) (get_or c (i + space_len) 0)

abbrev applied : List ℕ → List ℕ → List ℕ
applied e c = tabulate space_len 0 (applied_byte e c)

abbrev low_half : List ℕ → List ℕ → ℕ → ℕ
low_half c d i =
    bit_and (bit_or (get_or c i 0) (get_or d i 0))
      (bit_and (get_or c (i + space_len) 0) (get_or d (i + space_len) 0))

abbrev high_half : List ℕ → List ℕ → ℕ → ℕ
high_half c d i =
    bit_or (bit_or (get_or c i 0) (get_or d i 0))
      (bit_and (get_or c (i + space_len) 0) (get_or d (i + space_len) 0))

abbrev composed : List ℕ → List ℕ → List ℕ
composed c d = tabulate space_len 0 (low_half c d) ++ tabulate space_len 0 (high_half c d)

bitmap_merge-base :
    (e c : List ℕ)
    → length e ≡ space_len
    → length c ≡ 2 * space_len
    → bitmap_merge e c ≡ some (applied e c)
unfolding bitmap_merge
bitmap_merge-base e c p q = rw (p, q) refl

bitmap_merge-change :
    (c d : List ℕ)
    → length c ≡ 2 * space_len
    → length d ≡ 2 * space_len
    → bitmap_merge c d ≡ some (composed c d)
unfolding bitmap_merge
bitmap_merge-change c d p q = rw (p, q) refl

length-composed : (c d : List ℕ) → length (composed c d) ≡ 2 * space_len
length-composed c d =
    length-append (tabulate space_len 0 (low_half c d)) (tabulate space_len 0 (high_half c d))
    ∙ ap₂ ◌+◌ (length-tabulate space_len 0 (low_half c d))
        (length-tabulate space_len 0 (high_half c d))

get_or-composed_low :
    (c d : List ℕ) (i : ℕ) → i < space_len → get_or (composed c d) i 0 ≡ low_half c d i
get_or-composed_low c d i h =
    get_or-append_left (tabulate space_len 0 (low_half c d)) (tabulate space_len 0 (high_half c d))
      i 0 (rw (length-tabulate space_len 0 (low_half c d)) h)
    ∙ get_or-tabulate_all space_len i (low_half c d) 0 h

get_or-composed_high :
    (c d : List ℕ) (i : ℕ)
    → i < space_len
    → get_or (composed c d) (i + space_len) 0 ≡ high_half c d i
get_or-composed_high c d i h =
    ap (λ t. get_or (composed c d) t 0) {x = i + space_len}
      {y = i + length (tabulate space_len 0 (low_half c d))}
      (ap (λ t. i + t) (sym (length-tabulate space_len 0 (low_half c d))))
    ∙ get_or-append_right (tabulate space_len 0 (low_half c d))
        (tabulate space_len 0 (high_half c d)) i 0
    ∙ get_or-tabulate_all space_len i (high_half c d) 0 h

same_bytes :
    (base first second : List ℕ)
    → IsBase base
    → IsChange base first
    → AreBytes second
    → ((i k : ℕ)
        → i < space_len
        → k < 8
        → bit_at (get_or second i 0) k ≤ bit_at (get_or second (i + space_len) 0) k)
    → applied (applied base first) second ≡ applied base (composed first second)
same_bytes base first second valid change bytes ordered =
    tabulate_ext space_len 0 (applied_byte (applied base first) second)
      (applied_byte base (composed first second))
      λ i p q.
        rw
          (
            get_or-tabulate_all space_len i (applied_byte base first) 0 q,
            get_or-composed_low first second i q,
            get_or-composed_high first second i q,
          )
          (byte_law (get_or base i 0) (get_or first i 0) (get_or first (i + space_len) 0)
            (get_or second i 0) (get_or second (i + space_len) 0) (valid.0 i) (change.bytes i)
            (change.bytes (i + space_len)) (bytes i) (bytes (i + space_len))
            (λ k. change.fits i k q) (λ k. ordered i k q))

-- Merging two changes of a bitmap into it, one after the other, is merging the change that they
-- compose to: all four merges succeed and their results are equal, where the first change sets
-- only bits that are 0 and clears only bits that are 1, and the second never has a low bit without
-- its high bit.
pub bitmap_merge-bitmap_merge :
    (base first second : List ℕ)
    → IsBase base
    → IsChange base first
    → AreBytes second
    → length second ≡ 2 * space_len
    → ((i k : ℕ)
        → i < space_len
        → k < 8
        → bit_at (get_or second i 0) k ≤ bit_at (get_or second (i + space_len) 0) k)
    → (r : List ℕ) × (both : List ℕ) × (result : List ℕ) × (bitmap_merge base first ≡ some r)
      × (bitmap_merge r second ≡ some result)
      × (bitmap_merge first second ≡ some both)
      × (bitmap_merge base both ≡ some result)
bitmap_merge-bitmap_merge base first second valid change bytes size ordered =
    let r = applied base first in
    let both = composed first second in
    (
      r,
      both,
      applied r second,
      bitmap_merge-base base first valid.1 change.size,
      bitmap_merge-base r second (length-tabulate space_len 0 (applied_byte base first)) size,
      bitmap_merge-change first second change.size size,
      bitmap_merge-base base both valid.1 (length-composed first second)
          ∙ ap some (sym (same_bytes base first second valid change bytes ordered)),
    )
