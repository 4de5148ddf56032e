-- ===== src/Space/Merges.antt =====
-- The merge of the value of an update into the bitmap of a space.
use corgi.Base.{
  ℕ, ◌+◌, ◌-◌, ◌/◌, ◌%◌, ◌≤◌, ◌<◌, ◌≡◌, refl, ap, ◌∙◌, Bool, true, false, List, ◌==◌, if◌then◌else◌,
  length, get_or, eq→==, arith, bit_and, bit_or, min, max, tabulate, length-tabulate,
  get_or-tabulate_all, some,
}
use corgi.Base.Word.{bit_at, bit_at-le, bit_at-bit_or, bit_at-bit_and}
use corgi.Moss.{bitmap_merge}
use corgi.Space.{Marks, simple_space_update_value}
use corgi.Space.Marking.{half_bit, IsMarks, in_marks, bit_of, painted}
use corgi.Space.Values.{value-bit, value-other, length-value}

-- The bit of block `b` of a space.
abbrev pub space_bit : List ℕ → ℕ → ℕ
space_bit value b = bit_at (get_or value (b / 8) 0) (7 - b % 8)

low_bit :
    (allocated : Bool) (m : Marks) (b : ℕ)
    → IsMarks m
    → b < 4096
    → space_bit (simple_space_update_value allocated m) b
      ≡ (if allocated then painted true (in_marks m b) else 0)
low_bit allocated m b v h =
    ap (λ i. bit_at (get_or (simple_space_update_value allocated m) i 0) (7 - b % 8)) {x = b / 8}
      {y = b / 8 + 0} (omega arith)
    ∙ by_kind allocated
  where
    by_kind :
        (a : Bool)
        → half_bit (simple_space_update_value a m) 0 b
          ≡ (if a then painted true (in_marks m b) else 0)
    by_kind true = value-bit true m v b h
    by_kind false = value-other false m v b h

high_bit :
    (allocated : Bool) (m : Marks) (b : ℕ)
    → IsMarks m
    → b < 4096
    → half_bit (simple_space_update_value allocated m) 512 b
      ≡ (if allocated then 1 else painted false (in_marks m b))
high_bit true m b v h = value-other true m v b h
high_bit false m b v h = value-bit false m v b h

-- Merging the value of marks into the bitmap of a space.
pub bitmap_merge-value :
    (allocated : Bool) (m : Marks) (e : List ℕ)
    → IsMarks m
    → length e ≡ 512
    → (r : List ℕ) × (bitmap_merge e (simple_space_update_value allocated m) ≡ some r)
      × (length r ≡ 512)
      × ((b : ℕ)
          → b < 4096
          → space_bit r b ≡ (if in_marks m b then bit_of allocated else space_bit e b))
bitmap_merge-value allocated m e v h =
    let c = simple_space_update_value allocated m in
    let f : ℕ → ℕ = λ i. bit_and (bit_or (get_or e i 0) (get_or c i 0)) (get_or c (i + 512) 0) in
    let lone : length e == 512 ≡ true = eq→== (length e) 512 h in
    let double : length c == 1024 ≡ true = eq→== (length c) 1024 (length-value allocated m) in
    let same : bitmap_merge e c ≡ some (tabulate 512 0 f) =
      unfold bitmap_merge in rw (double, lone) refl in
    (
      tabulate 512 0 f,
      same,
      length-tabulate 512 0 f,
      λ b k.
          ap (λ x. bit_at x (7 - b % 8)) (get_or-tabulate_all 512 (b / 8) f 0 (omega arith))
          ∙ bit_at-bit_and (bit_or (get_or e (b / 8) 0) (get_or c (b / 8) 0))
              (get_or c (b / 8 + 512) 0) (7 - b % 8)
          ∙ ap (λ t. min t (half_bit c 512 b))
              (bit_at-bit_or (get_or e (b / 8) 0) (get_or c (b / 8) 0) (7 - b % 8))
          ∙ rw (low_bit allocated m b v k, high_bit allocated m b v k)
              (by_kind allocated (space_bit e b) (in_marks m b)
                (bit_at-le (get_or e (b / 8) 0) (7 - b % 8))),
    )
  where
    by_kind :
        (a : Bool) (x : ℕ) (inside : Bool)
        → x ≤ 1
        → min (max x (if a then painted true inside else 0)) (if a then 1 else painted false inside)
          ≡ (if inside then bit_of a else x)
    by_kind a x inside p = ground arith
