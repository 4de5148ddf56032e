-- ===== src/Space/Updates.antt =====
-- spaceUpdateValues: which spaces an update touches, and which blocks its values mark in each.
use mathlib.Core.Path.{subst}
use corgi.Base.{
  ℕ, zero, suc, ◌+◌, ◌-◌, ◌*◌, ◌/◌, ◌%◌, ◌^◌, ◌≤◌, ◌<◌, ◌≡◌, refl, ap, ◌∙◌, Bool, true, false, not,
  ◌||◌, ◌&&◌, List, [], ◌∷◌, ltb, leb, ◌==◌, if◌then◌else◌, length, get_or, ==→eq, arith,
  Bool-cases, inl, inr, ltb→lt, some,
}
use corgi.Alloc.Geometry.{is_negative}
use corgi.Moss.{bitmap_merge}
use corgi.Space.{
  Marks, Update, update_of, marks_at, update_values, space_update_values, simple_space_update_value,
}
use corgi.Space.Marking.{IsMarks, in_marks, bit_of}
use corgi.Space.Merges.{space_bit, bitmap_merge-value}

-- The blocks that the bytes of [offset, offset + size) lie in.
abbrev pub in_bytes : ℕ → ℕ → ℕ → Bool
in_bytes offset size x = leb (offset / 4096) x && ltb x ((offset + size + 4095) / 4096)

-- Value i of an update, merged into the bitmap of space offset / SpaceSize + i, gives the blocks of the
-- range that bit, and keeps the others; and no block of the range is in another space.
pub record IsUpdate (allocated : Bool) (offset size : ℕ) (values : List (List ℕ)) : Type 0 where
  pub short : length values ≤ 2 ^ 40
  pub reach : offset / 2 ^ 24 + length values ≤ (offset + size - 1) / 2 ^ 24 + 1
  pub covers :
      (x : ℕ)
      → in_bytes offset size x ≡ true
      → (offset / 2 ^ 24 ≤ x / 4096) × (x / 4096 < offset / 2 ^ 24 + length values)
  pub merges :
      (i : ℕ) (e : List ℕ)
      → i < length values
      → length e ≡ 512
      → (r : List ℕ) × (bitmap_merge e (get_or values i []) ≡ some r)
        × (length r ≡ 512)
        × ((b : ℕ)
            → b < 4096
            → space_bit r b ≡ (
                if in_bytes offset size ((offset / 2 ^ 24 + i) * 4096 + b)
                then bit_of allocated
                else space_bit e b))

module _ (offset size : ℕ) (aligned : offset % 4096 ≡ 0) (positive : 0 < size)
    (fits : offset + size < 2 ^ 63) where
  abbrev last_space : ℕ
  last_space = (offset + size - 1) / 2 ^ 24

  abbrev in_range : ℕ → Bool
  in_range = in_bytes offset size

  abbrev key_offset : ℕ
  key_offset =
      let last = (offset + size) / 2 ^ 24 in
      if (offset + size) % 2 ^ 24 == 0 then last - 1 else last

  key_offset-last : key_offset ≡ last_space
  key_offset-last = elim (Bool-cases ((offset + size) % 2 ^ 24 == 0)) [
    | inl e ↦ rw e (omega (arith, ==→eq ((offset + size) % 2 ^ 24) 0 e))
    | inr e ↦ rw e (ground (arith, e))
  ]

  abbrev tail : ℕ → ℕ
  tail key = (size + offset - key * 2 ^ 24) / 4096

  abbrev partial : ℕ
  partial = if ltb 0 (size % 4096) then 1 else 0

  abbrev bits : ℕ → ℕ
  bits key = if ltb 0 (size % 4096) then tail key % 8 + 1 else tail key % 8

  -- The update of which the last space is known.
  abbrev update_to : ℕ → Update
  update_to key = record {
    key_start = offset / 2 ^ 24;
    key_end = if bits key == 0 && tail key / 8 == 0 then key - 1 else key;
    marks = record {
      start = (offset - offset / 2 ^ 24 * 2 ^ 24) / 4096 / 8;
      end = if bits key == 0 then tail key / 8 - 1 else tail key / 8;
      bit_start = (offset - offset / 2 ^ 24 * 2 ^ 24) / 4096 % 8;
      bit_end = if bits key == 0 then 8 else bits key;
    };
  }

  update_of-to : update_of offset size ≡ update_to last_space
  unfolding update_of
  update_of-to = ap update_to key_offset-last

  bits-partial : (key : ℕ) → bits key ≡ tail key % 8 + partial
  bits-partial key = ground arith

  partial-end : tail last_space + partial ≡ (offset + size + 4095) / 4096 - last_space * 4096
  partial-end = elim (Bool-cases (ltb 0 (size % 4096))) [
    | inl e ↦ rw e (omega (arith, ltb→lt 0 (size % 4096) e))
    | inr e ↦ rw e (ground (arith, e))
  ]

  end_blocks : (0 < tail last_space + partial) × (tail last_space + partial ≤ 4096)
  end_blocks = (omega (arith, partial-end), omega (arith, partial-end))

  abbrev u : Update
  u = update_to last_space

  key_end-last : u.key_end ≡ last_space
  key_end-last =
      let never : bits last_space == 0 && tail last_space / 8 == 0 ≡ false =
        ground (arith, bits-partial last_space, end_blocks) in
      rw never refl

  end-bits : u.marks.end * 8 + u.marks.bit_end ≡ tail last_space + partial
  end-bits = elim (Bool-cases (bits last_space == 0)) [
    | inl e ↦ rw e (omega (arith, ==→eq (bits last_space) 0 e, bits-partial last_space, end_blocks))
    | inr e ↦ rw e (omega (arith, bits-partial last_space))
  ]

  partial-le : partial ≤ 1
  partial-le = ground arith

  bit_end-le : (0 < u.marks.bit_end) × (u.marks.bit_end ≤ 8)
  bit_end-le = elim (Bool-cases (bits last_space == 0)) [
    | inl e ↦ rw e (omega arith, omega arith)
    | inr e ↦ rw e (ground (arith, e), omega (arith, bits-partial last_space, partial-le))
  ]

  end-lt : u.marks.end < 512
  end-lt = omega (arith, end-bits, end_blocks, bit_end-le)

  start-bits : u.marks.start * 8 + u.marks.bit_start ≡ offset / 4096 - u.key_start * 4096
  start-bits = omega arith

  start-lt : (offset / 4096 - u.key_start * 4096 < 4096) × (u.key_start * 4096 ≤ offset / 4096)
  start-lt = (omega arith, omega arith)

  abbrev FitsSpace : ℕ → Marks → Type 0
  FitsSpace key m = IsMarks m × ((b : ℕ) → b < 4096 → in_marks m b ≡ in_range (key * 4096 + b))

  alone-FitsSpace : u.key_start ≡ last_space → FitsSpace last_space u.marks
  alone-FitsSpace e = (
    (
      omega (arith, start-bits, end-bits, partial-end, bit_end-le, e),
      end-lt,
      omega arith,
      bit_end-le.1,
    ),
    λ b h. ground (arith, start-bits, end-bits, partial-end, e, start-lt, end_blocks),
  )

  reach : last_space * 4096 < (offset + size + 4095) / 4096
  reach = omega (arith, partial-end, end_blocks)

  marks_at-FitsSpace :
      (key : ℕ)
      → u.key_start < last_space
      → u.key_start ≤ key
      → key ≤ last_space
      → FitsSpace key (marks_at (record u { key_end = last_space }) key)
  marks_at-FitsSpace key p q r = elim (Bool-cases (key == u.key_start)) [
    | inl e ↦ rw e (
      (omega arith, omega arith, omega arith, omega arith),
      λ b h. ground (arith, ==→eq key u.key_start e, start-bits, start-lt, reach),
    )
    | inr e ↦ elim (Bool-cases (key == last_space)) [
      | inl l ↦
          rw (e, l)
            (
              (omega arith, end-lt, omega arith, bit_end-le.1),
              λ b h.
                  ground
                    (arith, e, ==→eq key last_space l, end-bits, partial-end, end_blocks, start-lt),
            )
      | inr m ↦
          rw (e, m)
            (
              (omega arith, omega arith, omega arith, omega arith),
              λ b h. ground (arith, e, m, start-lt, reach),
            )
    ]
  ]

  spaces : u.key_start ≤ last_space
  spaces = omega arith

  abbrev settled : Update
  settled = record u { key_end = last_space }

  update_of-settled : update_of offset size ≡ settled
  update_of-settled = update_of-to ∙ ap (λ t. record u { key_end = t }) key_end-last

  abbrev values_of : Bool → Update → List (List ℕ)
  values_of allocated w =
      if w.key_start == w.key_end
      then simple_space_update_value allocated w.marks ∷ []
      else update_values allocated w w.key_start (w.key_end + 1 - w.key_start)

  space_update_values-of :
      (allocated : Bool)
      → space_update_values offset size allocated
        ≡ some (values_of allocated (update_of offset size))
  unfolding space_update_values
  space_update_values-of allocated =
      let fine : is_negative offset || (is_negative size || (size == 0 || not (offset % 4096 == 0)))
          ≡ false =
        ground arith in
      elim (Bool-cases ((update_of offset size).key_start == (update_of offset size).key_end)) [
        | inl e ↦ rw (fine, e) refl
        | inr e ↦ rw (fine, e) refl
      ]

  -- Value `i` marks what it must in the space that it is for.
  abbrev IsValueAt : Bool → ℕ → List ℕ → Type 0
  IsValueAt allocated key value =
      (m : Marks) × (value ≡ simple_space_update_value allocated m) × FitsSpace key m

  update_values-at :
      (allocated : Bool) (key n i : ℕ)
      → u.key_start < last_space
      → u.key_start ≤ key
      → key + n ≤ last_space + 1
      → i < n
      → IsValueAt allocated (key + i) (get_or (update_values allocated settled key n) i [])
  unfolding update_values
  update_values-at allocated key zero i p q r h = absurd (omega arith)
  update_values-at allocated key (suc n) zero p q r h = (
    marks_at settled (key + 0),
    ap (λ t. simple_space_update_value allocated (marks_at settled t)) {x = key} {y = key + 0}
        (omega arith),
    marks_at-FitsSpace (key + 0) p (omega arith) (omega arith),
  )
  update_values-at allocated key (suc n) (suc i) p q r h =
      subst (λ t. IsValueAt allocated t (get_or (update_values allocated settled (key + 1) n) i []))
        {x = key + 1 + i} {y = key + suc i} (omega arith)
        (update_values-at allocated (key + 1) n i p (omega arith) (omega arith) (omega arith))

  length-update_values :
      (allocated : Bool) (w : Update) (key n : ℕ) → length (update_values allocated w key n) ≡ n
  unfolding update_values
  length-update_values allocated w key zero = refl
  length-update_values allocated w key (suc n) =
      ap suc (length-update_values allocated w (key + 1) n)

  length-values_of :
      (allocated : Bool) → length (values_of allocated settled) ≡ last_space + 1 - u.key_start
  length-values_of allocated = elim (Bool-cases (u.key_start == last_space)) [
    | inl e ↦ rw e (omega (arith, ==→eq u.key_start last_space e))
    | inr e ↦
        rw e (length-update_values allocated settled u.key_start (last_space + 1 - u.key_start))
  ]

  value-at :
      (allocated : Bool) (i : ℕ)
      → i < last_space + 1 - u.key_start
      → IsValueAt allocated (u.key_start + i) (get_or (values_of allocated settled) i [])
  value-at allocated i h = elim (Bool-cases (u.key_start == last_space)) [
    | inl e ↦ rw e (
        alone allocated i (==→eq u.key_start last_space e)
          (omega (arith, ==→eq u.key_start last_space e)))
    | inr e ↦ rw e (
        update_values-at allocated u.key_start (last_space + 1 - u.key_start) i
          (ground (arith, spaces, e)) (omega arith) (omega (arith, spaces)) h)
  ]
    where
      alone :
          (a : Bool) (i : ℕ)
          → u.key_start ≡ last_space
          → i < 1
          → IsValueAt a (u.key_start + i) (get_or (simple_space_update_value a u.marks ∷ []) i [])
      alone a zero e h = (
        u.marks,
        refl,
        subst (λ t. FitsSpace t u.marks) {x = last_space} {y = u.key_start + 0} (omega (arith, e))
            (alone-FitsSpace e),
      )
      alone a (suc i) e h = absurd (omega arith)

  last_of :
      (allocated : Bool) (x : ℕ)
      → x < (offset + size + 4095) / 4096
      → x / 4096 < offset / 2 ^ 24 + length (values_of allocated settled)
  last_of allocated x h =
      let end : x / 4096 ≤ last_space = omega arith in
      omega (arith, end, length-values_of allocated, spaces)

  values-IsUpdate :
      (allocated : Bool) → IsUpdate allocated offset size (values_of allocated settled)
  values-IsUpdate allocated = record {
    short = omega (arith, length-values_of allocated);
    reach = omega (arith, length-values_of allocated);
    covers = λ x h. (ground (arith, h), last_of allocated x (ground (arith, h)));
    merges = λ i e h k.
        let (m, same, fit) = value-at allocated i (omega (arith, h, length-values_of allocated)) in
        let (r, done, len, bits) = bitmap_merge-value allocated m e fit.0 k in
        (r, ap (bitmap_merge e) same ∙ done, len, λ b l. bits b l ∙ rw (fit.1 b l) refl);
  }

  -- For an offset at the start of a block, a positive size and an end below 2^63,
  -- spaceUpdateValues gives values, the i-th for space offset / SpaceSize + i, that reach every
  -- space of the range and none after its last; merged by mossBitmapMerge into any bitmap of 512
  -- bytes, each gives just the blocks of the range in its space the bit for allocated or free and
  -- keeps the others, a last block that is used in part included.
  pub space_update_values-IsUpdate :
      (allocated : Bool)
      → (values : List (List ℕ)) × (space_update_values offset size allocated ≡ some values)
        × IsUpdate allocated offset size values
  space_update_values-IsUpdate allocated = (
    values_of allocated settled,
    space_update_values-of allocated ∙ ap (λ w. some (values_of allocated w)) update_of-settled,
    values-IsUpdate allocated,
  )
