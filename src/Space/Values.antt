-- ===== src/Space/Values.antt =====
-- simpleSpaceUpdateValue: the bits of its value, in the half that it marks and in the other.
use corgi.Base.{
  ℕ, zero, suc, ◌+◌, ◌-◌, ◌/◌, ◌%◌, ◌≤◌, ◌<◌, ◌≡◌, refl, ap, ◌∙◌, sym, Bool, true, false, ◌&&◌,
  List, ltb, leb, ◌==◌, if◌then◌else◌, length, get_or, set, get_or-set_self, get_or-set_ne,
  length-set, ==→eq, eq→==, arith, Bool-cases, inl, inr,
}
use corgi.Base.Word.{bit_at}
use corgi.Space.{mark_down, Marks, mark_byte, mark_bytes, blank_value, simple_space_update_value}
use corgi.Space.Marking.{
  within, mark_bytes-get, blank-low, blank-high, half_bit, blank, base_of, IsMarks, in_marks,
  bit_of, full-bit, blank-bit, mark_down-blank, painted, mark_byte-bit,
}

length-blank : length blank_value ≡ 1024
length-blank = refl

blank_value-byte :
    (allocated : Bool) (i : ℕ)
    → i < 512
    → get_or blank_value (i + base_of allocated) 0 ≡ blank allocated
blank_value-byte true i h =
    ap (λ t. get_or blank_value t 0) {x = i + 0} {y = i} (omega arith) ∙ blank-low i h
blank_value-byte false i h = blank-high i h

base-le : (allocated : Bool) → base_of allocated ≤ 512
base-le true = omega arith
base-le false = omega arith

module _ (allocated : Bool) (m : Marks) (v : IsMarks m) where
  abbrev base : ℕ
  base = base_of allocated

  abbrev one_byte : ℕ
  one_byte =
      mark_down allocated m.bit_start (m.bit_end - m.bit_start)
        (get_or blank_value (m.start + base) 0)

  abbrev single : List ℕ
  single = set blank_value (m.start + base) one_byte

  abbrev many : List ℕ
  many = mark_bytes allocated m base m.start (m.end + 1 - m.start) blank_value

  value-cases : simple_space_update_value allocated m ≡ (if m.end == m.start then single else many)
  unfolding simple_space_update_value
  value-cases = refl

  single-byte :
      (i : ℕ)
      → i < 512
      → get_or single (i + base) 0 ≡ (
          if i == m.start
          then mark_down allocated m.bit_start (m.bit_end - m.bit_start) (blank allocated)
          else blank allocated)
  single-byte i h = elim (Bool-cases (i == m.start)) [
    | inl here ↦
        rw (==→eq i m.start here, eq→== m.start m.start refl)
          (get_or-set_self blank_value (m.start + base) one_byte 0
              (omega (arith, length-blank, base-le allocated, v))
            ∙ ap (mark_down allocated m.bit_start (m.bit_end - m.bit_start))
                (blank_value-byte allocated m.start (omega (arith, v))))
    | inr other ↦ rw other (
        get_or-set_ne blank_value (m.start + base) (i + base) one_byte 0
          (λ e. ground (arith, other))
        ∙ blank_value-byte allocated i h)
  ]

  many-byte :
      (i : ℕ)
      → i < 512
      → get_or many (i + base) 0 ≡ (
          if leb m.start i && leb i m.end
          then mark_byte allocated m i (blank allocated)
          else blank allocated)
  many-byte i h =
      let back : i + base - base ≡ i = omega arith in
      let test : leb (m.start + base) (i + base)
            && ltb (i + base) (m.start + (m.end + 1 - m.start) + base)
          ≡ leb m.start i && leb i m.end =
        ground (arith, v) in
      mark_bytes-get allocated m base m.start (m.end + 1 - m.start) blank_value (i + base)
        (omega (arith, length-blank, base-le allocated, v))
      ∙ rw (test, back, blank_value-byte allocated i h) refl

  single-bit :
      (b : ℕ)
      → b < 4096
      → m.end ≡ m.start
      → half_bit single base b ≡ painted allocated (in_marks m b)
  single-bit b h e = elim (Bool-cases (b / 8 == m.start)) [
    | inl here ↦
        ap (λ x. bit_at x (7 - b % 8)) (single-byte (b / 8) (omega arith))
        ∙ rw here (
            mark_down-blank allocated m.bit_start (m.bit_end - m.bit_start) (b % 8)
              (omega (arith, v)) (omega arith)
            ∙ ap (painted allocated) {x = within m.bit_start (m.bit_end - m.bit_start) (b % 8)}
                {y = in_marks m b} (ground (arith, here, v, e)))
    | inr other ↦
        let outside : in_marks m b ≡ false = ground (arith, other, v, e) in
        ap (λ x. bit_at x (7 - b % 8)) (single-byte (b / 8) (omega arith))
        ∙ rw (other, outside) (blank-bit allocated (7 - b % 8) (omega arith))
  ]

  many-bit :
      (b : ℕ) → b < 4096 → m.start < m.end → half_bit many base b ≡ painted allocated (in_marks m b)
  many-bit b h e = elim (Bool-cases (leb m.start (b / 8) && leb (b / 8) m.end)) [
    | inl here ↦
        ap (λ x. bit_at x (7 - b % 8)) (many-byte (b / 8) (omega arith))
        ∙ rw here (mark_byte-bit allocated m b v e (ground (arith, here)) (ground (arith, here)))
    | inr other ↦
        let outside : in_marks m b ≡ false = ground (arith, other, v) in
        ap (λ x. bit_at x (7 - b % 8)) (many-byte (b / 8) (omega arith))
        ∙ rw (other, outside) (blank-bit allocated (7 - b % 8) (omega arith))
  ]

  -- The marked half of a value.
  pub value-bit :
      (b : ℕ)
      → b < 4096
      → half_bit (simple_space_update_value allocated m) (base_of allocated) b
        ≡ painted allocated (in_marks m b)
  value-bit b h = elim (Bool-cases (m.end == m.start)) [
    | inl one ↦ rw (value-cases, one) (single-bit b h (==→eq m.end m.start one))
    | inr more ↦ rw (value-cases, more) (many-bit b h (ground (arith, more, v)))
  ]

  other-byte :
      (i : ℕ)
      → i < 512
      → get_or (simple_space_update_value allocated m) (i + (512 - base)) 0
        ≡ (if allocated then 255 else 0)
  other-byte i h =
      let w = i + (512 - base) in
      let apart : w ≡ m.start + base → ⊥ =
        λ e. other_index allocated m.start i (omega (arith, v)) h e in
      let outside : leb (m.start + base) w && ltb w (m.start + (m.end + 1 - m.start) + base)
          ≡ false =
        not_marked allocated in
      elim (Bool-cases (m.end == m.start)) [
        | inl one ↦
            rw (value-cases, one)
              (get_or-set_ne blank_value (m.start + base) w one_byte 0 (λ e. apart (sym e))
                ∙ blank_other allocated)
        | inr more ↦
            rw (value-cases, more)
              (mark_bytes-get allocated m base m.start (m.end + 1 - m.start) blank_value w
                  (omega (arith, length-blank, base-le allocated, v))
                ∙ rw outside (blank_other allocated))
      ]
    where
      other_index :
          (a : Bool) (s i : ℕ) → s < 512 → i < 512 → i + (512 - base_of a) ≡ s + base_of a → ⊥
      other_index true s i p q e = absurd (omega arith)
      other_index false s i p q e = absurd (omega arith)

      not_marked :
          (a : Bool)
          → leb (m.start + base_of a) (i + (512 - base_of a))
              && ltb (i + (512 - base_of a)) (m.start + (m.end + 1 - m.start) + base_of a)
            ≡ false
      not_marked true = ground (arith, v, h)
      not_marked false = ground (arith, v, h)

      blank_other :
          (a : Bool) → get_or blank_value (i + (512 - base_of a)) 0 ≡ (if a then 255 else 0)
      blank_other true = blank-high i h
      blank_other false =
          ap (λ t. get_or blank_value t 0) {x = i + 0} {y = i} (omega arith) ∙ blank-low i h

  -- The other half keeps its blank.
  pub value-other :
      (b : ℕ)
      → b < 4096
      → half_bit (simple_space_update_value allocated m) (512 - base_of allocated) b
        ≡ bit_of allocated
  value-other b h =
      ap (λ x. bit_at x (7 - b % 8)) (other-byte (b / 8) (omega arith))
      ∙ full-bit allocated (7 - b % 8) (omega arith)

length-mark_bytes :
    (allocated : Bool) (m : Marks) (from i n : ℕ) (value : List ℕ)
    → length (mark_bytes allocated m from i n value) ≡ length value
unfolding mark_bytes
length-mark_bytes allocated m from i zero value = refl
length-mark_bytes allocated m from i (suc n) value =
    let byte = mark_byte allocated m i (get_or value (i + from) 0) in
    length-mark_bytes allocated m from (i + 1) n (set value (i + from) byte)
    ∙ length-set value (i + from) byte

pub length-value :
    (allocated : Bool) (m : Marks) → length (simple_space_update_value allocated m) ≡ 1024
unfolding simple_space_update_value
length-value allocated m = elim (Bool-cases (m.end == m.start)) [
  | inl one ↦ rw one (
      length-set blank_value (m.start + base_of allocated) (
        mark_down allocated m.bit_start (m.bit_end - m.bit_start)
          (get_or blank_value (m.start + base_of allocated) 0)))
  | inr more ↦
      rw more (
        length-mark_bytes allocated m (base_of allocated) m.start (m.end + 1 - m.start) blank_value)
]
