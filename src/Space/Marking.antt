-- ===== src/Space/Marking.antt =====
-- The bits that simpleSpaceUpdateValue marks in one byte.
use corgi.Base.{
  ℕ, zero, suc, ◌+◌, ◌-◌, ◌*◌, ◌/◌, ◌%◌, ◌^◌, ◌≤◌, ◌<◌, ◌≡◌, refl, ap, ◌∙◌, Bool, true, false, ◌&&◌,
  List, ltb, leb, ◌==◌, if◌then◌else◌, length, get_or, set, replicate, length-replicate,
  get_or-replicate, get_or-append_left, get_or-append_right, get_or-set_self, get_or-set_ne,
  length-set, ==→eq, arith, Bool-cases, inl, inr, lt-or-le,
}
use corgi.Base.Word.{
  bit_at, bit_at-shl, bit_at-shl_below, bit_at-le, bit_at-bit_or, bit_at-bit_xor, bit_at-zero,
  bit_at-beyond, bit_at-ones,
}
use corgi.Space.{mark_bit, mark_down, mark_up, Marks, mark_byte, mark_bytes, blank_value, space_len}

-- The only bit of 2 ^ s.
pub bit_at-pow : (s i : ℕ) → bit_at (2 ^ s) i ≡ (if i == s then 1 else 0)
bit_at-pow s i = elim (lt-or-le i s) [
  | inl below ↦
      ap (λ t. bit_at t i) {x = 2 ^ s} {y = 1 * 2 ^ s} (omega arith)
      ∙ bit_at-shl_below 1 s i below
      ∙ ground arith
  | inr above ↦
      ap (λ t. bit_at t i) {x = 2 ^ s} {y = 1 * 2 ^ s} (omega arith)
      ∙ ap (bit_at (1 * 2 ^ s)) {x = i} {y = s + (i - s)} (omega arith)
      ∙ bit_at-shl 1 s (i - s)
      ∙ elim (lt-or-le s i) [
        | inl past ↦ bit_at-beyond 1 1 (i - s) (omega arith) (omega arith) ∙ ground arith
        | inr here ↦ ap (bit_at 1) {x = i - s} {y = 0} (omega arith) ∙ unfold bit_at in ground arith
      ]
]

-- What a mark makes of a bit.
abbrev pub marked : Bool → ℕ → ℕ
marked true v = 1
marked false v = (v + 1) % 2

mark_bit-bit :
    (allocated : Bool) (j k x : ℕ)
    → j < 8
    → k < 8
    → bit_at (mark_bit allocated j x) (7 - k)
      ≡ (if k == j then marked allocated (bit_at x (7 - k)) else bit_at x (7 - k))
mark_bit-bit true j k x p q =
    bit_at-bit_or x (2 ^ (7 - j)) (7 - k)
    ∙ ground (arith, bit_at-pow (7 - j) (7 - k), bit_at-le x (7 - k))
mark_bit-bit false j k x p q =
    bit_at-bit_xor x (2 ^ (7 - j)) (7 - k)
    ∙ ground (arith, bit_at-pow (7 - j) (7 - k), bit_at-le x (7 - k))

abbrev pub within : ℕ → ℕ → ℕ → Bool
within lo n k = leb lo k && ltb k (lo + n)

mark_down-bit :
    (allocated : Bool) (lo n k x : ℕ)
    → lo + n ≤ 8
    → k < 8
    → bit_at (mark_down allocated lo n x) (7 - k)
      ≡ (if within lo n k then marked allocated (bit_at x (7 - k)) else bit_at x (7 - k))
unfolding mark_down
mark_down-bit allocated lo zero k x h q = ground arith
mark_down-bit allocated lo (suc n) k x h q =
    mark_down-bit allocated lo n k (mark_bit allocated (lo + n) x) (omega arith) q
    ∙ ground (arith, mark_bit-bit allocated (lo + n) k x (omega arith) q)

mark_up-bit :
    (allocated : Bool) (lo n k x : ℕ)
    → lo + n ≤ 8
    → k < 8
    → bit_at (mark_up allocated lo n x) (7 - k)
      ≡ (if within lo n k then marked allocated (bit_at x (7 - k)) else bit_at x (7 - k))
unfolding mark_up
mark_up-bit allocated lo zero k x h q = ground arith
mark_up-bit allocated lo (suc n) k x h q =
    mark_up-bit allocated (lo + 1) n k (mark_bit allocated lo x) (omega arith) q
    ∙ ground (arith, mark_bit-bit allocated lo k x (omega arith) q)

pub mark_bytes-get :
    (allocated : Bool) (m : Marks) (base i n : ℕ) (value : List ℕ) (w : ℕ)
    → i + n + base ≤ length value
    → get_or (mark_bytes allocated m base i n value) w 0 ≡ (
        if leb (i + base) w && ltb w (i + n + base)
        then mark_byte allocated m (w - base) (get_or value w 0)
        else get_or value w 0)
unfolding mark_bytes
mark_bytes-get allocated m base i zero value w h = ground arith
mark_bytes-get allocated m base i (suc n) value w h =
    let byte = mark_byte allocated m i (get_or value (i + base) 0) in
    mark_bytes-get allocated m base (i + 1) n (set value (i + base) byte) w
      (omega (arith, length-set value (i + base) byte))
    ∙ elim (Bool-cases (w == i + base)) [
      | inl here ↦
          let before : leb (i + 1 + base) (i + base) ≡ false = ground arith in
          let first : leb (i + base) (i + base) ≡ true = ground arith in
          let inside : ltb (i + base) (i + suc n + base) ≡ true = ground arith in
          let back : i + base - base ≡ i = omega arith in
          rw
            (
              ==→eq w (i + base) here,
              before,
              first,
              inside,
              back,
              get_or-set_self value (i + base) byte 0 (omega arith),
            )
            refl
      | inr other ↦
          rw (get_or-set_ne value (i + base) w byte 0 (λ e. ground (arith, other)))
            (ground (arith, other))
    ]

pub blank-low : (i : ℕ) → i < 512 → get_or blank_value i 0 ≡ 0
blank-low i h =
    get_or-append_left (replicate space_len 0) (replicate space_len 255) i 0
      (omega (arith, length-replicate {A = ℕ} space_len 0))
    ∙ get_or-replicate space_len i 0 0 h

pub blank-high : (i : ℕ) → i < 512 → get_or blank_value (i + 512) 0 ≡ 255
blank-high i h =
    get_or-append_right (replicate space_len 0) (replicate space_len 255) i 0
    ∙ get_or-replicate space_len i 255 0 h

-- The bit of block `b` in the half of a value that begins at `base`.
abbrev pub half_bit : List ℕ → ℕ → ℕ → ℕ
half_bit value base b = bit_at (get_or value (b / 8 + base) 0) (7 - b % 8)

-- What a value says of a block before it is marked: not allocated, and not freed.
abbrev pub blank : Bool → ℕ
blank true = 0
blank false = 255

abbrev pub base_of : Bool → ℕ
base_of allocated = if allocated then 0 else space_len

abbrev pub IsMarks : Marks → Type 0
IsMarks m = (m.start ≤ m.end) × (m.end < 512) × (m.bit_start < 8) × (m.bit_end ≤ 8)

-- The blocks of the marks.
abbrev pub in_marks : Marks → ℕ → Bool
in_marks m b = leb (m.start * 8 + m.bit_start) b && ltb b (m.end * 8 + m.bit_end)

-- The bit of a marked block, and that of another one.
abbrev pub bit_of : Bool → ℕ
bit_of allocated = if allocated then 1 else 0

pub full-bit :
    (allocated : Bool) (k : ℕ) → k < 8 → bit_at (if allocated then 255 else 0) k ≡ bit_of allocated
full-bit true k h = bit_at-ones 8 k h
full-bit false k h = bit_at-zero k

pub blank-bit :
    (allocated : Bool) (k : ℕ) → k < 8 → bit_at (blank allocated) k ≡ 1 - bit_of allocated
blank-bit true k h = bit_at-zero k
blank-bit false k h = bit_at-ones 8 k h

marked-blank :
    (allocated : Bool) (k : ℕ)
    → k < 8
    → marked allocated (bit_at (blank allocated) k) ≡ bit_of allocated
marked-blank true k h = refl
marked-blank false k h = omega (arith, bit_at-ones 8 k h)

pub mark_down-blank :
    (allocated : Bool) (lo n k : ℕ)
    → lo + n ≤ 8
    → k < 8
    → bit_at (mark_down allocated lo n (blank allocated)) (7 - k)
      ≡ (if within lo n k then bit_of allocated else 1 - bit_of allocated)
mark_down-blank allocated lo n k h q =
    mark_down-bit allocated lo n k (blank allocated) h q
    ∙ rw (marked-blank allocated (7 - k) (omega arith), blank-bit allocated (7 - k) (omega arith))
        refl

mark_up-blank :
    (allocated : Bool) (lo n k : ℕ)
    → lo + n ≤ 8
    → k < 8
    → bit_at (mark_up allocated lo n (blank allocated)) (7 - k)
      ≡ (if within lo n k then bit_of allocated else 1 - bit_of allocated)
mark_up-blank allocated lo n k h q =
    mark_up-bit allocated lo n k (blank allocated) h q
    ∙ rw (marked-blank allocated (7 - k) (omega arith), blank-bit allocated (7 - k) (omega arith))
        refl

-- The bit of block `b`, marked or not.
abbrev pub painted : Bool → Bool → ℕ
painted allocated inside = if inside then bit_of allocated else 1 - bit_of allocated

pub mark_byte-bit :
    (allocated : Bool) (m : Marks) (b : ℕ)
    → IsMarks m
    → m.start < m.end
    → m.start ≤ b / 8
    → b / 8 ≤ m.end
    → bit_at (mark_byte allocated m (b / 8) (blank allocated)) (7 - b % 8)
      ≡ painted allocated (in_marks m b)
unfolding mark_byte
mark_byte-bit allocated m b v p q r = elim (Bool-cases (b / 8 == m.start)) [
  | inl first ↦ rw first (
      mark_down-blank allocated m.bit_start (8 - m.bit_start) (b % 8) (omega (arith, v))
        (omega arith)
      ∙ ap (painted allocated) {x = within m.bit_start (8 - m.bit_start) (b % 8)} {y = in_marks m b}
          (ground (arith, first, v)))
  | inr later ↦ elim (Bool-cases (b / 8 == m.end)) [
    | inl last ↦
        rw (later, last)
          (mark_up-blank allocated 0 m.bit_end (b % 8) (omega (arith, v)) (omega arith)
            ∙ ap (painted allocated) {x = within 0 m.bit_end (b % 8)} {y = in_marks m b}
                (ground (arith, later, last, v)))
    | inr middle ↦
        let inside : in_marks m b ≡ true = ground (arith, later, middle, v) in
        rw (later, middle, inside) (full-bit allocated (7 - b % 8) (omega arith))
  ]
]
