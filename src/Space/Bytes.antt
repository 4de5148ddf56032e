-- ===== src/Space/Bytes.antt =====
-- The bytes of the persisted bitmap as loadAllocator reads them.
use mathlib.Core.Path.{subst}
use corgi.Base.{
  ℕ, zero, suc, ◌+◌, ◌-◌, ◌*◌, ◌^◌, ◌≤◌, ◌<◌, ◌≡◌, ap, ◌∙◌, not, ◌&&◌, List, [], ◌∷◌, ltb, leb,
  ◌==◌, if◌then◌else◌, length, get_or, ◌⊎◌, inl, inr, bit_and, arith, Bool-cases, ==→eq, min,
}
use corgi.Base.Word.{
  bit_at, bit_at-le, bit_at-bit_and, bit_at-zero, bit_at-ones, bit_at_ext, bit_and-lt,
}
use corgi.Alloc.Api.{Error}
use corgi.Space.Marking.{bit_at-pow}
use corgi.Space.Device.{Run, close_run, extend_run, then_load, load_bits, load_byte, load_bytes}
use corgi.Space.Load.{
  IsLoaded, Reads, IsClosed, Closes, then_load-Reads, close_run-Closes, extend_run-IsLoaded,
  skip-IsLoaded,
}

masked_zero : (b k : ℕ) → b < 256 → k < 8 → bit_at b k ≡ 0 → bit_and b (2 ^ k) ≡ 0
masked_zero b k h p e =
    bit_at_ext 8 (bit_and b (2 ^ k)) 0 (bit_and-lt 8 b (2 ^ k) h) (omega arith) (λ i q.
      bit_at-bit_and b (2 ^ k) i
      ∙ ground (arith, bit_at-pow k i, ap (bit_at b) {x = i} {y = k}, e, bit_at-zero i))

is_set : (b k : ℕ) → b < 256 → k < 8 → not (bit_and b (2 ^ k) == 0) ≡ (bit_at b k == 1)
is_set b k h p = elim (Bool-cases (bit_and b (2 ^ k) == 0)) [
  | inl e ↦
      let clear : bit_at b k ≡ 0 = ground (
        arith,
        ap (λ t. bit_at t k) (==→eq (bit_and b (2 ^ k)) 0 e),
        bit_at-bit_and b (2 ^ k) k,
        bit_at-zero k,
        bit_at-pow k k,
        bit_at-le b k,
      ) in
      rw e (ground (arith, clear))
  | inr e ↦ rw e (ground (arith, e, masked_zero b k h p, bit_at-le b k))
]

module _ (total : ℕ) (bit : ℕ → ℕ) where
  -- Byte `b` has the bits of the blocks from `block` on, the first in its highest bit.
  abbrev pub IsByteAt : ℕ → ℕ → Type 0
  IsByteAt block b = (b < 256) × ((j : ℕ) → j < 8 → bit (block + j) ≡ bit_at b (7 - j))

  then_closed :
      (p q : ℕ) (o : Error ⊎ Run) (f : Run → Error ⊎ Run)
      → Closes total bit p o
      → ((r : Run) → IsClosed total bit p r → Reads total bit q (f r))
      → Reads total bit q (then_load o f)
  unfolding then_load
  then_closed p q (inl e) f h k = absurd h
  then_closed p q (inr r) f h k = k r h

  load_bits-Reads :
      (b block at rounds p : ℕ) (r : Run)
      → IsByteAt block b
      → at + rounds ≤ 8
      → block + at + rounds ≤ total
      → p ≡ block + at
      → IsLoaded total bit p r
      → Reads total bit (block + at + rounds) (load_bits b block at rounds r)
  unfolding load_bits
  load_bits-Reads b block at zero p r y h k e g =
      subst (λ t. IsLoaded total bit t r) {x = p} {y = block + at + 0} (omega arith) g
  load_bits-Reads b block at (suc rounds) p r y h k e g =
      let here : bit (block + at) ≡ bit_at b (7 - at) = y.1 at (omega arith) in
      let only : (x : ℕ) → block + at ≤ x → x < block + at + 1 → bit x ≡ bit_at b (7 - at) =
        λ x i j. ap bit {x = x} {y = block + at} (omega arith) ∙ here in
      let g' : IsLoaded total bit (block + at) r = subst (λ t. IsLoaded total bit t r) e g in
      subst (λ t. Reads total bit t (load_bits b block at (suc rounds) r))
        {x = block + (at + 1) + rounds} (omega arith)
        (elim (Bool-cases (bit_at b (7 - at) == 1)) [
          | inl one ↦
              rw (is_set b (7 - at) y.0 (omega arith), one)
                (load_bits-Reads b block (at + 1) rounds (block + at + 1)
                  (extend_run (block + at) 1 r) y (omega arith) (omega arith) (omega arith)
                  (extend_run-IsLoaded total bit (block + at) 1 r (omega arith) (omega arith)
                    (λ x i j. only x i j ∙ ==→eq (bit_at b (7 - at)) 1 one) g'))
          | inr zero_bit ↦
              rw (is_set b (7 - at) y.0 (omega arith), zero_bit)
                (then_closed (block + at) (block + (at + 1) + rounds) (close_run r)
                  (load_bits b block (at + 1) rounds) (close_run-Closes total bit (block + at) r g')
                  (λ q c.
                    load_bits-Reads b block (at + 1) rounds (block + at + 1) q y (omega arith)
                      (omega arith) (omega arith)
                      (skip-IsLoaded total bit (block + at) 1 q (omega arith)
                        (λ x i j. only x i j ∙ ground (arith, zero_bit, bit_at-le b (7 - at)))
                        c).0))
        ])

  Closes-Reads : (p : ℕ) (o : Error ⊎ Run) → Closes total bit p o → Reads total bit p o
  Closes-Reads p (inl e) h = h
  Closes-Reads p (inr r) h = h.0

  skip-Closes :
      (p n : ℕ) (o : Error ⊎ Run)
      → p + n ≤ total
      → ((x : ℕ) → p ≤ x → x < p + n → bit x ≡ 0)
      → Closes total bit p o
      → Closes total bit (p + n) o
  skip-Closes p n (inl e) h zeros c = c
  skip-Closes p n (inr r) h zeros c = skip-IsLoaded total bit p n r h zeros c

  abbrev valid_bits : ℕ → ℕ
  valid_bits block = if ltb total (block + 8) then total - block else 8

  valid_bits-min : (block : ℕ) → block < total → block + valid_bits block ≡ min (block + 8) total
  valid_bits-min block h = ground arith

  load_byte-Reads :
      (block b : ℕ) (r : Run)
      → block < total
      → IsByteAt block b
      → IsLoaded total bit block r
      → Reads total bit (min (block + 8) total) (load_byte total block b r)
  unfolding load_byte
  load_byte-Reads block b r h y g =
      let n = valid_bits block in
      let all : (x : ℕ) → block ≤ x → x < block + 8 → bit x ≡ bit_at b (7 - (x - block)) = λ x i j.
        ap bit {x = x} {y = block + (x - block)} (omega arith) ∙ y.1 (x - block) (omega arith) in
      subst (λ t. Reads total bit t (load_byte total block b r)) (valid_bits-min block h)
        (elim (Bool-cases (b == 0)) [
          | inl none_set ↦ rw none_set (
              Closes-Reads (block + n) (close_run r) (
                skip-Closes block n (close_run r) (omega (arith, valid_bits-min block h))
                  (λ x i j.
                    all x i (omega (arith, valid_bits-min block h))
                    ∙ ap (λ t. bit_at t (7 - (x - block))) (==→eq b 0 none_set)
                    ∙ bit_at-zero (7 - (x - block)))
                  (close_run-Closes total bit block r g)))
          | inr some_set ↦ elim (Bool-cases (b == 255 && n == 8)) [
            | inl full ↦
                rw (some_set, full)
                  (subst (λ t. IsLoaded total bit t (extend_run block 8 r)) {x = block + 8}
                    {y = block + n} (ground (arith, full))
                    (extend_run-IsLoaded total bit block 8 r (omega arith) (ground (arith, full))
                      (λ x i j.
                        all x i j
                        ∙ ap (λ t. bit_at t (7 - (x - block))) {x = b} {y = 255}
                            (ground (arith, full))
                        ∙ bit_at-ones 8 (7 - (x - block)) (omega arith))
                      g))
            | inr part ↦
                rw (some_set, part)
                  (subst (λ t. Reads total bit t (load_bits b block 0 n r)) {x = block + 0 + n}
                    {y = block + n} (omega arith)
                    (load_bits-Reads b block 0 n block r y (ground arith)
                      (omega (arith, valid_bits-min block h)) (omega arith) g))
          ]
        ])

  -- The bytes of the blocks from `block` on.
  abbrev pub AreBytesAt : ℕ → List ℕ → Type 0
  AreBytesAt block bs = (i : ℕ) → i < length bs → IsByteAt (block + i * 8) (get_or bs i 0)

  pub load_bytes-Reads :
      (block : ℕ) (bs : List ℕ) (r : Run)
      → AreBytesAt block bs
      → IsLoaded total bit (min block total) r
      → Reads total bit (min (block + length bs * 8) total) (load_bytes total block bs r)
  unfolding load_bytes
  load_bytes-Reads block [] r y g =
      subst (λ t. IsLoaded total bit t r) {x = min block total} {y = min (block + 0 * 8) total}
        (omega arith) g
  load_bytes-Reads block (b ∷ bs) r y g = elim (Bool-cases (leb total block)) [
    | inl past ↦ rw past (
        subst (λ t. IsLoaded total bit t r) {x = min block total}
          {y = min (block + length (b ∷ bs) * 8) total} (ground (arith, past)) g)
    | inr within ↦ rw within (
        then_load-Reads total bit (min (block + 8) total) (min (block + length (b ∷ bs) * 8) total)
          (load_byte total block b r) (load_bytes total (block + 8) bs)
          (load_byte-Reads block b r (ground (arith, within))
            (subst (λ t. IsByteAt t b) {x = block + 0 * 8} {y = block} (omega arith)
              (y 0 (omega arith)))
            (subst (λ t. IsLoaded total bit t r) {x = min block total} {y = block}
              (ground (arith, within)) g))
          (λ q k.
            subst (λ t. Reads total bit t (load_bytes total (block + 8) bs q))
              {x = min (block + 8 + length bs * 8) total}
              {y = min (block + length (b ∷ bs) * 8) total} (omega arith)
              (load_bytes-Reads (block + 8) bs q
                (λ i h.
                  subst (λ t. IsByteAt t (get_or bs i 0)) {x = block + suc i * 8}
                    {y = block + 8 + i * 8} (omega arith) (y (suc i) (omega arith)))
                k)))
  ]
