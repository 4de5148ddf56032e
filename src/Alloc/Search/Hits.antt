-- ===== src/Alloc/Search/Hits.antt =====
-- The first step of the scan of l0: the first free block.
use corgi.Base.{
  ℕ, zero, suc, ◌+◌, ◌-◌, ◌*◌, ◌/◌, ◌%◌, ◌^◌, ◌≤◌, ◌<◌, ◌≡◌, ap, ◌∙◌, sym, List, arith, inl, inr,
  lt-or-le, ◌==◌, ==→eq, get_or, Bool-cases, Option, none, some,
}
use native.Mathlib.Nat.{div-le_self}
use corgi.Base.Word.{
  bit_at, bit_at-zero, bit_at-shr, bit_at-beyond, trailing_zeros, trailing_zeros-lt,
  bit_at-trailing, bit_at-below_trailing,
}
use corgi.Alloc.Mark.Words.{AreWords}
use corgi.Alloc.Mark.Blocks.{block_bit}
use corgi.Alloc.Mark.Counts.{block_bit-word}
use corgi.Alloc.Search.{first_some, first_bit, first_free}

-- No block of [lo, hi) is free.
abbrev pub NoFree : List ℕ → ℕ → ℕ → Type 0
NoFree l0 lo hi = (b : ℕ) → lo ≤ b → b < hi → block_bit l0 b ≡ 0

-- `o` is the first free block of [lo, hi).
abbrev pub Hit : List ℕ → ℕ → ℕ → Option ℕ → Type 0
Hit l0 lo hi none = NoFree l0 lo hi
Hit l0 lo hi (some x) = (lo ≤ x) × (x < hi) × (block_bit l0 x ≡ 1) × NoFree l0 lo x

pub shr-lt : (x b : ℕ) → x < 2 ^ 64 → x / 2 ^ b < 2 ^ 64
shr-lt x b h = omega (arith, div-le_self x (2 ^ b))

-- A search of [lo, mid) and then of [mid, hi).
Hit-then :
    (l0 : List ℕ) (lo lo' mid mid' hi' hi : ℕ) (o rest : Option ℕ)
    → lo ≡ lo'
    → mid ≡ mid'
    → hi' ≡ hi
    → lo ≤ mid
    → mid ≤ hi
    → Hit l0 lo' mid o
    → Hit l0 mid' hi' rest
    → Hit l0 lo hi (elim o [ some x ↦ some x | none ↦ rest ])
Hit-then l0 lo lo' mid mid' hi' hi (some x) rest a b c d e h k =
    (omega (arith, h.0), omega (arith, h.1), h.2, λ x p q. h.3 x (omega arith) q)
Hit-then l0 lo lo' mid mid' hi' hi none none a b c d e h k = λ x p q. elim (lt-or-le x mid) [
  | inl near ↦ h x (omega arith) near
  | inr far ↦ k x (omega arith) (omega arith)
]
Hit-then l0 lo lo' mid mid' hi' hi none (some y) a b c d e h k = (
  omega (arith, k.0),
  omega (arith, k.1),
  k.2,
  λ x p q. elim (lt-or-le x mid) [
    | inl near ↦ h x (omega arith) near
    | inr far ↦ k.3 x (omega arith) q
  ],
)

module _ (l0 : List ℕ) (words : AreWords l0) where
  pub word_from :
      (w b j : ℕ) → b + j < 64 → block_bit l0 (w * 64 + b + j) ≡ bit_at (get_or l0 w 0 / 2 ^ b) j
  word_from w b j h =
      ap (block_bit l0) {x = w * 64 + b + j} {y = w * 64 + (b + j)} (omega arith)
      ∙ block_bit-word l0 w (b + j) h
      ∙ sym (bit_at-shr (get_or l0 w 0) b j)

  fits : (w b n : ℕ) → b < 64 → bit_at (get_or l0 w 0 / 2 ^ b) n ≡ 1 → b + n < 64
  fits w b n h one = elim (lt-or-le (b + n) 64) [
    | inl p ↦ p
    | inr p ↦ absurd (
        omega (
          arith,
          one,
          bit_at-shr (get_or l0 w 0) b n,
          bit_at-beyond 64 (get_or l0 w 0) (b + n) (words w) p,
        ))
  ]

  first_bit-Hit : (b w : ℕ) → b < 64 → Hit l0 (w * 64 + b) (w * 64 + 64) (first_bit l0 b w)
  unfolding first_bit
  first_bit-Hit b w h = elim (Bool-cases (get_or l0 w 0 / 2 ^ b == 0)) [
    | inl empty ↦ rw empty (λ x p q.
        ap (block_bit l0) {x = x} {y = w * 64 + b + (x - w * 64 - b)} (omega arith)
        ∙ word_from w b (x - w * 64 - b) (omega arith)
        ∙ ap (λ t. bit_at t (x - w * 64 - b)) (==→eq (get_or l0 w 0 / 2 ^ b) 0 empty)
        ∙ bit_at-zero (x - w * 64 - b))
    | inr full ↦
        let word = get_or l0 w 0 / 2 ^ b in
        let n = trailing_zeros 64 word in
        let below : n < 64 =
          trailing_zeros-lt 64 word (shr-lt (get_or l0 w 0) b (words w)) (ground arith) in
        let one : bit_at word n ≡ 1 = bit_at-trailing 64 word below in
        let within : b + n < 64 = fits w b n h one in
        rw full (
          omega arith,
          omega arith,
          word_from w b n within ∙ one,
          λ x p q.
              ap (block_bit l0) {x = x} {y = w * 64 + b + (x - w * 64 - b)} (omega arith)
              ∙ word_from w b (x - w * 64 - b) (omega arith)
              ∙ bit_at-below_trailing 64 word (x - w * 64 - b) (omega arith),
        )
  ]

  -- The words from `w` on, `n` of them.
  words-Hit : (n w : ℕ) → Hit l0 (w * 64) (w * 64 + n * 64) (first_some n w (first_bit l0 0))
  unfolding first_some
  words-Hit zero w = λ x p q. absurd (omega arith)
  words-Hit (suc n) w =
      Hit-then l0 (w * 64) (w * 64 + 0) (w * 64 + 64) ((w + 1) * 64) ((w + 1) * 64 + n * 64)
        (w * 64 + suc n * 64) (first_bit l0 0 w) (first_some n (w + 1) (first_bit l0 0))
        (omega arith) (omega arith) (omega arith) (omega arith) (omega arith)
        (first_bit-Hit 0 w (omega arith)) (words-Hit n (w + 1))

  -- The first step of the scan finds the first free block, up to the end of the slot of `to - 1`.
  pub first_free-Hit :
      (from to : ℕ) → from < to → Hit l0 from ((to - 1) / 64 * 64 + 64) (first_free l0 from to)
  unfolding first_free
  first_free-Hit from to h =
      Hit-then l0 from (from / 64 * 64 + from % 64) (from / 64 * 64 + 64) ((from / 64 + 1) * 64)
        ((from / 64 + 1) * 64 + ((to - 1) / 64 - from / 64) * 64) ((to - 1) / 64 * 64 + 64)
        (first_bit l0 (from % 64) (from / 64))
        (first_some ((to - 1) / 64 - from / 64) (from / 64 + 1) (first_bit l0 0)) (omega arith)
        (omega arith) (omega arith) (omega arith) (omega arith)
        (first_bit-Hit (from % 64) (from / 64) (omega arith))
        (words-Hit ((to - 1) / 64 - from / 64) (from / 64 + 1))
