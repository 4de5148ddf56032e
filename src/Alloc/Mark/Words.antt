-- ===== src/Alloc/Mark/Words.antt =====
-- The word loop of markRangeLocked: which words change, to what, and how many ones.
use corgi.Base.{
  ℕ, zero, suc, ◌+◌, ◌^◌, ◌≤◌, ◌<◌, ◌≡◌, ◌≢◌, refl, ◌∙◌, Bool, true, false, ◌&&◌, List, [], ◌∷◌,
  ltb, leb, if◌then◌else◌, length, get_or, set, arith, inl, inr, lt-or-le, length-set,
  get_or-set_self, get_or-set_ne, lt→ltb, le→ltb,
}
use corgi.Base.Word.{
  bit_and-lt, bit_or-lt, ones_count, ones_count-set, ones_count-clear, complement,
}
use corgi.Alloc.Geometry.{valid_word_mask, range_mask}
use corgi.Alloc.Mark.{word_mask, mark_word, changed_bits, mark_words}

-- Every slot is a uint64.
abbrev pub AreWords : List ℕ → Type 0
AreWords l0 = (w : ℕ) → get_or l0 w 0 < 2 ^ 64

-- The free blocks of a bitmap.
unfoldable pub total_ones : List ℕ → ℕ
total_ones [] = 0
total_ones (x ∷ xs) = ones_count 64 x + total_ones xs

total_ones-set :
    (xs : List ℕ) (i v : ℕ)
    → i < length xs
    → total_ones (set xs i v) + ones_count 64 (get_or xs i 0) ≡ total_ones xs + ones_count 64 v
unfolding total_ones
total_ones-set [] i v h = absurd (omega arith)
total_ones-set (x ∷ xs) zero v h = omega arith
total_ones-set (x ∷ xs) (suc i) v h = omega (arith, total_ones-set xs i v (omega arith))

-- The ones of a word after it is marked, against those before.
abbrev Balance : Bool → ℕ → ℕ → ℕ → Type 0
Balance true after before changed = after ≡ before + changed
Balance false after before changed = after + changed ≡ before

mark_word-Balance :
    (free : Bool) (mask old : ℕ)
    → mask < 2 ^ 64
    → old < 2 ^ 64
    → Balance free
        (ones_count 64 (mark_word free mask old))
        (ones_count 64 old)
        (changed_bits free mask old)
unfolding mark_word changed_bits
mark_word-Balance true mask old hm ho = ones_count-set 64 old mask ho
mark_word-Balance false mask old hm ho = ones_count-clear 64 old mask hm

-- The ones gained or lost between two states of the loop are those newly counted.
abbrev pub Accounts : Bool → List ℕ × ℕ → List ℕ × ℕ → Type 0
Accounts true after before = total_ones after.0 + before.1 ≡ total_ones before.0 + after.1
Accounts false after before = total_ones after.0 + after.1 ≡ total_ones before.0 + before.1

Accounts-set :
    (free : Bool) (l0 : List ℕ) (i v changed more : ℕ)
    → i < length l0
    → Balance free (ones_count 64 v) (ones_count 64 (get_or l0 i 0)) more
    → Accounts free (set l0 i v, changed + more) (l0, changed)
Accounts-set true l0 i v changed more h b = omega (arith, total_ones-set l0 i v h)
Accounts-set false l0 i v changed more h b = omega (arith, total_ones-set l0 i v h)

Accounts-trans :
    (free : Bool) (s t u : List ℕ × ℕ) → Accounts free s t → Accounts free t u → Accounts free s u
Accounts-trans true s t u p q = omega arith
Accounts-trans false s t u p q = omega arith

Accounts-refl : (free : Bool) (s : List ℕ × ℕ) → Accounts free s s
Accounts-refl true s = refl
Accounts-refl false s = refl

mark_word-lt :
    (free : Bool) (mask old : ℕ) → mask < 2 ^ 64 → old < 2 ^ 64 → mark_word free mask old < 2 ^ 64
unfolding mark_word
mark_word-lt true mask old hm ho = bit_or-lt 64 old mask ho hm
mark_word-lt false mask old hm ho = bit_and-lt 64 old (complement 64 mask) ho

valid_word_mask-set :
    (total i v w : ℕ) (l0 : List ℕ)
    → valid_word_mask total (set l0 i v) w ≡ valid_word_mask total l0 w
unfolding valid_word_mask
valid_word_mask-set total i v w l0 = rw length-set refl

module _ (offset end : ℕ) (free : Bool) (total : ℕ) where
  abbrev marked : List ℕ → ℕ → ℕ
  marked l0 w = mark_word free (word_mask offset end total l0 w) (get_or l0 w 0)

  abbrev loop : ℕ → ℕ → List ℕ → ℕ → List ℕ × ℕ
  loop rounds i l0 changed = mark_words rounds i offset end free total l0 changed

  loop-step :
      (rounds i : ℕ) (l0 : List ℕ) (changed : ℕ)
      → i < length l0
      → loop (suc rounds) i l0 changed
        ≡ loop rounds
            (i + 1)
            (set l0 i (marked l0 i))
            (changed + changed_bits free (word_mask offset end total l0 i) (get_or l0 i 0))
  unfolding mark_words
  loop-step rounds i l0 changed h = rw (lt→ltb i (length l0) h)

  loop-stop :
      (rounds i : ℕ) (l0 : List ℕ) (changed : ℕ)
      → length l0 ≤ i
      → loop rounds i l0 changed ≡ (l0, changed)
  unfolding mark_words
  loop-stop zero i l0 changed h = refl
  loop-stop (suc rounds) i l0 changed h = rw (le→ltb i (length l0) h)

  pub length-mark_words :
      (rounds i : ℕ) (l0 : List ℕ) (changed : ℕ) → length (loop rounds i l0 changed).0 ≡ length l0
  length-mark_words zero i l0 changed = unfold mark_words in refl
  length-mark_words (suc rounds) i l0 changed = elim (lt-or-le i (length l0)) [
    | inl h ↦ rw (loop-step rounds i l0 changed h) (
        length-mark_words rounds (i + 1) (set l0 i (marked l0 i))
          (changed + changed_bits free (word_mask offset end total l0 i) (get_or l0 i 0))
        ∙ length-set l0 i (marked l0 i))
    | inr h ↦ rw (loop-stop (suc rounds) i l0 changed h)
  ]

  marked-set : (l0 : List ℕ) (i w v : ℕ) → i ≢ w → marked (set l0 i v) w ≡ marked l0 w
  marked-set l0 i w v ne = rw (valid_word_mask-set, get_or-set_ne l0 i w v 0 ne)

  -- The words of the range that exist are marked, the others stay.
  pub get_or-mark_words :
      (rounds i : ℕ) (l0 : List ℕ) (changed w : ℕ)
      → get_or (loop rounds i l0 changed).0 w 0 ≡ (
          if leb i w && (ltb w (i + rounds) && ltb w (length l0))
          then marked l0 w
          else get_or l0 w 0)
  get_or-mark_words zero i l0 changed w = unfold mark_words in ground arith
  get_or-mark_words (suc rounds) i l0 changed w = elim (lt-or-le i (length l0)) [
    | inl h ↦ rw (loop-step rounds i l0 changed h) (
        get_or-mark_words rounds (i + 1) (set l0 i (marked l0 i))
          (changed + changed_bits free (word_mask offset end total l0 i) (get_or l0 i 0)) w
        ∙ ground (
          arith,
          length-set l0 i (marked l0 i),
          get_or-set_self l0 i (marked l0 i) 0,
          get_or-set_ne l0 i w (marked l0 i) 0,
          marked-set l0 i w (marked l0 i),
        ))
    | inr h ↦ rw (loop-stop (suc rounds) i l0 changed h) (ground arith)
  ]

pub word_mask-lt :
    (offset end total : ℕ) (l0 : List ℕ) (w : ℕ) → word_mask offset end total l0 w < 2 ^ 64
unfolding range_mask
word_mask-lt offset end total l0 w =
    bit_and-lt 64 (range_mask offset end w) (valid_word_mask total l0 w) (ground arith)

AreWords-set : (l0 : List ℕ) (i v : ℕ) → AreWords l0 → v < 2 ^ 64 → AreWords (set l0 i v)
AreWords-set [] i v ws h w = ws w
AreWords-set (x ∷ xs) zero v ws h zero = h
AreWords-set (x ∷ xs) zero v ws h (suc w) = ws (suc w)
AreWords-set (x ∷ xs) (suc i) v ws h zero = ws 0
AreWords-set (x ∷ xs) (suc i) v ws h (suc w) = AreWords-set xs i v (λ k. ws (suc k)) h w

module _ (offset end : ℕ) (free : Bool) (total : ℕ) where
  abbrev step_word : List ℕ → ℕ → ℕ
  step_word l0 i = mark_word free (word_mask offset end total l0 i) (get_or l0 i 0)

  abbrev step_changed : List ℕ → ℕ → ℕ
  step_changed l0 i = changed_bits free (word_mask offset end total l0 i) (get_or l0 i 0)

  step_word-lt : (l0 : List ℕ) (i : ℕ) → AreWords l0 → step_word l0 i < 2 ^ 64
  step_word-lt l0 i ws =
      mark_word-lt free (word_mask offset end total l0 i) (get_or l0 i 0)
        (word_mask-lt offset end total l0 i) (ws i)

  pub mark_words-AreWords :
      (rounds i : ℕ) (l0 : List ℕ) (changed : ℕ)
      → AreWords l0
      → AreWords (mark_words rounds i offset end free total l0 changed).0
  mark_words-AreWords zero i l0 changed ws = unfold mark_words in ws
  mark_words-AreWords (suc rounds) i l0 changed ws = elim (lt-or-le i (length l0)) [
    | inl h ↦ rw (loop-step offset end free total rounds i l0 changed h) (
        mark_words-AreWords rounds (i + 1) (set l0 i (step_word l0 i)) (changed + step_changed l0 i)
          (AreWords-set l0 i (step_word l0 i) ws (step_word-lt l0 i ws)))
    | inr h ↦ rw (loop-stop offset end free total (suc rounds) i l0 changed h) ws
  ]

  pub mark_words-Accounts :
      (rounds i : ℕ) (l0 : List ℕ) (changed : ℕ)
      → AreWords l0
      → Accounts free (mark_words rounds i offset end free total l0 changed) (l0, changed)
  mark_words-Accounts zero i l0 changed ws = unfold mark_words in Accounts-refl free (l0, changed)
  mark_words-Accounts (suc rounds) i l0 changed ws = elim (lt-or-le i (length l0)) [
    | inl h ↦
        let l0' = set l0 i (step_word l0 i) in
        let changed' = changed + step_changed l0 i in
        rw (loop-step offset end free total rounds i l0 changed h) (
          Accounts-trans free (mark_words rounds (i + 1) offset end free total l0' changed')
            (l0', changed') (l0, changed)
            (mark_words-Accounts rounds (i + 1) l0' changed'
              (AreWords-set l0 i (step_word l0 i) ws (step_word-lt l0 i ws)))
            (Accounts-set free l0 i (step_word l0 i) changed (step_changed l0 i) h (
              mark_word-Balance free (word_mask offset end total l0 i) (get_or l0 i 0)
                (word_mask-lt offset end total l0 i) (ws i))))
    | inr h ↦
        rw (loop-stop offset end free total (suc rounds) i l0 changed h)
          (Accounts-refl free (l0, changed))
  ]
