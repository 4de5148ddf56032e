-- ===== src/Space/Writes.antt =====
-- writeAtFull: the bytes of the file after it.
use corgi.Base.{
  ℕ, zero, suc, ◌+◌, ◌-◌, ◌^◌, ◌≤◌, ◌<◌, ◌≡◌, refl, ap, ◌∙◌, Bool, true, false, ◌&&◌, List, [],
  if◌then◌else◌, ◌∷◌, leb, ltb, ◌==◌, ==→eq, length, drop, length-drop, get_or, arith, Bool-cases,
  Option-cases, inl, inr, none, some, Option,
}
use corgi.Alloc.Geometry.{add64}
use corgi.Space.Device.{write_at_full}

-- A file: `byte x` is its byte at `x`. WriteAt writes a first part of what it is given, as long as it
-- says, and changes no other byte.
pub record IsFile {F E : Type 0} (write_at : List ℕ → ℕ → F → ℕ × Option E × F) (byte : ℕ → F → ℕ)
    : Type 0 where
  pub at_most : (p : List ℕ) (offset : ℕ) (f : F) → (write_at p offset f).0 ≤ length p
  pub writes :
      (p : List ℕ) (offset : ℕ) (f : F) (x : ℕ)
      → byte x (write_at p offset f).2 ≡ (
          if leb offset x && ltb x (offset + (write_at p offset f).0)
          then get_or p (x - offset) 0
          else byte x f)

get_or-drop : (n i : ℕ) (p : List ℕ) → get_or (drop n p) i 0 ≡ get_or p (n + i) 0
get_or-drop zero i p = ap (λ k. get_or p k 0) {x = i} {y = 0 + i} (omega arith)
get_or-drop (suc n) i [] = refl
get_or-drop (suc n) i (x ∷ p) =
    get_or-drop n i p ∙ ap (λ k. get_or (x ∷ p) k 0) {x = suc (n + i)} {y = suc n + i} (omega arith)

module _ {F E : Type 0} (write_at : List ℕ → ℕ → F → ℕ × Option E × F) (byte : ℕ → F → ℕ)
    (file : IsFile write_at byte) where
  -- The first `n` bytes of `p` are in the file at `offset`; the other bytes are those of `f`.
  abbrev pub Holds : List ℕ → ℕ → ℕ → F → F → Type 0
  Holds p offset n f g =
      (x : ℕ)
      → byte x g
        ≡ (if leb offset x && ltb x (offset + n) then get_or p (x - offset) 0 else byte x f)

  -- What writeAtFull says is true: no more than the bytes, and all of them if there is no error; the
  -- bytes that it counts are in the file, in order, and no other byte of it has changed.
  pub record IsWritten (p : List ℕ) (offset : ℕ) (f : F) (r : ℕ × Option (Option E) × F)
      : Type 0 where
    pub within : r.0 ≤ length p
    pub whole : r.1 ≡ none → r.0 ≡ length p
    pub holds : Holds p offset r.0 f r.2

  module _ (fuel written : ℕ) (p : List ℕ) (offset : ℕ) (f : F) where
    abbrev w : ℕ × Option E × F
    w = write_at (drop written p) (add64 offset written) f

    abbrev result : ℕ × Option (Option E) × F
    result = write_at_full write_at (suc fuel) written p offset f

    round-done : leb (length p) written ≡ true → result ≡ (written, none, f)
    unfolding write_at_full
    round-done e = simp (write_at_full, e) refl

    round-failed :
        (error : E)
        → leb (length p) written ≡ false
        → w.1 ≡ some error
        → result ≡ (written + w.0, some (some error), w.2)
    unfolding write_at_full
    round-failed error e q = simp (write_at_full, e, q) refl

    round-short :
        leb (length p) written ≡ false
        → w.1 ≡ none
        → w.0 == 0 ≡ true
        → result ≡ (written, some none, w.2)
    unfolding write_at_full
    round-short e q z = simp (write_at_full, e, q, z) refl

    round-more :
        leb (length p) written ≡ false
        → w.1 ≡ none
        → w.0 == 0 ≡ false
        → result ≡ write_at_full write_at fuel (written + w.0) p offset w.2
    unfolding write_at_full
    round-more e q z = simp (write_at_full, e, q, z) refl

    bound : written ≤ length p → w.0 ≤ length p - written
    bound h =
        omega (arith, file.at_most (drop written p) (add64 offset written) f, length-drop written p)

    -- One round more of the bytes is in the file.
    Holds-next :
        (f0 : F)
        → written ≤ length p
        → offset + length p < 2 ^ 63
        → Holds p offset written f0 f
        → Holds p offset (written + w.0) f0 w.2
    Holds-next f0 h k held x =
        let at : add64 offset written ≡ offset + written = omega arith in
        file.writes (drop written p) (add64 offset written) f x
        ∙ joined offset written w.0 x (add64 offset written) (get_or p (x - offset) 0)
            (get_or (drop written p) (x - add64 offset written) 0) (byte x f) (byte x f0) at
            (λ q.
              get_or-drop written (x - add64 offset written) p
              ∙ ap (λ i. get_or p i 0) {x = written + (x - add64 offset written)} {y = x - offset}
                  (omega (arith, q, at)))
            (held x)
      where
        joined :
            (offset written n x at y z u v : ℕ)
            → at ≡ offset + written
            → (at ≤ x → z ≡ y)
            → u ≡ (if leb offset x && ltb x (offset + written) then y else v)
            → (if leb at x && ltb x (at + n) then z else u)
              ≡ (if leb offset x && ltb x (offset + (written + n)) then y else v)
        joined offset written n x at y z u v e q held = ground (arith, e, q, held)

  write_at_full-IsWritten :
      (fuel written : ℕ) (p : List ℕ) (offset : ℕ) (f0 f : F)
      → written ≤ length p
      → length p < written + fuel
      → offset + length p < 2 ^ 63
      → Holds p offset written f0 f
      → IsWritten p offset f0 (write_at_full write_at fuel written p offset f)
  write_at_full-IsWritten zero written p offset f0 f h k small held = absurd (omega arith)
  write_at_full-IsWritten (suc fuel) written p offset f0 f h k small held =
      let w = write_at (drop written p) (add64 offset written) f in
      let most : w.0 ≤ length p - written = bound fuel written p offset f h in
      let next = Holds-next fuel written p offset f f0 h small held in
      elim (Bool-cases (leb (length p) written)) [
        | inl all ↦
            rw (round-done fuel written p offset f all)
              (record { within = h; whole = λ e. ground (arith, all); holds = held })
        | inr more ↦ elim (Option-cases w.1) [
          | inr (error, q) ↦ rw (round-failed fuel written p offset f error more q) (record {
            within = ground (arith, most, h, more);
            whole = λ e. absurd (ground (arith, e));
            holds = next;
          })
          | inl q ↦ elim (Bool-cases (w.0 == 0)) [
            | inl stuck ↦ rw (round-short fuel written p offset f more q stuck) (record {
              within = h;
              whole = λ e. absurd (ground (arith, e));
              holds = λ x.
                  next x
                  ∙ ap
                      (λ n.
                        if leb offset x && ltb x (offset + n)
                        then get_or p (x - offset) 0
                        else byte x f0)
                      {x = written + w.0} {y = written} (omega (arith, ==→eq w.0 0 stuck));
            })
            | inr some_bytes ↦ rw (round-more fuel written p offset f more q some_bytes) (
                write_at_full-IsWritten fuel (written + w.0) p offset f0 w.2
                  (ground (arith, most, h, more)) (ground (arith, k, some_bytes)) small next)
          ]
        ]
      ]

  -- Where WriteAt writes a first part of what it is given, as long as it says, and changes no
  -- other byte, and the end of the range is below 2^63, as many rounds as there are bytes, and
  -- one, are enough for writeAtFull: the bytes that it counts are in the file at the offset, in
  -- order, every other byte of the file is as before, it counts no more than the bytes, and if it
  -- tells no error it has written all of them.
  pub write_at_full_enough :
      (p : List ℕ) (offset : ℕ) (f : F)
      → offset + length p < 2 ^ 63
      → IsWritten p offset f (write_at_full write_at (length p + 1) 0 p offset f)
  write_at_full_enough p offset f small =
      write_at_full-IsWritten (length p + 1) 0 p offset f f (omega arith) (omega arith) small (λ x.
        nothing (leb offset x && ltb x (offset + 0)) (get_or p (x - offset) 0) (byte x f)
          (ground arith))
    where
      nothing : (c : Bool) (y z : ℕ) → c ≡ false → z ≡ (if c then y else z)
      nothing c y z e = rw e refl
