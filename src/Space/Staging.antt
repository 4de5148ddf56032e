-- ===== src/Space/Staging.antt =====
-- persistSpaceBits: the values that it stages, space by space.
use mathlib.Core.Path.{subst}
use mathlib.Core.Option.{some-ne-none}
use corgi.Base.{
  ℕ, zero, suc, ◌+◌, ◌-◌, ◌*◌, ◌/◌, ◌%◌, ◌≤◌, ◌<◌, ◌≡◌, refl, ap, ◌∙◌, sym, Bool, true, false, ◌&&◌,
  List, [], ◌∷◌, ltb, leb, ◌==◌, if◌then◌else◌, length, arith, Bool-cases, inl, inr, none, some,
  Option, ==→eq, eq→==, ap₂, min, lt-or-le,
}
use corgi.Space.{copy_into, normalize_space_value, set_space_bits}
use corgi.Space.Marking.{bit_of}
use corgi.Space.Merges.{space_bit}
use corgi.Space.Bits.{set_space_bits-bit, length-set_space_bits}
use corgi.Space.Device.{find_update, put_update, load_space_value, family_space_key, update_spaces}

copy_into-same : (value : List ℕ) → copy_into (length value) value ≡ value
unfolding copy_into
copy_into-same [] = refl
copy_into-same (x ∷ value) = ap (λ t. x ∷ t) (copy_into-same value)

module _ (count : ℕ) (get : List ℕ → Option (Option (List ℕ))) (stored : ℕ → List ℕ)
    (current : (k : ℕ) → k < count → get (family_space_key k) ≡ some (some (stored k)))
    (sizes : (k : ℕ) → k < count → length (stored k) ≡ 512) where
  -- The value of a space as the updates have it.
  abbrev pub or_stored : ℕ → Option (List ℕ) → List ℕ
  or_stored k none = stored k
  or_stored k (some value) = value

  abbrev pub view : List (ℕ × List ℕ) → ℕ → List ℕ
  view updates k = or_stored k (find_update k updates)

  load-view :
      (k : ℕ) (updates : List (ℕ × List ℕ))
      → k < count
      → load_space_value get k updates ≡ some (view updates k)
  unfolding load_space_value normalize_space_value
  load-view k updates h = by_update (find_update k updates)
    where
      by_update :
          (o : Option (List ℕ))
          → elim o [
            | some value ↦ some value
            | none ↦ elim (get (family_space_key k)) [
              | none ↦ none
              | some none ↦ some (copy_into 512 [])
              | some (some value) ↦ some (copy_into 512 value)
            ]
          ]
            ≡ some (or_stored k o)
      by_update (some value) = refl
      by_update none = simp (current k h) (
          ap some (
            subst (λ n. copy_into n (stored k) ≡ stored k) (sizes k h) (copy_into-same (stored k))))

  view-cons :
      (i k : ℕ) (value : List ℕ) (us : List (ℕ × List ℕ))
      → view ((i, value) ∷ us) k ≡ (if i == k then value else view us k)
  view-cons i k value us = elim (Bool-cases (i == k)) [ inl e ↦ rw e refl | inr e ↦ rw e refl ]

  turn : (i k : ℕ) (x y : List ℕ) → (if i == k then x else y) ≡ (if k == i then x else y)
  turn i k x y = ap (λ t. if t then x else y) {x = i == k} {y = k == i} (ground arith)

  view-put :
      (index k : ℕ) (value : List ℕ) (updates : List (ℕ × List ℕ))
      → view (put_update index value updates) k ≡ (if k == index then value else view updates k)
  view-put index k value [] = view-cons index k value [] ∙ turn index k value (stored k)
  view-put index k value ((i, old) ∷ us) = elim (Bool-cases (i == index)) [
    | inl e ↦
        rw (e, view-cons index k value us, view-cons i k old us, ==→eq i index e)
          (turn index k value (view us k)
            ∙ twice (k == index) (index == k) value old (view us k) (ground arith))
    | inr e ↦
        rw
          (
            e,
            view-cons i k old (put_update index value us),
            view-cons i k old us,
            view-put index k value us,
          )
          (swap (i == k) (k == index) old value (view us k) (λ p q. ground (arith, e, p, q)))
  ]
    where
      twice :
          (p q : Bool) (x y z : List ℕ)
          → p ≡ q
          → (if p then x else z) ≡ (if p then x else if q then y else z)
      twice p q x y z e = ground (arith, e)

      swap :
          (p q : Bool) (x y z : List ℕ)
          → (p ≡ true → q ≡ true → ⊥)
          → (if p then x else if q then y else z) ≡ (if q then y else if p then x else z)
      swap true true x y z h = absurd (h refl refl)
      swap true false x y z h = refl
      swap false true x y z h = refl
      swap false false x y z h = refl

  -- Every staged value has the size of a space.
  abbrev pub AreSized : List (ℕ × List ℕ) → Type 0
  AreSized updates = (k : ℕ) → k < count → length (view updates k) ≡ 512

  -- The staged bits of a range.
  abbrev pub Staged : Bool → ℕ → ℕ → List (ℕ × List ℕ) → List (ℕ × List ℕ) → Type 0
  Staged allocated start blocks us vs =
      AreSized vs
      × ((k b : ℕ)
          → k < count
          → b < 4096
          → space_bit (view vs k) b ≡ (
              if leb start (k * 4096 + b) && ltb (k * 4096 + b) (start + blocks)
              then bit_of allocated
              else space_bit (view us k) b))

  abbrev part : ℕ → ℕ → ℕ
  part start blocks = let room = 4096 - start % 4096 in if ltb blocks room then blocks else room

  part-min : (start blocks : ℕ) → part start blocks ≡ min blocks (4096 - start % 4096)
  part-min start blocks = ground arith

  abbrev next_updates : Bool → ℕ → ℕ → List (ℕ × List ℕ) → List (ℕ × List ℕ)
  next_updates allocated start blocks us =
      put_update (start / 4096)
        (set_space_bits allocated (start % 4096) (part start blocks) (view us (start / 4096))) us

  update_spaces-suc :
      (fuel : ℕ) (allocated : Bool) (start blocks : ℕ) (us : List (ℕ × List ℕ))
      → start / 4096 < count
      → 0 < blocks
      → update_spaces get (suc fuel) allocated start blocks us
        ≡ update_spaces get fuel allocated
            (start + part start blocks)
            (blocks - part start blocks)
            (next_updates allocated start blocks us)
  unfolding update_spaces
  update_spaces-suc fuel allocated start blocks us h p =
      let more : blocks == 0 ≡ false = ground (arith, p) in
      simp (update_spaces, more, load-view (start / 4096) us h) refl

  here_test :
      (start n k b : ℕ)
      → k ≡ start / 4096
      → leb (start % 4096) b && ltb b (start % 4096 + n)
        ≡ leb start (k * 4096 + b) && ltb (k * 4096 + b) (start + n)
  here_test start n k b e = ground (arith, e)

  there_test :
      (start blocks k b : ℕ)
      → k == start / 4096 ≡ false
      → b < 4096
      → leb start (k * 4096 + b) && ltb (k * 4096 + b) (start + part start blocks) ≡ false
  there_test start blocks k b e h = ground (arith, e, part-min start blocks)

  next-Staged :
      (allocated : Bool) (start blocks : ℕ) (us : List (ℕ × List ℕ))
      → start / 4096 < count
      → AreSized us
      → Staged allocated start (part start blocks) us (next_updates allocated start blocks us)
  next-Staged allocated start blocks us h sized =
      let index = start / 4096 in
      let n = part start blocks in
      let value = set_space_bits allocated (start % 4096) n (view us index) in
      (
        λ k q. elim (Bool-cases (k == index)) [
          | inl e ↦
              rw (view-put index k value us, e)
                (length-set_space_bits allocated (start % 4096) n (view us index) ∙ sized index h)
          | inr e ↦ rw (view-put index k value us, e) (sized k q)
        ],
        λ k b q r. elim (Bool-cases (k == index)) [
          | inl e ↦
              rw (view-put index k value us, e)
                (set_space_bits-bit allocated (start % 4096) n b (view us index)
                    (omega (arith, sized index h, part-min start blocks))
                  ∙ ap₂ (λ t w. if t then bit_of allocated else space_bit (view us w) b)
                      (here_test start n k b (==→eq k index e)) (sym (==→eq k index e)))
          | inr e ↦ rw (view-put index k value us, e, there_test start blocks k b e r) refl
        ],
      )

  Staged-trans :
      (allocated : Bool) (start m n : ℕ) (us vs ws : List (ℕ × List ℕ))
      → Staged allocated start m us vs
      → Staged allocated (start + m) n vs ws
      → Staged allocated start (m + n) us ws
  Staged-trans allocated start m n us vs ws (p, q) (p', q') = (
    p',
    λ k b h l.
        q' k b h l
        ∙ join start m n (k * 4096 + b) (bit_of allocated) (space_bit (view vs k) b)
            (space_bit (view us k) b) (q k b h l),
  )
    where
      join :
          (start m n x a y z : ℕ)
          → y ≡ (if leb start x && ltb x (start + m) then a else z)
          → (if leb (start + m) x && ltb x (start + m + n) then a else y)
            ≡ (if leb start x && ltb x (start + (m + n)) then a else z)
      join start m n x a y z e = ground (arith, e)

  -- Each space has one value.
  abbrev pub IsUpdates : List (ℕ × List ℕ) → Type 0
  IsUpdates [] = Unit {0}
  IsUpdates ((i, value) ∷ us) = (i < count) × (find_update i us ≡ none) × IsUpdates us

  find-put :
      (i index : ℕ) (value : List ℕ) (us : List (ℕ × List ℕ))
      → i == index ≡ false
      → find_update i us ≡ none
      → find_update i (put_update index value us) ≡ none
  find-put i index value [] e h =
      let other : index == i ≡ false = ground (arith, e) in rw other refl
  find-put i index value ((j, old) ∷ us) e h = elim (Bool-cases (j == i)) [
    | inl here ↦ absurd (some-ne-none old (rw here at h))
    | inr there ↦ elim (Bool-cases (j == index)) [
      | inl same ↦
          let other : index == i ≡ false = ground (arith, e) in rw (same, other) (rw there at h)
      | inr differ ↦ rw (differ, there) (find-put i index value us e (rw there at h))
    ]
  ]

  put-IsUpdates :
      (index : ℕ) (value : List ℕ) (us : List (ℕ × List ℕ))
      → index < count
      → IsUpdates us
      → IsUpdates (put_update index value us)
  put-IsUpdates index value [] h v = (h, refl, tt)
  put-IsUpdates index value ((i, old) ∷ us) h v = elim (Bool-cases (i == index)) [
    | inl e ↦ rw e (h, rw⁻¹ (==→eq i index e) v.1, v.2)
    | inr e ↦ rw e (v.0, find-put i index value us e v.1, put-IsUpdates index value us h v.2)
  ]

  Staged-none :
      (allocated : Bool) (start blocks : ℕ) (us : List (ℕ × List ℕ))
      → blocks ≡ 0
      → AreSized us
      → Staged allocated start blocks us us
  Staged-none allocated start blocks us e sized = (
    sized,
    λ k b p q. nothing start blocks (k * 4096 + b) (bit_of allocated) (space_bit (view us k) b) e,
  )
    where
      nothing :
          (start blocks x a z : ℕ)
          → blocks ≡ 0
          → z ≡ (if leb start x && ltb x (start + blocks) then a else z)
      nothing start blocks x a z e = ground (arith, e)

  update_spaces-stop :
      (fuel : ℕ) (allocated : Bool) (start blocks : ℕ) (us : List (ℕ × List ℕ))
      → blocks ≡ 0
      → update_spaces get (suc fuel) allocated start blocks us ≡ some us
  unfolding update_spaces
  update_spaces-stop fuel allocated start blocks us e =
      let stop : blocks == 0 ≡ true = eq→== blocks 0 e in simp (update_spaces, stop) refl

  pub update_spaces-Staged :
      (fuel : ℕ) (allocated : Bool) (start blocks : ℕ) (us : List (ℕ × List ℕ))
      → blocks ≤ fuel
      → start + blocks ≤ count * 4096
      → AreSized us
      → IsUpdates us
      → (vs : List (ℕ × List ℕ)) × (update_spaces get fuel allocated start blocks us ≡ some vs)
        × Staged allocated start blocks us vs
        × IsUpdates vs
  update_spaces-Staged zero allocated start blocks us h small sized v = (
    us,
    unfold update_spaces in refl,
    Staged-none allocated start blocks us (omega arith) sized,
    v,
  )
  update_spaces-Staged (suc fuel) allocated start blocks us h small sized v =
      elim (lt-or-le 0 blocks) [
        | inr e ↦ (
          us,
          update_spaces-stop fuel allocated start blocks us (omega arith),
          Staged-none allocated start blocks us (omega arith) sized,
          v,
        )
        | inl e ↦
            let n = part start blocks in
            let index : start / 4096 < count = omega arith in
            let next = next_updates allocated start blocks us in
            let staged = next-Staged allocated start blocks us index sized in
            let whole : n + (blocks - n) ≡ blocks = omega (arith, part-min start blocks) in
            let (vs, done, later, valid) =
              update_spaces-Staged fuel allocated (start + n) (blocks - n) next
                (omega (arith, part-min start blocks)) (omega (arith, whole)) staged.0
                (put-IsUpdates (start / 4096)
                  (set_space_bits allocated (start % 4096) n (view us (start / 4096))) us index
                  v) in
            (
              vs,
              update_spaces-suc fuel allocated start blocks us index e ∙ done,
              subst (λ t. Staged allocated start t us vs) whole
                  (Staged-trans allocated start n (blocks - n) us next vs staged later),
              valid,
            )
      ]
