-- ===== src/Space/Persist.antt =====
-- PersistAllocBatch: what the merges of a batch make of the persisted bitmap.
use mathlib.Core.Logic.{◌≢◌}
use mathlib.Core.Path.{subst}
use corgi.Base.{
  ℕ, suc, ◌+◌, ◌*◌, ◌/◌, ◌%◌, ◌^◌, ◌≤◌, ◌<◌, ◌≡◌, refl, ap, ◌∙◌, Bool, true, false, not, ◌||◌, ◌&&◌,
  List, [], ◌∷◌, ltb, leb, ◌==◌, if◌then◌else◌, length, get_or, arith, Bool-cases, inl, inr, some,
  ==→eq,
}
use corgi.Alloc.Geometry.{Result, is_negative}
use corgi.Moss.{bitmap_merge}
use corgi.WriteBatch.{Batch, merge}
use corgi.Space.{space_update_values}
use corgi.Space.Merges.{space_bit}
use corgi.Space.Marking.{bit_of}
use corgi.Space.Updates.{in_bytes, IsUpdate, space_update_values-IsUpdate}
use corgi.Space.Device.{family_space_key, merge_all, persist_space_merges}
use corgi.Space.Keys.{family_space_key-injective}

-- A batch whose merges are those of the merge operator: `read` is the value of a key.
pub record IsMerging {S : Type 0} (batch : Batch S) (read : List ℕ → S → List ℕ) : Type 0 where
  pub merges :
      (key value : List ℕ) (s : S) (r : List ℕ)
      → bitmap_merge (read key s) value ≡ some r
      → (s' : S) × (batch.merge key value s ≡ some s')
        × (read key s' ≡ r)
        × ((other : List ℕ) → other ≢ key → read other s' ≡ read other s)

-- The extents of Alloc in the first `count` spaces: at the start of a block, not empty, and with an end
-- that is an int64.
abbrev pub AreExtents : ℕ → List Result → Type 0
AreExtents count [] = Unit {0}
AreExtents count (r ∷ rs) =
    (r.offset % 4096 ≡ 0)
    × (0 < r.size)
    × (r.offset + r.size < 2 ^ 63)
    × (r.offset + r.size ≤ count * 2 ^ 24)
    × AreExtents count rs

-- The blocks of the extents, in bytes.
abbrev pub in_extents : List Result → ℕ → Bool
in_extents [] x = false
in_extents (r ∷ rs) x = in_bytes r.offset r.size x || in_extents rs x

module _ (count : ℕ) (few : count ≤ 10 ^ 19) {S : Type 0} (batch : Batch S)
    (read : List ℕ → S → List ℕ) (merging : IsMerging batch read) where
  abbrev space : ℕ → S → List ℕ
  space k s = read (family_space_key k) s

  -- Each of the spaces has a bitmap.
  abbrev pub AreSpaces : S → Type 0
  AreSpaces s = (k : ℕ) → k < count → length (space k s) ≡ 512

  -- The persisted bit of a block.
  abbrev pub persisted : S → ℕ → ℕ
  persisted s x = space_bit (space (x / 4096) s) (x % 4096)

  -- What merging a value into any bitmap of space `k` does.
  abbrev Paints : Bool → (ℕ → Bool) → ℕ → List ℕ → Type 0
  Paints allocated inside k value =
      (e : List ℕ)
      → length e ≡ 512
      → (r : List ℕ) × (bitmap_merge e value ≡ some r)
        × (length r ≡ 512)
        × ((b : ℕ)
            → b < 4096
            → space_bit r b ≡ (if inside (k * 4096 + b) then bit_of allocated else space_bit e b))

  abbrev Merged : Bool → (ℕ → Bool) → ℕ → ℕ → S → S → Type 0
  Merged allocated inside key n s s' =
      AreSpaces s'
      × ((k b : ℕ)
          → k < count
          → b < 4096
          → space_bit (space k s') b ≡ (
              if leb key k && (ltb k (key + n) && inside (k * 4096 + b))
              then bit_of allocated
              else space_bit (space k s) b))

  one_space :
      (key : ℕ) (test : Bool) (x y : ℕ)
      → (if test then x else y) ≡ (if leb key key && (ltb key (key + 1) && test) then x else y)
  one_space key test x y = ground arith

  other_space :
      (key k : ℕ) (test : Bool) (x y : ℕ)
      → k == key ≡ false
      → y ≡ (if leb key k && (ltb k (key + 1) && test) then x else y)
  other_space key k test x y e = ground (arith, e)

  merge_one :
      (allocated : Bool) (inside : ℕ → Bool) (key : ℕ) (value : List ℕ) (s : S)
      → key < count
      → AreSpaces s
      → Paints allocated inside key value
      → (s' : S) × (merge batch (family_space_key key) value s ≡ some s')
        × Merged allocated inside key 1 s s'
  unfolding merge
  merge_one allocated inside key value s h all paints =
      let (r, done, len, bits) = paints (space key s) (all key h) in
      let (s', same, here, others) = merging.merges (family_space_key key) value s r done in
      let at : (k : ℕ)
          → k < count
          → (k == key ≡ true → space k s' ≡ r) × (k == key ≡ false → space k s' ≡ space k s) =
        λ k q. (
          λ e. ap (λ t. space t s') (==→eq k key e) ∙ here,
          λ e. others (family_space_key k) (λ same_key. ground (
            arith,
            e,
            family_space_key-injective k key (omega (arith, few, q)) (omega (arith, few, h))
                same_key,
          )),
        ) in
      (
        s',
        same,
        (
          λ k q. elim (Bool-cases (k == key)) [
            | inl e ↦ ap length ((at k q).0 e) ∙ len
            | inr e ↦ ap length ((at k q).1 e) ∙ all k q
          ],
          λ k b q l. elim (Bool-cases (k == key)) [
            | inl e ↦
                ap (λ t. space_bit t b) ((at k q).0 e)
                ∙ bits b l
                ∙ rw (==→eq k key e) (
                    one_space key (inside (key * 4096 + b)) (bit_of allocated)
                      (space_bit (space key s) b))
            | inr e ↦
                ap (λ t. space_bit t b) ((at k q).1 e)
                ∙ other_space key k (inside (k * 4096 + b)) (bit_of allocated)
                    (space_bit (space k s) b) e
          ],
        ),
      )

  Merged-trans :
      (allocated : Bool) (inside : ℕ → Bool) (key n : ℕ) (s t u : S)
      → Merged allocated inside key 1 s t
      → Merged allocated inside (key + 1) n t u
      → Merged allocated inside key (suc n) s u
  Merged-trans allocated inside key n s t u (p, q) (p', q') = (
    p',
    λ k b h l.
        q' k b h l
        ∙ by_place key k n (inside (k * 4096 + b)) (bit_of allocated) (space_bit (space k t) b)
            (space_bit (space k s) b) (q k b h l),
  )
    where
      by_place :
          (key k n : ℕ) (test : Bool) (x y z : ℕ)
          → y ≡ (if leb key k && (ltb k (key + 1) && test) then x else z)
          → (if leb (key + 1) k && (ltb k (key + 1 + n) && test) then x else y)
            ≡ (if leb key k && (ltb k (key + suc n) && test) then x else z)
      by_place key k n test x y z e = ground (arith, e)

  merge_all-cons :
      (key : ℕ) (value : List ℕ) (values : List (List ℕ)) (s t : S)
      → merge batch (family_space_key key) value s ≡ some t
      → merge_all batch key (value ∷ values) s ≡ merge_all batch (key + 1) values t
  unfolding merge_all
  merge_all-cons key value values s t e = simp (merge_all, e) refl

  merge_all-Merged :
      (allocated : Bool) (inside : ℕ → Bool) (key : ℕ) (values : List (List ℕ)) (s : S)
      → key + length values ≤ count
      → AreSpaces s
      → ((i : ℕ) → i < length values → Paints allocated inside (key + i) (get_or values i []))
      → (s' : S) × (merge_all batch key values s ≡ some s')
        × Merged allocated inside key (length values) s s'
  merge_all-Merged allocated inside key [] s h all paints = (
    s,
    unfold merge_all in refl,
    (
      all,
      λ k b p q.
          none_touched key k (inside (k * 4096 + b)) (bit_of allocated) (space_bit (space k s) b),
    ),
  )
    where
      none_touched :
          (key k : ℕ) (test : Bool) (x y : ℕ)
          → y ≡ (if leb key k && (ltb k (key + 0) && test) then x else y)
      none_touched key k test x y = ground arith
  merge_all-Merged allocated inside key (value ∷ values) s h all paints =
      let (t, one, first) = merge_one allocated inside key value s (omega arith) all (
        subst (λ k. Paints allocated inside k value) {x = key + 0} {y = key} (omega arith)
          (paints 0 (omega arith))) in
      let (u, rest, later) =
        merge_all-Merged allocated inside (key + 1) values t (omega arith) first.0 (λ i p.
          subst (λ k. Paints allocated inside k (get_or values i [])) {x = key + suc i}
            {y = key + 1 + i} (omega arith) (paints (suc i) (omega arith))) in
      (
        u,
        merge_all-cons key value values s t one ∙ rest,
        Merged-trans allocated inside key (length values) s t u first later,
      )

  -- The bits of the blocks of one range are set, and no other.
  abbrev Painted : Bool → (ℕ → Bool) → S → S → Type 0
  Painted allocated inside s s' =
      AreSpaces s'
      × ((k b : ℕ)
          → k < count
          → b < 4096
          → space_bit (space k s') b
            ≡ (if inside (k * 4096 + b) then bit_of allocated else space_bit (space k s) b))

  covered :
      (offset size : ℕ) (values : List (List ℕ)) (k b x y : ℕ)
      → ((z : ℕ)
          → in_bytes offset size z ≡ true
          → (offset / 2 ^ 24 ≤ z / 4096) × (z / 4096 < offset / 2 ^ 24 + length values))
      → b < 4096
      → (if leb (offset / 2 ^ 24) k
            && (ltb k (offset / 2 ^ 24 + length values) && in_bytes offset size (k * 4096 + b))
          then x
          else y)
        ≡ (if in_bytes offset size (k * 4096 + b) then x else y)
  covered offset size values k b x y covers h =
      elim (Bool-cases (in_bytes offset size (k * 4096 + b))) [
        | inr e ↦ rw e (ground arith)
        | inl e ↦
            let (low, high) = covers (k * 4096 + b) e in
            let first : leb (offset / 2 ^ 24) k ≡ true = ground (arith, low) in
            let last : ltb k (offset / 2 ^ 24 + length values) ≡ true = ground (arith, high) in
            rw (e, first, last) refl
      ]

  update-Painted :
      (allocated : Bool) (offset size : ℕ) (values : List (List ℕ)) (s : S)
      → offset + size ≤ count * 2 ^ 24
      → 0 < size
      → IsUpdate allocated offset size values
      → AreSpaces s
      → (s' : S) × (merge_all batch (offset / 2 ^ 24) values s ≡ some s')
        × Painted allocated (in_bytes offset size) s s'
  update-Painted allocated offset size values s h p u all =
      let (s', done, (len, bits)) =
        merge_all-Merged allocated (in_bytes offset size) (offset / 2 ^ 24) values s
          (omega (arith, u.reach)) all (λ i q e k. u.merges i e q k) in
      (
        s',
        done,
        (
          len,
          λ k b q r.
              bits k b q r
              ∙ covered offset size values k b (bit_of allocated) (space_bit (space k s) b) u.covers
                  r,
        ),
      )

  Painted-trans :
      (allocated : Bool) (f g : ℕ → Bool) (s t u : S)
      → Painted allocated f s t
      → Painted allocated g t u
      → Painted allocated (λ x. f x || g x) s u
  Painted-trans allocated f g s t u (p, q) (p', q') = (
    p',
    λ k b h l.
        q' k b h l
        ∙ either (f (k * 4096 + b)) (g (k * 4096 + b)) (bit_of allocated) (space_bit (space k t) b)
            (space_bit (space k s) b) (q k b h l),
  )
    where
      either :
          (f g : Bool) (x y z : ℕ)
          → y ≡ (if f then x else z)
          → (if g then x else y) ≡ (if f || g then x else z)
      either f g x y z e = ground (arith, e)

  persist-cons :
      (allocated : Bool) (r : Result) (rs : List Result) (values : List (List ℕ)) (s t : S)
      → r.offset % 4096 ≡ 0
      → 0 < r.size
      → r.offset + r.size < 2 ^ 63
      → space_update_values r.offset r.size allocated ≡ some values
      → merge_all batch (r.offset / 2 ^ 24) values s ≡ some t
      → persist_space_merges batch allocated (r ∷ rs) s ≡ persist_space_merges batch allocated rs t
  unfolding persist_space_merges
  persist-cons allocated r rs values s t p q h e m =
      let fine : is_negative r.offset
            || (is_negative r.size || (r.size == 0 || not (r.offset % 4096 == 0)))
          ≡ false =
        ground arith in
      simp (persist_space_merges, fine, e, m) refl

  -- For a number of spaces of at most 10^19, extents in these spaces that are at the start of
  -- blocks, not empty and with ends below 2^63, and a batch that merges by the merge operator
  -- where each of the spaces has a bitmap of 512 bytes, persistSpaceMerges succeeds and gives just
  -- the blocks of the extents the bit for allocated or free; the bits of all other blocks of the
  -- spaces stay.
  pub persist_space_merges-bits :
      (allocated : Bool) (rs : List Result) (s : S)
      → AreExtents count rs
      → AreSpaces s
      → (s' : S) × (persist_space_merges batch allocated rs s ≡ inr s')
        × AreSpaces s'
        × ((k b : ℕ)
            → k < count
            → b < 4096
            → space_bit (read (family_space_key k) s') b ≡ (
                if in_extents rs (k * 4096 + b)
                then bit_of allocated
                else space_bit (read (family_space_key k) s) b))
  persist_space_merges-bits allocated [] s v all =
      (s, unfold persist_space_merges in refl, all, λ k b p q. refl)
  persist_space_merges-bits allocated (r ∷ rs) s v all =
      let (values, made, update) =
        space_update_values-IsUpdate r.offset r.size v.0 v.1 v.2 allocated in
      let (t, merged, painted) =
        update-Painted allocated r.offset r.size values s v.3 v.1 update all in
      let (u, rest, sized, bits) = persist_space_merges-bits allocated rs t v.4 painted.0 in
      let whole =
        Painted-trans allocated (in_bytes r.offset r.size) (in_extents rs) s t u painted
          (sized, bits) in
      (u, persist-cons allocated r rs values s t v.0 v.1 v.2 made merged ∙ rest, whole.0, whole.1)
