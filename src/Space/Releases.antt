-- ===== src/Space/Releases.antt =====
-- Release: the staged bits, the batch and the allocator together.
use mathlib.Core.Logic.{◌≢◌}
use corgi.Base.{
  ◌≤◌, ℕ, ◌+◌, ◌-◌, ◌*◌, ◌/◌, ◌%◌, ◌^◌, ◌<◌, ◌≡◌, refl, ap, ◌∙◌, sym, Bool, true, false, not, ◌||◌,
  List, [], ◌∷◌, ◌==◌, if◌then◌else◌, length, map, drop, arith, Bool-cases, inl, inr, none, some,
  Option, ==→eq,
}
use corgi.Alloc.Geometry.{Result, is_negative}
use corgi.Alloc.Store.{AllocatorV3}
use corgi.Alloc.Mark.Blocks.{block_bit}
use corgi.Alloc.Api.{ok, release}
use corgi.Alloc.Api.Valid.{IsValid, Fits, covered, holds}
use corgi.Alloc.Api.Extents.{AreDisjoint}
use corgi.Alloc.Api.Accepted.{release_allocated, release-IsSummarised, AreInt64-Fits}
use corgi.Alloc.Api.Release.{IsFreed, release-IsFreed}
use corgi.Alloc.Calls.{IsSound}
use corgi.WriteBatch.{Batch, Field, put, starts_with_digit}
use corgi.Space.{fit_block, div64, rounds_up_to, byte_results_to_block_results}
use corgi.Space.Marking.{bit_of}
use corgi.Space.Merges.{space_bit}
use corgi.Space.Keys.{family_space_key-injective}
use corgi.Space.Grants.{spaces_of, Agrees, byte_results-in_bytes_of, fit_block-blocks}
use corgi.Space.Staging.{view, or_stored, AreSized, IsUpdates, update_spaces-Staged}
use corgi.Space.Device.{
  in_bytes_of, find_update, family_space_key, update_spaces, update_results, set_all,
  persist_space_bits, release_device,
}

rounds_up_to-small : (n : ℕ) → n < 2 ^ 63 → rounds_up_to n ≡ n
rounds_up_to-small n h = let plain : is_negative n ≡ false = ground (arith, h) in rw plain refl

-- A batch that takes every write: `read` is the value of a key.
pub record IsSetting {S : Type 0} (batch : Batch S) (read : List ℕ → S → List ℕ) : Type 0 where
  pub sets :
      (key value : List ℕ) (s : S)
      → (s' : S) × (batch.set key value s ≡ some s')
        × (read key s' ≡ value)
        × ((other : List ℕ) → other ≢ key → read other s' ≡ read other s)

module _ (count : ℕ) (few : count ≤ 10 ^ 19) (get : List ℕ → Option (Option (List ℕ)))
    (stored : ℕ → List ℕ)
    (current : (k : ℕ) → k < count → get (family_space_key k) ≡ some (some (stored k)))
    (sizes : (k : ℕ) → k < count → length (stored k) ≡ 512) where
  abbrev seen : List (ℕ × List ℕ) → ℕ → List ℕ
  seen = view count get stored current sizes

  abbrev AllStaged : Bool → List Result → List (ℕ × List ℕ) → List (ℕ × List ℕ) → Type 0
  AllStaged allocated rs us vs =
      AreSized count get stored current sizes vs
      × ((k b : ℕ)
          → k < count
          → b < 4096
          → space_bit (seen vs k) b
            ≡ (if covered rs (k * 4096 + b) then bit_of allocated else space_bit (seen us k) b))

  update_results-cons :
      (allocated : Bool) (r : Result) (rs : List Result) (us vs : List (ℕ × List ℕ))
      → 0 < r.size
      → r.offset * 4096 < 2 ^ 63
      → r.size * 4096 < 2 ^ 63
      → update_spaces get r.size allocated r.offset r.size us ≡ some vs
      → update_results get allocated (in_bytes_of r ∷ rs) us ≡ update_results get allocated rs vs
  unfolding update_results
  update_results-cons allocated r rs us vs p q h e =
      let fine : is_negative (r.offset * 4096)
            || (is_negative (r.size * 4096)
                || (r.size * 4096 == 0 || not (r.offset * 4096 % 4096 == 0)))
          ≡ false =
        ground arith in
      let blocks : rounds_up_to (div64 (fit_block (r.size * 4096)) 4096) ≡ r.size =
        ap rounds_up_to (fit_block-blocks r.size h) ∙ rounds_up_to-small r.size (omega arith) in
      let start : r.offset * 4096 / 4096 ≡ r.offset = omega arith in
      simp (update_results, fine, blocks, start, e) refl

  update_results-Staged :
      (allocated : Bool) (total : ℕ) (rs : List Result) (us : List (ℕ × List ℕ))
      → total * 4096 < 2 ^ 63
      → total ≤ count * 4096
      → Fits total rs
      → AreSized count get stored current sizes us
      → IsUpdates count get stored current sizes us
      → (vs : List (ℕ × List ℕ)) × (update_results get allocated (map in_bytes_of rs) us ≡ inr vs)
        × AllStaged allocated rs us vs
        × IsUpdates count get stored current sizes vs
  update_results-Staged allocated total [] us h c f sized v =
      (us, unfold update_results in refl, (sized, λ k b p q. refl), v)
  update_results-Staged allocated total (r ∷ rs) us h c f sized v =
      let (vs, done, staged, valid) =
        update_spaces-Staged count get stored current sizes r.size allocated r.offset r.size us
          (omega arith) (omega (arith, f.1)) sized v in
      let (ws, rest, later, valid') =
        update_results-Staged allocated total rs vs h c f.2 staged.0 valid in
      (
        ws,
        update_results-cons allocated r (map in_bytes_of rs) us vs f.0 (omega (arith, f.1))
              (omega (arith, f.1)) done
            ∙ rest,
        (
          later.0,
          λ k b p q.
              later.1 k b p q
              ∙ either (holds r (k * 4096 + b)) (covered rs (k * 4096 + b)) (bit_of allocated)
                  (space_bit (seen vs k) b) (space_bit (seen us k) b) (staged.1 k b p q),
        ),
        valid',
      )
    where
      either :
          (f g : Bool) (x y z : ℕ)
          → y ≡ (if f then x else z)
          → (if g then x else y) ≡ (if f || g then x else z)
      either f g x y z e = ground (arith, e)

  module _ {S : Type 0} (batch : Batch S) (unmarshal : List ℕ → Option Field)
      (read : List ℕ → S → List ℕ) (setting : IsSetting batch read) where
    put-dot :
        (rest value : List ℕ) (s : S)
        → put batch unmarshal (46 ∷ rest) value s ≡ batch.set (46 ∷ rest) value s
    unfolding put starts_with_digit
    put-dot rest value s = refl

    -- A key of a space starts with no digit, so it is written as it is.
    put-space :
        (k : ℕ) (value : List ℕ) (s : S)
        → put batch unmarshal (family_space_key k) value s ≡ batch.set (family_space_key k) value s
    unfolding family_space_key
    put-space k value s = put-dot (drop 1 (family_space_key k)) value s

    abbrev pub or_read : S → ℕ → Option (List ℕ) → List ℕ
    or_read s k none = read (family_space_key k) s
    or_read s k (some value) = value

    set_all-cons :
        (i : ℕ) (value : List ℕ) (us : List (ℕ × List ℕ)) (s t : S)
        → put batch unmarshal (family_space_key i) value s ≡ some t
        → set_all get batch unmarshal ((i, value) ∷ us) s ≡ set_all get batch unmarshal us t
    unfolding set_all
    set_all-cons i value us s t e = simp (set_all, e) refl

    set_all-read :
        (us : List (ℕ × List ℕ)) (s : S)
        → IsUpdates count get stored current sizes us
        → (t : S) × (set_all get batch unmarshal us s ≡ (none, t))
          × ((k : ℕ) → k < count → read (family_space_key k) t ≡ or_read s k (find_update k us))
    set_all-read [] s v = (s, unfold set_all in refl, λ k h. refl)
    set_all-read ((i, value) ∷ us) s v =
        let (t, one, here, others) = setting.sets (family_space_key i) value s in
        let (u, rest, reads) = set_all-read us t v.2 in
        (
          u,
          set_all-cons i value us s t (put-space i value s ∙ one) ∙ rest,
          λ k h. reads k h ∙ elim (Bool-cases (i == k)) [
            | inl e ↦
                rw (e, ap (λ t. find_update t us) (sym (==→eq i k e)), v.1)
                  (ap (λ j. read (family_space_key j) t) (sym (==→eq i k e)) ∙ here)
            | inr e ↦ rw e (
                or_read-same t s k (find_update k us) (
                  others (family_space_key k) (λ q. ground (
                    arith,
                    e,
                    family_space_key-injective k i (omega (arith, few, h)) (omega (arith, few, v.0))
                        q,
                  ))))
          ],
        )
      where
        or_read-same :
            (t s : S) (k : ℕ) (o : Option (List ℕ))
            → read (family_space_key k) t ≡ read (family_space_key k) s
            → or_read t k o ≡ or_read s k o
        or_read-same t s k none e = e
        or_read-same t s k (some value) e = refl

module _ (get : List ℕ → Option (Option (List ℕ))) {S : Type 0} (batch : Batch S)
    (unmarshal : List ℕ → Option Field) (read : List ℕ → S → List ℕ)
    (setting : IsSetting batch read) (total : ℕ) (fits : total * 4096 < 2 ^ 63) (a : AllocatorV3)
    (sound : IsSound total a) (s : S)
    (spaces : (k : ℕ) → k < spaces_of total → length (read (family_space_key k) s) ≡ 512)
    (current : (k : ℕ)
      → k < spaces_of total
      → get (family_space_key k) ≡ some (some (read (family_space_key k) s)))
    (agrees : Agrees total read a s) (rs : List Result) (inside : Fits total rs)
    (disjoint : AreDisjoint rs)
    (allocated : (x : ℕ) → covered rs x ≡ true → block_bit a.l0 x ≡ 0) where
  few : spaces_of total ≤ 10 ^ 19
  few = omega arith

  abbrev stored_now : ℕ → List ℕ
  stored_now k = read (family_space_key k) s

  persist-done :
      (us : List (ℕ × List ℕ)) (t : S)
      → update_results get false (map in_bytes_of rs) [] ≡ inr us
      → set_all get batch unmarshal us s ≡ (none, t)
      → release_device get batch unmarshal (map in_bytes_of rs) s a ≡ (none, t, (release rs a).1)
  unfolding release_device persist_space_bits
  persist-done us t e h =
      let back : byte_results_to_block_results (map in_bytes_of rs) ≡ rs =
        byte_results-in_bytes_of total rs fits inside in
      simp (release_device, persist_space_bits, e, h, back) refl

  fits_a : Fits a.total rs
  fits_a = rw sound.size inside

  released : (release rs a).0 ≡ ok tt
  released = release_allocated a sound.valid.bitmap rs fits_a disjoint allocated

  freed : IsFreed rs a (release rs a).1 × IsValid (release rs a).1
  freed = release-IsFreed rs a sound.valid (AreInt64-Fits a sound.valid.bitmap rs fits_a) released

  read_back :
      (t : S) (us : List (ℕ × List ℕ)) (k : ℕ)
      → read (family_space_key k) t
        ≡ or_read
            (spaces_of total)
            few
            get
            stored_now
            current
            spaces
            batch
            unmarshal
            read
            setting
            s
            k
            (find_update k us)
      → read (family_space_key k) t ≡ view (spaces_of total) get stored_now current spaces us k
  read_back t us k e = e ∙ by_update (find_update k us)
    where
      by_update :
          (o : Option (List ℕ))
          → or_read
              (spaces_of total)
              few
              get
              stored_now
              current
              spaces
              batch
              unmarshal
              read
              setting
              s
              k
              o
            ≡ or_stored (spaces_of total) get stored_now current spaces k o
      by_update none = refl
      by_update (some value) = refl

  released_block :
      (f : Bool) (u b d e g : ℕ)
      → b ≡ 1 - d
      → u ≡ (if f then 1 else b)
      → e ≡ (if f then 0 else d)
      → g ≡ e
      → u ≡ 1 - g
  released_block f u b d e g p q r h = ground (arith, p, q, r, h)

  -- Where the allocator is sound, the device has less than 2^63 bytes, the batch takes every
  -- write, every space that holds a block of the device has a bitmap of 512 bytes that the
  -- database reads just as the batch holds it, and the persisted bit of each block says whether it
  -- is allocated, Release of nonempty extents inside the device, of which no two share a block and
  -- whose blocks are all allocated, has no error; the allocator is then the one of its own Release
  -- of the extents in blocks, it is sound, and the persisted bits again say which blocks are
  -- allocated.
  pub release_device-Agrees :
      (s' : S) × (release_device get batch unmarshal (map in_bytes_of rs) s a
        ≡ (none, s', (release rs a).1))
      × IsSound total (release rs a).1
      × Agrees total read (release rs a).1 s'
  release_device-Agrees =
      let (us, made, staged, valid) =
        update_results-Staged (spaces_of total) few get stored_now current spaces false total rs []
          fits (omega arith) inside spaces tt in
      let (t, persisted, reads) =
        set_all-read (spaces_of total) few get stored_now current spaces batch unmarshal read
          setting us s valid in
      (
        t,
        persist-done us t made persisted,
        record {
          size = freed.0.total ∙ sound.size;
          valid = freed.1;
          sums =
              release-IsSummarised rs a sound.valid.bitmap sound.valid.clean sound.sums fits_a
                released;
        },
        λ x h.
            let k = x / 4096 in
            let small : k < spaces_of total = omega arith in
            let back : k * 4096 + x % 4096 ≡ x = omega arith in
            released_block (covered rs x) (block_bit (release rs a).1.l0 x) (block_bit a.l0 x)
              (space_bit (stored_now k) (x % 4096))
              (space_bit (view (spaces_of total) get stored_now current spaces us k) (x % 4096))
              (space_bit (read (family_space_key k) t) (x % 4096)) (agrees x h) (freed.0.blocks x)
              (staged.1 k (x % 4096) small (omega arith)
                ∙ ap (λ f. if f then 0 else space_bit (stored_now k) (x % 4096))
                    (ap (covered rs) back))
              (ap (λ v. space_bit v (x % 4096)) (read_back t us k (reads k small))),
      )
