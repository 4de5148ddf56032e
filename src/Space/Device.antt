-- ===== src/Space/Device.antt =====
-- The operations of BlockDevice on its allocator and on the persisted bitmap. What the database reads
-- and a batch of it are parameters.
use corgi.Base.{
  ℕ, zero, suc, ◌+◌, ◌-◌, ◌*◌, ◌/◌, ◌%◌, ◌^◌, Bool, true, false, not, ◌||◌, ◌&&◌, List, [], ◌∷◌,
  ◌++◌, ltb, leb, ◌==◌, if◌then◌else◌, length, replicate, Option, none, some, ◌⊎◌, inl, inr,
  bit_and, map, drop,
}
use corgi.Alloc.Geometry.{Result, is_negative, add64}
use corgi.Alloc.Store.{AllocatorV3}
use corgi.Alloc.Api.{Error, Reply, ok, err, allocate, release, init_allocated}
use corgi.WriteBatch.{Batch, Field, put, merge}
use corgi.Space.{
  block_size, space_size, space_len, blocks_per_space, fit_block, byte_results_to_block_results,
  normalize_space_value, set_space_bits, space_update_values, space_key_count, div64, rounds_up_to,
}

pub data DeviceError : Type 0 where
  size_not_positive no_enough_space invalid_alloc_result invalid_update db_error : DeviceError
  allocator_error : Error → DeviceError

abbrev extents_of : Reply (List Result) → List Result
extents_of (ok rs) = rs
extents_of (err e) = []

abbrev pub in_bytes_of : Result → Result
in_bytes_of r = record { offset = r.offset * block_size; size = r.size * block_size }

-- Alloc, which drops the error of Allocate: the results in bytes, and in blocks.
unfoldable pub alloc : ℕ → AllocatorV3 → (DeviceError ⊎ (List Result × List Result)) × AllocatorV3
alloc size a =
    let (r, a') = allocate (div64 (fit_block size) block_size) a in
    let blocks = extents_of r in
    if is_negative size || size == 0
    then (inl size_not_positive, a)
    else if length blocks == 0
    then (inl no_enough_space, a')
    else (inr (map in_bytes_of blocks, blocks), a')

unfoldable pub rollback_alloc : List Result → AllocatorV3 → AllocatorV3
rollback_alloc blocks a = let (r, a') = release blocks a in if length blocks == 0 then a else a'

-- %010d.
unfoldable pub digits : ℕ → ℕ → List ℕ
digits zero n = []
digits (suc fuel) n =
    let high = digits fuel (n / 10) in if n == 0 then [] else high ++ ((48 + n % 10) ∷ [])

-- ".1."
abbrev space_prefix : List ℕ
space_prefix = 46 ∷ 49 ∷ 46 ∷ []

-- The key of a space. An int64 has at most 19 digits.
unfoldable pub family_space_key : ℕ → List ℕ
family_space_key index =
    let ds = digits 19 index in space_prefix ++ (replicate (10 - length ds) 48 ++ ds)

-- The run of allocated blocks that loadAllocator has read and not yet given to the allocator.
pub record Run : Type 0 where
  pub start : Option ℕ
  pub len : ℕ
  pub allocator : AllocatorV3

unfoldable pub close_run : Run → Error ⊎ Run
close_run r = elim r.start [
  | none ↦ inr r
  | some s ↦
      let (reply, a') = init_allocated s r.len r.allocator in
      elim reply [ ok u ↦ inr (record { start = none; len = 0; allocator = a' }) | err e ↦ inl e ]
]

abbrev pub start_or : ℕ → Option ℕ → ℕ
start_or block none = block
start_or block (some s) = s

-- if runStart < 0 { runStart = block }; runLen += n.
abbrev pub extend_run : ℕ → ℕ → Run → Run
extend_run block n r = record r { start = some (start_or block r.start); len = r.len + n }

unfoldable pub then_load : Error ⊎ Run → (Run → Error ⊎ Run) → Error ⊎ Run
then_load (inl e) f = inl e
then_load (inr r) f = f r

-- for bit := bit; bit < validBits; bit++, `rounds` left, of the byte at `block`.
unfoldable pub load_bits : ℕ → ℕ → ℕ → ℕ → Run → Error ⊎ Run
load_bits b block bit zero r = inr r
load_bits b block bit (suc rounds) r =
    let allocated = not (bit_and b (2 ^ (7 - bit)) == 0) in
    let longer = load_bits b block (bit + 1) rounds (extend_run (block + bit) 1 r) in
    let closed = then_load (close_run r) (load_bits b block (bit + 1) rounds) in
    if allocated then longer else closed

unfoldable pub load_byte : ℕ → ℕ → ℕ → Run → Error ⊎ Run
load_byte total_blocks block b r =
    let valid_bits = if ltb total_blocks (block + 8) then total_blocks - block else 8 in
    if b == 0
    then close_run r
    else if b == 255 && valid_bits == 8
    then inr (extend_run block 8 r)
    else load_bits b block 0 valid_bits r

-- The bytes of a space from `block` on.
unfoldable pub load_bytes : ℕ → ℕ → List ℕ → Run → Error ⊎ Run
load_bytes total_blocks block [] r = inr r
load_bytes total_blocks block (b ∷ bs) r =
    let rest =
      then_load (load_byte total_blocks block b r) (load_bytes total_blocks (block + 8) bs) in
    if leb total_blocks block then inr r else rest

-- What the map `updates` holds by the index of a space; a range over it may come in any order.
abbrev pub find_update : ℕ → List (ℕ × List ℕ) → Option (List ℕ)
find_update index [] = none
find_update index ((i, value) ∷ us) = if i == index then some value else find_update index us

abbrev pub put_update : ℕ → List ℕ → List (ℕ × List ℕ) → List (ℕ × List ℕ)
put_update index value [] = (index, value) ∷ []
put_update index value ((i, old) ∷ us) =
    if i == index then (index, value) ∷ us else (i, old) ∷ put_update index value us

-- A value that is read or not, and what comes of a run.
unfoldable pub then_value {ℓ} :
    {B : Type ℓ} → Option (List ℕ) → (List ℕ → DeviceError ⊎ B) → DeviceError ⊎ B
then_value none f = inl db_error
then_value (some value) f = f value

unfoldable pub then_device {ℓ} :
    {B : Type ℓ} → Error ⊎ Run → (Run → DeviceError ⊎ B) → DeviceError ⊎ B
then_device (inl e) f = inl (allocator_error e)
then_device (inr r) f = f r

unfoldable pub then_run {ℓ} :
    {B : Type ℓ} → DeviceError ⊎ Run → (Run → DeviceError ⊎ B) → DeviceError ⊎ B
then_run (inl e) f = inl e
then_run (inr r) f = f r

-- d.get: `none` is an error, `some none` a key that is not there.
module _ (get : List ℕ → Option (Option (List ℕ))) where
  unfoldable pub load_space_value : ℕ → List (ℕ × List ℕ) → Option (List ℕ)
  load_space_value index updates =
      let stored = get (family_space_key index) in
      elim (find_update index updates) [
        | some value ↦ some value
        | none ↦ elim stored [
          | none ↦ none
          | some none ↦ some (normalize_space_value [])
          | some (some value) ↦ some (normalize_space_value value)
        ]
      ]

  -- for spaceIndex := index; spaceIndex < d.spaceKeyCount(); spaceIndex++, `rounds` left.
  unfoldable pub load_spaces : ℕ → ℕ → ℕ → Run → (DeviceError ⊎ Run)
  load_spaces total_blocks index zero r = inr r
  load_spaces total_blocks index (suc rounds) r = then_value (load_space_value index []) (λ value.
      then_device (load_bytes total_blocks (index * blocks_per_space) value r)
        (load_spaces total_blocks (index + 1) rounds))

  unfoldable pub load_allocator : ℕ → AllocatorV3 → (DeviceError ⊎ AllocatorV3)
  load_allocator size a =
      let start : Run = record { start = none; len = 0; allocator = a } in
      then_run (load_spaces (size / block_size) 0 (rounds_up_to (space_key_count size)) start)
        (λ r. then_device (close_run r) (λ r'. inr r'.allocator))

  -- for blocks > 0 { ... }: each round sets the bits of at least one block, so `blocks` rounds are enough.
  unfoldable pub update_spaces : ℕ → Bool → ℕ → ℕ → List (ℕ × List ℕ) → Option (List (ℕ × List ℕ))
  update_spaces zero allocated start_block blocks updates = some updates
  update_spaces (suc fuel) allocated start_block blocks updates =
      let space_index = start_block / blocks_per_space in
      let space_offset = start_block % blocks_per_space in
      let room = blocks_per_space - space_offset in
      let n = if ltb blocks room then blocks else room in
      let loaded = load_space_value space_index updates in
      let later : List ℕ → Option (List (ℕ × List ℕ)) = λ value.
        update_spaces fuel allocated (start_block + n) (blocks - n)
          (put_update space_index (set_space_bits allocated space_offset n value) updates) in
      if blocks == 0 then some updates else elim loaded [ none ↦ none | some value ↦ later value ]

  -- The checks on one result, and its updates.
  unfoldable pub update_results :
      Bool → List Result → List (ℕ × List ℕ) → (DeviceError ⊎ List (ℕ × List ℕ))
  update_results allocated [] updates = inr updates
  update_results allocated (r ∷ rs) updates =
      let blocks = rounds_up_to (div64 (fit_block r.size) block_size) in
      if is_negative r.offset
        || (is_negative r.size || (r.size == 0 || not (r.offset % block_size == 0)))
      then inl invalid_alloc_result
      else elim (update_spaces blocks allocated (r.offset / block_size) blocks updates) [
        | none ↦ inl db_error
        | some updates' ↦ update_results allocated rs updates'
      ]

  module _ {S : Type 0} (batch : Batch S) (unmarshal : List ℕ → Option Field) where
    -- for spaceIndex, value := range updates { b.Set(...) }, in the order of the list; after an error
    -- the batch keeps what was set before it.
    unfoldable pub set_all : List (ℕ × List ℕ) → S → Option DeviceError × S
    set_all [] s = (none, s)
    set_all ((i, value) ∷ us) s = elim (put batch unmarshal (family_space_key i) value s) [
      | none ↦ (some db_error, s)
      | some s' ↦ set_all us s'
    ]

    unfoldable pub persist_space_bits : List Result → Bool → S → Option DeviceError × S
    persist_space_bits results allocated s = elim (update_results allocated results []) [
      | inl e ↦ (some e, s)
      | inr updates ↦ set_all updates s
    ]

    -- Release: the batch and the allocator after it.
    unfoldable pub release_device :
        List Result → S → AllocatorV3 → Option DeviceError × S × AllocatorV3
    release_device results s a =
        let (error, s') = persist_space_bits results false s in
        elim error [
          | some e ↦ (some e, s', a)
          | none ↦ (none, s', (release (byte_results_to_block_results results) a).1)
        ]

module _ {S : Type 0} (batch : Batch S) where
  -- for i, value := range values { b.Merge(key, value) }, `key` the index of the next space.
  unfoldable pub merge_all : ℕ → List (List ℕ) → S → Option S
  merge_all key [] s = some s
  merge_all key (value ∷ values) s = elim (merge batch (family_space_key key) value s) [
    | none ↦ none
    | some s' ↦ merge_all (key + 1) values s'
  ]

  unfoldable pub persist_space_merges : Bool → List Result → S → (DeviceError ⊎ S)
  persist_space_merges allocated [] s = inr s
  persist_space_merges allocated (r ∷ rs) s =
      if is_negative r.offset
        || (is_negative r.size || (r.size == 0 || not (r.offset % block_size == 0)))
      then inl invalid_alloc_result
      else elim (space_update_values r.offset r.size allocated) [
        | none ↦ inl invalid_update
        | some values ↦ elim (merge_all (r.offset / space_size) values s) [
          | none ↦ inl db_error
          | some s' ↦ persist_space_merges allocated rs s'
        ]
      ]

  unfoldable pub persist_alloc_batch : List Result → S → (DeviceError ⊎ S)
  persist_alloc_batch results s = persist_space_merges true results s

-- tryInitBlockSpace. `operate` is mspebble.CustomizeOperateData on the device's name with the wait for its
-- outcome: it runs the consumer on a batch and commits it.
module _ {S D : Type 0} (batch : Batch S) (unmarshal : List ℕ → Option Field)
    (operate : (S → Option S) → D → Option D) (get : List ℕ → D → Option (Option (List ℕ))) where
  -- for i := start; i < start + n; i++ { b.Set(key, zero) }
  unfoldable pub set_zeros : ℕ → ℕ → S → Option S
  set_zeros start zero s = some s
  set_zeros start (suc n) s =
      elim (put batch unmarshal (family_space_key start) (replicate space_len 0) s) [
        | none ↦ none
        | some s' ↦ set_zeros (start + 1) n s'
      ]

  -- for start := start; start < total; start += 1000, of which `rounds` are enough.
  unfoldable pub init_spaces : ℕ → ℕ → ℕ → D → Option D
  init_spaces zero start total d = some d
  init_spaces (suc rounds) start total d =
      let end = if ltb total (start + 1000) then total else start + 1000 in
      let done : Option D = elim (operate (set_zeros start (end - start)) d) [
        | none ↦ none
        | some d' ↦ init_spaces rounds (start + 1000) total d'
      ] in
      if leb total start then some d else done

  unfoldable pub try_init_block_space : ℕ → D → Option D
  try_init_block_space size d = elim (get (family_space_key 0) d) [
    | none ↦ none
    | some (some first) ↦ some d
    | some none ↦
        (let total = rounds_up_to (space_key_count size) in
          init_spaces (total / 1000 + 1) 0 total d)
  ]

-- d.file.WriteAt: the number of bytes written, and an error.
module _ {F E : Type 0} (write_at : List ℕ → ℕ → F → ℕ × Option E × F) where
  -- writeAtFull; each round that is not the last writes at least one byte, so len(p) rounds are enough.
  -- `none` is the error "short write".
  unfoldable pub write_at_full : ℕ → ℕ → List ℕ → ℕ → F → ℕ × Option (Option E) × F
  write_at_full zero written p offset f = (written, none, f)
  write_at_full (suc fuel) written p offset f =
      let (n, e, f') = write_at (drop written p) (add64 offset written) f in
      let rest = write_at_full fuel (written + n) p offset f' in
      if leb (length p) written then (written, none, f) else elim e [
        | some error ↦ (written + n, some (some error), f')
        | none ↦ if n == 0 then (written, some none, f') else rest
      ]
