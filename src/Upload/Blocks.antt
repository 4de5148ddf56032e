-- ===== src/Upload/Blocks.antt =====
-- What an upload keeps of its bytes and of the blocks that it has allocated.
use corgi.Base.{
  ℕ, zero, suc, ◌+◌, ◌-◌, ◌%◌, ◌≤◌, List, [], ◌∷◌, ◌++◌, length, take, map, replicate, ◌≡◌, refl,
  sym, ap, ap₂, ◌∙◌, length-append, length-replicate, take-append, arith,
}
use corgi.Upload.{
  Handler, FlushBlockInfo, start_flush, concat, flush_buffer, align_block_size, block_size,
  new_info, tokens_of, without_token, Device, rollback_all, rollback_completed_flushes,
}

align_block_size-le : (n : ℕ) → n ≤ align_block_size n
unfolding align_block_size
align_block_size-le n = ground arith

align_block_size-mod : (n : ℕ) → align_block_size n % block_size ≡ 0
unfolding align_block_size
align_block_size-mod n = ground arith

-- The sizes of the flushes so far.
abbrev pub flushed_size : List FlushBlockInfo → ℕ
flushed_size [] = 0
flushed_size (i ∷ is) = i.original_len + flushed_size is

-- The chunks that wait are `pending_len` bytes, and with the flushed ones they are the whole file.
pub record IsAccounted (h : Handler) : Type 0 where
  pub pending : length (concat h.chunks) ≡ h.pending_len
  pub total : flushed_size h.block_info_list + h.pending_len ≡ h.file_size

take-all : {A : Type 0} (n : ℕ) (xs : List A) → length xs ≤ n → take n xs ≡ xs
take-all zero [] h = refl
take-all zero (x ∷ xs) h = absurd (omega arith)
take-all (suc n) [] h = refl
take-all (suc n) (x ∷ xs) h = ap (λ t. x ∷ t) (take-all n xs (omega arith))

abbrev padding : ℕ → List ℕ → List ℕ
padding n xs = replicate (n - length xs) 0

flush_buffer-padded :
    (chunks : List (List ℕ)) (n : ℕ)
    → length (concat chunks) ≤ n
    → flush_buffer chunks n ≡ concat chunks ++ padding n (concat chunks)
unfolding flush_buffer
flush_buffer-padded chunks n h = rw (take-all n (concat chunks) h) refl

length-flush_buffer :
    (chunks : List (List ℕ)) (n : ℕ)
    → length (concat chunks) ≤ n
    → length (flush_buffer chunks n) ≡ n
length-flush_buffer chunks n h =
    let xs = concat chunks in
    omega (
      arith,
      h,
      ap length (flush_buffer-padded chunks n h),
      length-append xs (padding n xs),
      length-replicate {A = ℕ} (n - length xs) 0,
    )

flushed_size-append :
    (is : List FlushBlockInfo) (n : ℕ) → flushed_size (is ++ new_info n ∷ []) ≡ flushed_size is + n
flushed_size-append [] n = omega arith
flushed_size-append (i ∷ is) n = omega (arith, flushed_size-append is n)

-- Where the handler accounts for every byte, a flush writes a whole number of blocks, which begin
-- with the bytes that wait, in order, and the handler still accounts for every byte after it.
pub start_flush-buffer :
    (h : Handler)
    → IsAccounted h
    → (length (start_flush h).0 % block_size ≡ 0)
      × (take h.pending_len (start_flush h).0 ≡ concat h.chunks)
      × IsAccounted (start_flush h).1
unfolding start_flush
start_flush-buffer h acc =
    let xs = concat h.chunks in
    let n = align_block_size h.pending_len in
    let room : length xs ≤ n = omega (arith, acc.pending, align_block_size-le h.pending_len) in
    (
      ap (λ t. t % block_size) (length-flush_buffer h.chunks n room)
          ∙ align_block_size-mod h.pending_len,
      ap₂ take (sym acc.pending) (flush_buffer-padded h.chunks n room)
          ∙ take-append xs (padding n xs),
      record {
        pending = unfold concat in refl;
        total = omega (arith, flushed_size-append h.block_info_list h.pending_len, acc.total);
      },
    )

pub concat-append :
    (cs : List (List ℕ)) (c : List ℕ)
    → length (concat (cs ++ c ∷ [])) ≡ length (concat cs) + length c
unfolding concat
concat-append [] c = omega (arith, length-append c [])
concat-append (d ∷ cs) c = omega (
  arith,
  length-append d (concat (cs ++ c ∷ [])),
  length-append d (concat cs),
  concat-append cs c,
)

-- No block info holds blocks that are not given back.
abbrev pub AreReleased : List FlushBlockInfo → Type 0
AreReleased [] = Unit {0}
AreReleased (i ∷ is) = (i.token ≡ []) × AreReleased is

pub released : (is : List FlushBlockInfo) → AreReleased (map without_token is)
released [] = tt
released (i ∷ is) = (refl, released is)

released-tokens_of : (is : List FlushBlockInfo) → AreReleased is → tokens_of is ≡ []
unfolding tokens_of
released-tokens_of [] h = refl
released-tokens_of (i ∷ is) h = rw h.0 (released-tokens_of is h.1)

module _ {D : Type 0} (device : Device D) where
  rolled_back :
      (h : Handler) (d : D) → AreReleased (rollback_completed_flushes device h d).0.block_info_list
  unfolding rollback_completed_flushes
  rolled_back h d = released h.block_info_list

  -- Rolling back a second time gives nothing back again: the device stays as it is.
  pub rollback_completed_flushes-twice :
      (h : Handler) (d : D)
      → (rollback_completed_flushes device
          (rollback_completed_flushes device h d).0
          (rollback_completed_flushes device h d).1).1
        ≡ (rollback_completed_flushes device h d).1
  unfolding rollback_completed_flushes rollback_all
  rollback_completed_flushes-twice h d =
      rw (released-tokens_of (map without_token h.block_info_list) (released h.block_info_list))
        refl
