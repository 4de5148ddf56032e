-- ===== src/Upload.antt =====
-- internal/ec/server/aio_upload_server_handler.go: an upload collects chunks, flushes them to allocated
-- blocks, and completes with the metadata of the file or gives the blocks back. The device and the
-- metadata store are a parameter. One flush runs at a time: the Put that starts one has its response
-- from it.
pub mod Blocks
pub mod Closing
pub mod Accounts
mod Examples
use corgi.Base.{
  ℕ, zero, suc, ◌+◌, ◌-◌, ◌*◌, ◌/◌, ◌%◌, Bool, true, false, List, [], ◌∷◌, ◌++◌, ltb, leb, ◌==◌,
  if◌then◌else◌, length, map, take, replicate, Option, none, some, ◌⊎◌, inl, inr,
}
use corgi.Alloc.Geometry.{Result}
use corgi.FileMeta.{FileMeta}
pub use corgi.Space.{block_size, min_alloc_size}

pub data Error : Type 0 where
  start_missing already_finalized empty_payload channel_timeout partial_write marshal_failed : Error
  device_error : ℕ → Error

pub data Response : Type 0 where
  meta_continue : Response
  meta_success : Response
  meta_error : Error → Response

pub record PutInitRequest : Type 0 where
  pub meta_key : List ℕ
  pub file_name : List ℕ
  pub lun : List ℕ
  pub no_get : Bool

pub record FlushBlockInfo : Type 0 where
  pub results : List Result
  pub token : List Result
  pub original_len : ℕ
  pub aligned_len : ℕ
  pub err : Option Error

pub record Handler : Type 0 where
  pub init_req : Option PutInitRequest
  pub chunks : List (List ℕ)
  pub pending_len : ℕ
  pub file_size : ℕ
  pub crc32_value : ℕ
  pub block_info_list : List FlushBlockInfo
  pub flush_err : Option Error
  pub finalized : Bool
  pub responses : List Response

-- What the handler calls of the device, and of the batch that stores the metadata: `persist` tells
-- an error, and whether the file was there.
pub record Device (D : Type 0) : Type 0 where
  pub alloc : ℕ → D → (Error ⊎ (List Result × List Result)) × D
  pub write_allocated : List ℕ → List Result → D → Option Error × ℕ × D
  pub rollback_alloc : List Result → D → D
  pub marshal : FileMeta → Option (List ℕ)
  pub persist : Bool → List ℕ → List Result → ℕ → D → Option Error × Bool × D
  pub crc32_update : ℕ → List ℕ → ℕ
  pub format_etag : ℕ → List ℕ

unfoldable pub start : PutInitRequest → Handler → Handler
start req h = record h {
  init_req = some req;
  pending_len = 0;
  file_size = 0;
  crc32_value = 0;
  block_info_list = [];
  flush_err = none;
  finalized = false;
}

unfoldable pub align_block_size : ℕ → ℕ
align_block_size size =
    if size % block_size == 0 then size else (size / block_size + 1) * block_size

unfoldable pub concat : List (List ℕ) → List ℕ
concat [] = []
concat (c ∷ cs) = c ++ concat cs

-- The chunks, copied one after the other into a zeroed buffer of the aligned length.
unfoldable pub flush_buffer : List (List ℕ) → ℕ → List ℕ
unfolding concat
flush_buffer chunks aligned_len =
    take aligned_len (concat chunks) ++ replicate (aligned_len - length (concat chunks)) 0

abbrev pub new_info : ℕ → FlushBlockInfo
new_info pending = record {
  results = [];
  token = [];
  original_len = pending;
  aligned_len = align_block_size pending;
  err = none;
}

-- The new block info is the last of the list.
unfoldable pub start_flush : Handler → List ℕ × Handler
start_flush h = (
  flush_buffer h.chunks (align_block_size h.pending_len),
  record h {
    chunks = [];
    pending_len = 0;
    block_info_list = h.block_info_list ++ new_info h.pending_len ∷ [];
  },
)

-- A change of the last block info, which the flush has started.
unfoldable pub update_last :
    (FlushBlockInfo → FlushBlockInfo) → List FlushBlockInfo → List FlushBlockInfo
update_last f [] = []
update_last f (i ∷ []) = f i ∷ []
update_last f (i ∷ j ∷ is) = i ∷ update_last f (j ∷ is)

unfoldable pub fail_flush : Error → Handler → Handler
fail_flush e h = record h {
  block_info_list = update_last (λ i. record i { err = some e }) h.block_info_list;
  flush_err = elim h.flush_err [ none ↦ some e | some first ↦ some first ];
}

unfoldable pub complete_flush : List Result → List Result → Handler → Handler
complete_flush results token h = record h {
  block_info_list =
      update_last (λ i. record i { results = results; token = token }) h.block_info_list;
}

abbrev pub is_empty : List Result → Bool
is_empty [] = true
is_empty (r ∷ rs) = false

unfoldable pub tokens_of : List FlushBlockInfo → List (List Result)
tokens_of [] = []
tokens_of (i ∷ is) = if is_empty i.token then tokens_of is else i.token ∷ tokens_of is

abbrev pub without_token : FlushBlockInfo → FlushBlockInfo
without_token i = record i { token = [] }

abbrev pub respond : Response → Handler → Handler
respond r h = record h { responses = h.responses ++ r ∷ [] }

-- buildFileMetaAndResults: the results of all blocks, and the sum of their sizes.
unfoldable pub all_results : List FlushBlockInfo → List Result
all_results [] = []
all_results (i ∷ is) = i.results ++ all_results is

unfoldable pub sum_sizes : List Result → ℕ
sum_sizes [] = 0
sum_sizes (r ∷ rs) = r.size + sum_sizes rs

unfoldable pub build_file_meta_and_results :
    PutInitRequest → ℕ → List ℕ → List FlushBlockInfo → FileMeta × List Result × ℕ
build_file_meta_and_results req total etag block_info_list =
    let results = all_results block_info_list in
    (
      record {
        meta_key = req.meta_key;
        file_name = req.file_name;
        lun = req.lun;
        etag = etag;
        size = total;
        offset = map (λ (r : Result). r.offset) results;
        len = map (λ (r : Result). r.size) results;
      },
      results,
      sum_sizes results,
    )

module _ {D : Type 0} (device : Device D) where
  unfoldable pub rollback_all : List (List Result) → D → D
  rollback_all [] d = d
  rollback_all (t ∷ ts) d = rollback_all ts (device.rollback_alloc t d)

  unfoldable pub rollback_completed_flushes : Handler → D → Handler × D
  rollback_completed_flushes h d = (
    record h { block_info_list = map without_token h.block_info_list },
    rollback_all (tokens_of h.block_info_list) d,
  )

  abbrev pub fail_and_respond : Bool → Error → Handler → D → Handler × D
  fail_and_respond answer e h d =
      let failed = fail_flush e h in
      if answer
      then (let (h', d') = rollback_completed_flushes failed d in (respond (meta_error e) h', d'))
      else (failed, d)

  -- runFlush, for the block info that startFlush has put last.
  unfoldable pub run_flush : List ℕ → Bool → Handler → D → Handler × D
  run_flush buf answer h d =
      let (allocated, d1) = device.alloc (length buf) d in
      elim allocated [
        | inl e ↦ fail_and_respond answer e h d1
        | inr (results, token) ↦
            let (error, written, d2) = device.write_allocated buf results d1 in
            let rolled_back = device.rollback_alloc token d2 in
            let completed = complete_flush results token h in
            elim error [
              | some e ↦ fail_and_respond answer e h rolled_back
              | none ↦
                  if written == length buf
                  then (if answer then (respond meta_continue completed, d2) else (completed, d2))
                  else fail_and_respond answer partial_write h rolled_back
            ]
      ]

  abbrev pub accept : List ℕ → Handler → Handler
  accept chunk h = record h {
    crc32_value = device.crc32_update h.crc32_value chunk;
    chunks = h.chunks ++ chunk ∷ [];
    pending_len = h.pending_len + length chunk;
    file_size = h.file_size + length chunk;
  }

  unfoldable pub put : List ℕ → Handler → D → Handler × D
  put chunk h d =
      let h1 = accept chunk h in
      let (buf, h2) = start_flush h1 in
      elim h.init_req [
        | none ↦ (respond (meta_error start_missing) h, d)
        | some req ↦ elim h.flush_err [
          | some e ↦ (respond (meta_error e) h, d)
          | none ↦
              if h.finalized
              then (respond (meta_error already_finalized) h, d)
              else if length chunk == 0
              then (respond meta_continue h, d)
              else if leb min_alloc_size h1.pending_len
              then run_flush buf true h2 d
              else (respond meta_continue h1, d)
        ]
      ]

  abbrev pub fail_complete : Error → Handler → D → Handler × D
  fail_complete e h d =
      let (h', d') = rollback_completed_flushes h d in (respond (meta_error e) h', d')

  -- The end of Complete, after the last flush.
  unfoldable pub commit_meta : PutInitRequest → Handler → D → Handler × D
  commit_meta req h d =
      let etag = if h.crc32_value == 0 then [] else device.format_etag h.crc32_value in
      let (meta, results, total_size) =
        build_file_meta_and_results req h.file_size etag h.block_info_list in
      elim h.flush_err [
        | some e ↦ fail_complete e h d
        | none ↦ elim (device.marshal meta) [
          | none ↦ fail_complete marshal_failed h d
          | some bytes ↦
              let (error, exists, d1) = device.persist req.no_get bytes results total_size d in
              let (h', d2) = rollback_completed_flushes h d1 in
              elim error [
                | some e ↦ fail_complete e h d1
                | none ↦
                    if exists then (respond meta_success h', d2) else (respond meta_success h, d1)
              ]
        ]
      ]

  unfoldable pub complete : Handler → D → Handler × D
  complete h d =
      let closed : Handler = record h { finalized = true } in
      let (buf, h1) = start_flush closed in
      let (h2, d2) = run_flush buf false h1 d in
      elim h.init_req [
        | none ↦ (respond (meta_error start_missing) h, d)
        | some req ↦ elim h.flush_err [
          | some e ↦ fail_complete e closed d
          | none ↦
              if h.finalized
              then (respond (meta_error already_finalized) h, d)
              else if h.file_size == 0
              then (respond (meta_error empty_payload) closed, d)
              else if h.pending_len == 0
              then commit_meta req closed d
              else commit_meta req h2 d2
        ]
      ]

  unfoldable pub time_out : Handler → D → Handler × D
  time_out h d =
      fail_complete channel_timeout (record h { finalized = true; pending_len = 0; chunks = [] }) d
