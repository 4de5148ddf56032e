-- ===== src/Upload/Examples.antt =====
-- The theorems on the upload handler at a device that has one extent to give.
use corgi.Base.{
  ℕ, List, inl, ◌+◌, ◌-◌, ◌%◌, ◌≡◌, refl, false, [], ◌∷◌, arith, take, none, some, length, ◌⊎◌, inr,
}
use corgi.Alloc.Geometry.{Result}
use corgi.Upload.{
  Error, Handler, PutInitRequest, Device, concat, block_size, start_flush, put,
  rollback_completed_flushes,
}
use corgi.Upload.Accounts.{put-IsAccounted}
use corgi.Upload.Closing.{times}
use corgi.Upload.Blocks.{IsAccounted, start_flush-buffer, rollback_completed_flushes-twice}

abbrev one_extent : Result
one_extent = record { offset = 0; size = 4096 }

-- Its state is the number of bytes given out.
abbrev disk : Device ℕ
disk = record {
  alloc = λ n d. (inr (one_extent ∷ [], one_extent ∷ []), d + n);
  write_allocated = λ buf rs d. (none, length buf, d);
  rollback_alloc = λ rs d. d - 4096;
  marshal = λ m. some [];
  persist = λ no_get bytes rs total d. (none, false, d);
  crc32_update = λ c bs. c + length bs;
  format_etag = λ c. c ∷ [];
}

abbrev request : PutInitRequest
request = record { meta_key = 97 ∷ []; file_name = 97 ∷ []; lun = []; no_get = false }

abbrev three_bytes : Handler
three_bytes = record {
  init_req = some request;
  chunks = (1 ∷ 2 ∷ []) ∷ (3 ∷ []) ∷ [];
  pending_len = 3;
  file_size = 3;
  crc32_value = 3;
  block_info_list = [];
  flush_err = none;
  finalized = false;
  responses = [];
}

three_bytes-IsAccounted : IsAccounted three_bytes
unfolding concat
three_bytes-IsAccounted = record { pending = refl; total = omega arith }

start_flush-buffer_example :
    (length (start_flush three_bytes).0 % block_size ≡ 0)
    × (take 3 (start_flush three_bytes).0 ≡ concat three_bytes.chunks)
    × IsAccounted (start_flush three_bytes).1
start_flush-buffer_example = start_flush-buffer three_bytes three_bytes-IsAccounted

-- A device whose state is how often each block is allocated.
abbrev counter : Device (ℕ → ℕ)
counter = record {
  alloc = λ n d. (inr (one_extent ∷ [], one_extent ∷ []), λ x. d x + times x (one_extent ∷ []));
  write_allocated = λ buf rs d. (none, length buf, d);
  rollback_alloc = λ token d x. d x - times x token;
  marshal = λ m. some [];
  persist = λ no_get bytes rs total d. (none, false, d);
  crc32_update = λ c bs. c + length bs;
  format_etag = λ c. c ∷ [];
}

abbrev count_of : ℕ → (ℕ → ℕ) → ℕ
count_of x d = d x

abbrev token_of : (Error ⊎ (List Result × List Result)) × (ℕ → ℕ) → List Result
token_of (inl e, d) = []
token_of (inr (results, token), d) = token

abbrev one_flush : Handler
one_flush = record three_bytes {
  block_info_list =
      record {
        results = one_extent ∷ [];
        token = one_extent ∷ [];
        original_len = 3;
        aligned_len = 4096;
        err = none;
      }
      ∷ [];
}

rollback_completed_flushes-twice_example :
    (rollback_completed_flushes disk
      (rollback_completed_flushes disk one_flush 4096).0
      (rollback_completed_flushes disk one_flush 4096).1).1
    ≡ (rollback_completed_flushes disk one_flush 4096).1
rollback_completed_flushes-twice_example = rollback_completed_flushes-twice disk one_flush 4096

put-IsAccounted_example : IsAccounted (put disk (4 ∷ 5 ∷ []) three_bytes 0).0
put-IsAccounted_example = put-IsAccounted disk (4 ∷ 5 ∷ []) three_bytes 0 three_bytes-IsAccounted
