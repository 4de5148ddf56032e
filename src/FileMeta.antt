-- ===== src/FileMeta.antt =====
-- The binary form of a file's metadata, internal/ec/server/file_meta_codec.go. A string is its bytes, an
-- int64 the uint64 of the same bits, `none` an error.
pub mod Roundtrip
mod Examples
use corgi.Base.{
  ℕ, zero, suc, ◌+◌, ◌-◌, ◌%◌, ◌^◌, List, [], ◌∷◌, ◌++◌, ltb, ◌==◌, if◌then◌else◌, length, take,
  drop, replicate, put_le, get_le, Option, none, some,
}

pub record FileMeta : Type 0 where
  pub meta_key : List ℕ
  pub file_name : List ℕ
  pub lun : List ℕ
  pub etag : List ℕ
  pub size : ℕ
  pub offset : List ℕ
  pub len : List ℕ

-- uint32(len(s)), then the bytes.
unfoldable pub write_string : List ℕ → List ℕ
write_string s = put_le 4 (length s % 2 ^ 32) ++ s

-- The loop over Offset and Len, which are equally long where it runs.
unfoldable pub write_pairs : List ℕ → List ℕ → List ℕ
write_pairs [] ls = []
write_pairs (o ∷ os) [] = []
write_pairs (o ∷ os) (l ∷ ls) = put_le 8 o ++ (put_le 8 l ++ write_pairs os ls)

unfoldable pub encode_file_meta : FileMeta → Option (List ℕ)
unfolding write_string write_pairs
encode_file_meta m =
    if length m.offset == length m.len
    then some (
        write_string m.meta_key
        ++ (write_string m.file_name
            ++ (write_string m.lun
                ++ (write_string m.etag
                    ++ (put_le 8 m.size
                        ++ (put_le 4 (length m.offset % 2 ^ 32) ++ write_pairs m.offset m.len))))))
    else none

-- binary.Read of a `k`-byte number: the number and the bytes after it, an error where fewer are left.
unfoldable pub read_number : ℕ → List ℕ → Option (ℕ × List ℕ)
read_number k r = if ltb (length r) k then none else some (get_le (take k r), drop k r)

unfoldable pub then_read {ℓ ℓ'} :
    {A : Type ℓ} {B : Type ℓ'} → Option (A × List ℕ) → (A → List ℕ → Option B) → Option B
then_read none f = none
then_read (some (x, r)) f = f x r

-- bytes.Reader.Read fails only where no byte is left; where too few are left, the buffer keeps its zeros.
unfoldable pub read_bytes : ℕ → List ℕ → Option (List ℕ × List ℕ)
read_bytes n r =
    if length r == 0 then none else some (take n r ++ replicate (n - length r) 0, drop n r)

unfoldable pub read_string : List ℕ → Option (List ℕ × List ℕ)
unfolding then_read read_number read_bytes
read_string r = then_read (read_number 4 r) read_bytes

-- The loop over the pairs, `n` left.
unfoldable pub read_pairs : ℕ → List ℕ → Option ((List ℕ × List ℕ) × List ℕ)
unfolding then_read read_number
read_pairs zero r = some (([], []), r)
read_pairs (suc n) r = then_read (read_number 8 r) λ o r.
    then_read (read_number 8 r)
      λ l r. then_read (read_pairs n r) λ ps r. some ((o ∷ ps.0, l ∷ ps.1), r)

unfoldable pub decode_file_meta : List ℕ → Option FileMeta
unfolding then_read read_string read_number read_pairs
decode_file_meta bytes = then_read (read_string bytes) λ meta_key r.
    then_read (read_string r) λ file_name r. then_read (read_string r) λ lun r.
      then_read (read_string r) λ etag r. then_read (read_number 8 r) λ size r.
        then_read (read_number 4 r) λ n r. then_read (read_pairs n r) λ ps r. some (record {
          meta_key = meta_key;
          file_name = file_name;
          lun = lun;
          etag = etag;
          size = size;
          offset = ps.0;
          len = ps.1;
        })
