-- ===== src/FileMeta/Roundtrip.antt =====
-- Encoding the metadata of a file and decoding the bytes, field by field.
use corgi.Base.{
  ℕ, ◌-◌, ◌%◌, ◌^◌, ◌<◌, ◌≡◌, refl, sym, ap, ◌∙◌, List, [], ◌∷◌, ◌++◌, arith, length, put_le,
  get_le, get_le-put_le, length-put_le, take-append, drop-append, length-append, append-nil,
  append_assoc, le→ltb, ne→==, eq→==, Option, some,
}
use corgi.FileMeta.{
  FileMeta, write_string, write_pairs, encode_file_meta, read_number, then_read, read_bytes,
  read_string, read_pairs, decode_file_meta,
}

-- Numbers that fit in 64 bits.
abbrev AreWords : List ℕ → Type 0
AreWords [] = Unit {0}
AreWords (x ∷ xs) = (x < 2 ^ 64) × AreWords xs

pub record IsEncodable (m : FileMeta) : Type 0 where
  pub meta_key : length m.meta_key < 2 ^ 32
  pub file_name : length m.file_name < 2 ^ 32
  pub lun : length m.lun < 2 ^ 32
  pub etag : length m.etag < 2 ^ 32
  pub size : m.size < 2 ^ 64
  pub pairs : length m.offset < 2 ^ 32
  pub offset : AreWords m.offset
  pub len : AreWords m.len
  pub same : length m.offset ≡ length m.len

read_number-prefix :
    (k : ℕ) (p r : List ℕ) → length p ≡ k → read_number k (p ++ r) ≡ some (get_le p, r)
unfolding read_number
read_number-prefix k p r h =
    rw
      (
        sym h,
        le→ltb (length (p ++ r)) (length p) (omega (arith, length-append p r)),
        take-append p r,
        drop-append p r,
      )
      refl

read_number-put_le :
    (k x : ℕ) (r : List ℕ) → x < 256 ^ k → read_number k (put_le k x ++ r) ≡ some (x, r)
read_number-put_le k x r h =
    read_number-prefix k (put_le k x) r (length-put_le k x)
    ∙ ap (λ t. some (t, r)) (get_le-put_le k x h)

read_bytes-append : (s r : List ℕ) → 0 < length r → read_bytes (length s) (s ++ r) ≡ some (s, r)
unfolding read_bytes
read_bytes-append s r h =
    rw
      (
        ne→== (length (s ++ r)) 0 (omega (arith, length-append s r)),
        take-append s r,
        drop-append s r,
        nothing_left,
      )
      (ap (λ t. some (t, r)) (append-nil s))
  where
    nothing_left : length s - length (s ++ r) ≡ 0
    nothing_left = omega (arith, length-append s r)

read_then {ℓ ℓ'} :
    {A : Type ℓ} {B : Type ℓ'} {o : Option (A × List ℕ)} {x : A} {r : List ℕ} {y : Option B}
    (f : A → List ℕ → Option B)
    → o ≡ some (x, r)
    → f x r ≡ y
    → then_read o f ≡ y
unfolding then_read
read_then f e h = ap (λ t. then_read t f) e ∙ h

read_string-write_string :
    (s r : List ℕ)
    → length s < 2 ^ 32
    → 0 < length r
    → read_string (write_string s ++ r) ≡ some (s, r)
unfolding read_string write_string
read_string-write_string s r h k =
    ap read_string (append_assoc (put_le 4 (length s % 2 ^ 32)) s r)
    ∙ read_then _ (read_number-put_le 4 (length s % 2 ^ 32) (s ++ r) (omega arith)) (
        ap (λ n. read_bytes n (s ++ r)) {x = length s % 2 ^ 32} {y = length s} (omega arith)
        ∙ read_bytes-append s r k)

read_pairs-write_pairs :
    (os ls : List ℕ)
    → AreWords os
    → AreWords ls
    → length os ≡ length ls
    → read_pairs (length os) (write_pairs os ls) ≡ some ((os, ls), [])
unfolding read_pairs write_pairs
read_pairs-write_pairs [] [] a b e = refl
read_pairs-write_pairs [] (l ∷ ls) a b e = absurd (omega arith)
read_pairs-write_pairs (o ∷ os) [] a b e = absurd (omega arith)
read_pairs-write_pairs (o ∷ os) (l ∷ ls) a b e =
    read_then _ (read_number-put_le 8 o (put_le 8 l ++ write_pairs os ls) a.0) (
      read_then _ (read_number-put_le 8 l (write_pairs os ls) b.0)
        (read_then _ (read_pairs-write_pairs os ls a.1 b.1 (omega arith)) refl))

write_string-grows : (s r : List ℕ) → 0 < length (write_string s ++ r)
unfolding write_string
write_string-grows s r = omega arith

-- Metadata with as many offsets as lengths, whose lengths and numbers fit their fields, is
-- encoded, and decoding the bytes gives it back.
pub decode_file_meta-encode_file_meta :
    (m : FileMeta)
    → IsEncodable m
    → (bytes : List ℕ) × (encode_file_meta m ≡ some bytes) × (decode_file_meta bytes ≡ some m)
unfolding encode_file_meta decode_file_meta
decode_file_meta-encode_file_meta m h =
    let pairs = write_pairs m.offset m.len in
    let counted = put_le 4 (length m.offset % 2 ^ 32) ++ pairs in
    let sized = put_le 8 m.size ++ counted in
    let from_etag = write_string m.etag ++ sized in
    let from_lun = write_string m.lun ++ from_etag in
    let from_name = write_string m.file_name ++ from_lun in
    (
      write_string m.meta_key ++ from_name,
      rw (eq→== (length m.offset) (length m.len) h.same) refl,
      read_then _
          (read_string-write_string m.meta_key from_name h.meta_key
            (write_string-grows m.file_name from_lun))
          (read_then _
            (read_string-write_string m.file_name from_lun h.file_name
              (write_string-grows m.lun from_etag))
            (read_then _
              (read_string-write_string m.lun from_etag h.lun (write_string-grows m.etag sized))
              (read_then _ (read_string-write_string m.etag sized h.etag (omega arith)) (
                read_then _ (read_number-put_le 8 m.size counted h.size) (
                  read_then _ (read_number-put_le 4 (length m.offset % 2 ^ 32) pairs (omega arith))
                    (read_then _
                      (ap (λ n. read_pairs n pairs) {x = length m.offset % 2 ^ 32}
                          {y = length m.offset} (omega (arith, h.pairs))
                        ∙ read_pairs-write_pairs m.offset m.len h.offset h.len h.same)
                      refl)))))),
    )
