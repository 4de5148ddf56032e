-- ===== src/FileMeta/Examples.antt =====
-- The round trip of the metadata of a file with two extents.
use corgi.Base.{ℕ, ◌≡◌, List, [], ◌∷◌, arith, refl, some}
use corgi.FileMeta.{FileMeta, encode_file_meta, decode_file_meta}
use corgi.FileMeta.Roundtrip.{IsEncodable, decode_file_meta-encode_file_meta}

abbrev two_extents : FileMeta
two_extents = record {
  meta_key = 97 ∷ 47 ∷ 98 ∷ [];
  file_name = 98 ∷ [];
  lun = [];
  etag = [];
  size = 5000;
  offset = 0 ∷ 8192 ∷ [];
  len = 4096 ∷ 4096 ∷ [];
}

two_extents-IsEncodable : IsEncodable two_extents
two_extents-IsEncodable = record {
  meta_key = omega arith;
  file_name = omega arith;
  lun = omega arith;
  etag = omega arith;
  size = omega arith;
  pairs = omega arith;
  offset = (omega arith, (omega arith, tt));
  len = (omega arith, (omega arith, tt));
  same = refl;
}

decode_file_meta-encode_file_meta_example :
    (bytes : List ℕ) × (encode_file_meta two_extents ≡ some bytes)
    × (decode_file_meta bytes ≡ some two_extents)
decode_file_meta-encode_file_meta_example =
    decode_file_meta-encode_file_meta two_extents two_extents-IsEncodable
