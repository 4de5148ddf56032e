-- ===== src/Alloc/Api/Ranges.antt =====
-- validateRangeV3: which ranges it accepts.
use corgi.Base.{ℕ, ◌+◌, ◌^◌, ◌≤◌, ◌<◌, ◌≡◌, ◌↔◌, true, arith}
use corgi.Alloc.Geometry.{validate_range}

-- For 64-bit numbers and a total of at most 2^62 blocks, validateRangeV3 accepts exactly the
-- nonempty ranges inside the device: neither a negative number nor an overflow of their sum
-- passes.
pub validate_range_iff :
    (total offset size : ℕ)
    → total ≤ 2 ^ 62
    → offset < 2 ^ 64
    → size < 2 ^ 64
    → (validate_range total offset size ≡ true) ↔ ((0 < size) × (offset + size ≤ total))
unfolding validate_range
validate_range_iff total offset size h p q = ground arith
