-- ===== src/Upload/Closing.antt =====
-- Complete: how an upload ends, and the blocks that it holds of the device then.
use corgi.Base.{
  ℕ, ◌+◌, ◌≤◌, Bool, false, List, [], ◌∷◌, ◌++◌, Option, some, ◌≡◌, if◌then◌else◌, inl, inr, ◌⊎◌,
}
use corgi.Alloc.Geometry.{Result}
use corgi.Alloc.Api.Valid.{holds}
use corgi.Upload.{
  Error, Handler, FlushBlockInfo, PutInitRequest, Response, meta_success, meta_error, Device,
}
use corgi.Upload.Blocks.{AreReleased}

-- How often the extents hold block `x`.
abbrev pub times : ℕ → List Result → ℕ
times x [] = 0
times x (r ∷ rs) = (if holds r x then 1 else 0) + times x rs

-- How often the tokens of the block infos hold it.
abbrev pub owed : ℕ → List FlushBlockInfo → ℕ
owed x [] = 0
owed x (i ∷ is) = times x i.token + owed x is

-- A device that counts its allocations: `held x` is how often block `x` is allocated. Alloc allocates
-- the blocks of the token that it returns, RollbackAlloc gives those of its token back, and nothing else
-- changes the count.
pub record IsCounting {D : Type 0} (device : Device D) (held : ℕ → D → ℕ) : Type 0 where
  pub allocates :
      (n : ℕ) (d d' : D) (results token : List Result) (x : ℕ)
      → device.alloc n d ≡ (inr (results, token), d')
      → held x d' ≡ held x d + times x token
  pub refuses :
      (n : ℕ) (d d' : D) (e : Error) (x : ℕ) → device.alloc n d ≡ (inl e, d') → held x d' ≡ held x d
  pub writes :
      (buf : List ℕ) (results : List Result) (d : D) (x : ℕ)
      → held x (device.write_allocated buf results d).2 ≡ held x d
  pub gives_back :
      (token : List Result) (d : D) (x : ℕ)
      → times x token ≤ held x d
      → held x (device.rollback_alloc token d) + times x token ≡ held x d
  pub persists :
      (no_get : Bool) (bytes : List ℕ) (results : List Result) (total : ℕ) (d : D) (x : ℕ)
      → held x (device.persist no_get bytes results total d).2 ≡ held x d

-- A handler that has started and is not finalized; `e` is the first error of its flushes.
abbrev pub begun : PutInitRequest → Option Error → Handler → Handler
begun req e h = record h { init_req = some req; flush_err = e; finalized = false }

module _ {D : Type 0} (device : Device D) (held : ℕ → D → ℕ) (counting : IsCounting device held)
    (x others : ℕ) where
  -- What the device holds of block `x`: what others have allocated, and what the infos have.
  abbrev Owns : List FlushBlockInfo → D → Type 0
  Owns is d = held x d ≡ others + owed x is

  -- How an upload ends: with success, and then the blocks of its tokens are allocated; or with an error,
  -- and then it holds no block any more, and the device has given all its blocks back.
  abbrev pub Ends : List Response → Handler × D → Type 0
  Ends before r =
      ((r.0.responses ≡ before ++ meta_success ∷ [])
        × (held x r.1 ≡ others + owed x r.0.block_info_list))
      ⊎ ((e : Error) × (r.0.responses ≡ before ++ meta_error e ∷ [])
          × AreReleased r.0.block_info_list
          × (held x r.1 ≡ others))

  -- After a flush the handler's infos still say what the device holds.
  abbrev Flushed : List Response → Handler × D → Type 0
  Flushed before (h, d) = (h.responses ≡ before) × Owns h.block_info_list d
