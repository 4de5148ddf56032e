-- ===== src/Upload/Accounts.antt =====
-- The account of the bytes of an upload over Put and its flush.
use corgi.Base.{
  ℕ, ◌+◌, ◌≡◌, refl, ap, ◌∙◌, true, List, [], ◌∷◌, ◌==◌, leb, Bool, false, Option, none, some,
  length, map, Option-cases, Sum-cases, Bool-cases, inl, inr, arith,
}
use corgi.Alloc.Geometry.{Result}
use corgi.Upload.{
  Error, PutInitRequest, partial_write, meta_continue, meta_error, respond, fail_and_respond,
  accept, put, min_alloc_size, update_last, fail_flush, complete_flush, Handler, FlushBlockInfo,
  Response, start_flush, Device, without_token, rollback_completed_flushes, run_flush,
}
use corgi.Upload.Blocks.{IsAccounted, flushed_size, concat-append, start_flush-buffer}

flushed_size-update_last :
    (f : FlushBlockInfo → FlushBlockInfo)
    → ((i : FlushBlockInfo) → (f i).original_len ≡ i.original_len)
    → (is : List FlushBlockInfo) → flushed_size (update_last f is) ≡ flushed_size is
unfolding update_last
flushed_size-update_last f same [] = refl
flushed_size-update_last f same (i ∷ []) = ap (λ t. t + 0) (same i)
flushed_size-update_last f same (i ∷ j ∷ is) =
    ap (λ t. i.original_len + t) (flushed_size-update_last f same (j ∷ is))

flushed_size-without_token :
    (is : List FlushBlockInfo) → flushed_size (map without_token is) ≡ flushed_size is
flushed_size-without_token [] = refl
flushed_size-without_token (i ∷ is) = ap (λ t. i.original_len + t) (flushed_size-without_token is)

complete_flush-IsAccounted :
    (results token : List Result) (h : Handler)
    → IsAccounted h
    → IsAccounted (complete_flush results token h)
unfolding complete_flush
complete_flush-IsAccounted results token h acc = record {
  pending = acc.pending;
  total =
      ap (λ t. t + h.pending_len) (flushed_size-update_last _ (λ i. refl) h.block_info_list)
      ∙ acc.total;
}

fail_flush-IsAccounted : (e : Error) (h : Handler) → IsAccounted h → IsAccounted (fail_flush e h)
unfolding fail_flush
fail_flush-IsAccounted e h acc = record {
  pending = acc.pending;
  total =
      ap (λ t. t + h.pending_len) (flushed_size-update_last _ (λ i. refl) h.block_info_list)
      ∙ acc.total;
}

respond-IsAccounted : (r : Response) (h : Handler) → IsAccounted h → IsAccounted (respond r h)
respond-IsAccounted r h acc = record { pending = acc.pending; total = acc.total }

module _ {D : Type 0} (device : Device D) where
  rollback-IsAccounted :
      (h : Handler) (d : D) → IsAccounted h → IsAccounted (rollback_completed_flushes device h d).0
  unfolding rollback_completed_flushes
  rollback-IsAccounted h d acc = record {
    pending = acc.pending;
    total = ap (λ t. t + h.pending_len) (flushed_size-without_token h.block_info_list) ∙ acc.total;
  }

  failed_flush-IsAccounted :
      (e : Error) (h : Handler) (d : D)
      → IsAccounted h
      → IsAccounted (fail_and_respond device true e h d).0
  failed_flush-IsAccounted e h d acc =
      respond-IsAccounted (meta_error e) (rollback_completed_flushes device (fail_flush e h) d).0
        (rollback-IsAccounted (fail_flush e h) d (fail_flush-IsAccounted e h acc))

  run_flush-IsAccounted :
      (buf : List ℕ) (h : Handler) (d : D)
      → IsAccounted h
      → IsAccounted (run_flush device buf true h d).0
  unfolding run_flush
  run_flush-IsAccounted buf h d acc =
      let asked = device.alloc (length buf) d in
      elim (Sum-cases asked.0) [
        | inl (e, none_left) ↦
            simp (run_flush, none_left) (failed_flush-IsAccounted e h asked.1 acc)
        | inr (r, allocated) ↦
            let wrote = device.write_allocated buf r.0 asked.1 in
            let back = device.rollback_alloc r.1 wrote.2 in
            elim (Option-cases wrote.0) [
              | inr (e, broke) ↦
                  simp (run_flush, allocated, broke) (failed_flush-IsAccounted e h back acc)
              | inl fine ↦ elim (Bool-cases (wrote.1 == length buf)) [
                | inl all_written ↦
                    simp (run_flush, allocated, fine, all_written)
                      (respond-IsAccounted meta_continue (complete_flush r.0 r.1 h)
                        (complete_flush-IsAccounted r.0 r.1 h acc))
                | inr part ↦
                    simp (run_flush, allocated, fine, part)
                      (failed_flush-IsAccounted partial_write h back acc)
              ]
            ]
      ]

  accept-IsAccounted :
      (chunk : List ℕ) (h : Handler) → IsAccounted h → IsAccounted (accept device chunk h)
  accept-IsAccounted chunk h acc = record {
    pending = concat-append h.chunks chunk ∙ ap (λ t. t + length chunk) acc.pending;
    total = omega (arith, acc.total);
  }

  put_at-IsAccounted :
      (req : Option PutInitRequest) (e : Option Error) (final : Bool) (chunk : List ℕ) (h : Handler)
      (d : D)
      → IsAccounted h
      → IsAccounted
          (put device chunk (record h { init_req = req; flush_err = e; finalized = final }) d).0
  unfolding put
  put_at-IsAccounted none e final chunk h d acc = record {
    pending = acc.pending;
    total = acc.total;
  }
  put_at-IsAccounted (some req) (some e) final chunk h d acc = record {
    pending = acc.pending;
    total = acc.total;
  }
  put_at-IsAccounted (some req) none true chunk h d acc = record {
    pending = acc.pending;
    total = acc.total;
  }
  put_at-IsAccounted (some req) none false chunk h d acc =
      let h0 : Handler = record h { init_req = some req; flush_err = none; finalized = false } in
      let h1 = accept device chunk h0 in
      let acc1 =
        accept-IsAccounted chunk h0 (record { pending = acc.pending; total = acc.total }) in
      elim (Bool-cases (length chunk == 0)) [
        | inl empty ↦ rw empty (record { pending = acc.pending; total = acc.total })
        | inr bytes ↦ elim (Bool-cases (leb min_alloc_size h1.pending_len)) [
          | inl enough ↦
              rw (bytes, enough)
                (run_flush-IsAccounted (start_flush h1).0 (start_flush h1).1 d
                  (start_flush-buffer h1 acc1).2)
          | inr little ↦ rw (bytes, little) (respond-IsAccounted meta_continue h1 acc1)
        ]
      ]

  -- A Put keeps the account of the bytes of an upload on every branch, errors included: where the
  -- bytes that wait and the flushed ones are the whole file before it, they are after it, whatever
  -- the device answers.
  pub put-IsAccounted :
      (chunk : List ℕ) (h : Handler) (d : D) → IsAccounted h → IsAccounted (put device chunk h d).0
  put-IsAccounted chunk h d acc =
      put_at-IsAccounted h.init_req h.flush_err h.finalized chunk h d acc
