-- ===== src/Alloc/Tests.antt =====
-- Runs of the allocator.
use corgi.Base.{◌≡◌, refl, [], ◌∷◌, ◌^◌, ◌-◌}
use corgi.Base.Word.{complement, trailing_zeros}
use corgi.Alloc.Geometry.{min_int64, append_result, validate_range, valid_word_mask, range_mask}
use corgi.Alloc.Store.{AllocatorV3}
use corgi.Alloc.Store.{get_entry, update_l1_for_l0_slot, update_l2_for_l1_slot}
use corgi.Alloc.Mark.{mark_range, range_fully_allocated, mark_words, refresh_l1, refresh_l2}
use corgi.Alloc.Search.{
  next_free_run, first_some, search_l2_entry, search_l1_slots, search_l1_entry, scan_l0_limited,
  run_from, first_free, first_bit, extend_run, free_entry_run,
}
use corgi.Alloc.Api.{
  allocate_passes, allocate_pass, next_pos, check_extents, any_overlap, mark_all, ok, err,
  new_allocator, allocate, release, not_fully_allocated,
}

abbrev small : AllocatorV3
small = record {
  total = 130;
  available = 130;
  l0 = (2 ^ 64 - 1) ∷ (2 ^ 64 - 1) ∷ 3 ∷ [];
  l1 = 3 ∷ [];
  l2 = 1 ∷ [];
  l0_slots = 3;
  last_pos = 0;
}

new_small : new_allocator 130 ≡ small
unfolding new_allocator complement valid_word_mask
new_small = refl

allocate_small : (allocate 100 small).0 ≡ ok (record { offset = 0; size = 100 } ∷ [])
unfolding allocate allocate_passes allocate_pass next_free_run first_some search_l2_entry
    search_l1_slots search_l1_entry scan_l0_limited run_from first_free first_bit extend_run
    free_entry_run get_entry trailing_zeros min_int64 append_result next_pos mark_range complement
    valid_word_mask range_mask mark_words refresh_l1 refresh_l2 update_l1_for_l0_slot
    update_l2_for_l1_slot
allocate_small = refl

allocate_again :
    (allocate 20 (allocate 100 small).1).0 ≡ ok (record { offset = 100; size = 20 } ∷ [])
unfolding allocate allocate_passes allocate_pass next_free_run first_some search_l2_entry
    search_l1_slots search_l1_entry scan_l0_limited run_from first_free first_bit extend_run
    free_entry_run get_entry trailing_zeros min_int64 append_result next_pos mark_range complement
    valid_word_mask range_mask mark_words refresh_l1 refresh_l2 update_l1_for_l0_slot
    update_l2_for_l1_slot
allocate_again = refl

release_refused_small :
    (release (record { offset = 0; size = 10 } ∷ []) small).0 ≡ err not_fully_allocated
unfolding release check_extents validate_range range_fully_allocated any_overlap mark_all mark_range
    complement valid_word_mask range_mask mark_words refresh_l1 refresh_l2 update_l1_for_l0_slot
    update_l2_for_l1_slot
release_refused_small = refl

around :
    (allocate 31 (release (record { offset = 5; size = 10 } ∷ []) (allocate 100 small).1).1).0
    ≡ ok (record { offset = 100; size = 30 } ∷ record { offset = 5; size = 1 } ∷ [])
unfolding allocate allocate_passes allocate_pass next_free_run first_some search_l2_entry
    search_l1_slots search_l1_entry scan_l0_limited run_from first_free first_bit extend_run
    free_entry_run get_entry trailing_zeros min_int64 append_result next_pos release check_extents
    validate_range range_fully_allocated any_overlap mark_all mark_range complement valid_word_mask
    range_mask mark_words refresh_l1 refresh_l2 update_l1_for_l0_slot update_l2_for_l1_slot
around = refl
