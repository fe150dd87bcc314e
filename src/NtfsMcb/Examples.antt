-- ===== src/NtfsMcb/Examples.antt =====
-- An entry with a negative distance, written into an attribute with room, and the theorem there.
use kolibri_os_reloaded.Base.{ℕ, ◌-◌, ◌^◌, ◌≡◌, refl, arith, ◌==◌, if◌then◌else◌, some, inl}
use kolibri_os_reloaded.Base.Memory.{Memory, IsBytes}
use kolibri_os_reloaded.NtfsMcb.{
  ntfs_create_mcb_entry_ptr, mcb_start_width, mcb_size_width, count_bytes,
}
use kolibri_os_reloaded.NtfsMcb.RoundTrip.{CreateOutcome, ntfs_create_mcb_entry_ptr_outcome}

-- A record at 0 with an attribute of 256 bytes at 100.
abbrev record_bytes : Memory
record_bytes a = if a == 105 then 1 else 0

record_bytes-IsBytes : IsBytes record_bytes
record_bytes-IsBytes a = ground arith

minus_300_takes_two_bytes : mcb_start_width (2 ^ 32 - 300) ≡ some 2
unfolding mcb_start_width count_bytes
minus_300_takes_two_bytes = refl

large_length_takes_two_bytes : mcb_size_width 200 ≡ some 2
unfolding mcb_size_width count_bytes
large_length_takes_two_bytes = refl

ntfs_create_mcb_entry_ptr_outcome_example :
    (r : Memory × ℕ × ℕ) × (ntfs_create_mcb_entry_ptr record_bytes (2 ^ 32 - 300) 200 150 100 0
      ≡ some r)
    × CreateOutcome record_bytes (2 ^ 32 - 300) 200 150 100 0 400 r
ntfs_create_mcb_entry_ptr_outcome_example =
    ntfs_create_mcb_entry_ptr_outcome record_bytes (2 ^ 32 - 300) 200 150 100 0 400
      record_bytes-IsBytes (omega arith) (omega arith) (inl (omega arith))
