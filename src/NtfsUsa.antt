-- ===== src/NtfsUsa.antt =====
-- The update sequence of NTFS records, rust_kernel/kolibri_utils/src/ntfs_usa.rs. A record is
-- protected by replacing the last word of each sector by a sequence number; the words replaced are
-- kept in an array in the header. Offsets are from the start of the record.
pub mod Restore
mod Examples
use kolibri_os_reloaded.Base.{
  ℕ, zero, suc, ◌+◌, ◌*◌, ◌/◌, ◌%◌, ◌^◌, Bool, true, false, ◌==◌, if◌then◌else◌, u16, u32, ◌>>>◌,
}
use kolibri_os_reloaded.Base.Memory.{Memory, load_u16, store_u16}

abbrev update_sequence_offset : ℕ
update_sequence_offset = 4

abbrev update_sequence_size : ℕ
update_sequence_size = 6

abbrev sector_end_word_off : ℕ
sector_end_word_off = 0x1fe

abbrev sector_size : ℕ
sector_size = 512

-- The loop over the sectors that remain: the new memory and whether all were good.
unfoldable pub restore_sectors : ℕ → Memory → ℕ → ℕ → ℕ → Memory × Bool
restore_sectors zero m usn usa end_word = (m, true)
restore_sectors (suc remaining) m usn usa end_word =
    let rest =
      restore_sectors remaining (store_u16 m end_word (load_u16 m usa)) usn (usa + 2)
        (end_word + sector_size) in
    if load_u16 m end_word == usn then rest else (m, false)

unfoldable pub ntfs_restore_usa : Memory → ℕ → Memory × Bool
ntfs_restore_usa m size =
    let sectors = size >>> 9 in
    let expected_usa = u16 (u32 (sectors + 1)) in
    let usa = load_u16 m update_sequence_offset in
    if load_u16 m update_sequence_size == expected_usa
    then restore_sectors sectors m (load_u16 m usa) (usa + 2) sector_end_word_off
    else (m, false)

-- 0 for a good record, 1 for a bad one.
unfoldable pub ntfs_restore_usa_ptr : Memory → ℕ → Memory × ℕ
ntfs_restore_usa_ptr m size = let (m', ok) = ntfs_restore_usa m size in (m', if ok then 0 else 1)
