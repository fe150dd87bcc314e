-- ===== src/ExfatChecksum.antt =====
-- The rolling checksum of exFAT, rust_kernel/kolibri_utils/src/exfat_checksum.rs: over the entries of
-- a file, where the checksum's own field is left out and then filled in, and over a name.
pub mod Field
mod Examples
use kolibri_os_reloaded.Base.{
  ℕ, zero, suc, ◌+◌, ◌*◌, ◌/◌, ◌%◌, ◌^◌, bit_and, Bool, true, false, ◌&&◌, ◌||◌, ◌==◌,
  if◌then◌else◌, u16, ◌>>>◌,
}
use kolibri_os_reloaded.Base.Memory.{Memory, store_u16}

-- One byte more.
unfoldable pub rolled : ℕ → ℕ → ℕ
rolled sum byte =
    let rotated = if bit_and sum 1 == 0 then 0 else 0x8000 in
    u16 (u16 (rotated + (sum >>> 1)) + byte)

-- The loop, with the number of bytes left, from index `i` on.
unfoldable pub roll_bytes : ℕ → Memory → ℕ → Bool → ℕ → ℕ → ℕ
roll_bytes zero m start skip_indices_2_3 i sum = sum
roll_bytes (suc left) m start skip_indices_2_3 i sum =
    roll_bytes left m start skip_indices_2_3 (i + 1)
      (if skip_indices_2_3 && ((i == 2) || (i == 3)) then sum else rolled sum (m (start + i)))

unfoldable pub exfat_rolling_checksum : Memory → ℕ → ℕ → Bool → ℕ
exfat_rolling_checksum m start len skip_indices_2_3 = roll_bytes len m start skip_indices_2_3 0 0

unfoldable pub calculate_set_checksum_field_sum : Memory → ℕ → ℕ → ℕ
calculate_set_checksum_field_sum m buf len = exfat_rolling_checksum m buf len true

unfoldable pub calculate_set_checksum_field : Memory → ℕ → ℕ → Memory × ℕ
calculate_set_checksum_field m buf len =
    let sum = calculate_set_checksum_field_sum m buf len in (store_u16 m (buf + 2) sum, sum)

unfoldable pub exfat_hash_calculate : Memory → ℕ → ℕ → ℕ
exfat_hash_calculate m start len = exfat_rolling_checksum m start len false
