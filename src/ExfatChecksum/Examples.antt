-- ===== src/ExfatChecksum/Examples.antt =====
-- A small set of entries, and the witness.
use kolibri_os_reloaded.Base.{ℕ, ◌+◌, ◌≤◌, ◌<◌, ◌≡◌, ◌⊎◌, refl, ◌==◌, if◌then◌else◌}
use kolibri_os_reloaded.Base.Memory.{Memory, load_u16}
use kolibri_os_reloaded.ExfatChecksum.{
  calculate_set_checksum_field, calculate_set_checksum_field_sum, exfat_hash_calculate,
  exfat_rolling_checksum, roll_bytes, rolled,
}
use kolibri_os_reloaded.ExfatChecksum.Field.{calculate_set_checksum_field-verifies}

abbrev entries : Memory
entries a = if a == 0 then 0x85 else if a == 1 then 2 else if a == 4 then 0x20 else 0

one_byte_hash : exfat_hash_calculate entries 0 2 ≡ 32836
unfolding exfat_hash_calculate exfat_rolling_checksum roll_bytes rolled
one_byte_hash = refl

calculate_set_checksum_field-verifies_example :
    let m' = (calculate_set_checksum_field entries 0 32).0 in
    (load_u16 m' (0 + 2) ≡ calculate_set_checksum_field_sum m' 0 32)
    × ((calculate_set_checksum_field entries 0 32).1 ≡ calculate_set_checksum_field_sum m' 0 32)
    × ((a : ℕ) → (a < 0 + 2) ⊎ (0 + 4 ≤ a) → m' a ≡ entries a)
calculate_set_checksum_field-verifies_example = calculate_set_checksum_field-verifies entries 0 32
