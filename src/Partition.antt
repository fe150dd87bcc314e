-- ===== src/Partition.antt =====
-- Partition tables, rust_kernel/kolibri_utils/src/partition.rs: the test of an entry, what is done
-- with an entry, and the test of a protective MBR. The disk's `add_partition` is a call back into
-- the kernel: the model returns the call's arguments.
pub mod Entries
pub mod Protective
mod Examples
use kolibri_os_reloaded.Base.{
  ℕ, zero, suc, ◌+◌, ◌-◌, ◌*◌, ◌/◌, ◌%◌, ◌^◌, bit_and, bit_or, Bool, true, false, ◌&&◌, ◌||◌, ltb,
  ◌==◌, if◌then◌else◌, u32, ◌<<<◌, ◌>>>◌,
}
use kolibri_os_reloaded.Base.Memory.{Memory, load_u16, load_u32}

abbrev off_bootable : ℕ
off_bootable = 0

abbrev off_type : ℕ
off_type = 4

abbrev off_first_abs_sector : ℕ
off_first_abs_sector = 8

abbrev off_length : ℕ
off_length = 12

abbrev protective_mbr_type : ℕ
protective_mbr_type = 0xEE

abbrev protective_trailing_bytes : ℕ
protective_trailing_bytes = 48

-- `wrapping_add` on u64 patterns.
abbrev add_u64 : ℕ → ℕ → ℕ
add_u64 a b = (a + b) % 2 ^ 64

unfoldable pub is_partition_table_entry : ℕ → ℕ → ℕ → ℕ → ℕ → Bool
is_partition_table_entry bootable first_abs_sector length ebp_base capacity =
    let sum = add_u64 (add_u64 ebp_base first_abs_sector) length in
    if bit_and bootable 0x7F == 0 then ltb (sum >>> 1) capacity else false

-- 0 for a valid entry and 1 for another.
unfoldable pub is_partition_table_entry_ptr : Memory → ℕ → ℕ → ℕ → ℕ → ℕ
is_partition_table_entry_ptr m entry ebp_base capacity_lo capacity_hi =
    let capacity = bit_or (capacity_hi <<< 32) capacity_lo in
    if is_partition_table_entry (m (entry + off_bootable))
      (load_u32 m (entry + off_first_abs_sector)) (load_u32 m (entry + off_length)) ebp_base
      capacity
    then 0
    else 1

unfoldable pub is_extended_partition_type : ℕ → Bool
is_extended_partition_type ty = (ty == 0x05) || (ty == 0x0f) || (ty == 0xc5) || (ty == 0xd5)

-- The low and the high dword.
unfoldable pub partition_start_from_mbr : ℕ → ℕ → ℕ × ℕ
partition_start_from_mbr mbr_ebr_sector first_abs_sector =
    let sum = add_u64 mbr_ebr_sector first_abs_sector in (u32 sum, u32 (sum >>> 32))

-- What an entry leads to: nothing, a sector stored for the extended partition, or a call of
-- `add_partition` with start, length and disk.
pub data EntryEffect : Type 0 where
  ignored : EntryEffect
  extended : ℕ → EntryEffect
  added : ℕ → ℕ → ℕ → ℕ → ℕ → EntryEffect

unfoldable pub process_partition_table_entry : Memory → ℕ → ℕ → ℕ → ℕ → ℕ → EntryEffect
process_partition_table_entry m entry mbr_ebr_sector capacity_lo capacity_hi disk =
    let ty = m (entry + off_type) in
    let first = load_u32 m (entry + off_first_abs_sector) in
    let length = load_u32 m (entry + off_length) in
    let (start_lo, start_hi) = partition_start_from_mbr mbr_ebr_sector first in
    if is_partition_table_entry_ptr m entry mbr_ebr_sector capacity_lo capacity_hi == 0
    then (if ty == 0
        then EntryEffect.ignored
        else if is_extended_partition_type ty
        then EntryEffect.extended first
        else EntryEffect.added start_lo start_hi length 0 disk)
    else EntryEffect.ignored

-- `all` over bytes of memory.
unfoldable pub all_zero : ℕ → Memory → ℕ → Bool
all_zero zero m at = true
all_zero (suc n) m at = let rest = all_zero n m (at + 1) in (m at == 0) && rest

unfoldable pub is_protective_mbr : Memory → ℕ → ℕ → Bool
is_protective_mbr m pt capacity_lo =
    let length = load_u32 m (pt + off_length) in
    (load_u16 m (pt - 2) == 0)
    && (m (pt + off_bootable) == 0)
    && (m (pt + off_type) == protective_mbr_type)
    && (load_u32 m (pt + off_first_abs_sector) == 1)
    && ((length == 0xffffffff) || (length == u32 (0xffffffff + capacity_lo)))
    && all_zero protective_trailing_bytes m (pt + 16)

unfoldable pub is_protective_mbr_ptr : Memory → ℕ → ℕ → ℕ
is_protective_mbr_ptr m pt capacity_lo = if is_protective_mbr m pt capacity_lo then 0 else 1
