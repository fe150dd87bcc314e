-- ===== src/Partition/Examples.antt =====
-- A table with a data partition, one with an extended partition, a protective table, and witnesses.
use kolibri_os_reloaded.Base.{◌+◌, ◌*◌, ◌^◌, ◌≡◌, refl, arith, ◌==◌, if◌then◌else◌}
use kolibri_os_reloaded.Base.Memory.{Memory, IsBytes, load_u32, load_u16}
use kolibri_os_reloaded.Partition.{
  is_partition_table_entry, is_partition_table_entry_ptr, is_extended_partition_type,
  partition_start_from_mbr, EntryEffect, process_partition_table_entry, is_protective_mbr,
  is_protective_mbr_ptr, all_zero,
}
use kolibri_os_reloaded.Partition.Entries.{IsEffectOf, process_partition_table_entry_outcome}

-- Active, of type 0x0b, from sector 63, of 2000 sectors.
abbrev entry_bytes : Memory
entry_bytes a =
    if a == 0
    then 0x80
    else if a == 4
    then 0x0b
    else if a == 8
    then 63
    else if a == 12
    then 208
    else if a == 13
    then 7
    else 0

entry_bytes-IsBytes : IsBytes entry_bytes
entry_bytes-IsBytes a = ground arith

entry_is_added :
    process_partition_table_entry entry_bytes 0 100 4096 0 7 ≡ EntryEffect.added 163 0 2000 0 7
unfolding process_partition_table_entry is_partition_table_entry_ptr is_partition_table_entry
    load_u32 is_extended_partition_type partition_start_from_mbr
entry_is_added = refl

process_partition_table_entry_outcome_example :
    IsEffectOf entry_bytes 0 100
      (2 ^ 32 * 0 + 4096)
      7
      (process_partition_table_entry entry_bytes 0 100 4096 0 7)
process_partition_table_entry_outcome_example =
    process_partition_table_entry_outcome entry_bytes 0 100 4096 0 7 entry_bytes-IsBytes
      (omega arith) (omega arith)

-- A table at 446 for a disk of 4097 sectors.
abbrev protective_bytes : Memory
protective_bytes a = if a == 450 then 0xEE else if a == 454 then 1 else if a == 459 then 16 else 0

protective_bytes-IsBytes : IsBytes protective_bytes
protective_bytes-IsBytes a = ground arith

is_protective : is_protective_mbr_ptr protective_bytes 446 4097 ≡ 0
unfolding is_protective_mbr_ptr is_protective_mbr load_u32 load_u16 all_zero
is_protective = refl
