-- ===== src/Partition/Entries.antt =====
-- Entries: which are valid and what becomes of them.
use kolibri_os_reloaded.Base.{
  ℕ, ◌+◌, ◌*◌, ◌%◌, ◌^◌, ◌<◌, ◌≡◌, ◌≢◌, ◌↔◌, ◌⊎◌, inl, inr, refl, arith, true, false, ◌==◌,
  Bool-cases, eq_cases,
}
use kolibri_os_reloaded.Base.Memory.{Memory, IsBytes, load_u32, load_u32-lt}
use kolibri_os_reloaded.Base.Fields.{bit_and_mask, bit_or_fields}
use kolibri_os_reloaded.Partition.{
  is_partition_table_entry, is_partition_table_entry_ptr, is_extended_partition_type,
  partition_start_from_mbr, EntryEffect, process_partition_table_entry,
}

-- The boot byte is 0 or 0x80, and the end of the entry, the sum of the sectors before, the start
-- and the length, lies below twice the capacity of the disk.
abbrev IsValidEntry : ℕ → ℕ → ℕ → ℕ → ℕ → Type 0
IsValidEntry bootable first length base capacity =
    ((bootable ≡ 0) ⊎ (bootable ≡ 0x80)) × (base + first + length < 2 * capacity)

-- An entry of a byte and dwords is accepted exactly when it is valid.
is_partition_table_entry_outcome :
    (bootable first length base capacity : ℕ)
    → bootable < 256
    → first < 2 ^ 32
    → length < 2 ^ 32
    → base < 2 ^ 32
    → (is_partition_table_entry bootable first length base capacity ≡ true)
      ↔ IsValidEntry bootable first length base capacity
unfolding is_partition_table_entry
is_partition_table_entry_outcome bootable first length base capacity hb hf hl hs =
    let sum : ((base + first) % 2 ^ 64 + length) % 2 ^ 64 ≡ base + first + length = omega arith in
    rw (sum, bit_and_mask 7 bootable) (ground arith)

-- The types of the extended partitions.
abbrev IsExtended : ℕ → Type 0
IsExtended ty = (ty ≡ 0x05) ⊎ (ty ≡ 0x0f) ⊎ (ty ≡ 0xc5) ⊎ (ty ≡ 0xd5)

is_extended_partition_type_outcome :
    (ty : ℕ) → (is_extended_partition_type ty ≡ true) ↔ IsExtended ty
unfolding is_extended_partition_type
is_extended_partition_type_outcome ty = ground arith

-- The two dwords of the start.
start_dwords :
    (a b : ℕ)
    → a < 2 ^ 32
    → b < 2 ^ 32
    → ((partition_start_from_mbr a b).0 + 2 ^ 32 * (partition_start_from_mbr a b).1 ≡ a + b)
      × ((partition_start_from_mbr a b).0 < 2 ^ 32)
unfolding partition_start_from_mbr
start_dwords a b h k = (omega arith, omega arith)

-- What an effect may be for an entry.
abbrev pub IsEffectOf : Memory → ℕ → ℕ → ℕ → ℕ → EntryEffect → Type 0
IsEffectOf m entry base capacity disk EntryEffect.ignored =
    (m (entry + 4) ≡ 0)
    ⊎ ¬ IsValidEntry (m entry) (load_u32 m (entry + 8)) (load_u32 m (entry + 12)) base capacity
IsEffectOf m entry base capacity disk (EntryEffect.extended sector) =
    IsValidEntry (m entry) (load_u32 m (entry + 8)) (load_u32 m (entry + 12)) base capacity
    × IsExtended (m (entry + 4))
    × (sector ≡ load_u32 m (entry + 8))
IsEffectOf m entry base capacity disk (EntryEffect.added start_lo start_hi length_lo length_hi to) =
    IsValidEntry (m entry) (load_u32 m (entry + 8)) (load_u32 m (entry + 12)) base capacity
    × (m (entry + 4) ≢ 0)
    × ¬ IsExtended (m (entry + 4))
    × (start_lo + 2 ^ 32 * start_hi ≡ base + load_u32 m (entry + 8))
    × (start_lo < 2 ^ 32)
    × (length_lo ≡ load_u32 m (entry + 12))
    × (length_hi ≡ 0)
    × (to ≡ disk)

-- On bytes, with the dwords of a base sector and of the capacity: an entry is valid when its boot
-- byte is 0 or 0x80 and its end (base, start and length together) is below twice the capacity. An
-- entry of type 0 or an invalid one leads to nothing; a valid one of type 5, 0x0f, 0xc5 or 0xd5
-- stores its first sector; any other valid one is added with its first sector counted from the
-- base, over two dwords, its length and the disk.
pub process_partition_table_entry_outcome :
    (m : Memory) (entry base capacity_lo capacity_hi disk : ℕ)
    → IsBytes m
    → base < 2 ^ 32
    → capacity_lo < 2 ^ 32
    → IsEffectOf m entry base
        (2 ^ 32 * capacity_hi + capacity_lo)
        disk
        (process_partition_table_entry m entry base capacity_lo capacity_hi disk)
unfolding process_partition_table_entry is_partition_table_entry_ptr
process_partition_table_entry_outcome m entry base capacity_lo capacity_hi disk bytes hb hc =
    let first = load_u32 m (entry + 8) in
    let length = load_u32 m (entry + 12) in
    let here : entry + 0 ≡ entry = omega arith in
    let shifted : capacity_hi * 2 ^ 32 ≡ 2 ^ 32 * capacity_hi = omega arith in
    let capacity = 2 ^ 32 * capacity_hi + capacity_lo in
    let ty = m (entry + 4) in
    let valid = is_partition_table_entry (m entry) first length base capacity in
    let joined = bit_or_fields 32 capacity_hi capacity_lo hc in
    let iff =
      is_partition_table_entry_outcome (m entry) first length base capacity (bytes entry)
        (load_u32-lt m (entry + 8) bytes) (load_u32-lt m (entry + 12) bytes) hb in
    let is_ext = is_extended_partition_type_outcome ty in
    let (start, low) = start_dwords base first hb (load_u32-lt m (entry + 8) bytes) in
    elim (Bool-cases valid) [
      | inr invalid ↦
          rw (here, shifted, joined, invalid) (inr (λ v. ground (arith, iff.1 v, invalid)))
      | inl ok ↦ elim (eq_cases ty 0) [
        | inl empty ↦ rw (here, shifted, joined, ok, empty) (inl empty)
        | inr some_type ↦
            (let typed : ((ty == 0) ≡ false) = ground arith in
              elim (Bool-cases (is_extended_partition_type ty)) [
                | inl ext ↦
                    rw (here, shifted, joined, ok, typed, ext) (iff.0 ok, is_ext.0 ext, refl)
                | inr plain ↦
                    rw (here, shifted, joined, ok, typed, plain)
                      (
                        iff.0 ok,
                        some_type,
                        (λ e. ground (arith, is_ext.1 e, plain)),
                        start,
                        low,
                        refl,
                        refl,
                        refl,
                      )
              ])
      ]
    ]
