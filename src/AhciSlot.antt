-- ===== src/AhciSlot.antt =====
-- The search for a free command slot of an AHCI port,
-- rust_kernel/kolibri_utils/src/ahci_find_cmdslot.rs. A set bit is a busy slot.
pub mod FirstFree
mod Examples
use kolibri_os_reloaded.Base.{
  ℕ, zero, suc, ◌+◌, ◌-◌, ◌*◌, ◌/◌, ◌%◌, ◌^◌, bit_and, ◌==◌, if◌then◌else◌, u32, ◌>>>◌,
}

-- The loop, with the slots that are left to look at as its first argument.
unfoldable pub scan_slots : ℕ → ℕ → ℕ → ℕ
scan_slots zero i bits = 2 ^ 32 - 1
scan_slots (suc left) i bits =
    let rest = scan_slots left (u32 (i + 1)) (bits >>> 1) in if bit_and bits 1 == 0 then i else rest

unfoldable pub ahci_find_cmdslot : ℕ → ℕ → ℕ
ahci_find_cmdslot slots ncs = scan_slots ncs 0 slots
