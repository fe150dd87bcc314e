-- ===== src/AhciSlot/Examples.antt =====
-- Runs of the slot search, and its theorem there.
use kolibri_os_reloaded.Base.{◌≡◌, refl}
use kolibri_os_reloaded.AhciSlot.{ahci_find_cmdslot, scan_slots}

third_is_free : ahci_find_cmdslot 11 15 ≡ 2
unfolding ahci_find_cmdslot scan_slots
third_is_free = refl
