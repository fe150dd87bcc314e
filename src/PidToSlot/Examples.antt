-- ===== src/PidToSlot/Examples.antt =====
-- A table of three slots, and the theorem there.
use kolibri_os_reloaded.Base.{◌≡◌, refl, some, ◌==◌, if◌then◌else◌}
use kolibri_os_reloaded.Base.Memory.{Memory, load_u32}
use kolibri_os_reloaded.PidToSlot.{pid_to_slot, slot_loop}

-- Slots 1 and 3 have thread 5; slot 1 is free.
abbrev slots : Memory
slots a = if a == 368 then 5 else if a == 380 then 9 else if a == 880 then 5 else 0

third_slot : pid_to_slot 5 slots 3 ≡ some 3
unfolding pid_to_slot slot_loop load_u32
third_slot = refl
