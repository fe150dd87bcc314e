-- ===== src/PidToSlot.antt =====
-- The search for the slot of a thread, rust_kernel/kolibri_utils/src/pid_to_slot.rs: slots of 256
-- bytes with the thread id and the state; slot 0 is skipped. The loop takes fuel, one round for each
-- slot and one to end; `none` means that it ran out.
pub mod Lookup
mod Examples
use kolibri_os_reloaded.Base.{
  ℕ, zero, suc, ◌+◌, ◌*◌, ◌/◌, ◌%◌, ◌^◌, Option, none, some, ◌==◌, if◌then◌else◌, u32, le_i32,
  ◌<<<◌, ◌>>>◌,
}
use kolibri_os_reloaded.Base.Memory.{Memory, load_u32}

abbrev appdata_size : ℕ
appdata_size = 256

abbrev appdata_size_shift : ℕ
appdata_size_shift = 8

abbrev off_tid : ℕ
off_tid = 112

abbrev off_state : ℕ
off_state = 124

abbrev tstate_free : ℕ
tstate_free = 9

unfoldable pub slot_loop : ℕ → ℕ → Memory → ℕ → ℕ → Option ℕ
slot_loop zero pid m ebx ecx = none
slot_loop (suc fuel) pid m ebx ecx =
    let rest = slot_loop fuel pid m ebx (u32 (ecx + appdata_size)) in
    if le_i32 ecx ebx
    then (if m (ecx + off_state) == tstate_free
        then rest
        else if load_u32 m (ecx + off_tid) == pid
        then some (ecx >>> appdata_size_shift)
        else rest)
    else some 0

unfoldable pub pid_to_slot : ℕ → Memory → ℕ → Option ℕ
pid_to_slot pid m thread_count =
    slot_loop (thread_count + 1) pid m (u32 (thread_count <<< appdata_size_shift)) appdata_size
