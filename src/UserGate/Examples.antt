-- ===== src/UserGate/Examples.antt =====
-- Requests inside and outside of the program's memory, and witnesses.
use kolibri_os_reloaded.Base.{◌+◌, ◌^◌, ◌≡◌, ◌↔◌, refl, arith, some, ◌==◌, if◌then◌else◌}
use kolibri_os_reloaded.Base.Memory.{Memory, IsBytes, load_u32}
use kolibri_os_reloaded.UserGate.{file_system_is_operation_safe, is_region_userspace}
use kolibri_os_reloaded.UserGate.Regions.{
  BufferIsAccepted, buffer_of, file_system_is_operation_safe_outcome,
}

-- A directory listing (function 1) of 3 entries into a buffer at 0x1000.
abbrev request : Memory
request a = if a == 0 then 1 else if a == 12 then 3 else if a == 17 then 16 else 0

request-IsBytes : IsBytes request
request-IsBytes a = ground arith

kernel_region_refused : is_region_userspace 0x7fffffff 2 ≡ 0
unfolding is_region_userspace
kernel_region_refused = refl

-- A count whose product with the size of an entry does not fit 32 bits: the length is taken as 336.
wrapped_length : buffer_of 1 0 (2 ^ 28 + 1) ≡ some 336
wrapped_length = refl

file_system_is_operation_safe_outcome_example :
    (file_system_is_operation_safe request 0 ≡ 1)
    ↔ BufferIsAccepted
        (load_u32 request (0 + 16))
        (buffer_of (load_u32 request 0) (load_u32 request (0 + 8)) (load_u32 request (0 + 12)))
file_system_is_operation_safe_outcome_example =
    file_system_is_operation_safe_outcome request 0 request-IsBytes
