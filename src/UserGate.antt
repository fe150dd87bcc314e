-- ===== src/UserGate.antt =====
-- The tests that a system call's memory belongs to the program: userspace.rs for a region and for a
-- string, fs_operation_safe.rs for the buffer of a file system call, all in
-- rust_kernel/kolibri_utils/src. The results are 1 to accept and 0 to refuse.
pub mod Regions
mod Examples
use kolibri_os_reloaded.Base.{
  ℕ, ◌+◌, ◌-◌, ◌*◌, ◌%◌, ◌^◌, Bool, true, false, not, ltb, leb, ◌==◌, if◌then◌else◌, u32, sub_u32,
  Option, none, some,
}
use kolibri_os_reloaded.Base.Memory.{Memory, load_u32}
use kolibri_os_reloaded.Base.Scan.{first_hit}

abbrev os_base : ℕ
os_base = 0x80000000

abbrev string_userspace_max : ℕ
string_userspace_max = 0x10000

unfoldable pub is_region_userspace : ℕ → ℕ → ℕ
is_region_userspace base len =
    let sum = u32 (base + len) in
    let carry = not (ltb (base + len) (2 ^ 32)) in
    if ltb (os_base - 1) base
    then 0
    else if carry
    then (if sum == 0 then 1 else 0)
    else if ltb os_base sum
    then 0
    else 1

-- The result of the scan.
abbrev pub found : Option ℕ → ℕ
found none = 0
found (some at) = 1

unfoldable pub is_string_userspace : Memory → ℕ → ℕ
is_string_userspace m base =
    let ecx = sub_u32 os_base base in
    let limit = if ltb string_userspace_max ecx then string_userspace_max else ecx in
    if ltb (os_base - 1) base then 0 else found (first_hit (λ edi. m edi == 0) 1 limit base)

-- Whether the function is known, and the length of its buffer.
unfoldable pub fs_op_safe_buffer_len_ex : ℕ → ℕ → ℕ → Bool × ℕ
fs_op_safe_buffer_len_ex subfn encoding count_or_size =
    let bdvk = if leb encoding 1 then 304 else 560 in
    if subfn == 0
    then (true, count_or_size)
    else if subfn == 1
    then (true, u32 (u32 (bdvk * count_or_size) + 32))
    else if leb subfn 3
    then (true, count_or_size)
    else if subfn == 5
    then (true, 40)
    else if subfn == 6
    then (true, 32)
    else (false, 0)

unfoldable pub region_gate_zf : ℕ → ℕ → ℕ
region_gate_zf base len =
    let sum = u32 (base + len) in
    let carry = not (ltb (base + len) (2 ^ 32)) in
    if ltb (os_base - 1) base
    then 0
    else if carry
    then (if sum == 0 then 1 else 0)
    else if ltb os_base sum
    then 0
    else 1

unfoldable pub file_system_is_operation_safe : Memory → ℕ → ℕ
file_system_is_operation_safe m inf =
    let (known, len) =
      fs_op_safe_buffer_len_ex (load_u32 m inf) (load_u32 m (inf + 8)) (load_u32 m (inf + 12)) in
    if not known then 1 else region_gate_zf (load_u32 m (inf + 16)) len
