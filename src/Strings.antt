-- ===== src/Strings.antt =====
-- C strings and memory moves, rust_kernel/kolibri_utils/src/string.rs and memmove.rs. Addresses are
-- u32 (a usize of the i686 kernel) into the byte memory, 0 the null pointer. Loops that stop at a
-- NUL take fuel, 2^32 rounds, one for each address; `none` means that it ran out. Loops on a
-- counter recurse on the counter.
pub mod Length
pub mod Scan
pub mod Compare
pub mod Copy
pub mod Move
mod Examples
use kolibri_os_reloaded.Base.{
  ℕ, zero, suc, ◌+◌, ◌-◌, ◌*◌, ◌/◌, ◌%◌, ◌^◌, bit_and, Bool, true, false, ◌||◌, Option, none, some,
  ltb, leb, ◌==◌, if◌then◌else◌, u8, u32, ◌>>=◌, sub_u32, le_i32, ◌>>>◌,
}
use kolibri_os_reloaded.Base.Bits.{bit_not}
use kolibri_os_reloaded.Base.Memory.{Memory, load_u32, store_u32, store_u8}

-- The loop of `strlen`: the final `ecx`.
unfoldable pub scan_length : ℕ → Memory → ℕ → ℕ → Option ℕ
scan_length zero m edi ecx = none
scan_length (suc fuel) m edi ecx =
    let rest = scan_length fuel m (u32 (edi + 1)) (sub_u32 ecx 1) in
    if m edi == 0 then some (sub_u32 ecx 1) else rest

unfoldable pub strlen : Memory → ℕ → Option ℕ
strlen m s = do ecx ← scan_length (2 ^ 32) m s (sub_u32 0 1); some (bit_not 32 (u32 (ecx + 1)))

-- The loop of `strncpy`, with the bytes that are left to write as its first argument.
unfoldable pub copy_or_pad : ℕ → Memory → ℕ → ℕ → ℕ → Bool → Memory
copy_or_pad zero m s1 s2 i saw_nul = m
copy_or_pad (suc left) m s1 s2 i saw_nul =
    let c = m (s2 + i) in
    let b = if saw_nul then 0 else c in
    copy_or_pad left (store_u8 m (s1 + i) b) s1 s2 (u32 (i + 1)) (saw_nul || c == 0)

unfoldable pub strncpy : Memory → ℕ → ℕ → ℕ → Memory × ℕ
strncpy m s1 s2 n = (copy_or_pad n m s1 s2 0 false, s1)

-- The first loop of `strrchr`: one past the NUL, and the length with the NUL.
unfoldable pub scan_end : ℕ → Memory → ℕ → ℕ → Option (ℕ × ℕ)
scan_end zero m p len = none
scan_end (suc fuel) m p len =
    let rest = scan_end fuel m (u32 (p + 1)) (u32 (len + 1)) in
    if m p == 0 then some (u32 (p + 1), u32 (len + 1)) else rest

-- The second loop, on `ecx`.
unfoldable pub scan_back : ℕ → Memory → ℕ → ℕ → ℕ
scan_back zero m p needle = 0
scan_back (suc ecx) m p needle =
    let rest = scan_back ecx m (sub_u32 p 1) needle in
    if m p == needle then p else if ecx == 0 then 0 else rest

unfoldable pub strrchr : Memory → ℕ → ℕ → Option ℕ
strrchr m s c = do (p, len) ← scan_end (2 ^ 32) m s 0; some (scan_back len m (sub_u32 p 1) (u8 c))

unfoldable pub scan_first : ℕ → Memory → ℕ → ℕ → Option ℕ
scan_first zero m p needle = none
scan_first (suc fuel) m p needle =
    let rest = scan_first fuel m (p + 1) needle in
    if m p == needle then some p else if m p == 0 then some 0 else rest

unfoldable pub strchr : Memory → ℕ → ℕ → Option ℕ
strchr m s c = scan_first (2 ^ 32) m s (u8 c)

-- The i32 results of `strncmp`, as bit patterns.
abbrev pub minus_one : ℕ
minus_one = 2 ^ 32 - 1

unfoldable pub strncmp : Memory → ℕ → ℕ → ℕ → ℕ
strncmp m s1 s2 zero = 0
strncmp m s1 s2 (suc n) =
    let a = m s1 in
    let b = m s2 in
    let rest = strncmp m (s1 + 1) (s2 + 1) n in
    if a == b
    then (if a == 0 then 0 else if n == 0 then 0 else rest)
    else if ltb b a
    then 1
    else minus_one

-- The loops of `memmove`: dwords, then bytes. Each gives the memory and the advanced pointers.
unfoldable pub move_dwords : ℕ → Memory → ℕ → ℕ → Memory × ℕ × ℕ
move_dwords zero m esi edi = (m, esi, edi)
move_dwords (suc n_dwords) m esi edi =
    move_dwords n_dwords (store_u32 m edi (load_u32 m esi)) (esi + 4) (edi + 4)

unfoldable pub move_bytes : ℕ → Memory → ℕ → ℕ → Memory
move_bytes zero m esi edi = m
move_bytes (suc ecx) m esi edi = move_bytes ecx (store_u8 m edi (m esi)) (esi + 1) (edi + 1)

unfoldable pub memmove : Memory → ℕ → ℕ → ℕ → Memory
memmove m from to nbytes =
    let (moved, esi, edi) = move_dwords (nbytes >>> 2) m from to in
    if le_i32 nbytes 0
    then m
    else if bit_and nbytes (bit_not 32 3) == 0
    then move_bytes nbytes m from to
    else move_bytes (bit_and nbytes 3) moved esi edi
