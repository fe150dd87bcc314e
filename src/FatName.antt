-- ===== src/FatName.antt =====
-- Short names of FAT, rust_kernel/kolibri_utils/src/fat_name.rs, with the upper case of
-- rust_kernel/kolibri_utils/src/casefold.rs. A name is 11 bytes in the byte memory: 8 of the base
-- name and 3 of the extension. `none` as a result means that the code would read outside the name,
-- which is undefined behaviour there, or that the fuel of a scan for a NUL, 2^32 rounds, ran out.
pub mod Digits
pub mod Walk
pub mod Next
pub mod Legal
pub mod Frame
pub mod Case
pub mod Generate
mod Examples
use kolibri_os_reloaded.Base.{
  ℕ, zero, suc, ◌+◌, ◌-◌, ◌*◌, ◌/◌, ◌%◌, ◌^◌, bit_and, bit_or, Bool, true, false, not, ◌&&◌, ◌||◌,
  Option, none, some, ltb, leb, ◌==◌, if◌then◌else◌, u8, ◌>>=◌,
}
use kolibri_os_reloaded.Base.Memory.{Memory, store_u8}

unfoldable pub cp866_to_upper : ℕ → ℕ
cp866_to_upper ch =
    if ltb ch b'a'
    then ch
    else if leb ch b'z'
    then ch - 32
    else if ltb ch 0xa0
    then ch
    else if ltb ch 0xb0
    then ch - 32
    else if ltb ch 0xe0
    then ch
    else if ltb ch 0xf0
    then ch - (0xe0 - 0x90)
    else if ltb 0xf7 ch
    then ch
    else bit_and ch 0xfe

unfoldable pub utf16_to_upper : ℕ → ℕ
utf16_to_upper ch =
    if ltb ch b'a'
    then ch
    else if leb ch b'z'
    then ch - 32
    else if ltb ch 0x0430
    then ch
    else if ltb ch 0x0450
    then ch - 32
    else if leb 0x0460 ch
    then ch
    else ch - 80

abbrev fat_name_len : ℕ
fat_name_len = 11

abbrev fat_basename_len : ℕ
fat_basename_len = 8

abbrev pub fat_gen_fill_len : ℕ
fat_gen_fill_len = 12

-- One of the eight guarded stores.
unfoldable pub zero_from : ℕ → ℕ → ℕ → Memory → Memory
zero_from start i name m = if leb start i then store_u8 m (name + i) b'0' else m

unfoldable pub zerofill_to_end : Memory → ℕ → ℕ → Memory
unfolding zero_from
zerofill_to_end m name start =
    let m0 = zero_from start 0 name m in
    let m1 = zero_from start 1 name m0 in
    let m2 = zero_from start 2 name m1 in
    let m3 = zero_from start 3 name m2 in
    let m4 = zero_from start 4 name m3 in
    let m5 = zero_from start 5 name m4 in
    let m6 = zero_from start 6 name m5 in zero_from start 7 name m6

-- The search backwards from the index below the first argument.
unfoldable pub last_tilde : ℕ → Memory → ℕ → Option ℕ
last_tilde zero m name = none
last_tilde (suc i) m name =
    let rest = last_tilde i m name in if m (name + i) == b'~' then some i else rest

-- The loop to the end of the content, below the first argument; there is nothing before the name.
unfoldable pub content_end : ℕ → Memory → ℕ → Option ℕ
content_end zero m name = none
content_end (suc p) m name =
    let rest = content_end p m name in if m (name + p) == b' ' then rest else some (suc p)

unfoldable pub insert_tilde : Memory → ℕ → Option (Memory × Bool)
insert_tilde m name = do
  pos ← if m (name + 6) == b' ' && m (name + 7) == b' ' then content_end 6 m name else some 6
  some (store_u8 (store_u8 m (name + pos) b'~') (name + (pos + 1)) b'1', true)

-- The loop that shifts digits into the spaces behind them.
unfoldable pub expand : ℕ → Memory → ℕ → ℕ → ℕ → Option (Memory × Bool)
expand zero m name pos al = none
expand (suc fuel) m name pos al =
    let m' = store_u8 m (name + pos) al in
    let rest = expand fuel m' name (pos + 1) b'0' in
    if m (name + pos) == b' ' then some (m', true) else rest

-- The tilde moves one to the left, and the digits begin again.
unfoldable pub shrink : Memory → ℕ → ℕ → Memory × Bool
unfolding zerofill_to_end
shrink m name edi =
    if edi == 1
    then (m, false)
    else if edi == 0
    then (m, true)
    else (let p = edi - 1 in
        (
          zerofill_to_end (store_u8 (store_u8 m (name + p) b'~') (name + (p + 1)) b'1') name
              (p + 2),
          true,
        ))

-- The walk from the right, at the index below the first argument.
unfoldable pub walk : ℕ → Memory → ℕ → ℕ → Option (Memory × Bool)
unfolding shrink
walk zero m name space_count = none
walk (suc edi) m name space_count =
    let b = m (name + edi) in
    let after_space = walk edi m name (space_count + 1) in
    let after_nine = walk edi m name space_count in
    if b == b'~'
    then (if space_count == 0 then some (shrink m name edi) else expand 8 m name (edi + 1) b'1')
    else if b == b' '
    then after_space
    else if b == b'9'
    then after_nine
    else some (zerofill_to_end (store_u8 m (name + edi) (u8 (b + 1))) name (edi + 1), true)

-- What follows the search for the tilde; `true` is the clear carry flag.
unfoldable pub mutate : Option ℕ → Memory → ℕ → Option (Memory × Bool)
unfolding walk insert_tilde
mutate none m name = insert_tilde m name
mutate (some tilde_idx) m name = walk 8 m name 0

unfoldable pub fat_next_short_name : Memory → ℕ → Option (Memory × Bool)
unfolding mutate last_tilde
fat_next_short_name m name = mutate (last_tilde fat_basename_len m name) m name
