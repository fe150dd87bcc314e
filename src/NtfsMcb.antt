-- ===== src/NtfsMcb.antt =====
-- Run lists of NTFS files, rust_kernel/kolibri_utils/src/ntfs_mcb.rs and ntfs_create_mcb.rs: one entry
-- is a header byte with two lengths, the length of the run and the signed distance to its first
-- cluster, both in as few little-endian bytes as hold them. Pointers are addresses in one memory.
-- The width of a u32 takes at most four rounds, which is the fuel of its loop.
pub mod Bytes
pub mod Width
pub mod Decode
pub mod RoundTrip
mod Examples
use kolibri_os_reloaded.Base.{
  ℕ, zero, suc, ◌+◌, ◌-◌, ◌*◌, ◌/◌, ◌%◌, ◌^◌, bit_and, bit_or, ◌&&◌, Option, none, some, ltb, leb,
  ◌==◌, if◌then◌else◌, u8, u16, u32, sub_u32, ◌<<<◌, ◌>>>◌, ◌>>=◌,
}
use kolibri_os_reloaded.Base.Bits.{bit_not}
use kolibri_os_reloaded.Base.Memory.{Memory, load_u32, store_u32, store_u8}

-- The bytes of `v`, lowest first, at `p`.
unfoldable pub write_le_bytes_ptr : ℕ → Memory → ℕ → ℕ → Memory
write_le_bytes_ptr zero m p v = m
write_le_bytes_ptr (suc n) m p v = write_le_bytes_ptr n (store_u8 m p (v % 256)) (p + 1) (v / 256)

unfoldable pub store_u64_le : Memory → ℕ → ℕ → Memory
unfolding write_le_bytes_ptr
store_u64_le m dst v = write_le_bytes_ptr 8 m dst v

-- The loop over the bytes of the length, which are also put into the buffer.
unfoldable pub gather_length : ℕ → ℕ → Memory → ℕ → ℕ → ℕ → Memory × ℕ × ℕ
gather_length zero i m esi run buffer = (m, esi, run)
gather_length (suc left) i m esi run buffer =
    gather_length left (i + 1) (store_u8 m (buffer + i) (m esi)) (esi + 1)
      (bit_or run (m esi <<< (8 * i))) buffer

unfoldable pub gather_cluster : ℕ → ℕ → Memory → ℕ → ℕ → ℕ × ℕ
gather_cluster zero i m esi cluster = (esi, cluster)
gather_cluster (suc left) i m esi cluster =
    gather_cluster left (i + 1) m (esi + 1) (bit_or cluster (m esi <<< (8 * i)))

-- `!0u64 << (8 * len)`.
abbrev pub high_bytes : ℕ → ℕ
high_bytes len = ((2 ^ 64 - 1) <<< (8 * len)) % 2 ^ 64

unfoldable pub extend_sign : ℕ → ℕ → ℕ → ℕ
extend_sign cluster cluster_len last_cluster_ref =
    if leb 0x80 last_cluster_ref && ltb cluster_len 8
    then bit_or cluster (high_bytes cluster_len)
    else cluster

-- The second half of the decoder: the memory, the advanced pointer and 1 for more, 0 for the end.
unfoldable pub decode_cluster : ℕ → Memory → ℕ → ℕ → Memory × ℕ × ℕ
decode_cluster cluster_len m esi buffer =
    let (esi', cluster) = gather_cluster cluster_len 0 m esi 0 in
    if ltb 8 cluster_len
    then (m, esi, 0)
    else (store_u64_le m (buffer + 8) (extend_sign cluster cluster_len (m (esi' - 1))), esi', 1)

unfoldable pub decode_length : ℕ → Memory → ℕ → ℕ → Memory × ℕ × ℕ
decode_length header m esi buffer =
    let (m', esi', run) = gather_length (bit_and header 0x0f) 0 m esi 0 buffer in
    if leb 0x80 (m' (esi' - 1))
    then (m', esi', 0)
    else decode_cluster (header >>> 4) (store_u64_le m' buffer run) esi' buffer

unfoldable pub ntfs_decode_mcb_entry_ptr : Memory → ℕ → ℕ → Memory × ℕ × ℕ
ntfs_decode_mcb_entry_ptr m esi buffer =
    let header = m esi in
    if header == 0
    then (m, esi + 1, 0)
    else if ltb 8 (bit_and header 0x0f)
    then (m, esi + 1, 0)
    else decode_length header m (esi + 1) buffer

-- The rounds until no byte is left.
unfoldable pub count_bytes : ℕ → ℕ → ℕ → Option ℕ
count_bytes zero eax count = none
count_bytes (suc fuel) eax count =
    let rest = count_bytes fuel (eax >>> 8) (u32 (count + 1)) in
    if eax >>> 8 == 0 then some (u32 (count + 1)) else rest

unfoldable pub mcb_start_width : ℕ → Option ℕ
mcb_start_width start =
    let eax = u32 (start <<< 1) in
    count_bytes 4 (if bit_and start 0x80000000 == 0 then eax else bit_not 32 eax) 0

unfoldable pub mcb_size_width : ℕ → Option ℕ
mcb_size_width size = count_bytes 4 (u32 (size <<< 1)) 0

-- The slide by 8 bytes from the end of the record on.
unfoldable pub slide_dwords : ℕ → Memory → ℕ → ℕ → Memory
slide_dwords zero m src dst = m
slide_dwords (suc count) m src dst =
    slide_dwords count (store_u32 m dst (load_u32 m src)) (src - 4) (dst - 4)

unfoldable pub frs_slide_make_room_ptr : Memory → ℕ → ℕ → ℕ → Memory
frs_slide_make_room_ptr m frs dest new_real =
    let dest_off = sub_u32 dest frs in
    slide_dwords (sub_u32 (sub_u32 new_real dest_off) 8 / 4) m (frs + sub_u32 new_real 12)
      (frs + sub_u32 new_real 4)

-- The header, the size, the start and the terminator, and the address of the terminator.
unfoldable pub write_entry_bytes : Memory → ℕ → ℕ → ℕ → ℕ → ℕ → Memory × ℕ
write_entry_bytes m dest start start_w size size_w =
    let header = u8 (bit_or (bit_and start_w 0x0f <<< 4) (bit_and size_w 0x0f)) in
    let sized = write_le_bytes_ptr size_w (store_u8 m dest header) (dest + 1) size in
    let placed = write_le_bytes_ptr start_w sized (dest + 1 + size_w) start in
    (store_u8 placed (dest + 1 + size_w + start_w) 0, dest + 1 + size_w + start_w)

-- `sizeWithHeader` with 8 more in its low word.
unfoldable pub grown_size : ℕ → ℕ
grown_size sw = bit_or (bit_and sw 0xffff0000) (u16 (sw % 2 ^ 16 + 8))

-- The attribute grows by 8 bytes if the record has the room: the new memory and whether it has.
unfoldable pub extend_attribute : Memory → ℕ → ℕ → ℕ → Option Memory × Memory
extend_attribute m dest attr frs =
    let m1 = store_u32 m (attr + 4) (grown_size (load_u32 m (attr + 4))) in
    let new_real = u32 (load_u32 m1 (frs + 0x18) + 8) in
    if ltb (load_u32 m1 (frs + 0x1c)) new_real
    then (none, m1)
    else (some (frs_slide_make_room_ptr (store_u32 m1 (frs + 0x18) new_real) frs dest new_real), m1)

-- After the attribute was to grow: the entry, or nothing if there is no room.
unfoldable pub place_extended : ℕ → ℕ → ℕ → ℕ → ℕ → Option Memory × Memory → Memory × ℕ × ℕ
place_extended start_w size_w start size dest (none, m1) = (m1, dest, 0)
place_extended start_w size_w start size dest (some m', m1) =
    let (m2, out) = write_entry_bytes m' dest start start_w size size_w in (m2, out, 1)

-- The new memory, the address after the entry, and whether the direction flag is to be cleared.
unfoldable pub place_entry : ℕ → ℕ → Memory → ℕ → ℕ → ℕ → ℕ → ℕ → Memory × ℕ × ℕ
place_entry start_w size_w m start size dest attr frs =
    let new_end = u32 (u32 (u32 (dest + start_w) + 1) + size_w) in
    let attr_end = u32 (attr + load_u32 m (attr + 4)) in
    if ltb new_end attr_end
    then (let (m', out) = write_entry_bytes m dest start start_w size size_w in (m', out, 0))
    else place_extended start_w size_w start size dest (extend_attribute m dest attr frs)

unfoldable pub ntfs_create_mcb_entry_ptr : Memory → ℕ → ℕ → ℕ → ℕ → ℕ → Option (Memory × ℕ × ℕ)
ntfs_create_mcb_entry_ptr m start size dest attr frs = do
  start_w ← mcb_start_width start
  size_w ← mcb_size_width size
  some (place_entry start_w size_w m start size dest attr frs)
