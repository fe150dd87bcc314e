-- ===== src/XfsExtent.antt =====
-- Extent records of XFS, rust_kernel/kolibri_utils/src/xfs_extent.rs and xfs_get_last_dirblock.rs:
-- 16 big-endian bytes are taken apart into the fields of an `XfsBmbtIrec`. Pointers are addresses in
-- the byte memory; an array is a memory read from its index 0.
pub mod Record
pub mod Transfer
pub mod LastBlock
mod Examples
use kolibri_os_reloaded.Base.{
  ℕ, zero, suc, ◌+◌, ◌-◌, ◌*◌, ◌/◌, ◌%◌, ◌^◌, bit_and, bit_or, ltb, ◌==◌, not, if◌then◌else◌, u32,
  sub_u32, ◌<<<◌, ◌>>>◌,
}
use kolibri_os_reloaded.Base.Memory.{Memory, load_u32, store_u32, store_u8}
use kolibri_os_reloaded.XfsHash.{load_be_u32}

pub record XfsBmbtIrec : Type 0 where
  pub br_startoff : ℕ
  pub br_startblock : ℕ
  pub br_blockcount : ℕ
  pub br_state : ℕ

abbrev off_startoff_lo : ℕ
off_startoff_lo = 0

abbrev off_startoff_hi : ℕ
off_startoff_hi = 4

abbrev off_startblock_lo : ℕ
off_startblock_lo = 8

abbrev off_startblock_hi : ℕ
off_startblock_hi = 12

abbrev off_blockcount : ℕ
off_blockcount = 16

abbrev off_irec_state : ℕ
off_irec_state = 20

-- The shifts that cut a field out of two neighbouring words.
unfoldable pub xfs_extent_unpack : Memory → ℕ → XfsBmbtIrec
xfs_extent_unpack m rec =
    let first = load_be_u32 m rec in
    let br_state = if not (bit_and first 0x80000000 == 0) then 1 else 0 in
    let edx = bit_and first 0x7fffffff in
    let eax = load_be_u32 m (rec + 4) in
    let startoff_lo = bit_or (eax >>> 9) (u32 (edx <<< 23)) in
    let startoff_hi = edx >>> 9 in
    let edx' = bit_and (load_be_u32 m (rec + 4)) 0x1ff in
    let eax' = load_be_u32 m (rec + 8) in
    let ecx = load_be_u32 m (rec + 12) in
    let startblock_lo = bit_or (ecx >>> 21) (u32 (eax' <<< 11)) in
    let startblock_hi = bit_or (eax' >>> 21) (u32 (edx' <<< 11)) in
    record {
      br_startoff = bit_or startoff_lo (startoff_hi <<< 32);
      br_startblock = bit_or startblock_lo (startblock_hi <<< 32);
      br_blockcount = bit_and ecx 0x1fffff;
      br_state = br_state;
    }

unfoldable pub write_xfs_bmbt_irec : Memory → ℕ → XfsBmbtIrec → Memory
write_xfs_bmbt_irec m out irec =
    let m1 = store_u32 m (out + off_irec_state) irec.br_state in
    let m2 = store_u32 m1 (out + off_startoff_lo) (u32 irec.br_startoff) in
    let m3 = store_u32 m2 (out + off_startoff_hi) (u32 (irec.br_startoff >>> 32)) in
    let m4 = store_u32 m3 (out + off_startblock_lo) (u32 irec.br_startblock) in
    let m5 = store_u32 m4 (out + off_startblock_hi) (u32 (irec.br_startblock >>> 32)) in
    store_u32 m5 (out + off_blockcount) irec.br_blockcount

unfoldable pub xfs_extent_unpack_into : Memory → ℕ → ℕ → Memory
xfs_extent_unpack_into m rec out = write_xfs_bmbt_irec m out (xfs_extent_unpack m rec)

-- The loop that copies a record, `left` bytes from the index `i` on.
unfoldable pub copy_record : ℕ → ℕ → Memory → ℕ → Memory → Memory
copy_record zero i m extent_data rec = rec
copy_record (suc left) i m extent_data rec =
    copy_record left (i + 1) m extent_data (store_u8 rec i (m (extent_data + i)))

unfoldable pub xfs_extent_unpack_ptr : Memory → ℕ → ℕ → Memory
xfs_extent_unpack_ptr m extent_data extent_out =
    let rec = copy_record 16 0 m extent_data (λ i. 0) in
    write_xfs_bmbt_irec m extent_out (xfs_extent_unpack rec 0)

unfoldable pub read_xfs_bmbt_irec : Memory → ℕ → XfsBmbtIrec
read_xfs_bmbt_irec m buf = record {
  br_startoff =
      bit_or (load_u32 m (buf + off_startoff_lo)) (load_u32 m (buf + off_startoff_hi) <<< 32);
  br_startblock =
      bit_or (load_u32 m (buf + off_startblock_lo)) (load_u32 m (buf + off_startblock_hi) <<< 32);
  br_blockcount = load_u32 m (buf + off_blockcount);
  br_state = load_u32 m (buf + off_irec_state);
}

abbrev xfs_bmbt_rec_size_shift : ℕ
xfs_bmbt_rec_size_shift = 4

abbrev xfs_bmbt_rec_size : ℕ
xfs_bmbt_rec_size = 16

-- The low and the high word of the number of the last directory block of an extent.
unfoldable pub xfs_get_last_dirblock_from_extent : Memory → ℕ → ℕ → ℕ × ℕ
xfs_get_last_dirblock_from_extent m rec dirblklog =
    let edx = bit_and (load_be_u32 m rec) 0x7fffffff in
    let eax = load_be_u32 m (rec + 4) in
    let startoff_lo = bit_or (eax >>> 9) (u32 (edx <<< 23)) in
    let startoff_hi = edx >>> 9 in
    let blockcount = bit_and (load_be_u32 m (rec + 12)) 0x1fffff in
    let last_in_extent = sub_u32 (blockcount >>> bit_and dirblklog 31) 1 in
    let carry = if ltb (startoff_lo + last_in_extent) (2 ^ 32) then 0 else 1 in
    (u32 (startoff_lo + last_in_extent), u32 (startoff_hi + carry))

-- The last of the records behind an inode's core.
unfoldable xfs_get_last_dirblock : Memory → ℕ → ℕ → ℕ → ℕ → ℕ × ℕ
xfs_get_last_dirblock m inode nextents_offset inode_core_size dirblklog =
    let nextents = load_be_u32 m (u32 (inode + nextents_offset)) in
    let rec_off =
      sub_u32 (u32 (inode_core_size + u32 (nextents <<< xfs_bmbt_rec_size_shift)))
        xfs_bmbt_rec_size in
    xfs_get_last_dirblock_from_extent m (u32 (inode + rec_off)) dirblklog
