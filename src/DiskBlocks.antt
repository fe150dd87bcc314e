-- ===== src/DiskBlocks.antt =====
-- Where on the disk a block of a file system stands, in rust_kernel/kolibri_utils/src:
-- xfs_blkrel2sectabs.rs, get_inode_location.rs (ext), fat_get_sector.rs and exfat_get_sector.rs.
-- A pair of words is a 64-bit sector number, low word first. A pointer through which a word is
-- returned is an address in the byte memory.
pub mod Xfs
pub mod Ext
pub mod Fat
mod Examples
use kolibri_os_reloaded.Base.{
  ℕ, ◌+◌, ◌-◌, ◌*◌, ◌/◌, ◌%◌, ◌^◌, bit_and, bit_or, ltb, ◌==◌, if◌then◌else◌, u32, sub_u32, ◌<<<◌,
  ◌>>>◌,
}
use kolibri_os_reloaded.Base.Memory.{Memory, load_u32, store_u32}

unfoldable pub xfs_blkrel2sectabs : ℕ → ℕ → ℕ → ℕ → ℕ → ℕ → ℕ → ℕ × ℕ
xfs_blkrel2sectabs block_lo block_hi agblklog agblocks mask_lo mask_hi sectpblog =
    let ag_shift = bit_and agblklog 31 in
    let sect_shift = bit_and sectpblog 31 in
    let block = bit_or (block_hi <<< 32) block_lo in
    let ag_full = block >>> ag_shift in
    let ag_lo = u32 ag_full in
    let product = ag_lo * agblocks % 2 ^ 64 in
    let masked = bit_or (bit_and block_lo mask_lo) (bit_and block_hi mask_hi <<< 32) in
    let abs_block = (product + masked) % 2 ^ 64 in
    let sector = (abs_block <<< sect_shift) % 2 ^ 64 in (u32 sector, u32 (sector >>> 32))

unfoldable xfs_blkrel2sectabs_from_regs : ℕ → ℕ → ℕ → ℕ → ℕ → ℕ → ℕ → ℕ × ℕ
xfs_blkrel2sectabs_from_regs block_lo block_hi agblklog agblocks mask_lo mask_hi sectpblog =
    xfs_blkrel2sectabs block_lo block_hi agblklog agblocks mask_lo mask_hi sectpblog

unfoldable xfs_blkrel2sectabs_ptr : Memory → ℕ → ℕ → ℕ → ℕ → ℕ → ℕ → ℕ → ℕ → Memory × ℕ
xfs_blkrel2sectabs_ptr m block_lo block_hi agblklog agblocks mask_lo mask_hi sectpblog out_hi =
    let (lo, hi) =
      xfs_blkrel2sectabs block_lo block_hi agblklog agblocks mask_lo mask_hi sectpblog in
    (store_u32 m out_hi hi, lo)

-- The sector's low and high word, and the offset in the sector.
unfoldable pub get_inode_location : ℕ → ℕ → ℕ → ℕ → ℕ → ℕ → ℕ × ℕ × ℕ
get_inode_location inode inodes_per_group inode_table_lo inode_table_hi sectors_per_block
      inode_size =
    let index = sub_u32 inode 1 in
    let index_in_group = index % inodes_per_group in
    let hi_scaled = u32 (inode_table_hi * sectors_per_block) in
    let lo_prod = inode_table_lo * sectors_per_block % 2 ^ 64 in
    let sector_lo = u32 lo_prod in
    let sector_hi = u32 (u32 (lo_prod >>> 32) + hi_scaled) in
    let byte_ofs = u32 (index_in_group * inode_size) in
    let sector_bump = byte_ofs >>> 9 in
    let offset = bit_and byte_ofs 511 in
    let carry = if ltb (sector_lo + sector_bump) (2 ^ 32) then 0 else 1 in
    if inodes_per_group == 0
    then (0, 0, 0)
    else (u32 (sector_lo + sector_bump), u32 (sector_hi + carry), offset)

unfoldable get_inode_location_math : ℕ → ℕ → ℕ → ℕ → ℕ → ℕ → ℕ → ℕ × ℕ × ℕ
get_inode_location_math inode inodes_per_group desc_shift inode_table_lo inode_table_hi_raw
      sectors_per_block inode_size =
    get_inode_location inode inodes_per_group inode_table_lo inode_table_hi_raw sectors_per_block
      inode_size

unfoldable get_inode_location_ptr : Memory → ℕ → ℕ → ℕ → ℕ → ℕ → ℕ → ℕ → ℕ → Memory × ℕ
get_inode_location_ptr m inode inodes_per_group inode_table_lo inode_table_hi sectors_per_block
      inode_size out_hi out_ofs =
    let (lo, hi, ofs) =
      get_inode_location inode inodes_per_group inode_table_lo inode_table_hi sectors_per_block
        inode_size in
    (store_u32 (store_u32 m out_hi hi) out_ofs ofs, lo)

unfoldable pub fat_get_sector : ℕ → ℕ → ℕ → ℕ → ℕ
fat_get_sector cluster sector_ofs sectors_per_cluster data_start =
    let ecx = sub_u32 cluster 2 in
    let ecx' = u32 (ecx * sectors_per_cluster) in u32 (u32 (ecx' + data_start) + sector_ofs)

unfoldable fat_get_sector_ptr : Memory → ℕ → ℕ → ℕ → ℕ
fat_get_sector_ptr m pair sectors_per_cluster data_start =
    fat_get_sector (load_u32 m pair) (load_u32 m (pair + 4)) sectors_per_cluster data_start

unfoldable exfat_get_sector : ℕ → ℕ → ℕ → ℕ → ℕ
exfat_get_sector cluster sector_ofs sectors_per_cluster cluster_heap_start =
    fat_get_sector cluster sector_ofs sectors_per_cluster cluster_heap_start

unfoldable exfat_get_sector_ptr : Memory → ℕ → ℕ → ℕ → ℕ
exfat_get_sector_ptr m pair sectors_per_cluster cluster_heap_start =
    exfat_get_sector (load_u32 m pair) (load_u32 m (pair + 4)) sectors_per_cluster
      cluster_heap_start
