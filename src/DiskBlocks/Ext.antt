-- ===== src/DiskBlocks/Ext.antt =====
-- `get_inode_location`: the place of an ext inode.
use kolibri_os_reloaded.Base.{
  ℕ, ◌+◌, ◌-◌, ◌*◌, ◌%◌, ◌^◌, ◌≤◌, ◌<◌, bit_and, ◌≡◌, arith, false, ltb, ◌==◌, if◌then◌else◌, u32,
  sub_u32, ◌>>>◌,
}
use kolibri_os_reloaded.Base.Fields.{bit_and_mask}
use kolibri_os_reloaded.DiskBlocks.{get_inode_location}

-- The two words of the sector and the offset, from the two products of the table's words and the
-- byte in the table.
placed :
    (lo_prod hi_prod bytes : ℕ)
    → lo_prod + 2 ^ 32 * hi_prod + 2 ^ 23 ≤ 2 ^ 64
    → bytes < 2 ^ 32
    → let sector_lo = u32 (lo_prod % 2 ^ 64) in
      let sector_hi = u32 (u32 ((lo_prod % 2 ^ 64) >>> 32) + u32 hi_prod) in
      let bump = u32 bytes >>> 9 in
      512
          * (u32 (sector_lo + bump)
              + 2 ^ 32 * u32 (sector_hi + (if ltb (sector_lo + bump) (2 ^ 32) then 0 else 1)))
        + bit_and (u32 bytes) 511
      ≡ 512 * (lo_prod + 2 ^ 32 * hi_prod) + bytes
placed lo_prod hi_prod bytes room fits = ground (arith, bit_and_mask 9 (u32 bytes))

-- The byte of the disk at which an inode stands is the inode table's block, plus the inode's size
-- times its index in its group; inodes count from 1, a group's table is less than 4 GiB long, and
-- the table ends below sector 2^64.
pub get_inode_location_lem :
    (inode inodes_per_group inode_table_lo inode_table_hi sectors_per_block inode_size : ℕ)
    → 0 < inode
    → inode < 2 ^ 32
    → 0 < inodes_per_group
    → inode_table_lo < 2 ^ 32
    → sectors_per_block < 2 ^ 32
    → (inode - 1) % inodes_per_group * inode_size < 2 ^ 32
    → (inode_table_lo + 2 ^ 32 * inode_table_hi) * sectors_per_block + 2 ^ 23 ≤ 2 ^ 64
    → let (lo, hi, ofs) =
        get_inode_location inode inodes_per_group inode_table_lo inode_table_hi sectors_per_block
          inode_size in
      512 * (lo + 2 ^ 32 * hi) + ofs
      ≡ 512 * ((inode_table_lo + 2 ^ 32 * inode_table_hi) * sectors_per_block)
        + (inode - 1) % inodes_per_group * inode_size
unfolding get_inode_location
get_inode_location_lem inode ipg table_lo table_hi spb size pos small ipg_pos lo_small spb_small
      fits room =
    let given : ((ipg == 0) ≡ false) = ground arith in
    let index : sub_u32 inode 1 ≡ inode - 1 = omega arith in
    let table : (table_lo + 2 ^ 32 * table_hi) * spb ≡ table_lo * spb + 2 ^ 32 * (table_hi * spb) =
      grind arith in
    let start = rw table at room in
    rw (given, index, table)
      (placed (table_lo * spb) (table_hi * spb) ((inode - 1) % ipg * size) start fits)
