-- ===== src/DiskBlocks/Examples.antt =====
-- Blocks of small file systems, with the theorems there.
use kolibri_os_reloaded.Base.{◌+◌, ◌-◌, ◌*◌, ◌%◌, ◌^◌, ◌≡◌, refl, arith}
use kolibri_os_reloaded.DiskBlocks.{xfs_blkrel2sectabs, get_inode_location}
use kolibri_os_reloaded.DiskBlocks.Xfs.{xfs_blkrel2sectabs_lem}
use kolibri_os_reloaded.DiskBlocks.Ext.{get_inode_location_lem}

-- Block 5 of group 3, whose groups are 200 blocks of 8 sectors, numbered with 8 bits.
block_5_of_group_3 : (xfs_blkrel2sectabs 773 0 8 200 255 0 3).0 ≡ 4840
unfolding xfs_blkrel2sectabs
block_5_of_group_3 = refl

xfs_blkrel2sectabs_lem_example :
    let (lo, hi) = xfs_blkrel2sectabs 773 0 8 200 255 0 3 in
    lo + 2 ^ 32 * hi ≡ (3 * 200 + 5) * 2 ^ 3
xfs_blkrel2sectabs_lem_example =
    xfs_blkrel2sectabs_lem 773 0 8 200 255 0 3 3 5 (omega arith) (omega arith) (omega arith)
      (omega arith) (omega arith) refl refl (omega arith) (omega arith) (omega arith)

-- Inode 12 of groups of 8 inodes of 256 bytes: index 3, in the second sector of a table at block 40.
inode_12 : get_inode_location 12 8 40 0 2 256 ≡ (81, 0, 256)
unfolding get_inode_location
inode_12 = refl

get_inode_location_lem_example :
    let (lo, hi, ofs) = get_inode_location 12 8 40 0 2 256 in
    512 * (lo + 2 ^ 32 * hi) + ofs ≡ 512 * ((40 + 2 ^ 32 * 0) * 2) + (12 - 1) % 8 * 256
get_inode_location_lem_example =
    get_inode_location_lem 12 8 40 0 2 256 (omega arith) (omega arith) (omega arith) (omega arith)
      (omega arith) (omega arith) (omega arith)
