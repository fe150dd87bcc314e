-- ===== src/XfsExtent/Examples.antt =====
-- One extent record, with the theorems there.
use kolibri_os_reloaded.Base.{◌/◌, ◌%◌, ◌^◌, ◌≤◌, ◌≡◌, refl, arith, ◌==◌, if◌then◌else◌}
use kolibri_os_reloaded.Base.Memory.{Memory, IsBytes}
use kolibri_os_reloaded.XfsHash.{load_be_u32}
use kolibri_os_reloaded.XfsExtent.{xfs_extent_unpack, xfs_extent_unpack_ptr, read_xfs_bmbt_irec}
use kolibri_os_reloaded.XfsExtent.Record.{record_number, xfs_extent_unpack_lem}
use kolibri_os_reloaded.XfsExtent.Transfer.{read_xfs_bmbt_irec-xfs_extent_unpack_ptr}

-- At address 64 an extent of 12 blocks from block 3 of the disk, at file offset 1.
abbrev memory : Memory
memory a = if a == 70 then 2 else if a == 77 then 96 else if a == 79 then 12 else 0

memory-IsBytes : IsBytes memory
memory-IsBytes a = ground arith

unpacked :
    xfs_extent_unpack memory 64
    ≡ record { br_startoff = 1; br_startblock = 3; br_blockcount = 12; br_state = 0 }
unfolding xfs_extent_unpack load_be_u32
unpacked = refl

xfs_extent_unpack_lem_example : xfs_extent_unpack memory 64 ≡ record {
  br_startoff = record_number memory 64 / 2 ^ 73 % 2 ^ 54;
  br_startblock = record_number memory 64 / 2 ^ 21 % 2 ^ 52;
  br_blockcount = record_number memory 64 % 2 ^ 21;
  br_state = record_number memory 64 / 2 ^ 127;
}
xfs_extent_unpack_lem_example = xfs_extent_unpack_lem memory 64 memory-IsBytes

read_xfs_bmbt_irec-xfs_extent_unpack_ptr_example :
    read_xfs_bmbt_irec (xfs_extent_unpack_ptr memory 64 72) 72 ≡ xfs_extent_unpack memory 64
read_xfs_bmbt_irec-xfs_extent_unpack_ptr_example =
    read_xfs_bmbt_irec-xfs_extent_unpack_ptr memory 64 72 memory-IsBytes

long_enough : 2 ^ 2 ≤ (xfs_extent_unpack memory 64).br_blockcount
long_enough = rw unpacked (omega arith)
