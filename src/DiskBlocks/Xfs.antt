-- ===== src/DiskBlocks/Xfs.antt =====
-- `xfs_blkrel2sectabs`: the blocks of an allocation group.
use kolibri_os_reloaded.Base.{
  ℕ, ◌+◌, ◌-◌, ◌*◌, ◌/◌, ◌%◌, ◌^◌, ◌<◌, bit_and, bit_or, ◌≡◌, ◌∙◌, arith, u32, ◌<<<◌,
}
use kolibri_os_reloaded.Base.Fields.{
  bit_and_mask, bit_or_above, bit_and_split, with_low, bit_and_low_field,
}
use native.Mathlib.Nat.{one-le-pow, le-mul_of_pos_right, add-mul-div_left, div-eq_of_lt}
use kolibri_os_reloaded.Base.Bits.{bit_and-le}
use kolibri_os_reloaded.DiskBlocks.{xfs_blkrel2sectabs}

-- The two halves of a 64-bit block number, each under its half of a 64-bit mask.
masked_halves :
    (lo hi mask_lo mask_hi : ℕ)
    → lo < 2 ^ 32
    → mask_lo < 2 ^ 32
    → bit_or (bit_and lo mask_lo) (bit_and hi mask_hi <<< 32)
      ≡ bit_and (2 ^ 32 * hi + lo) (2 ^ 32 * mask_hi + mask_lo)
masked_halves lo hi mask_lo mask_hi h k =
    let split = bit_and_split 32 hi mask_hi lo mask_lo h k in
    let small : bit_and lo mask_lo < 2 ^ 32 = omega (arith, bit_and-le 32 lo mask_lo h) in
    bit_or_above 32 (bit_and hi mask_hi) (bit_and lo mask_lo) small ∙ rw split (omega arith)

-- The block `rel` of the allocation group `ag` is the block `ag * agblocks + rel` of the disk, in
-- sectors: the number that is given has `rel` in its low `agblklog` bits and `ag` above, the mask
-- covers those bits, and nothing overflows.
pub xfs_blkrel2sectabs_lem :
    (block_lo block_hi agblklog agblocks mask_lo mask_hi sectpblog ag rel : ℕ)
    → block_lo < 2 ^ 32
    → block_hi < 2 ^ 32
    → mask_lo < 2 ^ 32
    → agblklog < 32
    → sectpblog < 32
    → 2 ^ 32 * mask_hi + mask_lo ≡ 2 ^ agblklog - 1
    → 2 ^ 32 * block_hi + block_lo ≡ 2 ^ agblklog * ag + rel
    → rel < 2 ^ agblklog
    → ag < 2 ^ 32
    → (ag * agblocks + rel) * 2 ^ sectpblog < 2 ^ 64
    → let (lo, hi) =
        xfs_blkrel2sectabs block_lo block_hi agblklog agblocks mask_lo mask_hi sectpblog in
      lo + 2 ^ 32 * hi ≡ (ag * agblocks + rel) * 2 ^ sectpblog
unfolding xfs_blkrel2sectabs
xfs_blkrel2sectabs_lem block_lo block_hi agblklog agblocks mask_lo mask_hi sectpblog ag rel lo_small
      hi_small mask_small ag_log sect_log mask block rel_small ag_small fits =
    let power = one-le-pow agblklog 2 (omega arith) in
    let shift : bit_and agblklog 31 ≡ agblklog = omega (arith, bit_and_mask 5 agblklog) in
    let shift' : bit_and sectpblog 31 ≡ sectpblog = omega (arith, bit_and_mask 5 sectpblog) in
    let joined : bit_or (block_hi <<< 32) block_lo ≡ 2 ^ agblklog * ag + rel =
      with_low 32 block_hi block_lo lo_small ∙ omega arith in
    let low = masked_halves block_lo block_hi mask_lo mask_hi lo_small mask_small in
    let turned : 2 ^ agblklog * ag + rel ≡ rel + 2 ^ agblklog * ag = omega arith in
    let rel' : bit_or (bit_and block_lo mask_lo) (bit_and block_hi mask_hi <<< 32) ≡ rel =
      low ∙ rw (mask, block, turned) (bit_and_low_field agblklog ag rel rel_small) in
    let group : (2 ^ agblklog * ag + rel) / 2 ^ agblklog ≡ ag =
      rw turned (add-mul-div_left rel ag power ∙ rw (div-eq_of_lt rel_small) (omega arith)) in
    let scaled = le-mul_of_pos_right (ag * agblocks + rel) (one-le-pow sectpblog 2 (omega arith)) in
    let whole : (((u32 ag * agblocks % 2 ^ 64 + rel) % 2 ^ 64) <<< sectpblog) % 2 ^ 64
        ≡ (ag * agblocks + rel) * 2 ^ sectpblog =
      (let same : u32 ag ≡ ag = omega arith in
        rw same (
          let plain : (ag * agblocks % 2 ^ 64 + rel) % 2 ^ 64 ≡ ag * agblocks + rel = omega arith in
          rw plain (omega arith))) in
    rw (shift, shift', joined, rel', group, whole) (omega arith)
