-- ===== src/XfsExtent/LastBlock.antt =====
-- `xfs_get_last_dirblock_from_extent`: the last block of a directory.
use kolibri_os_reloaded.Base.{
  ℕ, ◌+◌, ◌-◌, ◌*◌, ◌/◌, ◌^◌, ◌≤◌, ◌<◌, bit_and, bit_or, ◌≡◌, inl, inr, arith, ltb, eq_cases,
  if◌then◌else◌, u32, sub_u32, ◌<<<◌, ◌>>>◌,
}
use kolibri_os_reloaded.Base.Memory.{Memory, IsBytes}
use kolibri_os_reloaded.Base.Fields.{bit_and_mask}
use native.Mathlib.Nat.{one-le-pow, div-add-mod, mod-lt, div-le_self}
use kolibri_os_reloaded.XfsHash.{load_be_u32}
use kolibri_os_reloaded.XfsExtent.{xfs_get_last_dirblock_from_extent, xfs_extent_unpack}
use kolibri_os_reloaded.XfsExtent.Record.{straddle_9, load_be_u32-lt, join_words}

add_carry :
    (lo hi n : ℕ)
    → lo < 2 ^ 32
    → n < 2 ^ 32
    → hi < 2 ^ 31
    → u32 (lo + n) + 2 ^ 32 * u32 (hi + (if ltb (lo + n) (2 ^ 32) then 0 else 1))
      ≡ lo + 2 ^ 32 * hi + n
add_carry lo hi n h k l = ground arith

div_pos : (c d : ℕ) → 0 < d → d ≤ c → 0 < c / d
div_pos c d pos le = elim (eq_cases (c / d) 0) [
  | inl e ↦
      (let parts = div-add-mod c d in
        let low = mod-lt c pos in
        let none_left : d * (c / d) ≡ 0 = rw e (omega arith) in absurd (omega arith))
  | inr e ↦ omega arith
]

-- The number of the last directory block is the file offset of the extent, plus its directory
-- blocks, less one; the extent is as long as a directory block at least.
xfs_get_last_dirblock_from_extent_lem :
    (m : Memory) (rec dirblklog : ℕ)
    → IsBytes m
    → dirblklog < 32
    → 2 ^ dirblklog ≤ (xfs_extent_unpack m rec).br_blockcount
    → let (lo, hi) = xfs_get_last_dirblock_from_extent m rec dirblklog in
      lo + 2 ^ 32 * hi + 1
      ≡ (xfs_extent_unpack m rec).br_startoff
        + (xfs_extent_unpack m rec).br_blockcount / 2 ^ dirblklog
unfolding xfs_get_last_dirblock_from_extent xfs_extent_unpack
xfs_get_last_dirblock_from_extent_lem m rec dirblklog bytes small long =
    let w0 = load_be_u32 m rec in
    let w1 = load_be_u32 m (rec + 4) in
    let lo = bit_or (w1 >>> 9) (u32 (bit_and w0 0x7fffffff <<< 23)) in
    let hi = bit_and w0 0x7fffffff >>> 9 in
    let count = bit_and (load_be_u32 m (rec + 12)) 0x1fffff in
    let lo_small : lo < 2 ^ 32 =
      rw (straddle_9 (bit_and w0 0x7fffffff) w1 (load_be_u32-lt m (rec + 4) bytes)) (omega arith) in
    let hi_small : hi < 2 ^ 31 = omega (arith, bit_and_mask 31 w0) in
    let count_small : count < 2 ^ 21 = omega (arith, bit_and_mask 21 (load_be_u32 m (rec + 12))) in
    let shift : bit_and dirblklog 31 ≡ dirblklog = omega (arith, bit_and_mask 5 dirblklog) in
    let power = one-le-pow dirblklog 2 (omega arith) in
    let some_block = div_pos count (2 ^ dirblklog) power long in
    let no_more = div-le_self count (2 ^ dirblklog) in
    let last : sub_u32 (count / 2 ^ dirblklog) 1 ≡ count / 2 ^ dirblklog - 1 = omega arith in
    rw (shift, last, join_words lo hi lo_small)
      (rw (add_carry lo hi (count / 2 ^ dirblklog - 1) lo_small (omega arith) hi_small)
        (omega arith))
