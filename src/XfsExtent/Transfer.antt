-- ===== src/XfsExtent/Transfer.antt =====
-- `xfs_extent_unpack_ptr`: the record that is written for the caller.
use kolibri_os_reloaded.Base.{
  ℕ, zero, suc, ◌+◌, ◌^◌, ◌≤◌, ◌<◌, bit_or, ◌≡◌, ◌⊎◌, inl, inr, refl, ◌∙◌, arith, ◌&&◌, ltb, leb,
  eq_cases, if◌then◌else◌, u32, ◌<<<◌, ◌>>>◌,
}
use kolibri_os_reloaded.Base.Memory.{
  Memory, IsBytes, load_u32, store_u32, store_u8, store_u8_same, store_u8_other,
}
use kolibri_os_reloaded.Base.Memory.{load_u32-store_u32, load_u32-store_u32_ne}
use kolibri_os_reloaded.XfsHash.{load_be_u32}
use kolibri_os_reloaded.XfsExtent.{
  XfsBmbtIrec, xfs_extent_unpack, write_xfs_bmbt_irec, copy_record, xfs_extent_unpack_ptr,
  read_xfs_bmbt_irec, xfs_extent_unpack_into,
}
use kolibri_os_reloaded.XfsExtent.Record.{
  record_number, xfs_extent_unpack_lem, join_words, load_be_u32-lt,
}

copied :
    (left i : ℕ) (m : Memory) (src : ℕ) (rec : Memory) (j : ℕ)
    → copy_record left i m src rec j ≡ (if leb i j && ltb j (i + left) then m (src + j) else rec j)
unfolding copy_record
copied zero i m src rec j = ground arith
copied (suc left) i m src rec j =
    let rest = copied left (i + 1) m src (store_u8 rec i (m (src + i))) j in
    elim (eq_cases i j) [
      | inl e ↦ ground (arith, rest, store_u8_same rec i (m (src + i)))
      | inr e ↦ ground (arith, rest, store_u8_other rec i (m (src + i)) j e)
    ]

copied_byte : (m : Memory) (src j : ℕ) → j < 16 → copy_record 16 0 m src (λ i. 0) j ≡ m (src + j)
copied_byte m src j h = ground (arith, copied 16 0 m src (λ i. 0) j)

copied_word :
    (m : Memory) (src j : ℕ)
    → j + 3 < 16
    → load_be_u32 (copy_record 16 0 m src (λ i. 0)) j ≡ load_be_u32 m (src + j)
unfolding load_be_u32
copied_word m src j h =
    let at1 : src + (j + 1) ≡ src + j + 1 = omega arith in
    let at2 : src + (j + 2) ≡ src + j + 2 = omega arith in
    let at3 : src + (j + 3) ≡ src + j + 3 = omega arith in
    let b0 = copied_byte m src j (omega arith) in
    let b1 = rw at1 at (copied_byte m src (j + 1) (omega arith)) in
    let b2 = rw at2 at (copied_byte m src (j + 2) (omega arith)) in
    let b3 = rw at3 at (copied_byte m src (j + 3) (omega arith)) in rw (b0, b1, b2, b3) refl

-- The copy of a record has the fields of the record.
xfs_extent_unpack-copy_record :
    (m : Memory) (src : ℕ)
    → xfs_extent_unpack (copy_record 16 0 m src (λ i. 0)) 0 ≡ xfs_extent_unpack m src
unfolding xfs_extent_unpack
xfs_extent_unpack-copy_record m src =
    let start : src + 0 ≡ src = omega arith in
    let c0 = rw start at (copied_word m src 0 (omega arith)) in
    let c1 = copied_word m src 4 (omega arith) in
    let c2 = copied_word m src 8 (omega arith) in
    let c3 = copied_word m src 12 (omega arith) in rw (c0, c1, c2, c3) refl

record Fits (irec : XfsBmbtIrec) : Type 0 where
  startoff_fits : irec.br_startoff < 2 ^ 64
  startblock_fits : irec.br_startblock < 2 ^ 64
  blockcount_fits : irec.br_blockcount < 2 ^ 32
  state_fits : irec.br_state < 2 ^ 32

split_words : (x : ℕ) → x < 2 ^ 64 → bit_or (u32 x) (u32 (x >>> 32) <<< 32) ≡ x
split_words x h = join_words (u32 x) (u32 (x >>> 32)) (omega arith) ∙ omega arith

skip :
    (m : Memory) (a v b x : ℕ)
    → (b + 4 ≤ a) ⊎ (a + 4 ≤ b)
    → load_u32 m b ≡ x
    → load_u32 (store_u32 m a v) b ≡ x
skip m a v b x apart e = load_u32-store_u32_ne m a v b apart ∙ e

-- What is written is read back, field by field.
read_xfs_bmbt_irec-write_xfs_bmbt_irec :
    (m : Memory) (out : ℕ) (irec : XfsBmbtIrec)
    → Fits irec
    → read_xfs_bmbt_irec (write_xfs_bmbt_irec m out irec) out ≡ irec
unfolding read_xfs_bmbt_irec write_xfs_bmbt_irec
read_xfs_bmbt_irec-write_xfs_bmbt_irec m out irec fits =
    let off = irec.br_startoff in
    let block = irec.br_startblock in
    let m1 = store_u32 m (out + 20) irec.br_state in
    let m2 = store_u32 m1 (out + 0) (u32 off) in
    let m3 = store_u32 m2 (out + 4) (u32 (off >>> 32)) in
    let m4 = store_u32 m3 (out + 8) (u32 block) in
    let m5 = store_u32 m4 (out + 12) (u32 (block >>> 32)) in
    let m6 = store_u32 m5 (out + 16) irec.br_blockcount in
    let count : load_u32 m6 (out + 16) ≡ irec.br_blockcount =
      load_u32-store_u32 m5 (out + 16) irec.br_blockcount fits.blockcount_fits in
    let block_hi : load_u32 m6 (out + 12) ≡ u32 (block >>> 32) =
      skip m5 (out + 16) _ (out + 12) _ (inl (omega arith))
        (load_u32-store_u32 m4 (out + 12) _ (omega arith)) in
    let block_lo : load_u32 m6 (out + 8) ≡ u32 block =
      skip m5 (out + 16) _ (out + 8) _ (inl (omega arith)) (
        skip m4 (out + 12) _ (out + 8) _ (inl (omega arith))
          (load_u32-store_u32 m3 (out + 8) _ (omega arith))) in
    let off_hi : load_u32 m6 (out + 4) ≡ u32 (off >>> 32) =
      skip m5 (out + 16) _ (out + 4) _ (inl (omega arith)) (
        skip m4 (out + 12) _ (out + 4) _ (inl (omega arith)) (
          skip m3 (out + 8) _ (out + 4) _ (inl (omega arith))
            (load_u32-store_u32 m2 (out + 4) _ (omega arith)))) in
    let off_lo : load_u32 m6 (out + 0) ≡ u32 off =
      skip m5 (out + 16) _ (out + 0) _ (inl (omega arith)) (
        skip m4 (out + 12) _ (out + 0) _ (inl (omega arith)) (
          skip m3 (out + 8) _ (out + 0) _ (inl (omega arith)) (
            skip m2 (out + 4) _ (out + 0) _ (inl (omega arith))
              (load_u32-store_u32 m1 (out + 0) _ (omega arith))))) in
    let state : load_u32 m6 (out + 20) ≡ irec.br_state =
      skip m5 (out + 16) _ (out + 20) _ (inr (omega arith)) (
        skip m4 (out + 12) _ (out + 20) _ (inr (omega arith)) (
          skip m3 (out + 8) _ (out + 20) _ (inr (omega arith)) (
            skip m2 (out + 4) _ (out + 20) _ (inr (omega arith)) (
              skip m1 (out + 0) _ (out + 20) _ (inr (omega arith))
                (load_u32-store_u32 m (out + 20) _ fits.state_fits))))) in
    rw
      (
        off_lo,
        off_hi,
        block_lo,
        block_hi,
        count,
        state,
        split_words off fits.startoff_fits,
        split_words block fits.startblock_fits,
      )
      refl

unpacked-Fits : (m : Memory) (rec : ℕ) → IsBytes m → Fits (xfs_extent_unpack m rec)
unfolding record_number
unpacked-Fits m rec bytes =
    let h0 = load_be_u32-lt m rec bytes in
    let h1 = load_be_u32-lt m (rec + 4) bytes in
    let h2 = load_be_u32-lt m (rec + 8) bytes in
    let h3 = load_be_u32-lt m (rec + 12) bytes in
    rw (xfs_extent_unpack_lem m rec bytes) (record {
      startoff_fits = omega arith;
      startblock_fits = omega arith;
      blockcount_fits = omega arith;
      state_fits = omega arith;
    })

-- On a memory of bytes, whatever overlaps what, the 24 bytes that the pointer form writes are read
-- back as the fields of the record as it was before the call.
pub read_xfs_bmbt_irec-xfs_extent_unpack_ptr :
    (m : Memory) (extent_data extent_out : ℕ)
    → IsBytes m
    → read_xfs_bmbt_irec (xfs_extent_unpack_ptr m extent_data extent_out) extent_out
      ≡ xfs_extent_unpack m extent_data
unfolding xfs_extent_unpack_ptr
read_xfs_bmbt_irec-xfs_extent_unpack_ptr m extent_data extent_out bytes =
    rw (xfs_extent_unpack-copy_record m extent_data) (
      read_xfs_bmbt_irec-write_xfs_bmbt_irec m extent_out (xfs_extent_unpack m extent_data)
        (unpacked-Fits m extent_data bytes))

-- The pointer form and the array form write the same.
xfs_extent_unpack_ptr-into :
    (m : Memory) (extent_data extent_out : ℕ)
    → xfs_extent_unpack_ptr m extent_data extent_out
      ≡ xfs_extent_unpack_into m extent_data extent_out
unfolding xfs_extent_unpack_ptr xfs_extent_unpack_into
xfs_extent_unpack_ptr-into m extent_data extent_out =
    rw (xfs_extent_unpack-copy_record m extent_data) refl
