-- ===== src/NtfsMcb/Decode.antt =====
-- Decoding an entry that is in memory.
use kolibri_os_reloaded.Base.{
  ℕ, ◌+◌, ◌-◌, ◌*◌, ◌^◌, ◌≤◌, ◌<◌, bit_and, ◌≡◌, ◌⊎◌, inl, inr, refl, ◌∙◌, arith, false, ltb, leb,
  ◌==◌, ◌>>>◌,
}
use kolibri_os_reloaded.Base.Memory.{Memory, IsBytes}
use kolibri_os_reloaded.Base.Fields.{bit_and_mask}
use kolibri_os_reloaded.NtfsMcb.{
  store_u64_le, gather_length, extend_sign, decode_cluster, decode_length,
  ntfs_decode_mcb_entry_ptr,
}
use kolibri_os_reloaded.NtfsMcb.Bytes.{
  le_value, le_value_same, gather_length-Gathered, gather_cluster_lem, write_le_frame,
  le_value-write_le, write_le-IsBytes,
}
use kolibri_os_reloaded.NtfsMcb.Width.{
  IsSizeWidth, IsStartWidth, width-lt, last_byte, sign_extend, or_high,
}

-- At `esi` there is the entry of a run of `size` clusters at the distance `start`.
pub record IsEntry (m : Memory) (esi size size_w start start_w : ℕ) : Type 0 where
  pub sized : IsSizeWidth size size_w
  pub started : IsStartWidth start start_w
  pub header : m esi ≡ start_w * 16 + size_w
  pub size_bytes : le_value m (esi + 1) size_w ≡ size
  pub start_bytes : le_value m (esi + 1 + size_w) start_w ≡ started.low

-- The 16 bytes of the result and the at most nine of an entry do not meet.
abbrev pub IsOutside : ℕ → ℕ → Type 0
IsOutside esi buffer = (esi + 9 ≤ buffer) ⊎ (buffer + 16 ≤ esi)

-- What the decoder makes of an entry.
pub record Decoded (esi size size_w start start_w buffer : ℕ) (r : Memory × ℕ × ℕ) : Type 0 where
  pub advanced : r.1 ≡ esi + 1 + size_w + start_w
  pub more : r.2 ≡ 1
  pub length : le_value r.0 buffer 8 ≡ size
  pub distance : le_value r.0 (buffer + 8) 8 ≡ sign_extend start

extend_sign_lem :
    (m : Memory) (p start w : ℕ) (s : IsStartWidth start w)
    → IsBytes m
    → start < 2 ^ 32
    → le_value m p w ≡ s.low
    → extend_sign s.low w (m (p + w - 1)) ≡ sign_extend start
unfolding extend_sign
extend_sign_lem m p start w s bytes h e =
    let (positive, small) = width-lt w s.kind in
    elim s.signed [
      | inl (is_small, same, below) ↦
          (let last : m (p + w - 1) < 128 = ground (arith, last_byte m p w s.kind bytes) in
            ground arith)
      | inr (is_large, same, above) ↦
          (let last : 128 ≤ m (p + w - 1) = ground (arith, last_byte m p w s.kind bytes) in
            ground (arith, or_high s.low w s.kind s.low_fits))
    ]

store_u64_le_frame : (m : Memory) (p v a : ℕ) → (a < p) ⊎ (p + 8 ≤ a) → store_u64_le m p v a ≡ m a
store_u64_le_frame m p v a out = unfold store_u64_le in write_le_frame 8 m p v a out

le_value-store_u64_le : (m : Memory) (p v : ℕ) → v < 2 ^ 64 → le_value (store_u64_le m p v) p 8 ≡ v
le_value-store_u64_le m p v h = unfold store_u64_le in le_value-write_le 8 m p v h

-- The value at `p` after a store of a u64 elsewhere.
le_value_kept :
    (m : Memory) (p n q v : ℕ)
    → (p + n ≤ q) ⊎ (q + 8 ≤ p)
    → le_value (store_u64_le m q v) p n ≡ le_value m p n
le_value_kept m p n q v apart =
    le_value_same (store_u64_le m q v) m p n (λ a ge lt. store_u64_le_frame m q v a (ground arith))

decode_cluster_lem :
    (m : Memory) (p start w buffer : ℕ) (s : IsStartWidth start w)
    → IsBytes m
    → start < 2 ^ 32
    → le_value m p w ≡ s.low
    → decode_cluster w m p buffer ≡ (store_u64_le m (buffer + 8) (sign_extend start), p + w, 1)
unfolding decode_cluster
decode_cluster_lem m p start w buffer s bytes h e =
    let small : ltb 8 w ≡ false = ground (arith, width-lt w s.kind) in
    let value : 0 + le_value m p w * 2 ^ (8 * 0) ≡ s.low = omega (arith, e) in
    rw (
      gather_cluster_lem w 0 m p 0 bytes (omega arith),
      small,
      value,
      extend_sign_lem m p start w s bytes h e,
    )

sign_extend-lt : (start : ℕ) → start < 2 ^ 32 → sign_extend start < 2 ^ 64
sign_extend-lt start h = ground arith

decode_length_lem :
    (header : ℕ) (m : Memory) (p size size_w buffer : ℕ)
    → IsBytes m
    → IsSizeWidth size size_w
    → bit_and header 0x0f ≡ size_w
    → le_value m p size_w ≡ size
    → size < 2 ^ 32
    → (p + 8 ≤ buffer) ⊎ (buffer + 16 ≤ p)
    → (m' : Memory) × (decode_length header m p buffer
        ≡ decode_cluster (header >>> 4) (store_u64_le m' buffer size) (p + size_w) buffer)
      × IsBytes m'
      × ((a : ℕ) → (a < buffer) ⊎ (buffer + 8 ≤ a) → m' a ≡ m a)
decode_length_lem header m p size size_w buffer bytes sized e value h apart =
    let (positive, small) = width-lt size_w sized.kind in
    let g =
      gather_length-Gathered size_w 0 m p 0 buffer bytes (omega arith) (omega arith)
        (ground arith) in
    let kept = g.kept (p + size_w - 1) (ground arith) in
    let last : m (p + size_w - 1) < 128 =
      ground (arith, last_byte m p size_w sized.kind bytes, sized.fits) in
    let clear : leb 0x80 ((gather_length size_w 0 m p 0 buffer).0 (p + size_w - 1)) ≡ false =
      ground (arith, kept) in
    let number : (gather_length size_w 0 m p 0 buffer).2 ≡ size = omega (arith, g.number) in
    (
      (gather_length size_w 0 m p 0 buffer).0,
      unfold decode_length in (rw (e, g.advanced, clear, number) refl),
      g.bytes,
      g.kept,
    )

decode_is_length :
    (m : Memory) (esi buffer : ℕ)
    → (m esi == 0) ≡ false
    → ltb 8 (bit_and (m esi) 0x0f) ≡ false
    → ntfs_decode_mcb_entry_ptr m esi buffer ≡ decode_length (m esi) m (esi + 1) buffer
unfolding ntfs_decode_mcb_entry_ptr
decode_is_length m esi buffer h k = rw (h, k) refl

-- Decoding an entry outside the result's buffer gives its length and its distance with the sign
-- extended to 64 bits, and moves the pointer past it.
pub ntfs_decode_mcb_entry_ptr-Decoded :
    (m : Memory) (esi size size_w start start_w buffer : ℕ)
    → IsBytes m
    → size < 2 ^ 32
    → start < 2 ^ 32
    → IsOutside esi buffer
    → IsEntry m esi size size_w start start_w
    → Decoded esi size size_w start start_w buffer (ntfs_decode_mcb_entry_ptr m esi buffer)
ntfs_decode_mcb_entry_ptr-Decoded m esi size size_w start start_w buffer bytes h k out entry =
    let (positive, small) = width-lt size_w entry.sized.kind in
    let (_, small') = width-lt start_w entry.started.kind in
    let low : bit_and (m esi) 0x0f ≡ size_w = omega (arith, bit_and_mask 4 (m esi), entry.header) in
    let high : m esi >>> 4 ≡ start_w = omega (arith, entry.header) in
    let not_zero : (m esi == 0) ≡ false = ground (arith, entry.header) in
    let fits : ltb 8 size_w ≡ false = ground arith in
    let (m', e, bytes', kept) =
      decode_length_lem (m esi) m (esi + 1) size size_w buffer bytes entry.sized low
        entry.size_bytes h (ground arith) in
    let m2 : Memory = store_u64_le m' buffer size in
    let bytes2 : IsBytes m2 = unfold store_u64_le in write_le-IsBytes 8 m' buffer size bytes' in
    let start_bytes : le_value m2 (esi + 1 + size_w) start_w ≡ entry.started.low =
      le_value_kept m' (esi + 1 + size_w) start_w buffer size (ground arith)
      ∙ le_value_same m' m (esi + 1 + size_w) start_w (λ a ge lt. kept a (ground arith))
      ∙ entry.start_bytes in
    rw (decode_is_length m esi buffer not_zero (rw low fits), e, high)
      (rw
        (decode_cluster_lem m2 (esi + 1 + size_w) start start_w buffer entry.started bytes2 k
          start_bytes)
        (record {
          advanced = refl;
          more = refl;
          length =
              le_value_kept m2 buffer 8 (buffer + 8) (sign_extend start) (inl (omega arith))
              ∙ le_value-store_u64_le m' buffer size (omega arith);
          distance =
              le_value-store_u64_le m2 (buffer + 8) (sign_extend start) (sign_extend-lt start k);
        }))
