-- ===== src/NtfsMcb/RoundTrip.antt =====
-- An entry that was written decodes to the run it was written for.
use kolibri_os_reloaded.Base.{
  ℕ, zero, suc, ◌+◌, ◌-◌, ◌*◌, ◌/◌, ◌%◌, ◌^◌, ◌<◌, bit_and, bit_or, ◌≡◌, ◌⊎◌, inl, inr, refl, ap,
  ◌∙◌, arith, some, Bool, true, false, ltb, ltb→lt, Bool-cases, u8, u32, ◌<<<◌,
}
use kolibri_os_reloaded.Base.Memory.{
  Memory, IsBytes, load_u32, store_u32, store_u8, store_u32-IsBytes, store_u8_same, store_u8_other,
  store_u8-IsBytes,
}
use kolibri_os_reloaded.Base.Fields.{bit_and_mask, bit_or_fields}
use kolibri_os_reloaded.NtfsMcb.{
  write_le_bytes_ptr, ntfs_decode_mcb_entry_ptr, write_entry_bytes, grown_size, extend_attribute,
  place_extended, place_entry, ntfs_create_mcb_entry_ptr, frs_slide_make_room_ptr, slide_dwords,
}
use kolibri_os_reloaded.NtfsMcb.Bytes.{
  le_value, le_value_same, write_le_frame, le_value-write_le, write_le-IsBytes, pow_byte,
}
use kolibri_os_reloaded.NtfsMcb.Width.{
  IsSizeWidth, IsStartWidth, width-lt, sign_extend, mcb_start_width_lem, mcb_size_width_lem,
}
use kolibri_os_reloaded.NtfsMcb.Decode.{IsEntry, IsOutside, ntfs_decode_mcb_entry_ptr-Decoded}

write_le_step :
    (n : ℕ) (m : Memory) (p v : ℕ)
    → write_le_bytes_ptr (suc n) m p v
      ≡ write_le_bytes_ptr n (store_u8 m p (v % 256)) (p + 1) (v / 256)
write_le_step n m p v = unfold write_le_bytes_ptr in refl

-- Only the low bytes are written.
write_le_low :
    (n : ℕ) (m : Memory) (p low high : ℕ)
    → write_le_bytes_ptr n m p (low + high * 2 ^ (8 * n)) ≡ write_le_bytes_ptr n m p low
write_le_low zero m p low high = unfold write_le_bytes_ptr in refl
write_le_low (suc n) m p low high =
    let weight : high * 2 ^ (8 * suc n) ≡ 256 * (high * 2 ^ (8 * n)) =
      omega (arith, ap (λ (t : ℕ). high * t) (pow_byte n)) in
    let byte : (low + 256 * (high * 2 ^ (8 * n))) % 256 ≡ low % 256 = omega arith in
    let rest : (low + 256 * (high * 2 ^ (8 * n))) / 256 ≡ low / 256 + high * 2 ^ (8 * n) =
      omega arith in
    rw
      (
        weight,
        write_le_step n m p (low + 256 * (high * 2 ^ (8 * n))),
        write_le_step n m p low,
        byte,
        rest,
      )
      (write_le_low n (store_u8 m p (low % 256)) (p + 1) (low / 256) high)

header_value :
    (a b : ℕ) → a < 16 → b < 16 → u8 (bit_or (bit_and a 0x0f <<< 4) (bit_and b 0x0f)) ≡ a * 16 + b
header_value a b h k =
    let joined = bit_or_fields 4 (a % 2 ^ 4) (b % 2 ^ 4) (omega arith) in
    let swap : a % 2 ^ 4 * 2 ^ 4 ≡ 2 ^ 4 * (a % 2 ^ 4) = omega arith in
    rw (bit_and_mask 4 a, bit_and_mask 4 b, swap, joined) (omega arith)

write_entry_bytes-IsBytes :
    (m : Memory) (dest start start_w size size_w : ℕ)
    → IsBytes m
    → IsBytes (write_entry_bytes m dest start start_w size size_w).0
unfolding write_entry_bytes
write_entry_bytes-IsBytes m dest start start_w size size_w bytes =
    store_u8-IsBytes _ _ 0
      (write_le-IsBytes start_w _ _ start
        (write_le-IsBytes size_w _ _ size (store_u8-IsBytes m dest _ bytes (omega arith))))
      (omega arith)

-- The bytes of an entry after it was written.
write_entry_bytes-IsEntry :
    (m : Memory) (dest start start_w size size_w : ℕ)
    → IsSizeWidth size size_w
    → IsStartWidth start start_w
    → IsEntry (write_entry_bytes m dest start start_w size size_w).0 dest size size_w start start_w
unfolding write_entry_bytes
write_entry_bytes-IsEntry m dest start start_w size size_w sized started = record {
  sized = sized;
  started = started;
  header =
      store_u8_other _ end 0 dest (omega arith)
      ∙ write_le_frame start_w _ _ start dest (inl (omega arith))
      ∙ write_le_frame size_w _ (dest + 1) size dest (inl (omega arith))
      ∙ store_u8_same m dest _
      ∙ header_value start_w size_w (omega (arith, width-lt start_w started.kind))
          (omega (arith, width-lt size_w sized.kind));
  size_bytes =
      le_value_same _ sized_bytes (dest + 1) size_w (λ a ge lt.
        store_u8_other _ end 0 a (omega arith)
        ∙ write_le_frame start_w sized_bytes (dest + 1 + size_w) start a (inl (omega arith)))
      ∙ le_value-write_le size_w _ (dest + 1) size (omega (arith, sized.fits));
  start_bytes =
      le_value_same _ (write_le_bytes_ptr start_w sized_bytes (dest + 1 + size_w) start)
        (dest + 1 + size_w) start_w (λ a ge lt. store_u8_other _ end 0 a (omega arith))
      ∙ ap
          (λ v.
            le_value (write_le_bytes_ptr start_w sized_bytes (dest + 1 + size_w) v)
              (dest + 1 + size_w) start_w)
          started.whole
      ∙ ap (λ m'. le_value m' (dest + 1 + size_w) start_w)
          (write_le_low start_w sized_bytes (dest + 1 + size_w) started.low started.high)
      ∙ le_value-write_le start_w sized_bytes (dest + 1 + size_w) started.low started.low_fits;
}
  where
    end : ℕ
    end = dest + 1 + size_w + start_w

    sized_bytes : Memory
    sized_bytes =
        write_le_bytes_ptr size_w
          (store_u8 m dest (u8 (bit_or (bit_and start_w 0x0f <<< 4) (bit_and size_w 0x0f))))
          (dest + 1) size

slide_dwords-IsBytes :
    (n : ℕ) (m : Memory) (src dst : ℕ) → IsBytes m → IsBytes (slide_dwords n m src dst)
unfolding slide_dwords
slide_dwords-IsBytes zero m src dst h = h
slide_dwords-IsBytes (suc n) m src dst h =
    slide_dwords-IsBytes n _ (src - 4) (dst - 4) (store_u32-IsBytes m dst (load_u32 m src) h)

-- The result of placing an entry: it decodes to the run and ends at a terminator.
pub record Placed (start size dest buffer : ℕ) (r : Memory × ℕ × ℕ) : Type 0 where
  pub more : (ntfs_decode_mcb_entry_ptr r.0 dest buffer).2 ≡ 1
  pub advanced : (ntfs_decode_mcb_entry_ptr r.0 dest buffer).1 ≡ r.1
  pub length : le_value (ntfs_decode_mcb_entry_ptr r.0 dest buffer).0 buffer 8 ≡ size
  pub distance :
      le_value (ntfs_decode_mcb_entry_ptr r.0 dest buffer).0 (buffer + 8) 8 ≡ sign_extend start
  pub ended : r.0 r.1 ≡ 0

write_entry_bytes-Placed :
    (m : Memory) (dest start start_w size size_w buffer flag : ℕ)
    → IsBytes m
    → size < 2 ^ 31
    → start < 2 ^ 32
    → IsOutside dest buffer
    → IsSizeWidth size size_w
    → IsStartWidth start start_w
    → Placed start size dest buffer (
      (write_entry_bytes m dest start start_w size size_w).0,
      (write_entry_bytes m dest start start_w size size_w).1,
      flag,
    )
write_entry_bytes-Placed m dest start start_w size size_w buffer flag bytes h k out sized started =
    let d =
      ntfs_decode_mcb_entry_ptr-Decoded (write_entry_bytes m dest start start_w size size_w).0 dest
        size size_w start start_w buffer
        (write_entry_bytes-IsBytes m dest start start_w size size_w bytes) (omega arith) k out
        (write_entry_bytes-IsEntry m dest start start_w size size_w sized started) in
    record {
      more = d.more;
      advanced = d.advanced ∙ unfold write_entry_bytes in refl;
      length = d.length;
      distance = d.distance;
      ended = unfold write_entry_bytes in store_u8_same _ (dest + 1 + size_w + start_w) 0;
    }

-- The memory after the attribute's size has grown.
abbrev grown_attribute : Memory → ℕ → Memory
grown_attribute m attr = store_u32 m (attr + 4) (grown_size (load_u32 m (attr + 4)))

-- The record has no room for 8 more bytes.
abbrev IsFull : Memory → ℕ → Type 0
IsFull m frs = load_u32 m (frs + 0x1c) < (load_u32 m (frs + 0x18) + 8) % 2 ^ 32

abbrev pub CreateOutcome : Memory → ℕ → ℕ → ℕ → ℕ → ℕ → ℕ → Memory × ℕ × ℕ → Type 0
CreateOutcome m start size dest attr frs buffer r =
    Placed start size dest buffer r
    ⊎ (IsFull (grown_attribute m attr) frs × (r ≡ (grown_attribute m attr, dest, 0)))

-- The entry's end, and the end of the attribute.
abbrev fits_attribute : ℕ → ℕ → Memory → ℕ → ℕ → Bool
fits_attribute start_w size_w m dest attr =
    ltb (u32 (u32 (u32 (dest + start_w) + 1) + size_w)) (u32 (attr + load_u32 m (attr + 4)))

abbrev has_no_room : Memory → ℕ → Bool
has_no_room m frs = ltb (load_u32 m (frs + 0x1c)) (u32 (load_u32 m (frs + 0x18) + 8))

module _ (start_w size_w : ℕ) (m : Memory) (start size dest attr frs : ℕ) where
  place_entry_fits :
      fits_attribute start_w size_w m dest attr ≡ true
      → place_entry start_w size_w m start size dest attr frs ≡ (
        (write_entry_bytes m dest start start_w size size_w).0,
        (write_entry_bytes m dest start start_w size size_w).1,
        0,
      )
  unfolding place_entry
  place_entry_fits e = rw e refl

  place_entry_full :
      fits_attribute start_w size_w m dest attr ≡ false
      → has_no_room (grown_attribute m attr) frs ≡ true
      → place_entry start_w size_w m start size dest attr frs ≡ (grown_attribute m attr, dest, 0)
  unfolding place_entry extend_attribute place_extended
  place_entry_full e f = rw (e, f) refl

  slid : Memory
  slid =
      let new_real = u32 (load_u32 (grown_attribute m attr) (frs + 0x18) + 8) in
      frs_slide_make_room_ptr (store_u32 (grown_attribute m attr) (frs + 0x18) new_real) frs dest
        new_real

  place_entry-slid :
      fits_attribute start_w size_w m dest attr ≡ false
      → has_no_room (grown_attribute m attr) frs ≡ false
      → place_entry start_w size_w m start size dest attr frs ≡ (
        (write_entry_bytes slid dest start start_w size size_w).0,
        (write_entry_bytes slid dest start start_w size size_w).1,
        1,
      )
  unfolding place_entry extend_attribute place_extended slid
  place_entry-slid e f = rw (e, f) refl

  slid-IsBytes : IsBytes m → IsBytes slid
  unfolding slid frs_slide_make_room_ptr
  slid-IsBytes bytes =
      slide_dwords-IsBytes _ _ _ _
        (store_u32-IsBytes _ _ _ (store_u32-IsBytes m (attr + 4) _ bytes))

place_entry_outcome :
    (start_w size_w : ℕ) (m : Memory) (start size dest attr frs buffer : ℕ)
    → IsBytes m
    → start < 2 ^ 32
    → size < 2 ^ 31
    → IsOutside dest buffer
    → IsSizeWidth size size_w
    → IsStartWidth start start_w
    → CreateOutcome m start size dest attr frs buffer
        (place_entry start_w size_w m start size dest attr frs)
place_entry_outcome start_w size_w m start size dest attr frs buffer bytes h k out sized started =
    let placed = λ (m' : Memory) (flag : ℕ) (b : IsBytes m').
      write_entry_bytes-Placed m' dest start start_w size size_w buffer flag b k h out sized
        started in
    elim (Bool-cases (fits_attribute start_w size_w m dest attr)) [
      | inl e ↦
          rw (place_entry_fits start_w size_w m start size dest attr frs e) (inl (placed m 0 bytes))
      | inr e ↦ elim (Bool-cases (has_no_room (grown_attribute m attr) frs)) [
        | inl f ↦
            rw (place_entry_full start_w size_w m start size dest attr frs e f)
              (inr (ltb→lt _ _ f, refl))
        | inr f ↦ rw (place_entry-slid start_w size_w m start size dest attr frs e f) (
            inl (
              placed (slid start_w size_w m start size dest attr frs) 1
                (slid-IsBytes start_w size_w m start size dest attr frs bytes)))
      ]
    ]

-- In a memory of bytes, for a run of fewer than 2^31 clusters and any signed distance,
-- creating the entry always ends. Either the entry is placed: with a result buffer elsewhere,
-- decoding it gives the run's length and the distance with its sign extended to 64 bits, the
-- pointer moves to the address that was returned, and there is the terminator. Or the record has no
-- room for 8 more bytes, and nothing but the attribute's size has changed.
pub ntfs_create_mcb_entry_ptr_outcome :
    (m : Memory) (start size dest attr frs buffer : ℕ)
    → IsBytes m
    → start < 2 ^ 32
    → size < 2 ^ 31
    → IsOutside dest buffer
    → (r : Memory × ℕ × ℕ) × (ntfs_create_mcb_entry_ptr m start size dest attr frs ≡ some r)
      × CreateOutcome m start size dest attr frs buffer r
ntfs_create_mcb_entry_ptr_outcome m start size dest attr frs buffer bytes h k out =
    let (start_w, e, started) = mcb_start_width_lem start h in
    let (size_w, f, sized) = mcb_size_width_lem size k in
    (
      place_entry start_w size_w m start size dest attr frs,
      unfold ntfs_create_mcb_entry_ptr in (rw (e, f) refl),
      place_entry_outcome start_w size_w m start size dest attr frs buffer bytes h k out sized
          started,
    )
