-- ===== src/Utf.antt =====
-- One UTF-16 unit to UTF-8 and back, and a string of units, in
-- rust_kernel/kolibri_utils/src/utf16_to_8.rs and utf8to16.rs. Registers are 32-bit patterns; a
-- surrogate is a unit like the others. The loops take fuel, and `none` means that it ran out.
pub mod Encode
pub mod Decode
pub mod RoundTrip
pub mod Units
pub mod Text
mod Examples
use kolibri_os_reloaded.Base.{
  ℕ, zero, suc, ◌+◌, ◌-◌, ◌*◌, ◌/◌, ◌%◌, ◌^◌, bit_and, bit_or, Bool, not, ltb, ◌==◌, if◌then◌else◌,
  u8, u16, u32, sub_u32, ◌<<<◌, ◌>>>◌, Option, none, some,
}
use kolibri_os_reloaded.Base.Bits.{bit_not}
use kolibri_os_reloaded.Base.Memory.{Memory, load_u16, store_u8}

pub record Utf16To8Result : Type 0 where
  pub eax : ℕ
  pub ecx : ℕ
  pub edi_delta : ℕ
  pub sf : ℕ

-- The count and whether it is negative.
unfoldable pub dec_ecx : ℕ → ℕ × Bool
dec_ecx ecx = let r = sub_u32 ecx 1 in (r, not (bit_and r 0x80000000 == 0))

-- `u32::swap_bytes`.
abbrev reversed_bytes : ℕ → ℕ
reversed_bytes x =
    x % 256 * 2 ^ 24 + x / 2 ^ 8 % 256 * 2 ^ 16 + x / 2 ^ 16 % 256 * 2 ^ 8 + x / 2 ^ 24

-- The register that is left and the bytes.
unfoldable pub encode_2byte : ℕ → ℕ × ℕ × ℕ
encode_2byte c =
    let eax0 = u32 (c <<< 2) in
    let al = u8 eax0 >>> 2 in
    let eax1 = bit_or (bit_or (bit_and eax0 (bit_not 32 0xff)) al) 0xC080 in
    let al' = bit_and eax1 0xff in
    let ah = bit_and (eax1 >>> 8) 0xff in
    let eax2 = bit_or (bit_or (bit_and eax1 (bit_not 32 0xffff)) (al' <<< 8)) ah in
    (eax2, u8 (bit_and eax2 0xff), u8 (bit_and (eax2 >>> 8) 0xff))

unfoldable pub encode_3byte : ℕ → ℕ × ℕ × ℕ × ℕ
encode_3byte c =
    let eax0 = u32 (c <<< 4) in
    let ax = u16 eax0 >>> 2 in
    let eax1 = bit_or (bit_and eax0 (bit_not 32 0xffff)) ax in
    let al = u8 eax1 >>> 2 in
    let eax2 = bit_or (bit_or (bit_and eax1 (bit_not 32 0xff)) al) 0x00E08080 in
    let eax3 = reversed_bytes eax2 >>> 8 in
    let eax4 = eax3 >>> 8 in
    (eax4, u8 (bit_and eax3 0xff), u8 (bit_and eax4 0xff), u8 (bit_and (eax4 >>> 8) 0xff))

-- The three ends of a call: no room, with the register as it came, or one, two or three bytes.
unfoldable pub no_room : Memory → ℕ → ℕ → Memory × Utf16To8Result
no_room m eax ecx = (m, record { eax = eax; ecx = ecx; edi_delta = 0; sf = 1 })

unfoldable pub stored_1byte : Memory → ℕ → ℕ → ℕ → Memory × Utf16To8Result
stored_1byte m dest eax ecx =
    (store_u8 m dest (u8 eax), record { eax = eax; ecx = ecx; edi_delta = 1; sf = 0 })

unfoldable pub stored_2byte : Memory → ℕ → ℕ → ℕ → Memory × Utf16To8Result
stored_2byte m dest eax ecx =
    let (res, b0, b1) = encode_2byte eax in
    (
      store_u8 (store_u8 m dest b0) (dest + 1) b1,
      record { eax = res; ecx = ecx; edi_delta = 2; sf = 0 },
    )

unfoldable pub stored_3byte : Memory → ℕ → ℕ → ℕ → Memory × Utf16To8Result
stored_3byte m dest eax ecx =
    let (res, b0, b1, b2) = encode_3byte eax in
    (
      store_u8 (store_u8 (store_u8 m dest b0) (dest + 1) b1) (dest + 2) b2,
      record { eax = res; ecx = ecx; edi_delta = 3; sf = 0 },
    )

-- A decrement before each byte of the unit.
unfoldable pub utf16_to_8 : Memory → ℕ → ℕ → ℕ → Memory × Utf16To8Result
utf16_to_8 m ax dest ecx_in =
    let (ecx1, sf1) = dec_ecx ecx_in in
    let (ecx2, sf2) = dec_ecx ecx1 in
    let (ecx3, sf3) = dec_ecx ecx2 in
    if sf1
    then no_room m ax ecx1
    else if ltb ax 0x80
    then stored_1byte m dest ax ecx1
    else if sf2
    then no_room m ax ecx2
    else if ltb ax 0x800
    then stored_2byte m dest ax ecx2
    else if sf3
    then no_room m ax ecx3
    else stored_3byte m dest ax ecx3

-- `shl al, n` and the last bit that it shifts out.
unfoldable pub shl_al_cf : ℕ → ℕ → ℕ × Bool
shl_al_cf al count = (u8 (al <<< count), bit_and (al >>> (8 - count)) 1 == 1)

-- A register with another low byte, and with another low half.
abbrev pub with_al : ℕ → ℕ → ℕ
with_al eax al = bit_or (bit_and eax (bit_not 32 0xff)) al

abbrev pub with_ax : ℕ → ℕ → ℕ
with_ax eax ax = bit_or (bit_and eax (bit_not 32 0xffff)) ax

-- `xor ah, ah`: the register and the pointer behind the byte.
abbrev pub got : ℕ → ℕ → ℕ × ℕ
got eax esi = (bit_and eax (bit_not 32 0xff00), esi)

abbrev pub is_ascii : ℕ → Bool
is_ascii eax = bit_and (u8 eax) 0x80 == 0

-- The inner loop, from a register with the lead or a continuation in its low byte.
unfoldable pub gather : ℕ → Memory → ℕ → ℕ → Option (ℕ × ℕ)
gather zero m esi eax = none
gather (suc fuel) m esi eax =
    let eax0 = with_ax eax (u16 (u16 eax <<< 8)) in
    let eax1 = with_al eax0 (m esi) in
    let (al3, cf_cont) = shl_al_cf (u8 eax1) 2 in
    let eax2 = with_al eax1 al3 in
    let ah = u8 (eax2 >>> 8) >>> 2 in
    let eax3 = bit_or (bit_and eax2 (bit_not 32 0xff00)) (ah <<< 8) in
    let ax_in = u16 eax3 in
    let cf_ax = bit_and (ax_in >>> 13) 1 == 1 in
    let eax4 = with_ax eax3 (u16 (ax_in <<< 3)) in
    let eax5 = with_ax eax4 (u16 eax4 >>> 5) in
    let eax6 = u32 (eax4 <<< 3) in
    let eax7 = with_al eax6 (m (esi + 1)) in
    let (al5, cf_again) = shl_al_cf (u8 eax7) 2 in
    let eax8 = with_al eax7 al5 in
    let once_more = gather fuel m (esi + 1) eax2 in
    let twice_more = gather fuel m (esi + 2) eax8 in
    if is_ascii eax1
    then some (got eax1 (esi + 1))
    else if cf_cont
    then once_more
    else if not cf_ax
    then some (eax5, esi + 1)
    else if is_ascii eax7
    then some (got eax7 (esi + 2))
    else if cf_again
    then twice_more
    else some (eax8 >>> 2, esi + 2)

-- The outer loop, from the byte at `esi`: a byte that starts no sequence is passed over.
unfoldable pub utf8to16_ptr : ℕ → Memory → ℕ → ℕ → Option (ℕ × ℕ)
utf8to16_ptr zero m esi eax = none
utf8to16_ptr (suc fuel) m esi eax =
    let eax0 = with_al eax (m esi) in
    let (al1, cf_lead) = shl_al_cf (u8 eax0) 2 in
    let eax1 = with_al eax0 al1 in
    let again = utf8to16_ptr fuel m (esi + 1) eax1 in
    if is_ascii eax0
    then some (got eax0 (esi + 1))
    else if cf_lead
    then gather fuel m (esi + 1) eax1
    else again

pub record Utf16To8StringResult : Type 0 where
  pub string_eax : ℕ
  pub esi : ℕ
  pub edi : ℕ
  pub string_ecx : ℕ
  pub string_sf : ℕ
  pub zf : ℕ

-- One unit after the other, the terminating zero included.
unfoldable pub utf16_to_8_string :
    ℕ → Memory → ℕ → ℕ → ℕ → ℕ → Option (Memory × Utf16To8StringResult)
utf16_to_8_string zero m esi edi ecx eax = none
utf16_to_8_string (suc fuel) m esi edi ecx eax =
    let ax = load_u16 m esi in
    let eax' = with_ax eax ax in
    let (m', r) = utf16_to_8 m ax edi ecx in
    let rest = utf16_to_8_string fuel m' (esi + 2) (edi + r.edi_delta) r.ecx eax' in
    if r.sf == 0
    then (if eax' == 0
        then some (
          m',
          record {
            string_eax = 0;
            esi = esi + 2;
            edi = edi + r.edi_delta;
            string_ecx = r.ecx;
            string_sf = 0;
            zf = 1;
          },
        )
        else rest)
    else some (
      m',
      record {
        string_eax = eax';
        esi = esi + 2;
        edi = edi + r.edi_delta;
        string_ecx = r.ecx;
        string_sf = 1;
        zf = 0;
      },
    )
