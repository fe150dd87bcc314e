-- ===== src/FatName/Generate.antt =====
-- The short name that is made of a long one, `fat_gen_short_name`. The registers of the loop are a
-- record: the offset of the next byte, the free places of the field, the flags (1 for a lossy
-- conversion, 2 for a dot that was seen) and the offset that is kept at a dot.
pub mod Safe
pub mod Loop
pub mod Outcome
pub mod Plain
use kolibri_os_reloaded.Base.{
  ℕ, zero, suc, ◌+◌, ◌-◌, ◌*◌, ◌/◌, ◌%◌, ◌^◌, bit_and, bit_or, Bool, true, false, not, Option, none,
  some, ltb, leb, ◌==◌, if◌then◌else◌, u8, sub_u32, ◌>>=◌,
}
use kolibri_os_reloaded.Base.Memory.{Memory, store_u8}
use kolibri_os_reloaded.FatName.{cp866_to_upper, fat_next_short_name, fat_gen_fill_len}
use kolibri_os_reloaded.FatName.Legal.{fat_short_char_ok}

pub record Gen : Type 0 where
  pub mem : Memory
  pub edi : ℕ
  pub bl : ℕ
  pub bh : ℕ
  pub saved : ℕ

abbrev pub ecx : ℕ
ecx = 8

-- The loop that fills the name with spaces, `left` of them from the offset `i` on.
unfoldable pub fill_spaces : ℕ → ℕ → Memory → ℕ → Memory
fill_spaces zero i m out = m
fill_spaces (suc left) i m out = fill_spaces left (i + 1) (store_u8 m (out + i) b' ') out

abbrev pub lossy : Gen → Gen
lossy g = record g { bh = bit_or g.bh 1 }

-- The loop that moves the bytes of an extension back, with `edi - ecx` as its first argument.
unfoldable pub rewind : ℕ → Memory → ℕ → ℕ → Memory
rewind zero m out ebx = m
rewind (suc k) m out ebx =
    let edi = ecx + k in
    let ebx' = sub_u32 ebx 1 in
    let m1 = store_u8 m (out + ebx') (m (out + edi)) in
    rewind k (store_u8 m1 (out + edi) b' ') out ebx'

unfoldable pub first_dot : Gen → Gen
first_dot g =
    if g.bl == 8 then lossy g else record g { saved = g.edi; bh = bit_or g.bh 2; edi = ecx; bl = 3 }

unfoldable pub later_dot : Gen → ℕ → Gen
unfolding rewind
later_dot g out =
    let sum = sub_u32 (g.saved + g.edi) ecx in
    let ebx = if leb ecx sum then ecx else sum in
    record g { mem = rewind (g.edi - ecx) g.mem out ebx; saved = ebx; bh = 3; edi = ecx; bl = 3 }

-- A character that is no dot.
unfoldable pub keep : ℕ → Gen → ℕ → Gen
unfolding cp866_to_upper
keep al g out =
    let bl_dec = (g.bl + 255) % 256 in
    if ltb bl_dec 128
    then record g {
      bl = bl_dec;
      mem = store_u8 g.mem (out + g.edi) (cp866_to_upper al);
      edi = g.edi + 1;
    }
    else record g { bl = u8 (bl_dec + 1); bh = bit_or g.bh 1 }

-- A byte of the long name that is not its NUL.
unfoldable pub gen_step : ℕ → Gen → ℕ → Gen
unfolding first_dot later_dot keep fat_short_char_ok
gen_step al g out =
    if leb 128 al
    then lossy g
    else if not (fat_short_char_ok al)
    then lossy g
    else if al == b'.'
    then (if bit_and g.bh 2 == 0 then first_dot g else later_dot g out)
    else keep al g out

unfoldable pub gen_loop : ℕ → ℕ → Gen → ℕ → Option Gen
unfolding gen_step
gen_loop zero esi g out = none
gen_loop (suc fuel) esi g out =
    let al = g.mem esi in
    let rest = gen_loop fuel (esi + 1) (gen_step al g out) out in if al == 0 then some g else rest

-- The numbering of a name whose conversion was lossy; what it returns is not looked at.
unfoldable pub numbered : Gen → ℕ → Option Memory
unfolding fat_next_short_name
numbered g out =
    if not (bit_and g.bh 1 == 0)
    then (do (m', ok) ← fat_next_short_name g.mem out; some m')
    else some g.mem

abbrev pub gen_start : Memory → ℕ → Gen
gen_start m out = record {
  mem = fill_spaces fat_gen_fill_len 0 m out;
  edi = 0;
  bl = 8;
  bh = 0;
  saved = 0;
}

unfoldable pub fat_gen_short_name : Memory → ℕ → ℕ → Option Memory
unfolding gen_loop numbered fill_spaces
fat_gen_short_name m src out = do g ← gen_loop (2 ^ 32) src (gen_start m out) out; numbered g out
