-- ===== src/FatName/Generate/Safe.antt =====
-- What the loop of `fat_gen_short_name` keeps true.
use kolibri_os_reloaded.Base.{
  ℕ, zero, suc, ◌+◌, ◌≤◌, ◌<◌, bit_and, bit_or, ◌≡◌, ◌≢◌, ◌⊎◌, inl, inr, refl, sym, ◌∙◌, arith,
  true, eq_cases,
}
use kolibri_os_reloaded.Base.Memory.{Memory, store_u8, store_u8_same, store_u8_other}
use kolibri_os_reloaded.FatName.{cp866_to_upper}
use kolibri_os_reloaded.FatName.Legal.{fat_short_char_ok}
use kolibri_os_reloaded.FatName.Generate.{Gen, lossy}

-- A character of a short name: a space, or an allowed one that is neither a dot nor a small letter.
abbrev pub IsShort : ℕ → Type 0
IsShort c = (c ≡ b' ') ⊎ ((fat_short_char_ok c ≡ true) × (c ≢ b'.') × ((c < b'a') ⊎ (b'z' < c)))

pub cp866_to_upper-IsShort :
    (c : ℕ) → c < 128 → fat_short_char_ok c ≡ true → c ≢ b'.' → IsShort (cp866_to_upper c)
unfolding cp866_to_upper fat_short_char_ok
cp866_to_upper-IsShort c ascii ok no_dot = ground arith

-- The registers stay in the eleven bytes of the name, those bytes are characters of a short name,
-- and no other cell changes.
pub record Sound (m : Memory) (out : ℕ) (g : Gen) : Type 0 where
  pub room : g.edi + g.bl ≤ 11
  pub field : g.bl ≤ 8
  pub flags : g.bh < 4
  pub no_dot : bit_and g.bh 2 ≡ 0 → g.edi + g.bl ≡ 8
  pub dotted : bit_and g.bh 2 ≢ 0 → (8 ≤ g.edi) × (g.saved ≤ 8)
  pub short : (j : ℕ) → j < 11 → IsShort (g.mem (out + j))
  pub frame : (b : ℕ) → (b < out) ⊎ (out + 11 ≤ b) → g.mem b ≡ m b

lossy_flags : (bh : ℕ) → bh < 4 → (bit_or bh 1 < 4) × (bit_and (bit_or bh 1) 2 ≡ bit_and bh 2)
lossy_flags zero h = (omega arith, refl)
lossy_flags (suc zero) h = (omega arith, refl)
lossy_flags (suc (suc zero)) h = (omega arith, refl)
lossy_flags (suc (suc (suc zero))) h = (omega arith, refl)
lossy_flags (suc (suc (suc (suc n)))) h = absurd (omega arith)

pub dot_flags : (bh : ℕ) → bh < 4 → (bit_or bh 2 < 4) × (bit_and (bit_or bh 2) 2 ≡ 2)
dot_flags zero h = (omega arith, refl)
dot_flags (suc zero) h = (omega arith, refl)
dot_flags (suc (suc zero)) h = (omega arith, refl)
dot_flags (suc (suc (suc zero))) h = (omega arith, refl)
dot_flags (suc (suc (suc (suc n)))) h = absurd (omega arith)

pub lossy-Sound : (m : Memory) (out : ℕ) (g : Gen) → Sound m out g → Sound m out (lossy g)
lossy-Sound m out g sound =
    let (small, same) = lossy_flags g.bh sound.flags in
    record {
      room = sound.room;
      field = sound.field;
      flags = small;
      no_dot = λ e. sound.no_dot (sym same ∙ e);
      dotted = λ e. sound.dotted (λ z. e (same ∙ z));
      short = sound.short;
      frame = sound.frame;
    }

pub store_u8-IsShort :
    (g : Memory) (out e v : ℕ)
    → ((j : ℕ) → j < 11 → IsShort (g (out + j)))
    → IsShort v
    → (j : ℕ) → j < 11
    → IsShort (store_u8 g (out + e) v (out + j))
store_u8-IsShort g out e v short ok j less = elim (eq_cases e j) [
  | inl same ↦ rw (same, store_u8_same g (out + j) v) ok
  | inr other ↦ rw (store_u8_other g (out + e) v (out + j) (omega arith)) (short j less)
]
