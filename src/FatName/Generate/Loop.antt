-- ===== src/FatName/Generate/Loop.antt =====
-- The loop of `fat_gen_short_name` over a whole name.
use kolibri_os_reloaded.Base.{
  ℕ, zero, suc, ◌+◌, ◌-◌, ◌%◌, ◌≤◌, ◌<◌, bit_and, ◌≡◌, ◌≢◌, ◌⊎◌, inl, inr, refl, ◌∙◌, arith, true,
  false, ltb, leb, ◌==◌, Bool-cases, eq_cases, if◌then◌else◌, u8, sub_u32,
}
use kolibri_os_reloaded.Base.Memory.{Memory, store_u8, store_u8_other}
use kolibri_os_reloaded.Base.Fields.{bit_and_bit}
use kolibri_os_reloaded.FatName.{cp866_to_upper}
use kolibri_os_reloaded.FatName.Legal.{fat_short_char_ok}
use kolibri_os_reloaded.FatName.Generate.{Gen, rewind, first_dot, later_dot, keep, gen_step}
use kolibri_os_reloaded.FatName.Generate.Safe.{
  IsShort, Sound, cp866_to_upper-IsShort, dot_flags, lossy-Sound, store_u8-IsShort,
}

rewind-Sound :
    (k : ℕ) (g m : Memory) (out ebx : ℕ)
    → k ≤ 3
    → k ≤ ebx
    → ebx ≤ 8
    → ((j : ℕ) → j < 11 → IsShort (g (out + j)))
    → ((b : ℕ) → (b < out) ⊎ (out + 11 ≤ b) → g b ≡ m b)
    → ((j : ℕ) → j < 11 → IsShort (rewind k g out ebx (out + j)))
      × ((b : ℕ) → (b < out) ⊎ (out + 11 ≤ b) → rewind k g out ebx b ≡ m b)
unfolding rewind
rewind-Sound zero g m out ebx few le small short frame = (short, frame)
rewind-Sound (suc k) g m out ebx few le small short frame =
    let back : sub_u32 ebx 1 ≡ ebx - 1 = omega arith in
    let v = g (out + (8 + k)) in
    let m1 = store_u8 g (out + (ebx - 1)) v in
    let short1 = store_u8-IsShort g out (ebx - 1) v short (short (8 + k) (omega arith)) in
    let short2 = store_u8-IsShort m1 out (8 + k) b' ' short1 (inl refl) in
    rw back (
      rewind-Sound k (store_u8 m1 (out + (8 + k)) b' ') m out (ebx - 1) (omega arith) (omega arith)
        (omega arith) short2
        λ b outside.
          store_u8_other m1 (out + (8 + k)) b' ' b (omega arith)
          ∙ (store_u8_other g (out + (ebx - 1)) v b (omega arith) ∙ frame b outside))

first_dot-Sound :
    (m : Memory) (out : ℕ) (g : Gen)
    → bit_and g.bh 2 ≡ 0
    → Sound m out g
    → Sound m out (first_dot g)
unfolding first_dot
first_dot-Sound m out g no_dot sound =
    let whole = sound.no_dot no_dot in
    let (small, set) = dot_flags g.bh sound.flags in
    elim (Bool-cases (g.bl == 8)) [
      | inl e ↦ rw e (lossy-Sound m out g sound)
      | inr e ↦ rw e (record {
        room = omega arith;
        field = omega arith;
        flags = small;
        no_dot = λ z. absurd (omega arith);
        dotted = λ z. (omega arith, omega arith);
        short = sound.short;
        frame = sound.frame;
      })
    ]

later_dot-Sound :
    (m : Memory) (out : ℕ) (g : Gen)
    → bit_and g.bh 2 ≢ 0
    → Sound m out g
    → Sound m out (later_dot g out)
unfolding later_dot
later_dot-Sound m out g dot sound =
    let (in_extension, kept) = sound.dotted dot in
    let room = sound.room in
    let sum : sub_u32 (g.saved + g.edi) 8 ≡ g.saved + (g.edi - 8) = omega arith in
    rw sum (
      let ebx = if leb 8 (g.saved + (g.edi - 8)) then 8 else g.saved + (g.edi - 8) in
      let enough : g.edi - 8 ≤ ebx = ground arith in
      let small : ebx ≤ 8 = ground arith in
      let (short, frame) =
        rewind-Sound (g.edi - 8) g.mem m out ebx (omega arith) enough small sound.short
          sound.frame in
      record {
        room = omega arith;
        field = omega arith;
        flags = omega arith;
        no_dot = λ z. absurd (omega (arith, bit_and_bit 1 3));
        dotted = λ z. (omega arith, small);
        short = short;
        frame = frame;
      })

keep-Sound :
    (al : ℕ) (m : Memory) (out : ℕ) (g : Gen)
    → al < 128
    → fat_short_char_ok al ≡ true
    → al ≢ b'.'
    → Sound m out g
    → Sound m out (keep al g out)
unfolding keep
keep-Sound al m out g ascii ok no_dot sound =
    let room = sound.room in
    let field = sound.field in
    elim (eq_cases g.bl 0) [
      | inl z ↦
          (let below : (g.bl + 255) % 256 ≡ 255 = omega arith in
            let back : u8 (255 + 1) ≡ g.bl = omega arith in
            rw (below, back) (lossy-Sound m out g sound))
      | inr p ↦
          (let below : (g.bl + 255) % 256 ≡ g.bl - 1 = omega arith in
            let free : (ltb (g.bl - 1) 128 ≡ true) = ground arith in
            rw (below, free)
              (record {
                room = omega arith;
                field = omega arith;
                flags = sound.flags;
                no_dot = λ e. omega (arith, sound.no_dot e);
                dotted = λ e. (let (le, kept) = sound.dotted e in (omega arith, kept));
                short =
                    store_u8-IsShort g.mem out g.edi (cp866_to_upper al) sound.short
                      (cp866_to_upper-IsShort al ascii ok no_dot);
                frame = λ b outside.
                    store_u8_other g.mem (out + g.edi) (cp866_to_upper al) b (omega arith)
                    ∙ sound.frame b outside;
              }))
    ]

pub gen_step-Sound :
    (al : ℕ) (m : Memory) (out : ℕ) (g : Gen) → Sound m out g → Sound m out (gen_step al g out)
unfolding gen_step
gen_step-Sound al m out g sound = elim (Bool-cases (leb 128 al)) [
  | inl high ↦ rw high (lossy-Sound m out g sound)
  | inr ascii ↦ elim (Bool-cases (fat_short_char_ok al)) [
    | inr bad ↦ rw (ascii, bad) (lossy-Sound m out g sound)
    | inl ok ↦ elim (eq_cases al b'.') [
      | inr other ↦
          (let no_dot : ((al == b'.') ≡ false) = ground arith in
            rw (ascii, ok, no_dot) (keep-Sound al m out g (ground arith) ok other sound))
      | inl dot ↦
          (let is_dot : ((al == b'.') ≡ true) = ground arith in
            elim (eq_cases (bit_and g.bh 2) 0) [
              | inl none_yet ↦
                  rw (ascii, ok, is_dot, none_yet) (first_dot-Sound m out g none_yet sound)
              | inr seen ↦
                  (let not_first : ((bit_and g.bh 2 == 0) ≡ false) = ground arith in
                    rw (ascii, ok, is_dot, not_first) (later_dot-Sound m out g seen sound))
            ])
    ]
  ]
]
