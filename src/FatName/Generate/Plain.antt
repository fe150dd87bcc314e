-- ===== src/FatName/Generate/Plain.antt =====
-- The short name of a long name that fits: a base of one to eight characters, a dot and up to three
-- more characters, all of them characters of a short name.
use kolibri_os_reloaded.Base.{
  ℕ, zero, suc, ◌+◌, ◌-◌, ◌^◌, ◌≤◌, ◌<◌, bit_and, ◌≡◌, ◌⊎◌, refl, sym, ◌∙◌, arith, some, true,
  false, ltb, leb, ◌==◌, if◌then◌else◌, ◌%◌, ◌&&◌,
}
use kolibri_os_reloaded.Base.Memory.{
  Memory, store_u8, first_cell, next_cell, store_u8_same, store_u8_other,
}
use kolibri_os_reloaded.FatName.{cp866_to_upper}
use kolibri_os_reloaded.FatName.Legal.{fat_short_char_ok}
use kolibri_os_reloaded.FatName.Generate.{
  Gen, first_dot, keep, gen_step, gen_loop, gen_start, fat_gen_short_name,
}
use kolibri_os_reloaded.FatName.Generate.Outcome.{filled, numbered_exact}

-- A letter, a digit or one of the signs of a short name, but no dot.
abbrev IsPlain : ℕ → Type 0
IsPlain c =
    ((b'A' ≤ c) × (c ≤ b'Z'))
    ⊎ ((b'a' ≤ c) × (c ≤ b'z'))
    ⊎ ((b'0' ≤ c) × (c ≤ b'9'))
    ⊎ (c ≡ b'!')
    ⊎ ((b'#' ≤ c) × (c ≤ b')'))
    ⊎ (c ≡ b'-')
    ⊎ (c ≡ b'@')
    ⊎ (c ≡ b'^')
    ⊎ (c ≡ b'_')
    ⊎ (c ≡ b'`')
    ⊎ (c ≡ b'{')
    ⊎ (c ≡ b'}')
    ⊎ (c ≡ b'~')

-- The capital letter of a small one.
abbrev capital : ℕ → ℕ
capital c = if leb b'a' c && leb c b'z' then c - 32 else c

IsPlain-fat_short_char_ok : (c : ℕ) → IsPlain c → fat_short_char_ok c ≡ true
unfolding fat_short_char_ok
IsPlain-fat_short_char_ok c plain = ground arith

cp866_to_upper-capital : (c : ℕ) → c < 128 → cp866_to_upper c ≡ capital c
unfolding cp866_to_upper
cp866_to_upper-capital c ascii = ground arith

-- The registers after one plain character.
abbrev stored : ℕ → Gen → ℕ → Gen
stored al g out = record g {
  bl = g.bl - 1;
  mem = store_u8 g.mem (out + g.edi) (capital al);
  edi = g.edi + 1;
}

gen_step_plain :
    (al : ℕ) (g : Gen) (out : ℕ)
    → IsPlain al
    → 0 < g.bl
    → g.bl ≤ 8
    → gen_step al g out ≡ stored al g out
unfolding gen_step keep
gen_step_plain al g out plain some_room few =
    let ascii : leb 128 al ≡ false = ground arith in
    let ok = IsPlain-fat_short_char_ok al plain in
    let no_dot : ((al == b'.') ≡ false) = ground arith in
    let less : (g.bl + 255) % 256 ≡ g.bl - 1 = omega arith in
    let small : ltb (g.bl - 1) 128 ≡ true = ground arith in
    rw (ascii, ok, no_dot, less, small, cp866_to_upper-capital al (omega arith)) refl

-- The registers after `n` plain characters from `src` on.
unfoldable after : ℕ → Gen → ℕ → ℕ → Gen
after zero g src out = g
after (suc n) g src out = after n (stored (g.mem src) g out) (src + 1) out

after_registers :
    (n : ℕ) (g : Gen) (src out : ℕ)
    → ((after n g src out).edi ≡ g.edi + n)
      × ((after n g src out).bl ≡ g.bl - n)
      × ((after n g src out).bh ≡ g.bh)
unfolding after
after_registers zero g src out = (omega arith, omega arith, refl)
after_registers (suc n) g src out =
    let rest = after_registers n (stored (g.mem src) g out) (src + 1) out in
    (omega (arith, rest), omega (arith, rest), rest.2)

-- It writes `n` cells, and what it writes are the capitals of what it reads.
after_kept :
    (n : ℕ) (g : Gen) (src out b : ℕ)
    → (b < out + g.edi) ⊎ (out + g.edi + n ≤ b)
    → (after n g src out).mem b ≡ g.mem b
unfolding after
after_kept zero g src out b outside = refl
after_kept (suc n) g src out b outside =
    after_kept n (stored (g.mem src) g out) (src + 1) out b (omega arith)
    ∙ store_u8_other g.mem (out + g.edi) (capital (g.mem src)) b (omega arith)

after_written :
    (n : ℕ) (g : Gen) (src out : ℕ)
    → (src + n ≤ out + g.edi) ⊎ (out + g.edi + n ≤ src)
    → (j : ℕ) → j < n
    → (after n g src out).mem (out + g.edi + j) ≡ capital (g.mem (src + j))
unfolding after
after_written zero g src out apart j less = absurd (omega arith)
after_written (suc n) g src out apart zero less =
    let here : out + g.edi + 0 ≡ out + g.edi = omega arith in
    let v = capital (g.mem src) in
    rw (here, first_cell src)
      (after_kept n (stored (g.mem src) g out) (src + 1) out (out + g.edi) (omega arith)
        ∙ store_u8_same g.mem (out + g.edi) v)
after_written (suc n) g src out apart (suc j) less =
    let v = capital (g.mem src) in
    let there : out + g.edi + suc j ≡ out + (g.edi + 1) + j = omega arith in
    let read = store_u8_other g.mem (out + g.edi) v (src + 1 + j) (omega arith) in
    let rest =
      after_written n (stored (g.mem src) g out) (src + 1) out (omega arith) j (omega arith) in
    rw (there, next_cell src j) (rest ∙ rw read refl)

-- The loop over plain characters, at a dot and at the NUL.
run_plain :
    (n fuel : ℕ) (g : Gen) (src out : ℕ)
    → ((i : ℕ) → i < n → IsPlain (g.mem (src + i)))
    → (src + n ≤ out) ⊎ (out + 11 ≤ src)
    → g.edi + g.bl ≤ 11
    → n ≤ g.bl
    → g.bl ≤ 8
    → gen_loop (n + fuel) src g out ≡ gen_loop fuel (src + n) (after n g src out) out
unfolding gen_loop after
run_plain zero fuel g src out plain apart inside room few =
    let here : src + 0 ≡ src = omega arith in
    let none_left : 0 + fuel ≡ fuel = omega arith in rw (here, none_left) refl
run_plain (suc n) fuel g src out plain apart inside room few =
    let more : suc n + fuel ≡ suc (n + fuel) = omega arith in
    let first = rw (first_cell src) at (plain 0 (omega arith)) in
    let no_nul : ((g.mem src == 0) ≡ false) = ground arith in
    let behind : src + suc n ≡ src + 1 + n = omega arith in
    rw (more, no_nul, gen_step_plain (g.mem src) g out first (omega arith) few, behind)
      (run_plain n fuel (stored (g.mem src) g out) (src + 1) out
        (λ i less.
          rw
            (
              store_u8_other g.mem (out + g.edi) (capital (g.mem src)) (src + 1 + i) (omega arith),
              sym (next_cell src i),
            )
            (plain (suc i) (omega arith)))
        (omega arith) (omega arith) (omega arith) (omega arith))

-- The registers after the dot.
abbrev dotted : Gen → Gen
dotted g = record g { saved = g.edi; bh = 2; edi = 8; bl = 3 }

run_dot :
    (fuel : ℕ) (g : Gen) (src out : ℕ)
    → g.mem src ≡ b'.'
    → g.bh ≡ 0
    → g.bl < 8
    → gen_loop (suc fuel) src g out ≡ gen_loop fuel (src + 1) (dotted g) out
unfolding gen_loop gen_step first_dot fat_short_char_ok
run_dot fuel g src out dot no_flag some_base =
    let not_full : ((g.bl == 8) ≡ false) = ground arith in rw (dot, no_flag, not_full) refl

run_end :
    (fuel : ℕ) (g : Gen) (src out : ℕ) → g.mem src ≡ 0 → gen_loop (suc fuel) src g out ≡ some g
unfolding gen_loop
run_end fuel g src out nul = rw nul refl

-- The long name: `p` characters, a dot, `e` characters and a NUL.
pub record IsPlainName (m : Memory) (src p e : ℕ) : Type 0 where
  pub some_base : 1 ≤ p
  pub base_fits : p ≤ 8
  pub ext_fits : e ≤ 3
  pub base : (i : ℕ) → i < p → IsPlain (m (src + i))
  pub dot : m (src + p) ≡ b'.'
  pub ext : (i : ℕ) → i < e → IsPlain (m (src + p + 1 + i))
  pub nul : m (src + p + 1 + e) ≡ 0

-- The registers after the base name, and at the end.
abbrev base_of : Gen → ℕ → ℕ → ℕ → Gen
base_of g src out p = after p g src out

abbrev name_of : Gen → ℕ → ℕ → ℕ → ℕ → Gen
name_of g src out p e = after e (dotted (base_of g src out p)) (src + p + 1) out

module _ (m : Memory) (src out p e : ℕ) (name : IsPlainName m src p e)
    (apart : (src + p + 1 + e < out) ⊎ (out + 12 ≤ src)) where
  abbrev start : Gen
  start = gen_start m out

  read : (a : ℕ) → src ≤ a → a ≤ src + p + 1 + e → start.mem a ≡ m a
  read a lo hi = ground (arith, filled 12 0 m out a)

  read_behind : (a : ℕ) → src + p ≤ a → a ≤ src + p + 1 + e → (base_of start src out p).mem a ≡ m a
  read_behind a lo hi =
      after_kept p start src out a (omega (arith, name.base_fits)) ∙ read a (omega arith) hi

  read_end : (name_of start src out p e).mem (src + p + 1 + e) ≡ 0
  read_end =
      after_kept e (dotted (base_of start src out p)) (src + p + 1) out (src + p + 1 + e)
        (omega (arith, name.ext_fits))
      ∙ (read_behind (src + p + 1 + e) (omega arith) (omega arith) ∙ name.nul)

  whole_loop :
      (fuel rest : ℕ)
      → fuel ≡ p + suc (e + suc rest)
      → gen_loop fuel src start out ≡ some (name_of start src out p e)
  whole_loop fuel rest enough =
      let (edi, bl, bh) = after_registers p start src out in
      rw enough (
        run_plain p (suc (e + suc rest)) start src out
          (λ i less. rw (read (src + i) (omega arith) (omega arith)) (name.base i less))
          (omega arith) (omega arith) (omega (arith, name.base_fits)) (omega arith)
        ∙ (run_dot (e + suc rest) (base_of start src out p) (src + p) out
              (read_behind (src + p) (omega arith) (omega arith) ∙ name.dot) bh
              (omega (arith, bl, name.some_base))
            ∙ (run_plain e (suc rest) (dotted (base_of start src out p)) (src + p + 1) out
                  (λ i less.
                    rw (read_behind (src + p + 1 + i) (omega arith) (omega arith))
                      (name.ext i less))
                  (omega arith) (omega arith) (omega (arith, name.ext_fits)) (omega arith)
                ∙ run_end rest (name_of start src out p e) (src + p + 1 + e) out read_end)))

  written_base : (i : ℕ) → i < p → (name_of start src out p e).mem (out + i) ≡ capital (m (src + i))
  written_base i less =
      let here : out + 0 + i ≡ out + i = omega arith in
      after_kept e (dotted (base_of start src out p)) (src + p + 1) out (out + i)
        (omega (arith, name.base_fits))
      ∙ rw (here, read (src + i) (omega arith) (omega arith)) at
          (after_written p start src out (omega (arith, name.base_fits)) i less)

  space_after_base : (i : ℕ) → p ≤ i → i < 8 → (name_of start src out p e).mem (out + i) ≡ b' '
  space_after_base i lo hi =
      after_kept e (dotted (base_of start src out p)) (src + p + 1) out (out + i) (omega arith)
      ∙ (after_kept p start src out (out + i) (omega arith)
          ∙ ground (arith, filled 12 0 m out (out + i)))

  written_ext :
      (i : ℕ)
      → i < e
      → (name_of start src out p e).mem (out + 8 + i) ≡ capital (m (src + p + 1 + i))
  written_ext i less = rw (read_behind (src + p + 1 + i) (omega arith) (omega arith)) at (
      after_written e (dotted (base_of start src out p)) (src + p + 1) out
        (omega (arith, name.ext_fits)) i less)

  space_after_ext : (i : ℕ) → e ≤ i → i < 4 → (name_of start src out p e).mem (out + 8 + i) ≡ b' '
  space_after_ext i lo hi =
      after_kept e (dotted (base_of start src out p)) (src + p + 1) out (out + 8 + i) (omega arith)
      ∙ (after_kept p start src out (out + 8 + i) (omega (arith, name.base_fits))
          ∙ ground (arith, filled 12 0 m out (out + 8 + i)))

  other_cells : (b : ℕ) → (b < out) ⊎ (out + 12 ≤ b) → (name_of start src out p e).mem b ≡ m b
  other_cells b outside =
      after_kept e (dotted (base_of start src out p)) (src + p + 1) out b
        (omega (arith, name.ext_fits))
      ∙ (after_kept p start src out b (omega (arith, name.base_fits))
          ∙ ground (arith, filled 12 0 m out b))

-- The cells of the short name: the capitals of the base name, spaces up to the eighth cell, the
-- capitals of the extension, and spaces up to the twelfth cell.
pub record IsShortNameOf (m : Memory) (src out p e : ℕ) (m' : Memory) : Type 0 where
  pub base_cells : (i : ℕ) → i < p → m' (out + i) ≡ capital (m (src + i))
  pub base_spaces : (i : ℕ) → p ≤ i → i < 8 → m' (out + i) ≡ b' '
  pub ext_cells : (i : ℕ) → i < e → m' (out + 8 + i) ≡ capital (m (src + p + 1 + i))
  pub ext_spaces : (i : ℕ) → e ≤ i → i < 4 → m' (out + 8 + i) ≡ b' '
  pub other_cells : (b : ℕ) → (b < out) ⊎ (out + 12 ≤ b) → m' b ≡ m b

-- For a long name of one to eight characters, a dot, up to three characters and a NUL, in which every
-- character is a letter, a digit or one of the signs of a short name, and which the twelve cells at
-- `out` do not overlap: the short name is the base name and the extension in capitals, each behind
-- its last character filled up with spaces, without a number; the twelfth cell is a space too, and
-- no other cell changes.
pub fat_gen_short_name_plain :
    (m : Memory) (src out p e : ℕ)
    → IsPlainName m src p e
    → (src + p + 1 + e < out) ⊎ (out + 12 ≤ src)
    → (m' : Memory) × (fat_gen_short_name m src out ≡ some m') × IsShortNameOf m src out p e m'
unfolding fat_gen_short_name
fat_gen_short_name_plain m src out p e name apart =
    let g = name_of (gen_start m out) src out p e in
    let rest = 2 ^ 32 - p - e - 2 in
    let result =
      whole_loop m src out p e name apart (2 ^ 32) rest
        (omega (arith, name.base_fits, name.ext_fits)) in
    let exact : bit_and g.bh 1 ≡ 0 =
      let flag =
        (after_registers e (dotted (base_of (gen_start m out) src out p)) (src + p + 1) out).2 in
      rw flag refl in
    (
      g.mem,
      rw result (numbered_exact g out exact),
      record {
        base_cells = written_base m src out p e name apart;
        base_spaces = space_after_base m src out p e name apart;
        ext_cells = written_ext m src out p e name apart;
        ext_spaces = space_after_ext m src out p e name apart;
        other_cells = other_cells m src out p e name apart;
      },
    )
