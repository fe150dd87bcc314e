-- ===== src/Coff/Link.antt =====
-- What `fix_coff_symbols` writes to one symbol, and what it leaves for the others.
pub mod Loop
pub mod Table
use kolibri_os_reloaded.Base.{
  ℕ, zero, suc, ◌+◌, ◌-◌, ◌*◌, ◌/◌, ◌%◌, ◌^◌, ◌≤◌, ◌<◌, bit_and, bit_or, ◌≡◌, ◌≢◌, ◌↔◌, ◌⊎◌, inl,
  inr, refl, ap, sym, ◌∙◌, arith, Option, none, some, Bool, true, false, not, ◌&&◌, ◌||◌, ltb, leb,
  ◌==◌, lt→ltb, ltb-false, ltb→lt, Bool-cases, eq_cases, if◌then◌else◌, u8, u16, u32, sub_u32,
  lt_i32, le_i32, biased_i32, ◌<<<◌, ◌>>>◌, ◌>>=◌, List, [], ◌∷◌,
}
use native.Mathlib.Decide.{dec_lt, dec_le}
use native.Mathlib.Nat.{pow-suc}
use kolibri_os_reloaded.Base.Bits.{bit_not}
use kolibri_os_reloaded.Base.Memory.{
  Memory, IsBytes, load_u32, store_u32, store_u8, store_u32_frame, store_u32-IsBytes, first_cell,
  next_cell, store_u8_same, store_u8_other, store_u8-IsBytes, load_u16, store_u16, load_u16-lt,
  load_u32-lt,
}
use kolibri_os_reloaded.Base.Fields.{
  bit_and_mask, bit_or_fields, bit_or_split, bit_or-zero, bit_or_above, bit_and_split, bit_and-zero,
  bit_and_bit, with_low,
}
use kolibri_os_reloaded.Base.Memory.{load_u32-store_u32, load_u32-store_u32_ne}
use kolibri_os_reloaded.Coff.{
  section_ptr, name_ptr, linked, write_value, unresolved, fix_symbols, fix_coff_symbols,
}

-- The value of a symbol after the call.
abbrev pub value_after : Option ℕ → ℕ → ℕ
value_after none before = before
value_after (some v) before = v

-- The number of a section, neither of an import nor of an absolute or a debugging symbol.
abbrev HasSection : ℕ → Type 0
HasSection section = (section ≢ 0) × (section ≢ 0xffff) × (section ≢ 0xfffe)

-- The section headers that the symbols name lie outside the symbol table.
abbrev pub SectionsApart : Memory → ℕ → ℕ → ℕ → Type 0
SectionsApart m sec symbols count =
    (i : ℕ)
    → i < count
    → HasSection (load_u16 m (symbols + 18 * i + 12))
    → let va = section_ptr sec (load_u16 m (symbols + 18 * i + 12)) + 12 in
      (va + 4 ≤ symbols) ⊎ (symbols + 18 * count ≤ va)

-- What the call makes of a symbol table.
pub record Linked (get_proc_ex : ℕ → ℕ → ℕ) (m m' : Memory) (sec symbols count strings imports : ℕ)
    : Type 0 where
  pub values :
      (i : ℕ)
      → i < count
      → load_u32 m' (symbols + 18 * i + 8)
        ≡ value_after
            (linked get_proc_ex m sec (symbols + 18 * i) strings imports)
            (load_u32 m (symbols + 18 * i + 8))
  pub frame : (b : ℕ) → (b < symbols) ⊎ (symbols + 18 * count ≤ b) → m' b ≡ m b

-- Whether all imports were found.
abbrev pub Resolved : (ℕ → ℕ → ℕ) → Memory → ℕ → ℕ → ℕ → ℕ → ℕ → ℕ → ℕ → Type 0
Resolved get_proc_ex m sec symbols count strings imports retval result =
    ((result ≡ retval)
      × ((i : ℕ)
          → i < count
          → unresolved m (symbols + 18 * i)
              (linked get_proc_ex m sec (symbols + 18 * i) strings imports)
            ≡ false))
    ⊎ ((result ≡ 0)
        × ((k : ℕ) × (k < count)
            × (unresolved m (symbols + 18 * k)
                  (linked get_proc_ex m sec (symbols + 18 * k) strings imports)
                ≡ true)))

pub write_value_frame :
    (m : Memory) (sym : ℕ) (value : Option ℕ) (b : ℕ)
    → (b < sym + 8) ⊎ (sym + 12 ≤ b)
    → write_value m sym value b ≡ m b
unfolding write_value
write_value_frame m sym none b out = refl
write_value_frame m sym (some v) b out = store_u32_frame m (sym + 8) v b (omega arith)

pub load_u32-write_value :
    (m : Memory) (sym : ℕ) (value : Option ℕ) (b : ℕ)
    → (b + 4 ≤ sym + 8) ⊎ (sym + 12 ≤ b)
    → load_u32 (write_value m sym value) b ≡ load_u32 m b
unfolding write_value
load_u32-write_value m sym none b out = refl
load_u32-write_value m sym (some v) b out = load_u32-store_u32_ne m (sym + 8) v b (omega arith)

pub load_u16-write_value :
    (m : Memory) (sym : ℕ) (value : Option ℕ) (b : ℕ)
    → (b + 2 ≤ sym + 8) ⊎ (sym + 12 ≤ b)
    → load_u16 (write_value m sym value) b ≡ load_u16 m b
unfolding load_u16
load_u16-write_value m sym value b out = omega (
  arith,
  write_value_frame m sym value b (omega arith),
  write_value_frame m sym value (b + 1) (omega arith),
)

-- The write to one symbol leaves what is linked for a later one.
pub linked-write_value :
    (get_proc_ex : ℕ → ℕ → ℕ) (m : Memory) (sym : ℕ) (value : Option ℕ)
    (sec later strings imports : ℕ)
    → sym + 18 ≤ later
    → (HasSection (load_u16 m (later + 12))
        → let va = section_ptr sec (load_u16 m (later + 12)) + 12 in (va + 4 ≤ sym) ⊎ (later ≤ va))
    → linked get_proc_ex (write_value m sym value) sec later strings imports
      ≡ linked get_proc_ex m sec later strings imports
unfolding linked name_ptr
linked-write_value get_proc_ex m sym value sec later strings imports behind apart =
    let section = load_u16 m (later + 12) in
    let same = load_u16-write_value m sym value (later + 12) (inr (omega arith)) in
    elim (Bool-cases (section == 0)) [
      | inl import ↦
          rw
            (
              same,
              import,
              load_u32-write_value m sym value later (inr (omega arith)),
              load_u32-write_value m sym value (later + 4) (inr (omega arith)),
            )
            refl
      | inr e ↦ elim (Bool-cases (not (section == 0xffff) && not (section == 0xfffe))) [
        | inr fixed ↦ rw (same, e, fixed) refl
        | inl given ↦
            rw
              (
                same,
                e,
                given,
                load_u32-write_value m sym value (section_ptr sec section + 12)
                    (omega (arith, apart (ground arith, ground arith, ground arith))),
                load_u32-write_value m sym value (later + 8) (inr (omega arith)),
              )
              refl
      ]
    ]

pub unresolved-write_value :
    (m : Memory) (sym : ℕ) (value : Option ℕ) (later : ℕ) (value' : Option ℕ)
    → sym + 18 ≤ later
    → unresolved (write_value m sym value) later value' ≡ unresolved m later value'
unfolding unresolved
unresolved-write_value m sym value later none behind = refl
unresolved-write_value m sym value later (some v) behind =
    rw (load_u16-write_value m sym value (later + 12) (inr (omega arith))) refl
