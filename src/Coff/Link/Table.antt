-- ===== src/Coff/Link/Table.antt =====
-- What `fix_coff_symbols` makes of a symbol table, in the terms of the file format: section 0 is an
-- import, sections 0xffff and 0xfffe stand for absolute and debugging symbols, and section `n` has
-- the header number `n - 1`, of 40 bytes, with its address at byte 12.
use kolibri_os_reloaded.Base.{
  ℕ, ◌+◌, ◌-◌, ◌*◌, ◌%◌, ◌^◌, ◌≤◌, ◌<◌, ◌≡◌, ◌≢◌, ◌⊎◌, ◌↔◌, Option, inl, inr, refl, arith, some,
  none, true, false, ◌==◌, eq_cases,
}
use kolibri_os_reloaded.Base.Memory.{Memory, IsBytes, load_u16, load_u32, load_u16-lt}
use kolibri_os_reloaded.Coff.{section_ptr, name_ptr, linked, unresolved, fix_coff_symbols}
use kolibri_os_reloaded.Coff.Link.{SectionsApart, value_after}
use kolibri_os_reloaded.Coff.Link.Loop.{fix_coff_symbols-Linked}

-- The section number of symbol `i`.
abbrev section_of : Memory → ℕ → ℕ → ℕ
section_of m symbols i = load_u16 m (symbols + 18 * i + 12)

abbrev IsImport : Memory → ℕ → ℕ → Type 0
IsImport m symbols i = section_of m symbols i ≡ 0

abbrev IsFixed : Memory → ℕ → ℕ → Type 0
IsFixed m symbols i = (section_of m symbols i ≡ 0xffff) ⊎ (section_of m symbols i ≡ 0xfffe)

-- The header of the section of symbol `i`.
abbrev header_of : Memory → ℕ → ℕ → ℕ → ℕ
header_of m sec symbols i = sec + 40 * (section_of m symbols i - 1)

-- Where the name of symbol `i` stands: a symbol that begins with four zero bytes has the offset of
-- the name in the table of strings behind them, any other begins with the name.
abbrev IsName : Memory → ℕ → ℕ → ℕ → ℕ → Type 0
IsName m symbols strings i name =
    ((load_u32 m (symbols + 18 * i) ≡ 0) × (name ≡ strings + load_u32 m (symbols + 18 * i + 4)))
    ⊎ ((load_u32 m (symbols + 18 * i) ≢ 0) × (name ≡ symbols + 18 * i))

-- The value that symbol `i` has after the call.
abbrev IsValueOf : (ℕ → ℕ → ℕ) → Memory → ℕ → ℕ → ℕ → ℕ → ℕ → ℕ → Type 0
IsValueOf get_proc_ex m sec symbols strings imports i value =
    (IsImport m symbols i
      × ((name : ℕ) × IsName m symbols strings i name × (value ≡ get_proc_ex name imports)))
    ⊎ (IsFixed m symbols i × (value ≡ load_u32 m (symbols + 18 * i + 8)))
    ⊎ ((section_of m symbols i ≢ 0)
        × ¬ IsFixed m symbols i
        × (value
            ≡ (load_u32 m (symbols + 18 * i + 8) + load_u32 m (header_of m sec symbols i + 12))
              % 2 ^ 32))

-- An import that the search does not find.
abbrev IsMissing : (ℕ → ℕ → ℕ) → Memory → ℕ → ℕ → ℕ → ℕ → Type 0
IsMissing get_proc_ex m symbols strings imports i =
    IsImport m symbols i
    × ((name : ℕ) × IsName m symbols strings i name × (get_proc_ex name imports ≡ 0))

-- The addresses in the headers of the sections lie outside the symbol table.
abbrev pub HeadersApart : Memory → ℕ → ℕ → ℕ → Type 0
HeadersApart m sec symbols count =
    (i : ℕ)
    → i < count
    → section_of m symbols i ≢ 0
    → ¬ IsFixed m symbols i
    → (header_of m sec symbols i + 16 ≤ symbols)
      ⊎ (symbols + 18 * count ≤ header_of m sec symbols i + 12)

name_ptr-IsName :
    (m : Memory) (symbols strings i : ℕ)
    → IsName m symbols strings i (name_ptr m (symbols + 18 * i) strings)
unfolding name_ptr
name_ptr-IsName m symbols strings i = ground arith

section_ptr-header_of :
    (m : Memory) (sec symbols i : ℕ)
    → IsBytes m
    → section_of m symbols i ≢ 0
    → section_ptr sec (section_of m symbols i) ≡ header_of m sec symbols i
unfolding section_ptr
section_ptr-header_of m sec symbols i bytes some_section =
    let small = load_u16-lt m (symbols + 18 * i + 12) bytes in omega arith

HeadersApart-SectionsApart :
    (m : Memory) (sec symbols count : ℕ)
    → IsBytes m
    → HeadersApart m sec symbols count
    → SectionsApart m sec symbols count
HeadersApart-SectionsApart m sec symbols count bytes apart i less (nz, absolute, debug) =
    rw (section_ptr-header_of m sec symbols i bytes nz)
      (omega (arith, apart i less nz (λ fixed. omega (arith, fixed, absolute, debug))))

module _ (get_proc_ex : ℕ → ℕ → ℕ) (m : Memory) (sec symbols strings imports : ℕ) (i : ℕ) where
  linked-IsValueOf :
      IsBytes m
      → IsValueOf get_proc_ex m sec symbols strings imports i (
          value_after
            (linked get_proc_ex m sec (symbols + 18 * i) strings imports)
            (load_u32 m (symbols + 18 * i + 8)))
  unfolding linked
  linked-IsValueOf bytes = elim (eq_cases (section_of m symbols i) 0) [
    | inl import ↦ rw import (
        inl (
          refl,
          (name_ptr m (symbols + 18 * i) strings, name_ptr-IsName m symbols strings i, refl),
        ))
    | inr nz ↦
        (let some_section : ((section_of m symbols i == 0) ≡ false) = ground arith in
          elim (eq_cases (section_of m symbols i) 0xffff) [
            | inl absolute ↦ rw absolute (inr (inl (inl refl, refl)))
            | inr not_absolute ↦ elim (eq_cases (section_of m symbols i) 0xfffe) [
              | inl debug ↦ rw debug (inr (inl (inr refl, refl)))
              | inr not_debug ↦
                  (let a : ((section_of m symbols i == 0xffff) ≡ false) = ground arith in
                    let d : ((section_of m symbols i == 0xfffe) ≡ false) = ground arith in
                    rw (some_section, a, d, section_ptr-header_of m sec symbols i bytes nz)
                      (inr
                        (inr (nz, λ fixed. omega (arith, fixed, not_absolute, not_debug), refl))))
            ]
          ])
  ]

  IsName-name_ptr :
      (name : ℕ) → IsName m symbols strings i name → name_ptr m (symbols + 18 * i) strings ≡ name
  unfolding name_ptr
  IsName-name_ptr name is = ground arith

  import-IsMissing :
      section_of m symbols i ≡ 0
      → (unresolved m
            (symbols + 18 * i)
            (linked get_proc_ex m sec (symbols + 18 * i) strings imports)
          ≡ true)
        ↔ IsMissing get_proc_ex m symbols strings imports i
  unfolding unresolved linked
  import-IsMissing import = rw import (
    λ e. (
      refl,
      (name_ptr m (symbols + 18 * i) strings, name_ptr-IsName m symbols strings i, ground arith),
    ),
    λ missing.
        (let (_, (name, is, none_found)) = missing in
          rw (IsName-name_ptr name is, none_found) (ground (arith, import))),
  )

  other_is_found :
      section_of m symbols i ≢ 0
      → unresolved m
          (symbols + 18 * i)
          (linked get_proc_ex m sec (symbols + 18 * i) strings imports)
        ≡ false
  unfolding unresolved
  other_is_found nz =
      let some_section : ((section_of m symbols i == 0) ≡ false) = ground arith in
      for_value (linked get_proc_ex m sec (symbols + 18 * i) strings imports) some_section
    where
      for_value :
          (value : Option ℕ)
          → (section_of m symbols i == 0) ≡ false
          → unresolved m (symbols + 18 * i) value ≡ false
      for_value none e = refl
      for_value (some v) e = rw e refl

  unresolved-IsMissing :
      (unresolved m (symbols + 18 * i) (linked get_proc_ex m sec (symbols + 18 * i) strings imports)
        ≡ true)
      ↔ IsMissing get_proc_ex m symbols strings imports i
  unresolved-IsMissing = elim (eq_cases (section_of m symbols i) 0) [
    | inl import ↦ import-IsMissing import
    | inr nz ↦
        (λ e. absurd (ground (arith, e, other_is_found nz)), λ missing. absurd (nz missing.0))
  ]

-- After the call: the value of every symbol, the memory outside the table, and the result.
abbrev pub TableOutcome : (ℕ → ℕ → ℕ) → Memory → ℕ → ℕ → ℕ → ℕ → ℕ → Memory → ℕ → Type 0
TableOutcome get_proc_ex m sec symbols count strings imports m' result =
    ((i : ℕ)
      → i < count
      → IsValueOf get_proc_ex m sec symbols strings imports i (load_u32 m' (symbols + 18 * i + 8)))
    × ((b : ℕ) → (b < symbols) ⊎ (symbols + 18 * count ≤ b) → m' b ≡ m b)
    × (((result ≡ 1) × ((i : ℕ) → i < count → ¬ IsMissing get_proc_ex m symbols strings imports i))
        ⊎ ((result ≡ 0)
            × ((k : ℕ) × (k < count) × IsMissing get_proc_ex m symbols strings imports k)))

-- In a memory of bytes, when the addresses in the headers of the sections that the symbols name lie
-- outside the symbol table, and the search of the exports returns words: an import has after the call what the search
-- found for its name, which stands in the symbol or, after four zero bytes, in the table of strings;
-- a symbol of section `n` its value plus the address in header `n - 1`, in 32 bits; and an absolute
-- or a debugging symbol the value it had. Nothing outside the table changes. The result is 1 when
-- the search found every import (returned no 0), and 0 when it missed one.
pub fix_coff_symbols_outcome :
    (get_proc_ex : ℕ → ℕ → ℕ) (m : Memory) (sec symbols sym_count strings imports : ℕ)
    → IsBytes m
    → ((name imports : ℕ) → get_proc_ex name imports < 2 ^ 32)
    → HeadersApart m sec symbols sym_count
    → let (m', result) = fix_coff_symbols get_proc_ex m sec symbols sym_count strings imports in
      TableOutcome get_proc_ex m sec symbols sym_count strings imports m' result
fix_coff_symbols_outcome get_proc_ex m sec symbols sym_count strings imports bytes fits apart =
    let (table, found) =
      fix_coff_symbols-Linked get_proc_ex m sec symbols sym_count strings imports fits
        (HeadersApart-SectionsApart m sec symbols sym_count bytes apart) in
    let missing = unresolved-IsMissing get_proc_ex m sec symbols strings imports in
    (
      λ i less.
          rw (table.values i less)
            (linked-IsValueOf get_proc_ex m sec symbols strings imports i bytes),
      table.frame,
      elim found [
        | inl (same, all) ↦ inl (same, λ i less is. ground (arith, (missing i).1 is, all i less))
        | inr (zero_result, (k, less, bad)) ↦ inr (zero_result, (k, less, (missing k).0 bad))
      ],
    )
