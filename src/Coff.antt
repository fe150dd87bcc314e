-- ===== src/Coff.antt =====
-- The symbols of a COFF object, in rust_kernel/kolibri_utils/src: fix_coff_symbols.rs, which puts
-- addresses into the symbol table, and get_coff_sym.rs, which looks a symbol up in it. The search of
-- the kernel's exports is a function that is passed in; it is a parameter.
pub mod Link
pub mod Lookup
mod Examples
use kolibri_os_reloaded.Base.{
  ℕ, zero, suc, ◌+◌, ◌-◌, ◌*◌, ◌%◌, ◌^◌, Bool, true, false, not, ◌&&◌, Option, none, some, ◌==◌,
  if◌then◌else◌, u32, sub_u32,
}
use kolibri_os_reloaded.Base.Memory.{Memory, load_u16, load_u32, store_u32}
use kolibri_os_reloaded.Base.Scan.{first_hit}

abbrev coff_section_size : ℕ
coff_section_size = 40

abbrev coff_sym_size : ℕ
coff_sym_size = 18

abbrev coff_sym_name_len : ℕ
coff_sym_name_len = 8

abbrev off_sec_virtual_address : ℕ
off_sec_virtual_address = 12

abbrev off_sym_value : ℕ
off_sym_value = 8

abbrev off_sym_section : ℕ
off_sym_section = 12

unfoldable pub section_ptr : ℕ → ℕ → ℕ
section_ptr sec section_num = sec + sub_u32 section_num 1 * coff_section_size

-- A name of eight bytes stands in the symbol, a longer one in the string table.
unfoldable pub name_ptr : Memory → ℕ → ℕ → ℕ
name_ptr m sym strings = if load_u32 m sym == 0 then strings + load_u32 m (sym + 4) else sym

-- The value that a symbol is given: `none` for a symbol that is left alone.
unfoldable pub linked : (ℕ → ℕ → ℕ) → Memory → ℕ → ℕ → ℕ → ℕ → Option ℕ
unfolding section_ptr name_ptr
linked get_proc_ex m sec sym strings imports =
    let section = load_u16 m (sym + off_sym_section) in
    let va = load_u32 m (section_ptr sec section + off_sec_virtual_address) in
    if section == 0
    then some (get_proc_ex (name_ptr m sym strings) imports)
    else if not (section == 0xffff) && not (section == 0xfffe)
    then some (u32 (load_u32 m (sym + off_sym_value) + va))
    else none

unfoldable pub write_value : Memory → ℕ → Option ℕ → Memory
write_value m sym none = m
write_value m sym (some v) = store_u32 m (sym + off_sym_value) v

-- An import that is not found.
unfoldable pub unresolved : Memory → ℕ → Option ℕ → Bool
unresolved m sym none = false
unresolved m sym (some v) = load_u16 m (sym + off_sym_section) == 0 && v == 0

-- The loop, on the number of symbols that are left; the result is 1 when all imports are found.
unfoldable pub fix_symbols : (ℕ → ℕ → ℕ) → ℕ → Memory → ℕ → ℕ → ℕ → ℕ → ℕ → Memory × ℕ
unfolding linked write_value unresolved
fix_symbols get_proc_ex zero m sec symbols strings imports retval = (m, retval)
fix_symbols get_proc_ex (suc sym_count) m sec symbols strings imports retval =
    let value = linked get_proc_ex m sec symbols strings imports in
    let retval' = if unresolved m symbols value then 0 else retval in
    fix_symbols get_proc_ex sym_count (write_value m symbols value) sec (symbols + coff_sym_size)
      strings imports retval'

unfoldable pub fix_coff_symbols : (ℕ → ℕ → ℕ) → Memory → ℕ → ℕ → ℕ → ℕ → ℕ → Memory × ℕ
unfolding fix_symbols
fix_coff_symbols get_proc_ex m sec symbols sym_count strings imports =
    fix_symbols get_proc_ex sym_count m sec symbols strings imports 1

-- Two names, with the bytes that are left to compare as the first argument.
unfoldable pub name_eq_n_ptr : ℕ → Memory → ℕ → ℕ → Bool
name_eq_n_ptr zero m a b = true
name_eq_n_ptr (suc left) m a b =
    let rest = name_eq_n_ptr left m (a + 1) (b + 1) in
    if not (m a == m b) then false else if m a == 0 then true else rest

unfoldable pub value_of : Memory → Option ℕ → ℕ
value_of m none = 0
value_of m (some sym) = load_u32 m (sym + off_sym_value)

-- The counter is tested after it was taken down, so that 0 stands for 2^32.
unfoldable pub get_coff_sym : Memory → ℕ → ℕ → ℕ → ℕ
unfolding value_of name_eq_n_ptr
get_coff_sym m p_sym count sz_sym = value_of m (
    first_hit (λ sym. name_eq_n_ptr coff_sym_name_len m sym sz_sym) coff_sym_size
      (sub_u32 count 1 + 1) p_sym)
