-- ===== src/Coff/Examples.antt =====
-- A table of an import and a symbol of a section, with the theorems there.
use kolibri_os_reloaded.Base.{ℕ, zero, suc, ◌^◌, ◌<◌, ◌≡◌, inl, refl, arith, ◌==◌, if◌then◌else◌}
use kolibri_os_reloaded.Base.Memory.{Memory, IsBytes, load_u16, load_u32, store_u32}
use kolibri_os_reloaded.Coff.{
  fix_coff_symbols, get_coff_sym, fix_symbols, linked, write_value, section_ptr, name_eq_n_ptr,
  value_of,
}
use kolibri_os_reloaded.Base.Scan.{first_hit}
use kolibri_os_reloaded.Coff.Link.Table.{HeadersApart, TableOutcome, fix_coff_symbols_outcome}
use kolibri_os_reloaded.Coff.Lookup.{Found, get_coff_sym-Found}

-- The table at 1000 has the import "A" and the symbol "B" with the value 7 in section 1, whose header
-- at 200 has the address 64. The name "B" is at 500 too.
abbrev object : Memory
object a =
    if a == 1000
    then b'A'
    else if a == 1018
    then b'B'
    else if a == 1026
    then 7
    else if a == 1030
    then 1
    else if a == 212
    then 64
    else if a == 500
    then b'B'
    else 0

-- One export, at 4096.
abbrev exports : ℕ → ℕ → ℕ
exports name imports = 4096

exports_fit : (name imports : ℕ) → exports name imports < 2 ^ 32
exports_fit name imports = omega arith

object-IsBytes : IsBytes object
object-IsBytes a = ground arith

-- The first symbol is an import, the second one is of section 1.
headers_apart : HeadersApart object 200 1000 2
unfolding load_u16
headers_apart zero less some_section not_fixed = absurd (some_section refl)
headers_apart (suc zero) less some_section not_fixed = inl (omega arith)
headers_apart (suc (suc i)) less some_section not_fixed = absurd (omega arith)

fix_coff_symbols_outcome_example :
    let (m', result) = fix_coff_symbols exports object 200 1000 2 0 0 in
    TableOutcome exports object 200 1000 2 0 0 m' result
fix_coff_symbols_outcome_example =
    fix_coff_symbols_outcome exports object 200 1000 2 0 0 object-IsBytes exports_fit headers_apart

symbol_moved : load_u32 (fix_coff_symbols exports object 200 1000 2 0 0).0 1026 ≡ 71
unfolding fix_coff_symbols fix_symbols linked write_value section_ptr load_u16 load_u32 store_u32
symbol_moved = refl

get_coff_sym-Found_example : Found object 1000 2 500 (get_coff_sym object 1000 2 500)
get_coff_sym-Found_example = get_coff_sym-Found object 1000 2 500 (omega arith) (omega arith)

value_found : get_coff_sym object 1000 2 500 ≡ 7
unfolding get_coff_sym first_hit name_eq_n_ptr value_of load_u32
value_found = refl
