-- ===== src/Coff/Link/Loop.antt =====
-- The loop of `fix_coff_symbols` over the symbol table.
use kolibri_os_reloaded.Base.{
  ℕ, zero, suc, ◌+◌, ◌-◌, ◌*◌, ◌^◌, ◌<◌, ◌≡◌, inl, inr, refl, sym, ◌∙◌, arith, Option, none, some,
  Bool, not, ◌&&◌, ◌==◌, Bool-cases, eq_cases, if◌then◌else◌,
}
use kolibri_os_reloaded.Base.Memory.{Memory, load_u32, first_cell, load_u16}
use kolibri_os_reloaded.Base.Memory.{load_u32-store_u32}
use kolibri_os_reloaded.Coff.{linked, write_value, unresolved, fix_symbols, fix_coff_symbols}
use kolibri_os_reloaded.Coff.Link.{
  value_after, SectionsApart, Linked, Resolved, write_value_frame, load_u16-write_value,
  load_u32-write_value, linked-write_value, unresolved-write_value,
}

FitsWord : Option ℕ → Type 0
FitsWord none = Unit
FitsWord (some v) = v < 2 ^ 32

linked-FitsWord :
    (get_proc_ex : ℕ → ℕ → ℕ) (m : Memory) (sec sym strings imports : ℕ)
    → ((name imports : ℕ) → get_proc_ex name imports < 2 ^ 32)
    → FitsWord (linked get_proc_ex m sec sym strings imports)
unfolding linked FitsWord
linked-FitsWord get_proc_ex m sec sym strings imports fits =
    elim (Bool-cases (load_u16 m (sym + 12) == 0)) [
      | inl e ↦ rw e (fits _ imports)
      | inr e ↦
          elim (Bool-cases
            (not (load_u16 m (sym + 12) == 0xffff) && not (load_u16 m (sym + 12) == 0xfffe))) [
              | inl f ↦ rw (e, f) (omega arith)
              | inr f ↦ rw (e, f) tt
            ]
    ]

written_value :
    (m : Memory) (sym : ℕ) (value : Option ℕ)
    → FitsWord value
    → load_u32 (write_value m sym value) (sym + 8) ≡ value_after value (load_u32 m (sym + 8))
unfolding write_value FitsWord
written_value m sym none fits = refl
written_value m sym (some v) fits = load_u32-store_u32 m (sym + 8) v fits

load_u32_same :
    (m m' : Memory) (a : ℕ)
    → ((j : ℕ) → j < 4 → m' (a + j) ≡ m (a + j))
    → load_u32 m' a ≡ load_u32 m a
unfolding load_u32
load_u32_same m m' a same =
    let here = rw (first_cell a) at (same 0 (omega arith)) in
    rw (here, same 1 (omega arith), same 2 (omega arith), same 3 (omega arith)) refl

first_symbol : (s : ℕ) → s + 18 * 0 ≡ s
first_symbol s = omega arith

next_symbol : (s i : ℕ) → s + 18 * suc i ≡ s + 18 + 18 * i
next_symbol s i = omega arith

-- What is linked for the symbols behind the first is not changed by the write to it.
tail_linked :
    (get_proc_ex : ℕ → ℕ → ℕ) (m : Memory) (sec symbols n strings imports : ℕ) (value : Option ℕ)
    → SectionsApart m sec symbols (suc n)
    → (i : ℕ) → i < n
    → linked get_proc_ex (write_value m symbols value) sec (symbols + 18 + 18 * i) strings imports
      ≡ linked get_proc_ex m sec (symbols + 18 + 18 * i) strings imports
tail_linked get_proc_ex m sec symbols n strings imports value apart i less =
    let here = rw (next_symbol symbols i) at (apart (suc i) (omega arith)) in
    linked-write_value get_proc_ex m symbols value sec (symbols + 18 + 18 * i) strings imports
      (omega arith) (λ given. ground (arith, here given))

tail_apart :
    (m : Memory) (sec symbols n : ℕ) (value : Option ℕ)
    → SectionsApart m sec symbols (suc n)
    → SectionsApart (write_value m symbols value) sec (symbols + 18) n
tail_apart m sec symbols n value apart i less =
    let here = rw (next_symbol symbols i) at (apart (suc i) (omega arith)) in
    rw (load_u16-write_value m symbols value (symbols + 18 + 18 * i + 12) (inr (omega arith)))
      (λ given. ground (arith, here given))

extended-Linked :
    (n : ℕ) (get_proc_ex : ℕ → ℕ → ℕ) (m m' : Memory) (sec symbols strings imports : ℕ)
    → ((name imports : ℕ) → get_proc_ex name imports < 2 ^ 32)
    → SectionsApart m sec symbols (suc n)
    → Linked get_proc_ex
        (write_value m symbols (linked get_proc_ex m sec symbols strings imports))
        m'
        sec
        (symbols + 18)
        n
        strings
        imports
    → Linked get_proc_ex m m' sec symbols (suc n) strings imports
extended-Linked n get_proc_ex m m' sec symbols strings imports fits apart rest =
    let value = linked get_proc_ex m sec symbols strings imports in
    let m1 = write_value m symbols value in
    let value_fits = linked-FitsWord get_proc_ex m sec symbols strings imports fits in
    let kept : load_u32 m' (symbols + 8) ≡ load_u32 m1 (symbols + 8) =
      load_u32_same m1 m' (symbols + 8)
        λ j small. rest.frame (symbols + 8 + j) (inl (omega arith)) in
    record {
      values = λ i less. elim (eq_cases i 0) [
        | inl z ↦ rw (z, first_symbol symbols) (kept ∙ written_value m symbols value value_fits)
        | inr p ↦
            (let behind : symbols + 18 * i ≡ symbols + 18 + 18 * (i - 1) = omega arith in
              rw
                (
                  behind,
                  sym (
                      tail_linked get_proc_ex m sec symbols n strings imports value apart (i - 1)
                        (omega arith)),
                  sym (
                      load_u32-write_value m symbols value (symbols + 18 + 18 * (i - 1) + 8)
                        (inr (omega arith))),
                )
                (rest.values (i - 1) (omega arith)))
      ];
      frame =
          λ b out. rest.frame b (omega arith) ∙ write_value_frame m symbols value b (omega arith);
    }

extended-Resolved :
    (n : ℕ) (get_proc_ex : ℕ → ℕ → ℕ) (m : Memory) (sec symbols strings imports retval result : ℕ)
    → SectionsApart m sec symbols (suc n)
    → let value = linked get_proc_ex m sec symbols strings imports in
      Resolved get_proc_ex
        (write_value m symbols value)
        sec
        (symbols + 18)
        n
        strings
        imports
        (if unresolved m symbols value then 0 else retval)
        result
      → Resolved get_proc_ex m sec symbols (suc n) strings imports retval result
extended-Resolved n get_proc_ex m sec symbols strings imports retval result apart rest =
    let value = linked get_proc_ex m sec symbols strings imports in
    let test : ℕ → Bool = λ s. unresolved m s (linked get_proc_ex m sec s strings imports) in
    let moved : (i : ℕ)
        → i < n
        → unresolved (write_value m symbols value) (symbols + 18 + 18 * i) (
            linked get_proc_ex (write_value m symbols value) sec (symbols + 18 + 18 * i) strings
              imports)
          ≡ test (symbols + 18 + 18 * i) =
      λ i less.
        rw (tail_linked get_proc_ex m sec symbols n strings imports value apart i less)
          (unresolved-write_value m symbols value (symbols + 18 + 18 * i) _ (omega arith)) in
    elim rest [
      | inr (zero_result, (k, less, bad)) ↦
          inr (
            zero_result,
            (suc k, omega arith, rw (next_symbol symbols k) (sym (moved k less) ∙ bad)),
          )
      | inl (same, all) ↦ elim (Bool-cases (test symbols)) [
        | inl bad ↦ inr (rw bad at same, (0, omega arith, rw (first_symbol symbols) bad))
        | inr good ↦ inl (
          rw good at same,
          λ i less. elim (eq_cases i 0) [
            | inl z ↦ rw (z, first_symbol symbols) good
            | inr p ↦
                (let behind : symbols + 18 * i ≡ symbols + 18 + 18 * (i - 1) = omega arith in
                  rw behind (sym (moved (i - 1) (omega arith)) ∙ all (i - 1) (omega arith)))
          ],
        )
      ]
    ]

fix_symbols-Linked :
    (count : ℕ) (get_proc_ex : ℕ → ℕ → ℕ) (m : Memory) (sec symbols strings imports retval : ℕ)
    → ((name imports : ℕ) → get_proc_ex name imports < 2 ^ 32)
    → SectionsApart m sec symbols count
    → let (m', result) = fix_symbols get_proc_ex count m sec symbols strings imports retval in
      Linked get_proc_ex m m' sec symbols count strings imports
      × Resolved get_proc_ex m sec symbols count strings imports retval result
unfolding fix_symbols
fix_symbols-Linked zero get_proc_ex m sec symbols strings imports retval fits apart = (
  record { values = λ i less. absurd (omega arith); frame = λ b out. refl },
  inl (refl, λ i less. absurd (omega arith)),
)
fix_symbols-Linked (suc n) get_proc_ex m sec symbols strings imports retval fits apart =
    let value = linked get_proc_ex m sec symbols strings imports in
    let (table, found) =
      fix_symbols-Linked n get_proc_ex (write_value m symbols value) sec (symbols + 18) strings
        imports (if unresolved m symbols value then 0 else retval) fits
        (tail_apart m sec symbols n value apart) in
    (
      extended-Linked n get_proc_ex m _ sec symbols strings imports fits apart table,
      extended-Resolved n get_proc_ex m sec symbols strings imports retval _ apart found,
    )

-- The call on a symbol table, in the terms of the code.
pub fix_coff_symbols-Linked :
    (get_proc_ex : ℕ → ℕ → ℕ) (m : Memory) (sec symbols sym_count strings imports : ℕ)
    → ((name imports : ℕ) → get_proc_ex name imports < 2 ^ 32)
    → SectionsApart m sec symbols sym_count
    → let (m', result) = fix_coff_symbols get_proc_ex m sec symbols sym_count strings imports in
      Linked get_proc_ex m m' sec symbols sym_count strings imports
      × Resolved get_proc_ex m sec symbols sym_count strings imports 1 result
unfolding fix_coff_symbols
fix_coff_symbols-Linked get_proc_ex m sec symbols sym_count strings imports fits apart =
    fix_symbols-Linked sym_count get_proc_ex m sec symbols strings imports 1 fits apart
