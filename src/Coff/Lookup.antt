-- ===== src/Coff/Lookup.antt =====
-- `get_coff_sym` finds a symbol by its name.
use kolibri_os_reloaded.Base.{
  ℕ, zero, suc, ◌+◌, ◌-◌, ◌*◌, ◌^◌, ◌<◌, ◌≡◌, ◌≢◌, ◌⊎◌, inl, inr, refl, arith, true, false,
  eq_cases, sub_u32,
}
use kolibri_os_reloaded.Base.Memory.{Memory, load_u32, first_cell, next_cell}
use kolibri_os_reloaded.Base.Scan.{NoHit, first_hit_outcome}
use kolibri_os_reloaded.Coff.{name_eq_n_ptr, get_coff_sym, value_of}

-- Two names of at most `n` bytes, of which a NUL ends a shorter one, are the same.
abbrev SameName : ℕ → Memory → ℕ → ℕ → Type 0
SameName n m a b = (i : ℕ) → i < n → ((j : ℕ) → j < i → m (a + j) ≢ 0) → m (a + i) ≡ m (b + i)

name_eq_n_ptr-true :
    (n : ℕ) (m : Memory) (a b : ℕ) → name_eq_n_ptr n m a b ≡ true → SameName n m a b
unfolding name_eq_n_ptr
name_eq_n_ptr-true zero m a b e i less front = absurd (omega arith)
name_eq_n_ptr-true (suc n) m a b e zero less front = rw (first_cell a, first_cell b) (ground arith)
name_eq_n_ptr-true (suc n) m a b e (suc i) less front =
    let live = rw (first_cell a) at (front 0 (omega arith)) in
    let rest : name_eq_n_ptr n m (a + 1) (b + 1) ≡ true = ground arith in
    rw (next_cell a i, next_cell b i)
      (name_eq_n_ptr-true n m (a + 1) (b + 1) rest i (omega arith)
        λ j small. rw (next_cell a j) at (front (suc j) (omega arith)))

name_eq_n_ptr-false :
    (n : ℕ) (m : Memory) (a b : ℕ) → name_eq_n_ptr n m a b ≡ false → ¬ SameName n m a b
unfolding name_eq_n_ptr
name_eq_n_ptr-false zero m a b e same = absurd (ground arith)
name_eq_n_ptr-false (suc n) m a b e same =
    let first =
      rw (first_cell a, first_cell b) at (same 0 (omega arith) λ j small. absurd (omega arith)) in
    elim (eq_cases (m a) 0) [
      | inl nul ↦ absurd (ground arith)
      | inr live ↦
          (let rest : name_eq_n_ptr n m (a + 1) (b + 1) ≡ false = ground arith in
            name_eq_n_ptr-false n m (a + 1) (b + 1) rest λ i less front.
              rw (next_cell a i, next_cell b i) at
                (same (suc i) (omega arith) λ j small. elim (eq_cases j 0) [
                  | inl z ↦ rw (z, first_cell a) live
                  | inr p ↦
                      (let there : a + j ≡ a + 1 + (j - 1) = omega arith in
                        rw there (front (j - 1) (omega arith)))
                ]))
    ]

-- What a lookup returns.
abbrev pub Found : Memory → ℕ → ℕ → ℕ → ℕ → Type 0
Found m p_sym count sz_sym result =
    ((result ≡ 0) × ((i : ℕ) → i < count → ¬ SameName 8 m (p_sym + 18 * i) sz_sym))
    ⊎ ((k : ℕ) × (k < count)
        × (result ≡ load_u32 m (p_sym + 18 * k + 8))
        × SameName 8 m (p_sym + 18 * k) sz_sym
        × ((i : ℕ) → i < k → ¬ SameName 8 m (p_sym + 18 * i) sz_sym))

-- In a table of at least one symbol the lookup returns the value of the first symbol that has the
-- name, or 0 when none has.
pub get_coff_sym-Found :
    (m : Memory) (p_sym count sz_sym : ℕ)
    → 0 < count
    → count < 2 ^ 32
    → Found m p_sym count sz_sym (get_coff_sym m p_sym count sz_sym)
unfolding get_coff_sym NoHit value_of
get_coff_sym-Found m p_sym count sz_sym some_left small =
    let rounds : sub_u32 count 1 + 1 ≡ count = omega arith in
    rw rounds (elim (first_hit_outcome (λ sym. name_eq_n_ptr 8 m sym sz_sym) 18 count p_sym) [
      | inl (missed, all) ↦
          rw missed
            (inl (refl, λ i less. name_eq_n_ptr-false 8 m (p_sym + 18 * i) sz_sym (all i less)))
      | inr (k, found, less, here, before) ↦ rw found (
          inr (
            k,
            less,
            refl,
            name_eq_n_ptr-true 8 m (p_sym + 18 * k) sz_sym here,
            λ i small'. name_eq_n_ptr-false 8 m (p_sym + 18 * i) sz_sym (before i small'),
          ))
    ])
