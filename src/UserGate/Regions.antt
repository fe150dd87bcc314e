-- ===== src/UserGate/Regions.antt =====
-- The regions and strings that are accepted.
use kolibri_os_reloaded.Base.{
  ℕ, ◌+◌, ◌-◌, ◌*◌, ◌%◌, ◌^◌, ◌≤◌, ◌<◌, ◌≡◌, ◌≢◌, ◌↔◌, ◌⊎◌, inl, inr, refl, ap, arith, Option, none,
  some, Bool, true, false, not, ltb, leb, ◌==◌, Bool-cases, eq_cases, if◌then◌else◌,
}
use kolibri_os_reloaded.Base.Memory.{Memory, IsBytes, load_u32, load_u32-lt}
use kolibri_os_reloaded.Base.Scan.{NoHit, first_hit_outcome}
use kolibri_os_reloaded.UserGate.{
  is_region_userspace, is_string_userspace, fs_op_safe_buffer_len_ex, region_gate_zf,
  file_system_is_operation_safe,
}

-- A region from a program address that ends in the lower half of the address space, or exactly at its
-- very end.
abbrev IsAccepted : ℕ → ℕ → Type 0
IsAccepted base len = (base < 2 ^ 31) × ((base + len ≤ 2 ^ 31) ⊎ (base + len ≡ 2 ^ 32))

gate_iff : (base len : ℕ) → len < 2 ^ 32 → (region_gate_zf base len ≡ 1) ↔ IsAccepted base len
unfolding region_gate_zf
gate_iff base len h = ground arith

is_region_userspace-region_gate_zf :
    (base len : ℕ) → is_region_userspace base len ≡ region_gate_zf base len
unfolding is_region_userspace region_gate_zf
is_region_userspace-region_gate_zf base len = refl

-- The length of the buffer that a file system function fills, modulo 2^32, if the function is known.
abbrev pub buffer_of : ℕ → ℕ → ℕ → Option ℕ
buffer_of subfn encoding count =
    if subfn == 1
    then some (((if leb encoding 1 then 304 else 560) * count + 32) % 2 ^ 32)
    else if leb subfn 3
    then some count
    else if subfn == 5
    then some 40
    else if subfn == 6
    then some 32
    else none

-- An accepted request, by the length of its buffer.
abbrev pub BufferIsAccepted : ℕ → Option ℕ → Type 0
BufferIsAccepted base none = Unit
BufferIsAccepted base (some len) = IsAccepted base len

gate_of : Bool × ℕ → ℕ → ℕ
gate_of (known, len) base = if not known then 1 else region_gate_zf base len

pair_of : Option ℕ → Bool × ℕ
pair_of none = (false, 0)
pair_of (some len) = (true, len)

buffer_lengths :
    (subfn encoding count : ℕ)
    → fs_op_safe_buffer_len_ex subfn encoding count ≡ pair_of (buffer_of subfn encoding count)
unfolding fs_op_safe_buffer_len_ex pair_of
buffer_lengths subfn encoding count = elim (eq_cases subfn 0) [
  | inl zero_fn ↦ rw zero_fn refl
  | inr not_zero ↦
      (let n0 : ((subfn == 0) ≡ false) = ground arith in
        elim (eq_cases subfn 1) [
          | inl one_fn ↦ rw one_fn (elim (Bool-cases (leb encoding 1)) [
            | inl e ↦ rw e (ap (λ (l : ℕ). (true, l)) (omega arith))
            | inr e ↦ rw e (ap (λ (l : ℕ). (true, l)) (omega arith))
          ])
          | inr not_one ↦
              (let n1 : ((subfn == 1) ≡ false) = ground arith in
                elim (Bool-cases (leb subfn 3)) [
                  | inl low ↦ rw (n0, n1, low) refl
                  | inr high ↦ elim (Bool-cases (subfn == 5)) [
                    | inl five ↦ rw (n0, n1, high, five) refl
                    | inr not_five ↦ elim (Bool-cases (subfn == 6)) [
                      | inl six ↦ rw (n0, n1, high, not_five, six) refl
                      | inr not_six ↦ rw (n0, n1, high, not_five, not_six) refl
                    ]
                  ]
                ])
        ])
]

gate_of-pair_of :
    (o : Option ℕ) (base : ℕ)
    → ((len : ℕ) → o ≡ some len → len < 2 ^ 32)
    → (gate_of (pair_of o) base ≡ 1) ↔ BufferIsAccepted base o
unfolding gate_of pair_of
gate_of-pair_of none base h = (λ _. tt, λ _. refl)
gate_of-pair_of (some len) base h = gate_iff base len (h len refl)

buffer_of-lt :
    (subfn encoding count len : ℕ)
    → count < 2 ^ 32
    → buffer_of subfn encoding count ≡ some len
    → len < 2 ^ 32
buffer_of-lt subfn encoding count len h e = ground arith

-- A request on bytes is accepted exactly when its function is not one of 0, 1, 2, 3, 5 and 6, or its
-- buffer starts at a program address and ends in the lower half of the address space or exactly at
-- 2^32. The length of the buffer of function 1 is taken modulo 2^32.
pub file_system_is_operation_safe_outcome :
    (m : Memory) (inf : ℕ)
    → IsBytes m
    → (file_system_is_operation_safe m inf ≡ 1)
      ↔ BufferIsAccepted
          (load_u32 m (inf + 16))
          (buffer_of (load_u32 m inf) (load_u32 m (inf + 8)) (load_u32 m (inf + 12)))
unfolding file_system_is_operation_safe gate_of
file_system_is_operation_safe_outcome m inf bytes =
    let o = buffer_of (load_u32 m inf) (load_u32 m (inf + 8)) (load_u32 m (inf + 12)) in
    rw (buffer_lengths (load_u32 m inf) (load_u32 m (inf + 8)) (load_u32 m (inf + 12))) (
      gate_of-pair_of o (load_u32 m (inf + 16)) (λ len e.
        buffer_of-lt (load_u32 m inf) (load_u32 m (inf + 8)) (load_u32 m (inf + 12)) len
          (load_u32-lt m (inf + 12) bytes) e))

-- A string from a program address is accepted exactly when one of its first 65536 bytes that lie in
-- the lower half of the address space is zero.
is_string_userspace_outcome :
    (m : Memory) (base : ℕ)
    → base < 2 ^ 31
    → ((is_string_userspace m base ≡ 1)
        × ((k : ℕ) × (k < 2 ^ 16) × (base + k < 2 ^ 31) × (m (base + k) ≡ 0)))
      ⊎ ((is_string_userspace m base ≡ 0)
          × ((k : ℕ) → k < 2 ^ 16 → base + k < 2 ^ 31 → m (base + k) ≢ 0))
unfolding is_string_userspace NoHit
is_string_userspace_outcome m base h =
    let left : (2 ^ 31 + 2 ^ 32 - base) % 2 ^ 32 ≡ 2 ^ 31 - base = omega arith in
    let limit : ℕ = if ltb 0x10000 (2 ^ 31 - base) then 0x10000 else 2 ^ 31 - base in
    let inside : ltb (2 ^ 31 - 1) base ≡ false = ground arith in
    let there : (k : ℕ) → base + 1 * k ≡ base + k = λ k. omega arith in
    elim (first_hit_outcome (λ edi. m edi == 0) 1 limit base) [
      | inl (missed, all) ↦ inr (
        rw (left, inside, missed) refl,
        λ k small low. (let other = rw (there k) at (all k (ground arith)) in λ e. ground arith),
      )
      | inr (k, hit, below, holds, before) ↦ inl (
        rw (left, inside, hit) refl,
        (k, ground arith, ground arith, (let zero_byte = rw (there k) at holds in ground arith)),
      )
    ]
