-- ===== src/Strings/Move.antt =====
-- `memmove`: a copy by dwords and then by bytes, right for moves down and for windows that do not
-- meet.
use kolibri_os_reloaded.Base.{
  ℕ, zero, suc, ◌+◌, ◌-◌, ◌*◌, ◌/◌, ◌%◌, ◌^◌, ◌≤◌, ◌<◌, ◌≡◌, ◌⊎◌, inl, refl, arith, ◌∙◌, ◌==◌, true,
  false, le_i32, bit_and,
}
use native.Mathlib.Decide.{dec_lt}
use kolibri_os_reloaded.Base.Memory.{
  Memory, IsBytes, load_u32, store_u32, store_u8, store_u32_frame, store_u32-IsBytes, first_cell,
  next_cell, store_u8_same, store_u8_other,
}
use kolibri_os_reloaded.Base.Fields.{bit_and_mask, bit_and-dword}
use kolibri_os_reloaded.Base.Bits.{bit_not}
use kolibri_os_reloaded.Strings.{move_dwords, move_bytes, memmove}

-- A forward copy of `n` bytes is right: it goes down, or the windows do not meet.
abbrev IsForward : ℕ → ℕ → ℕ → Type 0
IsForward from to n = (to ≤ from) ⊎ (from + n ≤ to)

move_bytes_frame :
    (n : ℕ) (m : Memory) (from to a : ℕ) → (a < to) ⊎ (to + n ≤ a) → move_bytes n m from to a ≡ m a
unfolding move_bytes
move_bytes_frame zero m from to a out = refl
move_bytes_frame (suc n) m from to a out =
    move_bytes_frame n _ (from + 1) (to + 1) a (ground arith)
    ∙ store_u8_other m to (m from) a (ground arith)

move_bytes_at :
    (n : ℕ) (m : Memory) (from to k : ℕ)
    → IsForward from to n
    → k < n
    → move_bytes n m from to (to + k) ≡ m (from + k)
unfolding move_bytes
move_bytes_at zero m from to k forward less = absurd (omega arith)
move_bytes_at (suc n) m from to zero forward less =
    rw (first_cell to, first_cell from)
      (move_bytes_frame n _ (from + 1) (to + 1) to (inl (omega arith))
        ∙ store_u8_same m to (m from))
move_bytes_at (suc n) m from to (suc k) forward less =
    rw (next_cell to k, next_cell from k)
      (move_bytes_at n _ (from + 1) (to + 1) k (ground arith) (omega arith)
        ∙ store_u8_other m to (m from) (from + 1 + k) (ground arith))

-- A dword that is stored is the dword that was loaded, byte by byte.
store_u32-load_u32 :
    (m : Memory) (from to k : ℕ)
    → IsBytes m
    → k < 4
    → store_u32 m to (load_u32 m from) (to + k) ≡ m (from + k)
unfolding store_u32 load_u32 store_u8
store_u32-load_u32 m from to k bytes less =
    ground (arith, bytes from, bytes (from + 1), bytes (from + 2), bytes (from + 3))

move_dwords_frame :
    (n : ℕ) (m : Memory) (from to a : ℕ)
    → (a < to) ⊎ (to + n * 4 ≤ a)
    → (move_dwords n m from to).0 a ≡ m a
unfolding move_dwords
move_dwords_frame zero m from to a out = refl
move_dwords_frame (suc n) m from to a out =
    move_dwords_frame n _ (from + 4) (to + 4) a (ground arith)
    ∙ store_u32_frame m to (load_u32 m from) a (ground arith)

move_dwords_pointers :
    (n : ℕ) (m : Memory) (from to : ℕ)
    → ((move_dwords n m from to).1 ≡ from + n * 4) × ((move_dwords n m from to).2 ≡ to + n * 4)
unfolding move_dwords
move_dwords_pointers zero m from to = (omega arith, omega arith)
move_dwords_pointers (suc n) m from to =
    let esi : from + suc n * 4 ≡ from + 4 + n * 4 = omega arith in
    let edi : to + suc n * 4 ≡ to + 4 + n * 4 = omega arith in
    rw (esi, edi) (move_dwords_pointers n _ (from + 4) (to + 4))

move_dwords_at :
    (n : ℕ) (m : Memory) (from to k : ℕ)
    → IsBytes m
    → IsForward from to (n * 4)
    → k < n * 4
    → (move_dwords n m from to).0 (to + k) ≡ m (from + k)
unfolding move_dwords
move_dwords_at zero m from to k bytes forward less = absurd (omega arith)
move_dwords_at (suc n) m from to k bytes forward less = elim (dec_lt k 4) [
  | yes first ↦
      move_dwords_frame n _ (from + 4) (to + 4) (to + k) (inl (omega arith))
      ∙ store_u32-load_u32 m from to k bytes first
  | no later ↦
      (let dest : to + k ≡ to + 4 + (k - 4) = omega arith in
        let src : from + k ≡ from + 4 + (k - 4) = omega arith in
        rw (dest, src)
          (move_dwords_at n _ (from + 4) (to + 4) (k - 4)
              (store_u32-IsBytes m to (load_u32 m from) bytes) (ground arith) (omega arith)
            ∙ store_u32_frame m to (load_u32 m from) (from + 4 + (k - 4)) (ground arith)))
]

-- The dwords, then the rest of the bytes.
move_both :
    (n rest : ℕ) (m : Memory) (from to : ℕ)
    → IsBytes m
    → IsForward from to (n * 4 + rest)
    → ((k : ℕ)
        → k < n * 4 + rest
        → move_bytes rest (move_dwords n m from to).0 (from + n * 4) (to + n * 4) (to + k)
          ≡ m (from + k))
      × ((a : ℕ)
          → (a < to) ⊎ (to + (n * 4 + rest) ≤ a)
          → move_bytes rest (move_dwords n m from to).0 (from + n * 4) (to + n * 4) a ≡ m a)
move_both n rest m from to bytes forward = (
  λ k less. elim (dec_lt k (n * 4)) [
    | yes first ↦
        move_bytes_frame rest _ (from + n * 4) (to + n * 4) (to + k) (inl (omega arith))
        ∙ move_dwords_at n m from to k bytes (ground arith) first
    | no later ↦
        (let dest : to + k ≡ to + n * 4 + (k - n * 4) = omega arith in
          let src : from + k ≡ from + n * 4 + (k - n * 4) = omega arith in
          rw (dest, src)
            (move_bytes_at rest _ (from + n * 4) (to + n * 4) (k - n * 4) (ground arith)
                (omega arith)
              ∙ move_dwords_frame n m from to (from + n * 4 + (k - n * 4)) (ground arith)))
  ],
  λ a out.
      move_bytes_frame rest _ (from + n * 4) (to + n * 4) a (ground arith)
      ∙ move_dwords_frame n m from to a (ground arith),
)

-- A count that is not positive as an i32 moves nothing.
memmove_nothing :
    (m : Memory) (from to nbytes : ℕ)
    → nbytes < 2 ^ 32
    → (nbytes ≡ 0) ⊎ (2 ^ 31 ≤ nbytes)
    → memmove m from to nbytes ≡ m
unfolding memmove
memmove_nothing m from to nbytes h none_positive = ground arith

memmove_both :
    (m : Memory) (from to nbytes : ℕ)
    → 0 < nbytes
    → nbytes < 2 ^ 31
    → memmove m from to nbytes
      ≡ move_bytes
          (nbytes % 4)
          (move_dwords (nbytes / 4) m from to).0
          (from + nbytes / 4 * 4)
          (to + nbytes / 4 * 4)
unfolding memmove move_dwords
memmove_both m from to nbytes h k =
    let low : bit_and nbytes 3 ≡ nbytes % 4 = bit_and_mask 2 nbytes in
    let high : bit_and nbytes (bit_not 32 3) ≡ nbytes / 4 * 4 =
      bit_and-dword nbytes (omega arith) in
    let positive : le_i32 nbytes 0 ≡ false = ground arith in
    let (esi, edi) = move_dwords_pointers (nbytes / 4) m from to in
    elim (dec_lt nbytes 4) [
      | yes few ↦
          (let test : (nbytes / 4 * 4 == 0) ≡ true = ground arith in
            let none_whole : nbytes / 4 ≡ 0 = omega arith in
            let all_rest : nbytes % 4 ≡ nbytes = omega arith in
            let src : from + 0 * 4 ≡ from = omega arith in
            let dest : to + 0 * 4 ≡ to = omega arith in
            rw (positive, high, test, all_rest, none_whole, src, dest) refl)
      | no many ↦
          (let test : (nbytes / 4 * 4 == 0) ≡ false = ground arith in
            rw (positive, high, test, low, esi, edi) refl)
    ]

-- For a positive i32 count, `memmove` copies every byte if it goes down or the windows do not meet,
-- and leaves every byte outside the destination as it was.
pub memmove_lem :
    (m : Memory) (from to nbytes : ℕ)
    → IsBytes m
    → 0 < nbytes
    → nbytes < 2 ^ 31
    → IsForward from to nbytes
    → ((k : ℕ) → k < nbytes → memmove m from to nbytes (to + k) ≡ m (from + k))
      × ((a : ℕ) → (a < to) ⊎ (to + nbytes ≤ a) → memmove m from to nbytes a ≡ m a)
memmove_lem m from to nbytes bytes h k forward =
    let parts : nbytes / 4 * 4 + nbytes % 4 ≡ nbytes = omega arith in
    let moved = move_both (nbytes / 4) (nbytes % 4) m from to bytes (rw parts forward) in
    rw (memmove_both m from to nbytes h k)
      (λ i less. moved.0 i (rw parts less), λ a out. moved.1 a (rw parts out))
