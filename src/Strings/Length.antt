-- ===== src/Strings/Length.antt =====
-- C strings in memory, and `strlen`.
use kolibri_os_reloaded.Base.{
  ℕ, zero, suc, ◌+◌, ◌^◌, ◌<◌, ◌≡◌, ◌≢◌, ap, sym, arith, some, u32, sub_u32,
}
use kolibri_os_reloaded.Base.Memory.{Memory, first_cell, next_cell}
use kolibri_os_reloaded.Strings.{scan_length, strlen}

-- At `s` there are `n` bytes that are not 0, then a 0, and none of it is past the address space.
pub record IsCstring (m : Memory) (s n : ℕ) : Type 0 where
  pub filled : (i : ℕ) → i < n → m (s + i) ≢ 0
  pub ended : m (s + n) ≡ 0
  pub fits : s + n < 2 ^ 32

pub IsCstring-tail : (m : Memory) (s n : ℕ) → IsCstring m s (suc n) → IsCstring m (s + 1) n
IsCstring-tail m s n c = record {
  filled = λ i h. rw (sym (next_cell s i)) (c.filled (suc i) (omega arith));
  ended = rw (sym (next_cell s n)) c.ended;
  fits = omega (arith, c.fits);
}

scan_length_lem :
    (fuel : ℕ) (m : Memory) (edi ecx n : ℕ)
    → n < fuel
    → ecx < 2 ^ 32
    → IsCstring m edi n
    → scan_length fuel m edi ecx ≡ some (sub_u32 ecx (n + 1))
unfolding scan_length
scan_length_lem zero m edi ecx n h k c = absurd (omega arith)
scan_length_lem (suc fuel) m edi ecx zero h k c = ground (arith, rw (first_cell edi) at c.ended)
scan_length_lem (suc fuel) m edi ecx (suc n) h k c =
    let next : u32 (edi + 1) ≡ edi + 1 = omega (arith, c.fits) in
    let rest =
      scan_length_lem fuel m (edi + 1) (sub_u32 ecx 1) n (omega arith) (omega arith)
        (IsCstring-tail m edi n c) in
    let count : sub_u32 (sub_u32 ecx 1) (n + 1) ≡ sub_u32 ecx (suc n + 1) = omega (arith, c.fits) in
    rw (next, rest, count) (ground (arith, rw (first_cell edi) at (c.filled 0 (omega arith))))

-- On a C string of `n` bytes before the NUL `strlen` ends and returns `n`.
strlen_lem : (m : Memory) (s n : ℕ) → IsCstring m s n → strlen m s ≡ some n
unfolding strlen
strlen_lem m s n c =
    let scanned =
      scan_length_lem (2 ^ 32) m s (sub_u32 0 1) n (omega (arith, c.fits)) (omega arith) c in
    rw scanned (ap some (omega (arith, c.fits)))
