-- ===== src/PhysBitmap/FirstBit.antt =====
-- `trailing_zeros` finds the lowest set bit of a u32 that is not 0.
use kolibri_os_reloaded.Base.{ℕ, zero, suc, ◌/◌, ◌%◌, ◌^◌, ◌<◌, ◌≡◌, arith, ◌==◌}
use kolibri_os_reloaded.Base.{Bool-cases, inl, inr}
use kolibri_os_reloaded.Base.Bits.{test_bit}
use kolibri_os_reloaded.PhysBitmap.{count_zeros, trailing_zeros}
use native.Mathlib.Nat.{pow-suc}

pub record IsLowestBit (width word bit : ℕ) : Type 0 where
  pub in_width : bit < width
  pub is_set : test_bit word bit ≡ 1
  pub clear_below : (i : ℕ) → i < bit → test_bit word i ≡ 0

count_zeros-IsLowestBit :
    (width word : ℕ) → word < 2 ^ width → 0 < word → IsLowestBit width word (count_zeros width word)
unfolding count_zeros test_bit
count_zeros-IsLowestBit zero word h p = absurd (omega arith)
count_zeros-IsLowestBit (suc width) word h p = elim (Bool-cases (word % 2 == 0)) [
  | inl even ↦
      let rest =
        count_zeros-IsLowestBit width (word / 2) (omega (arith, pow-suc 2 width)) (ground arith) in
      rw even (record {
        in_width = omega (arith, rest.in_width);
        is_set = rest.is_set;
        clear_below = below (ground arith) rest.clear_below;
      })
  | inr odd ↦ rw odd (record {
    in_width = omega arith;
    is_set = ground arith;
    clear_below = λ i k. absurd (omega arith);
  })
]
  where
    below :
        {bit : ℕ}
        → word % 2 ≡ 0
        → ((i : ℕ) → i < bit → test_bit (word / 2) i ≡ 0)
        → (i : ℕ) → i < suc bit
        → test_bit word i ≡ 0
    below e f zero k = e
    below e f (suc i) k = f i (omega arith)

pub trailing_zeros-IsLowestBit :
    (word : ℕ) → word < 2 ^ 32 → 0 < word → IsLowestBit 32 word (trailing_zeros word)
unfolding trailing_zeros
trailing_zeros-IsLowestBit word h p = count_zeros-IsLowestBit 32 word h p
