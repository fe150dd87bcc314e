-- ===== src/PortArea/Invariant.antt =====
-- Well-formedness of the reservation table and the permission bitmap together.
use kolibri_os_reloaded.Base.{ℕ, zero, suc, ◌≤◌, ◌<◌, ◌≡◌, ◌⊎◌}
use kolibri_os_reloaded.Base.{false, arith, refl}
use native.Mathlib.Decide.{dec_lt}
use kolibri_os_reloaded.Base.Memory.{IsBytes, load_u32}
use kolibri_os_reloaded.Base.Bitmap.{map_bit}
use kolibri_os_reloaded.PortArea.{Ports, entry_tid, entry_start, entry_end, overlaps}

abbrev pub count : Ports → ℕ
count s = load_u32 s.reserved_ports 0

-- Port `p` lies in the range of entry `i`.
abbrev pub IsCovered : Ports → ℕ → ℕ → Type 0
IsCovered s i p = (entry_start s.reserved_ports i ≤ p) × (p ≤ entry_end s.reserved_ports i)

-- The ranges `lo` to `hi` and entry `i` have no port in common.
abbrev pub IsApart : Ports → ℕ → ℕ → ℕ → Type 0
IsApart s lo hi i = (entry_end s.reserved_ports i < lo) ⊎ (hi < entry_start s.reserved_ports i)

-- At most 255 entries, each a range of ports, pairwise apart; and the bitmap allows exactly the
-- ports that lie in an entry of one of the threads that `mine` holds for. A thread has a bitmap of
-- its own, so that for the bitmap of a thread `mine` holds for this thread; the entries of other
-- threads, and those that the kernel puts into the table when it starts, are denied in it.
pub record IsValid (mine : ℕ → Type 0) (s : Ports) : Type 0 where
  pub table_bytes : IsBytes s.reserved_ports
  pub map_bytes : IsBytes s.io_map
  pub count_le : count s ≤ 255
  pub is_range :
      (i : ℕ)
      → 0 < i
      → i ≤ count s
      → (entry_start s.reserved_ports i ≤ entry_end s.reserved_ports i)
        × (entry_end s.reserved_ports i < 65536)
  pub apart :
      (i j : ℕ)
      → 0 < i
      → i < j
      → j ≤ count s
      → IsApart s (entry_start s.reserved_ports j) (entry_end s.reserved_ports j) i
  pub granted :
      (i p : ℕ)
      → 0 < i
      → i ≤ count s
      → mine (entry_tid s.reserved_ports i)
      → IsCovered s i p
      → map_bit s.io_map p ≡ 0
  pub only :
      (p : ℕ)
      → p < 65536
      → map_bit s.io_map p ≡ 0
      → (i : ℕ) × (0 < i) × (i ≤ count s) × mine (entry_tid s.reserved_ports i) × IsCovered s i p

module _ (s : Ports) (lo hi : ℕ) where
  -- The walk finds no overlap exactly when every entry that it visits is apart from the range.
  pub IsApart-of_no_overlap :
      (n : ℕ)
      → overlaps s.reserved_ports lo hi n ≡ false
      → (i : ℕ) → 0 < i
      → i ≤ n
      → IsApart s lo hi i
  unfolding overlaps
  IsApart-of_no_overlap zero e i pos le = absurd (omega arith)
  IsApart-of_no_overlap (suc n) e i pos le = elim (dec_lt i (suc n)) [
    | yes before ↦ IsApart-of_no_overlap n (ground arith) i pos (omega arith)
    | no last ↦ let here : i ≡ suc n = omega arith in rw here (ground arith)
  ]

  pub no_overlap :
      (n : ℕ)
      → ((i : ℕ) → 0 < i → i ≤ n → IsApart s lo hi i)
      → overlaps s.reserved_ports lo hi n ≡ false
  unfolding overlaps
  no_overlap zero h = refl
  no_overlap (suc n) h = ground (arith, h (suc n), no_overlap n (λ i pos le. h i pos (omega arith)))
