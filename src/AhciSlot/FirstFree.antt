-- ===== src/AhciSlot/FirstFree.antt =====
-- The slot found is the first free one.
use kolibri_os_reloaded.Base.{
  ℕ, zero, suc, ◌+◌, ◌-◌, ◌/◌, ◌%◌, ◌^◌, ◌<◌, ◌≡◌, ◌⊎◌, inl, inr, refl, arith, u32, eq_cases,
}
use kolibri_os_reloaded.Base.Bits.{test_bit}
use kolibri_os_reloaded.Base.Fields.{bit_and_mask}
use kolibri_os_reloaded.AhciSlot.{scan_slots, ahci_find_cmdslot}

-- Slot `i + k` is the first free one of the `left` slots from `i` on, or all of them are busy.
abbrev SlotOutcome : ℕ → ℕ → ℕ → ℕ → Type 0
SlotOutcome left i bits r =
    ((k : ℕ) × (k < left)
      × (r ≡ i + k)
      × (test_bit bits k ≡ 0)
      × ((j : ℕ) → j < k → test_bit bits j ≡ 1))
    ⊎ ((r ≡ 2 ^ 32 - 1) × ((j : ℕ) → j < left → test_bit bits j ≡ 1))

busy_before :
    (bits n : ℕ)
    → bits % 2 ≡ 1
    → ((j : ℕ) → j < n → test_bit (bits / 2) j ≡ 1)
    → (j : ℕ) → j < suc n
    → test_bit bits j ≡ 1
unfolding test_bit
busy_before bits n busy rest zero h = busy
busy_before bits n busy rest (suc j) h = rest j (omega arith)

first_busy :
    (left i bits r : ℕ)
    → bits % 2 ≡ 1
    → SlotOutcome left (i + 1) (bits / 2) r
    → SlotOutcome (suc left) i bits r
unfolding test_bit
first_busy left i bits r busy (inl (k, less, at, free, before)) =
    inl (suc k, omega arith, omega arith, free, busy_before bits k busy before)
first_busy left i bits r busy (inr (none, all)) = inr (none, busy_before bits left busy all)

module _ (left i bits : ℕ) where
  scan_slots_free : bits % 2 ≡ 0 → scan_slots (suc left) i bits ≡ i
  unfolding scan_slots
  scan_slots_free h = ground (arith, bit_and_mask 1 bits)

  scan_slots_busy :
      bits % 2 ≡ 1
      → i + 1 < 2 ^ 32
      → scan_slots (suc left) i bits ≡ scan_slots left (i + 1) (bits / 2)
  unfolding scan_slots
  scan_slots_busy h k =
      let next : u32 (i + 1) ≡ i + 1 = omega arith in rw next (ground (arith, bit_and_mask 1 bits))

scan_slots_outcome :
    (left i bits : ℕ) → i + left < 2 ^ 32 → SlotOutcome left i bits (scan_slots left i bits)
unfolding test_bit
scan_slots_outcome zero i bits h = inr (unfold scan_slots in refl, λ j k. absurd (omega arith))
scan_slots_outcome (suc left) i bits h = elim (eq_cases (bits % 2) 0) [
  | inl free ↦
      rw (scan_slots_free left i bits free)
        (inl (0, omega arith, omega arith, free, λ j k. absurd (omega arith)))
  | inr taken ↦
      (let busy : bits % 2 ≡ 1 = omega arith in
        rw (scan_slots_busy left i bits busy (omega arith)) (
          first_busy left i bits _ busy (scan_slots_outcome left (i + 1) (bits / 2) (omega arith))))
]

-- For fewer than 2^32 slots the result is the first of them whose bit is clear, or 2^32 - 1 if
-- every bit is set.
ahci_find_cmdslot_outcome :
    (slots ncs : ℕ) → ncs < 2 ^ 32 → SlotOutcome ncs 0 slots (ahci_find_cmdslot slots ncs)
unfolding ahci_find_cmdslot
ahci_find_cmdslot_outcome slots ncs h = scan_slots_outcome ncs 0 slots (omega arith)
