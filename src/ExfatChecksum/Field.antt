-- ===== src/ExfatChecksum/Field.antt =====
-- The field and the checksum that is verified later.
use kolibri_os_reloaded.Base.{
  ℕ, zero, suc, ◌+◌, ◌^◌, ◌≤◌, ◌<◌, ◌≡◌, ◌⊎◌, inl, inr, refl, sym, ◌∙◌, arith, Bool, true, ◌&&◌,
  ◌||◌, ◌==◌, Bool-cases, if◌then◌else◌,
}
use kolibri_os_reloaded.Base.Memory.{Memory, load_u16, store_u16}
use kolibri_os_reloaded.Base.Memory.{store_u16_frame, load_u16-store_u16}
use kolibri_os_reloaded.ExfatChecksum.{
  rolled, roll_bytes, exfat_rolling_checksum, calculate_set_checksum_field_sum,
  calculate_set_checksum_field,
}

rolled-lt : (sum byte : ℕ) → rolled sum byte < 2 ^ 16
unfolding rolled
rolled-lt sum byte = omega arith

roll_bytes-lt :
    (left : ℕ) (m : Memory) (start : ℕ) (skip : Bool) (i sum : ℕ)
    → sum < 2 ^ 16
    → roll_bytes left m start skip i sum < 2 ^ 16
unfolding roll_bytes
roll_bytes-lt zero m start skip i sum h = h
roll_bytes-lt (suc left) m start skip i sum h =
    roll_bytes-lt left m start skip (i + 1)
      (if skip && ((i == 2) || (i == 3)) then sum else rolled sum (m (start + i)))
      (ground (arith, rolled-lt sum (m (start + i))))

-- Bytes at the indices that are left out do not matter.
same_roll :
    (left : ℕ) (m : Memory) (start v : ℕ) (i sum : ℕ)
    → roll_bytes left (store_u16 m (start + 2) v) start true i sum
      ≡ roll_bytes left m start true i sum
unfolding roll_bytes
same_roll zero m start v i sum = refl
same_roll (suc left) m start v i sum = elim (Bool-cases ((i == 2) || (i == 3))) [
  | inl e ↦ rw e (same_roll left m start v (i + 1) sum)
  | inr e ↦
      (let cell = store_u16_frame m (start + 2) v (start + i) (ground arith) in
        rw (e, cell) (same_roll left m start v (i + 1) (rolled sum (m (start + i)))))
]

-- The field that is filled in reads back as the checksum of the entries it is part of: the checksum
-- over the result is the stored word. No byte outside the field changes.
pub calculate_set_checksum_field-verifies :
    (m : Memory) (buf len : ℕ)
    → let m' = (calculate_set_checksum_field m buf len).0 in
      (load_u16 m' (buf + 2) ≡ calculate_set_checksum_field_sum m' buf len)
      × ((calculate_set_checksum_field m buf len).1 ≡ calculate_set_checksum_field_sum m' buf len)
      × ((a : ℕ) → (a < buf + 2) ⊎ (buf + 4 ≤ a) → m' a ≡ m a)
unfolding calculate_set_checksum_field calculate_set_checksum_field_sum exfat_rolling_checksum
calculate_set_checksum_field-verifies m buf len =
    let sum = roll_bytes len m buf true 0 0 in
    let same = same_roll len m buf sum 0 0 in
    (
      load_u16-store_u16 m (buf + 2) sum (roll_bytes-lt len m buf true 0 0 (omega arith))
          ∙ sym same,
      sym same,
      λ a out. store_u16_frame m (buf + 2) sum a (ground arith),
    )
