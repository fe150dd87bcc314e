-- ===== src/Network/Devices.antt =====
-- The number of a device and the slot of a fragment.
use kolibri_os_reloaded.Base.{
  ℕ, zero, suc, ◌+◌, ◌-◌, ◌*◌, ◌^◌, ◌<◌, ◌≡◌, ◌⊎◌, inl, inr, refl, sym, arith, none, some, false,
  ◌==◌, Bool-cases, eq_cases,
}
use kolibri_os_reloaded.Base.Memory.{Memory, load_u32, load_u16}
use kolibri_os_reloaded.Base.Scan.{first_hit, NoHit, first_hit_outcome}
use kolibri_os_reloaded.Network.{
  or_else, find_device_idx4, net_ptr_to_num4, net_ptr_to_num4_miss, slot_matches,
  ipv4_find_fragment_slot, net_devices_max,
}

same_slots :
    (m : Memory) (device list rounds i : ℕ)
    → or_else
        (first_hit (λ j. load_u32 m (list + 4 * j) == device) 1 rounds i)
        (λ j. some (4 * j))
        none
      ≡ first_hit (λ edi. load_u32 m (list + edi) == device) 4 rounds (4 * i)
unfolding first_hit
same_slots m device list zero i = refl
same_slots m device list (suc rounds) i =
    let there : 4 * (i + 1) ≡ 4 * i + 4 = omega arith in
    elim (Bool-cases (load_u32 m (list + 4 * i) == device)) [
      | inl e ↦ rw e refl
      | inr e ↦ rw e (rw there at (same_slots m device list rounds (i + 1)))
    ]

-- The public lookup of a device number and the router's own agree on the 16 slots.
net_ptr_to_num4-find_device_idx4 :
    (m : Memory) (device list : ℕ)
    → net_ptr_to_num4 m device list net_devices_max
      ≡ or_else (find_device_idx4 m device list) (λ edi. edi) net_ptr_to_num4_miss
unfolding net_ptr_to_num4 find_device_idx4
net_ptr_to_num4-find_device_idx4 m device list =
    let same = same_slots m device list 16 0 in
    elim (eq_cases device 0) [
      | inl e ↦ rw e refl
      | inr e ↦
          (let given : ((device == 0) ≡ false) = ground arith in
            elim (first_hit_outcome (λ j. load_u32 m (list + 4 * j) == device) 1 16 0) [
              | inl (missed, all) ↦ rw (given, missed, sym (rw missed at same)) refl
              | inr (k, found, below, here, before) ↦
                  rw (given, found, sym (rw found at same)) (omega arith)
            ])
    ]

-- The slot that is found is the first whose identification, source and destination are those of the
-- packet; the result is its address, or -1 when there is none. The address space does not end inside
-- the table.
ipv4_find_fragment_slot_outcome :
    (m : Memory) (packet fragments count : ℕ)
    → fragments + 16 * count < 2 ^ 32
    → ((ipv4_find_fragment_slot m packet fragments count ≡ 2 ^ 32 - 1)
        × ((i : ℕ) → i < count → slot_matches m packet fragments i ≡ false))
      ⊎ ((k : ℕ) × (k < count)
          × (ipv4_find_fragment_slot m packet fragments count ≡ fragments + 16 * k)
          × (load_u16 m (fragments + 16 * k + 2) ≡ load_u16 m (packet + 4))
          × (load_u32 m (fragments + 16 * k + 4) ≡ load_u32 m (packet + 12))
          × (load_u32 m (fragments + 16 * k + 8) ≡ load_u32 m (packet + 16))
          × ((i : ℕ) → i < k → slot_matches m packet fragments i ≡ false))
unfolding ipv4_find_fragment_slot NoHit slot_matches
ipv4_find_fragment_slot_outcome m packet fragments count room =
    let plain : (i : ℕ) → 0 + 1 * i ≡ i = λ i. omega arith in
    elim (first_hit_outcome (slot_matches m packet fragments) 1 count 0) [
      | inl (missed, all) ↦ inl (rw missed refl, λ i below. rw (plain i) at (all i below))
      | inr (k, found, below, here, before) ↦
          (let here' = rw (plain k) at here in
            inr (
              k,
              below,
              rw (found, plain k) (omega arith),
              ground (arith, here'),
              ground (arith, here'),
              ground (arith, here'),
              λ i small. rw (plain i) at (before i small),
            ))
    ]
