-- ===== src/PortArea/Ranges.antt =====
-- What a range update does to the permission bitmap.
use kolibri_os_reloaded.Base.{
  ℕ, zero, suc, ◌+◌, ◌≤◌, ◌<◌, ◌≡◌, arith, ◌&&◌, leb, ◌==◌, if◌then◌else◌, u32, sub_u32, Bool-cases,
  inl, inr,
}
use kolibri_os_reloaded.Base.Memory.{Memory, IsBytes}
use kolibri_os_reloaded.Base.Bitmap.{map_bit, bts-IsBytes, btr-IsBytes, map_bit-bts, map_bit-btr}
use kolibri_os_reloaded.PortArea.{set_io_access_rights, set_range, enable_range, disable_range}

set_io_access_rights-IsBytes :
    (port clear_access : ℕ) (m : Memory)
    → IsBytes m
    → IsBytes (set_io_access_rights port clear_access m)
unfolding set_io_access_rights
set_io_access_rights-IsBytes port clear_access m h = elim (Bool-cases (clear_access == 0)) [
  | inl allow ↦ rw allow (btr-IsBytes m port h)
  | inr deny ↦ rw deny (bts-IsBytes m port h)
]

-- The permission of the port changes as asked, and no other port's does.
map_bit-set_io_access_rights :
    (port clear_access j : ℕ) (m : Memory)
    → IsBytes m
    → map_bit (set_io_access_rights port clear_access m) j
      ≡ (if port == j then (if clear_access == 0 then 0 else 1) else map_bit m j)
unfolding set_io_access_rights
map_bit-set_io_access_rights port clear_access j m h =
    ground (arith, map_bit-btr m port j h, map_bit-bts m port j)

set_range-IsBytes :
    (rounds clear_access port end : ℕ) (m : Memory)
    → IsBytes m
    → IsBytes (set_range rounds clear_access port end m)
unfolding set_range
set_range-IsBytes zero clear_access port end m h = h
set_range-IsBytes (suc rounds) clear_access port end m h = elim (Bool-cases (port == end)) [
  | inl last ↦ rw last (set_io_access_rights-IsBytes port clear_access m h)
  | inr more ↦ rw more (
      set_range-IsBytes rounds clear_access (u32 (port + 1)) end _
        (set_io_access_rights-IsBytes port clear_access m h))
]

map_bit-set_range :
    (rounds clear_access port end j : ℕ) (m : Memory)
    → IsBytes m
    → port + rounds ≡ end + 1
    → 0 < rounds
    → end < 65536
    → map_bit (set_range rounds clear_access port end m) j
      ≡ (if leb port j && leb j end then (if clear_access == 0 then 0 else 1) else map_bit m j)
unfolding set_range
map_bit-set_range zero clear_access port end j m h e pos fits = absurd (omega arith)
map_bit-set_range (suc rounds) clear_access port end j m h e pos fits =
    elim (Bool-cases (port == end)) [
      | inl last ↦ rw last (ground (arith, map_bit-set_io_access_rights port clear_access j m h))
      | inr more ↦
          let following : u32 (port + 1) ≡ port + 1 = ground arith in
          rw (more, following)
            (ground (
              arith,
              map_bit-set_io_access_rights port clear_access j m h,
              map_bit-set_range rounds clear_access (port + 1) end j
                  (set_io_access_rights port clear_access m)
                  (set_io_access_rights-IsBytes port clear_access m h),
            ))
    ]

module _ (start end : ℕ) (m : Memory) (h : IsBytes m) where
  pub enable_range-IsBytes : IsBytes (enable_range start end m)
  unfolding enable_range
  enable_range-IsBytes = set_range-IsBytes (suc (sub_u32 end start)) 0 start end m h

  pub disable_range-IsBytes : IsBytes (disable_range start end m)
  unfolding disable_range
  disable_range-IsBytes = set_range-IsBytes (suc (sub_u32 end start)) 1 start end m h

  module _ (le : start ≤ end) (fits : end < 65536) (j : ℕ) where
    pub map_bit-enable_range :
        map_bit (enable_range start end m) j ≡ (if leb start j && leb j end then 0 else map_bit m j)
    unfolding enable_range
    map_bit-enable_range =
        map_bit-set_range (suc (sub_u32 end start)) 0 start end j m h (omega arith) (omega arith)
          fits

    pub map_bit-disable_range :
        map_bit (disable_range start end m) j
        ≡ (if leb start j && leb j end then 1 else map_bit m j)
    unfolding disable_range
    map_bit-disable_range =
        map_bit-set_range (suc (sub_u32 end start)) 1 start end j m h (omega arith) (omega arith)
          fits
