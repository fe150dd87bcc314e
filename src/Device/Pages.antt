-- ===== src/Device/Pages.antt =====
-- `get_pg_addr` and `v86_get_lin_addr`: page frames of addresses.
use kolibri_os_reloaded.Base.{
  ℕ, ◌+◌, ◌-◌, ◌*◌, ◌/◌, ◌%◌, ◌^◌, ◌≤◌, ◌<◌, bit_and, ◌≡◌, inl, inr, ◌∙◌, arith, true, false, ltb,
  leb, Bool-cases, if◌then◌else◌, u32, sub_u32,
}
use native.Mathlib.Decide.{dec_lt}
use kolibri_os_reloaded.Base.Bits.{bit_not}
use kolibri_os_reloaded.Base.Memory.{Memory, IsBytes, load_u32, load_u32-lt}
use kolibri_os_reloaded.Base.Fields.{bit_and_mask, bit_or_above, bit_and_split, bit_and-zero}
use kolibri_os_reloaded.Device.{get_pg_addr, v86_get_lin_addr}

frame_cleared : (x : ℕ) → x < 2 ^ 32 → bit_and x (bit_not 32 0xfff) ≡ x / 4096 * 4096
frame_cleared x h =
    let split = bit_and_split 12 (x / 4096) (2 ^ 20 - 1) (x % 4096) 0 (omega arith) (omega arith) in
    let whole : 2 ^ 12 * (x / 4096) + x % 4096 ≡ x = omega arith in
    rw (whole, bit_and_mask 20 (x / 4096), bit_and-zero (x % 4096)) at split ∙ omega arith

frame_of : (x : ℕ) → x < 2 ^ 32 → bit_and x 0xfffff000 ≡ x / 4096 * 4096
frame_of x h = frame_cleared x h

-- The frame of a kernel address: the address itself in the first 4 MiB from the kernel's base on,
-- and behind them what the page table has for its page. The base is at the start of a page.
get_pg_addr_lem :
    (m : Memory) (linear page_tabs os_base : ℕ)
    → IsBytes m
    → linear < 2 ^ 32
    → os_base ≤ linear
    → os_base % 4096 ≡ 0
    → get_pg_addr m linear page_tabs os_base ≡ (
        if ltb (linear - os_base) 0x400000
        then (linear - os_base) / 4096 * 4096
        else load_u32 m (page_tabs + 4 * (linear / 4096)) / 4096 * 4096)
unfolding get_pg_addr
get_pg_addr_lem m linear page_tabs os_base bytes small above aligned =
    let offset : sub_u32 linear os_base ≡ linear - os_base = omega arith in
    let index : u32 ((linear - os_base) / 2 ^ 12 + os_base / 2 ^ 12) ≡ linear / 4096 =
      omega arith in
    let entry = load_u32-lt m (page_tabs + 4 * (linear / 4096)) bytes in
    rw (offset, index)
      (elim (dec_lt (linear - os_base) 0x400000) [
        | yes p ↦
            (let low : (leb 0x400000 (linear - os_base) ≡ false) = ground arith in
              let low' : (ltb (linear - os_base) 0x400000 ≡ true) = ground arith in
              rw (low, low') (frame_cleared (linear - os_base) (omega arith)))
        | no p ↦
            (let high : (leb 0x400000 (linear - os_base) ≡ true) = ground arith in
              let high' : (ltb (linear - os_base) 0x400000 ≡ false) = ground arith in
              rw (high, high') (frame_cleared _ entry))
      ])

pub get_pg_addr_aligned :
    (m : Memory) (linear page_tabs os_base : ℕ)
    → IsBytes m
    → (get_pg_addr m linear page_tabs os_base % 4096 ≡ 0)
      × (get_pg_addr m linear page_tabs os_base < 2 ^ 32)
unfolding get_pg_addr
get_pg_addr_aligned m linear page_tabs os_base bytes =
    let eax = sub_u32 linear os_base in
    let entry = load_u32-lt m (page_tabs + 4 * u32 (eax / 2 ^ 12 + os_base / 2 ^ 12)) bytes in
    elim (Bool-cases (leb 0x400000 eax)) [
      | inl high ↦ rw high (let e = frame_cleared _ entry in rw e (omega arith, omega arith))
      | inr low ↦
          rw low (let e = frame_cleared eax (omega arith) in rw e (omega arith, omega arith))
    ]

-- A linear address of a virtual 8086 task has the frame that the table has for its page, and its
-- own offset in the page.
v86_get_lin_addr_lem :
    (m : Memory) (v86_addr page_tabs : ℕ)
    → IsBytes m
    → v86_get_lin_addr m v86_addr page_tabs
      ≡ load_u32 m (page_tabs + 4 * (v86_addr / 4096)) / 4096 * 4096 + v86_addr % 4096
unfolding v86_get_lin_addr
v86_get_lin_addr_lem m v86_addr page_tabs bytes =
    let entry = load_u32-lt m (page_tabs + 4 * (v86_addr / 4096)) bytes in
    rw (bit_and_mask 12 v86_addr, frame_of _ entry)
      (bit_or_above 12 (load_u32 m (page_tabs + 4 * (v86_addr / 4096)) / 4096) (v86_addr % 4096)
          (omega arith)
        ∙ omega arith)
