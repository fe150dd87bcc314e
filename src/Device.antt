-- ===== src/Device.antt =====
-- Waits and address translations of the device drivers, in rust_kernel/kolibri_utils/src:
-- ahci_port_wait.rs, get_pg_addr.rs, v86_get_lin_addr.rs and usb_td_to_virt.rs. The task file
-- register and the tick counter are read by functions that are passed in; they are parameters, the
-- readings in their order. Loops take fuel, and `none` means that it ran out.
pub mod Wait
pub mod Pages
pub mod Transfers
mod Examples
use kolibri_os_reloaded.Base.{
  ℕ, zero, suc, ◌+◌, ◌-◌, ◌*◌, ◌/◌, ◌%◌, ◌^◌, bit_and, bit_or, Bool, Option, none, some, ltb, leb,
  ◌==◌, if◌then◌else◌, u32, sub_u32, ◌>>>◌,
}
use kolibri_os_reloaded.Base.Bits.{bit_not}
use kolibri_os_reloaded.Base.Memory.{Memory, load_u32}

abbrev ata_dev_busy_drq_mask : ℕ
ata_dev_busy_drq_mask = 0x88

-- Round `i` reads the register, and then the ticks if the device is busy.
unfoldable pub wait_rounds : (ℕ → ℕ) → (ℕ → ℕ) → ℕ → ℕ → ℕ → Option ℕ
wait_rounds read_tfd read_ticks deadline zero i = none
wait_rounds read_tfd read_ticks deadline (suc fuel) i =
    let rest = wait_rounds read_tfd read_ticks deadline fuel (i + 1) in
    if bit_and (read_tfd i) ata_dev_busy_drq_mask == 0
    then some 0
    else if leb deadline (read_ticks (i + 1))
    then some 1
    else rest

-- The first reading of the ticks is the start.
unfoldable pub ahci_port_wait : (ℕ → ℕ) → (ℕ → ℕ) → ℕ → ℕ → Option ℕ
unfolding wait_rounds
ahci_port_wait read_tfd read_ticks timeout fuel =
    let start = read_ticks 0 in
    let deadline = u32 (start + timeout) in wait_rounds read_tfd read_ticks deadline fuel 0

abbrev page_size : ℕ
page_size = 4096

abbrev identity_window : ℕ
identity_window = 0x400000

unfoldable pub get_pg_addr : Memory → ℕ → ℕ → ℕ → ℕ
get_pg_addr m linear page_tabs os_base =
    let eax = sub_u32 linear os_base in
    let idx = u32 ((eax >>> 12) + (os_base >>> 12)) in
    let eax' = if leb identity_window eax then load_u32 m (page_tabs + 4 * idx) else eax in
    bit_and eax' (bit_not 32 (page_size - 1))

abbrev page_offset_mask : ℕ
page_offset_mask = 0xfff

abbrev pte_frame_mask : ℕ
pte_frame_mask = 0xfffff000

unfoldable pub v86_get_lin_addr : Memory → ℕ → ℕ → ℕ
v86_get_lin_addr m v86_addr page_tabs =
    let page = v86_addr >>> 12 in
    let pte = load_u32 m (page_tabs + 4 * page) in
    bit_or (bit_and v86_addr page_offset_mask) (bit_and pte pte_frame_mask)

abbrev td_page_next_off : ℕ
td_page_next_off = 4092

-- The pages hang on their last words; the result is the address, and the register it leaves.
unfoldable pub usb_td_to_virt : ℕ → Memory → ℕ → ℕ → ℕ → ℕ → Option (ℕ × ℕ)
unfolding get_pg_addr
usb_td_to_virt zero m page td_phys page_tabs os_base = none
usb_td_to_virt (suc fuel) m page td_phys page_tabs os_base =
    let page_phys = get_pg_addr m page page_tabs os_base in
    let offset = bit_and td_phys (page_size - 1) in
    let next = load_u32 m (u32 (page + td_page_next_off)) in
    let rest = usb_td_to_virt fuel m next td_phys page_tabs os_base in
    if page == 0
    then some (0, td_phys)
    else if ltb (sub_u32 td_phys page_phys) page_size
    then some (u32 (page + offset), offset)
    else rest
