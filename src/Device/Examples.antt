-- ===== src/Device/Examples.antt =====
-- A device that is ready in the third round, and pages of transfer descriptors, with the theorems
-- there.
use kolibri_os_reloaded.Base.{
  ℕ, ◌-◌, ◌^◌, ◌≡◌, refl, arith, ◌==◌, if◌then◌else◌, ltb, some, [], ◌∷◌,
}
use kolibri_os_reloaded.Base.Memory.{Memory, IsBytes, load_u32}
use kolibri_os_reloaded.Device.{ahci_port_wait, wait_rounds, get_pg_addr, usb_td_to_virt}
use kolibri_os_reloaded.Device.Wait.{Waited, ahci_port_wait-Waited}
use kolibri_os_reloaded.Device.Transfers.{HasPages, Located, usb_td_to_virt-Located}

-- Busy twice, then ready; a tick passes in each round.
abbrev register : ℕ → ℕ
register i = if ltb i 2 then 0x80 else 0x50

ready_in_time : ahci_port_wait register (λ i. i) 10 100 ≡ some 0
unfolding ahci_port_wait wait_rounds
ready_in_time = refl

time_is_up : ahci_port_wait register (λ i. i) 1 100 ≡ some 1
unfolding ahci_port_wait wait_rounds
time_is_up = refl

-- A deadline that wraps around is past at once.
wrapped_deadline : ahci_port_wait register (λ i. 2 ^ 32 - 1) 2 100 ≡ some 1
unfolding ahci_port_wait wait_rounds
wrapped_deadline = refl

ahci_port_wait-Waited_example :
    Waited register (λ i. i) 10 0 (ahci_port_wait register (λ i. i) 10 100)
ahci_port_wait-Waited_example =
    ahci_port_wait-Waited register (λ i. i) 10 100 9 (omega arith) (omega arith)

-- The kernel's base is 2^31 and the table is at 0. The page at 0x80001000 hangs on none.
abbrev memory : Memory
memory a = if a == 9 then 7 else 0

memory-IsBytes : IsBytes memory
memory-IsBytes a = ground arith

one_page : HasPages memory 0x80001000 (0x80001000 ∷ [])
unfolding HasPages load_u32
one_page = (refl, omega arith, refl)

usb_td_to_virt-Located_example :
    Located memory
      (0x80001000 ∷ [])
      0x1020
      0
      0x80000000
      (usb_td_to_virt 2 memory 0x80001000 0x1020 0 0x80000000)
usb_td_to_virt-Located_example =
    usb_td_to_virt-Located (0x80001000 ∷ []) memory 0x80001000 0x1020 0 0x80000000 2 memory-IsBytes
      (omega arith) one_page (omega arith)

found_again : usb_td_to_virt 2 memory 0x80001000 0x1020 0 0x80000000 ≡ some (0x80001020, 0x20)
unfolding usb_td_to_virt get_pg_addr load_u32
found_again = refl
