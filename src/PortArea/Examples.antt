-- ===== src/PortArea/Examples.antt =====
-- The port table at concrete states.
use kolibri_os_reloaded.Base.{
  ℕ, zero, suc, ◌≡◌, ◌≢◌, ◌<◌, ◌≤◌, refl, sym, ◌∙◌, arith, List, [], ◌∷◌, ◌%◌, ◌==◌, if◌then◌else◌,
}
use kolibri_os_reloaded.Base.Memory.{Memory, load_u32, store_u32}
use kolibri_os_reloaded.Base.Bitmap.{map_bit}
use kolibri_os_reloaded.Base.Bits.{test_bit-bit_not, test_bit-zero}
use kolibri_os_reloaded.PortArea.{
  Ports, entry_tid, entry_start, entry_end, reserve_port_area, free_port_area,
}
use kolibri_os_reloaded.PortArea.Invariant.{IsValid}
use kolibri_os_reloaded.PortArea.Reserve.{CanReserve, ReserveOutcome, reserve_port_area_outcome}
use kolibri_os_reloaded.PortArea.System.{IsRestored, free_port_area-reserve_port_area}
use kolibri_os_reloaded.PortArea.Threads.{Request, KernelPorts, serve, IsFair, serve-IsFair}

-- No reservation, and every port denied.
abbrev fresh : Ports
fresh = record { reserved_ports = λ a. 0; io_map = λ a. 255 }

fresh-denied : (p : ℕ) → map_bit fresh.io_map p ≡ 1
unfolding map_bit
fresh-denied p =
    omega (arith, test_bit-bit_not 8 0 (p % 8) (omega arith) (omega arith), test_bit-zero (p % 8))

-- Every thread.
abbrev Anyone : ℕ → Type 0
Anyone tid = Unit

fresh-IsValid : IsValid Anyone fresh
unfolding load_u32
fresh-IsValid = record {
  table_bytes = λ a. omega arith;
  map_bytes = λ a. omega arith;
  count_le = omega arith;
  is_range = λ i pos le. absurd (omega arith);
  apart = λ i j pos lt le. absurd (omega arith);
  granted = λ i p pos le owned cover. absurd (omega arith);
  only = λ p small e. absurd (omega (arith, fresh-denied p));
}

serial-CanReserve : CanReserve fresh 0x3f8 0x3ff
unfolding load_u32
serial-CanReserve = record {
  in_order = omega arith;
  is_port = omega arith;
  has_room = omega arith;
  is_apart = λ i pos le. absurd (omega arith);
}

abbrev serial_taken : Ports
serial_taken = (reserve_port_area 0x3f8 0x3ff 7 fresh).0

reserve_serial : reserve_port_area 0x3ff 0x400 8 serial_taken ≡ (serial_taken, 1)
unfolding reserve_port_area load_u32 store_u32
reserve_serial = refl

reserve_port_area_outcome_example :
    ReserveOutcome Anyone fresh 0x3f8 0x3ff 7 (reserve_port_area 0x3f8 0x3ff 7 fresh)
reserve_port_area_outcome_example =
    reserve_port_area_outcome Anyone fresh 0x3f8 0x3ff 7 fresh-IsValid tt (omega arith)

abbrev two_calls : List Request
two_calls =
    record { op = 0; start = 0x3f8; end = 0x3ff; tid = 7 }
    ∷ record { op = 1; start = 0x3f8; end = 0x3ff; tid = 8 }
    ∷ []

-- The table as `reserve_irqs_ports` of the kernel fills it, for thread 1, with all ports denied in
-- all bitmaps.
abbrev seeded_table : Memory
seeded_table a =
    if a == 0
    then 4
    else if a == 16
    then 1
    else if a == 24
    then 0x2d
    else if a == 32
    then 1
    else if a == 36
    then 0x30
    else if a == 40
    then 0x4d
    else if a == 48
    then 1
    else if a == 52
    then 0x50
    else if a == 56
    then 0xdf
    else if a == 64
    then 1
    else if a == 68
    then 0xe5
    else if a == 72
    then 0xff
    else 0

abbrev seeded : KernelPorts
seeded = record { table = seeded_table; io_maps = λ tid. λ a. 255 }

-- The ranges of the four entries, which are in order.
seeded_range :
    (i : ℕ)
    → 0 < i
    → i ≤ 4
    → (entry_tid seeded_table i ≡ 1)
      × (entry_start seeded_table i
          ≡ (if i == 1 then 0 else if i == 2 then 0x30 else if i == 3 then 0x50 else 0xe5))
      × (entry_end seeded_table i
          ≡ (if i == 1 then 0x2d else if i == 2 then 0x4d else if i == 3 then 0xdf else 0xff))
unfolding entry_tid entry_start entry_end load_u32
seeded_range zero pos le = absurd (omega arith)
seeded_range (suc zero) pos le = (refl, refl, refl)
seeded_range (suc (suc zero)) pos le = (refl, refl, refl)
seeded_range (suc (suc (suc zero))) pos le = (refl, refl, refl)
seeded_range (suc (suc (suc (suc zero)))) pos le = (refl, refl, refl)
seeded_range (suc (suc (suc (suc (suc i))))) pos le = absurd (omega arith)

four_entries : load_u32 seeded_table 0 ≡ 4
unfolding load_u32
four_entries = refl

seeded-IsFair : IsFair (λ t. t ≢ 1) seeded
seeded-IsFair tid no_kernel = record {
  table_bytes = λ a. ground arith;
  map_bytes = λ a. omega arith;
  count_le = omega (arith, four_entries);
  is_range = λ i pos le. ground (arith, seeded_range i pos (omega (arith, four_entries, le)));
  apart = λ i j pos lt le.
      (let fits : j ≤ 4 = omega (arith, four_entries, le) in
        ground (
          arith,
          seeded_range i pos (omega (arith, four_entries, le)),
          seeded_range j (omega arith) (omega (arith, four_entries, le)),
        ));
  granted = λ i p pos le owned cover.
      absurd (no_kernel (sym owned ∙ (seeded_range i pos (omega (arith, four_entries, le))).0));
  only = λ p small e. absurd (omega (arith, fresh-denied p, e));
}

serve-IsFair_example : IsFair (λ t. t ≢ 1) (serve two_calls seeded)
serve-IsFair_example =
    serve-IsFair (λ t. t ≢ 1) two_calls seeded
      (λ e. absurd (omega arith), omega arith, (λ e. absurd (omega arith), omega arith, tt))
      seeded-IsFair

free_port_area-reserve_port_area_example :
    ((free_port_area 0x3f8 0x3ff 7 serial_taken).1 ≡ 0)
    × IsRestored fresh (free_port_area 0x3f8 0x3ff 7 serial_taken).0
free_port_area-reserve_port_area_example =
    free_port_area-reserve_port_area Anyone fresh 0x3f8 0x3ff 7 fresh-IsValid tt (omega arith)
      serial-CanReserve
