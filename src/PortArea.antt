-- ===== src/PortArea.antt =====
-- I/O port permissions and reservations: rust_kernel/kolibri_utils/src/io_access.rs and
-- port_area.rs. The state is the two memory blocks that the routines get pointers to: the table of
-- reserved ranges (a count dword, then 16-byte entries 1, 2, ...: thread, first port, last port)
-- and the I/O permission bitmap of the task state segment, where a set bit denies the port.
pub mod Ranges
pub mod Table
pub mod Invariant
pub mod Reserve
pub mod Free
pub mod System
pub mod Threads
mod Examples
use kolibri_os_reloaded.Base.{
  ℕ, zero, suc, ◌+◌, ◌*◌, Bool, true, false, ◌&&◌, ◌||◌, not, ltb, leb, ◌==◌, if◌then◌else◌, u32,
  sub_u32,
}
use kolibri_os_reloaded.Base.Memory.{Memory, load_u32, store_u32, store_u8}
use kolibri_os_reloaded.Base.Bitmap.{bts, btr}

pub record Ports : Type 0 where
  pub reserved_ports : Memory
  pub io_map : Memory

-- 0 allows the port (`btr`), anything else denies it (`bts`).
pub set_io_access_rights : ℕ → ℕ → Memory → Memory
set_io_access_rights port clear_access io_map =
    if clear_access == 0 then btr io_map port else bts io_map port

-- `loop { set(port); if port == end { break; } port += 1 }` for at most `rounds` rounds. Both ranges
-- call it with the number of rounds that the loop makes.
pub set_range : ℕ → ℕ → ℕ → ℕ → Memory → Memory
unfolding set_io_access_rights
set_range zero clear_access port end io_map = io_map
set_range (suc rounds) clear_access port end io_map =
    let map = set_io_access_rights port clear_access io_map in
    let rest = set_range rounds clear_access (u32 (port + 1)) end map in
    if port == end then map else rest

pub enable_range : ℕ → ℕ → Memory → Memory
unfolding set_range
enable_range start end io_map = set_range (suc (sub_u32 end start)) 0 start end io_map

pub disable_range : ℕ → ℕ → Memory → Memory
unfolding set_range
disable_range start end io_map = set_range (suc (sub_u32 end start)) 1 start end io_map

-- The fields of entry `i`.
pub entry_tid : Memory → ℕ → ℕ
entry_tid table i = load_u32 table (i * 16)

pub entry_start : Memory → ℕ → ℕ
entry_start table i = load_u32 table (i * 16 + 4)

pub entry_end : Memory → ℕ → ℕ
entry_end table i = load_u32 table (i * 16 + 8)

-- The walk over the entries `eax`, ..., 1 that looks for an overlap.
pub overlaps : Memory → ℕ → ℕ → ℕ → Bool
unfolding entry_start entry_end
overlaps table start end zero = false
overlaps table start end (suc eax) =
    let rest = overlaps table start end eax in
    if leb start (entry_end table (suc eax)) && leb (entry_start table (suc eax)) end
    then true
    else rest

pub write_entry : Memory → ℕ → ℕ → ℕ → ℕ → Memory
write_entry table i tid start end =
    store_u32 (store_u32 (store_u32 table (i * 16) tid) (i * 16 + 4) start) (i * 16 + 8) end

-- The new state and the result: 0 for success, 1 for an error.
pub reserve_port_area : ℕ → ℕ → ℕ → Ports → Ports × ℕ
unfolding overlaps write_entry enable_range
reserve_port_area start end tid s =
    let count = load_u32 s.reserved_ports 0 in
    if ltb end start || leb 65536 end
    then (s, 1)
    else if not (count == 0) && (leb 255 count || overlaps s.reserved_ports start end count)
    then (s, 1)
    else (
      record {
        reserved_ports =
            write_entry (store_u32 s.reserved_ports 0 (u32 (count + 1))) (u32 (count + 1)) tid start
              end;
        io_map = enable_range start end s.io_map;
      },
      0,
    )

-- The forward byte copy that closes the gap of the entry at `edi`.
pub copy_down : ℕ → ℕ → Memory → Memory
copy_down zero edi table = table
copy_down (suc bytes) edi table = copy_down bytes (edi + 1) (store_u8 table edi (table (edi + 16)))

pub remove_entry : ℕ → Memory → Memory
unfolding copy_down
remove_entry eax table =
    let moved = copy_down (sub_u32 256 eax * 16) (eax * 16) table in
    store_u32 moved 0 (sub_u32 (load_u32 moved 0) 1)

-- The walk over the entries `eax`, ..., 1 that looks for the exact range of the thread.
pub free_walk : ℕ → ℕ → ℕ → Ports → ℕ → Ports × ℕ
unfolding entry_tid entry_start entry_end remove_entry disable_range
free_walk start end tid s zero = (s, 1)
free_walk start end tid s (suc eax) =
    let rest = free_walk start end tid s eax in
    if entry_tid s.reserved_ports (suc eax) == tid
      && entry_start s.reserved_ports (suc eax) == start
      && entry_end s.reserved_ports (suc eax) == end
    then (
      record {
        reserved_ports = remove_entry (suc eax) s.reserved_ports;
        io_map = disable_range start end s.io_map;
      },
      0,
    )
    else rest

pub free_port_area : ℕ → ℕ → ℕ → Ports → Ports × ℕ
unfolding free_walk
free_port_area start end tid s = free_walk start end tid s (load_u32 s.reserved_ports 0)

-- System call 46: 0 reserves, anything else frees.
pub r_f_port_area : ℕ → ℕ → ℕ → ℕ → Ports → Ports × ℕ
unfolding reserve_port_area free_port_area
r_f_port_area op start end tid s =
    if op == 0 then reserve_port_area start end tid s else free_port_area start end tid s
